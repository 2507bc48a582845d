-- ===== src/Posting.antt =====
-- internal/erp/posting.go: what an AP document posting is made of, and the business rules of
-- rejectPosting over the data that data.go indexes.
pub mod Book
pub mod Once
pub mod Ends
pub mod Again
pub mod Shape
pub mod Serve
pub mod Step
pub mod Runs
pub mod Resent
pub mod Numbers
pub mod Sample
mod Tests
use integrations_challenge.Prelude.{
  ℕ, ◌+◌, ◌*◌, ◌==◌, Bool, true, false, not, ◌&&◌, ◌||◌, List, [], ◌∷◌, ◌++◌, Bytes, codes,
  bytes_eq, Option, none, some, Result, ok, err, ◌>>=◌, ◌>>◌, fail_if, if◌then◌else◌, take, drop,
  ltb, update,
}
use integrations_challenge.Prelude.Int.{ℤ, pos, ltb_ℤ, leb_ℤ, ◌*ℕ◌, wrap}
use integrations_challenge.Text.{trim_space}
use integrations_challenge.Decimal.{Decimal, Error, sub, minor_units}
use integrations_challenge.Decimal.Text.{is_empty}
use integrations_challenge.Dates.Text.{parse_date, compare_dates}
use integrations_challenge.Match.{Supplier, CostCenter, PurchaseOrder, all_digits, trim_zeros}

pub record PostingItem : Type 0 where
  pub item_key : Bytes
  pub external_reference : Bytes
  pub company_code : Bytes
  pub supplier_number : Bytes
  pub supplier_invoice_number : Bytes
  pub document_type : Bytes
  pub document_date : Bytes
  pub posting_date : Bytes
  pub po_number : Bytes
  pub cost_center : Bytes
  pub currency : Bytes
  pub gross_amount : Decimal
  pub vat_amount : Decimal
  pub source_currency : Bytes
  pub source_gross_amount : Decimal
  pub fx_rate : Decimal
  pub fx_rate_factor : ℤ

pub record PostingResult : Type 0 where
  pub item_key : Bytes
  pub status : Bytes
  pub document_number : Bytes
  pub fiscal_year : ℤ
  pub posting_date : Bytes
  pub erp_revision : ℕ
  pub idempotency_replay : Bool
  pub duplicate : Bool
  pub code : Bytes
  pub retriable : Option Bool

pub record Document : Type 0 where
  pub document_number : Bytes
  pub fiscal_year : ℤ
  pub posting_date : Bytes
  pub revision : ℕ
  pub tenant : Bytes
  pub external_reference : Bytes
  pub company_code : Bytes
  pub supplier_number : Bytes
  pub supplier_invoice_number : Bytes
  pub document_type : Bytes
  pub document_date : Bytes
  pub currency : Bytes
  pub gross_amount : Decimal
  pub vat_amount : Decimal
  pub po_number : Bytes
  pub cost_center : Bytes
  pub idempotency_key : Bytes

abbrev pub status_posted : Bytes
status_posted = codes "posted"

abbrev pub status_rejected : Bytes
status_rejected = codes "rejected"

abbrev pub reject_supplier_unknown : Bytes
reject_supplier_unknown = codes "ERP_SUPPLIER_UNKNOWN"

abbrev pub reject_supplier_blocked : Bytes
reject_supplier_blocked = codes "ERP_SUPPLIER_BLOCKED"

abbrev pub reject_po_not_found : Bytes
reject_po_not_found = codes "ERP_PO_NOT_FOUND"

abbrev pub reject_po_closed : Bytes
reject_po_closed = codes "ERP_PO_CLOSED"

abbrev pub reject_period_closed : Bytes
reject_period_closed = codes "ERP_PERIOD_CLOSED"

abbrev pub reject_cost_center_unknown : Bytes
reject_cost_center_unknown = codes "ERP_COST_CENTER_UNKNOWN"

abbrev pub reject_amount_mismatch : Bytes
reject_amount_mismatch = codes "ERP_AMOUNT_MISMATCH"

abbrev pub amount_tolerance_percent : ℕ
amount_tolerance_percent = 5

abbrev pub tolerance_scale : ℕ
tolerance_scale = 4

-- The lookups of the indexed data: each map by what a read of it gives.
pub record Masters : Type 0 where
  pub supplier_by_number : Bytes → Option Supplier
  pub order_by_canonical : Bytes → Option PurchaseOrder
  pub cost_center_by_code : Bytes → Option CostCenter
  pub po_net_total : Bytes → Option Decimal
  pub closed_period_before : Bytes

-- seed.CanonicalPONumber
unfoldable pub seed_po_number : Bytes → Bytes
seed_po_number s =
    let t = trim_space s in
    let stripped = trim_zeros t in
    if is_empty t
    then []
    else if not (all_digits t)
    then t
    else if is_empty stripped
    then codes "0"
    else stripped

-- poKey
unfoldable pub po_key : Bytes → Bytes
po_key number =
    let t = trim_space number in
    seed_po_number (if bytes_eq (take 3 t) (codes "PO-") then drop 3 t else t)

abbrev has_slash : Bytes → Bool
has_slash [] = false
has_slash (c ∷ s) = (c == b'/') || has_slash s

-- The part of a text before its last '/', or the text.
abbrev before_last_slash : Bytes → Bytes
before_last_slash [] = []
before_last_slash (c ∷ s) =
    let rest = before_last_slash s in if (c == b'/') && not (has_slash s) then [] else c ∷ rest

-- The order number of seed.SplitPOReference.
unfoldable pub seed_reference_number : Bytes → Bytes
seed_reference_number ref = trim_space (before_last_slash (trim_space ref))

-- effectivePostingDate
unfoldable pub effective_posting_date : PostingItem → Bytes
effective_posting_date item =
    if is_empty item.posting_date then item.document_date else item.posting_date

-- withinAmountTolerance, `none` where the amounts are not comparable. The products are of int64s.
unfoldable pub within_amount_tolerance : Masters → PostingItem → PurchaseOrder → Option Bool
within_amount_tolerance d item po =
    let source = trim_space item.source_currency in
    if not (bytes_eq item.currency po.currency)
      || not (is_empty source) && not (bytes_eq source po.currency)
    then none
    else elim (sub item.gross_amount item.vat_amount) [
      | err e ↦ none
      | ok net ↦ elim (minor_units net tolerance_scale) [
        | err e ↦ none
        | ok net_minor ↦ elim (d.po_net_total (po_key po.po_number)) [
          | none ↦ none
          | some total ↦ elim (minor_units total tolerance_scale) [
            | err e ↦ none
            | ok total_minor ↦
                if leb_ℤ total_minor (pos 0)
                then none
                else some (
                    leb_ℤ (wrap (net_minor *ℕ 100))
                      (wrap (total_minor *ℕ (100 + amount_tolerance_percent))))
          ]
        ]
      ]
    ]

-- A lookup that a rule needs.
abbrev pub found_or : {A : Type 0} → Bytes → Option A → Result Bytes A
found_or code none = err code
found_or code (some a) = ok a

-- The order of a posting, where it names one.
unfoldable pub posting_order : Masters → PostingItem → Result Bytes (Option PurchaseOrder)
posting_order d item =
    let named = do
      po ←
          found_or reject_po_not_found
            (d.order_by_canonical (po_key (seed_reference_number item.po_number)))
      fail_if (not (bytes_eq po.status (codes "OPEN"))) reject_po_closed
      ok (some po)
    in if is_empty (trim_space item.po_number) then ok none else named

abbrev is_before_period : Option ℤ → Bool
is_before_period none = false
is_before_period (some order) = ltb_ℤ order (pos 0)

unfoldable pub posting_cost_center : Masters → PostingItem → Result Bytes (Unit {0})
posting_cost_center d item =
    let code = trim_space item.cost_center in
    let named = do
      cc ← found_or reject_cost_center_unknown (d.cost_center_by_code code)
      fail_if (not (bytes_eq cc.company_code item.company_code)) reject_cost_center_unknown
    in if is_empty code then ok tt else named

abbrev exceeds : Option Bool → Bool
exceeds none = false
exceeds (some within) = not within

unfoldable pub posting_amount :
    Masters → PostingItem → Option PurchaseOrder → Result Bytes (Unit {0})
posting_amount d item none = ok tt
posting_amount d item (some po) =
    fail_if (exceeds (within_amount_tolerance d item po)) reject_amount_mismatch

-- rejectPosting: an error is the code of the rejection.
unfoldable pub reject_posting : Masters → PostingItem → Result Bytes (Unit {0})
reject_posting d item = do
  supplier ← found_or reject_supplier_unknown (d.supplier_by_number item.supplier_number)
  fail_if supplier.blocked reject_supplier_blocked
  po ← posting_order d item
  fail_if (is_before_period (compare_dates (effective_posting_date item) d.closed_period_before))
      reject_period_closed
  posting_cost_center d item
  posting_amount d item po
