-- ===== src/Match/Rules.antt =====
-- internal/miniblp/match.go: the rules of matchInvoice, in their order. An exception is its code and
-- its field; its message, its details and its locator are left out.
use integrations_challenge.Prelude.{
  Bool, false, not, ◌&&◌, ◌||◌, List, [], ◌∷◌, ◌++◌, Bytes, codes, bytes_eq, Option, none, some,
  Result, ok, err, ◌>>=◌, ◌>>◌, fail_if, if◌then◌else◌, ◌==◌,
}
use integrations_challenge.Prelude.Int.{ℤ, pos, leb_ℤ, ◌==ℤ◌}
use integrations_challenge.Text.{trim_space, sort_strings}
use integrations_challenge.Proposals.{has_text}
use integrations_challenge.Decimal.{Decimal, add, equal, mul_rate}
use integrations_challenge.Decimal.Text.{is_empty}
use integrations_challenge.Dates.Text.{parse_date, in_half_open_range}
use integrations_challenge.Dates.Zurich.{zurich_date_of}
use integrations_challenge.Match.{
  Lookup, unreadable, missing, found, Tables, Supplier, CostCenter, PurchaseOrder, FxRate,
  ApInvoice, ApInvoiceLine, po_reference_number, purchase_order, cost_center, po_line, daily_rate,
  conversion, convert_quantity, line_total, quote_currency,
}

abbrev pub supplier_unknown : Bytes
supplier_unknown = codes "EXC_SUPPLIER_UNKNOWN"

abbrev pub supplier_blocked : Bytes
supplier_blocked = codes "EXC_SUPPLIER_BLOCKED"

abbrev pub po_not_found : Bytes
po_not_found = codes "EXC_PO_NOT_FOUND"

abbrev pub po_supplier_mismatch : Bytes
po_supplier_mismatch = codes "EXC_PO_SUPPLIER_MISMATCH"

abbrev pub po_closed : Bytes
po_closed = codes "EXC_PO_CLOSED"

abbrev pub totals_mismatch : Bytes
totals_mismatch = codes "EXC_TOTALS_MISMATCH"

abbrev pub cost_center_unknown : Bytes
cost_center_unknown = codes "EXC_COST_CENTER_UNKNOWN"

abbrev pub fx_rate_missing : Bytes
fx_rate_missing = codes "EXC_FX_RATE_MISSING"

abbrev pub uom_unmappable : Bytes
uom_unmappable = codes "EXC_UOM_UNMAPPABLE"

abbrev pub uom_unconvertible : Bytes
uom_unconvertible = codes "EXC_UOM_UNCONVERTIBLE"

abbrev pub duplicate_invoice_amended : Bytes
duplicate_invoice_amended = codes "EXC_DUPLICATE_INVOICE_AMENDED"

abbrev pub ack_rejected : Bytes
ack_rejected = codes "E_ACK_REJECTED"

abbrev pub uom_converted : Bytes
uom_converted = codes "W_UOM_CONVERTED"

-- ExceptionCodes
unfoldable pub exception_codes : List Bytes
exception_codes = sort_strings (
    cost_center_unknown ∷ duplicate_invoice_amended ∷ fx_rate_missing ∷ po_closed ∷ po_not_found
    ∷ po_supplier_mismatch ∷ supplier_blocked ∷ supplier_unknown ∷ totals_mismatch
    ∷ uom_unconvertible ∷ uom_unmappable ∷ ack_rejected ∷ [])

-- How matchInvoice stops before a proposal: an error of the store, or one exception.
pub data Stop : Type 0 where
  failed : Stop
  raised : (code field : Bytes) → Stop

-- What emitProposal is given.
pub record Matched : Type 0 where
  pub order : Option PurchaseOrder
  pub center : CostCenter
  pub posting_date : Bytes
  pub rate : Option FxRate
  pub factor : ℤ
  pub amount : Decimal
  pub warnings : List Bytes

abbrev pub fetch : {A : Type 0} → Lookup A → Result Stop (Option A)
fetch unreadable = err failed
fetch missing = ok none
fetch (found a) = ok (some a)

-- A value that a rule needs.
abbrev pub required : {A : Type 0} → Bytes → Bytes → Option A → Result Stop A
required code field none = err (raised code field)
required code field (some a) = ok a

abbrev pub computed : {E A : Type 0} → Bytes → Bytes → Result E A → Result Stop A
computed code field (ok a) = ok a
computed code field (err e) = err (raised code field)

-- linesOf
unfoldable pub lines_of : Tables → ApInvoice → Bytes → Result Stop (List ApInvoiceLine)
lines_of t inv key = elim inv.lines [
  | [] ↦ elim t.scanned_lines [ none ↦ err failed | some index ↦ ok (index key) ]
  | l ∷ ls ↦ ok (l ∷ ls)
]

-- Rule 1
unfoldable pub supplier_rule : Tables → ApInvoice → Result Stop Supplier
supplier_rule t inv = do
  s ← fetch (t.stored_supplier (trim_space inv.supplier_number))
  supplier ← required supplier_unknown (codes "supplier_number") s
  fail_if supplier.blocked (raised supplier_blocked (codes "supplier_number"))
  ok supplier

-- Rule 2
unfoldable pub order_rule : Tables → ApInvoice → Result Stop (Option PurchaseOrder)
order_rule t inv =
    let referenced = do
      o ← fetch (purchase_order t (po_reference_number inv.po_number))
      po ← required po_not_found (codes "po_number") o
      fail_if (not (bytes_eq po.supplier_number inv.supplier_number))
          (raised po_supplier_mismatch (codes "po_number"))
      fail_if (bytes_eq po.status (codes "CLOSED") || bytes_eq po.status (codes "CANCELLED"))
          (raised po_closed (codes "po_number"))
      ok (some po)
    in if is_empty (trim_space inv.po_number) then ok none else referenced

-- Rule 3
unfoldable pub totals_rule : ApInvoice → Result Stop Decimal
totals_rule inv = do
  line_sum ← computed totals_mismatch (codes "gross_amount") (line_total inv)
  want ← computed totals_mismatch (codes "gross_amount") (add line_sum inv.vat_amount)
  fail_if (not (equal want inv.gross_amount)) (raised totals_mismatch (codes "gross_amount"))
  ok want

-- The cost center that rule 4 reads.
unfoldable pub center_code : ApInvoice → Option PurchaseOrder → Bytes
center_code inv none = inv.cost_center
center_code inv (some po) = if is_empty inv.cost_center then po.cost_center else inv.cost_center

abbrev has_t : Bytes → Bool
has_t [] = false
has_t (c ∷ s) = (c == b'T') || has_t s

-- postingDateOf
unfoldable pub posting_date_of : ApInvoice → Option Bytes
posting_date_of inv =
    if has_t inv.document_date
    then zurich_date_of inv.document_date
    else elim (parse_date inv.document_date) [ none ↦ none | some d ↦ some inv.document_date ]

abbrev pub is_true : Option Bool → Bool
is_true none = false
is_true (some b) = b

-- Rule 4
unfoldable pub center_rule :
    Tables → ApInvoice → Option PurchaseOrder → Result Stop (CostCenter × Bytes)
center_rule t inv po = do
  c ← fetch (cost_center t (center_code inv po))
  center ← required cost_center_unknown (codes "cost_center") c
  fail_if (center.blocked || not (bytes_eq center.company_code inv.company_code))
      (raised cost_center_unknown (codes "cost_center"))
  posting_date ← required cost_center_unknown (codes "document_date") (posting_date_of inv)
  fail_if (not (is_true (in_half_open_range posting_date center.valid_from center.valid_to)))
      (raised cost_center_unknown (codes "cost_center"))
  ok (center, posting_date)

-- HasFxTable
abbrev pub has_fx_table : Bytes → Bool
has_fx_table company_code = not (bytes_eq company_code (codes "CH20"))

-- Rule 5
unfoldable pub rate_rule : Tables → ApInvoice → Bytes → Result Stop (Option FxRate)
rate_rule t inv posting_date =
    let foreign = do
      fail_if (not (has_fx_table inv.company_code)) (raised fx_rate_missing (codes "company_code"))
      r ← fetch (daily_rate t inv.currency posting_date)
      rate ← required fx_rate_missing (codes "currency") r
      ok (some rate)
    in if bytes_eq inv.currency quote_currency then ok none else foreign

-- appendCode
unfoldable pub append_code : List Bytes → Bytes → List Bytes
append_code list code = if has_text code list then list else sort_strings (list ++ code ∷ [])

-- The material of an invoice line, from the purchase order.
unfoldable pub material_of : Tables → Option PurchaseOrder → Bytes → Result Stop Bytes
material_of t none line_no = ok []
material_of t (some po) line_no = do
  l ← fetch (po_line t po.po_number line_no)
  ok (elim l [ none ↦ [] | some line ↦ line.material ])

-- Rule 6, one line.
unfoldable pub unit_rule :
    Tables → Option PurchaseOrder → ApInvoiceLine → List Bytes → Result Stop (List Bytes)
unit_rule t po line warnings = do
  material ← material_of t po line.line_no
  conv ← required uom_unmappable (codes "uom") (conversion t material line.uom)
  base ← computed uom_unconvertible (codes "quantity") (convert_quantity line.quantity conv)
  let converted = not (conv.numerator ==ℤ conv.denominator) && not (equal base line.quantity)
  ok (if converted then append_code warnings uom_converted else warnings)

unfoldable pub lines_rule :
    Tables → Option PurchaseOrder → List ApInvoiceLine → List Bytes → Result Stop (List Bytes)
lines_rule t po [] warnings = ok warnings
lines_rule t po (line ∷ lines) warnings = do
  warned ← unit_rule t po line warnings
  lines_rule t po lines warned

-- Rule 6
unfoldable pub units_rule :
    Tables → Option PurchaseOrder → List ApInvoiceLine → List Bytes → Result Stop (List Bytes)
units_rule t po lines warnings = elim t.conversions [
  | [] ↦ ok warnings
  | c ∷ cs ↦ lines_rule t po lines warnings
]

-- The factor of a rate, where one that is not positive counts as one.
abbrev pub factor_of : FxRate → ℤ
factor_of r = if leb_ℤ r.rate_factor (pos 0) then pos 1 else r.rate_factor

-- Rule 7: the amount in the quote currency with the factor it was converted by.
unfoldable pub amount_rule : ApInvoice → Option FxRate → Result Stop (ℤ × Decimal)
amount_rule inv none = ok (pos 0, inv.gross_amount)
amount_rule inv (some r) = do
  amount ←
      computed fx_rate_missing (codes "gross_amount")
        (mul_rate inv.gross_amount r.rate (factor_of r) 2)
  ok (factor_of r, amount)

-- matchInvoice, up to emitProposal, from an invoice of the store and its version; `doc_warnings`
-- are the warnings of its delivery.
unfoldable pub match_invoice : Tables → Bytes → ℤ → List Bytes → ApInvoice → Result Stop Matched
match_invoice t key version doc_warnings delivered = do
  lines ← lines_of t delivered key
  let inv : ApInvoice = record delivered { lines = lines }
  fail_if (leb_ℤ (pos 2) version && not (t.history_reads key)) failed
  fail_if (leb_ℤ (pos 2) version)
      (raised duplicate_invoice_amended (codes "supplier_invoice_number"))
  supplier ← supplier_rule t inv
  order ← order_rule t inv
  want ← totals_rule inv
  (center, posting_date) ← center_rule t inv order
  rate ← rate_rule t inv posting_date
  warnings ← units_rule t order lines doc_warnings
  (factor, amount) ← amount_rule inv rate
  ok (record {
    order = order;
    center = center;
    posting_date = posting_date;
    rate = rate;
    factor = factor;
    amount = amount;
    warnings = warnings;
  })
