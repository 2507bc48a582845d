-- ===== src/Match.antt =====
-- internal/miniblp/match.go with the entities of internal/model/entities.go: what the matching engine
-- reads of the store, and the lookups of a matcher. A read of the store with the decoding of its
-- payload is an argument; a cache in front of such a read is left out.
pub mod Rules
pub mod Rates
pub mod Quantity
pub mod Sound
pub mod Guarantee
pub mod Codes
mod Tests
use integrations_challenge.Prelude.{
  ℕ, Bool, true, false, not, ◌&&◌, ◌||◌, List, [], ◌∷◌, ◌++◌, Bytes, codes, bytes_eq, Option, none,
  some, Result, ok, err, ◌>>=◌, ◌==◌, if◌then◌else◌, length, take, drop, ltb,
}
use integrations_challenge.Prelude.Int.{ℤ, pos, ltb_ℤ, ◌==ℤ◌}
use integrations_challenge.Text.{trim_space, sort_strings}
use integrations_challenge.Decimal.{Decimal, Error, new_decimal, mul_rate, rescale, max_scale, add}
use integrations_challenge.Decimal.Text.{is_digit, is_empty}
use integrations_challenge.Dates.Text.{in_half_open_range}

pub record Supplier : Type 0 where
  pub supplier_number : Bytes
  pub name : Bytes
  pub country : Bytes
  pub currency : Bytes
  pub iban : Bytes
  pub vat_number : Bytes
  pub payment_terms_days : ℤ
  pub blocked : Bool
  pub change_seq : ℤ

pub record CostCenter : Type 0 where
  pub code : Bytes
  pub name : Bytes
  pub company_code : Bytes
  pub valid_from : Bytes
  pub valid_to : Bytes
  pub blocked : Bool

pub record PurchaseOrder : Type 0 where
  pub po_number : Bytes
  pub supplier_number : Bytes
  pub company_code : Bytes
  pub currency : Bytes
  pub status : Bytes
  pub order_date : Bytes
  pub cost_center : Bytes
  pub change_seq : ℤ

pub record PurchaseOrderLine : Type 0 where
  pub po_number : Bytes
  pub line_no : Bytes
  pub material : Bytes
  pub description : Bytes
  pub quantity : Decimal
  pub uom : Bytes
  pub unit_price : Decimal
  pub currency : Bytes
  pub gl_account : Bytes
  pub cost_center : Bytes
  pub change_seq : ℤ

pub record FxRate : Type 0 where
  pub base : Bytes
  pub quote : Bytes
  pub valid_from : Bytes
  pub rate_type : Bytes
  pub valid_to : Bytes
  pub rate : Decimal
  pub rate_factor : ℤ
  pub sequence : ℤ
  pub status : Bytes

pub record ApInvoiceLine : Type 0 where
  pub line_no : Bytes
  pub gl_account : Bytes
  pub cost_center : Bytes
  pub quantity : Decimal
  pub uom : Bytes
  pub unit_price : Decimal
  pub line_amount : Decimal
  pub tax_code : Bytes

pub record ApInvoice : Type 0 where
  pub supplier_number : Bytes
  pub supplier_invoice_number : Bytes
  pub company_code : Bytes
  pub document_type : Bytes
  pub document_date : Bytes
  pub receipt_date : Bytes
  pub po_number : Bytes
  pub currency : Bytes
  pub gross_amount : Decimal
  pub vat_amount : Decimal
  pub vat_code : Bytes
  pub payment_terms_days : ℤ
  pub discount_raw : Bytes
  pub discount_days : ℤ
  pub cost_center : Bytes
  pub text : Bytes
  pub lines : List ApInvoiceLine

pub record UomConversion : Type 0 where
  pub material : Bytes
  pub alt_uom : Bytes
  pub numerator : ℤ
  pub denominator : ℤ
  pub base_uom : Bytes

-- A read of one record: the error of decodePayload, no record, or a record.
pub data Lookup (A : Type 0) : Type 0 where
  unreadable : Lookup A
  missing : Lookup A
  found : A → Lookup A

-- What the store holds for a matching run. A scan is `none` where a payload does not decode;
-- `conversions` are the rows that decode.
pub record Tables : Type 0 where
  pub stored_supplier : Bytes → Lookup Supplier
  pub stored_cost_center : Bytes → Lookup CostCenter
  pub stored_order : Bytes → Lookup PurchaseOrder
  pub stored_order_line : Bytes → Lookup PurchaseOrderLine
  pub scanned_orders : Option (List PurchaseOrder)
  pub scanned_rates : Option (List FxRate)
  pub conversions : List UomConversion
  pub scanned_lines : Option (Bytes → List ApInvoiceLine)
  pub history_reads : Bytes → Bool

-- The part of a reference before the first '/'.
abbrev before_slash : Bytes → Bytes
before_slash [] = []
before_slash (c ∷ s) = let rest = before_slash s in if c == b'/' then [] else c ∷ rest

-- The number of splitPOReference.
unfoldable pub po_reference_number : Bytes → Bytes
po_reference_number ref = trim_space (before_slash (trim_space ref))

abbrev pub all_digits : Bytes → Bool
all_digits [] = true
all_digits (c ∷ s) = is_digit c && all_digits s

-- strings.TrimLeft(s, "0")
abbrev pub trim_zeros : Bytes → Bytes
trim_zeros [] = []
trim_zeros (c ∷ s) = let rest = trim_zeros s in if c == b'0' then rest else c ∷ s

-- canonicalPONumber
unfoldable pub canonical_po_number : Bytes → Bytes
canonical_po_number s =
    let t = trim_space s in
    let digits = if bytes_eq (take 3 t) (codes "PO-") then trim_space (drop 3 t) else t in
    let trimmed = trim_zeros digits in
    if is_empty t
    then []
    else if is_empty digits || not (all_digits digits)
    then t
    else if is_empty trimmed
    then codes "0"
    else trimmed

-- The entry of the index by canonical number: a later order replaces an earlier one.
abbrev pub canonical_order : Bytes → List PurchaseOrder → Lookup PurchaseOrder
canonical_order number [] = missing
canonical_order number (po ∷ pos') = elim (canonical_order number pos') [
  | unreadable ↦ unreadable
  | missing ↦ if bytes_eq (canonical_po_number po.po_number) number then found po else missing
  | found later ↦ found later
]

-- purchaseOrder
unfoldable pub purchase_order : Tables → Bytes → Lookup PurchaseOrder
purchase_order t number = elim (t.stored_order (trim_space number)) [
  | unreadable ↦ unreadable
  | missing ↦ elim t.scanned_orders [
    | none ↦ unreadable
    | some orders ↦ canonical_order (canonical_po_number number) orders
  ]
  | found po ↦ found po
]

-- costCenter
unfoldable pub cost_center : Tables → Bytes → Lookup CostCenter
cost_center t code = if is_empty code then missing else t.stored_cost_center (trim_space code)

-- poLine
unfoldable pub po_line : Tables → Bytes → Bytes → Lookup PurchaseOrderLine
po_line t po_number line_no =
    if is_empty line_no
    then missing
    else t.stored_order_line (trim_space po_number ++ 0x1f ∷ trim_space line_no)

abbrev pub quote_currency : Bytes
quote_currency = codes "CHF"

-- The rows that dailyRate indexes, and those of a currency.
abbrev pub is_daily : FxRate → Bool
is_daily r =
    bytes_eq r.rate_type (codes "DAILY")
    && bytes_eq r.quote quote_currency
    && not (bytes_eq r.status (codes "DELETED"))

unfoldable pub rates_of : Bytes → List FxRate → List FxRate
rates_of currency [] = []
rates_of currency (r ∷ rs) =
    let rest = rates_of currency rs in
    if is_daily r && bytes_eq r.base currency then r ∷ rest else rest

-- The row that the loop of dailyRate keeps.
unfoldable pub better : Bool → FxRate → Option FxRate → Option FxRate
better false r best = best
better true r none = some r
better true r (some best) = if ltb_ℤ best.sequence r.sequence then some r else some best

-- The loop of dailyRate: a range that does not parse ends it without a rate.
unfoldable pub best_rate : Bytes → List FxRate → Option FxRate → Option FxRate
best_rate date [] best = best
best_rate date (r ∷ rs) best = elim (in_half_open_range date r.valid_from r.valid_to) [
  | none ↦ none
  | some inside ↦ best_rate date rs (better inside r best)
]

-- dailyRate
unfoldable pub daily_rate : Tables → Bytes → Bytes → Lookup FxRate
daily_rate t currency date = elim t.scanned_rates [
  | none ↦ unreadable
  | some rates ↦ elim (best_rate date (rates_of currency rates) none) [
    | none ↦ missing
    | some r ↦ found r
  ]
]

-- UoMConversion.Key, and a read of the table by it: a later row replaces an earlier one.
abbrev pub conversion_key : Bytes → Bytes → Bytes
conversion_key material unit = material ++ 0x1f ∷ unit

abbrev pub conversion_at : Bytes → List UomConversion → Option UomConversion
conversion_at key [] = none
conversion_at key (c ∷ cs) = elim (conversion_at key cs) [
  | none ↦ if bytes_eq (conversion_key c.material c.alt_uom) key then some c else none
  | some later ↦ some later
]

-- conversion
unfoldable pub conversion : Tables → Bytes → Bytes → Option UomConversion
conversion t material unit = elim (conversion_at (conversion_key material unit) t.conversions) [
  | none ↦ conversion_at (conversion_key [] unit) t.conversions
  | some c ↦ some c
]

pub data QuantityError : Type 0 where
  zero_denominator : QuantityError
  inconvertible : Error → QuantityError

abbrev pub quantity_result : Result Error Decimal → Result QuantityError Decimal
quantity_result (ok d) = ok d
quantity_result (err e) = err (inconvertible e)

-- convertQuantity
unfoldable pub convert_quantity : Decimal → UomConversion → Result QuantityError Decimal
convert_quantity qty conv =
    let base = do
      numerator ← new_decimal conv.numerator 0
      wide ← mul_rate qty numerator conv.denominator max_scale
      rescale wide 3
    in if conv.denominator ==ℤ pos 0 then err zero_denominator else quantity_result base

-- APInvoice.LineTotal
unfoldable pub sum_lines : Decimal → List ApInvoiceLine → Result Error Decimal
sum_lines sum [] = ok sum
sum_lines sum (l ∷ ls) = do next ← add sum l.line_amount; sum_lines next ls

-- The scale of the sum is that of the first line.
abbrev pub start_of : List ApInvoiceLine → Decimal
start_of [] = record { unscaled = pos 0; scale = 0 }
start_of (l ∷ ls) = record { unscaled = pos 0; scale = l.line_amount.scale }

unfoldable pub line_total : ApInvoice → Result Error Decimal
line_total i = sum_lines (start_of i.lines) i.lines
