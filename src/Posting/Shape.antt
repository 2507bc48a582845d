-- ===== src/Posting/Shape.antt =====
-- internal/erp/posting.go: decodePostingItems and validatePostingItem. What encoding/json reads of a
-- body is an argument. An error is its reason and its field; the item key in its details is left out.
use integrations_challenge.Prelude.{
  ℕ, Bool, not, ◌&&◌, ◌||◌, List, [], ◌∷◌, Bytes, codes, bytes_eq, Option, none, some, Result, ok,
  err, ◌>>=◌, ◌>>◌, fail_if, if◌then◌else◌, length, ltb, ◌==◌,
}
use integrations_challenge.Prelude.Int.{ℤ, pos, ltb_ℤ}
use integrations_challenge.Text.{trim_space}
use integrations_challenge.Decimal.{Decimal, minor_units}
use integrations_challenge.Decimal.Text.{is_empty}
use integrations_challenge.Dates.Text.{parse_date}
use integrations_challenge.Money.{currency_scale}
use integrations_challenge.Idempotency.{is_some}
use integrations_challenge.Match.{all_digits}
use integrations_challenge.Posting.{PostingItem}

pub record PostingItemWire : Type 0 where
  pub item_key : Bytes
  pub external_reference : Bytes
  pub company_code : Bytes
  pub supplier_number : Bytes
  pub supplier_invoice_number : Bytes
  pub document_type : Bytes
  pub document_date : Bytes
  pub posting_date : Bytes
  pub po_number : Bytes
  pub cost_center : Bytes
  pub currency : Bytes
  pub gross_amount : Option Decimal
  pub vat_amount : Option Decimal
  pub source_currency : Bytes
  pub source_gross_amount : Option Decimal
  pub fx_rate : Option Decimal
  pub fx_rate_factor : ℤ

-- malformedItem: the reason and the field of a 400.
pub record Malformed : Type 0 where
  pub reason : Bytes
  pub field : Bytes

abbrev pub malformed : Bytes → Bytes → Malformed
malformed reason field = record { reason = reason; field = field }

abbrev pub or_zero : Option Decimal → Decimal
or_zero none = record { unscaled = pos 0; scale = 0 }
or_zero (some d) = d

-- postingItemWire.item
unfoldable pub wire_item : PostingItemWire → Result Malformed PostingItem
wire_item w =
    let key = trim_space w.item_key in
    let reference = trim_space w.external_reference in
    elim w.gross_amount [
      | none ↦ err (malformed (codes "field_required") (codes "gross_amount"))
      | some gross ↦
          let item : PostingItem = record {
            item_key = if is_empty key then reference else key;
            external_reference = reference;
            company_code = trim_space w.company_code;
            supplier_number = trim_space w.supplier_number;
            supplier_invoice_number = trim_space w.supplier_invoice_number;
            document_type = trim_space w.document_type;
            document_date = trim_space w.document_date;
            posting_date = trim_space w.posting_date;
            po_number = trim_space w.po_number;
            cost_center = trim_space w.cost_center;
            currency = trim_space w.currency;
            gross_amount = gross;
            vat_amount = or_zero w.vat_amount;
            source_currency = trim_space w.source_currency;
            source_gross_amount = or_zero w.source_gross_amount;
            fx_rate = or_zero w.fx_rate;
            fx_rate_factor = w.fx_rate_factor;
          } in
          ok item
    ]

unfoldable pub wire_items : List PostingItemWire → Result Malformed (List PostingItem)
wire_items [] = ok []
wire_items (w ∷ ws) = do item ← wire_item w; items ← wire_items ws; ok (item ∷ items)

abbrev pub max_batch_items : ℕ
max_batch_items = 200

-- decodePostingItems. `parse` stands for encoding/json:
-- one item, or the items of an array or of an envelope, or the reason of malformedFromJSON.
unfoldable pub decode_posting_items :
    (Bytes → Bool → Result Bytes (List PostingItemWire))
    → Bytes
    → Bool
    → Result Malformed (List PostingItem)
decode_posting_items parse body batch =
    let decoded : Result Malformed (List PostingItem) = elim (parse (trim_space body) batch) [
      | err reason ↦ err (malformed reason [])
      | ok wires ↦
          if batch && (length wires == 0)
          then err (malformed (codes "items_required") (codes "items"))
          else if batch && ltb max_batch_items (length wires)
          then err (malformed (codes "too_many_items") (codes "items"))
          else wire_items wires
    ] in
    if is_empty (trim_space body) then err (malformed (codes "body_empty") []) else decoded

abbrev pub required_field : Bytes → Bytes → Result Malformed (Unit {0})
required_field name value = fail_if (is_empty value) (malformed (codes "field_required") name)

-- isSupplierNumberShape
unfoldable pub is_supplier_number_shape : Bytes → Bool
is_supplier_number_shape s = not (is_empty s) && not (ltb 10 (length s)) && all_digits s

abbrev pub is_known_company_code : Bytes → Bool
is_known_company_code code = bytes_eq code (codes "CH10") || bytes_eq code (codes "CH20")

abbrev pub is_known_document_type : Bytes → Bool
is_known_document_type t = bytes_eq t (codes "RE") || bytes_eq t (codes "GU")

abbrev pub is_valid_date : Bytes → Bool
is_valid_date s = is_some (parse_date s)

abbrev pub is_known_currency : Bytes → Bool
is_known_currency code = is_some (currency_scale code)

-- The check of an amount against the minor units of its currency.
abbrev pub minor_amount : Bytes → Decimal → ℕ → Result Malformed (Unit {0})
minor_amount name amount scale = elim (minor_units amount scale) [
  | err e ↦ err (malformed (codes "money_scale") name)
  | ok minor ↦ ok tt
]

-- validatePostingItem
unfoldable pub validate_posting_item : PostingItem → Result Malformed (Unit {0})
validate_posting_item item = do
  required_field (codes "external_reference") item.external_reference
  required_field (codes "company_code") item.company_code
  required_field (codes "supplier_number") item.supplier_number
  required_field (codes "supplier_invoice_number") item.supplier_invoice_number
  required_field (codes "document_type") item.document_type
  required_field (codes "document_date") item.document_date
  required_field (codes "currency") item.currency
  fail_if (not (is_known_company_code item.company_code))
      (malformed (codes "enum_unknown") (codes "company_code"))
  fail_if (not (is_known_document_type item.document_type))
      (malformed (codes "enum_unknown") (codes "document_type"))
  fail_if (not (is_supplier_number_shape item.supplier_number))
      (malformed (codes "supplier_number_format") (codes "supplier_number"))
  fail_if (not (is_valid_date item.document_date))
      (malformed (codes "date_format") (codes "document_date"))
  fail_if (not (is_empty item.posting_date) && not (is_valid_date item.posting_date))
      (malformed (codes "date_format") (codes "posting_date"))
  fail_if (not (is_known_currency item.currency))
      (malformed (codes "enum_unknown") (codes "currency"))
  fail_if (not (is_empty item.source_currency) && not (is_known_currency item.source_currency))
      (malformed (codes "enum_unknown") (codes "source_currency"))
  let check : Result Malformed (Unit {0}) = elim (currency_scale item.currency) [
    | none ↦ err (malformed (codes "enum_unknown") (codes "currency"))
    | some scale ↦ do
      minor_amount (codes "gross_amount") item.gross_amount scale
      minor_amount (codes "vat_amount") item.vat_amount scale
  ]
  check
  fail_if (ltb_ℤ item.fx_rate_factor (pos 0))
      (malformed (codes "number_format") (codes "fx_rate_factor"))

unfoldable pub validate_all : List PostingItem → Result Malformed (Unit {0})
validate_all [] = ok tt
validate_all (item ∷ items) = do validate_posting_item item; validate_all items
