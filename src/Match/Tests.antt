-- ===== src/Match/Tests.antt =====
-- Invoices that match or do not, and the theorems about them applied there.
use integrations_challenge.Prelude.{
  ℕ, ◌≤◌, if◌then◌else◌, ◌≡◌, refl, true, false, List, [], ◌∷◌, Bytes, codes, some, ok, err, arith,
  bytes_eq, ◌*◌, ◌^◌,
}
use integrations_challenge.Prelude.Int.{pos, ◌+ℤ◌, ◌-ℤ◌}
use mathlib.Core.Bool.{xor}
use integrations_challenge.U128.{
  mul_pow10, mul_ten, from_u64, div_mod, is_zero, div_rest, cmp as cmp_u128, sub as sub_u128,
}
use integrations_challenge.Text.{trim_space, trim_left, reversed}
use integrations_challenge.Decimal.{
  Decimal, IsDecimal, new_decimal, mul_rate, magnitude, round_quotient, signed_result, rescale,
  narrow, widen, sign, add, align, add_aligned, equal, cmp,
}
use integrations_challenge.Dates.{
  days_in_month, is_before, compare_date, days_from_civil, floor_div, day_of_era,
}
use integrations_challenge.Dates.Text.{
  parse_date, atoi_fixed, make_date, digits_from, in_half_open_range,
}
use integrations_challenge.Match.{
  missing, found, Tables, Supplier, CostCenter, PurchaseOrder, FxRate, ApInvoice, ApInvoiceLine,
  UomConversion, daily_rate, convert_quantity, purchase_order, canonical_po_number,
  po_reference_number, line_total, sum_lines, cost_center, rates_of, best_rate, better,
}
use integrations_challenge.Match.Rates.{DailyRate, daily_rate-DailyRate}
use integrations_challenge.Match.Quantity.{
  Quantity, convert_quantity-Quantity, convert_quantity-exact,
}
use integrations_challenge.Match.Rules.{
  Matched, match_invoice, raised, po_closed, lines_of, supplier_rule, order_rule, totals_rule,
  center_rule, center_code, posting_date_of, rate_rule, units_rule, amount_rule,
}
use integrations_challenge.Match.Codes.{RaisesPublished, match_invoice-RaisesPublished}
use integrations_challenge.Match.Guarantee.{MatchedWithLines, match_invoice-Matched}

abbrev decimal_of : ℕ → ℕ → Decimal
decimal_of unscaled scale = record { unscaled = pos unscaled; scale = scale }

abbrev acme : Supplier
acme = record {
  supplier_number = codes "S1";
  name = codes "Acme";
  country = codes "CH";
  currency = codes "EUR";
  iban = [];
  vat_number = [];
  payment_terms_days = pos 30;
  blocked = false;
  change_seq = pos 1;
}

abbrev center : CostCenter
center = record {
  code = codes "0815";
  name = [];
  company_code = codes "CH10";
  valid_from = codes "2026-01-01";
  valid_to = [];
  blocked = false;
}

abbrev order_in : Bytes → PurchaseOrder
order_in status = record {
  po_number = codes "0042";
  supplier_number = codes "S1";
  company_code = codes "CH10";
  currency = codes "EUR";
  status = status;
  order_date = codes "2026-01-02";
  cost_center = codes "0815";
  change_seq = pos 1;
}

abbrev rate_row : Bytes → ℕ → ℕ → FxRate
rate_row from unscaled sequence = record {
  base = codes "EUR";
  quote = codes "CHF";
  valid_from = from;
  rate_type = codes "DAILY";
  valid_to = [];
  rate = decimal_of unscaled 4;
  rate_factor = pos 1;
  sequence = pos sequence;
  status = codes "ACTIVE";
}

abbrev rate_rows : List FxRate
rate_rows =
    rate_row (codes "2026-01-01") 9500 1
    ∷ rate_row (codes "2026-03-01") 9400 2
    ∷ rate_row (codes "2026-06-01") 9300 3
    ∷ []

abbrev line : ApInvoiceLine
line = record {
  line_no = codes "1";
  gl_account = [];
  cost_center = [];
  quantity = decimal_of 5 0;
  uom = codes "EA";
  unit_price = decimal_of 2000 2;
  line_amount = decimal_of 10000 2;
  tax_code = [];
}

abbrev invoice : ApInvoice
invoice = record {
  supplier_number = codes "S1";
  supplier_invoice_number = codes "R1";
  company_code = codes "CH10";
  document_type = codes "RE";
  document_date = codes "2026-03-02";
  receipt_date = [];
  po_number = codes "PO-42/00010";
  currency = codes "EUR";
  gross_amount = decimal_of 10810 2;
  vat_amount = decimal_of 810 2;
  vat_code = [];
  payment_terms_days = pos 30;
  discount_raw = [];
  discount_days = pos 0;
  cost_center = [];
  text = [];
  lines = line ∷ [];
}

abbrev tables : Bytes → Tables
tables status = record {
  stored_supplier = λ n. if bytes_eq n (codes "S1") then found acme else missing;
  stored_cost_center = λ n. if bytes_eq n (codes "0815") then found center else missing;
  stored_order = λ n. missing;
  stored_order_line = λ k. missing;
  scanned_orders = some (order_in status ∷ []);
  scanned_rates = some rate_rows;
  conversions = [];
  scanned_lines = some (λ k. []);
  history_reads = λ k. true;
}

abbrev matched : Matched
matched = record {
  order = some (order_in (codes "OPEN"));
  center = center;
  posting_date = codes "2026-03-02";
  rate = some (rate_row (codes "2026-03-01") 9400 2);
  factor = pos 1;
  amount = decimal_of 10161 2;
  warnings = [];
}

-- 108.10 EUR at 0.94, by an order in another spelling.
matches : match_invoice (tables (codes "OPEN")) (codes "S1-R1") (pos 1) [] invoice ≡ ok matched
unfolding match_invoice lines_of supplier_rule trim_space trim_left reversed order_rule
    purchase_order canonical_po_number po_reference_number totals_rule line_total sum_lines add
    align widen add_aligned equal cmp center_rule cost_center center_code posting_date_of parse_date
    atoi_fixed make_date days_in_month digits_from in_half_open_range is_before compare_date
    days_from_civil floor_div day_of_era ◌+ℤ◌ ◌-ℤ◌ rate_rule daily_rate rates_of best_rate better
    units_rule amount_rule xor new_decimal mul_rate mul_pow10 mul_ten magnitude from_u64 div_mod
    is_zero cmp_u128 round_quotient sub_u128 div_rest signed_result rescale narrow sign
matches = refl

closed :
    match_invoice (tables (codes "CLOSED")) (codes "S1-R1") (pos 1) [] invoice
    ≡ err (raised po_closed (codes "po_number"))
unfolding match_invoice lines_of supplier_rule trim_space trim_left reversed order_rule
    purchase_order canonical_po_number po_reference_number
closed = refl

match_invoice-Matched_example :
    MatchedWithLines (tables (codes "OPEN")) (codes "S1-R1") (pos 1) invoice matched
match_invoice-Matched_example =
    match_invoice-Matched (tables (codes "OPEN")) (codes "S1-R1") (pos 1) [] invoice matched matches

daily_rate-DailyRate_example :
    DailyRate
      (codes "EUR")
      (codes "2026-03-02")
      rate_rows
      (daily_rate (tables (codes "OPEN")) (codes "EUR") (codes "2026-03-02"))
daily_rate-DailyRate_example =
    daily_rate-DailyRate (tables (codes "OPEN")) (codes "EUR") (codes "2026-03-02") rate_rows refl

abbrev ratio : ℕ → ℕ → UomConversion
ratio numerator denominator = record {
  material = [];
  alt_uom = codes "BX";
  numerator = pos numerator;
  denominator = pos denominator;
  base_uom = codes "EA";
}

dozen : convert_quantity (decimal_of 5 1) (ratio 12 1) ≡ ok (decimal_of 6000 3)
unfolding convert_quantity xor new_decimal mul_rate mul_pow10 mul_ten magnitude from_u64 div_mod
    is_zero cmp_u128 round_quotient sub_u128 div_rest signed_result rescale narrow sign
dozen = refl

-- A ten-billionth is no number of three decimals, and comes out as zero.
vanishes : convert_quantity (decimal_of 1 0) (ratio 1 10000000000) ≡ ok (decimal_of 0 3)
unfolding convert_quantity xor new_decimal mul_rate mul_pow10 mul_ten magnitude from_u64 div_mod
    is_zero cmp_u128 round_quotient sub_u128 div_rest signed_result rescale narrow sign
vanishes = refl

small-IsDecimal : (n s : ℕ) → n ≤ 1000 → s ≤ 9 → IsDecimal (decimal_of n s)
small-IsDecimal n s h k = record { fits = omega arith; scale_le = k }

convert_quantity-Quantity_example :
    Quantity
      (decimal_of 1 0)
      (ratio 1 10000000000)
      (convert_quantity (decimal_of 1 0) (ratio 1 10000000000))
convert_quantity-Quantity_example =
    convert_quantity-Quantity (decimal_of 1 0) (ratio 1 10000000000)
      (small-IsDecimal 1 0 (omega arith) (omega arith)) (omega arith) (omega arith) (omega arith)

convert_quantity-exact_example : 6000 * (1 * 10 ^ 1) ≡ 5 * 12 * 1000
convert_quantity-exact_example =
    convert_quantity-exact (decimal_of 5 1) (ratio 12 1) (decimal_of 6000 3)
      (small-IsDecimal 5 1 (omega arith) (omega arith)) (omega arith) (omega arith) (omega arith)
      (omega arith) dozen

match_invoice-RaisesPublished_example :
    RaisesPublished (match_invoice (tables (codes "CLOSED")) (codes "S1-R1") (pos 1) [] invoice)
match_invoice-RaisesPublished_example =
    match_invoice-RaisesPublished (tables (codes "CLOSED")) (codes "S1-R1") (pos 1) [] invoice
