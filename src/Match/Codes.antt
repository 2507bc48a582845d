-- ===== src/Match/Codes.antt =====
-- internal/miniblp/match.go: the exceptions that matchInvoice raises are the published ones.
use integrations_challenge.Prelude.{
  Bool, true, false, not, ◌&&◌, ◌||◌, List, [], ◌∷◌, Bytes, codes, bytes_eq, Option, none, some,
  Result, ok, err, ◌>>=◌, ◌>>◌, fail_if, if_elim, ◌≡◌, refl,
}
use integrations_challenge.Prelude.Int.{ℤ, pos, leb_ℤ}
use integrations_challenge.Text.{trim_space, sort_strings, insert_sorted}
use integrations_challenge.Proposals.{has_text}
use integrations_challenge.Decimal.{add, equal, mul_rate}
use integrations_challenge.Decimal.Text.{is_empty}
use integrations_challenge.Dates.Text.{in_half_open_range}
use integrations_challenge.Match.{
  Lookup, unreadable, missing, found, Tables, PurchaseOrder, FxRate, ApInvoice, ApInvoiceLine,
  po_reference_number, purchase_order, cost_center, po_line, daily_rate, conversion,
  convert_quantity, line_total, quote_currency,
}
use integrations_challenge.Match.Rules.{
  Stop, failed, raised, exception_codes, fetch, required, computed, lines_of, supplier_unknown,
  supplier_blocked, po_not_found, po_supplier_mismatch, po_closed, totals_mismatch,
  cost_center_unknown, fx_rate_missing, uom_unmappable, uom_unconvertible,
  duplicate_invoice_amended, supplier_rule, order_rule, totals_rule, center_code, center_rule,
  posting_date_of, is_true, has_fx_table, rate_rule, material_of, unit_rule, lines_rule, units_rule,
  factor_of, amount_rule, match_invoice,
}

-- A code of the published set.
abbrev pub IsPublished : Bytes → Type 0
IsPublished code = has_text code exception_codes ≡ true

-- A result that raises nothing else.
abbrev pub RaisesPublished : {A : Type 0} → Result Stop A → Type 0
RaisesPublished (ok a) = Unit
RaisesPublished (err failed) = Unit
RaisesPublished (err (raised code field)) = IsPublished code

bind-RaisesPublished :
    {A B : Type 0} (r : Result Stop A) (f : A → Result Stop B)
    → RaisesPublished r
    → ((a : A) → RaisesPublished (f a))
    → RaisesPublished (r >>= f)
bind-RaisesPublished (ok a) f h k = k a
bind-RaisesPublished (err failed) f h k = tt
bind-RaisesPublished (err (raised code field)) f h k = h

fetched :
    {A B : Type 0} (l : Lookup A) (f : Option A → Result Stop B)
    → ((o : Option A) → RaisesPublished (f o))
    → RaisesPublished (fetch l >>= f)
fetched unreadable f k = tt
fetched missing f k = k none
fetched (found a) f k = k (some a)

needed :
    {A B : Type 0} (code field : Bytes) (o : Option A) (f : A → Result Stop B)
    → IsPublished code
    → ((a : A) → RaisesPublished (f a))
    → RaisesPublished (required code field o >>= f)
needed code field none f h k = h
needed code field (some a) f h k = k a

reckoned :
    {E A B : Type 0} (code field : Bytes) (r : Result E A) (f : A → Result Stop B)
    → IsPublished code
    → ((a : A) → RaisesPublished (f a))
    → RaisesPublished (computed code field r >>= f)
reckoned code field (ok a) f h k = k a
reckoned code field (err e) f h k = h

guarded :
    {B : Type 0} (test : Bool) (code field : Bytes) (r : Result Stop B)
    → IsPublished code
    → RaisesPublished r
    → RaisesPublished (fail_if test (raised code field) >> r)
guarded true code field r h k = h
guarded false code field r h k = k

passed :
    {B : Type 0} (test : Bool) (r : Result Stop B)
    → RaisesPublished r
    → RaisesPublished (fail_if test failed >> r)
passed true r k = tt
passed false r k = k

chosen :
    {A B : Type 0} (xs : List A) (r q : Result Stop B)
    → RaisesPublished r
    → RaisesPublished q
    → RaisesPublished (elim xs [ [] ↦ r | x ∷ ys ↦ q ])
chosen [] r q h k = h
chosen (x ∷ ys) r q h k = k

read_lines :
    (key : Bytes) (own : List ApInvoiceLine) (scan : Option (Bytes → List ApInvoiceLine))
    → RaisesPublished {A = List ApInvoiceLine} (elim own [
      | [] ↦ elim scan [ none ↦ err failed | some index ↦ ok (index key) ]
      | l ∷ ls ↦ ok (l ∷ ls)
    ])
read_lines key [] none = tt
read_lines key [] (some index) = tt
read_lines key (l ∷ ls) scan = tt

-- One rule at a time, from the code of each of its exceptions.
module _ (t : Tables) (inv : ApInvoice) where
  supplier-published : RaisesPublished (supplier_rule t inv)
  unfolding supplier_rule exception_codes sort_strings insert_sorted
  supplier-published = fetched (t.stored_supplier (trim_space inv.supplier_number)) _ (λ o.
      needed supplier_unknown _ o _ refl (λ s. guarded s.blocked supplier_blocked _ _ refl tt))

  order-published : RaisesPublished (order_rule t inv)
  unfolding order_rule exception_codes sort_strings insert_sorted
  order-published =
      if_elim RaisesPublished (is_empty (trim_space inv.po_number)) (λ blank. tt)
        (λ named. fetched (purchase_order t (po_reference_number inv.po_number)) _ (λ o.
          needed po_not_found _ o _ refl (λ po.
            guarded (not (bytes_eq po.supplier_number inv.supplier_number)) po_supplier_mismatch _ _
              refl
              (guarded
                (bytes_eq po.status (codes "CLOSED") || bytes_eq po.status (codes "CANCELLED"))
                po_closed _ _ refl tt))))

  totals-published : RaisesPublished (totals_rule inv)
  unfolding totals_rule exception_codes sort_strings insert_sorted
  totals-published = reckoned totals_mismatch _ (line_total inv) _ refl (λ sum.
      reckoned totals_mismatch _ (add sum inv.vat_amount) _ refl
        (λ want. guarded (not (equal want inv.gross_amount)) totals_mismatch _ _ refl tt))

  center-published : (po : Option PurchaseOrder) → RaisesPublished (center_rule t inv po)
  unfolding center_rule exception_codes sort_strings insert_sorted
  center-published po = fetched (cost_center t (center_code inv po)) _ (λ c.
      needed cost_center_unknown _ c _ refl (λ center.
        guarded (center.blocked || not (bytes_eq center.company_code inv.company_code))
          cost_center_unknown _ _ refl
          (needed cost_center_unknown _ (posting_date_of inv) _ refl (λ date.
            guarded (not (is_true (in_half_open_range date center.valid_from center.valid_to)))
              cost_center_unknown _ _ refl tt))))

  rate-published : (date : Bytes) → RaisesPublished (rate_rule t inv date)
  unfolding rate_rule exception_codes sort_strings insert_sorted
  rate-published date =
      if_elim RaisesPublished (bytes_eq inv.currency quote_currency) (λ domestic. tt)
        (λ foreign. guarded (not (has_fx_table inv.company_code)) fx_rate_missing _ _ refl (
          fetched (daily_rate t inv.currency date) _
            (λ r. needed fx_rate_missing _ r _ refl (λ rate. tt))))

  amount-published : (rate : Option FxRate) → RaisesPublished (amount_rule inv rate)
  unfolding amount_rule exception_codes sort_strings insert_sorted
  amount-published none = tt
  amount-published (some r) =
      reckoned fx_rate_missing _ (mul_rate inv.gross_amount r.rate (factor_of r) 2) _ refl
        (λ amount. tt)

module _ (t : Tables) where
  material-published :
      (po : Option PurchaseOrder) (line_no : Bytes) → RaisesPublished (material_of t po line_no)
  unfolding material_of
  material-published none line_no = tt
  material-published (some po) line_no = fetched (po_line t po.po_number line_no) _ (λ l. tt)

  unit-published :
      (po : Option PurchaseOrder) (line : ApInvoiceLine) (ws : List Bytes)
      → RaisesPublished (unit_rule t po line ws)
  unfolding unit_rule exception_codes sort_strings insert_sorted
  unit-published po line ws =
      bind-RaisesPublished (material_of t po line.line_no) _ (material-published po line.line_no)
        (λ material. needed uom_unmappable _ (conversion t material line.uom) _ refl (λ conv.
          reckoned uom_unconvertible _ (convert_quantity line.quantity conv) _ refl (λ base. tt)))

  lines-published :
      (po : Option PurchaseOrder) (ls : List ApInvoiceLine) (ws : List Bytes)
      → RaisesPublished (lines_rule t po ls ws)
  unfolding lines_rule
  lines-published po [] ws = tt
  lines-published po (l ∷ ls) ws =
      bind-RaisesPublished (unit_rule t po l ws) _ (unit-published po l ws)
        (λ warned. lines-published po ls warned)

  units-published :
      (po : Option PurchaseOrder) (ls : List ApInvoiceLine) (ws : List Bytes)
      → RaisesPublished (units_rule t po ls ws)
  unfolding units_rule
  units-published po ls ws =
      chosen t.conversions (ok ws) (lines_rule t po ls ws) tt (lines-published po ls ws)

lines_of-published :
    (t : Tables) (inv : ApInvoice) (key : Bytes) → RaisesPublished (lines_of t inv key)
unfolding lines_of
lines_of-published t inv key = read_lines key inv.lines t.scanned_lines

-- Every exception that matchInvoice raises has a code of ExceptionCodes, whatever the store holds
-- and whatever the invoice is.
pub match_invoice-RaisesPublished :
    (t : Tables) (key : Bytes) (version : ℤ) (warnings : List Bytes) (inv : ApInvoice)
    → RaisesPublished (match_invoice t key version warnings inv)
unfolding match_invoice exception_codes sort_strings insert_sorted
match_invoice-RaisesPublished t key version warnings delivered =
    bind-RaisesPublished (lines_of t delivered key) _ (lines_of-published t delivered key) (λ lines.
      let inv : ApInvoice = record delivered { lines = lines } in
      passed (leb_ℤ (pos 2) version && not (t.history_reads key)) _ (
        guarded (leb_ℤ (pos 2) version) duplicate_invoice_amended _ _ refl (
          bind-RaisesPublished (supplier_rule t inv) _ (supplier-published t inv) (λ s.
            bind-RaisesPublished (order_rule t inv) _ (order-published t inv) (λ order.
              bind-RaisesPublished (totals_rule inv) _ (totals-published t inv) (λ want.
                bind-RaisesPublished (center_rule t inv order) _ (center-published t inv order)
                  (λ (center, date).
                    bind-RaisesPublished (rate_rule t inv date) _ (rate-published t inv date)
                      (λ rate.
                        bind-RaisesPublished (units_rule t order lines warnings) _
                          (units-published t order lines warnings)
                          (λ warned.
                            bind-RaisesPublished (amount_rule inv rate) _
                              (amount-published t inv rate) (λ (factor, amount). tt))))))))))
