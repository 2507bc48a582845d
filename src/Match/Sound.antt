-- ===== src/Match/Sound.antt =====
-- internal/miniblp/match.go: what a match of an invoice guarantees.
use mathlib.Core.Path.{subst}
use integrations_challenge.Prelude.{
  Bool, true, false, not, ◌||◌, List, [], ◌∷◌, Bytes, codes, bytes_eq, Option, none, some, Result,
  ok, err, ◌>>=◌, ◌≡◌, refl, sym, ap, ◌∙◌, Holds, bind-Holds, guard-Holds, Holds-ok, if_elim, arith,
}
use integrations_challenge.Prelude.Int.{ℤ, pos, ◌+ℤ◌, int_laws}
use integrations_challenge.Text.{trim_space}
use integrations_challenge.Decimal.{Decimal, IsDecimal, Error, add, equal, mul_rate, cmp}
use integrations_challenge.U128.{Sign, less, same, more}
use integrations_challenge.Decimal.Compare.{OrderedZ, cmp-OrderedZ}
use integrations_challenge.Decimal.Rescale.{nano}
use integrations_challenge.Decimal.Sums.{Combined, add-Combined}
use integrations_challenge.Decimal.Text.{is_empty}
use integrations_challenge.Dates.Text.{in_half_open_range}
use integrations_challenge.Match.{
  Lookup, unreadable, missing, found, Tables, Supplier, CostCenter, PurchaseOrder, FxRate,
  ApInvoice, ApInvoiceLine, po_reference_number, purchase_order, cost_center, daily_rate,
  line_total, sum_lines, start_of, quote_currency,
}
use integrations_challenge.Match.Rules.{
  Stop, fetch, required, computed, supplier_rule, order_rule, totals_rule, center_code, center_rule,
  posting_date_of, is_true, has_fx_table, rate_rule, factor_of, amount_rule,
}

-- What the readers of a rule pass on to the rest of it.
pub fetch-Holds :
    {A B : Type 0} (P : B → Type 0) (l : Lookup A) (f : Option A → Result Stop B)
    → ((o : Option A) → ((a : A) → o ≡ some a → l ≡ found a) → Holds P (f o))
    → Holds P (fetch l >>= f)
fetch-Holds P unreadable f p = tt
fetch-Holds P missing f p = p none (λ a e. absurd (cc e))
fetch-Holds {A} P (found a) f p =
    p (some a) (λ b e. ap (λ (o : Option A). elim o [ none ↦ missing | some x ↦ found x ]) e)

required-Holds :
    {A B : Type 0} (P : B → Type 0) (code field : Bytes) (o : Option A) (f : A → Result Stop B)
    → ((a : A) → o ≡ some a → Holds P (f a))
    → Holds P (required code field o >>= f)
required-Holds P code field none f p = tt
required-Holds P code field (some a) f p = p a refl

computed-Holds :
    {E A B : Type 0} (P : B → Type 0) (code field : Bytes) (r : Result E A) (f : A → Result Stop B)
    → ((a : A) → r ≡ ok a → Holds P (f a))
    → Holds P (computed code field r >>= f)
computed-Holds P code field (ok a) f p = p a refl
computed-Holds P code field (err e) f p = tt

abbrev pub SupplierFound : Tables → ApInvoice → Supplier → Type 0
SupplierFound t inv s =
    (t.stored_supplier (trim_space inv.supplier_number) ≡ found s) × (s.blocked ≡ false)

pub supplier_rule-Holds :
    (t : Tables) (inv : ApInvoice) → Holds (SupplierFound t inv) (supplier_rule t inv)
unfolding supplier_rule
supplier_rule-Holds t inv =
    fetch-Holds _ (t.stored_supplier (trim_space inv.supplier_number)) _ (λ o read.
      required-Holds _ _ _ o _ (λ s some_s.
        guard-Holds _ s.blocked _ _
          (λ unblocked. (let all : SupplierFound t inv s = (read s some_s, unblocked) in all))))

-- The order of a reference, where there is one: of the same supplier, neither closed nor cancelled.
abbrev pub OrderFound : Tables → ApInvoice → Option PurchaseOrder → Type 0
OrderFound t inv none = is_empty (trim_space inv.po_number) ≡ true
OrderFound t inv (some po) =
    (is_empty (trim_space inv.po_number) ≡ false)
    × (purchase_order t (po_reference_number inv.po_number) ≡ found po)
    × (bytes_eq po.supplier_number inv.supplier_number ≡ true)
    × (bytes_eq po.status (codes "CLOSED") ≡ false)
    × (bytes_eq po.status (codes "CANCELLED") ≡ false)

pub order_rule-Holds : (t : Tables) (inv : ApInvoice) → Holds (OrderFound t inv) (order_rule t inv)
unfolding order_rule
order_rule-Holds t inv =
    if_elim (Holds (OrderFound t inv)) (is_empty (trim_space inv.po_number)) (λ blank. blank)
      (λ referenced.
        fetch-Holds _ (purchase_order t (po_reference_number inv.po_number)) _ (λ o read.
          required-Holds _ _ _ o _ (λ po some_po.
            guard-Holds _ (not (bytes_eq po.supplier_number inv.supplier_number)) _ _ (λ same.
              guard-Holds _
                (bytes_eq po.status (codes "CLOSED") || bytes_eq po.status (codes "CANCELLED")) _ _
                (λ available.
                  (let all : OrderFound t inv (some po) =
                      (referenced, read po some_po, ground arith, ground arith, ground arith) in
                    all))))))

-- The total that the gross amount equals.
abbrev pub TotalFound : ApInvoice → Decimal → Type 0
TotalFound inv want =
    ((sum : Decimal) × (line_total inv ≡ ok sum) × (add sum inv.vat_amount ≡ ok want))
    × (equal want inv.gross_amount ≡ true)

pub totals_rule-Holds : (inv : ApInvoice) → Holds (TotalFound inv) (totals_rule inv)
unfolding totals_rule
totals_rule-Holds inv = computed-Holds _ _ _ (line_total inv) _ (λ sum lines.
    computed-Holds _ _ _ (add sum inv.vat_amount) _ (λ want vat.
      guard-Holds _ (not (equal want inv.gross_amount)) _ _
        (λ same. (let all : TotalFound inv want = ((sum, lines, vat), ground arith) in all))))

-- The cost center, of the company and valid on the posting date.
abbrev pub CenterFound : Tables → ApInvoice → Option PurchaseOrder → CostCenter × Bytes → Type 0
CenterFound t inv po (center, date) =
    (cost_center t (center_code inv po) ≡ found center)
    × (center.blocked ≡ false)
    × (bytes_eq center.company_code inv.company_code ≡ true)
    × (posting_date_of inv ≡ some date)
    × (in_half_open_range date center.valid_from center.valid_to ≡ some true)

is_true-some : (o : Option Bool) → not (is_true o) ≡ false → o ≡ some true
is_true-some none h = absurd (cc h)
is_true-some (some true) h = refl
is_true-some (some false) h = absurd (cc h)

pub center_rule-Holds :
    (t : Tables) (inv : ApInvoice) (po : Option PurchaseOrder)
    → Holds (CenterFound t inv po) (center_rule t inv po)
unfolding center_rule
center_rule-Holds t inv po = fetch-Holds _ (cost_center t (center_code inv po)) _ (λ c read.
    required-Holds _ _ _ c _ (λ center some_center.
      guard-Holds _ (center.blocked || not (bytes_eq center.company_code inv.company_code)) _ _
        (λ usable. required-Holds _ _ _ (posting_date_of inv) _ (λ date posted.
          guard-Holds _ (not (is_true (in_half_open_range date center.valid_from center.valid_to)))
            _ _
            (λ valid.
              (let all : CenterFound t inv po (center, date) = (
                read center some_center,
                ground arith,
                ground arith,
                posted,
                is_true-some _ valid,
              ) in
                all))))))

-- The rate of a foreign currency.
abbrev pub RateFound : Tables → ApInvoice → Bytes → Option FxRate → Type 0
RateFound t inv date none = bytes_eq inv.currency quote_currency ≡ true
RateFound t inv date (some r) =
    (bytes_eq inv.currency quote_currency ≡ false)
    × (has_fx_table inv.company_code ≡ true)
    × (daily_rate t inv.currency date ≡ found r)

pub rate_rule-Holds :
    (t : Tables) (inv : ApInvoice) (date : Bytes)
    → Holds (RateFound t inv date) (rate_rule t inv date)
unfolding rate_rule
rate_rule-Holds t inv date =
    if_elim (Holds (RateFound t inv date)) (bytes_eq inv.currency quote_currency)
      (λ domestic. domestic)
      (λ foreign. guard-Holds _ (not (has_fx_table inv.company_code)) _ _ (λ table.
        fetch-Holds _ (daily_rate t inv.currency date) _ (λ r read.
          required-Holds _ _ _ r _ (λ rate some_rate.
            (let all : RateFound t inv date (some rate) =
                (foreign, ground arith, read rate some_rate) in
              all)))))

-- The amount to post.
abbrev pub AmountFound : ApInvoice → Option FxRate → ℤ × Decimal → Type 0
AmountFound inv none (factor, amount) = amount ≡ inv.gross_amount
AmountFound inv (some r) (factor, amount) =
    mul_rate inv.gross_amount r.rate (factor_of r) 2 ≡ ok amount

pub amount_rule-Holds :
    (inv : ApInvoice) (rate : Option FxRate) → Holds (AmountFound inv rate) (amount_rule inv rate)
unfolding amount_rule
amount_rule-Holds inv none = refl
amount_rule-Holds inv (some r) =
    computed-Holds _ _ _ (mul_rate inv.gross_amount r.rate (factor_of r) 2) _
      (λ amount converted. converted)

-- The exact sum of the line amounts, in units of 10^-9.
abbrev pub lines_nano : List ApInvoiceLine → ℤ
lines_nano [] = pos 0
lines_nano (l ∷ ls) = nano l.line_amount +ℤ lines_nano ls

abbrev AreDecimals : List ApInvoiceLine → Type 0
AreDecimals [] = Unit
AreDecimals (l ∷ ls) = IsDecimal l.line_amount × AreDecimals ls

-- The amounts of an invoice are decimals of the documented range.
pub record IsAmounts (inv : ApInvoice) : Type 0 where
  pub gross_valid : IsDecimal inv.gross_amount
  pub vat_valid : IsDecimal inv.vat_amount
  pub lines_valid : AreDecimals inv.lines

abbrev SumsTo : ℤ → Decimal → Type 0
SumsTo x r = IsDecimal r × (nano r ≡ x)

Combined-SumsTo :
    (d o : Decimal) (x : ℤ) (r : Result Error Decimal) → Combined d o x r → Holds (SumsTo x) r
Combined-SumsTo d o x (ok r) (valid, scale, e) = (valid, e)
Combined-SumsTo d o x (err e) h = tt

add-Holds :
    (d o : Decimal) → IsDecimal d → IsDecimal o → Holds (SumsTo (nano d +ℤ nano o)) (add d o)
add-Holds d o vd vo = Combined-SumsTo d o (nano d +ℤ nano o) (add d o) (add-Combined vd vo)

add_zero : (x : ℤ) → x +ℤ pos 0 ≡ x
add_zero x = omega int_laws

zero_add : (x : ℤ) → pos 0 +ℤ x ≡ x
zero_add x = omega int_laws

add_assoc : (x y z : ℤ) → x +ℤ y +ℤ z ≡ x +ℤ (y +ℤ z)
add_assoc x y z = omega int_laws

sum_lines-Holds :
    (ls : List ApInvoiceLine) (s : Decimal)
    → IsDecimal s
    → AreDecimals ls
    → Holds (SumsTo (nano s +ℤ lines_nano ls)) (sum_lines s ls)
unfolding sum_lines
sum_lines-Holds [] s valid h = (valid, sym (add_zero (nano s)))
sum_lines-Holds (l ∷ ls) s valid (lv, lsv) =
    bind-Holds (SumsTo (nano s +ℤ nano l.line_amount)) _ (add s l.line_amount) _
      (add-Holds s l.line_amount valid lv)
      (λ next h.
        let sums =
          ap (λ (x : ℤ). x +ℤ lines_nano ls) h.1
          ∙ add_assoc (nano s) (nano l.line_amount) (lines_nano ls) in
        subst (λ (x : ℤ). Holds (SumsTo x) (sum_lines next ls)) sums
          (sum_lines-Holds ls next h.0 lsv))

start_of-SumsTo : (ls : List ApInvoiceLine) → AreDecimals ls → SumsTo (pos 0) (start_of ls)
start_of-SumsTo [] h = (record { fits = omega arith; scale_le = omega arith }, refl)
start_of-SumsTo (l ∷ ls) h =
    (record { fits = omega arith; scale_le = h.0.scale_le }, ap pos (omega arith))

line_total-Holds :
    (inv : ApInvoice)
    → AreDecimals inv.lines
    → Holds (SumsTo (lines_nano inv.lines)) (line_total inv)
unfolding line_total
line_total-Holds inv valid =
    let start = start_of-SumsTo inv.lines valid in
    let sums =
      ap (λ (x : ℤ). x +ℤ lines_nano inv.lines) start.1 ∙ zero_add (lines_nano inv.lines) in
    subst (λ (x : ℤ). Holds (SumsTo x) (sum_lines (start_of inv.lines) inv.lines)) sums
      (sum_lines-Holds inv.lines (start_of inv.lines) start.0 valid)

same_value :
    (s : Sign) (x y : ℤ) → OrderedZ s x y → elim s [ same ↦ true | _ ↦ false ] ≡ true → x ≡ y
same_value less x y o h = absurd (cc h)
same_value same x y o h = o
same_value more x y o h = absurd (cc h)

equal-nano : (d o : Decimal) → IsDecimal d → IsDecimal o → equal d o ≡ true → nano d ≡ nano o
unfolding equal
equal-nano d o vd vo h = same_value (cmp d o) (nano d) (nano o) (cmp-OrderedZ vd vo) h

-- The gross amount is the sum of the lines and the VAT.
abbrev pub IsBalanced : ApInvoice → Type 0
IsBalanced inv = nano inv.gross_amount ≡ lines_nano inv.lines +ℤ nano inv.vat_amount

pub TotalFound-IsBalanced :
    (inv : ApInvoice) (want : Decimal) → IsAmounts inv → TotalFound inv want → IsBalanced inv
TotalFound-IsBalanced inv want v ((sum, lines, vat), equals) =
    let total =
      Holds-ok (SumsTo (lines_nano inv.lines)) (line_total inv) sum
        (line_total-Holds inv v.lines_valid) lines in
    let whole =
      Holds-ok (SumsTo (nano sum +ℤ nano inv.vat_amount)) (add sum inv.vat_amount) want
        (add-Holds sum inv.vat_amount total.0 v.vat_valid) vat in
    sym (equal-nano want inv.gross_amount whole.0 v.gross_valid equals)
    ∙ whole.1
    ∙ ap (λ (x : ℤ). x +ℤ nano inv.vat_amount) total.1
