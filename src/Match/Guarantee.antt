-- ===== src/Match/Guarantee.antt =====
-- internal/miniblp/match.go: every invoice that matchInvoice passes on to emitProposal.
use mathlib.Core.Path.{subst}
use integrations_challenge.Prelude.{
  true, false, not, ◌&&◌, List, Bytes, bytes_eq, Option, none, some, Option-cases, Result, ok, err,
  ◌≡◌, refl, sym, ◌∙◌, inl, inr, Holds, bind-Holds, guard-Holds, Holds-ok, arith,
}
use integrations_challenge.Prelude.Int.{ℤ, pos, leb_ℤ, ◌≤ℤ◌, ◌<ℤ◌, max_int64}
use integrations_challenge.Decimal.{Decimal, IsDecimal}
use integrations_challenge.Decimal.MulRate.{Converted, mul_rate-Converted}
use integrations_challenge.Match.{
  unreadable, found, Tables, Supplier, FxRate, ApInvoice, ApInvoiceLine, daily_rate, quote_currency,
}
use integrations_challenge.Match.Rates.{DailyRate, daily_rate-DailyRate, IsListed}
use integrations_challenge.Match.Rules.{
  Matched, lines_of, supplier_rule, order_rule, totals_rule, center_rule, has_fx_table, rate_rule,
  units_rule, factor_of, amount_rule, match_invoice,
}
use integrations_challenge.Match.Sound.{
  SupplierFound, OrderFound, TotalFound, CenterFound, RateFound, AmountFound, IsAmounts, IsBalanced,
  supplier_rule-Holds, order_rule-Holds, totals_rule-Holds, center_rule-Holds, rate_rule-Holds,
  amount_rule-Holds, TotalFound-IsBalanced,
}

-- The rates of the store are decimals by an int64 factor.
abbrev pub AreRates : Tables → Type 0
AreRates t =
    (rates : List FxRate)
    → t.scanned_rates ≡ some rates
    → (r : FxRate) → IsListed r rates
    → IsDecimal r.rate × (r.rate_factor ≤ℤ max_int64)

-- The amount that is posted: the gross amount itself in the quote currency, otherwise its exact
-- conversion by a daily rate for the posting date, rounded half away from zero to two decimals.
abbrev pub IsPriced : Tables → ApInvoice → Bytes → Option FxRate → Decimal → Type 0
IsPriced t inv date none amount =
    (bytes_eq inv.currency quote_currency ≡ true) × (amount ≡ inv.gross_amount)
IsPriced t inv date (some r) amount =
    (bytes_eq inv.currency quote_currency ≡ false)
    × (has_fx_table inv.company_code ≡ true)
    × ((rates : List FxRate) × (t.scanned_rates ≡ some rates)
        × DailyRate inv.currency date rates (found r))
    × Converted inv.gross_amount r.rate (factor_of r) 2 (ok amount)

-- What a match of an invoice with its lines says.
pub record IsMatch (t : Tables) (version : ℤ) (inv : ApInvoice) (m : Matched) : Type 0 where
  pub first_version : version <ℤ pos 2
  pub supplied : (s : Supplier) × SupplierFound t inv s
  pub ordered : OrderFound t inv m.order
  pub balanced : IsAmounts inv → IsBalanced inv
  pub centered : CenterFound t inv m.order (m.center, m.posting_date)
  pub priced : IsAmounts inv → AreRates t → IsPriced t inv m.posting_date m.rate m.amount

found_rates :
    (t : Tables) (currency date : Bytes) (r : FxRate)
    → daily_rate t currency date ≡ found r
    → (rates : List FxRate) × (t.scanned_rates ≡ some rates)
      × DailyRate currency date rates (found r)
unfolding daily_rate
found_rates t currency date r e = elim (Option-cases t.scanned_rates) [
  | inl unread ↦ absurd (
      let none_read : daily_rate t currency date ≡ unreadable = rw (daily_rate, unread) refl in
      cc (sym none_read ∙ e))
  | inr (rates, read) ↦ (
    rates,
    read,
    subst (DailyRate currency date rates) e (daily_rate-DailyRate t currency date rates read),
  )
]

factor_of-le : (r : FxRate) → r.rate_factor ≤ℤ max_int64 → factor_of r ≤ℤ max_int64
factor_of-le r h = ground arith

RateFound-IsPriced :
    (t : Tables) (inv : ApInvoice) (date : Bytes) (rate : Option FxRate) (factor : ℤ)
    (amount : Decimal)
    → RateFound t inv date rate
    → AmountFound inv rate (factor, amount)
    → IsAmounts inv
    → AreRates t
    → IsPriced t inv date rate amount
RateFound-IsPriced t inv date none factor amount domestic same v rates_valid = (domestic, same)
RateFound-IsPriced t inv date (some r) factor amount (foreign, table, read) converted v
      rates_valid =
    let (rates, scanned, daily) = found_rates t inv.currency date r read in
    let (rate_valid, factor_valid) = rates_valid rates scanned r daily.0 in
    (
      foreign,
      table,
      (rates, scanned, daily),
      subst (Converted inv.gross_amount r.rate (factor_of r) 2) converted (
          mul_rate-Converted inv.gross_amount r.rate (factor_of r) 2 v.gross_valid rate_valid
            (factor_of-le r factor_valid)),
    )

self-Holds : {E A : Type 0} (r : Result E A) → Holds (λ a. r ≡ ok a) r
self-Holds (ok a) = refl
self-Holds (err e) = tt

abbrev with_lines : ApInvoice → List ApInvoiceLine → ApInvoice
with_lines inv lines = record inv { lines = lines }

-- A matched invoice, over the lines that linesOf gives it.
abbrev pub MatchedWithLines : Tables → Bytes → ℤ → ApInvoice → Matched → Type 0
MatchedWithLines t key version inv m =
    (lines : List ApInvoiceLine) × (lines_of t inv key ≡ ok lines)
    × IsMatch t version (with_lines inv lines) m

any-Holds : {E A : Type 0} (r : Result E A) → Holds (λ a. Unit {0}) r
any-Holds (ok a) = tt
any-Holds (err e) = tt

match_invoice-Holds :
    (t : Tables) (key : Bytes) (version : ℤ) (warnings : List Bytes) (delivered : ApInvoice)
    → Holds
        (MatchedWithLines t key version delivered)
        (match_invoice t key version warnings delivered)
unfolding match_invoice
match_invoice-Holds t key version warnings delivered =
    bind-Holds (λ lines. lines_of t delivered key ≡ ok lines) _ (lines_of t delivered key) _
      (self-Holds (lines_of t delivered key))
      (λ lines read.
        let inv = with_lines delivered lines in
        guard-Holds _ (leb_ℤ (pos 2) version && not (t.history_reads key)) _ _ (λ readable.
          guard-Holds _ (leb_ℤ (pos 2) version) _ _ (λ first.
            bind-Holds (SupplierFound t inv) _ (supplier_rule t inv) _ (supplier_rule-Holds t inv)
              (λ s supplied.
                bind-Holds (OrderFound t inv) _ (order_rule t inv) _ (order_rule-Holds t inv)
                  (λ order ordered.
                    bind-Holds (TotalFound inv) _ (totals_rule inv) _ (totals_rule-Holds inv)
                      (λ want total.
                        bind-Holds (CenterFound t inv order) _ (center_rule t inv order) _
                          (center_rule-Holds t inv order)
                          (λ (center, date) centered.
                            bind-Holds (RateFound t inv date) _ (rate_rule t inv date) _
                              (rate_rule-Holds t inv date)
                              (λ rate rated.
                                bind-Holds (λ ws. Unit {0}) _ (units_rule t order lines warnings) _
                                  (any-Holds (units_rule t order lines warnings))
                                  (λ warned any.
                                    bind-Holds (AmountFound inv rate) _ (amount_rule inv rate) _
                                      (amount_rule-Holds inv rate)
                                      (λ (factor, amount) found_amount.
                                        let m : Matched = record {
                                          order = order;
                                          center = center;
                                          posting_date = date;
                                          rate = rate;
                                          factor = factor;
                                          amount = amount;
                                          warnings = warned;
                                        } in
                                        let sound : IsMatch t version inv m = record {
                                          first_version = ground arith;
                                          supplied = (s, supplied);
                                          ordered = ordered;
                                          balanced = λ v. TotalFound-IsBalanced inv want v total;
                                          centered = centered;
                                          priced =
                                              RateFound-IsPriced t inv date rate factor amount rated
                                                found_amount;
                                        } in
                                        let result : MatchedWithLines t key version delivered m =
                                          (lines, read, sound) in
                                        result))))))))))

-- An invoice that matches is a first version of it; its supplier is known and not blocked; an order
-- that it names exists, is the supplier's and is neither closed nor cancelled; its gross amount is
-- the exact sum of its line amounts and the VAT; its cost center is of its company, not blocked, and
-- valid on the posting date; and the amount to post is the gross amount in CHF, or its exact
-- conversion, rounded to two decimals half away from zero, by a daily rate that covers the posting
-- date with the highest sequence. The sums and the conversion suppose valid decimals.
pub match_invoice-Matched :
    (t : Tables) (key : Bytes) (version : ℤ) (warnings : List Bytes) (inv : ApInvoice) (m : Matched)
    → match_invoice t key version warnings inv ≡ ok m
    → MatchedWithLines t key version inv m
match_invoice-Matched t key version warnings delivered m =
    Holds-ok (MatchedWithLines t key version delivered)
      (match_invoice t key version warnings delivered) m
      (match_invoice-Holds t key version warnings delivered)
