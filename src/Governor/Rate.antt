-- ===== src/Governor/Rate.antt =====
-- The token bucket as a rate limit: how many requests a run can have admitted.
use native.Mathlib.Nat.{div-mul-le_self, add-mul, le_refl, mul-le-mul_right}
use mathlib.Core.Path.{subst}
use integrations_challenge.Prelude.{
  ℕ, zero, suc, ◌+◌, ◌-◌, ◌*◌, ◌/◌, ◌≤◌, ◌≡◌, refl, ap, Bool, true, List, [], ◌∷◌, Bytes, arith,
  if◌then◌else◌,
}
use integrations_challenge.Prelude.Int.{ℤ}
use integrations_challenge.Clock.{advance}
use integrations_challenge.Governor.{
  Governor, Decision, Config, new, admit, admitted, limited, refill, note429, is_positive,
}
use integrations_challenge.Governor.Admit.{admit_rule, at_bucket, taken}
use integrations_challenge.Governor.Inject.{
  inject_fault, inject_permanent, apply_then_fail, first_fault,
}
use integrations_challenge.Governor.Token.{issue_token, validate_token}
use integrations_challenge.Governor.Events.{
  Event, admitting, injecting, applying, permanent, advancing, issuing, validating, step, run,
  advance_clock,
}

-- The bucket part of a state, after k admissions.
record Paced (interval size k : ℕ) (g : Governor) : Type 0 where
  on : g.bucket_enabled ≡ true
  same_interval : g.refill_vms100 ≡ interval
  same_size : g.capacity ≡ size
  in_past : g.last_refill100 ≤ g.clock
  rate :
      k * g.refill_vms100 + g.tokens * g.refill_vms100
      ≤ g.capacity * g.refill_vms100 + g.last_refill100

-- A refill that stops at the capacity is paid for by the time elapsed.
filled_rate :
    (k t e size r last clock : ℕ)
    → k * r + t * r ≤ size * r + last
    → last ≤ clock
    → e * r ≤ clock - last
    → size ≤ t + e
    → k * r + size * r ≤ size * r + clock
filled_rate k t e size r last clock rate past earned full =
    omega (arith, rate, past, earned, mul-le-mul_right r full, add-mul t e r)

earned_rate :
    (k t e size r last clock : ℕ)
    → k * r + t * r ≤ size * r + last
    → k * r + (t + e) * r ≤ size * r + (last + e * r)
earned_rate k t e size r last clock rate = omega (arith, rate, add-mul t e r)

taken_rate : (k t m r : ℕ) → 1 ≤ t → k * r + t * r ≤ m → (k + 1) * r + (t - 1) * r ≤ m
taken_rate k zero m r some_left rate = omega (arith, some_left)
taken_rate k (suc t) m r some_left rate =
    let less : (suc t - 1) * r ≡ t * r = ap (λ (x : ℕ). x * r) (omega arith) in
    omega (arith, rate, less, add-mul k 1 r, add-mul t 1 r)

-- One more admission where the decision admits.
abbrev tally : ℕ → Governor × Decision → ℕ
tally k r = if r.1.allow then k + 1 else k

module _ (interval size : ℕ) where
  refill-Paced : (k : ℕ) (g : Governor) → Paced interval size k g → Paced interval size k (refill g)
  unfolding refill
  refill-Paced k g p =
      let r = g.refill_vms100 in
      let e = (g.clock - g.last_refill100) / r in
      let earned = div-mul-le_self (g.clock - g.last_refill100) r in
      let full =
        filled_rate k g.tokens e g.capacity r g.last_refill100 g.clock p.rate p.in_past earned in
      let part = earned_rate k g.tokens e g.capacity r g.last_refill100 g.clock p.rate in
      ground arith

  taken-Paced :
      (k : ℕ) (g : Governor)
      → Paced interval size k g
      → 1 ≤ g.tokens
      → Paced interval size (k + 1) (taken g)
  taken-Paced k g p some_left =
      let r = taken_rate k g.tokens _ g.refill_vms100 some_left p.rate in
      record {
        on = p.on;
        same_interval = p.same_interval;
        same_size = p.same_size;
        in_past = p.in_past;
        rate = r;
      }

  at_bucket-Paced :
      (endpoint : Bytes) (k : ℕ) (g : Governor)
      → Paced interval size k g
      → Paced interval size k (at_bucket endpoint g)
  at_bucket-Paced endpoint k g p = record {
    on = p.on;
    same_interval = p.same_interval;
    same_size = p.same_size;
    in_past = p.in_past;
    rate = p.rate;
  }

  admit-Paced :
      (endpoint : Bytes) (cost records : ℤ) (k : ℕ) (g : Governor)
      → Paced interval size k g
      → Paced interval size
          (tally k (admit endpoint cost records g))
          (admit endpoint cost records g).0
  unfolding admitted limited note429
  admit-Paced endpoint cost records k g p =
      let p' = refill-Paced k _ (at_bucket-Paced endpoint k g p) in
      admit_rule endpoint cost records g (λ r. Paced interval size (tally k r) r.0)
        (λ spent. ground arith) (λ room armed held. ground arith)
        (λ room free on empty. ground arith)
        (λ room free on some_left. let q = taken-Paced k _ p' (ground arith) in ground arith)
        (λ room free off. ground arith)

-- What the bucket's lemmas read of a state.
abbrev Alike : Governor → Governor → Type 0
Alike g g' =
    (g'.bucket_enabled ≡ g.bucket_enabled)
    × (g'.refill_vms100 ≡ g.refill_vms100)
    × (g'.capacity ≡ g.capacity)
    × (g'.tokens ≡ g.tokens)
    × (g'.last_refill100 ≡ g.last_refill100)
    × (g.clock ≤ g'.clock)

Alike-Paced :
    {interval size k : ℕ} {g g' : Governor}
    → Alike g g'
    → Paced interval size k g
    → Paced interval size k g'
Alike-Paced {interval} {size} {k} {g} {g'} a p = ground arith

inject_fault-Alike : (sig : Bytes) (g : Governor) → Alike g (inject_fault sig g).0
unfolding inject_fault first_fault
inject_fault-Alike sig g = ground arith

apply_then_fail-Alike : (sig : Bytes) (g : Governor) → Alike g (apply_then_fail sig g).0
unfolding apply_then_fail
apply_then_fail-Alike sig g = ground arith

inject_permanent-Alike : (path : Bytes) (g : Governor) → Alike g (inject_permanent path g).0
unfolding inject_permanent
inject_permanent-Alike path g = ground arith

advance_clock-Alike : (delta : ℤ) (g : Governor) → Alike g (advance_clock delta g)
unfolding advance_clock advance
advance_clock-Alike delta g = ground arith

issue_token-Alike : (mint : ℤ → ℕ → Bytes) (g : Governor) → Alike g (issue_token mint g).0
unfolding issue_token
issue_token-Alike mint g = ground arith

validate_token-Alike : (value : Bytes) (g : Governor) → Alike g (validate_token value g).0
unfolding validate_token
validate_token-Alike value g = ground arith

new-Paced :
    (cfg : Config)
    → is_positive cfg.bucket_capacity ≡ true
    → Paced (new cfg).refill_vms100 (new cfg).capacity 0 (new cfg)
unfolding new
new-Paced cfg on = record {
  on = on;
  same_interval = refl;
  same_size = refl;
  in_past = le_refl _;
  rate = omega arith;
}

Paced-rate :
    {interval size k : ℕ} {g : Governor}
    → Paced interval size k g
    → k * interval ≤ size * interval + g.clock
Paced-rate {interval} {size} {k} {g} p =
    subst (λ (r : ℕ). k * r ≤ size * r + g.clock) p.same_interval
      (subst (λ (c : ℕ). k * g.refill_vms100 ≤ c * g.refill_vms100 + g.clock) p.same_size
        (omega (arith, p.rate, p.in_past)))

tally_add :
    (k : ℕ) (b : Bool) (rest : ℕ)
    → (if b then k + 1 else k) + rest ≡ k + ((if b then 1 else 0) + rest)
tally_add k b rest = ground arith

module _ (mint : ℤ → ℕ → Bytes) where
  -- How many requests of a run are admitted.
  unfoldable pub admissions : List Event → Governor → ℕ
  admissions [] g = 0
  admissions (admitting endpoint cost records ∷ es) g =
      (if (admit endpoint cost records g).1.allow then 1 else 0)
      + admissions es (step mint (admitting endpoint cost records) g)
  admissions (injecting sig ∷ es) g = admissions es (step mint (injecting sig) g)
  admissions (applying sig ∷ es) g = admissions es (step mint (applying sig) g)
  admissions (permanent path ∷ es) g = admissions es (step mint (permanent path) g)
  admissions (advancing delta ∷ es) g = admissions es (step mint (advancing delta) g)
  admissions (issuing ∷ es) g = admissions es (step mint issuing g)
  admissions (validating value ∷ es) g = admissions es (step mint (validating value) g)

  run-Paced :
      (interval size : ℕ) (es : List Event) (k : ℕ) (g : Governor)
      → Paced interval size k g
      → Paced interval size (k + admissions es g) (run mint es g)
  unfolding admissions run step
  run-Paced interval size [] k g p = subst (λ (n : ℕ). Paced interval size n g) (omega arith) p
  run-Paced interval size (admitting endpoint cost records ∷ es) k g p =
      let r = admit endpoint cost records g in
      subst (λ (n : ℕ). Paced interval size n (run mint es r.0))
        (tally_add k r.1.allow (admissions es r.0))
        (run-Paced interval size es (tally k r) r.0
          (admit-Paced interval size endpoint cost records k g p))
  run-Paced interval size (injecting sig ∷ es) k g p =
      run-Paced interval size es k _ (Alike-Paced (inject_fault-Alike sig g) p)
  run-Paced interval size (applying sig ∷ es) k g p =
      run-Paced interval size es k _ (Alike-Paced (apply_then_fail-Alike sig g) p)
  run-Paced interval size (permanent path ∷ es) k g p =
      run-Paced interval size es k _ (Alike-Paced (inject_permanent-Alike path g) p)
  run-Paced interval size (advancing delta ∷ es) k g p =
      run-Paced interval size es k _ (Alike-Paced (advance_clock-Alike delta g) p)
  run-Paced interval size (issuing ∷ es) k g p =
      run-Paced interval size es k _ (Alike-Paced (issue_token-Alike mint g) p)
  run-Paced interval size (validating value ∷ es) k g p =
      run-Paced interval size es k _ (Alike-Paced (validate_token-Alike value g) p)

  -- With a positive bucket capacity, a run from New has at most one request admitted for each
  -- refill interval of virtual time that passed, beyond the capacity of the bucket.
  pub admissions-rate :
      (cfg : Config) (es : List Event)
      → is_positive cfg.bucket_capacity ≡ true
      → let g = new cfg in
        admissions es g * g.refill_vms100 ≤ g.capacity * g.refill_vms100 + (run mint es g).clock
  admissions-rate cfg es on =
      let g = new cfg in
      let p = run-Paced g.refill_vms100 g.capacity es 0 g (new-Paced cfg on) in
      omega (arith, Paced-rate p)
