-- ===== src/Governor/Growth.antt =====
-- What no call takes back: the clock, the counters, the spent quota and the fault latches.
use native.Mathlib.Nat.{le_refl, le_trans}
use integrations_challenge.Prelude.{
  ℕ, ◌+◌, ◌≤◌, ◌≡◌, refl, ap, ◌∙◌, true, List, [], ◌∷◌, Bytes, arith, if_elim, bytes_eq,
  bytes_eq_sound, update,
}
use integrations_challenge.Prelude.Int.{ℤ}
use integrations_challenge.Clock.{advance}
use integrations_challenge.Governor.{Governor, admit, admitted, limited, refill, note429}
use integrations_challenge.Governor.Admit.{admit_rule}
use integrations_challenge.Governor.Inject.{
  inject_fault, inject_permanent, apply_then_fail, first_fault, delivered,
}
use integrations_challenge.Governor.Token.{issue_token, validate_token}
use integrations_challenge.Governor.Events.{
  Event, admitting, injecting, applying, permanent, advancing, issuing, validating, step, run,
  advance_clock,
}

pub record Grows (g g' : Governor) : Type 0 where
  pub cfg_same : g'.cfg ≡ g.cfg
  pub clock_le : g.clock ≤ g'.clock
  pub seq_le : g.seq ≤ g'.seq
  pub quota_le : g.quota_used ≤ g'.quota_used
  pub spent_stays : g.quota_spent ≡ true → g'.quota_spent ≡ true
  pub permanent_stays : g.permanent_fired ≡ true → g'.permanent_fired ≡ true
  pub apply_stays : g.apply_fail_fired ≡ true → g'.apply_fail_fired ≡ true
  pub attempts_le : (sig : Bytes) → g.sig_attempts sig ≤ g'.sig_attempts sig

pub Grows-refl : (g : Governor) → Grows g g
Grows-refl g = record {
  cfg_same = refl;
  clock_le = le_refl _;
  seq_le = le_refl _;
  quota_le = le_refl _;
  spent_stays = λ h. h;
  permanent_stays = λ h. h;
  apply_stays = λ h. h;
  attempts_le = λ sig. le_refl _;
}

pub Grows-trans : {g h k : Governor} → Grows g h → Grows h k → Grows g k
Grows-trans a b = record {
  cfg_same = b.cfg_same ∙ a.cfg_same;
  clock_le = le_trans a.clock_le b.clock_le;
  seq_le = le_trans a.seq_le b.seq_le;
  quota_le = le_trans a.quota_le b.quota_le;
  spent_stays = λ h. b.spent_stays (a.spent_stays h);
  permanent_stays = λ h. b.permanent_stays (a.permanent_stays h);
  apply_stays = λ h. b.apply_stays (a.apply_stays h);
  attempts_le = λ sig. le_trans (a.attempts_le sig) (b.attempts_le sig);
}

update_grows : (f : Bytes → ℕ) (k j : Bytes) → f j ≤ update f k (f k + 1) j
update_grows f k j =
    if_elim (λ (n : ℕ). f j ≤ n) (bytes_eq j k)
      (λ same. let e = ap f (bytes_eq_sound j k same) in omega arith) (λ other. le_refl _)

delivered-Grows : (sig : Bytes) (g : Governor) → Grows g (delivered sig g)
delivered-Grows sig g = ground (arith, update_grows g.sig_attempts sig)

refill-Grows : (g : Governor) → Grows g (refill g)
unfolding refill
refill-Grows g = ground arith

admit-Grows :
    (endpoint : Bytes) (cost records : ℤ) (g : Governor) → Grows g (admit endpoint cost records g).0
unfolding admitted limited refill note429
admit-Grows endpoint cost records g =
    admit_rule endpoint cost records g (λ r. Grows g r.0) (λ spent. ground arith)
      (λ room armed held. ground arith) (λ room free on empty. ground arith)
      (λ room free on some_left. ground arith) (λ room free off. ground arith)

inject_fault-Grows : (sig : Bytes) (g : Governor) → Grows g (inject_fault sig g).0
unfolding inject_fault first_fault
inject_fault-Grows sig g = let grown = update_grows g.sig_attempts sig in ground arith

apply_then_fail-Grows : (sig : Bytes) (g : Governor) → Grows g (apply_then_fail sig g).0
unfolding apply_then_fail
apply_then_fail-Grows sig g = let grown = update_grows g.sig_attempts sig in ground arith

inject_permanent-Grows : (path : Bytes) (g : Governor) → Grows g (inject_permanent path g).0
unfolding inject_permanent
inject_permanent-Grows path g = ground arith

advance_clock-Grows : (delta : ℤ) (g : Governor) → Grows g (advance_clock delta g)
unfolding advance_clock advance
advance_clock-Grows delta g = ground arith

issue_token-Grows : (mint : ℤ → ℕ → Bytes) (g : Governor) → Grows g (issue_token mint g).0
unfolding issue_token
issue_token-Grows mint g = ground arith

validate_token-Grows : (value : Bytes) (g : Governor) → Grows g (validate_token value g).0
unfolding validate_token
validate_token-Grows value g = ground arith

module _ (mint : ℤ → ℕ → Bytes) where
  pub step-Grows : (e : Event) (g : Governor) → Grows g (step mint e g)
  unfolding step
  step-Grows (admitting endpoint cost records) g = admit-Grows endpoint cost records g
  step-Grows (injecting sig) g = inject_fault-Grows sig g
  step-Grows (applying sig) g = apply_then_fail-Grows sig g
  step-Grows (permanent path) g = inject_permanent-Grows path g
  step-Grows (advancing delta) g = advance_clock-Grows delta g
  step-Grows issuing g = issue_token-Grows mint g
  step-Grows (validating value) g = validate_token-Grows value g

  pub run-Grows : (es : List Event) (g : Governor) → Grows g (run mint es g)
  unfolding run
  run-Grows [] g = Grows-refl g
  run-Grows (e ∷ es) g = Grows-trans (step-Grows e g) (run-Grows es (step mint e g))
