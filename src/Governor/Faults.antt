-- ===== src/Governor/Faults.antt =====
-- The promises of the fault injectors and of the quota over whole runs.
use integrations_challenge.Prelude.{
  ℕ, ◌+◌, ◌≤◌, ◌≡◌, true, false, List, Bytes, none, some, arith, update_self,
}
use integrations_challenge.Prelude.Int.{ℤ}
use integrations_challenge.Governor.{Governor, Config, new, quota_exhausted, admit}
use integrations_challenge.Governor.Admit.{IsRefused, Spends}
use integrations_challenge.Governor.Inject.{
  Fault, inject_fault, inject_permanent, apply_then_fail, first_fault,
}
use integrations_challenge.Governor.Events.{Event, run, run-IsSound}
use integrations_challenge.Governor.Growth.{run-Grows}

fault_counts :
    (sig : Bytes) {f : Fault} (g : Governor)
    → (inject_fault sig g).1 ≡ some f
    → 1 ≤ (inject_fault sig g).0.sig_attempts sig
unfolding inject_fault first_fault
fault_counts sig g e =
    let self = update_self g.sig_attempts sig (g.sig_attempts sig + 1) in ground arith

later_passes : (sig : Bytes) (g : Governor) → 1 ≤ g.sig_attempts sig → (inject_fault sig g).1 ≡ none
unfolding inject_fault
later_passes sig g h = ground arith

permanent_latches :
    (path : Bytes) {f : Fault} (g : Governor)
    → (inject_permanent path g).1 ≡ some f
    → (inject_permanent path g).0.permanent_fired ≡ true
unfolding inject_permanent
permanent_latches path g e = ground arith

permanent_spent :
    (path : Bytes) (g : Governor) → g.permanent_fired ≡ true → (inject_permanent path g).1 ≡ none
unfolding inject_permanent
permanent_spent path g h = ground arith

apply_latches :
    (sig : Bytes) (g : Governor)
    → (apply_then_fail sig g).1 ≡ true
    → (apply_then_fail sig g).0.apply_fail_fired ≡ true
unfolding apply_then_fail
apply_latches sig g e = ground arith

apply_spent :
    (sig : Bytes) (g : Governor) → g.apply_fail_fired ≡ true → (apply_then_fail sig g).1 ≡ false
unfolding apply_then_fail
apply_spent sig g h = ground arith

spent_refuses :
    (endpoint : Bytes) (cost records : ℤ) (g : Governor)
    → g.quota_spent ≡ true
    → IsRefused 503 quota_exhausted false 0 (admit endpoint cost records g).1
      × Spends g 0 0 0 (admit endpoint cost records g).0
unfolding admit
spent_refuses endpoint cost records g h = ground arith

module _ (mint : ℤ → ℕ → Bytes) (es : List Event) (g : Governor) where
  -- A delivery that InjectFault fails passes when it is repeated, however many calls of whatever
  -- kind come in between.
  pub retry_passes :
      (sig : Bytes) (f : Fault)
      → (inject_fault sig g).1 ≡ some f
      → (inject_fault sig (run mint es (inject_fault sig g).0)).1 ≡ none
  retry_passes sig f e =
      let grown = run-Grows mint es (inject_fault sig g).0 in
      later_passes sig _ (omega (arith, fault_counts sig g e, grown.attempts_le sig))

  -- The permanent fault fires once: after it, no call of InjectPermanent on any path gives a
  -- fault, however many calls of whatever kind come in between.
  pub permanent_once :
      (path later : Bytes) (f : Fault)
      → (inject_permanent path g).1 ≡ some f
      → (inject_permanent later (run mint es (inject_permanent path g).0)).1 ≡ none
  permanent_once path later f e =
      permanent_spent later _ (
        (run-Grows mint es (inject_permanent path g).0).permanent_stays
          (permanent_latches path g e))

  -- ApplyThenFail fires once: after it, no call for any signature fires, however many calls of
  -- whatever kind come in between.
  pub apply_once :
      (sig later : Bytes)
      → (apply_then_fail sig g).1 ≡ true
      → (apply_then_fail later (run mint es (apply_then_fail sig g).0)).1 ≡ false
  apply_once sig later e =
      apply_spent later _
        ((run-Grows mint es (apply_then_fail sig g).0).apply_stays (apply_latches sig g e))

-- Once a run from New has used up the quota, every later request gets the terminal 503 and spends
-- neither quota nor virtual time nor records, whatever is called in between.
pub exhausted_for_good :
    (mint : ℤ → ℕ → Bytes) (cfg : Config) (before after : List Event)
    → (run mint before (new cfg)).quota_limit ≤ (run mint before (new cfg)).quota_used
    → (endpoint : Bytes) (cost records : ℤ)
    → let g = run mint after (run mint before (new cfg)) in
      IsRefused 503 quota_exhausted false 0 (admit endpoint cost records g).1
      × Spends g 0 0 0 (admit endpoint cost records g).0
exhausted_for_good mint cfg before after used endpoint cost records =
    let g = run mint before (new cfg) in
    let s = run-IsSound mint cfg before in
    let spent : g.quota_spent ≡ true = ground (arith, s.spent, used) in
    spent_refuses endpoint cost records _ ((run-Grows mint after g).spent_stays spent)
