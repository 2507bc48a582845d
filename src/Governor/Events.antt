-- ===== src/Governor/Events.antt =====
-- Runs of a Governor: any sequence of the calls that change its state.
use integrations_challenge.Prelude.{ℕ, List, [], ◌∷◌, Bytes, none, some, arith}
use integrations_challenge.Prelude.Int.{ℤ}
use integrations_challenge.Clock.{advance}
use integrations_challenge.Governor.{Governor, Config, new, admit}
use integrations_challenge.Governor.Inject.{
  inject_fault, inject_permanent, apply_then_fail, first_fault,
}
use integrations_challenge.Governor.Token.{issue_token, validate_token}
use integrations_challenge.Governor.Invariant.{IsSound, new-IsSound, admit-IsSound}

-- One call of a method that changes the state.
pub data Event : Type 0 where
  admitting : Bytes → ℤ → ℤ → Event
  injecting applying : Bytes → Event
  permanent : Bytes → Event
  advancing : ℤ → Event
  issuing : Event
  validating : Bytes → Event

-- Governor.Advance: the panic on a negative delta changes nothing.
unfoldable pub advance_clock : ℤ → Governor → Governor
advance_clock delta g = elim (advance g.clock delta) [ none ↦ g | some c ↦ record g { clock = c } ]

module _ (mint : ℤ → ℕ → Bytes) where
  unfoldable pub step : Event → Governor → Governor
  step (admitting endpoint cost records) g = (admit endpoint cost records g).0
  step (injecting sig) g = (inject_fault sig g).0
  step (applying sig) g = (apply_then_fail sig g).0
  step (permanent path) g = (inject_permanent path g).0
  step (advancing delta) g = advance_clock delta g
  step issuing g = (issue_token mint g).0
  step (validating value) g = (validate_token value g).0

  unfoldable pub run : List Event → Governor → Governor
  run [] g = g
  run (e ∷ es) g = run es (step e g)

inject_fault-IsSound : (sig : Bytes) {g : Governor} → IsSound g → IsSound (inject_fault sig g).0
unfolding inject_fault first_fault
inject_fault-IsSound sig s = ground arith

apply_then_fail-IsSound :
    (sig : Bytes) {g : Governor} → IsSound g → IsSound (apply_then_fail sig g).0
unfolding apply_then_fail
apply_then_fail-IsSound sig s = ground arith

inject_permanent-IsSound :
    (path : Bytes) {g : Governor} → IsSound g → IsSound (inject_permanent path g).0
unfolding inject_permanent
inject_permanent-IsSound path s = ground arith

advance_clock-IsSound : (delta : ℤ) {g : Governor} → IsSound g → IsSound (advance_clock delta g)
unfolding advance_clock advance
advance_clock-IsSound delta s = ground arith

issue_token-IsSound :
    (mint : ℤ → ℕ → Bytes) {g : Governor} → IsSound g → IsSound (issue_token mint g).0
unfolding issue_token
issue_token-IsSound mint s = ground arith

validate_token-IsSound :
    (value : Bytes) {g : Governor} → IsSound g → IsSound (validate_token value g).0
unfolding validate_token
validate_token-IsSound value {g} s = ground arith

module _ (mint : ℤ → ℕ → Bytes) where
  pub step-IsSound : (e : Event) {g : Governor} → IsSound g → IsSound (step mint e g)
  unfolding step
  step-IsSound (admitting endpoint cost records) s = admit-IsSound endpoint cost records s
  step-IsSound (injecting sig) s = inject_fault-IsSound sig s
  step-IsSound (applying sig) s = apply_then_fail-IsSound sig s
  step-IsSound (permanent path) s = inject_permanent-IsSound path s
  step-IsSound (advancing delta) s = advance_clock-IsSound delta s
  step-IsSound issuing s = issue_token-IsSound mint s
  step-IsSound (validating value) s = validate_token-IsSound value s

  run_from-IsSound : (es : List Event) {g : Governor} → IsSound g → IsSound (run mint es g)
  unfolding run
  run_from-IsSound [] s = s
  run_from-IsSound (e ∷ es) s = run_from-IsSound es (step-IsSound e s)

  -- Whatever calls are made on a new Governor, and in whatever order, its bucket stays within its
  -- capacity, its quota within its limit and marked as spent exactly when it is used up, and its
  -- request total equals its sequence number.
  pub run-IsSound : (cfg : Config) (es : List Event) → IsSound (run mint es (new cfg))
  run-IsSound cfg es = run_from-IsSound es (new-IsSound cfg)
