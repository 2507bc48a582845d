-- ===== src/Governor/Tests.antt =====
-- A governor at concrete calls, and the theorems about it applied there.
use integrations_challenge.Prelude.{
  ℕ, ◌≡◌, ◌≤◌, ◌*◌, ◌+◌, refl, true, false, List, [], ◌∷◌, Bytes, none, some, arith, codes,
}
use integrations_challenge.Prelude.Int.{ℤ, pos}
use integrations_challenge.Clock.{advance}
use integrations_challenge.Governor.{
  Config, Governor, new, admit, quarantine, bucket, admitted, limited, refill, spend_quota, note429,
  quota_exhausted,
}
use integrations_challenge.Governor.Admit.{Effect, IsRefused, Spends, admit-Effect}
use integrations_challenge.Governor.Inject.{
  fault_429, inject_fault, first_fault, signature_hash, inject_permanent, apply_then_fail, contains,
  permanent_fault,
}
use integrations_challenge.Governor.Token.{token_expired, issue_token, validate_token}
use integrations_challenge.Governor.Invariant.{IsSound}
use integrations_challenge.Governor.Events.{
  Event, admitting, permanent, advancing, issuing, step, run, advance_clock, run-IsSound,
}
use integrations_challenge.Governor.Faults.{
  retry_passes, permanent_once, apply_once, exhausted_for_good,
}
use integrations_challenge.Governor.Rate.{admissions, admissions-rate}
use integrations_challenge.Governor.Allowance.{validated, allowance}

-- A bucket of two, one token each 10 vms, a quota of four, chaos, and a permanent fault on the
-- second request.
abbrev config : Config
config = record {
  seed = pos 7;
  quota_limit = pos 4;
  bucket_capacity = pos 2;
  refill_interval_vms = pos 10;
  chaos = true;
  permanent_fault_at = pos 2;
  permanent_fault_path = [];
  token_request_ttl = pos 2;
  token_virtual_ttl_vms = pos 50;
  rate_limit_cost_vms100 = pos 0;
}

abbrev mint : ℤ → ℕ → Bytes
mint seed n = n ∷ []

abbrev list_call : Event
list_call = admitting (codes "list") (pos 4050) (pos 1)

abbrev calls : List Event
calls = list_call ∷ list_call ∷ list_call ∷ advancing (pos 3000) ∷ list_call ∷ []

abbrev start : Governor
start = new config

abbrev second : Governor
second = run mint (permanent (codes "/a") ∷ []) start

admit-Effect_example : Effect start 4050 1 (admit (codes "list") (pos 4050) (pos 1) start)
admit-Effect_example = admit-Effect (codes "list") (pos 4050) (pos 1) start

run-IsSound_example : IsSound (run mint calls (new config))
run-IsSound_example = run-IsSound mint config calls

first_429 : (inject_fault (codes "1") start).1 ≡ some fault_429
unfolding inject_fault first_fault signature_hash new
first_429 = refl

retry_passes_example :
    (inject_fault (codes "1") (run mint calls (inject_fault (codes "1") start).0)).1 ≡ none
retry_passes_example = retry_passes mint calls start (codes "1") fault_429 first_429

second_fires : (inject_permanent (codes "/b") second).1 ≡ some permanent_fault
unfolding inject_permanent new run step contains
second_fires = refl

permanent_once_example :
    (inject_permanent (codes "/c") (run mint calls (inject_permanent (codes "/b") second).0)).1
    ≡ none
permanent_once_example =
    permanent_once mint calls second (codes "/b") (codes "/c") permanent_fault second_fires

apply_fires : (apply_then_fail (codes "*") start).1 ≡ true
unfolding apply_then_fail signature_hash new
apply_fires = refl

apply_once_example :
    (apply_then_fail (codes "0") (run mint calls (apply_then_fail (codes "*") start).0)).1 ≡ false
apply_once_example = apply_once mint calls start (codes "*") (codes "0") apply_fires

used_up : (run mint calls start).quota_limit ≤ (run mint calls start).quota_used
unfolding run step admit quarantine bucket admitted limited refill spend_quota note429 new
    advance_clock advance
used_up = omega arith

exhausted_for_good_example :
    let g = run mint (issuing ∷ []) (run mint calls (new config)) in
    IsRefused 503 quota_exhausted false 0 (admit (codes "get") (pos 2500) (pos 1) g).1
    × Spends g 0 0 0 (admit (codes "get") (pos 2500) (pos 1) g).0
exhausted_for_good_example =
    exhausted_for_good mint config calls (issuing ∷ []) used_up (codes "get") (pos 2500) (pos 1)

admissions-rate_example :
    admissions mint calls start * start.refill_vms100
    ≤ start.capacity * start.refill_vms100 + (run mint calls start).clock
admissions-rate_example = admissions-rate mint config calls refl

all_admitted : admissions mint calls start ≡ 4
unfolding admissions step admit quarantine bucket admitted limited refill spend_quota note429 new
    advance_clock advance
all_admitted = refl

allowance_example :
    (validate_token
      (issue_token mint start).1
      (validated 2 (issue_token mint start).1 (issue_token mint start).0)).1
    ≡ token_expired
unfolding new
allowance_example = allowance mint start refl 2
