-- ===== src/Grade/Tests.antt =====
-- A scorecard on concrete results, and the theorems about it applied there.
use integrations_challenge.Prelude.{
  ◌≡◌, ◌<◌, ◌^◌, refl, Bool, true, false, [], ◌∷◌, ◌++◌, Bytes, codes, bytes_eq, Option, none, some,
  ok, err, if◌then◌else◌, arith,
}
use integrations_challenge.Prelude.Int.{pos, ◌≤ℤ◌, ◌+ℤ◌, wrap, min_int64}
use integrations_challenge.Text.{trim_space}
use integrations_challenge.Grade.{
  Assertion, Status, pass, Outcome, Observed, Checker, evaluate, conclude, settle, guard_vacuous,
  validate_assertion, points_unscored, earned_points, possible_points, level_scored, group_public,
}
use integrations_challenge.Grade.Points.{evaluate-bounds}
use integrations_challenge.Grade.Score.{
  result_flags, RunOutcome, ScoreInput, block_budget, compute_block, run_results, go_task_results,
}
use integrations_challenge.Grade.Compute.{
  compute, collect_flags, inert_scenarios, band_of, by_severity, unseen,
}
use integrations_challenge.Grade.Bounds.{AreFair, points, compute-bounds}
use integrations_challenge.Grade.Inert.{evaluate_all, inert-fails}

abbrev assertion : Assertion
assertion = record {
  id = codes "documents.complete";
  group = group_public;
  points = pos 12;
  level = level_scored;
  kind = codes "documents_complete";
  args = [];
  title = codes "Documents";
}

abbrev found : Status → Outcome
found status = record {
  assertion = assertion;
  status = status;
  earned = pos 0;
  possible = pos 0;
  summary = [];
  findings = [];
  truncated = 0;
  info = λ key. [];
  scenario = [];
  inert = false;
}

-- A check that always passes.
abbrev checks : Bytes → Option Checker
checks kind =
    if bytes_eq kind (codes "documents_complete") then some (λ a obs. (found pass, none)) else none

abbrev observed : Bool → Observed
observed no_activity = record {
  scenario = codes "s1";
  no_activity = no_activity;
  metrics_evidence = [];
}

evaluated :
    ((evaluate checks assertion (observed false)).earned ≡ pos 12)
    × ((evaluate checks assertion (observed true)).earned ≡ pos 0)
    × ((evaluate checks assertion (observed true)).possible ≡ pos 12)
    × (validate_assertion (λ kind. true) (record assertion { level = codes "info" })
        ≡ err points_unscored)
unfolding evaluate conclude settle guard_vacuous validate_assertion trim_space
evaluated = (refl, refl, refl, refl)

is_valid : validate_assertion (λ kind. true) assertion ≡ ok tt
unfolding validate_assertion trim_space
is_valid = refl

evaluate-bounds_example :
    let r = evaluate checks assertion (observed true) in
    (pos 0 ≤ℤ r.earned)
    × (r.earned ≤ℤ r.possible)
    × (r.possible ≤ℤ pos 12)
    × (r.earned ≡ earned_points assertion r.status)
    × (r.possible ≡ possible_points assertion r.status)
evaluate-bounds_example = evaluate-bounds (λ kind. true) checks assertion (observed true) is_valid

abbrev run : Bool → RunOutcome
run no_activity = record {
  scenario = codes "s1";
  is_stretch = false;
  timed_out = false ∷ [];
  results =
      evaluate_all checks (observed no_activity)
        (assertion ∷ record assertion { points = pos 20 } ∷ []);
  harness_errors = [];
}

abbrev input : Bool → ScoreInput
input no_activity = record {
  runs = run no_activity ∷ [];
  go_task = none;
  decision_log = some (pos 12);
  integrity = none;
  hidden_graded = false;
}

-- The public block is capped at 30, the decision log at 10.
scored :
    ((compute (input false)).total ≡ pos 40)
    × ((compute (input true)).total ≡ pos 10)
    × ((compute (input false)).band ≡ codes "interview anyway, subject to the stop line")
unfolding compute ◌+ℤ◌ compute_block block_budget evaluate conclude settle guard_vacuous band_of
    collect_flags by_severity unseen result_flags inert_scenarios
scored = (refl, refl, refl)

fair : AreFair (run_results (run false ∷ []) ++ go_task_results none)
unfolding evaluate conclude settle
fair = (
  record { at_least_nothing = omega arith; at_most_possible = omega arith },
  (record { at_least_nothing = omega arith; at_most_possible = omega arith }, tt),
)

few : points (run_results (run false ∷ []) ++ go_task_results none) < 2 ^ 60
unfolding evaluate conclude settle
few = omega arith

-- Two results of 2^62 points in one group: the sums wrap to the least int64.
wrapped : (wrap (pos (2 ^ 62) +ℤ pos (2 ^ 62)) ≡ min_int64)
unfolding ◌+ℤ◌
wrapped = refl

compute-bounds_example :
    let score = compute (input false) in
    (pos 0 ≤ℤ score.total) × (score.total ≤ℤ score.possible) × (score.total ≤ℤ pos 100)
compute-bounds_example = compute-bounds (input false) fair few

inert-fails_example :
    let score = compute (input true) in (score.total ≤ℤ pos 30) × (score.passed ≡ false)
inert-fails_example =
    inert-fails checks (input true)
      (
        record {
          obs = observed true;
          assertions = assertion ∷ record assertion { points = pos 20 } ∷ [];
          no_activity = refl;
          evaluated = refl;
        },
        tt,
      )
      tt
