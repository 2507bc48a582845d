-- ===== src/Grade.antt =====
-- internal/grader/assert.go: an assertion, what its check finds, and the points it earns. What a
-- check finds in an observed run, and what NoActivity says of the run, are arguments.
pub mod Points
pub mod Score
pub mod Compute
pub mod Bounds
pub mod Inert
mod Tests
use integrations_challenge.Prelude.{
  ℕ, ◌-◌, Bool, true, false, not, ◌&&◌, ◌||◌, List, [], ◌∷◌, ◌++◌, Bytes, codes, bytes_eq, Option,
  none, some, Result, ok, err, ◌>>=◌, ◌>>◌, fail_if, if◌then◌else◌, length, take, ltb, ◌==◌,
}
use integrations_challenge.Prelude.Int.{ℤ, pos, ltb_ℤ, ◌==ℤ◌}
use integrations_challenge.Text.{trim_space}
use integrations_challenge.Decimal.Text.{is_empty}

abbrev pub level_scored : Bytes
level_scored = codes "scored"

abbrev level_info : Bytes
level_info = codes "info"

abbrev level_harness : Bytes
level_harness = codes "harness"

abbrev pub group_public : Bytes
group_public = codes "public_scenarios"

abbrev pub group_hidden : Bytes
group_hidden = codes "hidden_scenarios"

abbrev pub group_go_task : Bytes
group_go_task = codes "go_task"

abbrev pub group_robustness : Bytes
group_robustness = codes "robustness"

abbrev pub group_traceability : Bytes
group_traceability = codes "traceability"

abbrev pub group_decision_log : Bytes
group_decision_log = codes "decision_log"

abbrev group_stretch : Bytes
group_stretch = codes "stretch"

abbrev pub group_integrity : Bytes
group_integrity = codes "integrity"

pub record Assertion : Type 0 where
  pub id : Bytes
  pub group : Bytes
  pub points : ℤ
  pub level : Bytes
  pub kind : Bytes
  pub args : Bytes
  pub title : Bytes

-- The errors of Validate.
pub data Invalid : Type 0 where
  empty_id negative_points points_unscored level_unset unknown_level unknown_group unknown_kind :
      Invalid

abbrev is_known_group : Bytes → Bool
is_known_group g =
    bytes_eq g group_public
    || bytes_eq g group_hidden
    || bytes_eq g group_go_task
    || bytes_eq g group_robustness
    || bytes_eq g group_traceability
    || bytes_eq g group_decision_log
    || bytes_eq g group_stretch
    || bytes_eq g group_integrity

abbrev validate_level : Assertion → Result Invalid (Unit {0})
validate_level a =
    if bytes_eq a.level level_scored
    then ok tt
    else if bytes_eq a.level level_info || bytes_eq a.level level_harness
    then fail_if (not (a.points ==ℤ pos 0)) points_unscored
    else if is_empty a.level
    then err level_unset
    else err unknown_level

-- Assertion.Validate, by the kinds that have a check.
unfoldable pub validate_assertion : (Bytes → Bool) → Assertion → Result Invalid (Unit {0})
validate_assertion is_known_kind a = do
  fail_if (is_empty (trim_space a.id)) empty_id
  fail_if (ltb_ℤ a.points (pos 0)) negative_points
  validate_level a
  fail_if (not (is_known_group a.group)) unknown_group
  fail_if (not (is_known_kind a.kind)) unknown_kind

pub data Status : Type 0 where
  pass fail skip error : Status

pub record Finding : Type 0 where
  pub subject : Bytes
  pub expected : Bytes
  pub actual : Bytes
  pub hint : Bytes
  pub evidence_path : Bytes

-- Result; `info` gives the empty text for a missing key, as Go's map does.
pub record Outcome : Type 0 where
  pub assertion : Assertion
  pub status : Status
  pub earned : ℤ
  pub possible : ℤ
  pub summary : Bytes
  pub findings : List Finding
  pub truncated : ℕ
  pub info : Bytes → Bytes
  pub scenario : Bytes
  pub inert : Bool

abbrev pub max_findings : ℕ
max_findings = 20

-- What Evaluate itself reads of an observed run.
pub record Observed : Type 0 where
  pub scenario : Bytes
  pub no_activity : Bool
  pub metrics_evidence : Bytes

-- A check gives a result and, for a fault of the harness, an error.
abbrev pub Checker : Type 0
Checker = Assertion → Observed → Outcome × Option Bytes

abbrev no_connector : Observed → Finding
no_connector obs = record {
  subject = codes "connector activity";
  expected = codes "at least one request, batch or document from the connector";
  actual = codes "the connector made no request to either server and produced nothing";
  hint = codes "the assertion holds only because the run never happened";
  evidence_path = obs.metrics_evidence;
}

abbrev pub is_settled : Status → Bool
is_settled pass = true
is_settled fail = true
is_settled skip = false
is_settled error = false

-- A scored assertion of a run that never happened.
abbrev pub unearned : Status → Observed → Outcome → Outcome
unearned pass obs res = record res {
  status = fail;
  summary = codes "unearned: the connector produced no activity, so this held vacuously";
  findings = no_connector obs ∷ res.findings;
}
unearned skip obs res = record res { status = fail; findings = no_connector obs ∷ res.findings }
unearned fail obs res = res
unearned error obs res = res

-- guardVacuous
unfoldable pub guard_vacuous : Assertion → Observed → Outcome → Outcome
guard_vacuous a obs res =
    let marked = record res { inert = true } in
    let unassessed = record marked {
      status = skip;
      summary = codes "not assessed: the connector produced no activity in this scenario";
      findings = [];
    } in
    if bytes_eq a.group group_integrity
    then if is_settled res.status then unassessed else marked
    else if bytes_eq a.level level_scored
    then unearned res.status obs marked
    else marked

abbrev pub earned_points : Assertion → Status → ℤ
earned_points a pass = if bytes_eq a.level level_scored then a.points else pos 0
earned_points a fail = pos 0
earned_points a skip = pos 0
earned_points a error = pos 0

abbrev pub possible_points : Assertion → Status → ℤ
possible_points a pass = if bytes_eq a.level level_scored then a.points else pos 0
possible_points a fail = if bytes_eq a.level level_scored then a.points else pos 0
possible_points a skip = pos 0
possible_points a error = pos 0

abbrev cap_findings : Outcome → Outcome
cap_findings res =
    if ltb max_findings (length res.findings)
    then record res {
      truncated = length res.findings - max_findings;
      findings = take max_findings res.findings;
    }
    else res

abbrev pub default_summary : Assertion → Outcome → Outcome
default_summary a res =
    let title = if is_empty res.summary then a.title else res.summary in
    record res { summary = if is_empty title then a.kind else title }

-- The end of Evaluate, from a result without an error.
unfoldable pub settle : Assertion → Outcome → Outcome
settle a res = default_summary a (
    cap_findings
      (record res { earned = earned_points a res.status; possible = possible_points a res.status }))

abbrev no_outcome : Assertion → Observed → Outcome
no_outcome a obs = record {
  assertion = a;
  status = error;
  earned = pos 0;
  possible = pos 0;
  summary = codes "unknown assertion kind";
  findings = [];
  truncated = 0;
  info = λ key. [];
  scenario = obs.scenario;
  inert = false;
}

-- What Evaluate makes of the result and the error of a check.
unfoldable pub conclude : Assertion → Observed → Outcome × Option Bytes → Outcome
conclude a obs (found, some message) = record found {
  assertion = a;
  scenario = obs.scenario;
  status = error;
  earned = pos 0;
  possible = pos 0;
  summary = codes "harness error: " ++ message;
}
conclude a obs (found, none) =
    let res = record found { assertion = a; scenario = obs.scenario } in
    settle a (if obs.no_activity then guard_vacuous a obs res else res)

-- Evaluate
unfoldable pub evaluate : (Bytes → Option Checker) → Assertion → Observed → Outcome
evaluate checks a obs = elim (checks a.kind) [
  | none ↦ no_outcome a obs
  | some check ↦ conclude a obs (check a obs)
]
