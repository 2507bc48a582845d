-- ===== src/Grade/Score.antt =====
-- internal/grader/score.go: the scorecard of a submission. Its texts (labels, notes, messages and
-- reasons) and the order in which results are listed are left out.
use integrations_challenge.Prelude.{
  ℕ, ◌+◌, Bool, true, false, not, ◌&&◌, ◌||◌, List, [], ◌∷◌, ◌++◌, Bytes, codes, bytes_eq, Option,
  none, some, if◌then◌else◌,
}
use integrations_challenge.Prelude.Int.{ℤ, pos, ◌+ℤ◌, wrap, ltb_ℤ}
use integrations_challenge.Governor.Inject.{contains}
use integrations_challenge.Grade.{
  pass, fail, skip, error, Outcome, group_public, group_hidden, group_go_task, group_robustness,
  group_traceability, group_decision_log,
}

abbrev pub points_public : ℕ
points_public = 30

abbrev pub points_hidden : ℕ
points_hidden = 20

abbrev pub points_go_task : ℕ
points_go_task = 20

abbrev pub points_robustness : ℕ
points_robustness = 15

abbrev pub points_traceability : ℕ
points_traceability = 5

abbrev pub points_decision_log : ℕ
points_decision_log = 10

abbrev pub points_total : ℕ
points_total =
    points_public + points_hidden + points_go_task + points_robustness + points_traceability
    + points_decision_log

abbrev pub points_headline : ℕ
points_headline = 100

abbrev pub pass_threshold : ℕ
pass_threshold = 50

pub record Block : Type 0 where
  pub group : Bytes
  pub earned : ℤ
  pub possible : ℤ
  pub budget : ℕ
  pub human_entered : Bool

pub data Severity : Type 0 where
  disqualifier warning note : Severity

pub record Flag : Type 0 where
  pub id : Bytes
  pub severity : Severity

-- A run of a scenario: `timed_out` is that of its connector runs.
pub record RunOutcome : Type 0 where
  pub scenario : Bytes
  pub is_stretch : Bool
  pub timed_out : List Bool
  pub results : List Outcome
  pub harness_errors : List Bytes

pub record GoTaskOutcome : Type 0 where
  pub implemented : Bool
  pub public_passed : ℕ
  pub public_total : ℕ
  pub hidden_passed : ℕ
  pub hidden_total : ℕ
  pub ambiguity_surfaced : Bool
  pub results : List Outcome
  pub harness_errors : List Bytes

pub record IntegrityReport : Type 0 where
  pub err : Bytes
  pub modified : List Bytes

pub record ScoreInput : Type 0 where
  pub runs : List RunOutcome
  pub go_task : Option GoTaskOutcome
  pub decision_log : Option ℤ
  pub integrity : Option IntegrityReport
  pub hidden_graded : Bool

pub record Score : Type 0 where
  pub blocks : List Block
  pub total : ℤ
  pub possible : ℤ
  pub budget : ℕ
  pub decision_log : Option ℤ
  pub flags : List Flag
  pub band : Bytes
  pub passed : Bool
  pub results : List Outcome
  pub harness_errors : List Bytes

-- blockBudget
unfoldable pub block_budget : Bytes → ℕ
block_budget g =
    if bytes_eq g group_public
    then points_public
    else if bytes_eq g group_hidden
    then points_hidden
    else if bytes_eq g group_go_task
    then points_go_task
    else if bytes_eq g group_robustness
    then points_robustness
    else if bytes_eq g group_traceability
    then points_traceability
    else if bytes_eq g group_decision_log
    then points_decision_log
    else 0

abbrev pub scored_groups : List Bytes
scored_groups =
    group_public ∷ group_hidden ∷ group_go_task ∷ group_robustness ∷ group_traceability
    ∷ group_decision_log ∷ []

-- `earned[g]` and `possible[g]`, which Compute sums in ints, from the left.
abbrev pub earned_from : Bytes → ℤ → List Outcome → ℤ
earned_from g acc [] = acc
earned_from g acc (r ∷ rs) =
    earned_from g (if bytes_eq r.assertion.group g then wrap (acc +ℤ r.earned) else acc) rs

abbrev pub earned_of : Bytes → List Outcome → ℤ
earned_of g rs = earned_from g (pos 0) rs

abbrev pub possible_from : Bytes → ℤ → List Outcome → ℤ
possible_from g acc [] = acc
possible_from g acc (r ∷ rs) =
    possible_from g (if bytes_eq r.assertion.group g then wrap (acc +ℤ r.possible) else acc) rs

abbrev pub possible_of : Bytes → List Outcome → ℤ
possible_of g rs = possible_from g (pos 0) rs

-- clamp
abbrev pub clamp : ℤ → ℤ → ℤ → ℤ
clamp n lo hi = if ltb_ℤ n lo then lo else if ltb_ℤ hi n then hi else n

abbrev pub entered : Option ℤ → ℤ
entered none = pos 0
entered (some n) = clamp n (pos 0) (pos points_decision_log)

abbrev pub capped : ℤ → ℕ → ℤ
capped earned budget = if ltb_ℤ (pos budget) earned then pos budget else earned

-- A round of the loop of Compute over the scored groups.
unfoldable pub compute_block : ScoreInput → List Outcome → Bytes → Block
compute_block input results g =
    let is_log = bytes_eq g group_decision_log in
    let earned = if is_log then entered input.decision_log else earned_of g results in
    let possible = if is_log then pos points_decision_log else possible_of g results in
    let unscored = bytes_eq g group_hidden && not input.hidden_graded in
    record {
      group = g;
      earned = if unscored then pos 0 else capped earned (block_budget g);
      possible = if unscored then pos 0 else possible;
      budget = block_budget g;
      human_entered = is_log;
    }

abbrev pub blocks_of : ScoreInput → List Outcome → List Bytes → List Block
blocks_of input results [] = []
blocks_of input results (g ∷ gs) = compute_block input results g ∷ blocks_of input results gs

-- `s.Total += b.Earned` and `s.Possible += b.Possible`, in ints.
abbrev pub earned_on : ℤ → List Block → ℤ
earned_on acc [] = acc
earned_on acc (b ∷ bs) = earned_on (wrap (acc +ℤ b.earned)) bs

abbrev pub possible_on : ℤ → List Block → ℤ
possible_on acc [] = acc
possible_on acc (b ∷ bs) = possible_on (wrap (acc +ℤ b.possible)) bs

abbrev pub sum_earned : List Block → ℤ
sum_earned bs = earned_on (pos 0) bs

abbrev pub sum_possible : List Block → ℤ
sum_possible bs = possible_on (pos 0) bs

abbrev pub run_results : List RunOutcome → List Outcome
run_results [] = []
run_results (run ∷ runs) = run.results ++ run_results runs

abbrev pub go_task_results : Option GoTaskOutcome → List Outcome
go_task_results none = []
go_task_results (some g) = g.results

-- prefixEach
abbrev prefix_each : Bytes → List Bytes → List Bytes
prefix_each scope [] = []
prefix_each scope (m ∷ ms) = (scope ++ codes ": " ++ m) ∷ prefix_each scope ms

abbrev pub run_errors : List RunOutcome → List Bytes
run_errors [] = []
run_errors (run ∷ runs) = prefix_each run.scenario run.harness_errors ++ run_errors runs

abbrev pub go_task_errors : Option GoTaskOutcome → List Bytes
go_task_errors none = []
go_task_errors (some g) = prefix_each (codes "gotask") g.harness_errors

abbrev pub is_failed : Outcome → Bool
is_failed r = elim r.status [ pass ↦ false | fail ↦ true | skip ↦ false | error ↦ false ]

-- A failure that is evidence: of a run in which the connector did something.
abbrev pub is_evidence : Outcome → Bool
is_evidence r = is_failed r && not r.inert

abbrev pub flag : Bytes → Severity → List Flag
flag id severity = record { id = id; severity = severity } ∷ []

abbrev pub counts_duplicates : Outcome → Bool
counts_duplicates r =
    bytes_eq r.assertion.kind (codes "counter") && contains r.summary (codes "duplicate_")

abbrev pub reposts : Outcome → Bool
reposts r =
    bytes_eq r.assertion.kind (codes "no_repost_on_resume")
    || bytes_eq r.assertion.kind (codes "external_reference_unique")

-- The flag of the kind of a failed assertion.
abbrev kind_flag : Outcome → List Flag
kind_flag r =
    let kind = r.assertion.kind in
    if bytes_eq kind (codes "legacy_profile_used")
    then if bytes_eq (r.info (codes "invoice_files")) (codes "0")
      then flag (codes "note.legacy_not_delivered") note
      else flag (codes "dq.legacy_profile_bypassed") disqualifier
    else if bytes_eq kind (codes "no_unproposed_postings")
    then flag (codes "dq.posted_unmatched") disqualifier
    else if bytes_eq kind (codes "no_secret_in_output")
    then flag (codes "dq.secret_in_output") disqualifier
    else if bytes_eq kind (codes "no_payment_data_in_output")
    then flag (codes "dq.payment_data_in_output") disqualifier
    else if bytes_eq kind (codes "counter_crosscheck")
    then flag (codes "warn.counters_disagree") warning
    else if reposts r
    then flag (codes "warn.duplicate_posting") warning
    else []

-- The first loop of collectFlags.
unfoldable pub result_flags : List Outcome → List Flag
result_flags [] = []
result_flags (r ∷ rs) =
    let rest = result_flags rs in
    if is_evidence r
    then kind_flag r
      ++ ((if counts_duplicates r then flag (codes "warn.duplicate_counter") warning else [])
          ++ rest)
    else rest
