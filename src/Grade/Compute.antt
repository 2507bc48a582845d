-- ===== src/Grade/Compute.antt =====
-- internal/grader/score.go: the flags, the band and the verdict of a scorecard, and Compute.
use integrations_challenge.Prelude.{
  ℕ, Bool, true, false, not, ◌&&◌, ◌||◌, List, [], ◌∷◌, ◌++◌, Bytes, codes, Option, none, some,
  if◌then◌else◌, length, ltb, ◌==◌,
}
use integrations_challenge.Prelude.Int.{ℤ, pos, ltb_ℤ, leb_ℤ}
use integrations_challenge.Decimal.Text.{is_empty}
use integrations_challenge.Proposals.{has_text}
use integrations_challenge.Grade.{Outcome}
use integrations_challenge.Grade.Score.{
  points_total, points_headline, pass_threshold, Severity, disqualifier, warning, note, Flag,
  RunOutcome, GoTaskOutcome, IntegrityReport, ScoreInput, Score, scored_groups, blocks_of,
  sum_earned, sum_possible, run_results, go_task_results, run_errors, go_task_errors, is_evidence,
  flag, counts_duplicates, reposts, result_flags,
}

abbrev all_inert : List Outcome → Bool
all_inert [] = true
all_inert (r ∷ rs) = r.inert && all_inert rs

abbrev is_none_left : List Outcome → Bool
is_none_left [] = true
is_none_left (r ∷ rs) = false

-- inertScenarios
unfoldable pub inert_scenarios : List RunOutcome → List Bytes
inert_scenarios [] = []
inert_scenarios (run ∷ runs) =
    let rest = inert_scenarios runs in
    if is_none_left run.results
    then rest
    else if all_inert run.results
    then run.scenario ∷ rest
    else rest

abbrev inert_flags : List Bytes → List Flag
inert_flags [] = []
inert_flags (name ∷ names) = flag (codes "note.inert_run") note

abbrev go_task_flags : Option GoTaskOutcome → List Flag
go_task_flags none = []
go_task_flags (some g) =
    if not g.implemented
    then flag (codes "note.gotask_stub") note
    else if not g.ambiguity_surfaced
    then flag (codes "dq.silent_ambiguity") disqualifier
    else []

abbrev timeouts : Bytes → List Bool → List Flag
timeouts scenario [] = []
timeouts scenario (timed_out ∷ runs) =
    let rest = timeouts scenario runs in
    if timed_out then flag (codes "note.timeout." ++ scenario) note ++ rest else rest

abbrev timeout_flags : List RunOutcome → List Flag
timeout_flags [] = []
timeout_flags (run ∷ runs) = timeouts run.scenario run.timed_out ++ timeout_flags runs

abbrev total_flags : List Flag
total_flags =
    if points_total == points_headline then [] else flag (codes "spec.total_mismatch") note

abbrev is_clean : IntegrityReport → Bool
is_clean r = is_empty r.err && (length r.modified == 0)

abbrev integrity_flags : Option IntegrityReport → List Flag
integrity_flags none = []
integrity_flags (some r) =
    if is_clean r
    then []
    else flag (codes "integrity.protected_tree") (if is_empty r.err then warning else note)

abbrev harness_flags : List Bytes → List Flag
harness_flags [] = []
harness_flags (e ∷ es) = flag (codes "note.harness") note

abbrev stretch_flags : List RunOutcome → List Flag
stretch_flags [] = []
stretch_flags (run ∷ runs) =
    let rest = stretch_flags runs in
    if run.is_stretch then flag (codes "note.stretch." ++ run.scenario) note ++ rest else rest

-- The flags with an id that has not been seen.
unfoldable pub unseen : List Bytes → List Flag → List Flag
unseen seen [] = []
unseen seen (f ∷ fs) = elim (has_text f.id seen) [
  | true ↦ unseen seen fs
  | false ↦ f ∷ unseen (f.id ∷ seen) fs
]

abbrev pub rank : Severity → ℕ
rank disqualifier = 0
rank warning = 1
rank note = 2

-- A flag goes before the first one of a higher rank: sort.SliceStable, from the back.
unfoldable pub insert_flag : Flag → List Flag → List Flag
insert_flag f [] = f ∷ []
insert_flag f (g ∷ gs) =
    let rest = insert_flag f gs in
    if ltb (rank g.severity) (rank f.severity) then g ∷ rest else f ∷ g ∷ gs

unfoldable pub by_severity : List Flag → List Flag
by_severity [] = []
by_severity (f ∷ fs) = insert_flag f (by_severity fs)

-- collectFlags
unfoldable pub collect_flags : ScoreInput → List Outcome → List Bytes → List Flag
collect_flags input results errors = by_severity (
    unseen [] (
      result_flags results
      ++ (inert_flags (inert_scenarios input.runs)
          ++ (go_task_flags input.go_task
              ++ (timeout_flags input.runs
                  ++ (total_flags
                      ++ (integrity_flags input.integrity
                          ++ (harness_flags errors ++ stretch_flags input.runs))))))))

-- Disqualified
abbrev pub has_disqualifier : List Flag → Bool
has_disqualifier [] = false
has_disqualifier (f ∷ fs) = (rank f.severity == 0) || has_disqualifier fs

-- goTaskGreen
unfoldable pub go_task_green : Option GoTaskOutcome → Bool
go_task_green none = false
go_task_green (some g) =
    g.implemented
    && not (g.public_total == 0)
    && (g.public_passed == g.public_total)
    && ((g.hidden_total == 0) || (g.hidden_passed == g.hidden_total))

-- duplicateCountersClean
unfoldable pub duplicate_counters_clean : List Outcome → Bool
duplicate_counters_clean [] = true
duplicate_counters_clean (r ∷ rs) =
    let rest = duplicate_counters_clean rs in
    if not (is_evidence r) then rest else if reposts r || counts_duplicates r then false else rest

-- Whether a decision log was entered with at least six.
abbrev pub is_engaged : Option ℤ → Bool
is_engaged none = false
is_engaged (some n) = leb_ℤ (pos 6) n

-- band
unfoldable pub band_of : List Flag → ℤ → Option GoTaskOutcome → Option ℤ → Bytes
band_of flags total go_task log =
    if has_disqualifier flags
    then codes "no"
    else if leb_ℤ (pos 82) total
    then if go_task_green go_task && is_engaged log
      then codes "staff or strong senior"
      else codes "solid senior (top band withheld)"
    else if leb_ℤ (pos 65) total
    then codes "solid senior"
    else if leb_ℤ (pos 50) total
    then codes "mid"
    else if leb_ℤ (pos 38) total
    then codes "interview anyway, subject to the stop line"
    else codes "no"

-- verdict
unfoldable pub verdict_of : List Flag → ℤ → List Outcome → Option ℤ → Bool
verdict_of flags total results log =
    not (ltb_ℤ total (pos pass_threshold))
    && not (has_disqualifier flags)
    && duplicate_counters_clean results
    && is_engaged log

-- Compute
unfoldable pub compute : ScoreInput → Score
compute input =
    let results = run_results input.runs ++ go_task_results input.go_task in
    let errors = run_errors input.runs ++ go_task_errors input.go_task in
    let blocks = blocks_of input results scored_groups in
    let total = sum_earned blocks in
    let flags = collect_flags input results errors in
    record {
      blocks = blocks;
      total = total;
      possible = sum_possible blocks;
      budget = points_total;
      decision_log = input.decision_log;
      flags = flags;
      band = band_of flags total input.go_task input.decision_log;
      passed = verdict_of flags total results input.decision_log;
      results = results;
      harness_errors = errors;
    }
