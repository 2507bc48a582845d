-- ===== src/Grade/Inert.antt =====
-- internal/grader: a submission whose connector does nothing.
use mathlib.Core.Path.{subst}
use integrations_challenge.Prelude.{
  ℕ, ◌+◌, ◌^◌, ◌<◌, ◌≤◌, ◌≡◌, refl, sym, ◌∙◌, true, false, not, ◌&&◌, ◌||◌, List, [], ◌∷◌, ◌++◌,
  Bytes, bytes_eq, Option, none, some, if◌then◌else◌, if_elim, arith,
}
use integrations_challenge.Prelude.Int.{ℤ, pos, negsuc, ◌+ℤ◌, ltb_ℤ, ◌≤ℤ◌, pos_part, neg_part, wrap}
use integrations_challenge.Grade.{
  Outcome, Assertion, Observed, Checker, evaluate, group_hidden, group_decision_log, group_go_task,
}
use integrations_challenge.Grade.Points.{evaluate-inert}
use integrations_challenge.Grade.Score.{
  ScoreInput, RunOutcome, block_budget, scored_groups, earned_of, earned_from, earned_on, entered,
  capped, compute_block, blocks_of, sum_earned, run_results, go_task_results, run_errors,
  go_task_errors, Flag, pass_threshold,
}
use integrations_challenge.Grade.Compute.{compute, verdict_of, collect_flags}
use integrations_challenge.Grade.Bounds.{capped_mono, block_le}

-- The results of the assertions of a scenario.
abbrev pub evaluate_all : (Bytes → Option Checker) → Observed → List Assertion → List Outcome
evaluate_all checks obs [] = []
evaluate_all checks obs (a ∷ as_) = evaluate checks a obs ∷ evaluate_all checks obs as_

-- A run in which the connector did nothing, with the results of its assertions.
pub record IsInertRun (checks : Bytes → Option Checker) (run : RunOutcome) : Type 0 where
  pub obs : Observed
  pub assertions : List Assertion
  pub no_activity : obs.no_activity ≡ true
  pub evaluated : run.results ≡ evaluate_all checks obs assertions

abbrev pub AreInertRuns : (Bytes → Option Checker) → List RunOutcome → Type 0
AreInertRuns checks [] = Unit
AreInertRuns checks (run ∷ runs) = IsInertRun checks run × AreInertRuns checks runs

abbrev EarnNothing : List Outcome → Type 0
EarnNothing [] = Unit
EarnNothing (r ∷ rs) = (r.earned ≡ pos 0) × EarnNothing rs

evaluate_all-EarnNothing :
    (checks : Bytes → Option Checker) (obs : Observed) (assertions : List Assertion)
    → obs.no_activity ≡ true
    → EarnNothing (evaluate_all checks obs assertions)
evaluate_all-EarnNothing checks obs [] h = tt
evaluate_all-EarnNothing checks obs (a ∷ rest) h =
    (evaluate-inert checks a obs h, evaluate_all-EarnNothing checks obs rest h)

EarnNothing-append :
    (xs ys : List Outcome) → EarnNothing xs → EarnNothing ys → EarnNothing (xs ++ ys)
EarnNothing-append [] ys h k = k
EarnNothing-append (x ∷ xs) ys h k = (h.0, EarnNothing-append xs ys h.1 k)

run_results-EarnNothing :
    (checks : Bytes → Option Checker) (runs : List RunOutcome)
    → AreInertRuns checks runs
    → EarnNothing (run_results runs)
run_results-EarnNothing checks [] h = tt
run_results-EarnNothing checks (run ∷ runs) h =
    let one = h.0 in
    EarnNothing-append run.results (run_results runs)
      (subst EarnNothing (sym one.evaluated)
        (evaluate_all-EarnNothing checks one.obs one.assertions one.no_activity))
      (run_results-EarnNothing checks runs h.1)

zero_sum : (a : ℤ) → a ≡ pos 0 → wrap (pos 0 +ℤ a) ≡ pos 0
unfolding ◌+ℤ◌
zero_sum a h = rw h refl

earned-after :
    (g : Bytes) (xs ys : List Outcome)
    → EarnNothing xs
    → earned_from g (pos 0) (xs ++ ys) ≡ earned_from g (pos 0) ys
earned-after g [] ys h = refl
earned-after g (x ∷ xs) ys h =
    let ih = earned-after g xs ys h.1 in
    if_elim (λ (acc : ℤ). earned_from g acc (xs ++ ys) ≡ earned_from g (pos 0) ys)
      (bytes_eq x.assertion.group g) (λ here. rw (zero_sum x.earned h.0) ih) (λ other. ih)

-- The results of the Go task are all of its group.
abbrev pub AreOfGoTask : List Outcome → Type 0
AreOfGoTask [] = Unit
AreOfGoTask (r ∷ rs) = (r.assertion.group ≡ group_go_task) × AreOfGoTask rs

go_task_earns_there :
    (g : Bytes) (rs : List Outcome)
    → AreOfGoTask rs
    → bytes_eq group_go_task g ≡ false
    → earned_of g rs ≡ pos 0
go_task_earns_there g [] h other = refl
go_task_earns_there g (r ∷ rs) h other =
    let apart : bytes_eq r.assertion.group g ≡ false =
      subst (λ (x : Bytes). bytes_eq x g ≡ false) (sym h.0) other in
    rw apart (go_task_earns_there g rs h.1 other)

-- The points of `x` are at most `high`, and at least `low` below nothing.
abbrev IsBetween : ℤ → ℕ → ℕ → Type 0
IsBetween x low high = (neg_part x ≤ low) × (pos_part x ≤ high)

sum_parts :
    (a b : ℤ)
    → (neg_part (a +ℤ b) ≤ neg_part a + neg_part b) × (pos_part (a +ℤ b) ≤ pos_part a + pos_part b)
unfolding ◌+ℤ◌
sum_parts a b = ground arith

wrap_within : (x : ℤ) → neg_part x ≤ 2 ^ 63 → pos_part x < 2 ^ 63 → wrap x ≡ x
wrap_within (pos n) h k = ground arith
wrap_within (negsuc n) h k = ground arith

IsBetween-add :
    (a : ℤ) (la ha : ℕ) (b : ℤ) (lb hb : ℕ)
    → IsBetween a la ha
    → IsBetween b lb hb
    → la + lb ≤ 2 ^ 63
    → ha + hb < 2 ^ 63
    → IsBetween (wrap (a +ℤ b)) (la + lb) (ha + hb)
IsBetween-add a la ha b lb hb (a0, a1) (b0, b1) low high =
    let (s0, s1) = sum_parts a b in
    rw (wrap_within (a +ℤ b) (omega arith) (omega arith)) (omega arith, omega arith)

wrap_low : (x : ℤ) → neg_part (wrap x) ≤ 2 ^ 63
wrap_low (pos n) = ground arith
wrap_low (negsuc n) = ground arith

earned-low :
    (g : Bytes) (acc : ℤ) (rs : List Outcome)
    → neg_part acc ≤ 2 ^ 63
    → neg_part (earned_from g acc rs) ≤ 2 ^ 63
earned-low g acc [] h = h
earned-low g acc (r ∷ rs) h =
    if_elim (λ (x : ℤ). neg_part (earned_from g x rs) ≤ 2 ^ 63) (bytes_eq r.assertion.group g)
      (λ here. earned-low g (wrap (acc +ℤ r.earned)) rs (wrap_low (acc +ℤ r.earned)))
      (λ other. earned-low g acc rs h)

-- What a group can earn here.
abbrev most : Bytes → ℕ
most g = if bytes_eq group_go_task g || bytes_eq g group_decision_log then block_budget g else 0

abbrev least : Bytes → ℕ
least g = if bytes_eq group_go_task g then 2 ^ 63 else 0

capped_low : (x : ℤ) (budget low : ℕ) → neg_part x ≤ low → neg_part (capped x budget) ≤ low
capped_low x budget low h =
    if_elim (λ (y : ℤ). neg_part y ≤ low) (ltb_ℤ (pos budget) x) (λ over. omega arith) (λ under. h)

le_part : (x : ℤ) (n : ℕ) → x ≤ℤ pos n → pos_part x ≤ n
le_part (pos x) n h = omega (arith, h)
le_part (negsuc x) n h = omega arith

part_le : (x : ℤ) (n : ℕ) → pos_part x ≤ n → x ≤ℤ pos n
part_le x n h = omega arith

block_most :
    (input : ScoreInput) (results : List Outcome) (g : Bytes)
    → (bytes_eq group_go_task g ≡ false → earned_of g results ≡ pos 0)
    → (compute_block input results g).earned ≤ℤ pos (most g)
unfolding compute_block
block_most input results g nothing =
    if_elim (λ (n : ℕ). (compute_block input results g).earned ≤ℤ pos n)
      (bytes_eq group_go_task g || bytes_eq g group_decision_log)
      (λ scored. block_le input results g)
      (λ other.
        let no_log : bytes_eq g group_decision_log ≡ false = ground arith in
        let zero : earned_of g results ≡ pos 0 = nothing (ground arith) in
        if_elim (λ (x : ℤ). x ≤ℤ pos 0) (bytes_eq g group_hidden && not input.hidden_graded)
          (λ unscored. omega arith)
          (λ graded.
            rw (no_log, zero) (capped_mono (pos 0) (pos 0) (block_budget g) (omega arith))))

entered_low : (log : Option ℤ) → neg_part (entered log) ≤ 0
entered_low none = omega arith
entered_low (some n) = ground arith

block_least :
    (input : ScoreInput) (results : List Outcome) (g : Bytes)
    → (bytes_eq group_go_task g ≡ false → earned_of g results ≡ pos 0)
    → neg_part (compute_block input results g).earned ≤ least g
unfolding compute_block
block_least input results g nothing =
    if_elim (λ (x : ℤ). neg_part x ≤ least g) (bytes_eq g group_hidden && not input.hidden_graded)
      (λ unscored. omega arith)
      (λ graded. capped_low _ (block_budget g) (least g) (
        if_elim (λ (x : ℤ). neg_part x ≤ least g) (bytes_eq g group_decision_log)
          (λ log. omega (arith, entered_low input.decision_log))
          (λ group.
            if_elim (λ (n : ℕ). neg_part (earned_of g results) ≤ n) (bytes_eq group_go_task g)
              (λ here. earned-low g (pos 0) results (omega arith))
              (λ other. rw (nothing other) (omega arith)))))

abbrev sum_most : List Bytes → ℕ
sum_most [] = 0
sum_most (g ∷ gs) = most g + sum_most gs

abbrev sum_least : List Bytes → ℕ
sum_least [] = 0
sum_least (g ∷ gs) = least g + sum_least gs

blocks_most :
    (input : ScoreInput) (results : List Outcome) (gs : List Bytes) (acc : ℤ) (low high : ℕ)
    → ((g : Bytes) → bytes_eq group_go_task g ≡ false → earned_of g results ≡ pos 0)
    → IsBetween acc low high
    → low + sum_least gs ≤ 2 ^ 63
    → high + sum_most gs < 2 ^ 63
    → pos_part (earned_on acc (blocks_of input results gs)) ≤ high + sum_most gs
blocks_most input results [] acc low high nothing h l k = omega (arith, h.1)
blocks_most input results (g ∷ gs) acc low high nothing h l k =
    let b = compute_block input results g in
    let own : IsBetween b.earned (least g) (most g) = (
      block_least input results g (nothing g),
      le_part b.earned (most g) (block_most input results g (nothing g)),
    ) in
    let rest =
      blocks_most input results gs (wrap (acc +ℤ b.earned)) (low + least g) (high + most g) nothing
        (IsBetween-add acc low high b.earned (least g) (most g) h own (omega arith) (omega arith))
        (omega arith) (omega arith) in
    omega (arith, rest)

low_total-fails :
    (flags : List Flag) (total : ℤ) (results : List Outcome) (log : Option ℤ)
    → total ≤ℤ pos 30
    → verdict_of flags total results log ≡ false
unfolding verdict_of
low_total-fails flags total results log few =
    let below : ltb_ℤ total (pos pass_threshold) ≡ true = ground arith in
    rw (verdict_of, below) refl

-- A submission whose connector did nothing in any run, whatever its checks find, has a total of at
-- most 30, from the Go task and the decision log, and does not pass. The results of the Go task
-- are taken to be of its group.
pub inert-fails :
    (checks : Bytes → Option Checker) (input : ScoreInput)
    → AreInertRuns checks input.runs
    → AreOfGoTask (go_task_results input.go_task)
    → let score = compute input in (score.total ≤ℤ pos 30) × (score.passed ≡ false)
unfolding compute block_budget
inert-fails checks input inert go_task =
    let results = run_results input.runs ++ go_task_results input.go_task in
    let nothing : (g : Bytes) → bytes_eq group_go_task g ≡ false → earned_of g results ≡ pos 0 =
      λ g other.
        earned-after g (run_results input.runs) (go_task_results input.go_task)
          (run_results-EarnNothing checks input.runs inert)
        ∙ go_task_earns_there g (go_task_results input.go_task) go_task other in
    let total = sum_earned (blocks_of input results scored_groups) in
    let few : total ≤ℤ pos 30 = part_le total 30 (
      blocks_most input results scored_groups (pos 0) 0 0 nothing (omega arith, omega arith)
        (omega arith) (omega arith)) in
    (
      few,
      low_total-fails
          (collect_flags input results (run_errors input.runs ++ go_task_errors input.go_task))
          total results input.decision_log few,
    )
