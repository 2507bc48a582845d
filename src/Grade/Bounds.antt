-- ===== src/Grade/Bounds.antt =====
-- internal/grader/score.go: the bounds of a scorecard.
use integrations_challenge.Prelude.{
  ℕ, ◌+◌, ◌^◌, ◌<◌, ◌≤◌, ◌≡◌, inl, inr, not, ◌&&◌, List, [], ◌∷◌, ◌++◌, Bytes, bytes_eq, Option,
  none, some, Bool-cases, if◌then◌else◌, if_elim, arith,
}
use integrations_challenge.Prelude.Int.{
  ℤ, pos, negsuc, ◌+ℤ◌, +ℤ_parts, ltb_ℤ, ◌≤ℤ◌, pos_part, wrap, wrap_id,
}
use integrations_challenge.Grade.{Outcome, group_hidden, group_decision_log}
use integrations_challenge.Grade.Score.{
  ScoreInput, entered, capped, block_budget, scored_groups, earned_of, possible_of, compute_block,
  earned_from, possible_from, earned_on, possible_on, blocks_of, run_results, go_task_results,
}
use integrations_challenge.Grade.Compute.{compute}

capped_le : (earned : ℤ) (budget : ℕ) → capped earned budget ≤ℤ pos budget
capped_le earned budget =
    if_elim (λ (x : ℤ). x ≤ℤ pos budget) (ltb_ℤ (pos budget) earned) (λ over. ground arith)
      (λ under. ground arith)

pub capped_mono : (earned most : ℤ) (budget : ℕ) → earned ≤ℤ most → capped earned budget ≤ℤ most
capped_mono earned most budget h =
    if_elim (λ (x : ℤ). x ≤ℤ most) (ltb_ℤ (pos budget) earned) (λ over. ground arith) (λ under. h)

capped_positive : (earned : ℤ) (budget : ℕ) → pos 0 ≤ℤ earned → pos 0 ≤ℤ capped earned budget
capped_positive earned budget h =
    if_elim (λ (x : ℤ). pos 0 ≤ℤ x) (ltb_ℤ (pos budget) earned) (λ over. ground arith) (λ under. h)

entered_le : (log : Option ℤ) → entered log ≤ℤ pos 10
entered_le none = omega arith
entered_le (some n) =
    if_elim (λ (x : ℤ). x ≤ℤ pos 10) (ltb_ℤ n (pos 0)) (λ under. omega arith)
      (λ above.
        if_elim (λ (x : ℤ). x ≤ℤ pos 10) (ltb_ℤ (pos 10) n) (λ over. omega arith)
          (λ within. ground arith))

entered_positive : (log : Option ℤ) → pos 0 ≤ℤ entered log
entered_positive none = omega arith
entered_positive (some n) =
    if_elim (λ (x : ℤ). pos 0 ≤ℤ x) (ltb_ℤ n (pos 0)) (λ under. omega arith)
      (λ above.
        if_elim (λ (x : ℤ). pos 0 ≤ℤ x) (ltb_ℤ (pos 10) n) (λ over. omega arith)
          (λ within. ground arith))

pub block_le :
    (input : ScoreInput) (results : List Outcome) (g : Bytes)
    → (compute_block input results g).earned ≤ℤ pos (block_budget g)
unfolding compute_block
block_le input results g =
    let is_log = bytes_eq g group_decision_log in
    if_elim (λ (x : ℤ). x ≤ℤ pos (block_budget g))
      (bytes_eq g group_hidden && not input.hidden_graded) (λ unscored. omega arith)
      (λ scored.
        capped_le (if is_log then entered input.decision_log else earned_of g results)
          (block_budget g))

-- A result that earns at least nothing, and at most what was possible.
pub record IsFair (r : Outcome) : Type 0 where
  pub at_least_nothing : pos 0 ≤ℤ r.earned
  pub at_most_possible : r.earned ≤ℤ r.possible

abbrev pub AreFair : List Outcome → Type 0
AreFair [] = Unit
AreFair (r ∷ rs) = IsFair r × AreFair rs

-- The points possible in all.
abbrev pub points : List Outcome → ℕ
points [] = 0
points (r ∷ rs) = pos_part r.possible + points rs

-- Points earned and points possible of which at most n were.
abbrev Within : ℤ → ℤ → ℕ → Type 0
Within earned possible n = (pos 0 ≤ℤ earned) × (earned ≤ℤ possible) × (possible ≤ℤ pos n)

-- Below 2^63 a sum does not wrap.
wrap_exact : (x : ℤ) (n : ℕ) → pos 0 ≤ℤ x → x ≤ℤ pos n → n < 2 ^ 63 → wrap x ≡ x
wrap_exact (pos x) n h k small = wrap_id (pos x) (omega arith)
wrap_exact (negsuc x) n h k small = absurd (omega (arith, h))

Within-add :
    (a b : ℤ) (n : ℕ) (c d : ℤ) (m : ℕ)
    → Within a b n
    → Within c d m
    → n + m < 2 ^ 63
    → Within (wrap (a +ℤ c)) (wrap (b +ℤ d)) (n + m)
Within-add a b n c d m h k small =
    let (h0, h1, h2) = h in
    let (k0, k1, k2) = k in
    rw
      (
        wrap_exact (a +ℤ c) (n + m) (omega (arith, +ℤ_parts a c)) (omega (arith, +ℤ_parts a c))
            small,
        wrap_exact (b +ℤ d) (n + m) (omega (arith, +ℤ_parts b d)) (omega (arith, +ℤ_parts b d))
            small,
      )
      (
        omega (arith, +ℤ_parts a c),
        omega (arith, +ℤ_parts a c, +ℤ_parts b d),
        omega (arith, +ℤ_parts b d),
      )

at_most_part : (a : ℤ) → a ≤ℤ pos (pos_part a)
at_most_part a = omega arith

Within-rise : (a b : ℤ) (n m : ℕ) → Within a b n → n ≤ m → Within a b m
Within-rise a b n m (h0, h1, h2) h = (omega arith, omega arith, omega arith)

-- What a group earned and could earn, of fair results.
group_fair :
    (g : Bytes) (rs : List Outcome) (earned possible : ℤ) (n : ℕ)
    → AreFair rs
    → Within earned possible n
    → n + points rs < 2 ^ 63
    → Within (earned_from g earned rs) (possible_from g possible rs) (n + points rs)
group_fair g [] earned possible n fair h small =
    let (h0, h1, h2) = h in (omega arith, omega arith, omega arith)
group_fair g (r ∷ rs) earned possible n fair h small =
    let one = fair.0 in
    let p = pos_part r.possible in
    let (h0, h1, h2) = h in
    let own : Within r.earned r.possible p =
      (one.at_least_nothing, one.at_most_possible, at_most_part r.possible) in
    let rest = n + points (r ∷ rs) in
    elim (Bool-cases (bytes_eq r.assertion.group g)) [
      | inl here ↦ rw here (
          let e = wrap (earned +ℤ r.earned) in
          let q = wrap (possible +ℤ r.possible) in
          Within-rise (earned_from g e rs) (possible_from g q rs) (n + p + points rs) rest
            (group_fair g rs e q (n + p) fair.1
              (Within-add earned possible n r.earned r.possible p h own (omega arith))
              (omega arith))
            (omega arith))
      | inr other ↦ rw other (
          Within-rise (earned_from g earned rs) (possible_from g possible rs) (n + points rs) rest
            (group_fair g rs earned possible n fair.1 h (omega arith)) (omega arith))
    ]

abbrev budgets : List Bytes → ℕ
budgets [] = 0
budgets (g ∷ gs) = block_budget g + budgets gs

abbrev most_of : List Bytes → ℕ → ℕ
most_of [] n = 0
most_of (g ∷ gs) n = n + most_of gs n

nothing_yet : Within (pos 0) (pos 0) 0
nothing_yet = (omega arith, omega arith, omega arith)

module _ (input : ScoreInput) (results : List Outcome) (fair : AreFair results)
    (few : points results < 2 ^ 60) where
  block_fair :
      (g : Bytes)
      → let b = compute_block input results g in Within b.earned b.possible (points results + 10)
  unfolding compute_block
  block_fair g =
      let (h0, h1, h2) = group_fair g results (pos 0) (pos 0) 0 fair nothing_yet (omega arith) in
      let log = input.decision_log in
      let budget = block_budget g in
      elim (Bool-cases (bytes_eq g group_hidden && not input.hidden_graded)) [
        | inl unscored ↦ rw (compute_block, unscored) (omega arith, omega arith, omega arith)
        | inr scored ↦ elim (Bool-cases (bytes_eq g group_decision_log)) [
          | inl is_log ↦
              rw (compute_block, scored, is_log)
                (
                  capped_positive (entered log) budget (entered_positive log),
                  capped_mono (entered log) (pos 10) budget (entered_le log),
                  omega arith,
                )
          | inr group ↦
              rw (compute_block, scored, group)
                (
                  capped_positive (earned_of g results) budget h0,
                  capped_mono (earned_of g results) (possible_of g results) budget h1,
                  omega (arith, h2),
                )
        ]
      ]

  -- The sums over the blocks, of which no more than n are possible and m earned so far.
  blocks_fair :
      (gs : List Bytes) (earned possible : ℤ) (n m : ℕ)
      → Within earned possible n
      → earned ≤ℤ pos m
      → n + most_of gs (points results + 10) < 2 ^ 63
      → let bs = blocks_of input results gs in
        Within
          (earned_on earned bs)
          (possible_on possible bs)
          (n + most_of gs (points results + 10))
        × (earned_on earned bs ≤ℤ pos (m + budgets gs))
  blocks_fair [] earned possible n m h below small =
      let (h0, h1, h2) = h in ((omega arith, omega arith, omega arith), omega arith)
  blocks_fair (g ∷ gs) earned possible n m h below small =
      let b = compute_block input results g in
      let most = points results + 10 in
      let next =
        Within-add earned possible n b.earned b.possible most h (block_fair g) (omega arith) in
      let le = block_le input results g in
      let (h0, h1, h2) = h in
      let (b0, b1, b2) = block_fair g in
      let exact : wrap (earned +ℤ b.earned) ≡ earned +ℤ b.earned =
        wrap_exact (earned +ℤ b.earned) (n + most) (omega (arith, +ℤ_parts earned b.earned))
          (omega (arith, +ℤ_parts earned b.earned)) (omega arith) in
      let below' : wrap (earned +ℤ b.earned) ≤ℤ pos (m + block_budget g) =
        rw exact (omega (arith, +ℤ_parts earned b.earned)) in
      let (within, most_earned) =
        blocks_fair gs (wrap (earned +ℤ b.earned)) (wrap (possible +ℤ b.possible)) (n + most)
          (m + block_budget g) next below' (omega arith) in
      let total = earned_on (wrap (earned +ℤ b.earned)) (blocks_of input results gs) in
      (
        Within-rise total (possible_on (wrap (possible +ℤ b.possible)) (blocks_of input results gs))
            (n + most + most_of gs most) (n + most_of (g ∷ gs) most) within (omega arith),
        omega (arith, most_earned),
      )

-- Where every result earns at least nothing and at most what was possible, and fewer than 2^60
-- points were possible in all, the sums of the scorecard do not wrap: its total is not negative,
-- is at most what was possible in all, and is at most 100.
pub compute-bounds :
    (input : ScoreInput)
    → AreFair (run_results input.runs ++ go_task_results input.go_task)
    → points (run_results input.runs ++ go_task_results input.go_task) < 2 ^ 60
    → let score = compute input in
      (pos 0 ≤ℤ score.total) × (score.total ≤ℤ score.possible) × (score.total ≤ℤ pos 100)
unfolding compute block_budget
compute-bounds input fair few =
    let results = run_results input.runs ++ go_task_results input.go_task in
    let ((positive, below, _), at_most) =
      blocks_fair input results fair few scored_groups (pos 0) (pos 0) 0 0 nothing_yet (omega arith)
        (omega arith) in
    (positive, below, at_most)
