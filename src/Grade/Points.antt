-- ===== src/Grade/Points.antt =====
-- internal/grader/assert.go: the points of an assertion.
use integrations_challenge.Prelude.{
  ◌≡◌, inl, inr, refl, ◌∙◌, Bool, true, false, Bytes, bytes_eq, Option, none, some, Option-cases,
  if_elim, length, ltb, Result, ok, err, Holds, guard-Holds, Holds-ok, arith,
}
use integrations_challenge.Prelude.Int.{ℤ, pos, ltb_ℤ, ◌≤ℤ◌}
use integrations_challenge.Text.{trim_space}
use integrations_challenge.Decimal.Text.{is_empty}
use integrations_challenge.Grade.{
  Assertion, Status, pass, fail, skip, error, Outcome, Observed, Checker, level_scored,
  group_integrity, max_findings, is_settled, unearned, default_summary, validate_assertion,
  guard_vacuous, earned_points, possible_points, settle, conclude, evaluate,
}

-- A result with the points of its status.
pub record IsAwarded (a : Assertion) (r : Outcome) : Type 0 where
  pub of_assertion : r.assertion ≡ a
  pub earned_by_status : r.earned ≡ earned_points a r.status
  pub possible_by_status : r.possible ≡ possible_points a r.status

settle-IsAwarded : (a : Assertion) (res : Outcome) → res.assertion ≡ a → IsAwarded a (settle a res)
unfolding settle
settle-IsAwarded a res of_a =
    if_elim (λ (r : Outcome). IsAwarded a (default_summary a r))
      (ltb max_findings (length res.findings))
      (λ many. record { of_assertion = of_a; earned_by_status = refl; possible_by_status = refl })
      (λ few. record { of_assertion = of_a; earned_by_status = refl; possible_by_status = refl })

unearned-assertion :
    (s : Status) (obs : Observed) (res : Outcome) → (unearned s obs res).assertion ≡ res.assertion
unearned-assertion pass obs res = refl
unearned-assertion fail obs res = refl
unearned-assertion skip obs res = refl
unearned-assertion error obs res = refl

guard_vacuous-assertion :
    (a : Assertion) (obs : Observed) (res : Outcome)
    → (guard_vacuous a obs res).assertion ≡ res.assertion
unfolding guard_vacuous
guard_vacuous-assertion a obs res =
    let Kept : Outcome → Type 0 = λ (r : Outcome). r.assertion ≡ res.assertion in
    if_elim Kept (bytes_eq a.group group_integrity)
      (λ integrity. if_elim Kept (is_settled res.status) (λ settled. refl) (λ open_. refl))
      (λ other.
        if_elim Kept (bytes_eq a.level level_scored)
          (λ scored. unearned-assertion res.status obs (record res { inert = true }))
          (λ unscored. refl))

conclude-IsAwarded :
    (a : Assertion) (obs : Observed) (found : Outcome × Option Bytes)
    → IsAwarded a (conclude a obs found)
unfolding conclude
conclude-IsAwarded a obs (found, some message) = record {
  of_assertion = refl;
  earned_by_status = refl;
  possible_by_status = refl;
}
conclude-IsAwarded a obs (found, none) =
    let res = record found { assertion = a; scenario = obs.scenario } in
    if_elim (λ (r : Outcome). IsAwarded a (settle a r)) obs.no_activity
      (λ inert. settle-IsAwarded a (guard_vacuous a obs res) (guard_vacuous-assertion a obs res))
      (λ active. settle-IsAwarded a res refl)

-- Evaluate gives the points of an assertion for a pass and none otherwise, and only if it is
-- scored; what it could give counts for a pass and for a failure, and not for a skip or an error.
evaluate-IsAwarded :
    (checks : Bytes → Option Checker) (a : Assertion) (obs : Observed)
    → IsAwarded a (evaluate checks a obs)
unfolding evaluate
evaluate-IsAwarded checks a obs = elim (Option-cases (checks a.kind)) [
  | inl unknown ↦
      rw (evaluate, unknown)
        (record { of_assertion = refl; earned_by_status = refl; possible_by_status = refl })
  | inr (check, known) ↦ rw (evaluate, known) (conclude-IsAwarded a obs (check a obs))
]

settle-earned : (a : Assertion) (res : Outcome) → (settle a res).earned ≡ earned_points a res.status
unfolding settle
settle-earned a res =
    if_elim (λ (r : Outcome). (default_summary a r).earned ≡ earned_points a res.status)
      (ltb max_findings (length res.findings)) (λ many. refl) (λ few. refl)

unearned-points :
    (a : Assertion) (s : Status) (obs : Observed) (res : Outcome)
    → res.status ≡ s
    → earned_points a (unearned s obs res).status ≡ pos 0
unearned-points a pass obs res e = refl
unearned-points a fail obs res e = rw e refl
unearned-points a skip obs res e = refl
unearned-points a error obs res e = rw e refl

-- An assertion that is not scored earns nothing.
unscored-points :
    (a : Assertion) (s : Status) → bytes_eq a.level level_scored ≡ false → earned_points a s ≡ pos 0
unscored-points a pass e = rw e refl
unscored-points a fail e = refl
unscored-points a skip e = refl
unscored-points a error e = refl

unsettled-points : (a : Assertion) (s : Status) → is_settled s ≡ false → earned_points a s ≡ pos 0
unsettled-points a pass e = absurd (cc e)
unsettled-points a fail e = refl
unsettled-points a skip e = refl
unsettled-points a error e = refl

guard_vacuous-points :
    (a : Assertion) (obs : Observed) (res : Outcome)
    → earned_points a (guard_vacuous a obs res).status ≡ pos 0
unfolding guard_vacuous
guard_vacuous-points a obs res =
    let Nothing : Outcome → Type 0 = λ (r : Outcome). earned_points a r.status ≡ pos 0 in
    if_elim Nothing (bytes_eq a.group group_integrity)
      (λ integrity.
        if_elim Nothing (is_settled res.status) (λ settled. refl)
          (λ unsettled. unsettled-points a res.status unsettled))
      (λ other.
        if_elim Nothing (bytes_eq a.level level_scored)
          (λ scored. unearned-points a res.status obs (record res { inert = true }) refl)
          (λ unscored. unscored-points a res.status unscored))

conclude-inert :
    (a : Assertion) (obs : Observed) (found : Outcome × Option Bytes)
    → obs.no_activity ≡ true
    → (conclude a obs found).earned ≡ pos 0
unfolding conclude
conclude-inert a obs (found, some message) inert = refl
conclude-inert a obs (found, none) inert =
    let res = record found { assertion = a; scenario = obs.scenario } in
    if_elim (λ (r : Outcome). (settle a r).earned ≡ pos 0) obs.no_activity
      (λ is_inert. settle-earned a (guard_vacuous a obs res) ∙ guard_vacuous-points a obs res)
      (λ active. absurd (cc (inert, active)))

-- An assertion of a run in which the connector did nothing earns nothing.
pub evaluate-inert :
    (checks : Bytes → Option Checker) (a : Assertion) (obs : Observed)
    → obs.no_activity ≡ true
    → (evaluate checks a obs).earned ≡ pos 0
unfolding evaluate conclude
evaluate-inert checks a obs inert = elim (Option-cases (checks a.kind)) [
  | inl unknown ↦ rw (evaluate, unknown) refl
  | inr (check, known) ↦ rw (evaluate, known) (conclude-inert a obs (check a obs) inert)
]

constant-Holds : {E A : Type 0} (P : Type 0) → P → (r : Result E A) → Holds (λ (a : A). P) r
constant-Holds P p (ok a) = p
constant-Holds P p (err e) = tt

abbrev HasPoints : Assertion → Type 0
HasPoints a = pos 0 ≤ℤ a.points

validate_assertion-HasPoints :
    (is_known_kind : Bytes → Bool) (a : Assertion)
    → validate_assertion is_known_kind a ≡ ok tt
    → HasPoints a
unfolding validate_assertion
validate_assertion-HasPoints is_known_kind a valid =
    let holds : Holds (λ (u : Unit {0}). HasPoints a) (validate_assertion is_known_kind a) =
      guard-Holds (λ (u : Unit {0}). HasPoints a) (is_empty (trim_space a.id)) _ _
        (λ id.
          guard-Holds (λ (u : Unit {0}). HasPoints a) (ltb_ℤ a.points (pos 0)) _ _
            (λ positive. constant-Holds (HasPoints a) (ground arith) _)) in
    Holds-ok (λ (u : Unit {0}). HasPoints a) (validate_assertion is_known_kind a) tt holds valid

points-fair :
    (a : Assertion) (s : Status)
    → HasPoints a
    → (pos 0 ≤ℤ earned_points a s)
      × (earned_points a s ≤ℤ possible_points a s)
      × (possible_points a s ≤ℤ a.points)
points-fair a pass h =
    if_elim (λ (x : ℤ). (pos 0 ≤ℤ x) × (x ≤ℤ x) × (x ≤ℤ a.points)) (bytes_eq a.level level_scored)
      (λ scored. (h, omega arith, omega arith)) (λ unscored. (omega arith, omega arith, h))
points-fair a fail h =
    if_elim (λ (x : ℤ). (pos 0 ≤ℤ pos 0) × (pos 0 ≤ℤ x) × (x ≤ℤ a.points))
      (bytes_eq a.level level_scored) (λ scored. (omega arith, h, omega arith))
      (λ unscored. (omega arith, omega arith, h))
points-fair a skip h = (omega arith, omega arith, h)
points-fair a error h = (omega arith, omega arith, h)

-- An assertion that Validate accepts earns at least nothing, at most what is possible and at most
-- its points, whatever its check finds, fails with or lacks; it earns something only for a pass and
-- only if it is scored, and it can earn something only if it passes or fails.
pub evaluate-bounds :
    (is_known_kind : Bytes → Bool) (checks : Bytes → Option Checker) (a : Assertion)
    (obs : Observed)
    → validate_assertion is_known_kind a ≡ ok tt
    → let r = evaluate checks a obs in
      (pos 0 ≤ℤ r.earned)
      × (r.earned ≤ℤ r.possible)
      × (r.possible ≤ℤ a.points)
      × (r.earned ≡ earned_points a r.status)
      × (r.possible ≡ possible_points a r.status)
evaluate-bounds is_known_kind checks a obs valid =
    let awarded = evaluate-IsAwarded checks a obs in
    let r = evaluate checks a obs in
    let (positive, below, within) =
      points-fair a r.status (validate_assertion-HasPoints is_known_kind a valid) in
    rw (awarded.earned_by_status, awarded.possible_by_status) (positive, below, within, refl, refl)
