-- ===== src/Dates/Order.antt =====
-- internal/model/dates.go: the order of dates, half-open ranges, and the Sundays of the summer time rule.
use integrations_challenge.Prelude.{
  ℕ, ◌≤◌, ◌≡◌, ◌↔◌, refl, Bool, true, false, [], ◌∷◌, Bytes, Option, some, if◌then◌else◌, arith,
}
use integrations_challenge.Prelude.Int.{ℤ, pos, negsuc, ◌+ℤ◌, ◌-ℤ◌, ◌≤ℤ◌, ◌<ℤ◌, int_laws}
use integrations_challenge.Dates.{
  Date, days_since_epoch, days_from_civil, days_in_month, is_before, compare_date, weekday_of_days,
  floor_mod, last_sunday,
}
use integrations_challenge.Dates.Civil.{days_from_civil-civil_from_days}
use integrations_challenge.Dates.Text.{parse_date, in_half_open_range}

is_before_iff : (d o : Date) → (is_before d o ≡ true) ↔ (days_since_epoch d <ℤ days_since_epoch o)
unfolding is_before compare_date
is_before_iff d o = ground arith

before_iff : (d o : Date) → (is_before d o ≡ false) ↔ (days_since_epoch o ≤ℤ days_since_epoch d)
unfolding is_before compare_date
before_iff d o = ground arith

-- A day count lies from the first to before the second.
abbrev pub Between : ℤ → ℤ → ℤ → Type 0
Between a x b = (a ≤ℤ x) × (x <ℤ b)

no_date : (t : Date) → parse_date [] ≡ some t → ⊥
unfolding parse_date
no_date t e = cc

-- The two tests of a range, over what they mean.
ranges :
    (early under : Bool) (Early Late Under : Type 0)
    → (early ≡ true) ↔ Early
    → (early ≡ false) ↔ Late
    → (under ≡ true) ↔ Under
    → (◌≡◌ {A = Option Bool} (if early then some false else some under) (some true))
      ↔ (Late × Under)
ranges true under Early Late Under e l u = (λ h. cc, λ h. absurd (cc (l.1 h.0)))
ranges false true Early Late Under e l u = (λ h. (l.0 refl, u.0 refl), λ h. refl)
ranges false false Early Late Under e l u = (λ h. cc, λ h. absurd (cc (u.1 h.1)))

starts :
    (early : Bool) (Early Late : Type 0)
    → (early ≡ true) ↔ Early
    → (early ≡ false) ↔ Late
    → (◌≡◌ {A = Option Bool} (if early then some false else some true) (some true)) ↔ Late
starts true Early Late e l = (λ h. cc, λ h. absurd (cc (l.1 h)))
starts false Early Late e l = (λ h. l.0 refl, λ h. refl)

-- For three texts that are dates, DateInHalfOpenRange includes the first day and excludes the last
-- one; with an empty end it only asks for the first day.
pub in_half_open_range-Between :
    (date from to : Bytes) (d f t : Date)
    → parse_date date ≡ some d
    → parse_date from ≡ some f
    → parse_date to ≡ some t
    → ((in_half_open_range date from to ≡ some true)
        ↔ Between (days_since_epoch f) (days_since_epoch d) (days_since_epoch t))
      × ((in_half_open_range date from [] ≡ some true) ↔ (days_since_epoch f ≤ℤ days_since_epoch d))
unfolding in_half_open_range parse_date
in_half_open_range-Between date from [] d f t ed ef et = absurd (no_date t et)
in_half_open_range-Between date from (c ∷ to) d f t ed ef et =
    rw (ed, ef, et)
      (
        ranges (is_before d f) (is_before d t) _ _ _ (is_before_iff d f) (before_iff d f)
            (is_before_iff d t),
        starts (is_before d f) _ _ (is_before_iff d f) (before_iff d f),
      )

-- The weekday of a day count, and of the Sunday before it or on it.
weekday_small : (days : ℤ) → weekday_of_days days ≤ 6
unfolding weekday_of_days floor_mod ◌+ℤ◌
weekday_small (pos n) = ground arith
weekday_small (negsuc n) = ground arith

sunday_before : (days : ℤ) → weekday_of_days (days -ℤ pos (weekday_of_days days)) ≡ 0
unfolding weekday_of_days floor_mod ◌+ℤ◌ ◌-ℤ◌
sunday_before (pos n) = ground arith
sunday_before (negsuc n) = ground arith

-- The last Sunday of a month is a Sunday, and lies within the last seven days of the month.
pub last_sunday-Between :
    (year : ℤ) (month : ℕ)
    → let last = days_from_civil year month (days_in_month year month) in
      (weekday_of_days (days_since_epoch (last_sunday year month)) ≡ 0)
      × Between (last -ℤ pos 6) (days_since_epoch (last_sunday year month)) (last +ℤ pos 1)
unfolding last_sunday
last_sunday-Between year month =
    let last = days_from_civil year month (days_in_month year month) in
    rw (days_from_civil-civil_from_days (last -ℤ pos (weekday_of_days last))) (
      sunday_before last,
      (omega (int_laws, weekday_small last), omega (int_laws, weekday_small last)),
    )
