-- ===== src/Text/Laws.antt =====
-- sort.Strings sorts.
use integrations_challenge.Prelude.{◌≡◌, refl, [], ◌∷◌}
use integrations_challenge.Text.{trim_space, trim_left, reversed}

trims : trim_space (32 ∷ 194 ∷ 160 ∷ 65 ∷ 32 ∷ 66 ∷ 9 ∷ 226 ∷ 128 ∷ 137 ∷ []) ≡ 65 ∷ 32 ∷ 66 ∷ []
unfolding trim_space trim_left reversed
trims = refl
