-- ===== src/Keys/RoundTrip.antt =====
-- internal/model/keys.go: a key gives its components back.
use integrations_challenge.Prelude.{
  ◌≡◌, refl, ap, ◌∙◌, Bool, false, ◌||◌, List, [], ◌∷◌, ◌++◌, Bytes, ◌==◌, arith,
}
use integrations_challenge.Text.{trim_space}
use integrations_challenge.Keys.{key_separator, trimmed, joined, join_key, split_key}

-- A text has the separator.
abbrev pub has_separator : Bytes → Bool
has_separator [] = false
has_separator (c ∷ s) = (c == key_separator) || has_separator s

abbrev pub AreSeparable : List Bytes → Type 0
AreSeparable [] = Unit
AreSeparable (part ∷ parts) = (has_separator (trim_space part) ≡ false) × AreSeparable parts

split_key-alone : (s : Bytes) → has_separator s ≡ false → split_key s ≡ s ∷ []
unfolding split_key
split_key-alone [] h = refl
split_key-alone (c ∷ s) h =
    let plain : (c == key_separator) ≡ false = ground arith in
    rw (plain, split_key-alone s (ground arith)) refl

split_key-first :
    (s rest : Bytes)
    → has_separator s ≡ false
    → split_key (s ++ key_separator ∷ rest) ≡ s ∷ split_key rest
unfolding split_key
split_key-first [] rest h = refl
split_key-first (c ∷ s) rest h =
    let plain : (c == key_separator) ≡ false = ground arith in
    rw (plain, split_key-first s rest (ground arith)) refl

split_key-joined :
    (part : Bytes) (parts : List Bytes)
    → AreSeparable (part ∷ parts)
    → split_key (joined (trimmed (part ∷ parts))) ≡ trimmed (part ∷ parts)
split_key-joined part [] h = split_key-alone (trim_space part) h.0
split_key-joined part (next ∷ parts) h =
    split_key-first (trim_space part) (joined (trimmed (next ∷ parts))) h.0
    ∙ ap (λ (rest : List Bytes). trim_space part ∷ rest) (split_key-joined next parts h.1)

-- SplitKey gives the trimmed components of a key back, each in its place, if there is one at least
-- and none of them has the separator.
pub split_key-join_key :
    (part : Bytes) (parts : List Bytes)
    → AreSeparable (part ∷ parts)
    → split_key (join_key (part ∷ parts)) ≡ trimmed (part ∷ parts)
unfolding join_key
split_key-join_key part [] h = split_key-joined part [] h
split_key-join_key part (next ∷ parts) h = split_key-joined part (next ∷ parts) h
