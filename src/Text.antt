-- ===== src/Text.antt =====
-- What the packages use of Go's strings and sort: TrimSpace, Compare and sort.Strings on the bytes
-- of a text.
pub mod Laws
pub mod Utf8
use integrations_challenge.Prelude.{
  ℕ, zero, suc, Bool, true, false, ◌&&◌, ◌||◌, List, [], ◌∷◌, ◌++◌, Bytes, ltb, leb, ◌==◌,
  if◌then◌else◌,
}

-- White space of one byte.
abbrev is_space : ℕ → Bool
is_space c = (c == 32) || (leb 9 c && leb c 13)

-- White space of two and of three bytes, in UTF-8.
abbrev is_space₂ : ℕ → ℕ → Bool
is_space₂ a b = (a == 194) && ((b == 133) || (b == 160))

abbrev is_space₃ : ℕ → ℕ → ℕ → Bool
is_space₃ a b c =
    (a == 225) && (b == 154) && (c == 128)
    || (a == 226) && (b == 128) && (leb 128 c && leb c 138 || leb 168 c && leb c 169 || (c == 175))
    || (a == 226) && (b == 129) && (c == 159)
    || (a == 227) && (b == 128) && (c == 128)

-- How many bytes the white space at the head takes, 0 where there is none; the second reads the
-- bytes from the end of a text.
abbrev pub skip_head : Bytes → ℕ
skip_head [] = 0
skip_head (a ∷ []) = if is_space a then 1 else 0
skip_head (a ∷ b ∷ []) = if is_space a then 1 else if is_space₂ a b then 2 else 0
skip_head (a ∷ b ∷ c ∷ s) =
    if is_space a then 1 else if is_space₂ a b then 2 else if is_space₃ a b c then 3 else 0

abbrev pub skip_end : Bytes → ℕ
skip_end [] = 0
skip_end (a ∷ []) = if is_space a then 1 else 0
skip_end (a ∷ b ∷ []) = if is_space a then 1 else if is_space₂ b a then 2 else 0
skip_end (a ∷ b ∷ c ∷ s) =
    if is_space a then 1 else if is_space₂ b a then 2 else if is_space₃ c b a then 3 else 0

-- `pending` bytes of a space are still to be dropped.
unfoldable pub trim_left : (Bytes → ℕ) → ℕ → Bytes → Bytes
trim_left skip pending [] = []
trim_left skip (suc pending) (c ∷ s) = trim_left skip pending s
trim_left skip zero (c ∷ s) = elim (skip (c ∷ s)) [ zero ↦ c ∷ s | suc k ↦ trim_left skip k s ]

unfoldable pub reversed {ℓ} : {A : Type ℓ} → List A → List A
reversed [] = []
reversed (x ∷ xs) = reversed xs ++ x ∷ []

-- strings.TrimSpace
unfoldable pub trim_space : Bytes → Bytes
unfolding trim_left reversed
trim_space s = reversed (trim_left skip_end 0 (reversed (trim_left skip_head 0 s)))

-- The byte order of texts.
abbrev pub bytes_less : Bytes → Bytes → Bool
bytes_less [] [] = false
bytes_less [] (d ∷ t) = true
bytes_less (c ∷ s) [] = false
bytes_less (c ∷ s) (d ∷ t) = if c == d then bytes_less s t else ltb c d

unfoldable pub insert_sorted : Bytes → List Bytes → List Bytes
insert_sorted w [] = w ∷ []
insert_sorted w (v ∷ vs) =
    let rest = insert_sorted w vs in if bytes_less v w then v ∷ rest else w ∷ v ∷ vs

-- sort.Strings: the order of equal texts cannot be seen.
unfoldable pub sort_strings : List Bytes → List Bytes
unfolding insert_sorted
sort_strings [] = []
sort_strings (w ∷ ws) = insert_sorted w (sort_strings ws)
