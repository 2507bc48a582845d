-- ===== src/Text/Utf8.antt =====
-- What the packages use of Go's unicode/utf8: a text is its bytes, which `range` and
-- DecodeRuneInString read as runes, and WriteRune writes a rune as bytes.
pub mod RoundTrip
mod Tests
use integrations_challenge.Prelude.{
  ℕ, zero, suc, ◌+◌, ◌-◌, ◌*◌, ◌/◌, ◌%◌, Bool, true, not, ◌&&◌, List, [], ◌∷◌, ◌++◌, Bytes, ltb,
  leb, if◌then◌else◌,
}

-- utf8.RuneError, which stands for a byte that begins no rune.
abbrev pub rune_error : ℕ
rune_error = 0xfffd

-- Neither a surrogate nor above the last rune.
abbrev pub is_rune : ℕ → Bool
is_rune r = leb r 0x10ffff && not (leb 0xd800 r && leb r 0xdfff)

-- A byte that continues a rune.
abbrev pub continues : ℕ → Bool
continues c = leb 128 c && ltb c 192

-- A rune, and how many more bytes it takes.
abbrev pub Decoded : Type 0
Decoded = ℕ × ℕ

abbrev pub invalid : Decoded
invalid = (rune_error, 0)

-- Runes of two, three and four bytes, of which the first one is c; none that is longer than it
-- needs to be.
abbrev pub decode_two : ℕ → Bytes → Decoded
decode_two c [] = invalid
decode_two c (d ∷ s) =
    let r = (c - 192) * 64 + (d - 128) in if continues d && leb 128 r then (r, 1) else invalid

abbrev pub decode_three : ℕ → Bytes → Decoded
decode_three c [] = invalid
decode_three c (d ∷ []) = invalid
decode_three c (d ∷ e ∷ s) =
    let r = (c - 224) * 4096 + (d - 128) * 64 + (e - 128) in
    if continues d && continues e && leb 2048 r && is_rune r then (r, 2) else invalid

abbrev pub decode_four : ℕ → Bytes → Decoded
decode_four c [] = invalid
decode_four c (d ∷ []) = invalid
decode_four c (d ∷ e ∷ []) = invalid
decode_four c (d ∷ e ∷ f ∷ s) =
    let r = (c - 240) * 262144 + (d - 128) * 4096 + (e - 128) * 64 + (f - 128) in
    if continues d && continues e && continues f && leb 65536 r && is_rune r
    then (r, 3)
    else invalid

-- DecodeRuneInString of c ∷ s.
unfoldable pub decode_rune : ℕ → Bytes → Decoded
decode_rune c s =
    if ltb c 128
    then (c, 0)
    else if ltb c 192
    then invalid
    else if ltb c 224
    then decode_two c s
    else if ltb c 240
    then decode_three c s
    else if ltb c 248
    then decode_four c s
    else invalid

-- The runes of a text; `pending` bytes of a rune are still to be passed.
unfoldable pub runes_behind : ℕ → Bytes → List ℕ
unfolding decode_rune
runes_behind pending [] = []
runes_behind (suc pending) (c ∷ s) = runes_behind pending s
runes_behind zero (c ∷ s) = (decode_rune c s).0 ∷ runes_behind (decode_rune c s).1 s

abbrev pub runes : Bytes → List ℕ
runes s = runes_behind 0 s

-- WriteRune
unfoldable pub encode_rune : ℕ → Bytes
encode_rune r =
    if ltb r 128
    then r ∷ []
    else if ltb r 2048
    then (192 + r / 64) ∷ (128 + r % 64) ∷ []
    else if not (is_rune r)
    then 239 ∷ 191 ∷ 189 ∷ []
    else if ltb r 65536
    then (224 + r / 4096) ∷ (128 + r / 64 % 64) ∷ (128 + r % 64) ∷ []
    else (240 + r / 262144) ∷ (128 + r / 4096 % 64) ∷ (128 + r / 64 % 64) ∷ (128 + r % 64) ∷ []

-- A text written rune by rune.
abbrev pub encode : List ℕ → Bytes
encode [] = []
encode (r ∷ rs) = encode_rune r ++ encode rs
