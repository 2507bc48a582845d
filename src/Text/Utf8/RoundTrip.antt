-- ===== src/Text/Utf8/RoundTrip.antt =====
-- unicode/utf8: runes that were written are read back.
use integrations_challenge.Prelude.{
  ℕ, zero, suc, ◌+◌, ◌-◌, ◌*◌, ◌/◌, ◌%◌, ◌≡◌, refl, sym, Bool, ap, ◌∙◌, true, false, not, ◌&&◌,
  List, [], ◌∷◌, ◌++◌, append_assoc, Bytes, ltb, leb, if_elim, arith,
}
use integrations_challenge.Text.Utf8.{
  is_rune, Decoded, continues, decode_two, decode_three, decode_four, decode_rune, runes_behind,
  runes, encode_rune, encode,
}

abbrev pub AreRunes : List ℕ → Type 0
AreRunes [] = Unit
AreRunes (r ∷ rs) = (is_rune r ≡ true) × AreRunes rs

decode-one_byte : (r : ℕ) (t : Bytes) → ltb r 128 ≡ true → decode_rune r t ≡ (r, 0)
unfolding decode_rune
decode-one_byte r t h = rw (decode_rune, h) refl

decode-two_bytes :
    (r : ℕ) (t : Bytes)
    → ltb r 128 ≡ false
    → ltb r 2048 ≡ true
    → decode_rune (192 + r / 64) ((128 + r % 64) ∷ t) ≡ (r, 1)
unfolding decode_rune
decode-two_bytes r t h k = ground arith

decode-three_bytes :
    (r : ℕ) (t : Bytes)
    → is_rune r ≡ true
    → ltb r 2048 ≡ false
    → ltb r 65536 ≡ true
    → decode_rune (224 + r / 4096) ((128 + r / 64 % 64) ∷ (128 + r % 64) ∷ t) ≡ (r, 2)
unfolding decode_rune
decode-three_bytes r t h k l = ground arith

decode-four_bytes :
    (r : ℕ) (t : Bytes)
    → is_rune r ≡ true
    → ltb r 65536 ≡ false
    → decode_rune
        (240 + r / 262144)
        ((128 + r / 4096 % 64) ∷ (128 + r / 64 % 64) ∷ (128 + r % 64) ∷ t)
      ≡ (r, 3)
unfolding decode_rune
decode-four_bytes r t h k = ground arith

-- A rune that was written is the next one that is read.
runes-encode_rune :
    (r : ℕ) (t : Bytes) → is_rune r ≡ true → runes (encode_rune r ++ t) ≡ r ∷ runes t
unfolding encode_rune runes_behind
runes-encode_rune r t valid =
    let Reads : Bytes → Type 0 = λ (written : Bytes). runes (written ++ t) ≡ r ∷ runes t in
    if_elim Reads (ltb r 128) (λ ascii. rw (runes_behind, decode-one_byte r t ascii) refl)
      (λ more.
        if_elim Reads (ltb r 2048) (λ two. rw (runes_behind, decode-two_bytes r t more two) refl)
          (λ longer.
            if_elim Reads (not (is_rune r)) (λ no_rune. absurd (ground arith))
              (λ rune.
                if_elim Reads (ltb r 65536)
                  (λ three. rw (runes_behind, decode-three_bytes r t valid longer three) refl)
                  (λ four. rw (runes_behind, decode-four_bytes r t valid four) refl))))

-- Runes that were written are read back, and then what follows them.
pub runes-encode : (rs : List ℕ) (t : Bytes) → AreRunes rs → runes (encode rs ++ t) ≡ rs ++ runes t
runes-encode [] t h = refl
runes-encode (r ∷ rs) t (valid, h) =
    ap runes (append_assoc (encode_rune r) (encode rs) t)
    ∙ runes-encode_rune r (encode rs ++ t) valid
    ∙ ap (λ (xs : List ℕ). r ∷ xs) (runes-encode rs t h)

and_last : (a b : Bool) → (a && b) ≡ true → b ≡ true
and_last true b h = h
and_last false b h = absurd (ground arith)

-- What was decoded is a rune.
IsDecoded : Decoded → Type 0
IsDecoded p = is_rune p.0 ≡ true

decode_two-is_rune : (c : ℕ) (s : Bytes) → ltb c 224 ≡ true → IsDecoded (decode_two c s)
unfolding IsDecoded
decode_two-is_rune c [] h = refl
decode_two-is_rune c (d ∷ s) h = ground arith

decode_three-is_rune : (c : ℕ) (s : Bytes) → IsDecoded (decode_three c s)
unfolding IsDecoded
decode_three-is_rune c [] = refl
decode_three-is_rune c (d ∷ []) = refl
decode_three-is_rune c (d ∷ e ∷ s) =
    let r = (c - 224) * 4096 + (d - 128) * 64 + (e - 128) in
    if_elim IsDecoded (continues d && continues e && leb 2048 r && is_rune r)
      (λ valid. and_last (continues d && continues e && leb 2048 r) (is_rune r) valid) (λ bad. refl)

decode_four-is_rune : (c : ℕ) (s : Bytes) → IsDecoded (decode_four c s)
unfolding IsDecoded
decode_four-is_rune c [] = refl
decode_four-is_rune c (d ∷ []) = refl
decode_four-is_rune c (d ∷ e ∷ []) = refl
decode_four-is_rune c (d ∷ e ∷ f ∷ s) =
    let r = (c - 240) * 262144 + (d - 128) * 4096 + (e - 128) * 64 + (f - 128) in
    if_elim IsDecoded (continues d && continues e && continues f && leb 65536 r && is_rune r)
      (λ valid.
        and_last (continues d && continues e && continues f && leb 65536 r) (is_rune r) valid)
      (λ bad. refl)

decode-is_rune : (c : ℕ) (s : Bytes) → IsDecoded (decode_rune c s)
unfolding decode_rune IsDecoded
decode-is_rune c s =
    if_elim IsDecoded (ltb c 128) (λ ascii. ground arith)
      (λ a.
        if_elim IsDecoded (ltb c 192) (λ bad. refl)
          (λ b.
            if_elim IsDecoded (ltb c 224) (λ two. decode_two-is_rune c s two)
              (λ d.
                if_elim IsDecoded (ltb c 240) (λ three. decode_three-is_rune c s)
                  (λ e.
                    if_elim IsDecoded (ltb c 248) (λ four. decode_four-is_rune c s)
                      (λ bad. refl)))))

-- Whatever a text holds, what is read of it is runes.
runes-AreRunes_behind : (pending : ℕ) (s : Bytes) → AreRunes (runes_behind pending s)
unfolding runes_behind IsDecoded
runes-AreRunes_behind pending [] = tt
runes-AreRunes_behind (suc pending) (c ∷ s) = runes-AreRunes_behind pending s
runes-AreRunes_behind zero (c ∷ s) =
    (decode-is_rune c s, runes-AreRunes_behind (decode_rune c s).1 s)

pub runes-AreRunes : (s : Bytes) → AreRunes (runes s)
runes-AreRunes s = runes-AreRunes_behind 0 s

-- Valid UTF-8: a text that its runes are written as.
pub record IsUtf8 (s : Bytes) : Type 0 where
  pub written : encode (runes s) ≡ s

pub runes-append : (s t : Bytes) → IsUtf8 s → runes (s ++ t) ≡ runes s ++ runes t
runes-append s t h =
    ap (λ (x : Bytes). runes (x ++ t)) (sym h.written) ∙ runes-encode (runes s) t (runes-AreRunes s)
