-- ===== src/Text/Utf8/Tests.antt =====
-- UTF-8 on concrete bytes.
use integrations_challenge.Prelude.{◌≡◌, refl, [], ◌∷◌}
use integrations_challenge.Text.Utf8.{decode_rune, runes_behind, runes, encode_rune, encode}

-- a, u with two dots, the euro sign and a face.
reading :
    runes (97 ∷ 195 ∷ 188 ∷ 226 ∷ 130 ∷ 172 ∷ 240 ∷ 159 ∷ 152 ∷ 128 ∷ [])
    ≡ 97 ∷ 0xfc ∷ 0x20ac ∷ 0x1f600 ∷ []
unfolding runes_behind decode_rune
reading = refl

writing :
    encode (97 ∷ 0xfc ∷ 0x20ac ∷ 0x1f600 ∷ 0xd800 ∷ [])
    ≡ 97 ∷ 195 ∷ 188 ∷ 226 ∷ 130 ∷ 172 ∷ 240 ∷ 159 ∷ 152 ∷ 128 ∷ 239 ∷ 191 ∷ 189 ∷ []
unfolding encode_rune
writing = refl

-- A slash that is too long, a surrogate, and a rune that is cut off: each byte stands for U+FFFD.
refusing :
    (runes (0xc0 ∷ 0xaf ∷ []) ≡ 0xfffd ∷ 0xfffd ∷ [])
    × (runes (0xed ∷ 0xa0 ∷ 0x80 ∷ []) ≡ 0xfffd ∷ 0xfffd ∷ 0xfffd ∷ [])
    × (runes (0xe2 ∷ 0x82 ∷ 97 ∷ []) ≡ 0xfffd ∷ 0xfffd ∷ 97 ∷ [])
unfolding runes_behind decode_rune
refusing = (refl, refl, refl)
