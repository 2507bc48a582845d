-- ===== src/Posting/Numbers.antt =====
-- internal/erp/data.go and internal/miniblp/match.go: the order numbers of the two systems.
use integrations_challenge.Prelude.{
  ℕ, ◌≡◌, inl, inr, refl, sym, ap, ◌∙◌, true, false, [], ◌∷◌, ◌++◌, append_assoc, append-nil, Bytes,
  codes, bytes_eq, Bool-cases, if◌then◌else◌, take, drop, arith,
}
use integrations_challenge.Text.{skip_head, skip_end, trim_left, reversed, trim_space}
use integrations_challenge.Decimal.Text.{is_empty}
use integrations_challenge.Match.{all_digits, trim_zeros, canonical_po_number}
use integrations_challenge.Posting.{seed_po_number, po_key}

reversed-append : (xs ys : Bytes) → reversed (xs ++ ys) ≡ reversed ys ++ reversed xs
unfolding reversed
reversed-append [] ys = sym (append-nil (reversed ys))
reversed-append (x ∷ xs) ys =
    ap (λ (zs : Bytes). zs ++ x ∷ []) (reversed-append xs ys)
    ∙ append_assoc (reversed ys) (reversed xs) (x ∷ [])

reversed_twice : (xs : Bytes) → reversed (reversed xs) ≡ xs
unfolding reversed
reversed_twice [] = refl
reversed_twice (x ∷ xs) =
    reversed-append (reversed xs) (x ∷ []) ∙ ap (λ (zs : Bytes). x ∷ zs) (reversed_twice xs)

all_digits-append :
    (xs ys : Bytes) → all_digits xs ≡ true → all_digits ys ≡ true → all_digits (xs ++ ys) ≡ true
all_digits-append [] ys h k = k
all_digits-append (x ∷ xs) ys h k =
    let ih = all_digits-append xs ys (ground arith) k in ground arith

all_digits-reversed : (xs : Bytes) → all_digits xs ≡ true → all_digits (reversed xs) ≡ true
unfolding reversed
all_digits-reversed [] h = refl
all_digits-reversed (x ∷ xs) h =
    all_digits-append (reversed xs) (x ∷ []) (all_digits-reversed xs (ground arith)) (ground arith)

skip_head-digits : (s : Bytes) → all_digits s ≡ true → skip_head s ≡ 0
skip_head-digits [] h = refl
skip_head-digits (a ∷ []) h = ground arith
skip_head-digits (a ∷ b ∷ []) h = ground arith
skip_head-digits (a ∷ b ∷ c ∷ s) h = ground arith

skip_end-digits : (s : Bytes) → all_digits s ≡ true → skip_end s ≡ 0
skip_end-digits [] h = refl
skip_end-digits (a ∷ []) h = ground arith
skip_end-digits (a ∷ b ∷ []) h = ground arith
skip_end-digits (a ∷ b ∷ c ∷ s) h = ground arith

trim_left-kept : (skip : Bytes → ℕ) (s : Bytes) → skip s ≡ 0 → trim_left skip 0 s ≡ s
unfolding trim_left
trim_left-kept skip [] h = refl
trim_left-kept skip (c ∷ s) h = rw (trim_left, h) refl

trim_space-digits : (s : Bytes) → all_digits s ≡ true → trim_space s ≡ s
unfolding trim_space
trim_space-digits s h =
    let head = trim_left-kept skip_head s (skip_head-digits s h) in
    let end =
      trim_left-kept skip_end (reversed s)
        (skip_end-digits (reversed s) (all_digits-reversed s h)) in
    ap (λ (t : Bytes). reversed (trim_left skip_end 0 (reversed t))) head
    ∙ ap reversed end
    ∙ reversed_twice s

-- What canonicalPONumber looks at: the trimmed text, without a leading PO- and trimmed again.
abbrev pub number_part : Bytes → Bytes
number_part s =
    let t = trim_space s in if bytes_eq (take 3 t) (codes "PO-") then trim_space (drop 3 t) else t

-- The normal form of a text of digits.
abbrev of_digits : Bytes → Bytes
of_digits digits = if is_empty (trim_zeros digits) then codes "0" else trim_zeros digits

seed_po_number-digits :
    (s : Bytes)
    → all_digits (trim_space s) ≡ true
    → is_empty (trim_space s) ≡ false
    → seed_po_number s ≡ of_digits (trim_space s)
unfolding seed_po_number
seed_po_number-digits s digits some_left = rw (seed_po_number, some_left, digits) refl

po_key-digits :
    (s : Bytes)
    → all_digits (number_part s) ≡ true
    → is_empty (number_part s) ≡ false
    → po_key s ≡ of_digits (number_part s)
unfolding po_key
po_key-digits s digits some_left =
    let t = trim_space s in
    let Same : Bytes → Bytes → Type 0 = λ (x y : Bytes). seed_po_number x ≡ of_digits y in
    elim (Bool-cases (bytes_eq (take 3 t) (codes "PO-"))) [
      | inl p ↦
          let ds : all_digits (trim_space (drop 3 t)) ≡ true = rw⁻¹ digits (rw p refl) in
          let ne : is_empty (trim_space (drop 3 t)) ≡ false = rw⁻¹ some_left (rw p refl) in
          rw p (seed_po_number-digits (drop 3 t) ds ne)
      | inr p ↦
          let ds : all_digits t ≡ true = rw⁻¹ digits (rw p refl) in
          let ne : is_empty t ≡ false = rw⁻¹ some_left (rw p refl) in
          let again = trim_space-digits t ds in
          let whole : seed_po_number t ≡ of_digits (trim_space t) =
            seed_po_number-digits t (ap all_digits again ∙ ds) (ap is_empty again ∙ ne) in
          rw p (whole ∙ ap of_digits again)
    ]

-- A text whose number part is not empty is not empty.
number_part-left :
    (t : Bytes)
    → is_empty (if bytes_eq (take 3 t) (codes "PO-") then trim_space (drop 3 t) else t) ≡ false
    → is_empty t ≡ false
number_part-left [] h = h
number_part-left (c ∷ t) h = refl

canonical_po_number-digits :
    (s : Bytes)
    → all_digits (number_part s) ≡ true
    → is_empty (number_part s) ≡ false
    → canonical_po_number s ≡ of_digits (number_part s)
unfolding canonical_po_number
canonical_po_number-digits s digits some_left =
    let left = number_part-left (trim_space s) some_left in
    rw (canonical_po_number, left, some_left, digits) refl

-- For an order number that is digits once it is trimmed and a leading PO- is dropped, the ERP's
-- index and the twin's have the same key.
pub po_key-canonical_po_number :
    (s : Bytes)
    → all_digits (number_part s) ≡ true
    → is_empty (number_part s) ≡ false
    → po_key s ≡ canonical_po_number s
po_key-canonical_po_number s digits some_left =
    po_key-digits s digits some_left ∙ sym (canonical_po_number-digits s digits some_left)
