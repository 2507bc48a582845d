-- ===== src/Posting/Once.antt =====
-- internal/erp/posting.go: the documents of a run, their index and their numbers.
use mathlib.Core.Path.{subst}
use integrations_challenge.Prelude.{
  ℕ, zero, suc, ◌+◌, ◌≡◌, ◌↔◌, ◌⊎◌, inl, inr, refl, sym, ap, ◌∙◌, false, List, [], ◌∷◌, ◌++◌, Bytes,
  codes, bytes_eq, bytes_eq_refl, bytes_eq_sound, Option, none, some, Option-cases, some-inj,
  Bool-cases, Result-cases, update, length, length-append, arith,
}
use integrations_challenge.Prelude.Int.{pos}
use integrations_challenge.Dates.Text.{padded}
use integrations_challenge.Posting.{PostingItem, Document, Masters, reject_posting}
use integrations_challenge.Posting.Book.{
  Ledger, new_ledger, dup_index_key, get_elem?, new_document, book_duplicate, book_rejected,
  book_new, booked, book_one, book,
}

pub get_elem?-before :
    {A : Type 0} (xs ys : List A) (i : ℕ) (x : A)
    → get_elem? xs i ≡ some x
    → get_elem? (xs ++ ys) i ≡ some x
get_elem?-before [] ys i x e = absurd (cc e)
get_elem?-before (z ∷ xs) ys zero x e = e
get_elem?-before (z ∷ xs) ys (suc i) x e = get_elem?-before xs ys i x e

pub get_elem?-last :
    {A : Type 0} (xs : List A) (y : A) → get_elem? (xs ++ y ∷ []) (length xs) ≡ some y
get_elem?-last [] y = refl
get_elem?-last (z ∷ xs) y = get_elem?-last xs y

get_elem?-snoc :
    {A : Type 0} (xs : List A) (y : A) (i : ℕ) (x : A)
    → get_elem? (xs ++ y ∷ []) i ≡ some x
    → (get_elem? xs i ≡ some x) ⊎ ((i ≡ length xs) × (y ≡ x))
get_elem?-snoc [] y zero x e = inr (refl, some-inj e)
get_elem?-snoc [] y (suc i) x e = absurd (cc e)
get_elem?-snoc (z ∷ xs) y zero x e = inl e
get_elem?-snoc (z ∷ xs) y (suc i) x e = elim (get_elem?-snoc xs y i x e) [
  | inl old ↦ inl old
  | inr (at, same) ↦ inr (ap suc at, same)
]

-- A position of the documents has a document of a reference.
abbrev pub HasReference : List Document → ℕ → Bytes → Type 0
HasReference docs i reference =
    (doc : Document) × (get_elem? docs i ≡ some doc) × (doc.external_reference ≡ reference)

-- The index gives a position for a reference exactly where its document stands.
abbrev pub IsIndex : List Document → (Bytes → Option ℕ) → Type 0
IsIndex docs index =
    (reference : Bytes) (i : ℕ)
    → (index (dup_index_key reference) ≡ some i) ↔ HasReference docs i reference

-- The number of the document at a position.
abbrev pub numbered : ℕ → Document → Bytes
numbered i doc = codes "AP-" ++ padded doc.fiscal_year 4 ++ b'-' ∷ padded (pos (i + 1)) 7

pub record IsLedger (st : Ledger) : Type 0 where
  pub counted : st.doc_seq ≡ length st.documents
  pub indexed : IsIndex st.documents st.doc_by_ref
  pub in_order :
      (i : ℕ) (doc : Document)
      → get_elem? st.documents i ≡ some doc
      → doc.document_number ≡ numbered i doc

pub new_ledger-IsLedger : IsLedger new_ledger
new_ledger-IsLedger = record {
  counted = refl;
  indexed = λ reference i. (λ e. absurd (cc e), λ h. absurd (cc h.1));
  in_order = λ i doc e. absurd (cc e);
}

module _ (docs : List Document) (index : Bytes → Option ℕ) (doc : Document) (h : IsIndex docs index)
    (fresh : index (dup_index_key doc.external_reference) ≡ none) where
  abbrev grown : Bytes → Option ℕ
  grown = update index (dup_index_key doc.external_reference) (some (length docs))

  no_other : (i : ℕ) → HasReference docs i doc.external_reference → ⊥
  no_other i there = cc (fresh, (h doc.external_reference i).1 there)

  snoc_same :
      (i : ℕ)
      → (◌≡◌ {A = Option ℕ} (some (length docs)) (some i))
        ↔ HasReference (docs ++ doc ∷ []) i doc.external_reference
  snoc_same i = (
    λ e. (
      doc,
      subst (λ (k : ℕ). get_elem? (docs ++ doc ∷ []) k ≡ some doc) (some-inj e)
          (get_elem?-last docs doc),
      refl,
    ),
    λ there.
        let (x, e, same) = there in
        elim (get_elem?-snoc docs doc i x e) [
          | inl old ↦ absurd (no_other i (x, old, same))
          | inr (at, is) ↦ ap some (sym at)
        ],
  )

  snoc_apart :
      (reference : Bytes) (i : ℕ)
      → bytes_eq reference doc.external_reference ≡ false
      → (index (dup_index_key reference) ≡ some i) ↔ HasReference (docs ++ doc ∷ []) i reference
  snoc_apart reference i apart = (
    λ e.
        let (x, at, same) = (h reference i).0 e in
        (x, get_elem?-before docs (doc ∷ []) i x at, same),
    λ there.
        let (x, e, same) = there in
        elim (get_elem?-snoc docs doc i x e) [
          | inl old ↦ (h reference i).1 (x, old, same)
          | inr (at, is) ↦
              let equal : doc.external_reference ≡ reference =
                ap (λ (y : Document). y.external_reference) is ∙ same in
              let self = bytes_eq_refl doc.external_reference in
              absurd (
                cc (
                  subst (λ (r : Bytes). bytes_eq r doc.external_reference ≡ false) (sym equal)
                    apart))
        ],
  )

  snoc-IsIndex : IsIndex (docs ++ doc ∷ []) grown
  snoc-IsIndex reference i = elim (Bool-cases (bytes_eq reference doc.external_reference)) [
    | inl same ↦
        let e : doc.external_reference ≡ reference =
          sym (bytes_eq_sound reference doc.external_reference same) in
        rw same (
          subst
            (λ (r : Bytes).
              (◌≡◌ {A = Option ℕ} (some (length docs)) (some i))
              ↔ HasReference (docs ++ doc ∷ []) i r)
            e (snoc_same i))
    | inr apart ↦ rw apart (snoc_apart reference i apart)
  ]

-- In a tidy ledger a position in the index is one of a document.
pub no_document :
    (st : Ledger)
    → IsLedger st
    → (reference : Bytes) → booked st reference ≡ none
    → st.doc_by_ref (dup_index_key reference) ≡ none
unfolding booked
no_document st l reference e = elim (Option-cases (st.doc_by_ref (dup_index_key reference))) [
  | inl new ↦ new
  | inr (i, at) ↦
      let (doc, there, same) = (l.indexed reference i).0 at in
      let found : booked st reference ≡ some doc = rw (booked, at) there in absurd (cc (e, found))
]

pub new_document-reference :
    (item : PostingItem) (key : Bytes) (seq : ℕ)
    → (new_document item key seq).external_reference ≡ item.external_reference
unfolding new_document
new_document-reference item key seq = refl

numbers-snoc :
    (docs : List Document) (doc : Document)
    → ((i : ℕ) (x : Document) → get_elem? docs i ≡ some x → x.document_number ≡ numbered i x)
    → doc.document_number ≡ numbered (length docs) doc
    → (i : ℕ) (x : Document) → get_elem? (docs ++ doc ∷ []) i ≡ some x
    → x.document_number ≡ numbered i x
numbers-snoc docs doc old new i x e = elim (get_elem?-snoc docs doc i x e) [
  | inl before ↦ old i x before
  | inr (at, same) ↦
      subst (λ (k : ℕ). x.document_number ≡ numbered k x) (sym at)
        (subst (λ (y : Document). y.document_number ≡ numbered (length docs) y) same new)
]

book_new-IsLedger :
    (item : PostingItem) (key : Bytes) (st : Ledger)
    → IsLedger st
    → booked st item.external_reference ≡ none
    → IsLedger (book_new item key st).0
unfolding book_new new_document
book_new-IsLedger item key st l new =
    let doc = new_document item key (st.doc_seq + 1) in
    record {
      counted =
          let long = length-append st.documents (doc ∷ []) in let c = l.counted in omega arith;
      indexed =
          snoc-IsIndex st.documents st.doc_by_ref doc l.indexed
            (no_document st l item.external_reference new);
      in_order =
          numbers-snoc st.documents doc l.in_order (ap (λ (k : ℕ). numbered k doc) l.counted);
    }

pub book_one-IsLedger :
    (d : Masters) (item : PostingItem) (key : Bytes) (st : Ledger)
    → IsLedger st
    → IsLedger (book_one d item key st).0
unfolding book_one book_duplicate book_rejected
book_one-IsLedger d item key st l = elim (Option-cases (booked st item.external_reference)) [
  | inr (doc, e) ↦
      rw (book_one, e) (record { counted = l.counted; indexed = l.indexed; in_order = l.in_order })
  | inl new ↦ elim (Result-cases (reject_posting d item)) [
    | inl (code, e) ↦
        rw (book_one, new, e)
          (record { counted = l.counted; indexed = l.indexed; in_order = l.in_order })
    | inr (u, e) ↦ rw (book_one, new, e) (book_new-IsLedger item key st l new)
  ]
]

pub book-IsLedger :
    (d : Masters) (items : List PostingItem) (key : Bytes) (st : Ledger)
    → IsLedger st
    → IsLedger (book d items key st).0
unfolding book
book-IsLedger d [] key st l = l
book-IsLedger d (item ∷ items) key st l =
    book-IsLedger d items key (book_one d item key st).0 (book_one-IsLedger d item key st l)

-- Two documents of a tidy ledger with one reference are one.
pub one_document :
    (st : Ledger) (i j : ℕ) (a b : Document)
    → IsLedger st
    → get_elem? st.documents i ≡ some a
    → get_elem? st.documents j ≡ some b
    → a.external_reference ≡ b.external_reference
    → i ≡ j
one_document st i j a b l at_i at_j same =
    let first = (l.indexed b.external_reference i).1 (a, at_i, same) in
    let second = (l.indexed b.external_reference j).1 (b, at_j, refl) in
    some-inj (sym first ∙ second)
