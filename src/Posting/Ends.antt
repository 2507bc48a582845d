-- ===== src/Posting/Ends.antt =====
-- internal/erp/posting.go: how the booking of an item ends, and what later bookings leave of it.
use mathlib.Core.Path.{subst}
use integrations_challenge.Prelude.{
  ℕ, ◌+◌, ◌≡◌, ◌⊎◌, inl, inr, refl, sym, ◌∙◌, Bool, true, false, List, [], ◌∷◌, Bytes, bytes_eq,
  bytes_eq_sound, none, some, Option-cases, Bool-cases, Result-cases, err, update_self, length,
}
use integrations_challenge.Posting.{PostingItem, PostingResult, Document, Masters, reject_posting}
use integrations_challenge.Posting.Book.{
  Ledger, dup_index_key, get_elem?, new_document, posted_result, rejected_result, book_duplicate,
  book_rejected, book_new, booked, book_one, book,
}
use integrations_challenge.Posting.Once.{get_elem?-before, get_elem?-last}

-- A reference that is booked stays booked to its document.
abbrev pub KeepsBooked : Ledger → Ledger → Type 0
KeepsBooked st after =
    (reference : Bytes) (doc : Document)
    → booked st reference ≡ some doc
    → booked after reference ≡ some doc

-- What the index says of a booked reference.
booked_by :
    (st : Ledger) (reference : Bytes) (i : ℕ) (doc : Document)
    → st.doc_by_ref (dup_index_key reference) ≡ some i
    → get_elem? st.documents i ≡ some doc
    → booked st reference ≡ some doc
unfolding booked
booked_by st reference i doc at there = rw (booked, at) there

booked_at :
    (st : Ledger) (reference : Bytes) (doc : Document)
    → booked st reference ≡ some doc
    → (i : ℕ) × (st.doc_by_ref (dup_index_key reference) ≡ some i)
      × (get_elem? st.documents i ≡ some doc)
unfolding booked
booked_at st reference doc e = elim (Option-cases (st.doc_by_ref (dup_index_key reference))) [
  | inl new ↦
      let unknown : booked st reference ≡ none = rw (booked, new) refl in absurd (cc (unknown, e))
  | inr (i, at) ↦
      let looked_up : booked st reference ≡ get_elem? st.documents i = rw (booked, at) refl in
      (i, at, sym looked_up ∙ e)
]

module _ (item : PostingItem) (key : Bytes) (st : Ledger) where
  book_new-booked :
      booked (book_new item key st).0 item.external_reference
      ≡ some (new_document item key (st.doc_seq + 1))
  unfolding book_new
  book_new-booked =
      booked_by (book_new item key st).0 item.external_reference (length st.documents)
        (new_document item key (st.doc_seq + 1))
        (update_self st.doc_by_ref (dup_index_key item.external_reference)
          (some (length st.documents)))
        (get_elem?-last st.documents (new_document item key (st.doc_seq + 1)))

  book_new-KeepsBooked :
      booked st item.external_reference ≡ none → KeepsBooked st (book_new item key st).0
  unfolding book_new
  book_new-KeepsBooked new reference doc e =
      let (i, at, there) = booked_at st reference doc e in
      elim (Bool-cases (bytes_eq reference item.external_reference)) [
        | inl same ↦
            let moved : booked st item.external_reference ≡ some doc =
              subst (λ (r : Bytes). booked st r ≡ some doc)
                (bytes_eq_sound reference item.external_reference same) e in
            absurd (cc (new, moved))
        | inr apart ↦ booked_by (book_new item key st).0 reference i doc (rw apart at) (
            get_elem?-before st.documents (new_document item key (st.doc_seq + 1) ∷ []) i doc there)
      ]

-- How an item was answered: by the document of its reference, or with the rejection of its rules.
abbrev pub Ends : Masters → Ledger → PostingItem → PostingResult → Type 0
Ends d st item r =
    ((doc : Document) × (duplicate : Bool) × (booked st item.external_reference ≡ some doc)
      × (r ≡ posted_result item.item_key doc duplicate))
    ⊎ ((code : Bytes) × (reject_posting d item ≡ err code)
        × (r ≡ rejected_result item.item_key code))

-- What one item leaves of the ledger and answers.
record IsOneBooked (d : Masters) (item : PostingItem) (st : Ledger) (after : Ledger × PostingResult)
    : Type 0 where
  keeps : KeepsBooked st after.0
  ends : Ends d after.0 item after.1

pub unmoved :
    (st after : Ledger)
    → after.documents ≡ st.documents
    → after.doc_by_ref ≡ st.doc_by_ref
    → (reference : Bytes) → booked after reference ≡ booked st reference
unfolding booked
unmoved st after docs index reference = rw (docs, index) refl

book_duplicate-booked :
    (item : PostingItem) (doc : Document) (st : Ledger) (r : Bytes)
    → booked (book_duplicate item doc st).0 r ≡ booked st r
unfolding book_duplicate
book_duplicate-booked item doc st = unmoved st (book_duplicate item doc st).0 refl refl

book_rejected-booked :
    (item : PostingItem) (code : Bytes) (st : Ledger) (r : Bytes)
    → booked (book_rejected item code st).0 r ≡ booked st r
unfolding book_rejected
book_rejected-booked item code st = unmoved st (book_rejected item code st).0 refl refl

duplicate-IsOneBooked :
    (d : Masters) (item : PostingItem) (doc : Document) (st : Ledger)
    → booked st item.external_reference ≡ some doc
    → IsOneBooked d item st (book_duplicate item doc st)
unfolding book_duplicate
duplicate-IsOneBooked d item doc st e = record {
  keeps = λ reference x h. book_duplicate-booked item doc st reference ∙ h;
  ends = inl (doc, true, book_duplicate-booked item doc st item.external_reference ∙ e, refl);
}

rejected-IsOneBooked :
    (d : Masters) (item : PostingItem) (code : Bytes) (st : Ledger)
    → reject_posting d item ≡ err code
    → IsOneBooked d item st (book_rejected item code st)
unfolding book_rejected
rejected-IsOneBooked d item code st e = record {
  keeps = λ reference x h. book_rejected-booked item code st reference ∙ h;
  ends = inr (code, e, refl);
}

new-IsOneBooked :
    (d : Masters) (item : PostingItem) (key : Bytes) (st : Ledger)
    → booked st item.external_reference ≡ none
    → IsOneBooked d item st (book_new item key st)
unfolding book_new
new-IsOneBooked d item key st new = record {
  keeps = book_new-KeepsBooked item key st new;
  ends = inl (new_document item key (st.doc_seq + 1), false, book_new-booked item key st, refl);
}

book_one-IsOneBooked :
    (d : Masters) (item : PostingItem) (key : Bytes) (st : Ledger)
    → IsOneBooked d item st (book_one d item key st)
unfolding book_one
book_one-IsOneBooked d item key st = elim (Option-cases (booked st item.external_reference)) [
  | inr (doc, e) ↦ rw (book_one, e) (duplicate-IsOneBooked d item doc st e)
  | inl new ↦ elim (Result-cases (reject_posting d item)) [
    | inl (code, e) ↦ rw (book_one, new, e) (rejected-IsOneBooked d item code st e)
    | inr (u, e) ↦ rw (book_one, new, e) (new-IsOneBooked d item key st new)
  ]
]

Ends-KeepsBooked :
    (d : Masters) (st after : Ledger) (item : PostingItem) (r : PostingResult)
    → KeepsBooked st after
    → Ends d st item r
    → Ends d after item r
Ends-KeepsBooked d st after item r keeps (inl (doc, duplicate, e, answer)) =
    inl (doc, duplicate, keeps item.external_reference doc e, answer)
Ends-KeepsBooked d st after item r keeps (inr rejected) = inr rejected

abbrev pub AllEnd : Masters → Ledger → List PostingItem → List PostingResult → Type 0
AllEnd d st [] [] = Unit
AllEnd d st [] (r ∷ rs) = ⊥
AllEnd d st (item ∷ items) [] = ⊥
AllEnd d st (item ∷ items) (r ∷ rs) = Ends d st item r × AllEnd d st items rs

pub AllEnd-KeepsBooked :
    (d : Masters) (st after : Ledger) (items : List PostingItem) (rs : List PostingResult)
    → KeepsBooked st after
    → AllEnd d st items rs
    → AllEnd d after items rs
AllEnd-KeepsBooked d st after [] [] keeps h = tt
AllEnd-KeepsBooked d st after [] (r ∷ rs) keeps h = h
AllEnd-KeepsBooked d st after (item ∷ items) [] keeps h = h
AllEnd-KeepsBooked d st after (item ∷ items) (r ∷ rs) keeps h =
    (Ends-KeepsBooked d st after item r keeps h.0, AllEnd-KeepsBooked d st after items rs keeps h.1)

pub book-KeepsBooked :
    (d : Masters) (items : List PostingItem) (key : Bytes) (st : Ledger)
    → KeepsBooked st (book d items key st).0
unfolding book
book-KeepsBooked d [] key st reference doc e = e
book-KeepsBooked d (item ∷ items) key st reference doc e =
    let one = book_one d item key st in
    book-KeepsBooked d items key one.0 reference doc
      ((book_one-IsOneBooked d item key st).keeps reference doc e)

pub book-AllEnd :
    (d : Masters) (items : List PostingItem) (key : Bytes) (st : Ledger)
    → AllEnd d (book d items key st).0 items (book d items key st).1
unfolding book
book-AllEnd d [] key st = tt
book-AllEnd d (item ∷ items) key st =
    let one = book_one d item key st in
    (
      Ends-KeepsBooked d one.0 (book d items key one.0).0 item one.1
          (book-KeepsBooked d items key one.0) (book_one-IsOneBooked d item key st).ends,
      book-AllEnd d items key one.0,
    )
