-- ===== src/Posting/Again.antt =====
-- internal/erp/posting.go: what a second posting of the same items does.
use integrations_challenge.Prelude.{
  ◌≡◌, ◌⊎◌, inl, inr, refl, ◌∙◌, true, List, [], ◌∷◌, Bytes, Option-cases,
}
use integrations_challenge.Posting.{
  PostingItem, PostingResult, Document, Masters, status_posted, status_rejected,
}
use integrations_challenge.Posting.Book.{
  Ledger, posted_result, rejected_result, book_duplicate, book_rejected, booked, book_one, book,
}
use integrations_challenge.Posting.Ends.{
  KeepsBooked, Ends, unmoved, AllEnd, AllEnd-KeepsBooked, book-KeepsBooked, book-AllEnd,
}

-- The documents and what finds them are the same.
pub record SameDocuments (st after : Ledger) : Type 0 where
  pub same_documents : after.documents ≡ st.documents
  pub same_index : after.doc_by_ref ≡ st.doc_by_ref
  pub same_seq : after.doc_seq ≡ st.doc_seq

SameDocuments-KeepsBooked : (st after : Ledger) → SameDocuments st after → KeepsBooked st after
SameDocuments-KeepsBooked st after same reference doc e =
    unmoved st after same.same_documents same.same_index reference ∙ e

-- A second answer: a posted item gets its document as a duplicate; a rejected one is rejected again,
-- or its reference has a document by now.
abbrev pub IsAnsweredAgain : PostingResult → PostingResult → Type 0
IsAnsweredAgain r again =
    ((r.status ≡ status_posted) × (again ≡ record r { duplicate = true }))
    ⊎ ((r.status ≡ status_rejected)
        × ((again ≡ r) ⊎ ((again.status ≡ status_posted) × (again.duplicate ≡ true))))

abbrev pub AreAnsweredAgain : List PostingResult → List PostingResult → Type 0
AreAnsweredAgain [] [] = Unit
AreAnsweredAgain [] (a ∷ as_again) = ⊥
AreAnsweredAgain (r ∷ rs) [] = ⊥
AreAnsweredAgain (r ∷ rs) (a ∷ again) = IsAnsweredAgain r a × AreAnsweredAgain rs again

duplicate_again :
    (item : PostingItem) (doc : Document) (st : Ledger)
    → SameDocuments st (book_duplicate item doc st).0
      × ((book_duplicate item doc st).1 ≡ posted_result item.item_key doc true)
unfolding book_duplicate
duplicate_again item doc st =
    (record { same_documents = refl; same_index = refl; same_seq = refl }, refl)

rejected_again :
    (item : PostingItem) (code : Bytes) (st : Ledger)
    → SameDocuments st (book_rejected item code st).0
      × ((book_rejected item code st).1 ≡ rejected_result item.item_key code)
unfolding book_rejected
rejected_again item code st =
    (record { same_documents = refl; same_index = refl; same_seq = refl }, refl)

again_one :
    (d : Masters) (item : PostingItem) (key : Bytes) (st : Ledger) (r : PostingResult)
    → Ends d st item r
    → SameDocuments st (book_one d item key st).0 × IsAnsweredAgain r (book_one d item key st).1
unfolding book_one
again_one d item key st r (inl (doc, duplicate, e, answer)) =
    let (same, again) = duplicate_again item doc st in
    rw (book_one, e, again, answer) (same, inl (refl, refl))
again_one d item key st r (inr (code, e, answer)) =
    elim (Option-cases (booked st item.external_reference)) [
      | inr (doc, known) ↦
          let (same, again) = duplicate_again item doc st in
          rw (book_one, known, again, answer) (same, inr (refl, inr (refl, refl)))
      | inl new ↦
          let (same, again) = rejected_again item code st in
          rw (book_one, new, e, again, answer) (same, inr (refl, inl refl))
    ]

SameDocuments-trans : (a b c : Ledger) → SameDocuments a b → SameDocuments b c → SameDocuments a c
SameDocuments-trans a b c p q = record {
  same_documents = q.same_documents ∙ p.same_documents;
  same_index = q.same_index ∙ p.same_index;
  same_seq = q.same_seq ∙ p.same_seq;
}

again_all :
    (d : Masters) (items : List PostingItem) (key : Bytes) (st : Ledger) (rs : List PostingResult)
    → AllEnd d st items rs
    → SameDocuments st (book d items key st).0 × AreAnsweredAgain rs (book d items key st).1
unfolding book
again_all d [] key st [] h =
    (record { same_documents = refl; same_index = refl; same_seq = refl }, tt)
again_all d [] key st (r ∷ rs) h = absurd h
again_all d (item ∷ items) key st [] h = absurd h
again_all d (item ∷ items) key st (r ∷ rs) h =
    let one = book_one d item key st in
    let (same, answer) = again_one d item key st r h.0 in
    let (all_same, answers) =
      again_all d items key one.0 rs
        (AllEnd-KeepsBooked d st one.0 items rs (SameDocuments-KeepsBooked st one.0 same) h.1) in
    (SameDocuments-trans st one.0 (book d items key one.0).0 same all_same, (answer, answers))

-- Postings of other requests.
unfoldable pub book_all : Masters → List (List PostingItem × Bytes) → Ledger → Ledger
book_all d [] st = st
book_all d ((items, key) ∷ ps) st = book_all d ps (book d items key st).0

book_all-KeepsBooked :
    (d : Masters) (ps : List (List PostingItem × Bytes)) (st : Ledger)
    → KeepsBooked st (book_all d ps st)
unfolding book_all
book_all-KeepsBooked d [] st reference doc e = e
book_all-KeepsBooked d ((items, key) ∷ ps) st reference doc e =
    book_all-KeepsBooked d ps (book d items key st).0 reference doc
      (book-KeepsBooked d items key st reference doc e)

-- Items that are posted a second time, under any key and after any other postings, create no
-- document and use no document number; each item that was posted is answered with the same
-- document, marked as a duplicate, and each that was rejected is rejected again or finds a document
-- that another item created.
pub book_again :
    (d : Masters) (items : List PostingItem) (key again_key : Bytes) (st : Ledger)
    (between : List (List PostingItem × Bytes))
    → let first = book d items key st in
      let later = book_all d between first.0 in
      SameDocuments later (book d items again_key later).0
      × AreAnsweredAgain first.1 (book d items again_key later).1
book_again d items key again_key st between =
    let first = book d items key st in
    let later = book_all d between first.0 in
    again_all d items again_key later first.1 (
      AllEnd-KeepsBooked d first.0 later items first.1 (book_all-KeepsBooked d between first.0)
        (book-AllEnd d items key st))
