-- ===== src/Posting/Runs.antt =====
-- internal/erp/posting.go: the requests of a run, one after the other.
use mathlib.Core.Path.{subst}
use integrations_challenge.Prelude.{
  ℕ, ◌≡◌, inl, inr, refl, sym, ◌∙◌, Bool, true, false, List, [], ◌∷◌, Bytes, bytes_eq,
  bytes_eq_refl, bytes_eq_sound, some, ==→eq, ==_refl, Option, some-inj, Bool-cases, Result, length,
  update, ◌==◌,
}
use integrations_challenge.Prelude.Int.{pos, leb_ℤ}
use integrations_challenge.Governor.{Governor}
use integrations_challenge.Idempotency.{
  IdempotencyKey, IdempotencyRecord, IdempotencyStore, put, evict, key_id, stored_record, new_store,
}
use integrations_challenge.Posting.{Document, Masters}
use integrations_challenge.Posting.Book.{Ledger, new_ledger, get_elem?}
use integrations_challenge.Posting.Shape.{PostingItemWire}
use integrations_challenge.Posting.Once.{IsLedger, new_ledger-IsLedger, one_document, numbered}
use integrations_challenge.Posting.Serve.{
  PostingRequest, RunState, Payload, request_key, serve_posting,
}
use integrations_challenge.Posting.Step.{Effect, serve_posting-Effect}

-- What a run starts with of the state of postings.
abbrev pub new_run : Governor → RunState
new_run gov = record { ledger = new_ledger; idem = new_store (pos 0); gov = gov }

-- Requests under other keys.
abbrev pub AreOtherRequests : Bytes → List PostingRequest → Type 0
AreOtherRequests id [] = Unit
AreOtherRequests id (r ∷ rs) =
    (bytes_eq id (key_id (request_key r)) ≡ false) × AreOtherRequests id rs

abbrev pub IsUnlimited : IdempotencyStore → Type 0
IsUnlimited s = leb_ℤ s.retention (pos 0) ≡ true

-- An unlimited store evicts nothing.
pub put-IsUnlimited :
    (k : IdempotencyKey) (rec : IdempotencyRecord) (s : IdempotencyStore)
    → IsUnlimited s
    → IsUnlimited (put k rec s)
unfolding put evict
put-IsUnlimited k rec s u = rw u u

pub put_unlimited :
    (k : IdempotencyKey) (rec : IdempotencyRecord) (s : IdempotencyStore) (id : Bytes)
    → IsUnlimited s
    → (put k rec s).recs id ≡ update s.recs (key_id k) (some (stored_record rec)) id
unfolding put evict
put_unlimited k rec s id u = rw u refl

-- What a request does to a run leaves the answers stored under other keys.
Effect-IsUnlimited :
    (r : PostingRequest) (st after : RunState)
    → Effect r st after
    → IsUnlimited st.idem
    → IsUnlimited after.idem
Effect-IsUnlimited r st after h u = elim h.stored [
  | inl same ↦ subst IsUnlimited (sym same) u
  | inr (rec, stored) ↦
      subst IsUnlimited (sym stored) (put-IsUnlimited (request_key r) rec st.idem u)
]

keeps_others :
    (r : PostingRequest) (st after : RunState) (id : Bytes) (held : IdempotencyRecord)
    → Effect r st after
    → IsUnlimited st.idem
    → bytes_eq id (key_id (request_key r)) ≡ false
    → st.idem.recs id ≡ some held
    → after.idem.recs id ≡ some held
keeps_others r st after id held h u apart there =
    let holds : IdempotencyStore → Type 0 = λ (s : IdempotencyStore). s.recs id ≡ some held in
    elim h.stored [
      | inl same ↦ subst holds (sym same) there
      | inr (rec, stored) ↦
          let kept : update st.idem.recs (key_id (request_key r)) (some (stored_record rec)) id
              ≡ some held =
            rw apart there in
          subst holds (sym stored) (put_unlimited (request_key r) rec st.idem id u ∙ kept)
    ]

-- In a tidy ledger a reference has one place.
same_place :
    (st : Ledger) (i j : ℕ) (a b : Document)
    → IsLedger st
    → get_elem? st.documents i ≡ some a
    → get_elem? st.documents j ≡ some b
    → bytes_eq a.external_reference b.external_reference ≡ (i == j)
same_place st i j a b l at_i at_j = elim (Bool-cases (i == j)) [
  | inl at ↦
      let there : get_elem? st.documents j ≡ some a =
        subst (λ (k : ℕ). get_elem? st.documents k ≡ some a) (==→eq i j at) at_i in
      let one : a ≡ b = some-inj (sym there ∙ at_j) in
      rw at (
        subst (λ (x : Document). bytes_eq a.external_reference x.external_reference ≡ true) one
          (bytes_eq_refl a.external_reference))
  | inr apart ↦ elim (Bool-cases (bytes_eq a.external_reference b.external_reference)) [
    | inl equal ↦
        let at =
          one_document st i j a b l at_i at_j
            (bytes_eq_sound a.external_reference b.external_reference equal) in
        absurd (cc (apart, subst (λ (k : ℕ). (i == k) ≡ true) at (==_refl i)))
    | inr distinct ↦ distinct ∙ sym apart
  ]
]

module _ (d : Masters) (parse : Bytes → Bool → Result Bytes (List PostingItemWire))
    (hash : Bytes → Bytes) (marshal : Payload → Option Bytes) where
  unfoldable pub serve_all : List PostingRequest → RunState → RunState
  serve_all [] st = st
  serve_all (r ∷ rs) st = serve_all rs (serve_posting d parse hash marshal r st).0

  serve_all-IsLedger :
      (rs : List PostingRequest) (st : RunState)
      → IsLedger st.ledger
      → IsLedger (serve_all rs st).ledger
  unfolding serve_all
  serve_all-IsLedger [] st l = l
  serve_all-IsLedger (r ∷ rs) st l =
      serve_all-IsLedger rs (serve_posting d parse hash marshal r st).0
        ((serve_posting-Effect d parse hash marshal r st).ledger_kept l)

  pub serve_all_other :
      (id : Bytes) (held : IdempotencyRecord) (rs : List PostingRequest) (st : RunState)
      → AreOtherRequests id rs
      → IsUnlimited st.idem
      → st.idem.recs id ≡ some held
      → (serve_all rs st).idem.recs id ≡ some held
  unfolding serve_all
  serve_all_other id held [] st others u there = there
  serve_all_other id held (r ∷ rs) st others u there =
      let after = (serve_posting d parse hash marshal r st).0 in
      let effect = serve_posting-Effect d parse hash marshal r st in
      serve_all_other id held rs after others.1 (Effect-IsUnlimited r st after effect u)
        (keeps_others r st after id held effect u others.0 there)

  serve_all-IsUnlimited :
      (rs : List PostingRequest) (st : RunState)
      → IsUnlimited st.idem
      → IsUnlimited (serve_all rs st).idem
  unfolding serve_all
  serve_all-IsUnlimited [] st u = u
  serve_all-IsUnlimited (r ∷ rs) st u =
      let after = (serve_posting d parse hash marshal r st).0 in
      serve_all-IsUnlimited rs after
        (Effect-IsUnlimited r st after (serve_posting-Effect d parse hash marshal r st) u)

  -- After any requests to a new run, every document has the number of its position, and two
  -- documents have one reference exactly where they are one document; the counter of the numbers
  -- is the number of documents.
  pub run_documents :
      (rs : List PostingRequest) (gov : Governor) (i j : ℕ) (a b : Document)
      → let ledger = (serve_all rs (new_run gov)).ledger in
        get_elem? ledger.documents i ≡ some a
        → get_elem? ledger.documents j ≡ some b
        → (a.document_number ≡ numbered i a)
          × (bytes_eq a.external_reference b.external_reference ≡ (i == j))
          × (ledger.doc_seq ≡ length ledger.documents)
  run_documents rs gov i j a b at_i at_j =
      let ledger = (serve_all rs (new_run gov)).ledger in
      let l = serve_all-IsLedger rs (new_run gov) new_ledger-IsLedger in
      (l.in_order i a at_i, same_place ledger i j a b l at_i at_j, l.counted)
