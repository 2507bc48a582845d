-- ===== src/Posting/Resent.antt =====
-- internal/erp/posting.go: a request that is sent again under its idempotency key.
use mathlib.Core.Path.{subst}
use integrations_challenge.Prelude.{
  ◌≡◌, ◌⊎◌, inl, inr, refl, sym, ap, ◌∙◌, Bool, true, false, List, Bytes, bytes_eq, some, Option,
  none, Bool-cases, Result, ok, if◌then◌else◌, update_self, if_elim,
}
use integrations_challenge.Governor.Inject.{apply_then_fail}
use integrations_challenge.Idempotency.{
  IdempotencyRecord, IdempotencyStore, put, check, key_id, stored_record,
}
use integrations_challenge.Posting.{PostingResult, Masters}
use integrations_challenge.Posting.Book.{Ledger, book}
use integrations_challenge.Posting.Shape.{PostingItemWire}
use integrations_challenge.Posting.Serve.{
  PostingRequest, Answer, refused, replayed, sent, internal, idempotency_key_reused, RunState,
  Payload, posting_status, posting_payload, Prepared, apply_fail_signature, prepare, request_key,
  stored_answer, deliver, post_items, resolve_key, serve_posting,
}
use integrations_challenge.Posting.Runs.{
  AreOtherRequests, IsUnlimited, put-IsUnlimited, put_unlimited, serve_all, serve_all_other,
}

module _ (d : Masters) (parse : Bytes → Bool → Result Bytes (List PostingItemWire))
    (hash : Bytes → Bytes) (marshal : Payload → Option Bytes) where
  -- A prepared request under a key that has a stored answer.
  serve_known :
      (st : RunState) (r : PostingRequest) (p : Prepared) (rec : IdempotencyRecord)
      → prepare d parse hash marshal r ≡ ok p
      → st.idem.recs (key_id (request_key r)) ≡ some rec
      → serve_posting d parse hash marshal r st ≡ (
        st,
        if bytes_eq rec.body_hash (hash p.body)
            then replayed rec
            else refused idempotency_key_reused,
      )
  unfolding serve_posting check resolve_key
  serve_known st r p rec ready found = elim (Bool-cases (bytes_eq rec.body_hash (hash p.body))) [
    | inl equal ↦ rw (serve_posting, ready, check, found, equal) refl
    | inr unequal ↦ rw (serve_posting, ready, check, found, unequal) refl
  ]

  module _ (r : PostingRequest) (p : Prepared) (render : Payload → Bytes)
      (marshals : (x : Payload) → marshal x ≡ some (render x)) where
    abbrev booking : RunState → Ledger × List PostingResult
    booking st = book d p.items p.key st.ledger

    -- The answer that is stored for a booking.
    abbrev pub kept_answer : RunState → IdempotencyRecord
    kept_answer st =
        let results = (booking st).1 in
        stored_answer (posting_status results r.batch)
          (render (posting_payload results r.batch true)) (hash p.body)

    -- A prepared request under a new key is booked and its answer stored; it is sent or lost.
    serve_new :
        (st : RunState)
        → prepare d parse hash marshal r ≡ ok p
        → st.idem.recs (key_id (request_key r)) ≡ none
        → let (after, answer) = serve_posting d parse hash marshal r st in
          let (ledger, results) = booking st in
          (after.ledger ≡ ledger)
          × (after.idem ≡ put (request_key r) (kept_answer st) st.idem)
          × ((answer
                ≡ sent
                    (posting_status results r.batch)
                    (render (posting_payload results r.batch false)))
              ⊎ (answer ≡ refused internal))
    unfolding serve_posting post_items deliver check resolve_key
    serve_new st ready new =
        let results = (booking st).1 in
        let status = posting_status results r.batch in
        let body = render (posting_payload results r.batch false) in
        rw
          (
            serve_posting,
            ready,
            check,
            new,
            post_items,
            marshals (posting_payload results r.batch false),
            marshals (posting_payload results r.batch true),
          )
          (
            refl,
            refl,
            if_elim (λ (answer : Answer). (answer ≡ sent status body) ⊎ (answer ≡ refused internal))
                (apply_then_fail (apply_fail_signature r.path p.items) st.gov).1 (λ lost. inr refl)
                (λ kept. inl refl),
          )

    -- In a run whose store of answers is unlimited, as a new run's is, a prepared request under a
    -- new key is booked, and its answer is sent or, by the injected fault, lost. Whatever requests
    -- under other keys follow, a prepared request under that key then gets the stored answer of
    -- the booking if its body has the hash of the first, else a conflict, and changes nothing.
    -- The rendering of answers is taken never to fail.
    pub serve_again :
        (st : RunState) (others : List PostingRequest) (again : PostingRequest) (q : Prepared)
        → IsUnlimited st.idem
        → prepare d parse hash marshal r ≡ ok p
        → st.idem.recs (key_id (request_key r)) ≡ none
        → AreOtherRequests (key_id (request_key r)) others
        → prepare d parse hash marshal again ≡ ok q
        → key_id (request_key again) ≡ key_id (request_key r)
        → let first = serve_posting d parse hash marshal r st in
          let later = serve_all d parse hash marshal others first.0 in
          let (ledger, results) = booking st in
          (first.0.ledger ≡ ledger)
          × ((first.1
                ≡ sent
                    (posting_status results r.batch)
                    (render (posting_payload results r.batch false)))
              ⊎ (first.1 ≡ refused internal))
          × (serve_posting d parse hash marshal again later ≡ (
            later,
            if bytes_eq (hash p.body) (hash q.body)
                then replayed (stored_record (kept_answer st))
                else refused idempotency_key_reused,
          ))
    unfolding stored_record
    serve_again st others again q u ready new apart ready_again same_key =
        let first = serve_posting d parse hash marshal r st in
        let later = serve_all d parse hash marshal others first.0 in
        let id = key_id (request_key r) in
        let (booked, stored, answered) = serve_new st ready new in
        let held : first.0.idem.recs id ≡ some (stored_record (kept_answer st)) =
          subst (λ (s : IdempotencyStore). s.recs id ≡ some (stored_record (kept_answer st)))
            (sym stored)
            (put_unlimited (request_key r) (kept_answer st) st.idem id u
              ∙ update_self st.idem.recs id (some (stored_record (kept_answer st)))) in
        let unlimited : IsUnlimited first.0.idem =
          subst IsUnlimited (sym stored)
            (put-IsUnlimited (request_key r) (kept_answer st) st.idem u) in
        let there =
          serve_all_other d parse hash marshal id (stored_record (kept_answer st)) others first.0
            apart unlimited held in
        let found : later.idem.recs (key_id (request_key again))
            ≡ some (stored_record (kept_answer st)) =
          ap later.idem.recs same_key ∙ there in
        (
          booked,
          answered,
          serve_known later again q (stored_record (kept_answer st)) ready_again found,
        )
