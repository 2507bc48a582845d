-- ===== src/Posting/Step.antt =====
-- internal/erp/posting.go: what a request leaves of the documents and of the stored answers.
use integrations_challenge.Prelude.{
  ℕ, ◌≡◌, ◌⊎◌, inl, inr, refl, Bool, true, false, List, Bytes, Option, none, some, Option-cases,
  Result, Result-cases,
}
use integrations_challenge.Idempotency.{
  IdempotencyRecord, IdempotencyOutcome, new_key, replay_stored, conflict_body, put, check,
}
use integrations_challenge.Posting.{Masters}
use integrations_challenge.Posting.Book.{book}
use integrations_challenge.Posting.Shape.{PostingItemWire}
use integrations_challenge.Posting.Once.{IsLedger, book-IsLedger}
use integrations_challenge.Posting.Serve.{
  PostingRequest, Answer, RunState, Payload, posting_status, posting_payload, Prepared, prepare,
  request_key, stored_answer, deliver, post_items, resolve_key, serve_posting,
}

-- What a request leaves of the ledger, and of the stored answers.
pub record Effect (r : PostingRequest) (st after : RunState) : Type 0 where
  pub ledger_kept : IsLedger st.ledger → IsLedger after.ledger
  pub stored :
      (after.idem ≡ st.idem)
      ⊎ ((rec : IdempotencyRecord) × (after.idem ≡ put (request_key r) rec st.idem))

module _ (d : Masters) (parse : Bytes → Bool → Result Bytes (List PostingItemWire))
    (hash : Bytes → Bytes) (marshal : Payload → Option Bytes) where
  deliver-Effect :
      (r : PostingRequest) (p : Prepared) (status : ℕ) (body replay : Bytes) (st : RunState)
      → Effect r st (deliver d parse hash marshal r p status body replay st).0
  unfolding deliver
  deliver-Effect r p status body replay st = record {
    ledger_kept = λ l. l;
    stored = inr (stored_answer status replay (hash p.body), refl);
  }

  post_items-Effect :
      (r : PostingRequest) (p : Prepared) (st : RunState)
      → Effect r st (post_items d parse hash marshal r p st).0
  unfolding post_items
  post_items-Effect r p st =
      let (ledger, results) = book d p.items p.key st.ledger in
      let kept = book-IsLedger d p.items p.key st.ledger in
      let unstored : Effect r st (record st { ledger = ledger }) = record {
        ledger_kept = kept;
        stored = inl refl;
      } in
      elim (Option-cases (marshal (posting_payload results r.batch false))) [
        | inl e ↦ rw (post_items, e) unstored
        | inr (body, e) ↦ elim (Option-cases (marshal (posting_payload results r.batch true))) [
          | inl f ↦ rw (post_items, e, f) unstored
          | inr (replay, f) ↦
              let effect =
                deliver-Effect r p (posting_status results r.batch) body replay
                  (record st { ledger = ledger }) in
              rw (post_items, e, f)
                (record { ledger_kept = λ l. effect.ledger_kept (kept l); stored = effect.stored })
        ]
      ]

  resolve_key-Effect :
      (r : PostingRequest) (answer : Option IdempotencyRecord × IdempotencyOutcome) (st : RunState)
      (post : RunState × Answer)
      → Effect r st post.0
      → Effect r st (resolve_key answer st post).0
  unfolding resolve_key
  resolve_key-Effect r (rec, conflict_body) st post h = record {
    ledger_kept = λ l. l;
    stored = inl refl;
  }
  resolve_key-Effect r (some rec, replay_stored) st post h = record {
    ledger_kept = λ l. l;
    stored = inl refl;
  }
  resolve_key-Effect r (none, replay_stored) st post h = record {
    ledger_kept = λ l. l;
    stored = inl refl;
  }
  resolve_key-Effect r (rec, new_key) st post h = h

  pub serve_posting-Effect :
      (r : PostingRequest) (st : RunState) → Effect r st (serve_posting d parse hash marshal r st).0
  unfolding serve_posting
  serve_posting-Effect r st = elim (Result-cases (prepare d parse hash marshal r)) [
    | inl (failure, e) ↦ rw (serve_posting, e) (record { ledger_kept = λ l. l; stored = inl refl })
    | inr (p, e) ↦
        rw (serve_posting, e)
          (resolve_key-Effect r (check (request_key r) (hash p.body) st.idem) st
            (post_items d parse hash marshal r p st) (post_items-Effect r p st))
  ]
