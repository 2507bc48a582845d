-- ===== src/Idempotency/Tests.antt =====
-- Repeated requests, and the theorems about them applied there.
use integrations_challenge.Prelude.{
  ◌≡◌, refl, [], ◌∷◌, Bytes, codes, List, Option, some, none, if◌then◌else◌, arith, bytes_eq,
}
use integrations_challenge.Prelude.Int.{pos}
use integrations_challenge.Idempotency.{
  IdempotencyKey, IdempotencyRecord, IdempotencyOutcome, replay_stored, conflict_body, new_store,
  put, check, stored_record, evict, evict_order, evict_recs,
}
use integrations_challenge.Idempotency.Retention.{put_all, IsTidy, put_all-IsTidy}
use integrations_challenge.Idempotency.Replay.{replay_retained}

abbrev key_of : Bytes → IdempotencyKey
key_of key = record {
  tenant = codes "acme";
  method = codes "POST";
  path = codes "/v1/documents";
  key = key;
}

abbrev response : Bytes → IdempotencyRecord
response body_hash = record {
  status = pos 201;
  header =
      (codes "Content-Type", codes "application/json" ∷ [])
      ∷ (codes "Date", codes "today" ∷ [])
      ∷ [];
  body = codes "{}";
  body_hash = body_hash;
}

abbrev other_requests : List (IdempotencyKey × IdempotencyRecord)
other_requests =
    (key_of (codes "k2"), response (codes "h2")) ∷ (key_of (codes "k3"), response (codes "h3")) ∷ []

abbrev outcome_for : Bytes → Option IdempotencyRecord × IdempotencyOutcome
outcome_for body_hash =
    check (key_of (codes "k1")) body_hash (
      put_all other_requests
        (put (key_of (codes "k1")) (response (codes "h1")) (new_store (pos 1))))

drops_date :
    (stored_record (response (codes "h1"))).header
    ≡ (codes "Content-Type", codes "application/json" ∷ []) ∷ []
unfolding stored_record
drops_date = refl

refuses_body : outcome_for (codes "h9") ≡ (none, conflict_body)
unfolding check put_all put new_store evict evict_order evict_recs stored_record
refuses_body = refl

replay_retained_example : outcome_for (codes "h1") ≡ (
    if bytes_eq (codes "h1") (codes "h1")
    then (some (stored_record (response (codes "h1"))), replay_stored)
    else (none, conflict_body))
unfolding new_store put_all
replay_retained_example =
    replay_retained (pos 1) [] (key_of (codes "k1")) (response (codes "h1")) other_requests
      (codes "h1") refl (refl, (refl, tt)) (omega arith)

put_all-IsTidy_example : IsTidy (put_all other_requests (new_store (pos 1)))
put_all-IsTidy_example = put_all-IsTidy (pos 1) other_requests
