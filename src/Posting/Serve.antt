-- ===== src/Posting/Serve.antt =====
-- internal/erp/posting.go: servePosting, from a request to its answer, over the state of a run.
-- Arguments are what isJSONMediaType says of the content type, what ReadBody reads, encoding/json in
-- both directions, and the SHA-256 of BodyHash.
use integrations_challenge.Prelude.{
  ℕ, ◌+◌, Bool, true, false, not, ◌||◌, List, [], ◌∷◌, ◌++◌, Bytes, codes, bytes_eq, Option, none,
  some, Result, ok, err, ◌>>=◌, ◌>>◌, fail_if, if◌then◌else◌, length, ltb,
}
use integrations_challenge.Prelude.Int.{pos}
use integrations_challenge.Text.{trim_space, sort_strings}
use integrations_challenge.Decimal.Text.{is_empty}
use integrations_challenge.Governor.{Governor}
use integrations_challenge.Governor.Inject.{apply_then_fail}
use integrations_challenge.Idempotency.{
  IdempotencyKey, IdempotencyRecord, IdempotencyOutcome, new_key, replay_stored, conflict_body,
  IdempotencyStore, put, check,
}
use integrations_challenge.Posting.{PostingItem, PostingResult, Masters, status_rejected}
use integrations_challenge.Posting.Book.{Ledger, book, tenant_name}
use integrations_challenge.Posting.Shape.{
  Malformed, PostingItemWire, decode_posting_items, validate_all,
}

pub record PostingRequest : Type 0 where
  pub method : Bytes
  pub path : Bytes
  pub json_content : Bool
  pub body : Option Bytes
  pub idempotency_header : Bytes
  pub batch : Bool

-- The failures that servePosting answers.
pub data Failure : Type 0 where
  unsupported_content_type unreadable_body idempotency_key_required idempotency_key_reused
        internal :
      Failure
  malformed_body : Malformed → Failure

pub data Answer : Type 0 where
  refused : Failure → Answer
  replayed : IdempotencyRecord → Answer
  sent : ℕ → Bytes → Answer

-- What of runState a posting reads and writes.
pub record RunState : Type 0 where
  pub ledger : Ledger
  pub idem : IdempotencyStore
  pub gov : Governor

pub record BatchResponse : Type 0 where
  pub results : List PostingResult
  pub posted : ℕ
  pub rejected : ℕ
  pub duplicates : ℕ

-- The body of an answer before it is rendered.
pub data Payload : Type 0 where
  one_result : PostingResult → Payload
  no_result : Payload
  all_results : BatchResponse → Payload

abbrev differs : Bytes → List PostingResult → Bool
differs first [] = false
differs first (r ∷ rs) = not (bytes_eq r.status first) || differs first rs

-- postingStatus
unfoldable pub posting_status : List PostingResult → Bool → ℕ
posting_status [] batch = 200
posting_status (r ∷ rs) batch =
    if not batch || ltb (length (r ∷ rs)) 2 then 200 else if differs r.status rs then 207 else 200

abbrev replay_marked : Bool → List PostingResult → List PostingResult
replay_marked replay [] = []
replay_marked replay (r ∷ rs) = record r { idempotency_replay = replay } ∷ replay_marked replay rs

abbrev counted_results : List PostingResult → BatchResponse → BatchResponse
counted_results [] b = b
counted_results (r ∷ rs) b = counted_results rs (
    if bytes_eq r.status status_rejected
    then record b { rejected = b.rejected + 1 }
    else if r.duplicate
    then record b { posted = b.posted + 1; duplicates = b.duplicates + 1 }
    else record b { posted = b.posted + 1 })

abbrev first_result : List PostingResult → Payload
first_result [] = no_result
first_result (r ∷ rs) = one_result r

-- postingPayload
unfoldable pub posting_payload : List PostingResult → Bool → Bool → Payload
posting_payload results batch replay =
    let out = replay_marked replay results in
    let body : BatchResponse = record { results = out; posted = 0; rejected = 0; duplicates = 0 } in
    if batch then all_results (counted_results out body) else first_result out

abbrev references : List PostingItem → List Bytes
references [] = []
references (item ∷ items) = item.external_reference ∷ references items

-- strings.Join(refs, ",")
abbrev joined : List Bytes → Bytes
joined [] = []
joined (s ∷ []) = s
joined (s ∷ t ∷ ss) = s ++ b',' ∷ joined (t ∷ ss)

-- applyFailSignature
unfoldable pub apply_fail_signature : Bytes → List PostingItem → Bytes
apply_fail_signature path items =
    codes "APPLYFAIL|" ++ path ++ b'|' ∷ joined (sort_strings (references items))

-- A request that is ready to be booked.
pub record Prepared : Type 0 where
  pub key : Bytes
  pub body : Bytes
  pub items : List PostingItem

abbrev refusing : {A : Type 0} → Result Malformed A → Result Failure A
refusing (ok a) = ok a
refusing (err m) = err (malformed_body m)

abbrev read_body : Option Bytes → Result Failure Bytes
read_body none = err unreadable_body
read_body (some body) = ok body

abbrev pub request_key : PostingRequest → IdempotencyKey
request_key r = record {
  tenant = tenant_name;
  method = r.method;
  path = r.path;
  key = trim_space r.idempotency_header;
}

-- The record that is stored for a repeated key.
abbrev pub stored_answer : ℕ → Bytes → Bytes → IdempotencyRecord
stored_answer status replay body_hash = record {
  status = pos status;
  header = (codes "Content-Type", codes "application/json" ∷ []) ∷ [];
  body = replay;
  body_hash = body_hash;
}

-- Step 4: the stored answer, a conflict, or the booking.
unfoldable pub resolve_key :
    Option IdempotencyRecord × IdempotencyOutcome → RunState → RunState × Answer → RunState × Answer
resolve_key (rec, conflict_body) st post = (st, refused idempotency_key_reused)
resolve_key (some rec, replay_stored) st post = (st, replayed rec)
resolve_key (none, replay_stored) st post = (st, refused internal)
resolve_key (rec, new_key) st post = post

module _ (d : Masters) (parse : Bytes → Bool → Result Bytes (List PostingItemWire))
    (hash : Bytes → Bytes) (marshal : Payload → Option Bytes) where
  -- Steps 1 to 3 of servePosting.
  unfoldable pub prepare : PostingRequest → Result Failure Prepared
  prepare r = do
    fail_if (not r.json_content) unsupported_content_type
    body ← read_body r.body
    let key = trim_space r.idempotency_header
    fail_if (is_empty (trim_space key)) idempotency_key_required
    items ← refusing (decode_posting_items parse body r.batch)
    checked ← refusing (validate_all items)
    ok (record { key = key; body = body; items = items })

  -- The end of servePosting: the answer is stored, and sent unless the injected fault loses it.
  unfoldable pub deliver :
      PostingRequest → Prepared → ℕ → Bytes → Bytes → RunState → RunState × Answer
  deliver r p status body replay st =
      let (gov, lost) = apply_then_fail (apply_fail_signature r.path p.items) st.gov in
      (
        record st {
          idem = put (request_key r) (stored_answer status replay (hash p.body)) st.idem;
          gov = gov;
        },
        if lost then refused internal else sent status body,
      )

  -- Steps 5 and 6 of servePosting.
  unfoldable pub post_items : PostingRequest → Prepared → RunState → RunState × Answer
  post_items r p st =
      let (ledger, results) = book d p.items p.key st.ledger in
      let after = record st { ledger = ledger } in
      elim (marshal (posting_payload results r.batch false)) [
        | none ↦ (after, refused internal)
        | some body ↦ elim (marshal (posting_payload results r.batch true)) [
          | none ↦ (after, refused internal)
          | some replay ↦ deliver r p (posting_status results r.batch) body replay after
        ]
      ]

  -- servePosting
  unfoldable pub serve_posting : PostingRequest → RunState → RunState × Answer
  serve_posting r st = elim (prepare r) [
    | err failure ↦ (st, refused failure)
    | ok p ↦ resolve_key (check (request_key r) (hash p.body) st.idem) st (post_items r p st)
  ]
