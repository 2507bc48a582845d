-- ===== src/Idempotency.antt =====
-- internal/httpx/idempotency.go: the responses that are replayed for a repeated request. A header
-- is the list of its names and values; cloning a record is the identity on values.
pub mod Retention
pub mod Replay
mod Tests
use integrations_challenge.Prelude.{
  ℕ, Bool, true, false, not, ◌&&◌, ◌||◌, List, [], ◌∷◌, ◌++◌, Bytes, codes, bytes_eq, Option, none,
  some, ltb, if◌then◌else◌, update, length,
}
use integrations_challenge.Prelude.Int.{ℤ, pos, ltb_ℤ, leb_ℤ}
use integrations_challenge.Proposals.{has_text}

abbrev pub default_retention : ℕ
default_retention = 4096

pub record IdempotencyKey : Type 0 where
  pub tenant : Bytes
  pub method : Bytes
  pub path : Bytes
  pub key : Bytes

-- IdempotencyKey.String
abbrev pub key_id : IdempotencyKey → Bytes
key_id k = k.tenant ++ 0x1f ∷ (k.method ++ 0x1f ∷ (k.path ++ 0x1f ∷ k.key))

pub record IdempotencyRecord : Type 0 where
  pub status : ℤ
  pub header : List (Bytes × List Bytes)
  pub body : Bytes
  pub body_hash : Bytes

pub data IdempotencyOutcome : Type 0 where
  new_key replay_stored conflict_body : IdempotencyOutcome

-- IdempotencyStore: `recs` by what a read of the map gives.
pub record IdempotencyStore : Type 0 where
  pub retention : ℤ
  pub recs : Bytes → Option IdempotencyRecord
  pub order : List Bytes

-- NewIdempotencyStore
unfoldable pub new_store : ℤ → IdempotencyStore
new_store retention =
    let raised = ltb_ℤ (pos 0) retention && ltb_ℤ retention (pos default_retention) in
    record {
      retention = if raised then pos default_retention else retention;
      recs = λ id. none;
      order = [];
    }

abbrev dropped_headers : List Bytes
dropped_headers =
    codes "Content-Length"
    ∷ codes "Connection"
    ∷ codes "Transfer-Encoding"
    ∷ codes "Idempotent-Replay"
    ∷ codes "Date"
    ∷ []

abbrev drop_headers : List (Bytes × List Bytes) → List (Bytes × List Bytes)
drop_headers [] = []
drop_headers ((name, values) ∷ hs) =
    let rest = drop_headers hs in
    if has_text name dropped_headers then rest else (name, values) ∷ rest

-- What Put stores of a response.
unfoldable pub stored_record : IdempotencyRecord → IdempotencyRecord
stored_record rec = record rec { header = drop_headers rec.header }

-- The loop of evict.
unfoldable pub evict_order : ℤ → List Bytes → List Bytes
evict_order retention [] = []
evict_order retention (id ∷ ids) =
    let rest = evict_order retention ids in
    if ltb_ℤ retention (pos (length (id ∷ ids))) then rest else id ∷ ids

unfoldable pub evict_recs :
    ℤ → List Bytes → (Bytes → Option IdempotencyRecord) → Bytes → Option IdempotencyRecord
evict_recs retention [] recs = recs
evict_recs retention (id ∷ ids) recs =
    let rest = evict_recs retention ids (update recs id none) in
    if ltb_ℤ retention (pos (length (id ∷ ids))) then rest else recs

-- evict
unfoldable pub evict : IdempotencyStore → IdempotencyStore
evict s = if leb_ℤ s.retention (pos 0) then s else record s {
  recs = evict_recs s.retention s.order s.recs;
  order = evict_order s.retention s.order;
}

abbrev pub is_some {ℓ} : {A : Type ℓ} → Option A → Bool
is_some none = false
is_some (some a) = true

-- Put
unfoldable pub put : IdempotencyKey → IdempotencyRecord → IdempotencyStore → IdempotencyStore
put k rec s =
    let id = key_id k in
    evict (record s {
      recs = update s.recs id (some (stored_record rec));
      order = if is_some (s.recs id) then s.order else s.order ++ id ∷ [];
    })

-- Check, with the record to replay.
unfoldable pub check :
    IdempotencyKey → Bytes → IdempotencyStore → Option IdempotencyRecord × IdempotencyOutcome
check k body_hash s = elim (s.recs (key_id k)) [
  | none ↦ (none, new_key)
  | some rec ↦
      if bytes_eq rec.body_hash body_hash then (some rec, replay_stored) else (none, conflict_body)
]
