-- ===== src/Idempotency/Replay.antt =====
-- internal/httpx/idempotency.go: how long a stored response is replayed.
use mathlib.Core.Path.{subst}
use integrations_challenge.Prelude.{
  ℕ, suc, ◌+◌, ◌≤◌, ◌<◌, ◌≡◌, ◌⊎◌, inl, inr, refl, sym, ap, ◌∙◌, true, false, List, [], ◌∷◌, ◌++◌,
  append_assoc, Bytes, bytes_eq, Option, none, some, if◌then◌else◌, if_elim, Bool-cases, update,
  update_self, length, length-append, arith,
}
use integrations_challenge.Prelude.Int.{ℤ, pos, ltb_ℤ, leb_ℤ}
use integrations_challenge.Proposals.{has_text}
use integrations_challenge.Idempotency.{
  IdempotencyKey, IdempotencyRecord, IdempotencyStore, default_retention, key_id, new_store,
  stored_record, evict_order, evict_recs, evict, is_some, put, check, replay_stored, conflict_body,
}
use integrations_challenge.Idempotency.Retention.{put_all, put_all-IsTidy, IsTidy}

-- A key with its response, behind which at most n others stand.
record Held (id : Bytes) (rec : IdempotencyRecord) (n : ℕ) (ids : List Bytes)
    (recs : Bytes → Option IdempotencyRecord) : Type 0 where
  before : List Bytes
  after : List Bytes
  placed : ids ≡ before ++ id ∷ after
  new_before : has_text id before ≡ false
  few_after : length after ≤ n
  there : recs id ≡ some rec

evict-Held :
    (retention : ℤ) (id : Bytes) (rec : IdempotencyRecord) (n : ℕ) (before after : List Bytes)
    (recs : Bytes → Option IdempotencyRecord)
    → ltb_ℤ retention (pos (suc n)) ≡ false
    → has_text id before ≡ false
    → length after ≤ n
    → recs id ≡ some rec
    → Held id rec n
        (evict_order retention (before ++ id ∷ after))
        (evict_recs retention (before ++ id ∷ after) recs)
unfolding evict_order evict_recs
evict-Held retention id rec n [] after recs room new few there =
    let under : ltb_ℤ retention (pos (length (id ∷ after))) ≡ false = ground arith in
    rw under (record {
      before = [];
      after = after;
      placed = refl;
      new_before = refl;
      few_after = few;
      there = there;
    })
evict-Held retention id rec n (b ∷ before) after recs room new few there =
    elim (Bool-cases (ltb_ℤ retention (pos (length (b ∷ before ++ id ∷ after))))) [
      | inl over ↦
          let kept : update recs b none id ≡ some rec = ground arith in
          rw over (
            evict-Held retention id rec n before after (update recs b none) room (ground arith) few
              kept)
      | inr under ↦ rw under (record {
        before = b ∷ before;
        after = after;
        placed = refl;
        new_before = new;
        few_after = few;
        there = there;
      })
    ]

abbrev HeldIn : Bytes → IdempotencyRecord → ℕ → IdempotencyStore → Type 0
HeldIn id rec n s = Held id rec n s.order s.recs

-- A store that keeps n other keys behind a key: an unlimited one, or one with that retention.
abbrev pub HasRoom : ℤ → ℕ → Type 0
HasRoom retention n = (leb_ℤ retention (pos 0) ≡ true) ⊎ (ltb_ℤ retention (pos (suc n)) ≡ false)

evict_keeps :
    (id : Bytes) (rec : IdempotencyRecord) (n : ℕ) (s : IdempotencyStore)
    → HasRoom s.retention n
    → HeldIn id rec n s
    → HeldIn id rec n (evict s)
unfolding evict
evict_keeps id rec n s room h =
    if_elim (HeldIn id rec n) (leb_ℤ s.retention (pos 0)) (λ unlimited. h)
      (λ limited.
        let enough : ltb_ℤ s.retention (pos (suc n)) ≡ false = ground arith in
        subst
          (λ (ids : List Bytes).
            Held id rec n (evict_order s.retention ids) (evict_recs s.retention ids s.recs))
          (sym h.placed)
          (evict-Held s.retention id rec n h.before h.after s.recs enough h.new_before h.few_after
            h.there))

put-retention :
    (k : IdempotencyKey) (rec : IdempotencyRecord) (s : IdempotencyStore)
    → (put k rec s).retention ≡ s.retention
unfolding put evict
put-retention k rec s =
    if_elim (λ (r : IdempotencyStore). r.retention ≡ s.retention) (leb_ℤ s.retention (pos 0))
      (λ u. refl) (λ l. refl)

-- The key that is put.
put_first :
    (k : IdempotencyKey) (rec : IdempotencyRecord) (s : IdempotencyStore)
    → IsTidy s
    → s.recs (key_id k) ≡ none
    → HasRoom s.retention 0
    → HeldIn (key_id k) (stored_record rec) 0 (put k rec s)
unfolding put
put_first k rec s t new room =
    let id = key_id k in
    let unknown : is_some (s.recs id) ≡ false = ap is_some new in
    evict_keeps id (stored_record rec) 0 _ room (
      rw unknown (record {
        before = s.order;
        after = [];
        placed = refl;
        new_before = t.listed id ∙ unknown;
        few_after = omega arith;
        there = update_self s.recs id (some (stored_record rec));
      }))

-- Another key that is put.
put_other :
    (id : Bytes) (held : IdempotencyRecord) (n : ℕ) (k : IdempotencyKey) (rec : IdempotencyRecord)
    (s : IdempotencyStore)
    → bytes_eq id (key_id k) ≡ false
    → HasRoom s.retention (suc n)
    → HeldIn id held n s
    → HeldIn id held (suc n) (put k rec s)
unfolding put
put_other id held n k rec s other room h =
    let new = key_id k in
    let kept : update s.recs new (some (stored_record rec)) id ≡ some held = rw other h.there in
    evict_keeps id held (suc n) _ room (
      if_elim
        (λ (o : List Bytes). Held id held (suc n) o (update s.recs new (some (stored_record rec))))
        (is_some (s.recs new))
        (λ known. record {
          before = h.before;
          after = h.after;
          placed = h.placed;
          new_before = h.new_before;
          few_after = let few = h.few_after in omega arith;
          there = kept;
        })
        (λ unknown. record {
          before = h.before;
          after = h.after ++ new ∷ [];
          placed =
              ap (λ (ids : List Bytes). ids ++ new ∷ []) h.placed
              ∙ append_assoc h.before (id ∷ h.after) (new ∷ []);
          new_before = h.new_before;
          few_after =
              let few = h.few_after in let long = length-append h.after (new ∷ []) in omega arith;
          there = kept;
        }))

-- Responses to other keys.
abbrev pub AreOthers : Bytes → List (IdempotencyKey × IdempotencyRecord) → Type 0
AreOthers id [] = Unit
AreOthers id ((k, rec) ∷ ps) = (bytes_eq id (key_id k) ≡ false) × AreOthers id ps

HasRoom-fewer : (retention : ℤ) (n m : ℕ) → m ≤ n → HasRoom retention n → HasRoom retention m
HasRoom-fewer retention n m fewer (inl unlimited) = inl unlimited
HasRoom-fewer retention n m fewer (inr wide) = inr (ground arith)

put_others :
    (id : Bytes) (held : IdempotencyRecord) (n : ℕ)
    (after : List (IdempotencyKey × IdempotencyRecord)) (s : IdempotencyStore)
    → AreOthers id after
    → HasRoom s.retention (n + length after)
    → HeldIn id held n s
    → HeldIn id held (n + length after) (put_all after s)
unfolding put_all
put_others id held n [] s others room h = subst (λ (m : ℕ). HeldIn id held m s) (omega arith) h
put_others id held n ((k, rec) ∷ ps) s others room h =
    let next : HasRoom s.retention (suc n) =
      HasRoom-fewer s.retention (n + suc (length ps)) (suc n) (omega arith) room in
    let wide : HasRoom (put k rec s).retention (suc n + length ps) =
      rw (put-retention k rec s)
        (HasRoom-fewer s.retention (n + suc (length ps)) (suc n + length ps) (omega arith) room) in
    let rest =
      put_others id held (suc n) ps (put k rec s) others.1 wide
        (put_other id held n k rec s others.0 next h) in
    subst (λ (m : ℕ). HeldIn id held m (put_all ps (put k rec s))) (omega arith) rest

replay_held :
    (k : IdempotencyKey) (rec : IdempotencyRecord) (s : IdempotencyStore)
    (others : List (IdempotencyKey × IdempotencyRecord)) (body_hash : Bytes)
    → IsTidy s
    → s.recs (key_id k) ≡ none
    → AreOthers (key_id k) others
    → HasRoom s.retention (length others)
    → check k body_hash (put_all others (put k rec s)) ≡ (
        if bytes_eq rec.body_hash body_hash
        then (some (stored_record rec), replay_stored)
        else (none, conflict_body))
unfolding check stored_record
replay_held k rec s others body_hash t new apart room =
    let first =
      put_first k rec s t new (HasRoom-fewer s.retention (length others) 0 (omega arith) room) in
    let wide = HasRoom-fewer s.retention (length others) (0 + length others) (omega arith) room in
    let held =
      put_others (key_id k) (stored_record rec) 0 others (put k rec s) apart
        (rw (put-retention k rec s) wide) first in
    rw (check, held.there) refl

put_all-retention :
    (ps : List (IdempotencyKey × IdempotencyRecord)) (s : IdempotencyStore)
    → (put_all ps s).retention ≡ s.retention
unfolding put_all
put_all-retention [] s = refl
put_all-retention ((k, rec) ∷ ps) s = put_all-retention ps (put k rec s) ∙ put-retention k rec s

new_store-HasRoom :
    (retention : ℤ) (n : ℕ) → n < default_retention → HasRoom (new_store retention).retention n
unfolding new_store
new_store-HasRoom retention n few = elim (Bool-cases (leb_ℤ retention (pos 0))) [
  | inl unlimited ↦ inl (ground arith)
  | inr limited ↦ inr (ground arith)
]

-- In a store that began with any retention and took any responses, a response put for a key that
-- has none is replayed to every later request with that key and body, and a request with that key
-- and another body is refused, while the responses put since are for other keys and fewer than the
-- default retention of 4096.
pub replay_retained :
    (retention : ℤ) (before : List (IdempotencyKey × IdempotencyRecord)) (k : IdempotencyKey)
    (rec : IdempotencyRecord) (others : List (IdempotencyKey × IdempotencyRecord))
    (body_hash : Bytes)
    → let s = put_all before (new_store retention) in
      s.recs (key_id k) ≡ none
      → AreOthers (key_id k) others
      → length others < default_retention
      → check k body_hash (put_all others (put k rec s)) ≡ (
          if bytes_eq rec.body_hash body_hash
          then (some (stored_record rec), replay_stored)
          else (none, conflict_body))
replay_retained retention before k rec others body_hash new apart few =
    let s = put_all before (new_store retention) in
    let room : HasRoom s.retention (length others) =
      rw (put_all-retention before (new_store retention))
        (new_store-HasRoom retention (length others) few) in
    replay_held k rec s others body_hash (put_all-IsTidy retention before) new apart room
