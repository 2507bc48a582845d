-- ===== src/Idempotency/Retention.antt =====
-- internal/httpx/idempotency.go: which keys a store retains.
use mathlib.Core.Path.{subst}
use integrations_challenge.Prelude.{
  ◌≡◌, inl, inr, refl, sym, ◌∙◌, true, false, ◌||◌, List, [], ◌∷◌, ◌++◌, Bytes, bytes_eq,
  bytes_eq_refl, bytes_eq_sound, Option, none, some, if◌then◌else◌, if_elim, Bool-cases, update,
  length, arith,
}
use integrations_challenge.Prelude.Int.{ℤ, pos, ltb_ℤ, leb_ℤ}
use integrations_challenge.Proposals.{has_text}
use integrations_challenge.Idempotency.{
  IdempotencyKey, IdempotencyRecord, IdempotencyStore, key_id, new_store, stored_record,
  evict_order, evict_recs, evict, is_some, put,
}

-- A run of completed requests.
unfoldable pub put_all :
    List (IdempotencyKey × IdempotencyRecord) → IdempotencyStore → IdempotencyStore
put_all [] s = s
put_all ((k, rec) ∷ ps) s = put_all ps (put k rec s)

-- No text stands twice.
abbrev pub IsNodup : List Bytes → Type 0
IsNodup [] = Unit
IsNodup (id ∷ ids) = (has_text id ids ≡ false) × IsNodup ids

-- The stored keys are those in the order, once each, and never more than a positive retention.
pub record IsTidy (s : IdempotencyStore) : Type 0 where
  pub listed : (id : Bytes) → has_text id s.order ≡ is_some (s.recs id)
  pub once : IsNodup s.order
  pub few : leb_ℤ s.retention (pos 0) ≡ false → ltb_ℤ s.retention (pos (length s.order)) ≡ false

pub has_text-append :
    (id : Bytes) (xs ys : List Bytes) → has_text id (xs ++ ys) ≡ (has_text id xs || has_text id ys)
has_text-append id [] ys = refl
has_text-append id (x ∷ xs) ys = let ih = has_text-append id xs ys in ground arith

pub apart_self : (id : Bytes) → bytes_eq id id ≡ false → ⊥
apart_self id h = let same = bytes_eq_refl id in cc

bytes_ne : (x id : Bytes) → bytes_eq id x ≡ false → bytes_eq x id ≡ false
bytes_ne x id h = elim (Bool-cases (bytes_eq x id)) [
  | inl same ↦
      absurd
        (apart_self id (subst (λ (t : Bytes). bytes_eq id t ≡ false) (bytes_eq_sound x id same) h))
  | inr apart ↦ apart
]

IsNodup-snoc :
    (xs : List Bytes) (id : Bytes) → IsNodup xs → has_text id xs ≡ false → IsNodup (xs ++ id ∷ [])
IsNodup-snoc [] id n h = (refl, tt)
IsNodup-snoc (x ∷ xs) id n h =
    let apart : bytes_eq x id ≡ false = bytes_ne x id (ground arith) in
    (has_text-append x xs (id ∷ []) ∙ ground (arith, n.0), IsNodup-snoc xs id n.1 (ground arith))

forget :
    (id : Bytes) (ids : List Bytes) (recs : Bytes → Option IdempotencyRecord)
    → IsNodup (id ∷ ids)
    → ((j : Bytes) → has_text j (id ∷ ids) ≡ is_some (recs j))
    → (j : Bytes) → has_text j ids ≡ is_some (update recs id none j)
forget id ids recs n l j = elim (Bool-cases (bytes_eq j id)) [
  | inl same ↦
      rw same (subst (λ (t : Bytes). has_text t ids ≡ false) (sym (bytes_eq_sound j id same)) n.0)
  | inr apart ↦ let listed = l j in rw apart (ground arith)
]

-- What evict leaves, from a tidy order of any length.
evict-tidy :
    (retention : ℤ) (ids : List Bytes) (recs : Bytes → Option IdempotencyRecord)
    → IsNodup ids
    → ((id : Bytes) → has_text id ids ≡ is_some (recs id))
    → IsNodup (evict_order retention ids)
      × ((id : Bytes)
          → has_text id (evict_order retention ids) ≡ is_some (evict_recs retention ids recs id))
      × ((leb_ℤ retention (pos 0) ≡ false)
          → ltb_ℤ retention (pos (length (evict_order retention ids))) ≡ false)
unfolding evict_order evict_recs
evict-tidy retention [] recs n l = (tt, l, λ h. ground arith)
evict-tidy retention (id ∷ ids) recs n l =
    elim (Bool-cases (ltb_ℤ retention (pos (length (id ∷ ids))))) [
      | inl over ↦
          rw over (evict-tidy retention ids (update recs id none) n.1 (forget id ids recs n l))
      | inr under ↦ rw under (n, l, λ h. under)
    ]

module _ (id : Bytes) (rec : IdempotencyRecord) (s : IdempotencyStore) (t : IsTidy s) where
  -- The order of Put before eviction.
  abbrev entered : List Bytes
  entered = if is_some (s.recs id) then s.order else s.order ++ id ∷ []

  entered-IsNodup : IsNodup entered
  entered-IsNodup =
      if_elim IsNodup (is_some (s.recs id)) (λ known. t.once)
        (λ unknown. IsNodup-snoc s.order id t.once (t.listed id ∙ unknown))

  entered_listed : (j : Bytes) → has_text j entered ≡ is_some (update s.recs id (some rec) j)
  entered_listed j =
      let ids = t.listed id in
      let js = t.listed j in
      elim (Bool-cases (bytes_eq j id)) [
        | inl same ↦ rw same (
            subst (λ (i : Bytes). has_text i entered ≡ true) (sym (bytes_eq_sound j id same))
              (if_elim (λ (o : List Bytes). has_text id o ≡ true) (is_some (s.recs id))
                (λ known. ids ∙ known)
                (λ unknown.
                  let self = bytes_eq_refl id in
                  has_text-append id s.order (id ∷ []) ∙ ground arith)))
        | inr apart ↦ rw apart (
            if_elim (λ (o : List Bytes). has_text j o ≡ is_some (s.recs j)) (is_some (s.recs id))
              (λ known. js) (λ unknown. has_text-append j s.order (id ∷ []) ∙ ground arith))
      ]

-- Put keeps a store tidy, whatever is put.
pub put-IsTidy :
    (k : IdempotencyKey) (rec : IdempotencyRecord) (s : IdempotencyStore)
    → IsTidy s
    → IsTidy (put k rec s)
unfolding put evict
put-IsTidy k rec s t =
    let id = key_id k in
    let nodup = entered-IsNodup id (stored_record rec) s t in
    let listed = entered_listed id (stored_record rec) s t in
    let left =
      evict-tidy s.retention (entered id (stored_record rec) s t)
        (update s.recs id (some (stored_record rec))) nodup listed in
    if_elim IsTidy (leb_ℤ s.retention (pos 0))
      (λ unlimited. record { listed = listed; once = nodup; few = λ limited. ground arith })
      (λ limited. record { listed = left.1; once = left.0; few = left.2 })

new-IsTidy : (retention : ℤ) → IsTidy (new_store retention)
unfolding new_store
new-IsTidy retention = record { listed = λ id. refl; once = tt; few = λ h. ground arith }

put_all_from-IsTidy :
    (ps : List (IdempotencyKey × IdempotencyRecord)) (s : IdempotencyStore)
    → IsTidy s
    → IsTidy (put_all ps s)
unfolding put_all
put_all_from-IsTidy [] s t = t
put_all_from-IsTidy ((k, rec) ∷ ps) s t =
    put_all_from-IsTidy ps (put k rec s) (put-IsTidy k rec s t)

-- After any responses put into a new store, the keys that have a stored response are those of the
-- eviction order, each of them once, and never more than a positive retention.
pub put_all-IsTidy :
    (retention : ℤ) (ps : List (IdempotencyKey × IdempotencyRecord))
    → IsTidy (put_all ps (new_store retention))
put_all-IsTidy retention ps = put_all_from-IsTidy ps (new_store retention) (new-IsTidy retention)
