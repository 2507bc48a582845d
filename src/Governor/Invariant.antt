-- ===== src/Governor/Invariant.antt =====
-- The well-formedness of a Governor: New establishes it and Admit keeps it.
use native.Mathlib.Nat.{div-mul-le_self}
use integrations_challenge.Prelude.{
  ℕ, ◌-◌, ◌≤◌, ◌<◌, ◌≡◌, true, false, ◌||◌, Bytes, arith, if_elim, leb, ltb,
}
use integrations_challenge.Prelude.Int.{ℤ}
use integrations_challenge.Clock.{clamp}
use integrations_challenge.Governor.{
  Governor, Decision, Config, new, spend_quota, refill, admitted, limited, bucket, quarantine,
  admit, counted, charged,
}

-- The bucket never holds more than its capacity nor was credited in the future, an enabled bucket
-- has an interval, the quota is never passed and marked as spent exactly when it is used up.
pub record IsSound (g : Governor) : Type 0 where
  pub tokens_le : g.tokens ≤ g.capacity
  pub refill_le : g.last_refill100 ≤ g.clock
  pub interval : g.bucket_enabled ≡ true → 0 < g.refill_vms100
  pub quota_le : g.quota_used ≤ g.quota_limit
  pub spent : g.quota_spent ≡ leb g.quota_limit g.quota_used
  pub total : g.metrics.requests_total ≡ g.seq

pub new-IsSound : (cfg : Config) → IsSound (new cfg)
unfolding new
new-IsSound cfg = ground arith

pub refill-IsSound : {g : Governor} → IsSound g → g.bucket_enabled ≡ true → IsSound (refill g)
unfolding refill
refill-IsSound {g} s on =
    ground (arith, s.interval on, div-mul-le_self (g.clock - g.last_refill100) g.refill_vms100)

admitted-IsSound :
    (endpoint : Bytes) (cost records : ℕ) {g : Governor}
    → IsSound g
    → g.quota_used < g.quota_limit
    → IsSound (admitted endpoint cost records g).0
unfolding admitted
admitted-IsSound endpoint cost records {g} s h = ground arith

limited-IsSound :
    (endpoint : Bytes) {g : Governor}
    → IsSound g
    → g.quota_used < g.quota_limit
    → IsSound (limited endpoint g).0
unfolding limited
limited-IsSound endpoint {g} s h = ground arith

refill-quota :
    (g : Governor)
    → ((refill g).quota_used ≡ g.quota_used) × ((refill g).quota_limit ≡ g.quota_limit)
unfolding refill
refill-quota g = ground arith

bucket-IsSound :
    (endpoint : Bytes) (cost records : ℕ) {g : Governor}
    → IsSound g
    → g.quota_used < g.quota_limit
    → IsSound (bucket endpoint cost records g).0
unfolding bucket
bucket-IsSound endpoint cost records {g} s h =
    if_elim (λ (r : Governor × Decision). IsSound r.0) g.bucket_enabled
      (λ on.
        let s' = refill-IsSound s on in
        let room : (refill g).quota_used < (refill g).quota_limit =
          omega (arith, refill-quota g, h) in
        if_elim (λ (r : Governor × Decision). IsSound r.0) (ltb (refill g).tokens 1)
          (λ empty. limited-IsSound endpoint s' room)
          (λ some_left.
            admitted-IsSound endpoint cost records
              (record {
                tokens_le = omega (arith, s'.tokens_le);
                refill_le = s'.refill_le;
                interval = s'.interval;
                quota_le = s'.quota_le;
                spent = s'.spent;
                total = s'.total;
              })
              room))
      (λ off. admitted-IsSound endpoint cost records s h)

charged-IsSound : {g : Governor} → IsSound g → g.quota_used < g.quota_limit → IsSound (charged g)
unfolding spend_quota
charged-IsSound {g} s h = ground arith

quarantine-IsSound :
    (endpoint : Bytes) (cost records : ℕ) {g : Governor}
    → IsSound g
    → g.quota_used < g.quota_limit
    → IsSound (quarantine endpoint cost records g).0
unfolding quarantine
quarantine-IsSound endpoint cost records {g} s h =
    if_elim (λ (r : Governor × Decision). IsSound r.0) g.quarantine_armed
      (λ armed.
        if_elim (λ (r : Governor × Decision). IsSound r.0) (leb g.quarantine_until g.quota_used)
          (λ over.
            bucket-IsSound endpoint cost records
              (record {
                tokens_le = s.tokens_le;
                refill_le = s.refill_le;
                interval = s.interval;
                quota_le = s.quota_le;
                spent = s.spent;
                total = s.total;
              })
              h)
          (λ holds. charged-IsSound s h))
      (λ free. bucket-IsSound endpoint cost records s h)

counted-IsSound : (endpoint : Bytes) {g : Governor} → IsSound g → IsSound (counted endpoint g)
counted-IsSound endpoint {g} s = record {
  tokens_le = s.tokens_le;
  refill_le = s.refill_le;
  interval = s.interval;
  quota_le = s.quota_le;
  spent = s.spent;
  total = omega (arith, s.total);
}

spent-IsSound :
    {g : Governor}
    → IsSound g
    → (g.quota_spent || leb g.quota_limit g.quota_used) ≡ true
    → IsSound (record g { quota_spent = true })
spent-IsSound {g} s h = ground arith

room_left :
    {g : Governor}
    → IsSound g
    → (g.quota_spent || leb g.quota_limit g.quota_used) ≡ false
    → g.quota_used < g.quota_limit
room_left s h = ground arith

-- Admit keeps the invariant, whatever it decides.
pub admit-IsSound :
    (endpoint : Bytes) (cost records : ℤ) {g : Governor}
    → IsSound g
    → IsSound (admit endpoint cost records g).0
unfolding admit
admit-IsSound endpoint cost records {g} s =
    let s' = counted-IsSound endpoint s in
    if_elim (λ (r : Governor × Decision). IsSound r.0)
      (g.quota_spent || leb g.quota_limit g.quota_used) (λ over. spent-IsSound s' over)
      (λ open_quota.
        quarantine-IsSound endpoint (clamp cost) (clamp records) s' (room_left s' open_quota))
