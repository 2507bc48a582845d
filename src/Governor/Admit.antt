-- ===== src/Governor/Admit.antt =====
-- The five ways through Admit, and what a request costs on each.
use integrations_challenge.Prelude.{
  ℕ, ◌+◌, ◌-◌, ◌/◌, ◌≡◌, ◌⊎◌, inl, inr, Bool, true, false, ◌||◌, Bytes, arith, if_elim, leb, ltb,
  sym,
}
use mathlib.Core.Path.{subst}
use integrations_challenge.Prelude.Int.{ℤ}
use integrations_challenge.Clock.{clamp, now, vms100_per_vms}
use integrations_challenge.Governor.{
  Governor, Decision, Code, blank, rate_limited, quarantined, quota_exhausted, refill, admitted,
  limited, bucket, quarantine, admit, counted, charged, rejected,
}

-- The quota is used up.
abbrev pub is_spent : Governor → Bool
is_spent g = g.quota_spent || leb g.quota_limit g.quota_used

-- The state at the bucket: the request counted, a quarantine behind its end lifted.
abbrev pub at_bucket : Bytes → Governor → Governor
at_bucket endpoint g = record (counted endpoint g) { quarantine_armed = false }

-- No quarantine stands in the way.
abbrev pub IsFree : Governor → Type 0
IsFree g = (g.quarantine_armed ≡ false) ⊎ (leb g.quarantine_until g.quota_used ≡ true)

-- One token taken.
abbrev pub taken : Governor → Governor
taken g = record g { tokens = g.tokens - 1 }

module _ (endpoint : Bytes) (cost records : ℤ) (g : Governor)
    (P : Governor × Decision → Type 0) where
  bucket_rule :
      (g.bucket_enabled ≡ true
        → ltb (refill (at_bucket endpoint g)).tokens 1 ≡ true
        → P (limited endpoint (refill (at_bucket endpoint g))))
      → (g.bucket_enabled ≡ true
          → ltb (refill (at_bucket endpoint g)).tokens 1 ≡ false
          → P (
              admitted endpoint
                (clamp cost)
                (clamp records)
                (taken (refill (at_bucket endpoint g)))))
      → (g.bucket_enabled ≡ false
          → P (admitted endpoint (clamp cost) (clamp records) (at_bucket endpoint g)))
      → P (bucket endpoint (clamp cost) (clamp records) (at_bucket endpoint g))
  unfolding bucket
  bucket_rule on_limited on_taken on_open =
      if_elim P g.bucket_enabled
        (λ on.
          if_elim P (ltb (refill (at_bucket endpoint g)).tokens 1) (on_limited on) (on_taken on))
        on_open

  -- A statement about Admit, from its five outcomes.
  pub admit_rule :
      (is_spent g ≡ true
        → P (
            rejected
              (record (counted endpoint g) { quota_spent = true })
              503
              quota_exhausted
              false
              0))
      → (is_spent g ≡ false
          → g.quarantine_armed ≡ true
          → leb g.quarantine_until g.quota_used ≡ false
          → P (rejected (charged (counted endpoint g)) 403 quarantined false 0))
      → (is_spent g ≡ false
          → IsFree g
          → g.bucket_enabled ≡ true
          → ltb (refill (at_bucket endpoint g)).tokens 1 ≡ true
          → P (limited endpoint (refill (at_bucket endpoint g))))
      → (is_spent g ≡ false
          → IsFree g
          → g.bucket_enabled ≡ true
          → ltb (refill (at_bucket endpoint g)).tokens 1 ≡ false
          → P (
              admitted endpoint
                (clamp cost)
                (clamp records)
                (taken (refill (at_bucket endpoint g)))))
      → (is_spent g ≡ false
          → IsFree g
          → g.bucket_enabled ≡ false
          → P (admitted endpoint (clamp cost) (clamp records) (at_bucket endpoint g)))
      → P (admit endpoint cost records g)
  unfolding admit quarantine
  admit_rule on_spent on_held on_limited on_taken on_open = if_elim P (is_spent g) on_spent (λ room.
      if_elim P g.quarantine_armed
        (λ armed.
          if_elim P (leb g.quarantine_until g.quota_used)
            (λ over.
              bucket_rule (on_limited room (inr over)) (on_taken room (inr over))
                (on_open room (inr over)))
            (on_held room armed))
        (λ free.
          subst
            (λ (b : Bool). P (
              bucket endpoint (clamp cost) (clamp records)
                (record (counted endpoint g) { quarantine_armed = b })))
            (sym free)
            (bucket_rule (on_limited room (inl free)) (on_taken room (inl free))
              (on_open room (inl free)))))

-- What a request spends: quota units, virtual time and records delivered.
abbrev pub Spends : Governor → ℕ → ℕ → ℕ → Governor → Type 0
Spends g units time records g' =
    (g'.quota_used ≡ g.quota_used + units)
    × (g'.clock ≡ g.clock + time)
    × (g'.metrics.records_returned ≡ g.metrics.records_returned + records)

-- The four kinds of decision.
abbrev pub IsAllowed : Decision → Type 0
IsAllowed d = (d.allow ≡ true) × (d.status ≡ 0) × (d.code ≡ blank)

abbrev pub IsRefused : ℕ → Code → Bool → ℕ → Decision → Type 0
IsRefused status code retriable hint d =
    (d.allow ≡ false)
    × (d.status ≡ status)
    × (d.code ≡ code)
    × (d.retriable ≡ retriable)
    × (d.retry_after_hint_ms ≡ hint)

abbrev pub Effect : Governor → ℕ → ℕ → Governor × Decision → Type 0
Effect g cost records (g', d) =
    (g'.seq ≡ g.seq + 1)
    × (d.seq ≡ g'.seq)
    × (d.vms ≡ g'.clock / vms100_per_vms)
    × (IsAllowed d × Spends g 1 cost records g'
        ⊎ IsRefused 429 rate_limited true (g.refill_vms100 / vms100_per_vms) d
          × Spends g 1 g.rate_limit_cost 0 g'
        ⊎ IsRefused 403 quarantined false 0 d
          × Spends g 1 g.rate_limit_cost 0 g'
          × (g.quarantine_armed ≡ true)
        ⊎ IsRefused 503 quota_exhausted false 0 d × Spends g 0 0 0 g' × (is_spent g ≡ true))

-- Admit numbers every request and answers in one of four ways. Only an admission costs the
-- caller's price and delivers the records; a 429, which hints the refill interval, and the 403 of an
-- armed quarantine cost a quota unit and the rejection's price; the 503 of a spent quota is free.
pub admit-Effect :
    (endpoint : Bytes) (cost records : ℤ) (g : Governor)
    → Effect g (clamp cost) (clamp records) (admit endpoint cost records g)
unfolding admitted limited refill now
admit-Effect endpoint cost records g =
    admit_rule endpoint cost records g (Effect g (clamp cost) (clamp records))
      (λ spent. ground arith) (λ room armed held. ground arith) (λ room free on empty. ground arith)
      (λ room free on some_left. ground arith) (λ room free off. ground arith)
