-- ===== src/Governor.antt =====
-- internal/simclock/governor.go and metrics.go: the state of a Governor, and New and Admit.
-- Configuration values and the arguments of a call are signed, since the code gives the
-- non-positive ones a meaning; the counters are numbers (see Clock). The mutex makes each method
-- one step.
pub mod Admit
pub mod Invariant
pub mod Inject
pub mod Token
pub mod Events
pub mod Growth
pub mod Faults
pub mod Rate
pub mod Allowance
mod Tests
use integrations_challenge.Prelude.{
  ℕ, zero, suc, ◌+◌, ◌-◌, ◌*◌, ◌/◌, ◌^◌, Bool, true, false, ◌&&◌, ◌||◌, Bytes, Option, none, some,
  ltb, leb, ◌==◌, if◌then◌else◌, update,
}
use integrations_challenge.Prelude.Int.{ℤ, pos, ltb_ℤ}
use integrations_challenge.Clock.{vms100_per_vms, now, clamp}

pub record Config : Type 0 where
  pub seed : ℤ
  pub quota_limit : ℤ
  pub bucket_capacity : ℤ
  pub refill_interval_vms : ℤ
  pub chaos : Bool
  pub permanent_fault_at : ℤ
  pub permanent_fault_path : Bytes
  pub token_request_ttl : ℤ
  pub token_virtual_ttl_vms : ℤ
  pub rate_limit_cost_vms100 : ℤ

-- The Code* strings of a decision; `blank` is "".
pub data Code : Type 0 where
  blank rate_limited quarantined quota_exhausted unavailable permanent_transport : Code

pub record Decision : Type 0 where
  pub allow : Bool
  pub status : ℕ
  pub code : Code
  pub retriable : Bool
  pub retry_after_hint_ms : ℕ
  pub seq : ℕ
  pub vms : ℕ

pub record Metrics : Type 0 where
  pub requests_total : ℕ
  pub by_endpoint : Bytes → ℕ
  pub rate_limited_count : ℕ
  pub five_xx_injected : ℕ
  pub five_xx_retried : ℕ
  pub permanent_injected : ℕ
  pub records_returned : ℕ
  pub duplicate_document_attempts : ℕ
  pub duplicate_apply_attempts : ℕ

pub record AccessToken : Type 0 where
  pub requests : ℕ
  pub deadline100 : ℕ
  pub expired : Bool

pub record Governor : Type 0 where
  pub cfg : Config
  pub quota_limit : ℕ
  pub bucket_enabled : Bool
  pub capacity : ℕ
  pub refill_vms100 : ℕ
  pub rate_limit_cost : ℕ
  pub sig_attempts : Bytes → ℕ
  pub clock : ℕ
  pub seq : ℕ
  pub tokens : ℕ
  pub last_refill100 : ℕ
  pub quota_used : ℕ
  pub quota_spent : Bool
  pub consecutive429 : Bytes → ℕ
  pub quarantine_until : ℕ
  pub quarantine_armed : Bool
  pub apply_fail_fired : Bool
  pub permanent_requests : ℕ
  pub permanent_fired : Bool
  pub issued_token_count : ℕ
  pub access_tokens : Bytes → Option AccessToken
  pub metrics : Metrics

abbrev pub quarantine_threshold : ℕ
quarantine_threshold = 20

abbrev pub quarantine_quota_units : ℕ
quarantine_quota_units = 200

-- math.MaxInt64, the limit of an unlimited quota.
abbrev pub unlimited : ℕ
unlimited = 2 ^ 63 - 1

abbrev pub is_positive : ℤ → Bool
is_positive a = ltb_ℤ (pos 0) a

-- The refill interval of an enabled bucket, in vms100: one vms where it is not positive.
abbrev refill_of : Config → ℕ
refill_of cfg =
    if is_positive cfg.refill_interval_vms
    then clamp cfg.refill_interval_vms * vms100_per_vms
    else vms100_per_vms

abbrev pub no_metrics : Metrics
no_metrics = record {
  requests_total = 0;
  by_endpoint = λ _. 0;
  rate_limited_count = 0;
  five_xx_injected = 0;
  five_xx_retried = 0;
  permanent_injected = 0;
  records_returned = 0;
  duplicate_document_attempts = 0;
  duplicate_apply_attempts = 0;
}

-- New
unfoldable pub new : Config → Governor
new cfg =
    let enabled = is_positive cfg.bucket_capacity in
    let capacity = if enabled then clamp cfg.bucket_capacity else 0 in
    let refill = if enabled then refill_of cfg else 0 in
    record {
      cfg = cfg;
      quota_limit = if is_positive cfg.quota_limit then clamp cfg.quota_limit else unlimited;
      bucket_enabled = enabled;
      capacity = capacity;
      refill_vms100 = refill;
      rate_limit_cost =
          if is_positive cfg.rate_limit_cost_vms100
          then clamp cfg.rate_limit_cost_vms100
          else refill;
      sig_attempts = λ _. 0;
      clock = 0;
      seq = 0;
      tokens = capacity;
      last_refill100 = 0;
      quota_used = 0;
      quota_spent = false;
      consecutive429 = λ _. 0;
      quarantine_until = 0;
      quarantine_armed = false;
      apply_fail_fired = false;
      permanent_requests = 0;
      permanent_fired = false;
      issued_token_count = 0;
      access_tokens = λ _. none;
      metrics = no_metrics;
    }

-- spendQuota
unfoldable pub spend_quota : Governor → Governor
spend_quota g = record g {
  quota_used = g.quota_used + 1;
  quota_spent = g.quota_spent || leb g.quota_limit (g.quota_used + 1);
}

unfoldable pub refill : Governor → Governor
refill g =
    let elapsed = g.clock - g.last_refill100 in
    let earned = elapsed / g.refill_vms100 in
    let filled = leb g.capacity (g.tokens + earned) in
    if ltb elapsed g.refill_vms100 then g else record g {
      tokens = if filled then g.capacity else g.tokens + earned;
      last_refill100 = if filled then g.clock else g.last_refill100 + earned * g.refill_vms100;
    }

-- note429
unfoldable pub note429 : Bytes → Governor → Governor
note429 endpoint g =
    let count = g.consecutive429 endpoint + 1 in
    if ltb count quarantine_threshold
    then record g { consecutive429 = update g.consecutive429 endpoint count }
    else record g {
      consecutive429 = update g.consecutive429 endpoint 0;
      quarantine_armed = true;
      quarantine_until = g.quota_used + quarantine_quota_units;
    }

-- A rejection, decided in the state after its costs.
abbrev pub rejected : Governor → ℕ → Code → Bool → ℕ → Governor × Decision
rejected g status code retriable hint = (
  g,
  record {
    allow = false;
    status = status;
    code = code;
    retriable = retriable;
    retry_after_hint_ms = hint;
    seq = g.seq;
    vms = now g.clock;
  },
)

-- `g.spendQuota(); g.clock.Advance(g.rateLimitCost)`
abbrev pub charged : Governor → Governor
charged g = let g' = spend_quota g in record g' { clock = g'.clock + g'.rate_limit_cost }

-- Part 4 of Admit: admitted.
unfoldable pub admitted : Bytes → ℕ → ℕ → Governor → Governor × Decision
unfolding spend_quota
admitted endpoint cost records g =
    let g₁ = spend_quota g in
    let g₂ = record g₁ {
      consecutive429 = update g₁.consecutive429 endpoint 0;
      metrics = record g₁.metrics { records_returned = g₁.metrics.records_returned + records };
      clock = g₁.clock + cost;
    } in
    (
      g₂,
      record {
        allow = true;
        status = 0;
        code = blank;
        retriable = false;
        retry_after_hint_ms = 0;
        seq = g₂.seq;
        vms = now g₂.clock;
      },
    )

-- Part 3: the bucket's 429.
unfoldable pub limited : Bytes → Governor → Governor × Decision
unfolding spend_quota note429
limited endpoint g =
    let g₁ = charged g in
    let g₂ = record g₁ {
      metrics = record g₁.metrics { rate_limited_count = g₁.metrics.rate_limited_count + 1 };
    } in
    rejected (note429 endpoint g₂) 429 rate_limited true (g.refill_vms100 / vms100_per_vms)

unfoldable pub bucket : Bytes → ℕ → ℕ → Governor → Governor × Decision
bucket endpoint cost records g =
    let g₁ = refill g in
    if g.bucket_enabled
    then if ltb g₁.tokens 1
      then limited endpoint g₁
      else admitted endpoint cost records (record g₁ { tokens = g₁.tokens - 1 })
    else admitted endpoint cost records g

-- Part 2: the quarantine, which a request behind its end lifts.
unfoldable pub quarantine : Bytes → ℕ → ℕ → Governor → Governor × Decision
quarantine endpoint cost records g =
    if g.quarantine_armed
    then if leb g.quarantine_until g.quota_used
      then bucket endpoint cost records (record g { quarantine_armed = false })
      else rejected (charged g) 403 quarantined false 0
    else bucket endpoint cost records g

-- The counting at the head of Admit.
abbrev pub counted : Bytes → Governor → Governor
counted endpoint g = record g {
  seq = g.seq + 1;
  metrics = record g.metrics {
    requests_total = g.metrics.requests_total + 1;
    by_endpoint = update g.metrics.by_endpoint endpoint (g.metrics.by_endpoint endpoint + 1);
  };
}

-- Admit
unfoldable pub admit : Bytes → ℤ → ℤ → Governor → Governor × Decision
admit endpoint cost records g =
    let g₁ = counted endpoint g in
    if g₁.quota_spent || leb g₁.quota_limit g₁.quota_used
    then rejected (record g₁ { quota_spent = true }) 503 quota_exhausted false 0
    else quarantine endpoint (clamp cost) (clamp records) g₁
