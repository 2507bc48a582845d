-- ===== src/Governor/Token.antt =====
-- internal/simclock/token.go: access tokens. The token's text comes from sha256, which is a
-- parameter: `mint` gives the text of the n-th token of a seed.
use integrations_challenge.Prelude.{
  ℕ, ◌+◌, ◌*◌, true, false, ◌&&◌, Bytes, none, some, ltb, if◌then◌else◌, update,
}
use integrations_challenge.Prelude.Int.{ℤ}
use integrations_challenge.Clock.{clamp, vms100_per_vms}
use integrations_challenge.Governor.{Governor, AccessToken, is_positive}

pub data TokenStatus : Type 0 where
  token_invalid token_expired token_ok : TokenStatus

-- IssueToken
unfoldable pub issue_token : (ℤ → ℕ → Bytes) → Governor → Governor × Bytes
issue_token mint g =
    let n = g.issued_token_count + 1 in
    let value = mint g.cfg.seed n in
    let ttl = g.cfg.token_virtual_ttl_vms in
    let t : AccessToken = record {
      requests = 0;
      deadline100 = if is_positive ttl then g.clock + clamp ttl * vms100_per_vms else 0;
      expired = false;
    } in
    (
      record g { issued_token_count = n; access_tokens = update g.access_tokens value (some t) },
      value,
    )

-- The decision of ValidateToken on a known token: the token afterwards and the status.
unfoldable pub use_token : Governor → AccessToken → AccessToken × TokenStatus
use_token g t =
    let requests = t.requests + 1 in
    if t.expired
    then (t, token_expired)
    else if ltb 0 t.deadline100 && ltb t.deadline100 g.clock
    then (record t { expired = true }, token_expired)
    else if is_positive g.cfg.token_request_ttl && ltb (clamp g.cfg.token_request_ttl) requests
    then (record t { requests = requests; expired = true }, token_expired)
    else (record t { requests = requests }, token_ok)

-- ValidateToken
unfoldable pub validate_token : Bytes → Governor → Governor × TokenStatus
validate_token value g = elim (g.access_tokens value) [
  | none ↦ (g, token_invalid)
  | some t ↦
      let (t', status) = use_token g t in
      (record g { access_tokens = update g.access_tokens value (some t') }, status)
]
