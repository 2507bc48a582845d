-- ===== src/Governor/Allowance.antt =====
-- What a token allows: as many validations as its request ttl.
use mathlib.Core.Path.{subst}
use integrations_challenge.Prelude.{
  ℕ, zero, suc, ◌+◌, ◌*◌, ◌≤◌, ◌<◌, ◌≡◌, refl, inl, inr, sym, ap, Bool-cases, ◌∙◌, true, false,
  ◌&&◌, Bytes, some, arith, update, update_self, ltb, if◌then◌else◌,
}
use integrations_challenge.Prelude.Int.{ℤ}
use integrations_challenge.Clock.{clamp, vms100_per_vms}
use integrations_challenge.Governor.{Governor, Config, AccessToken, is_positive}
use integrations_challenge.Governor.Token.{
  TokenStatus, token_expired, token_ok, issue_token, validate_token, use_token,
}

-- The state after n validations of one token.
unfoldable pub validated : ℕ → Bytes → Governor → Governor
validated zero value g = g
validated (suc n) value g = (validate_token value (validated n value g)).0

-- A token that n of at most `ttl` validations used, or that expired by its ttl.
data Used (cfg : Config) (value : Bytes) (n : ℕ) (g : Governor) : Type 0 where
  live :
      (t : AccessToken)
      → g.cfg ≡ cfg
      → g.access_tokens value ≡ some t
      → t.requests ≡ n
      → t.expired ≡ false
      → n ≤ clamp cfg.token_request_ttl
      → (ltb 0 t.deadline100 && ltb t.deadline100 g.clock) ≡ false
      → Used cfg value n g
  over :
      (t : AccessToken)
      → g.cfg ≡ cfg
      → g.access_tokens value ≡ some t
      → t.expired ≡ true
      → clamp cfg.token_request_ttl < n
      → Used cfg value n g

issue-Used :
    (mint : ℤ → ℕ → Bytes) (g : Governor)
    → Used g.cfg (issue_token mint g).1 0 (issue_token mint g).0
unfolding issue_token
issue-Used mint g =
    let ttl = g.cfg.token_virtual_ttl_vms in
    let deadline = if is_positive ttl then g.clock + clamp ttl * vms100_per_vms else 0 in
    let early : (ltb 0 deadline && ltb deadline g.clock) ≡ false = ground arith in
    live _ refl (update_self g.access_tokens (mint g.cfg.seed (g.issued_token_count + 1)) _) refl
      refl (omega arith) early

module _ (g : Governor) (t : AccessToken) where
  use_closed : t.expired ≡ true → use_token g t ≡ (t, token_expired)
  unfolding use_token
  use_closed closed = ground arith

  module _ (open_token : t.expired ≡ false) (on : is_positive g.cfg.token_request_ttl ≡ true)
      (early : (ltb 0 t.deadline100 && ltb t.deadline100 g.clock) ≡ false) where
    use_live :
        t.requests < clamp g.cfg.token_request_ttl
        → use_token g t ≡ (record t { requests = t.requests + 1 }, token_ok)
    unfolding use_token
    use_live room = ground arith

    use_last :
        clamp g.cfg.token_request_ttl ≤ t.requests
        → use_token g t ≡ (record t { requests = t.requests + 1; expired = true }, token_expired)
    unfolding use_token
    use_last full = ground arith

validate_known :
    (value : Bytes) (g : Governor) (t : AccessToken)
    → g.access_tokens value ≡ some t
    → validate_token value g ≡ (
      record g { access_tokens = update g.access_tokens value (some (use_token g t).0) },
      (use_token g t).1,
    )
unfolding validate_token
validate_known value g t here = rw (validate_token, here) refl

-- The state that a validation leaves, where its token was t and becomes t'.
stored : Bytes → AccessToken → Governor → Governor
stored value t g = record g { access_tokens = update g.access_tokens value (some t) }

after_known :
    (value : Bytes) (g : Governor) (t t' : AccessToken) (status : TokenStatus)
    → g.access_tokens value ≡ some t
    → use_token g t ≡ (t', status)
    → validate_token value g ≡ (stored value t' g, status)
unfolding stored
after_known value g t t' status here e =
    validate_known value g t here
    ∙ ap (λ (r : AccessToken × TokenStatus). (stored value r.0 g, r.1)) e

-- The result of the next validation, and what it leaves.
NextUse : Config → Bytes → ℕ → Governor → Type 0
NextUse cfg value n g =
    ((validate_token value g).1
      ≡ (if ltb n (clamp cfg.token_request_ttl) then token_ok else token_expired))
    × Used cfg value (suc n) (validate_token value g).0

module _ (cfg : Config) (value : Bytes) (n : ℕ) (g : Governor)
    (on : is_positive cfg.token_request_ttl ≡ true) where
  next_of :
      (t t' : AccessToken) (status : TokenStatus)
      → g.access_tokens value ≡ some t
      → use_token g t ≡ (t', status)
      → status ≡ (if ltb n (clamp cfg.token_request_ttl) then token_ok else token_expired)
      → Used cfg value (suc n) (stored value t' g)
      → NextUse cfg value n g
  unfolding NextUse
  next_of t t' status here e result left =
      let whole = after_known value g t t' status here e in
      (
        ap (λ (r : Governor × TokenStatus). r.1) whole ∙ result,
        subst (λ (r : Governor × TokenStatus). Used cfg value (suc n) r.0) (sym whole) left,
      )

  next-Used : Used cfg value n g → NextUse cfg value n g
  unfolding stored
  next-Used (live t same here used open_token room early) =
      let on' : is_positive g.cfg.token_request_ttl ≡ true =
        ap (λ (c : Config). is_positive c.token_request_ttl) same ∙ on in
      let ttl : clamp g.cfg.token_request_ttl ≡ clamp cfg.token_request_ttl =
        ap (λ (c : Config). clamp c.token_request_ttl) same in
      elim (Bool-cases (ltb n (clamp cfg.token_request_ttl))) [
        | inl more ↦
            let left =
              update_self g.access_tokens value (some (record t { requests = t.requests + 1 })) in
            next_of t _ token_ok here (use_live g t open_token on' early (ground arith))
              (ground arith) (live _ same left (ground arith) open_token (ground arith) early)
        | inr full ↦
            let left =
              update_self g.access_tokens value
                (some (record t { requests = t.requests + 1; expired = true })) in
            next_of t _ token_expired here (use_last g t open_token on' early (ground arith))
              (ground arith) (over _ same left refl (ground arith))
      ]
  next-Used (over t same here closed past) =
      next_of t t token_expired here (use_closed g t closed) (ground arith)
        (over t same (update_self g.access_tokens value (some t)) closed (ground arith))

module _ (mint : ℤ → ℕ → Bytes) (g : Governor)
    (on : is_positive g.cfg.token_request_ttl ≡ true) where
  validated-Used :
      (n : ℕ)
      → Used g.cfg
          (issue_token mint g).1
          n
          (validated n (issue_token mint g).1 (issue_token mint g).0)
  unfolding validated NextUse
  validated-Used zero = issue-Used mint g
  validated-Used (suc n) = (next-Used g.cfg _ n _ on (validated-Used n)).1

  -- Where the request ttl is positive, the validations of a new token pass up to the ttl and each
  -- later one reports that it is expired, as long as the clock stands.
  pub allowance :
      (n : ℕ)
      → let (g', value) = issue_token mint g in
        (validate_token value (validated n value g')).1
        ≡ (if ltb n (clamp g.cfg.token_request_ttl) then token_ok else token_expired)
  unfolding NextUse
  allowance n = (next-Used g.cfg _ n _ on (validated-Used n)).0
