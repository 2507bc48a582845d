-- ===== src/Governor/Inject.antt =====
-- internal/simclock/governor.go: the fault injectors InjectFault, InjectPermanent and
-- ApplyThenFail. The FNV-1a hash of the standard library is written out.
use Prim.Native.Nat.{bit_xor}
use integrations_challenge.Prelude.{
  ℕ, zero, suc, ◌+◌, ◌*◌, ◌/◌, ◌%◌, ◌^◌, Bool, true, false, not, ◌&&◌, ◌||◌, [], ◌∷◌, ◌++◌, Bytes,
  Option, none, some, ◌==◌, if◌then◌else◌, update,
}
use integrations_challenge.Prelude.Int.{ℤ, pos, to_u64, leb_ℤ}
use integrations_challenge.Clock.{clamp}
use integrations_challenge.Governor.{Governor, Code, rate_limited, unavailable, permanent_transport}

-- A round of FNV-1a over 64 bits.
abbrev fnv_byte : ℕ → ℕ → ℕ
fnv_byte h b = bit_xor h b * 1099511628211 % 2 ^ 64

fnv1a : ℕ → Bytes → ℕ
fnv1a h [] = h
fnv1a h (b ∷ bs) = fnv1a (fnv_byte h b) bs

-- binary.LittleEndian.PutUint64
little_endian : ℕ → ℕ → Bytes
little_endian zero n = []
little_endian (suc k) n = n % 256 ∷ little_endian k (n / 256)

-- signatureHash
unfoldable pub signature_hash : ℤ → Bytes → ℕ → ℕ
unfolding fnv1a little_endian
signature_hash seed sig attempt =
    fnv1a 14695981039346656037
      (little_endian 8 (to_u64 seed) ++ 0x1f ∷ (sig ++ 0x1f ∷ little_endian 8 attempt))

-- A fault: its status, code and whether it may be retried. `none` is `ok == false`.
pub record Fault : Type 0 where
  pub status : ℕ
  pub code : Code
  pub retriable : Bool

abbrev pub fault_429 : Fault
fault_429 = record { status = 429; code = rate_limited; retriable = true }

abbrev pub permanent_fault : Fault
permanent_fault = record { status = 503; code = permanent_transport; retriable = false }

abbrev fault_503 : Fault
fault_503 = record { status = 503; code = unavailable; retriable = true }

-- `g.sigAttempts[sig] = attempt + 1`
abbrev pub delivered : Bytes → Governor → Governor
delivered sig g = record g { sig_attempts = update g.sig_attempts sig (g.sig_attempts sig + 1) }

abbrev pub count_429 : Governor → Governor
count_429 g = record g {
  metrics = record g.metrics { rate_limited_count = g.metrics.rate_limited_count + 1 };
}

abbrev pub count_5xx : Governor → Governor
count_5xx g = record g {
  metrics = record g.metrics { five_xx_injected = g.metrics.five_xx_injected + 1 };
}

-- The switch on the hash of a first delivery.
unfoldable pub first_fault : ℕ → Governor → Governor × Option Fault
first_fault h g =
    if h % 23 == 0
    then (count_429 g, some fault_429)
    else if h % 37 == 0
    then (count_5xx g, some fault_503)
    else (g, none)

-- InjectFault
unfoldable pub inject_fault : Bytes → Governor → Governor × Option Fault
inject_fault sig g =
    if not g.cfg.chaos
    then (g, none)
    else if not (g.sig_attempts sig == 0)
    then (delivered sig g, none)
    else first_fault (signature_hash g.cfg.seed sig (g.sig_attempts sig)) (delivered sig g)

-- strings.Contains
starts_with : Bytes → Bytes → Bool
starts_with s [] = true
starts_with [] (d ∷ t) = false
starts_with (c ∷ s) (d ∷ t) = (c == d) && starts_with s t

unfoldable pub contains : Bytes → Bytes → Bool
unfolding starts_with
contains [] t = starts_with [] t
contains (c ∷ s) t = starts_with (c ∷ s) t || contains s t

abbrev pub is_nil : Bytes → Bool
is_nil [] = true
is_nil (c ∷ s) = false

-- The request counts for the permanent injector.
abbrev pub is_matching : Bytes → Governor → Bool
is_matching path g = is_nil g.cfg.permanent_fault_path || contains path g.cfg.permanent_fault_path

-- InjectPermanent
unfoldable pub inject_permanent : Bytes → Governor → Governor × Option Fault
inject_permanent path g =
    let n = g.permanent_requests + 1 in
    let g₁ = record g { permanent_requests = n } in
    let g₂ = record g₁ {
      permanent_fired = true;
      metrics = record g₁.metrics { permanent_injected = g₁.metrics.permanent_injected + 1 };
    } in
    if leb_ℤ g.cfg.permanent_fault_at (pos 0)
    then (g, none)
    else if not (is_matching path g)
    then (g, none)
    else if g.permanent_fired
    then (g, none)
    else if not (n == clamp g.cfg.permanent_fault_at)
    then (g₁, none)
    else (g₂, some permanent_fault)

-- ApplyThenFail
unfoldable pub apply_then_fail : Bytes → Governor → Governor × Bool
apply_then_fail sig g =
    let fails = signature_hash g.cfg.seed sig (g.sig_attempts sig) % 17 == 0 in
    if not g.cfg.chaos
    then (g, false)
    else if g.apply_fail_fired
    then (g, false)
    else if not (g.sig_attempts sig == 0)
    then (delivered sig g, false)
    else if not fails
    then (delivered sig g, false)
    else (count_5xx (record (delivered sig g) { apply_fail_fired = true }), true)
