-- ===== src/Evaluate/Pipeline/Authorized.antt =====
-- What authorizes an action, stated with no order of steps: conditions on the envelope, on the
-- token, and on the checkpoint.
use hacp_sidecar.Common.{String, ◌≡◌, ◌≢◌, Bool, true, false, Option, none, some, [], if◌then◌else◌}
use hacp_sidecar.Common.Int.{ℤ, pos, pos_part, ◌≤ℤ◌, ◌<ℤ◌, ltb_ℤ, add_int64}
use hacp_sidecar.Common.Time.{Time, unix}
use hacp_sidecar.Wire.{
  Bytes, IntentEnvelope, DecisionToken, verify_ed25519, sha256_hex, envelope_payload, token_payload,
}
use hacp_sidecar.Evaluate.Interfaces.{
  CheckpointState, CheckpointContext, RequestContext, effective_clock, resolved,
}
use hacp_sidecar.Evaluate.Pipeline.Checks.{Pipeline, Clock, evaluation_time}

-- The signer's key is known and not revoked, and the signature over the payload verifies with it.
pub record Signed (p : Pipeline) (key_id : String) (payload signature : Bytes) : Type 0 where
  pub key : Bytes
  pub known : p.resolve_key key_id ≡ resolved key
  pub unrevoked : p.revocation.is_key_revoked key_id ≡ false
  pub verified : verify_ed25519 p.crypto key payload signature ≡ true

-- Not later than the expiry and the clock skew together, in the arithmetic of `int64`.
abbrev pub InTime : Pipeline → ℤ → ℤ → Type 0
InTime p expires_at now = now ≤ℤ add_int64 expires_at p.max_clock_skew_seconds

-- The control state, where there is one, is fresh at the request's clock or else the system's.
abbrev pub ControlFresh : Option (Time → Bool) → ℤ → Clock → Type 0
ControlFresh none control_now clock = Unit {0}
ControlFresh (some is_fresh) control_now clock =
    is_fresh (if ltb_ℤ (pos 0) control_now then unix (pos_part control_now) else clock.control_now)
    ≡ true

-- An open, denied or expired checkpoint blocks; one that a system principal resolved does too.
abbrev pub Settled : CheckpointState → String → Type 0
Settled CheckpointState.open_state kind = ⊥
Settled CheckpointState.resolved_deny kind = ⊥
Settled CheckpointState.expired kind = ⊥
Settled CheckpointState.resolved_allow kind = kind ≢ "system"
Settled CheckpointState.unknown kind = Unit {0}
Settled (CheckpointState.other s) kind = Unit {0}

abbrev pub CheckpointClear : Pipeline → Option CheckpointContext → ℤ → Type 0
CheckpointClear p none now = Unit {0}
CheckpointClear p (some cp) now =
    Settled cp.state cp.resolved_by_kind × ((pos 0 <ℤ cp.expires_at) → InTime p cp.expires_at now)

pub record EnvelopeAuthorized (p : Pipeline) (env : IntentEnvelope) (req : RequestContext)
    (clock : Clock) : Type 0 where
  pub fresh : ControlFresh p.control_state (effective_clock req) clock
  pub signed : Signed p env.signer_key_id (envelope_payload env) env.signature
  pub unrevoked : p.revocation.is_envelope_revoked env.envelope_id ≡ false
  pub in_time : InTime p env.expires_at (evaluation_time req clock)
  pub clear : CheckpointClear p req.checkpoint (evaluation_time req clock)

pub record TokenAuthorized (p : Pipeline) (env : IntentEnvelope) (tok : DecisionToken)
    (req : RequestContext) (now : ℤ) : Type 0 where
  pub signed : Signed p tok.signer_key_id (token_payload tok) tok.signature
  pub unrevoked : p.revocation.is_token_revoked tok.token_id ≡ false
  pub in_time : InTime p tok.expires_at now
  pub bound : tok.envelope_id ≡ env.envelope_id
  pub allows : tok.decision ≡ "ALLOW"
  pub proposed : req.proposed_action ≢ []
  pub canonical : Bytes
  pub canonicalized : p.canonicalize_json req.proposed_action ≡ some canonical
  pub hashed : tok.action_hash ≡ sha256_hex p.crypto canonical
  pub matched : p.scope_guard.match_request_constraints tok.constraints req ≡ true
  pub inside : (p.scope_guard.check_boundary env.scope req).0 ≡ true
