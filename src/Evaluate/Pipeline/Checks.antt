-- ===== src/Evaluate/Pipeline/Checks.antt =====
-- internal/evaluate/pipeline.go: the pipeline's parts and the steps that only decide, steps 1 to 6
-- on the envelope and steps 8 to 16 on the token.
use hacp_sidecar.Common.{
  String, Bool, true, false, not, ◌&&◌, Option, none, some, length, str_eq, ◌==◌, if◌then◌else◌,
}
use hacp_sidecar.Common.Int.{ℤ, pos, pos_part, ltb_ℤ, leb_ℤ, add_int64}
use hacp_sidecar.Common.Time.{Time, unix}
use hacp_sidecar.Wire.{
  Bytes, IntentEnvelope, DecisionToken, Crypto, verify_ed25519, sha256_hex, envelope_payload,
  token_payload,
}
use hacp_sidecar.Evaluate.Interfaces.{
  Decision, deny_decision, checkpoint_decision, Reason, EvalError, CheckpointState,
  CheckpointContext, RequestContext, effective_clock, KeyResult, resolved, nil_key, key_error,
  RevocationStore, ScopeGuard, control_state_stale, stale_control_state, checkpoint_timeout,
  checkpoint_open, checkpoint_denied, self_approval_denied, signature_failure, key_revoked,
  envelope_revoked, envelope_expired, token_revoked, token_expired, envelope_binding, policy_denied,
  invalid_action, scope_exceeded, checkpoint_expired, checkpoint_still_open, resolved_with_denial,
  self_approval, checkpoint_expired_at, envelope_key_not_found, envelope_key_revoked,
  envelope_is_revoked, envelope_signature_invalid, envelope_expired_at, token_key_not_found,
  token_key_revoked, token_is_revoked, token_signature_invalid, token_expired_at,
  envelope_id_mismatch, token_denies, token_requires_checkpoint, unsupported_decision,
  missing_proposed_action, canonicalization_failed, action_hash_mismatch, constraints_not_matched,
  boundary_exceeded, reason_human_required,
}

-- The pipeline without the two parts that change: the ledger and the provenance writer.
-- `canonicalize_json` is `wire.CanonicalizeJSON`, with `none` for its error.
pub record Pipeline : Type 0 where
  pub resolve_key : String → KeyResult
  pub revocation : RevocationStore
  pub scope_guard : ScopeGuard
  pub control_state : Option (Time → Bool)
  pub crypto : Crypto
  pub canonicalize_json : Bytes → Option Bytes
  pub max_clock_skew_seconds : ℤ
  pub max_revocation_staleness_ms : ℤ

unfoldable pub new_pipeline :
    (String → KeyResult) → RevocationStore → ScopeGuard → Crypto → (Bytes → Option Bytes) → Pipeline
new_pipeline keys revocation guard crypto canonicalize = record {
  resolve_key = keys;
  revocation = revocation;
  scope_guard = guard;
  control_state = none;
  crypto = crypto;
  canonicalize_json = canonicalize;
  max_clock_skew_seconds = pos 5;
  max_revocation_staleness_ms = pos 5000;
}

-- The two readings of the system clock that an evaluation may make.
pub record Clock : Type 0 where
  pub control_now : Time
  pub unix_now : ℤ

-- A step returns early, or goes on with a value.
pub data Check {ℓ} (A : Type ℓ) : Type ℓ where
  stop : Decision → Check A
  go : A → Check A

infixl 5 ◌>>=◌ ◌>>◌
abbrev pub ◌>>=◌ {ℓ κ} : {A : Type ℓ} {B : Type κ} → Check A → (A → Check B) → Check B
stop d >>= f = stop d
go a >>= f = f a

abbrev pub ◌>>◌ {ℓ} : {B : Type ℓ} → Check (Unit {0}) → Check B → Check B
m >> k = m >>= λ _. k

unfoldable pub deny_if : Bool → Reason → EvalError → Check (Unit {0})
deny_if b reason err = if b then stop (deny_decision reason err) else go tt

unfoldable pub pause_if : Bool → Reason → EvalError → Check (Unit {0})
pause_if b reason err = if b then stop (checkpoint_decision reason err) else go tt

-- The freshness of the distributed control state, for a clock that `time.Unix` takes without wrapping around.
unfoldable pub check_control_state : Pipeline → RequestContext → Clock → Check (Unit {0})
check_control_state p req clock = elim p.control_state [
  | none ↦ go tt
  | some is_fresh ↦
      let control_now = effective_clock req in
      let control_time : Time =
        if ltb_ℤ (pos 0) control_now then unix (pos_part control_now) else clock.control_now in
      deny_if (not (is_fresh control_time)) control_state_stale stale_control_state
]

-- The switch over the checkpoint, before any credential is looked at.
unfoldable pub switch_checkpoint : CheckpointState → CheckpointContext → ℤ → Check (Unit {0})
switch_checkpoint CheckpointState.open_state cp now = do
  deny_if (ltb_ℤ (pos 0) cp.expires_at && ltb_ℤ cp.expires_at now) checkpoint_timeout
      checkpoint_expired
  stop (checkpoint_decision checkpoint_open checkpoint_still_open)
switch_checkpoint CheckpointState.resolved_deny cp now =
    stop (deny_decision checkpoint_denied resolved_with_denial)
switch_checkpoint CheckpointState.expired cp now =
    stop (deny_decision checkpoint_timeout checkpoint_expired)
switch_checkpoint CheckpointState.resolved_allow cp now =
    deny_if (str_eq cp.resolved_by_kind "system") self_approval_denied self_approval
switch_checkpoint CheckpointState.unknown cp now = go tt
switch_checkpoint (CheckpointState.other s) cp now = go tt

unfoldable pub check_unresolved : Option CheckpointContext → ℤ → Check (Unit {0})
unfolding switch_checkpoint
check_unresolved none now = go tt
check_unresolved (some cp) now = switch_checkpoint cp.state cp now

-- Step 2, and step 8 for a token: the signer's key.
unfoldable pub check_resolved : Pipeline → KeyResult → String → EvalError → EvalError → Check Bytes
check_resolved p key_error key_id not_found revoked =
    stop (deny_decision signature_failure not_found)
check_resolved p nil_key key_id not_found revoked = stop (deny_decision signature_failure not_found)
check_resolved p (resolved key) key_id not_found revoked = do
  deny_if (p.revocation.is_key_revoked key_id) key_revoked revoked
  go key

unfoldable pub check_key : Pipeline → String → EvalError → EvalError → Check Bytes
unfolding check_resolved
check_key p key_id not_found revoked =
    check_resolved p (p.resolve_key key_id) key_id not_found revoked

-- Steps 2 to 4.
unfoldable pub check_envelope_signature : Pipeline → IntentEnvelope → Check (Unit {0})
check_envelope_signature p env = do
  key ←
      check_key p env.signer_key_id (envelope_key_not_found env.signer_key_id)
        (envelope_key_revoked env.signer_key_id)
  deny_if (not (verify_ed25519 p.crypto key (envelope_payload env) env.signature)) signature_failure
      envelope_signature_invalid
  deny_if (p.revocation.is_envelope_revoked env.envelope_id) envelope_revoked
      (envelope_is_revoked env.envelope_id)

-- `now` of step 5.
unfoldable pub evaluation_time : RequestContext → Clock → ℤ
evaluation_time req clock =
    let now = effective_clock req in if leb_ℤ now (pos 0) then clock.unix_now else now

-- Steps 5 and 11: `now > expires_at + skew`, on `int64`.
unfoldable pub is_expired : Pipeline → ℤ → ℤ → Bool
is_expired p expires_at now = ltb_ℤ (add_int64 expires_at p.max_clock_skew_seconds) now

abbrev pub is_state_expired : CheckpointState → Bool
is_state_expired CheckpointState.expired = true
is_state_expired _ = false

abbrev pub is_state_denied : CheckpointState → Bool
is_state_denied CheckpointState.resolved_deny = true
is_state_denied _ = false

abbrev pub is_state_open : CheckpointState → Bool
is_state_open CheckpointState.open_state = true
is_state_open _ = false

abbrev pub is_state_allowed : CheckpointState → Bool
is_state_allowed CheckpointState.resolved_allow = true
is_state_allowed _ = false

-- Step 6.
unfoldable pub check_checkpoint : Pipeline → Option CheckpointContext → ℤ → Check (Unit {0})
check_checkpoint p none now = go tt
check_checkpoint p (some cp) now = do
  deny_if (is_state_expired cp.state) checkpoint_timeout checkpoint_expired
  deny_if (ltb_ℤ (pos 0) cp.expires_at && is_expired p cp.expires_at now) checkpoint_timeout
      (checkpoint_expired_at now cp.expires_at)
  deny_if (is_state_denied cp.state) checkpoint_denied resolved_with_denial
  pause_if (is_state_open cp.state) checkpoint_open checkpoint_still_open
  deny_if (is_state_allowed cp.state && str_eq cp.resolved_by_kind "system") self_approval_denied
      self_approval

-- Steps 1 to 6, for an envelope and a request that are not nil.
unfoldable pub check_envelope : Pipeline → IntentEnvelope → RequestContext → Clock → Check ℤ
check_envelope p env req clock = do
  check_control_state p req clock
  check_unresolved req.checkpoint (effective_clock req)
  check_envelope_signature p env
  let now = evaluation_time req clock
  deny_if (is_expired p env.expires_at now) envelope_expired
      (envelope_expired_at now env.expires_at)
  check_checkpoint p req.checkpoint now
  go now

-- Steps 8 to 10.
unfoldable pub check_token_signature : Pipeline → DecisionToken → Check (Unit {0})
check_token_signature p tok = do
  key ←
      check_key p tok.signer_key_id (token_key_not_found tok.signer_key_id)
        (token_key_revoked tok.signer_key_id)
  deny_if (not (verify_ed25519 p.crypto key (token_payload tok) tok.signature)) signature_failure
      token_signature_invalid
  deny_if (p.revocation.is_token_revoked tok.token_id) token_revoked (token_is_revoked tok.token_id)

-- Step 13.
unfoldable pub check_decision : DecisionToken → Check (Unit {0})
check_decision tok = do
  deny_if (str_eq tok.decision "DENY") policy_denied token_denies
  pause_if (str_eq tok.decision "CHECKPOINT") reason_human_required token_requires_checkpoint
  deny_if (not (str_eq tok.decision "ALLOW")) policy_denied (unsupported_decision tok.decision)

-- Step 14.
unfoldable pub compare_hash : Pipeline → DecisionToken → Option Bytes → Check (Unit {0})
compare_hash p tok none = stop (deny_decision invalid_action canonicalization_failed)
compare_hash p tok (some canonical) =
    let computed = sha256_hex p.crypto canonical in
    deny_if (not (str_eq tok.action_hash computed)) signature_failure
      (action_hash_mismatch computed tok.action_hash)

unfoldable pub check_action_hash : Pipeline → DecisionToken → RequestContext → Check (Unit {0})
unfolding compare_hash
check_action_hash p tok req = do
  deny_if (length req.proposed_action == 0) invalid_action missing_proposed_action
  compare_hash p tok (p.canonicalize_json req.proposed_action)

-- Steps 8 to 16.
unfoldable pub check_token :
    Pipeline → IntentEnvelope → DecisionToken → RequestContext → ℤ → Check (Unit {0})
check_token p env tok req now = do
  check_token_signature p tok
  deny_if (is_expired p tok.expires_at now) token_expired (token_expired_at now tok.expires_at)
  deny_if (not (str_eq tok.envelope_id env.envelope_id)) envelope_binding
      (envelope_id_mismatch tok.envelope_id env.envelope_id)
  check_decision tok
  check_action_hash p tok req
  deny_if (not (p.scope_guard.match_request_constraints tok.constraints req)) scope_exceeded
      constraints_not_matched
  let (boundary_ok, boundary_reason) = p.scope_guard.check_boundary env.scope req
  deny_if (not boundary_ok) boundary_reason boundary_exceeded
