-- ===== src/Evaluate/Interfaces.antt =====
-- internal/evaluate/interfaces.go and control_state.go: outcomes, reasons, the request, and what
-- the pipeline needs of its parts.
use hacp_sidecar.Common.{String, Bool, true, false, Option, none, some, List, if◌then◌else◌}
use hacp_sidecar.Common.Int.{ℤ, pos, ltb_ℤ}
use hacp_sidecar.Common.Time.{Time}
use hacp_sidecar.Wire.{Bytes, IntentEnvelope, DecisionToken, ScopeGrant, Constraints}

pub data Outcome : Type 0 where
  allow deny checkpoint : Outcome

-- The reason codes; `unspecified` is the empty string of an ALLOW decision.
pub data Reason : Type 0 where
  unspecified : Reason
  invalid_envelope invalid_action key_revoked signature_failure envelope_revoked : Reason
  token_revoked control_state_stale envelope_expired token_expired scope_exceeded : Reason
  boundary_crossing unknown_attribute budget_exhausted traceability_fail policy_denied : Reason
  reason_human_required checkpoint_open checkpoint_timeout checkpoint_denied checkpoint_invalid :
      Reason
  self_approval_denied envelope_binding principal_binding : Reason

-- The errors of a decision: a constructor for each text, with the values that the text names.
pub data EvalError : Type 0 where
  nil_envelope nil_request stale_control_state : EvalError
  checkpoint_expired checkpoint_still_open resolved_with_denial self_approval : EvalError
  checkpoint_expired_at : ℤ → ℤ → EvalError
  envelope_key_not_found envelope_key_revoked envelope_is_revoked : String → EvalError
  envelope_signature_invalid : EvalError
  envelope_expired_at : ℤ → ℤ → EvalError
  human_authorization_required no_autonomy_budget max_actions_zero : EvalError
  autonomous_action_exceeds_scope token_required : EvalError
  autonomy_budget_exhausted : String → EvalError
  token_key_not_found token_key_revoked token_is_revoked : String → EvalError
  token_signature_invalid : EvalError
  token_expired_at : ℤ → ℤ → EvalError
  envelope_id_mismatch : String → String → EvalError
  token_denies token_requires_checkpoint : EvalError
  unsupported_decision : String → EvalError
  missing_proposed_action canonicalization_failed : EvalError
  action_hash_mismatch : String → String → EvalError
  constraints_not_matched boundary_exceeded : EvalError
  token_budget_exhausted : String → ℤ → EvalError
  provenance_failed : EvalError

pub record Decision : Type 0 where
  pub outcome : Outcome
  pub allow : Bool
  pub reason_code : Reason
  pub error : Option EvalError

unfoldable pub allow_decision : Decision
allow_decision = record {
  outcome = Outcome.allow;
  allow = true;
  reason_code = unspecified;
  error = none;
}

unfoldable pub deny_decision : Reason → EvalError → Decision
deny_decision reason err = record {
  outcome = Outcome.deny;
  allow = false;
  reason_code = reason;
  error = some err;
}

unfoldable pub checkpoint_decision : Reason → EvalError → Decision
checkpoint_decision reason err = record {
  outcome = Outcome.checkpoint;
  allow = false;
  reason_code = reason;
  error = some err;
}

-- `type CheckpointState string`: its constants, and any other text.
pub data CheckpointState : Type 0 where
  unknown open_state resolved_allow resolved_deny expired : CheckpointState
  other : String → CheckpointState

pub record CheckpointContext : Type 0 where
  pub id : String
  pub state : CheckpointState
  pub resolved_by : String
  pub resolved_by_kind : String
  pub created_at : ℤ
  pub expires_at : ℤ
  pub resolved_at : ℤ

pub record PolicyContext : Type 0 where
  pub clock : ℤ
  pub human_required : Bool
  pub human_required_verbs : List String
  pub consequence_class : String
  pub risk_class : String

pub record RequestContext : Type 0 where
  pub method : String
  pub path : Bytes
  pub tool_name : String
  pub payload_hash : String
  pub timestamp : Time
  pub request_id : String
  pub latency_ns : ℤ
  pub clock : ℤ
  pub proposed_action : Bytes
  pub policy : Option PolicyContext
  pub checkpoint : Option CheckpointContext

-- The receiver is not nil where the pipeline calls these two methods.
unfoldable pub effective_clock : RequestContext → ℤ
effective_clock r = elim r.policy [
  | none ↦ r.clock
  | some policy ↦ if ltb_ℤ (pos 0) policy.clock then policy.clock else r.clock
]

unfoldable pub human_required : RequestContext → Bool
human_required r = elim r.policy [ none ↦ false | some policy ↦ policy.human_required ]

-- What `ResolveKey` returns: a key, a nil key without an error, or an error.
pub data KeyResult : Type 0 where
  resolved : Bytes → KeyResult
  nil_key : KeyResult
  key_error : KeyResult

pub record RevocationStore : Type 0 where
  pub is_key_revoked : String → Bool
  pub is_envelope_revoked : String → Bool
  pub is_token_revoked : String → Bool

pub record ScopeGuard : Type 0 where
  pub match_request_constraints : Option Constraints → RequestContext → Bool
  pub check_boundary : Option ScopeGrant → RequestContext → Bool × Reason

-- What `Accept` does with the writer's state: it records the event, refuses with an error, or
-- panics.
pub data Accepted (P : Type 0) : Type 0 where
  accepted : P → Accepted P
  refused : P → Accepted P
  panicked : Accepted P

pub record ProvenanceWriter (P : Type 0) : Type 0 where
  pub accept : P → IntentEnvelope → Option DecisionToken → RequestContext → Accepted P
