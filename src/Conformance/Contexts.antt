-- ===== src/Conformance/Contexts.antt =====
-- cmd/hacp-conformance-runner/main.go: the request context of an evaluation against its input.
use hacp_sidecar.Common.{
  String, ◌≡◌, ◌≢◌, ◌⊎◌, inl, inr, refl, true, false, Option, none, some, [], str_eq, eq_iff,
  Bool-cases,
}
use hacp_sidecar.Common.Int.{pos}
use hacp_sidecar.Common.Strings.{ne_of_eq-false}
use hacp_sidecar.Wire.{Bytes}
use hacp_sidecar.Evaluate.Interfaces.{CheckpointState, CheckpointContext, PolicyContext}
use hacp_sidecar.Conformance.Protocol.{
  InputData, HttpRequestJson, PolicyContextJson, CheckpointJson, Decoder, is_json_null,
}
use hacp_sidecar.Conformance.Inputs.{checkpoint_state, checkpoint_of, or_else}

-- The first of two names, unless it is empty.
abbrev pub FirstGiven : String → String → String → Type 0
FirstGiven a b chosen = ((a ≢ "") × (chosen ≡ a)) ⊎ ((a ≡ "") × (chosen ≡ b))

pub or_else-FirstGiven : (a b : String) → FirstGiven a b (or_else a b)
or_else-FirstGiven a b = elim (Bool-cases (str_eq a "")) [
  | inl empty ↦ rw empty (inr ((eq_iff a "").0 empty, refl))
  | inr given ↦ rw given (inl (ne_of_eq-false a "" given, refl))
]

-- The policy context of the input, and that of an input without one.
pub data PolicyFrom (d : Decoder) (raw : Bytes) : PolicyContext → Type 0 where
  without_policy :
      is_json_null d raw ≡ true
      → PolicyFrom d raw (record {
        clock = pos 0;
        human_required = false;
        human_required_verbs = [];
        consequence_class = "";
        risk_class = "";
      })
  with_policy :
      (j : PolicyContextJson)
      → is_json_null d raw ≡ false
      → d.policy_context raw ≡ some j
      → PolicyFrom d raw (record {
        clock = j.clock;
        human_required = j.human_required;
        human_required_verbs = j.human_required_verbs;
        consequence_class = j.consequence_class;
        risk_class = j.risk_class;
      })

-- What the name of a state stands for.
pub data StateNamed : String → CheckpointState → Type 0 where
  named_unknown : StateNamed "" CheckpointState.unknown
  named_open : StateNamed "OPEN" CheckpointState.open_state
  named_resolved_allow : StateNamed "RESOLVED_ALLOW" CheckpointState.resolved_allow
  named_resolved_deny : StateNamed "RESOLVED_DENY" CheckpointState.resolved_deny
  named_expired : StateNamed "EXPIRED" CheckpointState.expired
  named_other :
      (s : String)
      → (s ≢ "") × (s ≢ "OPEN") × (s ≢ "RESOLVED_ALLOW") × (s ≢ "RESOLVED_DENY") × (s ≢ "EXPIRED")
      → StateNamed s (CheckpointState.other s)

checkpoint_state-StateNamed : (s : String) → StateNamed s (checkpoint_state s)
unfolding checkpoint_state
checkpoint_state-StateNamed s = elim (Bool-cases (str_eq s "")) [
  | inl e ↦ rw ((eq_iff s "").0 e) named_unknown
  | inr n ↦ elim (Bool-cases (str_eq s "OPEN")) [
    | inl e ↦ rw ((eq_iff s "OPEN").0 e) named_open
    | inr o ↦ elim (Bool-cases (str_eq s "RESOLVED_ALLOW")) [
      | inl e ↦ rw ((eq_iff s "RESOLVED_ALLOW").0 e) named_resolved_allow
      | inr a ↦ elim (Bool-cases (str_eq s "RESOLVED_DENY")) [
        | inl e ↦ rw ((eq_iff s "RESOLVED_DENY").0 e) named_resolved_deny
        | inr r ↦ elim (Bool-cases (str_eq s "EXPIRED")) [
          | inl e ↦ rw ((eq_iff s "EXPIRED").0 e) named_expired
          | inr x ↦
              rw (n, o, a, r, x)
                (named_other s (
                  ne_of_eq-false s "" n,
                  ne_of_eq-false s "OPEN" o,
                  ne_of_eq-false s "RESOLVED_ALLOW" a,
                  ne_of_eq-false s "RESOLVED_DENY" r,
                  ne_of_eq-false s "EXPIRED" x,
                ))
        ]
      ]
    ]
  ]
]

-- The checkpoint that a structure of the input describes, under either of two names for four of its parts.
pub record Describes (j : CheckpointJson) (cp : CheckpointContext) : Type 0 where
  pub state_name : String
  pub id : FirstGiven j.id j.checkpoint_id cp.id
  pub chosen : FirstGiven j.state j.status state_name
  pub state : StateNamed state_name cp.state
  pub resolved_by : FirstGiven j.resolved_by j.resolver_principal cp.resolved_by
  pub resolved_by_kind : FirstGiven j.resolved_by_kind j.resolver_principal_kind cp.resolved_by_kind
  pub created_at : cp.created_at ≡ j.created_at
  pub expires_at : cp.expires_at ≡ j.expires_at
  pub resolved_at : cp.resolved_at ≡ j.resolved_at

pub checkpoint_of-Describes : (j : CheckpointJson) → Describes j (checkpoint_of j)
unfolding checkpoint_of
checkpoint_of-Describes j = record {
  state_name = or_else j.state j.status;
  id = or_else-FirstGiven j.id j.checkpoint_id;
  chosen = or_else-FirstGiven j.state j.status;
  state = checkpoint_state-StateNamed (or_else j.state j.status);
  resolved_by = or_else-FirstGiven j.resolved_by j.resolver_principal;
  resolved_by_kind = or_else-FirstGiven j.resolved_by_kind j.resolver_principal_kind;
  created_at = refl;
  expires_at = refl;
  resolved_at = refl;
}

-- The checkpoint of the policy context, where the input has such a one.
abbrev pub InPolicy : Decoder → InputData → Bytes → Type 0
InPolicy d input raw =
    (is_json_null d input.policy_context ≡ false)
    × ((j : PolicyContextJson) × (d.policy_context input.policy_context ≡ some j)
        × (j.checkpoint ≡ raw)
        × (is_json_null d raw ≡ false))

-- The checkpoint of the input, or else that of its policy context, or none.
pub data CheckpointFrom (d : Decoder) (input : InputData) : Option CheckpointContext → Type 0 where
  explicit :
      (j : CheckpointJson) (cp : CheckpointContext)
      → is_json_null d input.checkpoint ≡ false
      → d.checkpoint input.checkpoint ≡ some j
      → Describes j cp
      → CheckpointFrom d input (some cp)
  in_policy :
      (raw : Bytes) (j : CheckpointJson) (cp : CheckpointContext)
      → is_json_null d input.checkpoint ≡ true
      → InPolicy d input raw
      → d.checkpoint raw ≡ some j
      → Describes j cp
      → CheckpointFrom d input (some cp)
  absent :
      is_json_null d input.checkpoint ≡ true
      → ((raw : Bytes) → ¬ InPolicy d input raw)
      → CheckpointFrom d input none

-- The method and the target of the input's request, or those of the conformance route.
pub data HttpFrom (d : Decoder) (raw : Bytes) : HttpRequestJson → Type 0 where
  without_request :
      is_json_null d raw ≡ true
      → HttpFrom d raw (record { method = "EVALUATE"; request_target = "/conformance" })
  with_request :
      (r : HttpRequestJson) (method request_target : String)
      → is_json_null d raw ≡ false
      → d.http_request raw ≡ some r
      → FirstGiven r.method "EVALUATE" method
      → FirstGiven r.request_target "/conformance" request_target
      → HttpFrom d raw (record { method = method; request_target = request_target })
