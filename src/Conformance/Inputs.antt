-- ===== src/Conformance/Inputs.antt =====
-- cmd/hacp-conformance-runner/main.go: how `handleEvaluate` makes the arguments of the pipeline.
use hacp_sidecar.Common.{
  String, false, ◌&&◌, ◌||◌, Option, none, some, [], length, ◌==◌, str_eq, if◌then◌else◌,
}
use hacp_sidecar.Common.Int.{pos}
use hacp_sidecar.Common.Time.{Time}
use hacp_sidecar.Common.Utf8.{utf8}
use hacp_sidecar.Wire.{Bytes, IntentEnvelope, DecisionToken}
use hacp_sidecar.Wire.Parsing.{
  Codec, ParseResult, parsed, refused, parse_intent_envelope, parse_decision_token,
}
use hacp_sidecar.Evaluate.Interfaces.{
  CheckpointState, CheckpointContext, PolicyContext, RequestContext, invalid_envelope,
  invalid_action, checkpoint_invalid,
}
use hacp_sidecar.Conformance.Protocol.{
  InputData, HttpRequestJson, PolicyContextJson, CheckpointJson, Decoder, is_json_null, is_given,
  verdict, error_response, http_request_parse, Step, reply, next, ◌>>=◌, or_reply,
}

unfoldable pub or_verdict {ℓ} : {A : Type ℓ} → ParseResult A → Step A → Step A
or_verdict (parsed a) s = next a
or_verdict (refused e) s = s

unfoldable pub read_envelope : Codec → Bytes → Step IntentEnvelope
unfolding parse_intent_envelope or_verdict
read_envelope codec raw =
    or_verdict (parse_intent_envelope codec raw) (reply (verdict "DENY" invalid_envelope))

unfoldable pub given_token : ParseResult DecisionToken → Step (Option DecisionToken)
given_token (parsed tok) = next (some tok)
given_token (refused e) = reply (verdict "DENY" invalid_action)

unfoldable pub read_token : Decoder → Codec → Bytes → Step (Option DecisionToken)
unfolding is_json_null parse_decision_token given_token
read_token d codec raw =
    if is_json_null d raw then next none else given_token (parse_decision_token codec raw)

abbrev pub zero_policy : PolicyContext
zero_policy = record {
  clock = pos 0;
  human_required = false;
  human_required_verbs = [];
  consequence_class = "";
  risk_class = "";
}

abbrev pub policy_of : PolicyContextJson → PolicyContext
policy_of pc = record {
  clock = pc.clock;
  human_required = pc.human_required;
  human_required_verbs = pc.human_required_verbs;
  consequence_class = pc.consequence_class;
  risk_class = pc.risk_class;
}

unfoldable pub read_policy : Decoder → Bytes → Step PolicyContext
unfolding is_json_null
read_policy d raw =
    if is_given d raw
    then (do
      pc ← or_reply (d.policy_context raw) (verdict "DENY" invalid_action)
      next (policy_of pc))
    else next zero_policy

-- The explicit checkpoint, or else the one of the policy context.
unfoldable pub checkpoint_raw : Decoder → InputData → Bytes
unfolding is_json_null
checkpoint_raw d input =
    if (length (d.trim_space input.checkpoint) == 0 || is_json_null d input.checkpoint)
      && is_given d input.policy_context
    then elim (d.policy_context input.policy_context) [
      | none ↦ input.checkpoint
      | some pc ↦ if is_given d pc.checkpoint then pc.checkpoint else input.checkpoint
    ]
    else input.checkpoint

abbrev pub or_else : String → String → String
or_else a b = if str_eq a "" then b else a

-- `CheckpointState(state)`.
unfoldable pub checkpoint_state : String → CheckpointState
checkpoint_state s =
    if str_eq s ""
    then CheckpointState.unknown
    else if str_eq s "OPEN"
    then CheckpointState.open_state
    else if str_eq s "RESOLVED_ALLOW"
    then CheckpointState.resolved_allow
    else if str_eq s "RESOLVED_DENY"
    then CheckpointState.resolved_deny
    else if str_eq s "EXPIRED"
    then CheckpointState.expired
    else CheckpointState.other s

unfoldable pub checkpoint_of : CheckpointJson → CheckpointContext
unfolding checkpoint_state
checkpoint_of cp = record {
  id = or_else cp.id cp.checkpoint_id;
  state = checkpoint_state (or_else cp.state cp.status);
  resolved_by = or_else cp.resolved_by cp.resolver_principal;
  resolved_by_kind = or_else cp.resolved_by_kind cp.resolver_principal_kind;
  created_at = cp.created_at;
  expires_at = cp.expires_at;
  resolved_at = cp.resolved_at;
}

unfoldable pub read_checkpoint : Decoder → InputData → Step (Option CheckpointContext)
unfolding checkpoint_raw checkpoint_of is_json_null
read_checkpoint d input =
    if is_given d (checkpoint_raw d input)
    then (do
      cp ← or_reply (d.checkpoint (checkpoint_raw d input)) (verdict "DENY" checkpoint_invalid)
      next (some (checkpoint_of cp)))
    else next none

abbrev pub default_http_request : HttpRequestJson
default_http_request = record { method = "EVALUATE"; request_target = "/conformance" }

unfoldable pub read_http_request : Decoder → Bytes → Step HttpRequestJson
unfolding is_json_null error_response
read_http_request d raw = if is_json_null d raw then next default_http_request else do
  r ← or_reply (d.http_request raw) (error_response http_request_parse)
  next record {
    method = or_else r.method default_http_request.method;
    request_target = or_else r.request_target default_http_request.request_target;
  }

-- The arguments of `Evaluate`.
pub record Arguments : Type 0 where
  pub envelope : IntentEnvelope
  pub token : Option DecisionToken
  pub context : RequestContext

unfoldable pub read_arguments : Decoder → Codec → String → Time → InputData → Step Arguments
unfolding read_envelope read_token read_policy read_checkpoint read_http_request
read_arguments d codec vector_id now input = do
  env ← read_envelope codec input.intent_envelope
  tok ← read_token d codec input.decision_token
  policy ← read_policy d input.policy_context
  checkpoint ← read_checkpoint d input
  http ← read_http_request d input.http_request
  next record {
    envelope = env;
    token = tok;
    context = record {
      method = http.method;
      path = utf8 http.request_target;
      tool_name = "";
      payload_hash = "";
      timestamp = now;
      request_id = vector_id;
      latency_ns = pos 0;
      clock = policy.clock;
      proposed_action = input.proposed_action;
      policy = some policy;
      checkpoint = checkpoint;
    };
  }
