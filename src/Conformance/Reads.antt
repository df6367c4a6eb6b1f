-- ===== src/Conformance/Reads.antt =====
-- cmd/hacp-conformance-runner/main.go: what the input is like where the pipeline is asked.
use hacp_sidecar.Common.{
  String, ◌≡◌, ◌⊎◌, sym, eq_iff, [], length, ◌==◌, inl, inr, refl, ap, subst, true, false, Option,
  none, some, arith, if◌then◌else◌, Bool-cases,
}
use hacp_sidecar.Common.Time.{Time}
use hacp_sidecar.Wire.{Bytes, DecisionToken}
use hacp_sidecar.Wire.Parsing.{
  Codec, ParseResult, parsed, refused, parse_intent_envelope, parse_decision_token,
}
use hacp_sidecar.Conformance.Protocol.{
  InputData, EnvelopePreflight, ActionPreflight, PolicyPreflight, Decoder, Response, reply, next,
  or_reply, is_json_null,
}
use hacp_sidecar.Conformance.Steps.{bind_next, next_injective, or_reply_next}
use hacp_sidecar.Common.Int.{pos}
use hacp_sidecar.Common.Strings.{contains}
use hacp_sidecar.Common.Utf8.{utf8}
use hacp_sidecar.Evaluate.Interfaces.{PolicyContext, policy_denied}
use hacp_sidecar.Conformance.Protocol.{HttpRequestJson, verdict}
use hacp_sidecar.Conformance.Contexts.{PolicyFrom, CheckpointFrom, HttpFrom}
use hacp_sidecar.Conformance.Parts.{
  read_policy-PolicyFrom, read_checkpoint-CheckpointFrom, read_http_request-HttpFrom,
}
use hacp_sidecar.Conformance.Preflight.{
  preflight, policy_preflight, no_policy, check_human, needs_human,
}
use hacp_sidecar.Conformance.Inputs.{
  Arguments, or_verdict, given_token, read_envelope, read_token, read_policy, read_checkpoint,
  read_http_request, read_arguments,
}

-- The policy of the preflight, and that of an input without one, which names no verb.
abbrev PreflightPolicy : Decoder → Bytes → PolicyPreflight → Type 0
PreflightPolicy d raw policy =
    ((length raw ≡ 0) × (policy.human_required_verbs ≡ [])) ⊎ (d.policy_preflight raw ≡ some policy)

-- The preflight went on: the three structures decode, and a system principal asks for no verb that the policy
-- says needs a human.
pub record Preflighted (d : Decoder) (input : InputData) : Type 0 where
  pub envelope : EnvelopePreflight
  pub action : ActionPreflight
  pub policy : PolicyPreflight
  pub envelope_decoded : d.envelope_preflight input.intent_envelope ≡ some envelope
  pub action_decoded : d.action_preflight input.proposed_action ≡ some action
  pub policy_decoded : PreflightPolicy d input.policy_context policy
  pub unattended :
      envelope.principal_kind ≡ "system" → contains action.verb policy.human_required_verbs ≡ false

check_human_next :
    (env : EnvelopePreflight) (action : ActionPreflight) (policy : PolicyPreflight)
    → check_human env action policy ≡ next tt
    → env.principal_kind ≡ "system"
    → contains action.verb policy.human_required_verbs ≡ false
unfolding check_human needs_human
check_human_next env action policy h system =
    ground (arith, h, (eq_iff env.principal_kind "system").1 system)

policy_preflight_next :
    (d : Decoder) (raw : Bytes) (policy : PolicyPreflight)
    → policy_preflight d raw ≡ next policy
    → PreflightPolicy d raw policy
unfolding policy_preflight
policy_preflight_next d raw policy h = elim (Bool-cases (length raw == 0)) [
  | inl nothing ↦
      let this : no_policy ≡ policy =
        next_injective no_policy policy (ground (arith, nothing, h)) in
      inl (ground (arith, nothing), sym (ap (λ q. q.human_required_verbs) this))
  | inr something ↦ inr (
      or_reply_next (d.policy_preflight raw) (verdict "DENY" policy_denied) policy
        (ground (arith, something, h)))
]

pub preflight-Preflighted :
    (d : Decoder) (input : InputData) → preflight d input ≡ next tt → Preflighted d input
unfolding preflight
preflight-Preflighted d input h =
    let (env, e, h1) = bind_next (or_reply (d.envelope_preflight input.intent_envelope) _) _ tt h in
    let (action, a, h2) =
      bind_next (or_reply (d.action_preflight input.proposed_action) _) _ tt h1 in
    let (policy, p, h3) = bind_next (policy_preflight d input.policy_context) _ tt h2 in
    record {
      envelope = env;
      action = action;
      policy = policy;
      envelope_decoded = or_reply_next (d.envelope_preflight input.intent_envelope) _ env e;
      action_decoded = or_reply_next (d.action_preflight input.proposed_action) _ action a;
      policy_decoded = policy_preflight_next d input.policy_context policy p;
      unattended = check_human_next env action policy h3;
    }

-- The token of the arguments is the parsed one, and none is a null or nothing in the input.
abbrev pub TokenFrom : Decoder → Codec → Bytes → Option DecisionToken → Type 0
TokenFrom d codec raw none = is_json_null d raw ≡ true
TokenFrom d codec raw (some tok) = parse_decision_token codec raw ≡ parsed tok

or_verdict_next {ℓ} :
    {A : Type ℓ} (o : ParseResult A) (r : Response) (a : A)
    → or_verdict o (reply r) ≡ next a
    → o ≡ parsed a
unfolding or_verdict
or_verdict_next (parsed b) r a h = ap parsed (next_injective b a h)
or_verdict_next (refused e) r a h = cc h

given_token_next :
    (d : Decoder) (codec : Codec) (raw : Bytes) (o : ParseResult DecisionToken)
    (tok : Option DecisionToken)
    → parse_decision_token codec raw ≡ o
    → given_token o ≡ next tok
    → TokenFrom d codec raw tok
unfolding given_token
given_token_next d codec raw (parsed t) tok e h =
    subst (λ o. TokenFrom d codec raw o) (next_injective (some t) tok h) e
given_token_next d codec raw (refused r) tok e h = cc h

read_token_next :
    (d : Decoder) (codec : Codec) (raw : Bytes) (tok : Option DecisionToken)
    → read_token d codec raw ≡ next tok
    → TokenFrom d codec raw tok
unfolding read_token
read_token_next d codec raw tok h = elim (Bool-cases (is_json_null d raw)) [
  | inl absent ↦
      let this : next none ≡ next tok =
        subst
          (λ b. (if b then next none else given_token (parse_decision_token codec raw)) ≡ next tok)
          absent h in
      subst (λ o. TokenFrom d codec raw o) (next_injective none tok this) absent
  | inr given ↦ given_token_next d codec raw (parse_decision_token codec raw) tok refl (
      subst
        (λ b. (if b then next none else given_token (parse_decision_token codec raw)) ≡ next tok)
        given h)
]

-- The arguments are those of the input, every part of the request context included.
pub record ReadFrom (d : Decoder) (codec : Codec) (vector_id : String) (now : Time)
    (input : InputData) (a : Arguments) : Type 0 where
  pub policy : PolicyContext
  pub http : HttpRequestJson
  pub envelope_parsed : parse_intent_envelope codec input.intent_envelope ≡ parsed a.envelope
  pub token_parsed : TokenFrom d codec input.decision_token a.token
  pub policy_read : PolicyFrom d input.policy_context policy
  pub checkpoint_read : CheckpointFrom d input a.context.checkpoint
  pub http_read : HttpFrom d input.http_request http
  pub context : a.context ≡ record {
    method = http.method;
    path = utf8 http.request_target;
    tool_name = "";
    payload_hash = "";
    timestamp = now;
    request_id = vector_id;
    latency_ns = pos 0;
    clock = policy.clock;
    proposed_action = input.proposed_action;
    policy = some policy;
    checkpoint = a.context.checkpoint;
  }

pub read_arguments-ReadFrom :
    (d : Decoder) (codec : Codec) (vector_id : String) (now : Time) (input : InputData)
    (a : Arguments)
    → read_arguments d codec vector_id now input ≡ next a
    → ReadFrom d codec vector_id now input a
unfolding read_arguments read_envelope
read_arguments-ReadFrom d codec vector_id now input a h =
    let (env, e, h1) = bind_next (read_envelope codec input.intent_envelope) _ a h in
    let (tok, t, h2) = bind_next (read_token d codec input.decision_token) _ a h1 in
    let (policy, p, h3) = bind_next (read_policy d input.policy_context) _ a h2 in
    let (checkpoint, k, h4) = bind_next (read_checkpoint d input) _ a h3 in
    let (http, r, h5) = bind_next (read_http_request d input.http_request) _ a h4 in
    let this = next_injective _ a h5 in
    subst (λ b. ReadFrom d codec vector_id now input b) this
      record {
        policy = policy;
        http = http;
        envelope_parsed =
            or_verdict_next (parse_intent_envelope codec input.intent_envelope) _ env e;
        token_parsed = read_token_next d codec input.decision_token tok t;
        policy_read = read_policy-PolicyFrom d input.policy_context policy p;
        checkpoint_read = read_checkpoint-CheckpointFrom d input checkpoint k;
        http_read = read_http_request-HttpFrom d input.http_request http r;
        context = refl;
      }
