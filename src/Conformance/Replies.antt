-- ===== src/Conformance/Replies.antt =====
-- cmd/hacp-conformance-runner/main.go: the replies that come before the pipeline is asked.
use hacp_sidecar.Common.{
  String, length, ◌==◌, ◌≢◌, refl, Bool, true, false, Option, none, some, Bool-cases, if◌then◌else◌,
  inl, inr,
}
use hacp_sidecar.Common.Strings.{ne_of_eq-false}
use hacp_sidecar.Common.Time.{Time}
use hacp_sidecar.Wire.{Bytes}
use hacp_sidecar.Wire.Parsing.{
  Codec, ParseResult, parsed, refused, parse_intent_envelope, parse_decision_token,
}
use hacp_sidecar.Wire.{DecisionToken}
use hacp_sidecar.Evaluate.Interfaces.{
  Reason, invalid_envelope, invalid_action, policy_denied, checkpoint_invalid,
}
use hacp_sidecar.Conformance.Protocol.{
  Request, InputData, EnvelopePreflight, ActionPreflight, PolicyPreflight, Decoder, HttpRequestJson,
  PolicyContextJson, CheckpointJson, Response, Message, input_parse, missing_intent_envelope,
  http_request_parse, verdict, error_response, Step, reply, next, ◌>>=◌, or_reply, is_json_null,
  is_given,
}
use hacp_sidecar.Conformance.Preflight.{
  preflight, no_policy, policy_preflight, check_human, needs_human, timed_out,
}
use hacp_sidecar.Conformance.Inputs.{
  zero_policy, policy_of, checkpoint_of, default_http_request, or_verdict, given_token,
  read_envelope, read_token, read_policy, checkpoint_raw, read_checkpoint, read_http_request,
  read_arguments,
}
use hacp_sidecar.Conformance.Handling.{World, Reading, read_input}

-- A reply that does not allow.
unfoldable pub Denies {ℓ} : {A : Type ℓ} → Step A → Type 0
Denies (reply r) = r.decision ≢ "ALLOW"
Denies (next a) = Unit {0}

bind-Denies {ℓ κ} :
    {A : Type ℓ} {B : Type κ} (m : Step A) (f : A → Step B)
    → Denies m
    → ((a : A) → Denies (f a))
    → Denies (m >>= f)
unfolding Denies
bind-Denies (reply r) f h k = h
bind-Denies (next a) f h k = k a

next-Denies {ℓ} : {A : Type ℓ} (a : A) → Denies (next a)
unfolding Denies
next-Denies a = tt

deny-Denies {ℓ} : (A : Type ℓ) (code : Reason) → Denies {A = A} (reply (verdict "DENY" code))
unfolding Denies
deny-Denies A code = ne_of_eq-false "DENY" "ALLOW" refl

error-Denies {ℓ} : (A : Type ℓ) (m : Message) → Denies {A = A} (reply (error_response m))
unfolding Denies error_response
error-Denies A m = ne_of_eq-false "ERROR" "ALLOW" refl

or_reply-Denies {ℓ} :
    {A : Type ℓ} (o : Option A) (r : Response) → Denies {A = A} (reply r) → Denies (or_reply o r)
unfolding or_reply
or_reply-Denies none r h = h
or_reply-Denies (some a) r h = next-Denies a

check_human-Denies :
    (env : EnvelopePreflight) (action : ActionPreflight) (policy : PolicyPreflight)
    → Denies (check_human env action policy)
unfolding check_human Denies
check_human-Denies env action policy = elim (Bool-cases (needs_human env action policy)) [
  | inr free ↦ rw (free, check_human) tt
  | inl needed ↦ elim (Bool-cases (timed_out env action policy)) [
    | inl late ↦ rw (needed, late, check_human) (ne_of_eq-false "DENY" "ALLOW" refl)
    | inr waiting ↦ rw (needed, waiting, check_human) (ne_of_eq-false "CHECKPOINT" "ALLOW" refl)
  ]
]

-- A test between two steps that do not allow.
if-Denies {ℓ} :
    {A : Type ℓ} (b : Bool) (s t : Step A) → Denies s → Denies t → Denies (if b then s else t)
if-Denies true s t h k = h
if-Denies false s t h k = k

policy_preflight-Denies : (d : Decoder) (raw : Bytes) → Denies (policy_preflight d raw)
unfolding policy_preflight
policy_preflight-Denies d raw =
    if-Denies (length raw == 0) (next no_policy) _ (next-Denies no_policy)
      (or_reply-Denies (d.policy_preflight raw) _ (deny-Denies PolicyPreflight policy_denied))

preflight-Denies : (d : Decoder) (input : InputData) → Denies (preflight d input)
unfolding preflight
preflight-Denies d input =
    bind-Denies _ _
      (or_reply-Denies (d.envelope_preflight input.intent_envelope) _
        (deny-Denies _ invalid_envelope))
      λ env.
        bind-Denies _ _
          (or_reply-Denies (d.action_preflight input.proposed_action) _
            (deny-Denies _ invalid_action))
          λ action.
            bind-Denies _ _ (policy_preflight-Denies d input.policy_context)
              λ policy. check_human-Denies env action policy

or_verdict-Denies {ℓ} :
    {A : Type ℓ} (o : ParseResult A) (s : Step A) → Denies s → Denies (or_verdict o s)
unfolding or_verdict
or_verdict-Denies (parsed a) s h = next-Denies a
or_verdict-Denies (refused e) s h = h

given_token-Denies : (o : ParseResult DecisionToken) → Denies (given_token o)
unfolding given_token
given_token-Denies (parsed a) = next-Denies _
given_token-Denies (refused e) = deny-Denies _ _

read_envelope-Denies : (codec : Codec) (raw : Bytes) → Denies (read_envelope codec raw)
unfolding read_envelope
read_envelope-Denies codec raw =
    or_verdict-Denies (parse_intent_envelope codec raw) _ (deny-Denies _ invalid_envelope)

read_token-Denies : (d : Decoder) (codec : Codec) (raw : Bytes) → Denies (read_token d codec raw)
unfolding read_token
read_token-Denies d codec raw =
    if-Denies (is_json_null d raw) (next none) _ (next-Denies none)
      (given_token-Denies (parse_decision_token codec raw))

read_policy-Denies : (d : Decoder) (raw : Bytes) → Denies (read_policy d raw)
unfolding read_policy
read_policy-Denies d raw =
    if-Denies (is_given d raw) _ (next zero_policy)
      (bind-Denies (or_reply (d.policy_context raw) (verdict "DENY" invalid_action))
        (λ pc. next (policy_of pc))
        (or_reply-Denies (d.policy_context raw) _ (deny-Denies PolicyContextJson invalid_action))
        λ pc. next-Denies (policy_of pc))
      (next-Denies zero_policy)

read_checkpoint-Denies : (d : Decoder) (input : InputData) → Denies (read_checkpoint d input)
unfolding read_checkpoint
read_checkpoint-Denies d input =
    let raw = checkpoint_raw d input in
    if-Denies (is_given d raw) _ (next none)
      (bind-Denies (or_reply (d.checkpoint raw) (verdict "DENY" checkpoint_invalid))
        (λ cp. next (some (checkpoint_of cp)))
        (or_reply-Denies (d.checkpoint raw) _ (deny-Denies CheckpointJson checkpoint_invalid))
        λ cp. next-Denies (some (checkpoint_of cp)))
      (next-Denies none)

read_http_request-Denies : (d : Decoder) (raw : Bytes) → Denies (read_http_request d raw)
unfolding read_http_request
read_http_request-Denies d raw =
    if-Denies (is_json_null d raw) (next default_http_request) _ (next-Denies default_http_request)
      (bind-Denies (or_reply (d.http_request raw) (error_response http_request_parse)) _
        (or_reply-Denies (d.http_request raw) _ (error-Denies HttpRequestJson http_request_parse))
        λ r. next-Denies _)

read_arguments-Denies :
    (d : Decoder) (codec : Codec) (vector_id : String) (now : Time) (input : InputData)
    → Denies (read_arguments d codec vector_id now input)
unfolding read_arguments
read_arguments-Denies d codec vector_id now input =
    bind-Denies _ _ (read_envelope-Denies codec input.intent_envelope) λ _.
      bind-Denies _ _ (read_token-Denies d codec input.decision_token) λ _.
        bind-Denies _ _ (read_policy-Denies d input.policy_context) λ _.
          bind-Denies _ _ (read_checkpoint-Denies d input)
            λ _. bind-Denies _ _ (read_http_request-Denies d input.http_request) λ _. next-Denies _

-- No reply that comes before the pipeline is asked allows.
pub read_input-Denies : (x : World) (req : Request) (now : Reading) → Denies (read_input x req now)
unfolding read_input
read_input-Denies x req now =
    bind-Denies _ _
      (or_reply-Denies (x.decoder.input_data req.input) _ (error-Denies _ input_parse))
      λ input.
        bind-Denies _ _
          (or_reply-Denies (if length input.intent_envelope == 0 then none else some tt) _
            (error-Denies _ missing_intent_envelope))
          λ _. bind-Denies _ _ (preflight-Denies x.decoder input) λ _.
            bind-Denies _ _
              (read_arguments-Denies x.decoder x.codec req.vector_id now.timestamp input)
              λ _. next-Denies _
