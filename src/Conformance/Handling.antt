-- ===== src/Conformance/Handling.antt =====
-- cmd/hacp-conformance-runner/main.go: `HandleRequest` and its three operations. The readings of the
-- clocks are arguments.
use hacp_sidecar.Common.{
  String, Bool, not, ◌||◌, Option, none, some, List, [], ◌∷◌, length, ◌==◌, str_eq, if◌then◌else◌,
}
use hacp_sidecar.Common.Int.{ℤ}
use hacp_sidecar.Common.Time.{Time}
use hacp_sidecar.Common.Strings.{lookup}
use hacp_sidecar.Revocation
use hacp_sidecar.Revocation.{InMemoryRevocationStore}
use hacp_sidecar.Wire.{Bytes, Crypto, DecisionToken}
use hacp_sidecar.Wire.Parsing.{Codec}
use hacp_sidecar.Wire.Canonical.{Json}
use hacp_sidecar.Provenance.{noop_writer}
use hacp_sidecar.Evaluate.Interfaces.{Outcome, Decision, Reason, unspecified}
use hacp_sidecar.Evaluate.ScopeGuard.{Library}
use hacp_sidecar.Evaluate.Pipeline.Checks.{Clock}
use hacp_sidecar.Evaluate.Pipeline.{Evaluated, returned, panic, evaluate}
use hacp_sidecar.Conformance.Protocol.{
  protocol_version, Request, InputData, Decoder, is_json_null, as_string, Code, reason, Response,
  response, error_response, unsupported_protocol_version, unknown_operation, unknown_target_kind,
  input_parse, missing_intent_envelope, missing_target, Step, reply, next, ◌>>=◌, ◌>>◌, or_reply,
}
use hacp_sidecar.Conformance.Runner.{Runner, pipeline_of, prepare_vector_state}
use hacp_sidecar.Conformance.Preflight.{preflight}
use hacp_sidecar.Conformance.Inputs.{Arguments, read_arguments}

-- The code outside this program that the runner calls.
pub record World : Type 1 where
  pub decoder : Decoder
  pub codec : Codec
  pub library : Library
  pub crypto : Crypto
  pub canonicalize_json : Bytes → Option Bytes

-- What the clocks read during a request.
pub record Reading : Type 0 where
  pub timestamp : Time
  pub clock : Clock
  pub latency_ns : ℤ

-- The runner after a request, and the response; none is a panic of the provenance writer.
pub record Handled : Type 0 where
  pub runner : Runner
  pub response : Option Response

abbrev pub outcome_text : Outcome → String
outcome_text Outcome.allow = "ALLOW"
outcome_text Outcome.deny = "DENY"
outcome_text Outcome.checkpoint = "CHECKPOINT"

-- The fallback for a decision without an outcome.
unfoldable pub decision_text : String → Bool → String
decision_text outcome allow =
    if str_eq outcome "" then (if allow then "ALLOW" else "DENY") else outcome

unfoldable pub reason_codes : Reason → List Code
reason_codes unspecified = []
reason_codes code = reason code ∷ []

abbrev pub returned_hash : Option DecisionToken → String
returned_hash none = ""
returned_hash (some tok) = tok.action_hash

unfoldable pub bound_event : Decoder → Bytes → String
unfolding is_json_null
bound_event d raw =
    if is_json_null d raw
    then ""
    else elim (d.event_id raw) [ none ↦ "" | some event_id ↦ event_id ]

unfoldable pub decision_response :
    Decoder → InputData → Option DecisionToken → Reading → Decision → Response
unfolding decision_text reason_codes bound_event
decision_response d input tok now decision = record {
  protocol_version = protocol_version;
  decision = decision_text (outcome_text decision.outcome) decision.allow;
  reason_codes = reason_codes decision.reason_code;
  action_hash = returned_hash tok;
  provenance_id = bound_event d input.provenance_event;
  latency_ns = some now.latency_ns;
  error_message = none;
  explanation = none;
}

abbrev pub handled : Runner → Response → Handled
handled r x = record { runner = r; response = some x }

abbrev pub revoked : Runner → InMemoryRevocationStore → Handled
revoked r store = handled (record r { revocation = store }) (response "OK" [])

unfoldable pub revoke_target : Runner → String → String → Time → Handled
unfolding Revocation.revoke_token Revocation.revoke_envelope Revocation.revoke_key error_response
revoke_target r target_id target_kind now =
    if str_eq target_id "" || str_eq target_kind ""
    then handled r (error_response missing_target)
    else if str_eq target_kind "token"
    then revoked r (Revocation.revoke_token r.revocation target_id now)
    else if str_eq target_kind "envelope"
    then revoked r (Revocation.revoke_envelope r.revocation target_id now)
    else if str_eq target_kind "key"
    then revoked r (Revocation.revoke_key r.revocation target_id now)
    else handled r (error_response (unknown_target_kind target_kind))

abbrev pub member_string : String → List (String × Json) → String
member_string key input = as_string (lookup key input)

unfoldable pub handle_explain : Response
handle_explain = record (response "OK" []) { explanation = some "Explanation not yet implemented" }

abbrev pub revoke_input : Runner → Time → Option (List (String × Json)) → Handled
revoke_input r now none = handled r (error_response input_parse)
revoke_input r now (some input) =
    revoke_target r (member_string "target_id" input) (member_string "target_kind" input) now

module _ (x : World) where
  abbrev pub evaluated :
      Runner → InputData → Option DecisionToken → Reading → Evaluated (Unit {0}) → Handled
  evaluated r input tok now (panic s) = record {
    runner = record r { budget_ledger = s.ledger };
    response = none;
  }
  evaluated r input tok now (returned decision s) =
      handled (record r { budget_ledger = s.ledger })
        (decision_response x.decoder input tok now decision)

  -- The input, and the arguments of `Evaluate`, or the reply that comes before it.
  unfoldable pub read_input : Request → Reading → Step (InputData × Arguments)
  unfolding preflight read_arguments error_response
  read_input req now = do
    input ← or_reply (x.decoder.input_data req.input) (error_response input_parse)
    or_reply (if length input.intent_envelope == 0 then none else some tt)
        (error_response missing_intent_envelope)
    preflight x.decoder input
    arguments ← read_arguments x.decoder x.codec req.vector_id now.timestamp input
    next (input, arguments)

  abbrev pub evaluate_read : Runner → Reading → Step (InputData × Arguments) → Handled
  evaluate_read r now (reply y) = handled r y
  evaluate_read r now (next (input, a)) = evaluated r input a.token now (
      evaluate noop_writer (pipeline_of x.library x.crypto x.canonicalize_json r)
        (record { ledger = r.budget_ledger; provenance = tt }) (some a.envelope) a.token
        (some a.context) now.clock)

  unfoldable pub handle_evaluate : Runner → Request → Reading → Handled
  unfolding read_input evaluate pipeline_of noop_writer decision_response
  handle_evaluate r req now = evaluate_read r now (read_input req now)

  unfoldable pub handle_revoke : Runner → Request → Time → Handled
  unfolding revoke_target error_response lookup
  handle_revoke r req now = revoke_input r now (x.decoder.members req.input)

  -- `HandleRequest` once the state of the vector is prepared.
  unfoldable pub handle_prepared : Runner → Request → Reading → Handled
  unfolding handle_evaluate handle_revoke handle_explain error_response
  handle_prepared r req now =
      if not (str_eq req.protocol_version protocol_version)
      then handled r (error_response (unsupported_protocol_version req.protocol_version))
      else if str_eq req.operation "evaluate"
      then handle_evaluate r req now
      else if str_eq req.operation "revoke"
      then handle_revoke r req now.timestamp
      else if str_eq req.operation "explain"
      then handled r handle_explain
      else handled r (error_response (unknown_operation req.operation))

  unfoldable pub handle_request : Runner → Request → Reading → Handled
  unfolding prepare_vector_state handle_prepared
  handle_request r req now = handle_prepared (prepare_vector_state r req.vector_id) req now
