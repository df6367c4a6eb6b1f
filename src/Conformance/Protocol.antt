-- ===== src/Conformance/Protocol.antt =====
-- cmd/hacp-conformance-runner/main.go: the messages of the runner protocol. What encoding/json makes of
-- bytes is a field of `Decoder`, with none for its error; a field that is missing in the JSON is no
-- bytes, and a null is the bytes of `null`.
use hacp_sidecar.Common.{
  String, Bool, Option, none, some, List, [], ◌∷◌, length, ◌==◌, ◌||◌, not, ◌&&◌,
}
use hacp_sidecar.Common.Int.{ℤ}
use hacp_sidecar.Common.Utf8.{utf8}
use hacp_sidecar.Wire.{Bytes, bytes_equal}
use hacp_sidecar.Wire.Canonical.{Json, text}
use hacp_sidecar.Evaluate.Interfaces.{Reason}

abbrev pub protocol_version : String
protocol_version = "1"

pub record Request : Type 0 where
  pub protocol_version : String
  pub operation : String
  pub vector_id : String
  pub input : Bytes

pub record InputData : Type 0 where
  pub intent_envelope : Bytes
  pub proposed_action : Bytes
  pub decision_token : Bytes
  pub policy_context : Bytes
  pub checkpoint : Bytes
  pub provenance_event : Bytes
  pub http_request : Bytes

pub record HttpRequestJson : Type 0 where
  pub method : String
  pub request_target : String

pub record PolicyContextJson : Type 0 where
  pub clock : ℤ
  pub human_required : Bool
  pub human_required_verbs : List String
  pub consequence_class : String
  pub risk_class : String
  pub checkpoint : Bytes

pub record CheckpointJson : Type 0 where
  pub id : String
  pub checkpoint_id : String
  pub state : String
  pub status : String
  pub resolved_by : String
  pub resolved_by_kind : String
  pub resolver_principal : String
  pub resolver_principal_kind : String
  pub created_at : ℤ
  pub expires_at : ℤ
  pub resolved_at : ℤ

-- The three structures that `handleEvaluate` decodes first.
pub record EnvelopePreflight : Type 0 where
  pub principal_kind : String
  pub issued_at : ℤ

pub record ActionPreflight : Type 0 where
  pub verb : String
  pub proposed_at : ℤ

pub record PolicyPreflight : Type 0 where
  pub human_required_verbs : List String
  pub current_time : ℤ
  pub checkpoint_timeout_seconds : ℤ

pub record Decoder : Type 0 where
  pub request : Bytes → Option Request
  pub input_data : Bytes → Option InputData
  pub envelope_preflight : Bytes → Option EnvelopePreflight
  pub action_preflight : Bytes → Option ActionPreflight
  pub policy_preflight : Bytes → Option PolicyPreflight
  pub policy_context : Bytes → Option PolicyContextJson
  pub checkpoint : Bytes → Option CheckpointJson
  pub http_request : Bytes → Option HttpRequestJson
  pub event_id : Bytes → Option String
  pub members : Bytes → Option (List (String × Json))
  pub trim_space : Bytes → Bytes

unfoldable pub is_json_null : Decoder → Bytes → Bool
unfolding bytes_equal utf8
is_json_null d raw = length (d.trim_space raw) == 0 || bytes_equal (d.trim_space raw) (utf8 "null")

-- The test that `handleEvaluate` makes of a part that may be left out.
abbrev pub is_given : Decoder → Bytes → Bool
is_given d raw = not (length (d.trim_space raw) == 0) && not (is_json_null d raw)

-- `v, _ := input[key].(string)`.
abbrev pub as_string : Option Json → String
as_string (some (text s)) = s
as_string _ = ""

-- A reason code of a response: one of the pipeline's, or the runner's own.
pub data Code : Type 0 where
  reason : Reason → Code
  internal_error : Code

-- The text of an error; the decoder's own text is left out.
pub data Message : Type 0 where
  unsupported_protocol_version unknown_operation unknown_target_kind : String → Message
  input_parse http_request_parse malformed_request missing_intent_envelope missing_target : Message

pub record Response : Type 0 where
  pub protocol_version : String
  pub decision : String
  pub reason_codes : List Code
  pub action_hash : String
  pub provenance_id : String
  pub latency_ns : Option ℤ
  pub error_message : Option Message
  pub explanation : Option String

-- A response with a decision and reason codes alone.
abbrev pub response : String → List Code → Response
response decision codes = record {
  protocol_version = protocol_version;
  decision = decision;
  reason_codes = codes;
  action_hash = "";
  provenance_id = "";
  latency_ns = none;
  error_message = none;
  explanation = none;
}

abbrev pub verdict : String → Reason → Response
verdict decision code = response decision (reason code ∷ [])

unfoldable pub error_response : Message → Response
error_response message = record (response "ERROR" (internal_error ∷ [])) {
  error_message = some message;
}

-- A step of a handler replies at once, or goes on with a value.
pub data Step {ℓ} (A : Type ℓ) : Type ℓ where
  reply : Response → Step A
  next : A → Step A

infixl 5 ◌>>=◌ ◌>>◌
abbrev pub ◌>>=◌ {ℓ κ} : {A : Type ℓ} {B : Type κ} → Step A → (A → Step B) → Step B
reply r >>= f = reply r
next a >>= f = f a

abbrev pub ◌>>◌ {ℓ} : {B : Type ℓ} → Step (Unit {0}) → Step B → Step B
m >> k = m >>= λ _. k

unfoldable pub or_reply {ℓ} : {A : Type ℓ} → Option A → Response → Step A
or_reply none r = reply r
or_reply (some a) r = next a
