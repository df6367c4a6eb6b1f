-- ===== src/Proxy/Action.antt =====
-- internal/proxy/proposed_action.go: the action that a request proposes.
use hacp_sidecar.Common.{String, ◌||◌, Option, none, some, List, [], ◌∷◌, str_eq, if◌then◌else◌}
use hacp_sidecar.Wire.{Bytes, ScopeGrant, IntentEnvelope, Crypto, sha256_hex}

pub record ProposedAction : Type 0 where
  pub hacp_version : String
  pub verb : String
  pub resource_class : String
  pub resource_id : String
  pub audience : String
  pub reversibility : String
  pub externality : String
  pub data_class : String
  pub payload_hash : String

abbrev pub first_or_empty : List String → String
first_or_empty [] = ""
first_or_empty (s ∷ ss) = s

unfoldable pub http_method_to_verb : String → String
http_method_to_verb method =
    if str_eq method "GET" || str_eq method "HEAD"
    then "read"
    else if str_eq method "POST"
    then "write"
    else if str_eq method "PUT" || str_eq method "PATCH"
    then "write"
    else if str_eq method "DELETE"
    then "delete"
    else "unknown"

abbrev pub action_of : String → String → ScopeGrant → String → ProposedAction
action_of method url_path scope payload_hash = record {
  hacp_version = "0.9";
  verb = http_method_to_verb method;
  resource_class = first_or_empty scope.resource_classes;
  resource_id = url_path;
  audience = first_or_empty scope.audiences;
  reversibility = first_or_empty scope.reversibility;
  externality = first_or_empty scope.externality;
  data_class = first_or_empty scope.data_classes;
  payload_hash = payload_hash;
}

-- none is the panic at a nil scope.
unfoldable pub synthesize_proposed_action :
    String → String → IntentEnvelope → String → Option ProposedAction
unfolding http_method_to_verb
synthesize_proposed_action method url_path env payload_hash = elim env.scope [
  | none ↦ none
  | some scope ↦ some (action_of method url_path scope payload_hash)
]

-- `MarshalCanonical`, with `json.Marshal` and `wire.CanonicalizeJSON` for its arguments.
unfoldable pub marshal_canonical :
    (ProposedAction → Option Bytes) → (Bytes → Option Bytes) → ProposedAction → Option Bytes
marshal_canonical marshal canonicalize action = elim (marshal action) [
  | none ↦ none
  | some raw ↦ canonicalize raw
]

unfoldable pub action_hash :
    (ProposedAction → Option Bytes)
    → (Bytes → Option Bytes)
    → Crypto
    → ProposedAction
    → Option String
unfolding marshal_canonical
action_hash marshal canonicalize c action = elim (marshal_canonical marshal canonicalize action) [
  | none ↦ none
  | some canonical ↦ some (sha256_hex c canonical)
]
