-- ===== src/Wire/Parsing.antt =====
-- internal/wire: the parsers of envelope.go and token.go, the encodings of crypto.go, headers.go and
-- key_resolver.go. encoding/json's decoding into a struct, base64 and hexadecimal are fields of `Codec`.
use hacp_sidecar.Common.{
  ℕ, ◌%◌, String, Bool, true, false, not, ◌||◌, Option, none, some, length, str_eq, str_append,
  ◌==◌, if◌then◌else◌,
}
use hacp_sidecar.Common.Int.{ℤ, pos, negsuc}
use hacp_sidecar.Common.Utf8.{utf8}
use hacp_sidecar.Wire.{
  Bytes, ScopeGrant, Budget, IntentEnvelope, Constraints, DecisionToken, public_key_size,
}
use hacp_sidecar.Wire.Canonical.{Json, Numbers, canonicalize_json, remove_signature_field}

-- `envelopeJSON` and `tokenJSON`, without the field `RawJSON`, which nothing reads.
pub record EnvelopeJson : Type 0 where
  pub hacp_version : String
  pub envelope_id : String
  pub principal : String
  pub principal_kind : String
  pub intent_statement : String
  pub scope : Option ScopeGrant
  pub issued_at : ℤ
  pub expires_at : ℤ
  pub signer_key_id : String
  pub signature : String
  pub autonomy_budget : Option Budget

pub record TokenJson : Type 0 where
  pub hacp_version : String
  pub token_id : String
  pub envelope_id : String
  pub action_hash : String
  pub policy_digest : String
  pub principal : String
  pub signer_key_id : String
  pub issued_at : ℤ
  pub expires_at : ℤ
  pub decision : String
  pub constraints : Option Constraints
  pub signature : String

pub record Codec : Type 1 where
  pub unmarshal_envelope : Bytes → Option EnvelopeJson
  pub unmarshal_token : Bytes → Option TokenJson
  pub decode_json : Bytes → Option Json
  pub base64_decode : String → Option Bytes
  pub hex_decode : String → Option Bytes
  pub numbers : Numbers

pub data ParseError : Type 0 where
  json_error signature_error canonicalization_error removal_error sigless_error missing_scope :
      ParseError
  missing unsupported_version invalid_principal_kind invalid_decision : String → ParseError
  missing_header : String → ParseError
  header_too_large : ℕ → ParseError
  envelope_decode_error token_decode_error : ParseError
  envelope_parse_error token_parse_error : ParseError → ParseError

pub data ParseResult {ℓ} (A : Type ℓ) : Type ℓ where
  parsed : A → ParseResult A
  refused : ParseError → ParseResult A

infixl 5 ◌>>=◌
abbrev pub ◌>>=◌ {ℓ κ} :
    {A : Type ℓ} {B : Type κ} → ParseResult A → (A → ParseResult B) → ParseResult B
parsed a >>= f = f a
refused e >>= f = refused e

infixl 5 ◌>>◌
abbrev pub ◌>>◌ {ℓ κ} : {A : Type ℓ} {B : Type κ} → ParseResult A → ParseResult B → ParseResult B
m >> k = m >>= λ _. k

-- An early return.
abbrev pub guard : Bool → ParseError → ParseResult (Unit {0})
guard true e = parsed tt
guard false e = refused e

abbrev pub or_refuse {ℓ} : {A : Type ℓ} → Option A → ParseError → ParseResult A
or_refuse (some a) e = parsed a
or_refuse none e = refused e

abbrev pub is_zero_ℤ : ℤ → Bool
is_zero_ℤ (pos n) = n == 0
is_zero_ℤ (negsuc n) = false

abbrev pub is_some {ℓ} : {A : Type ℓ} → Option A → Bool
is_some none = false
is_some (some a) = true

abbrev pub required : String → String → ParseResult (Unit {0})
required value name = guard (not (str_eq value "")) (missing name)

abbrev pub required_time : ℤ → String → ParseResult (Unit {0})
required_time value name = guard (not (is_zero_ℤ value)) (missing name)

abbrev pub check_version : String → ParseResult (Unit {0})
check_version v = do required v "hacp_version"; guard (str_eq v "0.9") (unsupported_version v)

-- The required fields of `ParseIntentEnvelope`.
unfoldable pub check_envelope_fields : EnvelopeJson → ParseResult (Unit {0})
check_envelope_fields ej = do
  check_version ej.hacp_version
  required ej.envelope_id "envelope_id"
  required ej.principal "principal"
  guard (str_eq ej.principal_kind "human" || str_eq ej.principal_kind "system")
      (invalid_principal_kind ej.principal_kind)
  required ej.intent_statement "intent_statement"
  guard (is_some ej.scope) missing_scope
  required_time ej.issued_at "issued_at"
  required_time ej.expires_at "expires_at"
  required ej.signer_key_id "signer_key_id"
  required ej.signature "signature"

-- The required fields of `ParseDecisionToken`.
unfoldable pub check_token_fields : TokenJson → ParseResult (Unit {0})
check_token_fields tj = do
  check_version tj.hacp_version
  required tj.token_id "token_id"
  required tj.envelope_id "envelope_id"
  required tj.action_hash "action_hash"
  required tj.policy_digest "policy_digest"
  required tj.principal "principal"
  required tj.signer_key_id "signer_key_id"
  required_time tj.issued_at "issued_at"
  required_time tj.expires_at "expires_at"
  required tj.decision "decision"
  guard (str_eq tj.decision "ALLOW" || str_eq tj.decision "DENY" || str_eq tj.decision "CHECKPOINT")
      (invalid_decision tj.decision)
  required tj.signature "signature"

-- `Base64URLDecode`: the padding that the length asks for.
unfoldable pub base64_url_decode : (String → Option Bytes) → String → Option Bytes
unfolding utf8
base64_url_decode decode s =
    let left = length (utf8 s) % 4 in
    decode (if left == 2 then str_append s "==" else if left == 3 then str_append s "=" else s)

-- `ParseEd25519PublicKey`; none is either of its errors.
unfoldable pub parse_ed25519_public_key : (String → Option Bytes) → String → Option Bytes
parse_ed25519_public_key hex_decode hex_key = elim (hex_decode hex_key) [
  | none ↦ none
  | some key ↦ if not (length key == public_key_size) then none else some key
]

-- The signature, the canonical form, and the canonical form without the signature.
pub record Payload : Type 0 where
  pub signature : Bytes
  pub canonical : Bytes
  pub sigless : Bytes

module _ (lib : Codec) where
  -- What both parsers do with the signature and the data.
  unfoldable pub payload_of : String → Bytes → ParseResult Payload
  unfolding base64_url_decode canonicalize_json remove_signature_field
  payload_of signature bytes = do
    raw ← or_refuse (base64_url_decode lib.base64_decode signature) signature_error
    canonical ←
        or_refuse (canonicalize_json lib.numbers lib.decode_json bytes) canonicalization_error
    removed ← or_refuse (remove_signature_field lib.numbers lib.decode_json bytes) removal_error
    sigless ← or_refuse (canonicalize_json lib.numbers lib.decode_json removed) sigless_error
    parsed (record { signature = raw; canonical = canonical; sigless = sigless })

  abbrev pub seal_envelope : EnvelopeJson → Payload → IntentEnvelope
  seal_envelope ej payload = record {
    hacp_version = ej.hacp_version;
    envelope_id = ej.envelope_id;
    principal = ej.principal;
    principal_kind = ej.principal_kind;
    intent_statement = ej.intent_statement;
    scope = ej.scope;
    issued_at = ej.issued_at;
    expires_at = ej.expires_at;
    signer_key_id = ej.signer_key_id;
    signature = payload.signature;
    autonomy_budget = ej.autonomy_budget;
    raw_json = payload.sigless;
    canonical_json = payload.canonical;
  }

  unfoldable pub parse_intent_envelope : Bytes → ParseResult IntentEnvelope
  unfolding check_envelope_fields payload_of
  parse_intent_envelope bytes = do
    ej ← or_refuse (lib.unmarshal_envelope bytes) json_error
    check_envelope_fields ej
    payload ← payload_of ej.signature bytes
    parsed (seal_envelope ej payload)

  abbrev pub seal_token : TokenJson → Payload → DecisionToken
  seal_token tj payload = record {
    hacp_version = tj.hacp_version;
    token_id = tj.token_id;
    envelope_id = tj.envelope_id;
    action_hash = tj.action_hash;
    policy_digest = tj.policy_digest;
    principal = tj.principal;
    signer_key_id = tj.signer_key_id;
    issued_at = tj.issued_at;
    expires_at = tj.expires_at;
    decision = tj.decision;
    constraints = tj.constraints;
    signature = payload.signature;
    raw_json = payload.sigless;
    canonical_json = payload.canonical;
  }

  unfoldable pub parse_decision_token : Bytes → ParseResult DecisionToken
  unfolding check_token_fields payload_of
  parse_decision_token bytes = do
    tj ← or_refuse (lib.unmarshal_token bytes) json_error
    check_token_fields tj
    payload ← payload_of tj.signature bytes
    parsed (seal_token tj payload)
