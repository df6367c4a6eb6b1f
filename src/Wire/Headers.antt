-- ===== src/Wire/Headers.antt =====
-- internal/wire/headers.go and key_resolver.go: the signed objects of a request, and the resolver in
-- memory. `http.Header` is a list of the values of each name.
use hacp_sidecar.Common.{
  ℕ, ◌*◌, String, not, Option, none, some, List, [], ◌∷◌, length, ltb, str_eq, if◌then◌else◌,
}
use hacp_sidecar.Common.Utf8.{utf8}
use hacp_sidecar.Common.Strings.{lookup, put}
use hacp_sidecar.Wire.{Bytes, IntentEnvelope, DecisionToken, bytes_equal}
use hacp_sidecar.Wire.Parsing.{
  Codec, ParseResult, parsed, refused, ParseError, missing_header, header_too_large,
  envelope_decode_error, token_decode_error, envelope_parse_error, token_parse_error, ◌>>=◌, ◌>>◌,
  guard, or_refuse, base64_url_decode, parse_intent_envelope, parse_decision_token,
  parse_ed25519_public_key,
}

abbrev pub Header : Type 0
Header = List (String × List String)

abbrev pub first_value : Option (List String) → String
first_value none = ""
first_value (some []) = ""
first_value (some (v ∷ vs)) = v

-- `h.Get(name)`, with `http.CanonicalHeaderKey` for its argument.
unfoldable pub get : (String → String) → Header → String → String
unfolding lookup
get canonical_key h name = first_value (lookup (canonical_key name) h)

abbrev pub header_intent_envelope : String
header_intent_envelope = "X-HACP-Intent-Envelope"

abbrev pub header_decision_token : String
header_decision_token = "X-HACP-Decision-Token"

abbrev pub max_header_size : ℕ
max_header_size = 8 * 1024

-- The error of a parser, inside that of the header.
abbrev pub wrap {ℓ} : {A : Type ℓ} → (ParseError → ParseError) → ParseResult A → ParseResult A
wrap f (parsed a) = parsed a
wrap f (refused e) = refused (f e)

module _ (lib : Codec) (canonical_key : String → String) where
  -- One header: present, within the size, and decoded.
  unfoldable pub header_bytes : Header → String → ParseError → ParseResult Bytes
  unfolding get base64_url_decode utf8
  header_bytes h name decode_error = do
    guard (not (str_eq (get canonical_key h name) "")) (missing_header name)
    guard (not (ltb max_header_size (length (utf8 (get canonical_key h name)))))
        (header_too_large (length (utf8 (get canonical_key h name))))
    or_refuse (base64_url_decode lib.base64_decode (get canonical_key h name)) decode_error

  unfoldable pub extract_headers : Header → ParseResult (IntentEnvelope × DecisionToken)
  unfolding header_bytes parse_intent_envelope parse_decision_token
  extract_headers h = do
    env_bytes ← header_bytes h header_intent_envelope envelope_decode_error
    env ← wrap envelope_parse_error (parse_intent_envelope lib env_bytes)
    tok_bytes ← header_bytes h header_decision_token token_decode_error
    tok ← wrap token_parse_error (parse_decision_token lib tok_bytes)
    parsed (env, tok)

-- internal/wire/key_resolver.go, a method with a lock being one step.
pub record StaticKeyResolver : Type 0 where
  pub keys : List (String × Bytes)

unfoldable pub new_static_key_resolver : StaticKeyResolver
new_static_key_resolver = record { keys = [] }

pub data ResolverError : Type 0 where
  conflicting_key_binding key_not_found : String → ResolverError
  invalid_key : ResolverError

unfoldable pub add_key :
    StaticKeyResolver → String → Bytes → StaticKeyResolver × Option ResolverError
unfolding lookup put bytes_equal
add_key r key_id key = elim (lookup key_id r.keys) [
  | some existing ↦
      if bytes_equal existing key then (r, none) else (r, some (conflicting_key_binding key_id))
  | none ↦ (record { keys = put key_id key r.keys }, none)
]

unfoldable pub add_key_from_hex :
    (String → Option Bytes)
    → StaticKeyResolver
    → String
    → String
    → StaticKeyResolver × Option ResolverError
unfolding add_key parse_ed25519_public_key
add_key_from_hex hex_decode r key_id hex_key = elim (parse_ed25519_public_key hex_decode hex_key) [
  | none ↦ (r, some invalid_key)
  | some key ↦ add_key r key_id key
]

-- none is the error.
unfoldable pub resolve_static_key : StaticKeyResolver → String → Option Bytes
unfolding lookup
resolve_static_key r key_id = lookup key_id r.keys
