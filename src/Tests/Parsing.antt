-- ===== src/Tests/Parsing.antt =====
-- The parsers and the canonical form of internal/wire on concrete values. The codec is a stand-in: base64
-- gives 64 zeros, and the bytes 1 and 2 are two orders of one object.
use mathlib.Core.Quot
use hacp_sidecar.Common.{
  ap, ℕ, ◌≡◌, ◌↔◌, refl, true, false, Option, none, some, [], ◌∷◌, arith, ◌==◌, if◌then◌else◌, inr,
}
use hacp_sidecar.Common.Int.{pos}
use hacp_sidecar.Common.Strings.{ne_of_eq-false}
use hacp_sidecar.Common.Utf8.{utf8}
use hacp_sidecar.Wire.{Bytes, ScopeGrant}
use hacp_sidecar.Wire.Canonical.{
  Json, number, text, array, item, no_items, object, no_members, member, Numbers, canonicalize_json,
  remove_signature_field, canonical_value, remove,
}
use hacp_sidecar.Wire.Parsing.{
  EnvelopeJson, TokenJson, Codec, parsed, Payload, base64_url_decode, payload_of, seal_envelope,
  parse_intent_envelope,
}
use hacp_sidecar.Wire.Complete.{EnvelopeComplete, parse_intent_envelope_iff}
use hacp_sidecar.Wire.OrderFree.{same_object, swapped}
use hacp_sidecar.Wire.Unordered.{canonicalize_json-Unordered}
use hacp_sidecar.Wire.Normal.{tree}
use hacp_sidecar.Wire.Faithful.{has_literals, canonicalize_json_iff}
use hacp_sidecar.Wire.Unique.{is_word}
use hacp_sidecar.Tests.Decisions.{zeros}

abbrev numbers : Numbers
numbers = record {
  Float = ℕ;
  int64 = λ t. some (pos 7);
  float64 = λ t. none;
  is_nan_or_inf = λ f. false;
  below_2_53 = λ f. true;
  truncated = λ f. pos f;
  is_whole = λ f. true;
  format_int = λ i. 55 ∷ [];
  format_float = λ f. 48 ∷ [];
}

abbrev one_order : Json
one_order = object (member "b" (number "7") (member "a" (text "x\"y") no_members))

abbrev other_order : Json
other_order = object (member "a" (text "x\"y") (member "b" (number "7") no_members))

abbrev decode : Bytes → Option Json
decode [] = none
decode (n ∷ ns) = if n == 1 then some one_order else some other_order

abbrev scope : ScopeGrant
scope = record {
  verbs = "read" ∷ [];
  resource_classes = [];
  audiences = [];
  reversibility = [];
  externality = [];
  data_classes = [];
  max_quantity = none;
  destinations = [];
  tool_names = [];
}

abbrev pub envelope_json : EnvelopeJson
envelope_json = record {
  hacp_version = "0.9";
  envelope_id = "e1";
  principal = "agent";
  principal_kind = "system";
  intent_statement = "read";
  scope = some scope;
  issued_at = pos 1;
  expires_at = pos 100;
  signer_key_id = "k1";
  signature = "AA";
  autonomy_budget = none;
}

abbrev pub token_json : TokenJson
token_json = record {
  hacp_version = "0.9";
  token_id = "t1";
  envelope_id = "e1";
  action_hash = "digest";
  policy_digest = "p";
  principal = "agent";
  signer_key_id = "k1";
  issued_at = pos 1;
  expires_at = pos 100;
  decision = "ALLOW";
  constraints = none;
  signature = "AA";
}

abbrev pub codec : Codec
codec = record {
  unmarshal_envelope = λ bytes. some envelope_json;
  unmarshal_token = λ bytes. some token_json;
  decode_json = decode;
  base64_decode = λ t. some (zeros 64);
  hex_decode = λ t. none;
  numbers = numbers;
}

-- {"a":"x\"y","b":7}
canonical : canonicalize_json numbers decode (1 ∷ []) ≡ some (utf8 "{\"a\":\"x\\\"y\",\"b\":7}")
unfolding canonicalize_json canonical_value utf8
canonical = refl

canonicalize_json-Unordered_example :
    canonicalize_json numbers decode (1 ∷ []) ≡ canonicalize_json numbers decode (2 ∷ [])
canonicalize_json-Unordered_example = canonicalize_json-Unordered numbers decode (1 ∷ []) (2 ∷ []) (
    ap some (
      Quot.sound (
        same_object
          (swapped "b" "a" (number "7") (text "x\"y") no_members (ne_of_eq-false "b" "a" refl)))))

abbrev split : Json
split = array (item (text "a") (item (text "b") no_items))

abbrev joined : Json
joined = array (item (text "a\",\"b") no_items)

abbrev decode_split : Bytes → Option Json
decode_split [] = none
decode_split (n ∷ ns) = if n == 1 then some split else some joined

canonicalize_json_iff_example :
    (canonicalize_json numbers decode_split (1 ∷ [])
      ≡ canonicalize_json numbers decode_split (2 ∷ []))
    ↔ (tree numbers split ≡ tree numbers joined)
unfolding is_word has_literals
canonicalize_json_iff_example =
    canonicalize_json_iff numbers (λ i. refl) (λ f. refl) decode_split (1 ∷ []) (2 ∷ []) split
      joined refl refl refl refl

abbrev pub canonical_bytes : Bytes
canonical_bytes = utf8 "{\"a\":\"x\\\"y\",\"b\":7}"

abbrev payload : Payload
payload = record { signature = zeros 64; canonical = canonical_bytes; sigless = canonical_bytes }

made : payload_of codec "AA" (1 ∷ []) ≡ parsed payload
unfolding payload_of base64_url_decode canonicalize_json remove_signature_field canonical_value utf8
    remove
made = refl

complete : EnvelopeComplete envelope_json
complete = record {
  version = refl;
  envelope_id = ne_of_eq-false "e1" "" refl;
  principal = ne_of_eq-false "agent" "" refl;
  kind = inr refl;
  statement = ne_of_eq-false "read" "" refl;
  scoped = λ e. ground arith;
  issued = λ e. ground arith;
  expiring = λ e. ground arith;
  signer = ne_of_eq-false "k1" "" refl;
  signed = ne_of_eq-false "AA" "" refl;
}

parse_intent_envelope_iff_example :
    parse_intent_envelope codec (1 ∷ []) ≡ parsed (seal_envelope codec envelope_json payload)
parse_intent_envelope_iff_example =
    (parse_intent_envelope_iff codec (1 ∷ []) (seal_envelope codec envelope_json payload)).1
      (envelope_json, refl, complete, (payload, made, refl))
