-- ===== src/Wire.antt =====
-- internal/wire: the signed objects, their signature check and the digests. Bytes are numbers.
-- Ed25519, SHA-256, hexadecimal and encoding/json are not code of this repository: they enter as
-- the fields of `Crypto` and as arguments of what uses them.
pub mod Canonical
pub mod Parsing
pub mod Headers
pub mod Complete
pub mod OrderFree
pub mod Unordered
pub mod Escapes
pub mod Normal
pub mod Unique
pub mod Reading
pub mod Faithful
use hacp_sidecar.Common.{
  ℕ, String, Bool, false, not, Option, List, length, ◌==◌, if◌then◌else◌, true, [], ◌∷◌,
}
use hacp_sidecar.Common.Int.{ℤ}

abbrev pub Bytes : Type 0
Bytes = List ℕ

-- internal/wire/envelope.go. The field `actionHash`, which nothing sets or reads, is left
-- out; `raw_json` is the canonical form without the signature.
pub record ScopeGrant : Type 0 where
  pub verbs : List String
  pub resource_classes : List String
  pub audiences : List String
  pub reversibility : List String
  pub externality : List String
  pub data_classes : List String
  pub max_quantity : Option ℤ
  pub destinations : List String
  pub tool_names : List String

pub record Budget : Type 0 where
  pub max_actions : ℤ
  pub max_risk_class : String

pub record IntentEnvelope : Type 0 where
  pub hacp_version : String
  pub envelope_id : String
  pub principal : String
  pub principal_kind : String
  pub intent_statement : String
  pub scope : Option ScopeGrant
  pub issued_at : ℤ
  pub expires_at : ℤ
  pub signer_key_id : String
  pub signature : Bytes
  pub autonomy_budget : Option Budget
  pub raw_json : Bytes
  pub canonical_json : Bytes

-- internal/wire/token.go. The path is kept as bytes, since the scope guard walks it.
pub record Constraints : Type 0 where
  pub method : String
  pub path : Bytes
  pub tool_name : String
  pub payload_hash : String
  pub max_uses : Option ℤ

pub record DecisionToken : Type 0 where
  pub hacp_version : String
  pub token_id : String
  pub envelope_id : String
  pub action_hash : String
  pub policy_digest : String
  pub principal : String
  pub signer_key_id : String
  pub issued_at : ℤ
  pub expires_at : ℤ
  pub decision : String
  pub constraints : Option Constraints
  pub signature : Bytes
  pub raw_json : Bytes
  pub canonical_json : Bytes

unfoldable pub envelope_payload : IntentEnvelope → Bytes
envelope_payload e = e.raw_json

unfoldable pub token_payload : DecisionToken → Bytes
token_payload t = t.raw_json

-- crypto/ed25519, crypto/sha256 and encoding/hex.
pub record Crypto : Type 0 where
  pub ed25519_verify : Bytes → Bytes → Bytes → Bool
  pub sha256 : Bytes → Bytes
  pub hex_encode : Bytes → String

-- The sizes of crypto/ed25519.
abbrev pub public_key_size : ℕ
public_key_size = 32

abbrev pub signature_size : ℕ
signature_size = 64

-- `bytes.Equal`.
unfoldable pub bytes_equal : Bytes → Bytes → Bool
bytes_equal [] [] = true
bytes_equal (a ∷ xs) (b ∷ ys) = let rest = bytes_equal xs ys in if a == b then rest else false
bytes_equal _ _ = false

-- internal/wire/crypto.go
unfoldable pub verify_ed25519 : Crypto → Bytes → Bytes → Bytes → Bool
verify_ed25519 c public_key message signature =
    if not (length public_key == public_key_size)
    then false
    else if not (length signature == signature_size)
    then false
    else c.ed25519_verify public_key message signature

unfoldable pub sha256_hex : Crypto → Bytes → String
sha256_hex c bytes = c.hex_encode (c.sha256 bytes)

unfoldable pub envelope_hash : Crypto → IntentEnvelope → Bytes
envelope_hash c e = c.sha256 e.canonical_json

unfoldable pub token_hash : Crypto → DecisionToken → Bytes
token_hash c t = c.sha256 t.canonical_json
