-- ===== src/Trust.antt =====
-- internal/trust/snapshot.go and errors.go: validated snapshots of the trusted signer keys. Keys are
-- values, so a clone is the key itself. Ed25519 sizes, SHA-256 and hexadecimal come from `Wire`.
pub mod Store
pub mod File
pub mod Bindings
pub mod Revisions
pub mod Reloading
pub mod Startup
pub mod Signers
pub mod Sorting
pub mod Digest
pub mod Written
pub mod Fingerprint
use Prim.Native.Nat.{Ordering}
use Prim.Native.String.{compare}
use hacp_sidecar.Common.{
  ℕ, String, ◌≡◌, refl, Bool, true, false, not, Option, none, some, List, [], ◌∷◌, ◌++◌, length,
  map, str_eq, ◌==◌, if◌then◌else◌,
}
use hacp_sidecar.Common.Time.{Time}
use hacp_sidecar.Common.Strings.{lookup, put}
use hacp_sidecar.Common.Utf8.{utf8}
use hacp_sidecar.Wire.{Bytes, Crypto, public_key_size, bytes_equal}

pub record KeyBinding : Type 0 where
  pub key_id : String
  pub public_key : Bytes

pub record TrustSnapshot : Type 0 where
  pub revision : ℕ
  pub loaded_at : Time
  pub source : String
  pub keys : List (String × Bytes)
  pub fingerprint : String

-- The errors of the package, with the values that their texts name; `rejected_snapshot` is the
-- wrapping of a failed validation by the store.
pub data TrustError : Type 0 where
  empty_trust_snapshot invalid_key_id invalid_trust_snapshot fingerprint_mismatch : TrustError
  invalid_public_key : String → ℕ → TrustError
  undecodable_public_key conflicting_key_binding key_not_found : String → TrustError
  rejected_snapshot : TrustError → TrustError
  trust_not_ready : TrustError
  trust_revision_rollback : ℕ → ℕ → TrustError
  trust_revision_conflict : ℕ → TrustError
  empty_path source_unavailable undecodable_file trailing_value trailing_garbage : TrustError
  zero_revision nil_store : TrustError

-- A value or an error.
pub data Result {ℓ} (A : Type ℓ) : Type ℓ where
  ok : A → Result A
  failed : TrustError → Result A

infixl 5 ◌>>=◌
abbrev pub ◌>>=◌ {ℓ κ} : {A : Type ℓ} {B : Type κ} → Result A → (A → Result B) → Result B
ok a >>= f = f a
failed e >>= f = failed e

-- Where a chain succeeds, so did its first part.
pub bind_ok {ℓ κ} :
    {A : Type ℓ} {B : Type κ} (r : Result A) (f : A → Result B) (b : B)
    → (r >>= f) ≡ ok b
    → (a : A) × (r ≡ ok a) × (f a ≡ ok b)
bind_ok (ok a) f b h = (a, refl, h)
bind_ok (failed e) f b h = cc h

-- One binding of the loop of `NewSnapshot`.
unfoldable pub add_binding : List (String × Bytes) → KeyBinding → Result (List (String × Bytes))
unfolding bytes_equal lookup put
add_binding keys binding =
    if str_eq binding.key_id ""
    then failed invalid_key_id
    else if not (length binding.public_key == public_key_size)
    then failed (invalid_public_key binding.key_id (length binding.public_key))
    else elim (lookup binding.key_id keys) [
      | none ↦ ok (put binding.key_id binding.public_key keys)
      | some existing ↦
          if not (bytes_equal existing binding.public_key)
          then failed (conflicting_key_binding binding.key_id)
          else ok keys
    ]

unfoldable pub add_bindings :
    List (String × Bytes) → List KeyBinding → Result (List (String × Bytes))
unfolding add_binding
add_bindings keys [] = ok keys
add_bindings keys (b ∷ bs) = add_binding keys b >>= (λ keys'. add_bindings keys' bs)

-- `sort.Strings`.
unfoldable pub insert_id : String → List String → List String
insert_id k [] = k ∷ []
insert_id k (j ∷ ids) =
    let rest = insert_id k ids in elim (compare j k) [ Ordering.lt ↦ j ∷ rest | _ ↦ k ∷ j ∷ ids ]

unfoldable pub sort_ids : List String → List String
unfolding insert_id
sort_ids [] = []
sort_ids (k ∷ ids) = insert_id k (sort_ids ids)

abbrev pub or_empty : Option Bytes → Bytes
or_empty none = []
or_empty (some key) = key

-- What the loop of `fingerprintKeys` writes to the hash.
unfoldable pub hashed : List (String × Bytes) → List String → Bytes
unfolding lookup utf8
hashed keys [] = []
hashed keys (k ∷ ids) = utf8 k ++ (0 ∷ (or_empty (lookup k keys) ++ (0 ∷ hashed keys ids)))

unfoldable pub fingerprint_keys : Crypto → List (String × Bytes) → String
unfolding sort_ids hashed
fingerprint_keys c keys =
    c.hex_encode
      (c.sha256 (hashed keys (sort_ids (map (λ (binding : String × Bytes). binding.0) keys))))

-- The loop of `validate`, in one of the orders of the map.
unfoldable pub check_keys : List (String × Bytes) → Result (Unit {0})
check_keys [] = ok tt
check_keys ((key_id, public_key) ∷ keys) =
    let rest = check_keys keys in
    if str_eq key_id ""
    then failed invalid_key_id
    else if not (length public_key == public_key_size)
    then failed (invalid_public_key key_id (length public_key))
    else rest

abbrev pub check_fingerprint : Crypto → TrustSnapshot → Result (Unit {0})
check_fingerprint c s =
    if str_eq s.fingerprint ""
    then failed invalid_trust_snapshot
    else if not (str_eq (fingerprint_keys c s.keys) s.fingerprint)
    then failed fingerprint_mismatch
    else ok tt

unfoldable pub validate : Crypto → TrustSnapshot → Result (Unit {0})
unfolding check_keys fingerprint_keys
validate c s =
    if length s.keys == 0
    then failed empty_trust_snapshot
    else check_keys s.keys >>= (λ _. check_fingerprint c s)

unfoldable pub new_snapshot : Crypto → ℕ → Time → String → List KeyBinding → Result TrustSnapshot
unfolding add_bindings fingerprint_keys validate
new_snapshot c revision loaded_at source [] = failed empty_trust_snapshot
new_snapshot c revision loaded_at source (b ∷ bs) = add_bindings [] (b ∷ bs) >>= (λ keys.
    let s : TrustSnapshot = record {
      revision = revision;
      loaded_at = loaded_at;
      source = source;
      keys = keys;
      fingerprint = fingerprint_keys c keys;
    } in
    validate c s >>= (λ _. ok s))

unfoldable pub key_count : TrustSnapshot → ℕ
key_count s = length s.keys
