-- ===== src/Trust/File.antt =====
-- internal/trust/file_loader.go and reload.go: a snapshot from a file. The file system, encoding/json
-- and encoding/hex are what the arguments say of them.
use hacp_sidecar.Common.{
  ℕ, String, not, Option, none, some, List, [], ◌∷◌, length, str_eq, str_append, ◌==◌,
  if◌then◌else◌,
}
use hacp_sidecar.Common.Time.{Time}
use hacp_sidecar.Wire.{Bytes, Crypto, public_key_size}
use hacp_sidecar.Trust.{
  KeyBinding, TrustSnapshot, TrustError, Result, ok, failed, ◌>>=◌, new_snapshot, empty_path,
  source_unavailable, undecodable_file, trailing_value, trailing_garbage, zero_revision,
  empty_trust_snapshot, invalid_key_id, undecodable_public_key, invalid_public_key, nil_store,
}
use hacp_sidecar.Trust.Store.{AtomicTrustStore, replace}

pub record FileKeyEntry : Type 0 where
  pub key_id : String
  pub public_key_hex : String

pub record FileTrustConfig : Type 0 where
  pub revision : ℕ
  pub keys : List FileKeyEntry

-- What follows the first value of the file.
pub data Trailing : Type 0 where
  end_of_file another_value garbage : Trailing

-- What opening and decoding the file give.
pub data TrustFile : Type 0 where
  unopened undecodable : TrustFile
  decoded : FileTrustConfig → Trailing → TrustFile

module _ (hex_decode : String → Option Bytes) where
  -- One entry of the loop of `LoadSnapshotFile`.
  unfoldable pub decode_entry : FileKeyEntry → Result KeyBinding
  decode_entry entry =
      if str_eq entry.key_id ""
      then failed invalid_key_id
      else elim (hex_decode entry.public_key_hex) [
        | none ↦ failed (undecodable_public_key entry.key_id)
        | some raw ↦
            if not (length raw == public_key_size)
            then failed (invalid_public_key entry.key_id (length raw))
            else ok record { key_id = entry.key_id; public_key = raw }
      ]

  unfoldable pub decode_entries : List FileKeyEntry → Result (List KeyBinding)
  unfolding decode_entry
  decode_entries [] = ok []
  decode_entries (entry ∷ entries) =
      let rest = decode_entries entries in
      decode_entry entry >>= (λ b. rest >>= (λ bs. ok (b ∷ bs)))

  unfoldable pub load_config : Crypto → Time → String → FileTrustConfig → Result TrustSnapshot
  unfolding decode_entries
  load_config c now path cfg =
      if cfg.revision == 0
      then failed zero_revision
      else if length cfg.keys == 0
      then failed empty_trust_snapshot
      else decode_entries cfg.keys
        >>= (λ bindings. new_snapshot c cfg.revision now (str_append "file:" path) bindings)

  unfoldable pub load_snapshot_file : Crypto → Time → String → TrustFile → Result TrustSnapshot
  unfolding load_config
  load_snapshot_file c now path file = if str_eq path "" then failed empty_path else elim file [
    | unopened ↦ failed source_unavailable
    | undecodable ↦ failed undecodable_file
    | decoded cfg end_of_file ↦ load_config c now path cfg
    | decoded cfg another_value ↦ failed trailing_value
    | decoded cfg garbage ↦ failed trailing_garbage
  ]

  -- The store after the call, if it is not nil, and the error.
  unfoldable pub reload_from_file :
      Crypto
      → Time
      → String
      → TrustFile
      → Option AtomicTrustStore
      → Option AtomicTrustStore × Option TrustError
  unfolding load_snapshot_file replace
  reload_from_file c now path file none = (none, some nil_store)
  reload_from_file c now path file (some s) = elim (load_snapshot_file c now path file) [
    | failed e ↦ (some s, some e)
    | ok snapshot ↦ let replaced = replace c s snapshot in (some replaced.store, replaced.error)
  ]
