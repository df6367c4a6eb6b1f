-- ===== src/Trust/Store.antt =====
-- internal/trust/store.go and observability.go: the store of the active snapshot. The pointer that is
-- swapped is the optional snapshot, which is none in a zero value.
use hacp_sidecar.Common.{
  ℕ, String, Bool, true, false, not, ◌&&◌, Option, none, some, ltb, str_eq, ◌==◌, if◌then◌else◌,
}
use hacp_sidecar.Common.Time.{Time}
use hacp_sidecar.Common.Strings.{lookup}
use hacp_sidecar.Wire.{Bytes, Crypto}
use hacp_sidecar.Evaluate.Interfaces.{KeyResult, resolved, key_error}
use hacp_sidecar.Trust.{
  TrustSnapshot, TrustError, Result, ok, failed, validate, invalid_key_id, trust_not_ready,
  key_not_found, rejected_snapshot, trust_revision_rollback, trust_revision_conflict, key_count,
}

pub record AtomicTrustStore : Type 0 where
  pub active : Option TrustSnapshot

unfoldable pub new_store : Crypto → TrustSnapshot → Result AtomicTrustStore
new_store c snapshot = elim (validate c snapshot) [
  | ok _ ↦ ok record { active = some snapshot }
  | failed e ↦ failed (rejected_snapshot e)
]

abbrev pub found : String → Option Bytes → Result Bytes
found key_id none = failed (key_not_found key_id)
found key_id (some key) = ok key

unfoldable pub resolve_key : AtomicTrustStore → String → Result Bytes
unfolding lookup
resolve_key s key_id = if str_eq key_id "" then failed invalid_key_id else elim s.active [
  | none ↦ failed trust_not_ready
  | some snapshot ↦ found key_id (lookup key_id snapshot.keys)
]

-- `Replace` for an active snapshot: the state of the store and its error.
unfoldable pub replace_active : TrustSnapshot → TrustSnapshot → Result TrustSnapshot
replace_active current snapshot =
    if ltb snapshot.revision current.revision
    then failed (trust_revision_rollback current.revision snapshot.revision)
    else if snapshot.revision == current.revision
        && not (str_eq snapshot.fingerprint current.fingerprint)
    then failed (trust_revision_conflict snapshot.revision)
    else if snapshot.revision == current.revision && str_eq snapshot.fingerprint current.fingerprint
    then ok current
    else ok snapshot

-- The store after the call, with the error.
pub record Replaced : Type 0 where
  pub store : AtomicTrustStore
  pub error : Option TrustError

abbrev pub activated : AtomicTrustStore → Result TrustSnapshot → Replaced
activated s (ok snapshot) = record { store = record { active = some snapshot }; error = none }
activated s (failed e) = record { store = s; error = some e }

unfoldable pub replace : Crypto → AtomicTrustStore → TrustSnapshot → Replaced
unfolding replace_active validate
replace c s snapshot = elim (validate c snapshot) [
  | failed e ↦ activated s (failed (rejected_snapshot e))
  | ok _ ↦ elim s.active [
    | none ↦ activated s (ok snapshot)
    | some current ↦ activated s (replace_active current snapshot)
  ]
]

unfoldable pub ready : AtomicTrustStore → Bool
ready s = elim s.active [ none ↦ false | some _ ↦ true ]

-- A getter of the active snapshot.
abbrev pub of_active {ℓ} : {A : Type ℓ} → (TrustSnapshot → A) → AtomicTrustStore → Result A
of_active get s = elim s.active [
  | none ↦ failed trust_not_ready
  | some snapshot ↦ ok (get snapshot)
]

unfoldable pub revision : AtomicTrustStore → Result ℕ
revision s = of_active (λ snapshot. snapshot.revision) s

unfoldable pub fingerprint : AtomicTrustStore → Result String
fingerprint s = of_active (λ snapshot. snapshot.fingerprint) s

unfoldable pub active_key_count : AtomicTrustStore → Result ℕ
unfolding key_count
active_key_count s = of_active key_count s

unfoldable pub loaded_at : AtomicTrustStore → Result Time
loaded_at s = of_active (λ snapshot. snapshot.loaded_at) s

unfoldable pub source : AtomicTrustStore → Result String
source s = of_active (λ snapshot. snapshot.source) s

abbrev pub key_result : Result Bytes → KeyResult
key_result (ok key) = resolved key
key_result (failed e) = key_error

-- The store as the `evaluate.KeyResolver` of the pipeline.
unfoldable pub key_resolver : AtomicTrustStore → String → KeyResult
unfolding resolve_key
key_resolver s key_id = key_result (resolve_key s key_id)
