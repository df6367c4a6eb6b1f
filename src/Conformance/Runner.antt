-- ===== src/Conformance/Runner.antt =====
-- cmd/hacp-conformance-runner/main.go: the runner's state and the pipeline over it. The pipeline holds
-- pointers to the stores, so it is made from their present contents; the `NoopWriter` has no state.
use hacp_sidecar.Common.{String, Option, none, some, str_eq, if◌then◌else◌}
use hacp_sidecar.Common.Time.{Time}
use hacp_sidecar.Revocation
use hacp_sidecar.Revocation.{InMemoryRevocationStore}
use hacp_sidecar.Budget.{Ledger, new_ledger, reset}
use hacp_sidecar.Wire.{Bytes, Crypto}
use hacp_sidecar.Wire.Headers.{
  StaticKeyResolver, ResolverError, new_static_key_resolver, add_key_from_hex, resolve_static_key,
}
use hacp_sidecar.Evaluate.Interfaces.{KeyResult, resolved, key_error}
use hacp_sidecar.Evaluate.ScopeGuard.{Library, default_scope_guard}
use hacp_sidecar.Evaluate.Pipeline.Checks.{Pipeline, new_pipeline}
use hacp_sidecar.Sidecar.Runtime.{in_memory}

pub record Runner : Type 0 where
  pub revocation : InMemoryRevocationStore
  pub key_resolver : StaticKeyResolver
  pub budget_ledger : Ledger
  pub current_vector_id : String

abbrev pub test_key_id : String
test_key_id = "key-ed25519-test-001"

abbrev pub test_key_hex : String
test_key_hex = "9d17f1bbcc0845865e670f526413fb7a510380798fe300b6c98e28f3a3b0fdb3"

abbrev made : Time → StaticKeyResolver × Option ResolverError → Option Runner
made now (keys, some e) = none
made now (keys, none) = some record {
  revocation = Revocation.new_store now;
  key_resolver = keys;
  budget_ledger = new_ledger;
  current_vector_id = "";
}

-- none is the error of the test key.
unfoldable pub new_runner : (String → Option Bytes) → Time → Option Runner
unfolding new_static_key_resolver add_key_from_hex new_ledger Revocation.new_store
new_runner hex_decode now =
    made now (add_key_from_hex hex_decode new_static_key_resolver test_key_id test_key_hex)

abbrev pub key_result : Option Bytes → KeyResult
key_result none = key_error
key_result (some key) = resolved key

-- The pipeline of `NewRunner`.
unfoldable pub pipeline_of : Library → Crypto → (Bytes → Option Bytes) → Runner → Pipeline
unfolding new_pipeline resolve_static_key default_scope_guard
pipeline_of lib crypto canonicalize r =
    new_pipeline (λ key_id. key_result (resolve_static_key r.key_resolver key_id))
      (in_memory r.revocation) (default_scope_guard lib) crypto canonicalize

unfoldable pub prepare_vector_state : Runner → String → Runner
unfolding reset
prepare_vector_state r vector_id =
    if str_eq vector_id ""
    then r
    else if str_eq r.current_vector_id vector_id
    then r
    else record r { budget_ledger = reset r.budget_ledger; current_vector_id = vector_id }
