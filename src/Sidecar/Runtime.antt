-- ===== src/Sidecar/Runtime.antt =====
-- cmd/sidecar/control_runtime.go, readiness.go, readiness_control_state.go and the wiring of main.go.
-- The runtime of the distributed mode shares one store and one control state among the pipeline, the
-- readiness predicate and the subscriber, so it is the subscriber that holds them; the standalone one
-- is the local store that the pipeline reads and the endpoints write.
use hacp_sidecar.Common.{ℕ, Bool, true, false, Option, none, some, str_eq, if◌then◌else◌}
use hacp_sidecar.Common.Time.{Time}
use hacp_sidecar.Revocation
use hacp_sidecar.Revocation.{InMemoryRevocationStore}
use hacp_sidecar.ControlPlane.Adapter.{new_adapter}
use hacp_sidecar.ControlPlane.State.{ControlState, new_control_state, is_fresh}
use hacp_sidecar.ControlPlane.Subscriber.{Subscriber, new_subscriber, set_control_state}
use hacp_sidecar.Evaluate.Interfaces.{RevocationStore}
use hacp_sidecar.Evaluate.Pipeline.Checks.{Pipeline}
use hacp_sidecar.Enforcement.{revocation_store}
use hacp_sidecar.Sidecar.Config.{ControlRuntimeConfig}

pub data ControlRuntime : Type 0 where
  standalone : InMemoryRevocationStore → ControlRuntime
  distributed : Subscriber → ControlRuntime

pub data RuntimeError : Type 0 where
  missing_control_plane_client unsupported_mode : RuntimeError

pub data Built : Type 0 where
  built : ControlRuntime → Built
  not_built : RuntimeError → Built

-- Whether a client is given, and the clock when the stores are made.
unfoldable pub new_control_runtime : ControlRuntimeConfig → Bool → Time → Built
unfolding new_subscriber set_control_state new_control_state new_adapter Revocation.new_store
new_control_runtime cfg client now =
    if str_eq cfg.mode "standalone"
    then built (standalone (Revocation.new_store now))
    else if str_eq cfg.mode "distributed"
    then (if client
        then built (
            distributed (
              set_control_state (new_subscriber (new_adapter now))
                (new_control_state cfg.max_staleness)))
        else not_built missing_control_plane_client)
    else not_built unsupported_mode

-- The fields of the Go runtime.
unfoldable pub local_revocations : ControlRuntime → Option InMemoryRevocationStore
local_revocations (standalone store) = some store
local_revocations (distributed s) = none

unfoldable pub control_state : ControlRuntime → Option ControlState
control_state (standalone store) = none
control_state (distributed s) = some s.state

-- A `RevocationStore` that is the in-memory store itself.
abbrev pub in_memory : InMemoryRevocationStore → RevocationStore
in_memory store = record {
  is_key_revoked = Revocation.is_key_revoked store;
  is_envelope_revoked = Revocation.is_envelope_revoked store;
  is_token_revoked = Revocation.is_token_revoked store;
}

unfoldable pub revocations : ControlRuntime → RevocationStore
unfolding revocation_store
revocations (standalone store) = in_memory store
revocations (distributed s) = revocation_store s.store

-- `makeControlStateReadiness`, where a state and a clock may be missing.
unfoldable pub control_state_ready : Option ControlState → Option Time → Bool
unfolding is_fresh
control_state_ready (some state) (some now) = is_fresh state now
control_state_ready (some state) none = false
control_state_ready none now = false

unfoldable pub ready : ControlRuntime → Time → Bool
unfolding control_state_ready
ready (standalone store) now = true
ready (distributed s) now = control_state_ready (some s.state) (some now)

-- The status of `/readyz`; a missing predicate is none.
unfoldable pub readiness_status : Option Bool → ℕ
readiness_status none = 503
readiness_status (some ready) = if ready then 200 else 503

unfoldable pub attach_control_state : Pipeline → Option ControlState → Pipeline
unfolding is_fresh
attach_control_state p none = p
attach_control_state p (some state) = record p { control_state = some (is_fresh state) }

-- The pipeline of `main`, which `NewPipeline` makes without a control state.
unfoldable pub wire : Pipeline → ControlRuntime → Pipeline
unfolding attach_control_state revocations control_state
wire p runtime =
    attach_control_state (record p { revocation = revocations runtime; control_state = none })
      (control_state runtime)
