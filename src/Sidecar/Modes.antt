-- ===== src/Sidecar/Modes.antt =====
-- cmd/sidecar: the runtime that each mode gives, and the addresses that trust_admin.go accepts.
use hacp_sidecar.Common.{
  String, ◌≡◌, ◌≢◌, ◌⊎◌, Bool, true, Option, some, arith, str_eq, eq_iff, inl, inr, Bool-cases,
  Option-cases,
}
use hacp_sidecar.Common.Time.{Time}
use hacp_sidecar.Revocation
use hacp_sidecar.Revocation.{InMemoryRevocationStore}
use hacp_sidecar.ControlPlane.Adapter.{new_adapter}
use hacp_sidecar.ControlPlane.State.{new_control_state}
use hacp_sidecar.ControlPlane.Subscriber.{Subscriber, new_subscriber, set_control_state}
use hacp_sidecar.Sidecar.Config.{ControlRuntimeConfig}
use hacp_sidecar.Sidecar.Runtime.{
  ControlRuntime, standalone, distributed, built, new_control_runtime,
}
use hacp_sidecar.Sidecar.Endpoints.{valid_trust_admin_address}

-- The runtime is that of the mode.
abbrev pub Runs : ControlRuntimeConfig → Bool → Time → ControlRuntime → Type 0
Runs cfg client now r =
    ((cfg.mode ≡ "standalone") × (r ≡ standalone (Revocation.new_store now)))
    ⊎ ((cfg.mode ≡ "distributed") × (client ≡ true) × ((s : Subscriber) × (r ≡ distributed s)))

pub new_control_runtime-Runs :
    (cfg : ControlRuntimeConfig) (client : Bool) (now : Time) (r : ControlRuntime)
    → new_control_runtime cfg client now ≡ built r
    → Runs cfg client now r
unfolding new_control_runtime
new_control_runtime-Runs cfg client now r h = elim (Bool-cases (str_eq cfg.mode "standalone")) [
  | inl alone ↦ inl ((eq_iff cfg.mode "standalone").0 alone, ground (arith, alone, h))
  | inr other ↦ elim (Bool-cases (str_eq cfg.mode "distributed")) [
    | inl far ↦ elim (Bool-cases client) [
      | inl given ↦ inr (
        (eq_iff cfg.mode "distributed").0 far,
        given,
        (
          set_control_state (new_subscriber (new_adapter now))
              (new_control_state cfg.max_staleness),
          ground (arith, other, far, given, h),
        ),
      )
      | inr missing ↦ absurd (ground (arith, other, far, missing, h))
    ]
    | inr unknown ↦ absurd (ground (arith, other, unknown, h))
  ]
]

-- The trust admin server listens on the loopback interface.
abbrev pub Loopback : (String → Option (String × String)) → String → Type 0
Loopback split_host_port addr =
    (host : String) × (port : String) × (split_host_port addr ≡ some (host, port))
    × (port ≢ "")
    × ((host ≡ "127.0.0.1") ⊎ (host ≡ "::1") ⊎ (host ≡ "localhost"))

pub valid_trust_admin_address-Loopback :
    (split_host_port : String → Option (String × String)) (trim_space : String → String)
    (addr : String)
    → valid_trust_admin_address split_host_port trim_space addr ≡ true
    → Loopback split_host_port (trim_space addr)
unfolding valid_trust_admin_address
valid_trust_admin_address-Loopback split_host_port trim_space addr h =
    elim (Option-cases (split_host_port (trim_space addr))) [
      | inl bad ↦ absurd (ground (arith, bad, h))
      | inr ((host, port), good) ↦ (
        host,
        port,
        good,
        ground (arith, good, h, eq_iff port ""),
        ground
            (arith, good, h, eq_iff host "127.0.0.1", eq_iff host "::1", eq_iff host "localhost"),
      )
    ]
