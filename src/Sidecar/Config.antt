-- ===== src/Sidecar/Config.antt =====
-- cmd/sidecar/control_config.go. The environment variables are without the white space around them;
-- `time.ParseDuration` is an argument.
use hacp_sidecar.Common.{
  ◌*◌, String, ◌≡◌, ◌≢◌, ◌⊎◌, inl, inr, refl, subst, not, ◌||◌, Option, none, some, arith, str_eq,
  eq_iff, if◌then◌else◌, Bool-cases,
}
use hacp_sidecar.Common.Int.{ℤ, pos, leb_ℤ, ◌<ℤ◌}
use hacp_sidecar.Common.Strings.{ne_of_eq-false}
use hacp_sidecar.Common.Time.{second}

pub record Environment : Type 0 where
  pub control_mode : String
  pub control_plane_addr : String
  pub sidecar_id : String
  pub control_max_staleness : String
  pub control_tls_mode : String
  pub control_ca_file : String
  pub control_server_name : String

pub record ControlRuntimeConfig : Type 0 where
  pub mode : String
  pub address : String
  pub sidecar_id : String
  pub max_staleness : ℤ
  pub tls_mode : String
  pub ca_file : String
  pub server_name : String

pub data ConfigError : Type 0 where
  invalid_control_max_staleness : String → ConfigError
  control_max_staleness_not_positive ambiguous_standalone_control : ConfigError
  missing_control_plane_address missing_sidecar_id insecure_control_tls_options : ConfigError
  unsupported_control_mode unsupported_control_tls_mode : String → ConfigError

pub data Loaded : Type 0 where
  config : ControlRuntimeConfig → Loaded
  rejected : ConfigError → Loaded

abbrev pub default_control_max_staleness : ℤ
default_control_max_staleness = pos (5 * second)

-- The staleness, or its error.
pub data Staleness : Type 0 where
  staleness : ℤ → Staleness
  bad_staleness : ConfigError → Staleness

unfoldable pub max_staleness_of : (String → Option ℤ) → String → Staleness
max_staleness_of parse_duration raw =
    if str_eq raw "" then staleness default_control_max_staleness else elim (parse_duration raw) [
      | none ↦ bad_staleness (invalid_control_max_staleness raw)
      | some parsed ↦
          if leb_ℤ parsed (pos 0)
          then bad_staleness control_max_staleness_not_positive
          else staleness parsed
    ]

abbrev pub standalone_of : ℤ → ControlRuntimeConfig
standalone_of max = record {
  mode = "standalone";
  address = "";
  sidecar_id = "";
  max_staleness = max;
  tls_mode = "";
  ca_file = "";
  server_name = "";
}

unfoldable pub standalone_config : Environment → ℤ → Loaded
standalone_config e max =
    if not (str_eq e.control_plane_addr "")
      || not (str_eq e.sidecar_id "")
      || not (str_eq e.control_tls_mode "")
      || not (str_eq e.control_ca_file "")
      || not (str_eq e.control_server_name "")
    then rejected ambiguous_standalone_control
    else config (standalone_of max)

abbrev pub distributed_of : Environment → ℤ → String → ControlRuntimeConfig
distributed_of e max tls_mode = record {
  mode = "distributed";
  address = e.control_plane_addr;
  sidecar_id = e.sidecar_id;
  max_staleness = max;
  tls_mode = tls_mode;
  ca_file = e.control_ca_file;
  server_name = e.control_server_name;
}

unfoldable pub tls_config : Environment → ℤ → String → Loaded
tls_config e max tls_mode =
    if str_eq tls_mode "required"
    then config (distributed_of e max tls_mode)
    else if str_eq tls_mode "insecure"
    then (if not (str_eq e.control_ca_file "") || not (str_eq e.control_server_name "")
        then rejected insecure_control_tls_options
        else config (distributed_of e max tls_mode))
    else rejected (unsupported_control_tls_mode tls_mode)

unfoldable pub distributed_config : Environment → ℤ → Loaded
unfolding tls_config
distributed_config e max =
    if str_eq e.control_plane_addr ""
    then rejected missing_control_plane_address
    else if str_eq e.sidecar_id ""
    then rejected missing_sidecar_id
    else tls_config e max (if str_eq e.control_tls_mode "" then "required" else e.control_tls_mode)

abbrev pub mode_config : Environment → ℤ → String → Loaded
mode_config e max mode =
    if str_eq mode "standalone"
    then standalone_config e max
    else if str_eq mode "distributed"
    then distributed_config e max
    else rejected (unsupported_control_mode mode)

abbrev pub with_staleness : Environment → Staleness → Loaded
with_staleness e (bad_staleness err) = rejected err
with_staleness e (staleness max) =
    mode_config e max (if str_eq e.control_mode "" then "standalone" else e.control_mode)

unfoldable pub load_control_runtime_config : (String → Option ℤ) → Environment → Loaded
unfolding max_staleness_of standalone_config distributed_config
load_control_runtime_config parse_duration e =
    with_staleness e (max_staleness_of parse_duration e.control_max_staleness)

-- A plaintext connection only where the environment asks for it, and then with no TLS settings.
abbrev pub Transport : Environment → ControlRuntimeConfig → Type 0
Transport e cfg =
    (cfg.tls_mode ≡ "required")
    ⊎ ((cfg.tls_mode ≡ "insecure")
        × ((e.control_tls_mode ≡ "insecure") × ((cfg.ca_file ≡ "") × (cfg.server_name ≡ ""))))

abbrev pub Secure : Environment → ControlRuntimeConfig → Type 0
Secure e cfg =
    (pos 0 <ℤ cfg.max_staleness)
    × (((cfg.mode ≡ "standalone") × (cfg.address ≡ ""))
        ⊎ ((cfg.mode ≡ "distributed")
            × ((cfg.address ≢ "") × ((cfg.sidecar_id ≢ "") × Transport e cfg))))

config_injective : (a b : ControlRuntimeConfig) → config a ≡ config b → a ≡ b
config_injective a b h = cc h

max_staleness_of-positive :
    (parse_duration : String → Option ℤ) (raw : String) (max : ℤ)
    → max_staleness_of parse_duration raw ≡ staleness max
    → pos 0 <ℤ max
unfolding max_staleness_of
max_staleness_of-positive parse_duration raw max h = ground (arith, h)

standalone-Secure :
    (e : Environment) (max : ℤ) (cfg : ControlRuntimeConfig)
    → pos 0 <ℤ max
    → standalone_config e max ≡ config cfg
    → Secure e cfg
unfolding standalone_config
standalone-Secure e max cfg p h =
    let this : standalone_of max ≡ cfg = ground (arith, h) in
    subst (λ c. Secure e c) this (p, inl (refl, refl))

chosen_insecure :
    (e : Environment)
    → (if str_eq e.control_tls_mode "" then "required" else e.control_tls_mode) ≡ "insecure"
    → e.control_tls_mode ≡ "insecure"
chosen_insecure e h = elim (Bool-cases (str_eq e.control_tls_mode "")) [
  | inl unset ↦ absurd (
      ne_of_eq-false "required" "insecure" refl
        (subst (λ b. (if b then "required" else e.control_tls_mode) ≡ "insecure") unset h))
  | inr given ↦ subst (λ b. (if b then "required" else e.control_tls_mode) ≡ "insecure") given h
]

tls-Transport :
    (e : Environment) (max : ℤ) (tls_mode : String) (cfg : ControlRuntimeConfig)
    → (tls_mode ≡ "insecure" → e.control_tls_mode ≡ "insecure")
    → tls_config e max tls_mode ≡ config cfg
    → (distributed_of e max tls_mode ≡ cfg) × Transport e (distributed_of e max tls_mode)
unfolding tls_config
tls-Transport e max tls_mode cfg asked h = elim (Bool-cases (str_eq tls_mode "required")) [
  | inl required ↦ (ground (arith, required, h), inl ((eq_iff tls_mode "required").0 required))
  | inr other ↦ elim (Bool-cases (str_eq tls_mode "insecure")) [
    | inr unknown ↦ absurd (ground (arith, other, unknown, h))
    | inl insecure ↦
        elim (Bool-cases
          (not (str_eq e.control_ca_file "") || not (str_eq e.control_server_name ""))) [
            | inl options ↦ absurd (ground (arith, other, insecure, options, h))
            | inr plain ↦
                let at = (eq_iff tls_mode "insecure").0 insecure in
                (
                  ground (arith, other, insecure, plain, h),
                  inr (
                    at,
                    (
                      asked at,
                      (
                        (eq_iff e.control_ca_file "").0 (ground (arith, plain)),
                        (eq_iff e.control_server_name "").0 (ground (arith, plain)),
                      ),
                    ),
                  ),
                )
          ]
  ]
]

distributed-Secure :
    (e : Environment) (max : ℤ) (cfg : ControlRuntimeConfig)
    → pos 0 <ℤ max
    → distributed_config e max ≡ config cfg
    → Secure e cfg
unfolding distributed_config
distributed-Secure e max cfg p h = elim (Bool-cases (str_eq e.control_plane_addr "")) [
  | inl nowhere ↦ absurd (ground (arith, nowhere, h))
  | inr addressed ↦ elim (Bool-cases (str_eq e.sidecar_id "")) [
    | inl nameless ↦ absurd (ground (arith, addressed, nameless, h))
    | inr named ↦
        let chosen = if str_eq e.control_tls_mode "" then "required" else e.control_tls_mode in
        let (this, transport) =
          tls-Transport e max chosen cfg (chosen_insecure e)
            (ground (arith, addressed, named, h)) in
        subst (λ c. Secure e c) this
          (
            p,
            inr (
              refl,
              (
                ne_of_eq-false e.control_plane_addr "" addressed,
                (ne_of_eq-false e.sidecar_id "" named, transport),
              ),
            ),
          )
  ]
]

mode-Secure :
    (e : Environment) (max : ℤ) (mode : String) (cfg : ControlRuntimeConfig)
    → pos 0 <ℤ max
    → mode_config e max mode ≡ config cfg
    → Secure e cfg
mode-Secure e max mode cfg p h = elim (Bool-cases (str_eq mode "standalone")) [
  | inl alone ↦ standalone-Secure e max cfg p (ground (arith, alone, h))
  | inr other ↦ elim (Bool-cases (str_eq mode "distributed")) [
    | inl distributed ↦ distributed-Secure e max cfg p (ground (arith, other, distributed, h))
    | inr unknown ↦ absurd (ground (arith, other, unknown, h))
  ]
]

-- A configuration that loads has a positive staleness. It is standalone and names no control plane, or it
-- is distributed with an address and an identifier, and its transport uses TLS unless the environment
-- asks for a plaintext one and gives no TLS settings.
pub load_control_runtime_config-Secure :
    (parse_duration : String → Option ℤ) (e : Environment) (cfg : ControlRuntimeConfig)
    → load_control_runtime_config parse_duration e ≡ config cfg
    → Secure e cfg
unfolding load_control_runtime_config
load_control_runtime_config-Secure parse_duration e cfg h =
    go (max_staleness_of parse_duration e.control_max_staleness) refl h
  where
    go :
        (s : Staleness)
        → max_staleness_of parse_duration e.control_max_staleness ≡ s
        → with_staleness e s ≡ config cfg
        → Secure e cfg
    go (bad_staleness err) r k = cc k
    go (staleness max) r k =
        mode-Secure e max (if str_eq e.control_mode "" then "standalone" else e.control_mode) cfg
          (max_staleness_of-positive parse_duration e.control_max_staleness max r) k
