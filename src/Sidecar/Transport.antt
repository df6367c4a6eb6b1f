-- ===== src/Sidecar/Transport.antt =====
-- cmd/sidecar/control_transport.go, and main.go up to the client of the control plane. The pool of
-- certificates, reading a file and `AppendCertsFromPEM` are arguments, and so is the pool that
-- `SystemCertPool` gives, which is none where it has an error or is nil.
use hacp_sidecar.Common.{
  ℕ, String, ◌≡◌, ◌≢◌, ◌⊎◌, inl, inr, refl, Option, none, some, str_eq, eq_iff, if◌then◌else◌,
  Bool-cases, subst, sym,
}
use hacp_sidecar.Common.Int.{ℤ}
use hacp_sidecar.Wire.{Bytes}
use hacp_sidecar.Sidecar.Config.{
  Environment, ControlRuntimeConfig, ConfigError, Loaded, config, rejected,
  load_control_runtime_config, Transport, load_control_runtime_config-Secure,
}

pub data TransportError : Type 0 where
  load_control_ca_file invalid_control_ca_pem : TransportError
  unsupported_control_transport_mode : String → TransportError

-- What `x509` and `os` do.
pub record Certificates (Pool : Type 0) : Type 0 where
  pub system_pool : Option Pool
  pub new_pool : Pool
  pub read_file : String → Option Bytes
  pub append_certs : Pool → Bytes → Option Pool

pub record TlsConfig (Pool : Type 0) : Type 0 where
  pub min_version : ℕ
  pub root_cas : Pool
  pub server_name : String

pub data Credentials (Pool : Type 0) : Type 0 where
  insecure : Credentials Pool
  tls : TlsConfig Pool → Credentials Pool
  no_credentials : TransportError → Credentials Pool

-- `tls.VersionTLS12`.
abbrev pub version_tls12 : ℕ
version_tls12 = 771

module _ {Pool : Type 0} (x509 : Certificates Pool) where
  unfoldable pub system_roots : Pool
  system_roots = elim x509.system_pool [ none ↦ x509.new_pool | some roots ↦ roots ]

  abbrev pub with_roots : ControlRuntimeConfig → Pool → Credentials Pool
  with_roots cfg roots =
      tls record { min_version = version_tls12; root_cas = roots; server_name = cfg.server_name }

  unfoldable pub build_control_tls_credentials : ControlRuntimeConfig → Credentials Pool
  build_control_tls_credentials cfg =
      if str_eq cfg.ca_file ""
      then with_roots cfg system_roots
      else elim (x509.read_file cfg.ca_file) [
        | none ↦ no_credentials load_control_ca_file
        | some pem_bytes ↦ elim (x509.append_certs system_roots pem_bytes) [
          | none ↦ no_credentials invalid_control_ca_pem
          | some roots ↦ with_roots cfg roots
        ]
      ]

  unfoldable pub build_control_transport_credentials : ControlRuntimeConfig → Credentials Pool
  unfolding build_control_tls_credentials
  build_control_transport_credentials cfg =
      if str_eq cfg.tls_mode "required"
      then build_control_tls_credentials cfg
      else if str_eq cfg.tls_mode "insecure"
      then insecure
      else no_credentials (unsupported_control_transport_mode cfg.tls_mode)

  -- What `main` does before it makes the runtime: it dials the control plane, or needs none, or ends.
  pub data Dial : Type 0 where
    dial : String → Credentials Pool → Dial
    local : Dial
    fatal_config : ConfigError → Dial
    fatal_transport : TransportError → Dial

  abbrev pub dial_with : ControlRuntimeConfig → Credentials Pool → Dial
  dial_with cfg insecure = dial cfg.address insecure
  dial_with cfg (tls t) = dial cfg.address (tls t)
  dial_with cfg (no_credentials e) = fatal_transport e

  abbrev pub dialed : String → ControlRuntimeConfig → Dial
  dialed mode cfg =
      if str_eq mode "distributed"
      then dial_with cfg (build_control_transport_credentials cfg)
      else local

  abbrev pub dial_config : Loaded → Dial
  dial_config (rejected e) = fatal_config e
  dial_config (config cfg) = dialed cfg.mode cfg

  unfoldable pub start_control : (String → Option ℤ) → Environment → Dial
  unfolding load_control_runtime_config
  start_control parse_duration e = dial_config (load_control_runtime_config parse_duration e)

  -- The roots that a CA file adds to those of the system, where there is one.
  abbrev pub RootsOf : String → Pool → Type 0
  RootsOf ca_file roots =
      ((ca_file ≡ "") × (roots ≡ system_roots))
      ⊎ ((pem : Bytes) × (x509.read_file ca_file ≡ some pem)
          × (x509.append_certs system_roots pem ≡ some roots))

  -- TLS 1.2, whose number is 771, or later under those roots, and plaintext only where the environment asks for it.
  pub data Protected (cfg : ControlRuntimeConfig) (e : Environment)
      : Credentials Pool → Type 0 where
    encrypted :
        (roots : Pool)
        → RootsOf cfg.ca_file roots
        → Protected cfg e
            (tls record { min_version = 771; root_cas = roots; server_name = cfg.server_name })
    asked_plain : (e.control_tls_mode ≡ "insecure") → Protected cfg e insecure

  -- The same of credentials that could be made.
  abbrev Guarded : ControlRuntimeConfig → Environment → Credentials Pool → Type 0
  Guarded cfg e (no_credentials err) = Unit {0}
  Guarded cfg e insecure = Protected cfg e insecure
  Guarded cfg e (tls t) = Protected cfg e (tls t)

  build_control_tls_credentials-Guarded :
      (cfg : ControlRuntimeConfig) (e : Environment)
      → Guarded cfg e (build_control_tls_credentials cfg)
  unfolding build_control_tls_credentials
  build_control_tls_credentials-Guarded cfg e = elim (Bool-cases (str_eq cfg.ca_file "")) [
    | inl default ↦
        rw (default, build_control_tls_credentials)
          (encrypted system_roots (inl ((eq_iff cfg.ca_file "").0 default, refl)))
    | inr given ↦ rw (given, build_control_tls_credentials) (read (x509.read_file cfg.ca_file) refl)
  ]
    where
      appended :
          (pem : Bytes) (r : Option Pool)
          → x509.read_file cfg.ca_file ≡ some pem
          → x509.append_certs system_roots pem ≡ r
          → Guarded cfg e (elim r [
            | none ↦ no_credentials invalid_control_ca_pem
            | some roots ↦ with_roots cfg roots
          ])
      appended pem none f h = tt
      appended pem (some roots) f h = encrypted roots (inr (pem, f, h))

      read :
          (r : Option Bytes)
          → x509.read_file cfg.ca_file ≡ r
          → Guarded cfg e (elim r [
            | none ↦ no_credentials load_control_ca_file
            | some pem ↦ elim (x509.append_certs system_roots pem) [
              | none ↦ no_credentials invalid_control_ca_pem
              | some roots ↦ with_roots cfg roots
            ]
          ])
      read none f = tt
      read (some pem) f = appended pem (x509.append_certs system_roots pem) f refl

  build_control_transport_credentials-Guarded :
      (cfg : ControlRuntimeConfig) (e : Environment)
      → Transport e cfg
      → Guarded cfg e (build_control_transport_credentials cfg)
  unfolding build_control_transport_credentials
  build_control_transport_credentials-Guarded cfg e (inl required) =
      rw ((eq_iff cfg.tls_mode "required").1 required, build_control_transport_credentials)
        (build_control_tls_credentials-Guarded cfg e)
  build_control_transport_credentials-Guarded cfg e (inr (mode, (asked, plain))) =
      rw (mode) (asked_plain asked)

  dial_with-Protected :
      (cfg : ControlRuntimeConfig) (e : Environment) (c : Credentials Pool) (address : String)
      (creds : Credentials Pool)
      → Guarded cfg e c
      → dial_with cfg c ≡ dial address creds
      → (address ≡ cfg.address) × Protected cfg e creds
  dial_with-Protected cfg e insecure address creds g h =
      (cc h, subst (λ x. Protected cfg e x) (cc h) g)
  dial_with-Protected cfg e (tls t) address creds g h =
      (cc h, subst (λ x. Protected cfg e x) (cc h) g)
  dial_with-Protected cfg e (no_credentials err) address creds g h = cc h

  -- Where the sidecar dials a control plane, a configuration was loaded and names that address, which is
  -- not empty. The connection is at least TLS 1.2, with the server name of the configuration and under
  -- the roots of the system, with those of the CA file where one is set; or it is plaintext, and the
  -- environment asks for that.
  pub start_control-Protected :
      (parse_duration : String → Option ℤ) (e : Environment) (address : String)
      (creds : Credentials Pool)
      → start_control parse_duration e ≡ dial address creds
      → (cfg : ControlRuntimeConfig) × (load_control_runtime_config parse_duration e ≡ config cfg)
        × (address ≡ cfg.address)
        × (address ≢ "")
        × Protected cfg e creds
  unfolding start_control
  start_control-Protected parse_duration e address creds h =
      go (load_control_runtime_config parse_duration e) refl h
    where
      go :
          (l : Loaded)
          → load_control_runtime_config parse_duration e ≡ l
          → dial_config l ≡ dial address creds
          → (cfg : ControlRuntimeConfig) × (load_control_runtime_config parse_duration e
              ≡ config cfg)
            × (address ≡ cfg.address)
            × (address ≢ "")
            × Protected cfg e creds
      go (rejected err) l k = cc k
      go (config cfg) l k = elim (load_control_runtime_config-Secure parse_duration e cfg l).1 [
        | inl (mode, nowhere) ↦
            let other : local ≡ dial address creds =
              subst (λ m. dialed m cfg ≡ dial address creds) mode k in
            cc other
        | inr (mode, (addressed, (named, transport))) ↦
            let made : dial_with cfg (build_control_transport_credentials cfg)
                ≡ dial address creds =
              subst (λ m. dialed m cfg ≡ dial address creds) mode k in
            let (same, protected) =
              dial_with-Protected cfg e (build_control_transport_credentials cfg) address creds
                (build_control_transport_credentials-Guarded cfg e transport) made in
            (cfg, l, same, subst (λ a. a ≢ "") (sym same) addressed, protected)
      ]
