-- ===== src/Sidecar/Starting.antt =====
-- cmd/sidecar/main.go: what a sidecar that starts has been configured with.
use hacp_sidecar.Common.{
  String, ◌≡◌, ◌≢◌, ◌⊎◌, refl, sym, ap, ◌∙◌, Bool, true, false, Option, none, some, arith, inl, inr,
  Bool-cases, subst,
}
use hacp_sidecar.Common.Time.{Time}
use hacp_sidecar.Revocation
use hacp_sidecar.Revocation.{InMemoryRevocationStore}
use hacp_sidecar.ControlPlane.Subscriber.{Subscriber}
use hacp_sidecar.Trust.Store.{AtomicTrustStore}
use hacp_sidecar.Trust.Startup.{
  TrustStartup, started, not_started, load_startup_trust_store, FromFile, FromBuiltin,
  load_startup_trust_store_lem,
}
use hacp_sidecar.Sidecar.Config.{
  ControlRuntimeConfig, Loaded, config, rejected, load_control_runtime_config, Secure,
  load_control_runtime_config-Secure,
}
use hacp_sidecar.Sidecar.Transport.{
  Credentials, Dial, dial, local, fatal_config, fatal_transport, dialed, dial_config, start_control,
  Protected, start_control-Protected,
}
use hacp_sidecar.Sidecar.Runtime.{
  ControlRuntime, standalone, distributed, Built, built, not_built, new_control_runtime,
}
use hacp_sidecar.Sidecar.Endpoints.{valid_trust_admin_address}
use hacp_sidecar.Sidecar.Modes.{
  Runs, Loopback, new_control_runtime-Runs, valid_trust_admin_address-Loopback,
}
use hacp_sidecar.Sidecar.Main.{
  Settings, System, Admin, disabled, listening, not_admin, Running, running,
  start_trust_admin_server, with_admin, assembled, with_runtime, with_client, with_trust_store,
  with_config, start,
}

module _ {Pool : Type 0} (sys : System Pool) (s : Settings) (loaded_at made_at : Time) where
  start_trust_admin_server-Loopback :
      (raw addr : String)
      → start_trust_admin_server sys raw ≡ listening addr
      → Loopback sys.split_host_port (sys.trim_space addr)
  unfolding start_trust_admin_server
  start_trust_admin_server-Loopback raw addr h =
      let raw_addr : String = sys.trim_space raw in
      let checked = valid_trust_admin_address sys.split_host_port sys.trim_space in
      let (same, valid) : (raw_addr ≡ addr) × (checked raw_addr ≡ true) =
        (ground (arith, h), ground (arith, h)) in
      valid_trust_admin_address-Loopback sys.split_host_port sys.trim_space addr
        (subst (λ a. checked a ≡ true) same valid)

  -- The parts that `main` has put together.
  abbrev pub complete :
      ControlRuntimeConfig → AtomicTrustStore → ControlRuntime → Option String → Running
  complete cfg trust runtime admin = record (assembled sys s loaded_at made_at cfg trust runtime) {
    admin = admin;
  }

  abbrev pub LoopbackIf : Option String → Type 0
  LoopbackIf admin =
      (addr : String) → admin ≡ some addr → Loopback sys.split_host_port (sys.trim_space addr)

  with_admin-LoopbackIf :
      (cfg : ControlRuntimeConfig) (trust : AtomicTrustStore) (runtime : ControlRuntime) (a : Admin)
      (r : Running)
      → start_trust_admin_server sys s.trust_admin_addr ≡ a
      → with_admin sys s loaded_at made_at (assembled sys s loaded_at made_at cfg trust runtime) a
        ≡ running r
      → (admin : Option String) × (complete cfg trust runtime admin ≡ r) × LoopbackIf admin
  with_admin-LoopbackIf cfg trust runtime disabled r e h = (none, cc h, λ addr k. cc k)
  with_admin-LoopbackIf cfg trust runtime (listening addr) r e h = (
    some addr,
    cc h,
    λ other k. start_trust_admin_server-Loopback s.trust_admin_addr other (e ∙ cc k),
  )
  with_admin-LoopbackIf cfg trust runtime (not_admin error) r e h = cc h

  -- The trust store is that of the file, or of the test key where the test mode asks for it.
  abbrev pub Trusted : AtomicTrustStore → Type 0
  Trusted trust =
      let file : String = sys.trim_space s.trust_keys_file in
      ((sys.trim_space s.trust_mode ≢ "test")
        × FromFile sys.hex_decode sys.crypto loaded_at file (sys.trust_file file) trust)
      ⊎ ((sys.trim_space s.trust_mode ≡ "test")
          × FromBuiltin sys.hex_decode sys.crypto loaded_at file trust)

  -- The control plane is dialled as configured.
  abbrev pub Dialed : ControlRuntimeConfig → Type 0
  Dialed cfg =
      (cfg.address ≢ "")
      × ((creds : Credentials Pool) × Protected sys.x509 cfg s.control creds
          × (sys.new_client cfg.address creds ≡ true))

  -- A local store for the standalone mode, a subscriber to the configured control plane for the other.
  abbrev pub Distributes : ControlRuntimeConfig → ControlRuntime → Type 0
  Distributes cfg r =
      ((cfg.mode ≡ "standalone") × (r ≡ standalone (Revocation.new_store made_at)))
      ⊎ ((cfg.mode ≡ "distributed") × Dialed cfg × ((t : Subscriber) × (r ≡ distributed t)))

  pub record Guarded (cfg : ControlRuntimeConfig) (trust : AtomicTrustStore)
      (runtime : ControlRuntime) (admin : Option String) : Type 0 where
    pub secure : Secure s.control cfg
    pub distributes : Distributes cfg runtime
    pub trusted : Trusted trust
    pub loopback : LoopbackIf admin

  -- What is made of a configuration and a trust store.
  abbrev Complete :
      ControlRuntimeConfig → AtomicTrustStore → (ControlRuntime → Type 0) → Running → Type 0
  Complete cfg trust Wanted r =
      (runtime : ControlRuntime) × Wanted runtime
      × ((admin : Option String) × (complete cfg trust runtime admin ≡ r) × LoopbackIf admin)

  with_runtime-Complete :
      (cfg : ControlRuntimeConfig) (trust : AtomicTrustStore) (client : Bool) (b : Built)
      (r : Running)
      → new_control_runtime cfg client made_at ≡ b
      → with_runtime sys s loaded_at made_at cfg trust b ≡ running r
      → Complete cfg trust (Runs cfg client made_at) r
  with_runtime-Complete cfg trust client (not_built error) r e h = cc h
  with_runtime-Complete cfg trust client (built runtime) r e h = (
    runtime,
    new_control_runtime-Runs cfg client made_at runtime e,
    with_admin-LoopbackIf cfg trust runtime (start_trust_admin_server sys s.trust_admin_addr) r refl
        h,
  )

  config-injective : (a b : ControlRuntimeConfig) → config a ≡ config b → a ≡ b
  config-injective a b h = cc h

  -- What is dialled is what the configuration names, with the protection that it asks for.
  dialed-Protected :
      (cfg : ControlRuntimeConfig) (address : String) (creds : Credentials Pool)
      → load_control_runtime_config sys.parse_duration s.control ≡ config cfg
      → dialed sys.x509 cfg.mode cfg ≡ dial address creds
      → (address ≡ cfg.address) × (address ≢ "") × Protected sys.x509 cfg s.control creds
  unfolding start_control
  dialed-Protected cfg address creds l h =
      let (c, loads, at, named, protected) =
        start_control-Protected sys.x509 sys.parse_duration s.control address creds
          (ap (dial_config sys.x509) l ∙ h) in
      let same = config-injective c cfg (sym loads ∙ l) in
      (
        at ∙ ap (λ d. d.address) same,
        named,
        subst (λ d. Protected sys.x509 d s.control creds) same protected,
      )

  with_client-Complete :
      (cfg : ControlRuntimeConfig) (trust : AtomicTrustStore) (d : Dial sys.x509) (r : Running)
      → load_control_runtime_config sys.parse_duration s.control ≡ config cfg
      → dialed sys.x509 cfg.mode cfg ≡ d
      → with_client sys s loaded_at made_at cfg trust d ≡ running r
      → Complete cfg trust (Distributes cfg) r
  with_client-Complete cfg trust local r l e h =
      let (runtime, runs, rest) = with_runtime-Complete cfg trust false _ r refl h in
      (
        runtime,
        elim runs [
          | inl alone ↦ inl alone
          | inr (mode, client, _) ↦ absurd (ground (arith, client))
        ],
        rest,
      )
  with_client-Complete cfg trust (dial address creds) r l e h =
      elim (Bool-cases (sys.new_client address creds)) [
        | inr failed ↦ absurd (ground (arith, failed, h))
        | inl made ↦
            let (at, named, protected) = dialed-Protected cfg address creds l e in
            let (runtime, runs, rest) =
              with_runtime-Complete cfg trust true _ r refl (ground (arith, made, h)) in
            let dialled : Dialed cfg = (
              λ k. named (at ∙ k),
              (creds, protected, subst (λ a. sys.new_client a creds ≡ true) at made),
            ) in
            (
              runtime,
              elim runs [
                | inl alone ↦ inl alone
                | inr (mode, client, subscriber) ↦ inr (mode, dialled, subscriber)
              ],
              rest,
            )
      ]
  with_client-Complete cfg trust (fatal_config error) r l e h = cc h
  with_client-Complete cfg trust (fatal_transport error) r l e h = cc h

  with_trust_store-Guarded :
      (cfg : ControlRuntimeConfig) (t : TrustStartup) (r : Running)
      → load_control_runtime_config sys.parse_duration s.control ≡ config cfg
      → load_startup_trust_store sys.hex_decode sys.crypto loaded_at
          (sys.trim_space s.trust_mode)
          (sys.trim_space s.trust_keys_file)
          (sys.trust_file (sys.trim_space s.trust_keys_file))
        ≡ t
      → with_trust_store sys s loaded_at made_at cfg t ≡ running r
      → Guarded r.control r.trust r.runtime r.admin
  with_trust_store-Guarded cfg (not_started error) r l e h = cc h
  with_trust_store-Guarded cfg (started trust) r l e h =
      let (runtime, distributes, (admin, this, loopback)) =
        with_client-Complete cfg trust (dialed sys.x509 cfg.mode cfg) r l refl h in
      subst (λ q. Guarded q.control q.trust q.runtime q.admin) this
        (record {
          secure = load_control_runtime_config-Secure sys.parse_duration s.control cfg l;
          distributes = distributes;
          trusted =
              load_startup_trust_store_lem sys.hex_decode sys.crypto loaded_at
                (sys.trim_space s.trust_mode) (sys.trim_space s.trust_keys_file)
                (sys.trust_file (sys.trim_space s.trust_keys_file)) trust e;
          loopback = loopback;
        })

  with_config-Guarded :
      (l : Loaded) (r : Running)
      → load_control_runtime_config sys.parse_duration s.control ≡ l
      → with_config sys s loaded_at made_at l ≡ running r
      → Guarded r.control r.trust r.runtime r.admin
  with_config-Guarded (rejected error) r l h = cc h
  with_config-Guarded (config cfg) r l h = with_trust_store-Guarded cfg _ r l refl h

  -- Where the sidecar starts, its configuration is consistent. A standalone one has an empty local store. A
  -- distributed one has a subscriber to the control plane at the configured address, over TLS 1.2 or later
  -- unless the environment asks for plaintext. The trust store resolves exactly the entries of the
  -- configured file, or in the test mode the published key alone, and the trust admin server listens on
  -- the loopback interface alone.
  pub start-Guarded :
      (r : Running)
      → start sys s loaded_at made_at ≡ running r
      → Guarded r.control r.trust r.runtime r.admin
  unfolding start
  start-Guarded r h =
      with_config-Guarded (load_control_runtime_config sys.parse_duration s.control) r refl h
