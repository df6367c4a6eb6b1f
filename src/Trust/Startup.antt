-- ===== src/Trust/Startup.antt =====
-- cmd/sidecar/trust_config.go: the trust store that the sidecar starts with.
use hacp_sidecar.Common.{
  ℕ, String, ◌≡◌, ◌≢◌, ◌↔◌, ◌⊎◌, refl, sym, subst, false, not, Option, none, some, List, [], ◌∷◌,
  arith, length, str_eq, eq_iff, str_append, ◌==◌, if◌then◌else◌, inl, inr, Bool-cases,
  Option-cases,
}
use hacp_sidecar.Common.Strings.{ne_of_eq-false}
use hacp_sidecar.Common.Time.{Time}
use hacp_sidecar.Wire.{Bytes, Crypto, public_key_size}
use hacp_sidecar.Trust.{KeyBinding, TrustSnapshot, TrustError, Result, ok, failed, new_snapshot}
use hacp_sidecar.Trust.Store.{AtomicTrustStore, new_store, resolve_key}
use hacp_sidecar.Trust.File.{
  FileTrustConfig, TrustFile, decoded, end_of_file, decode_entries, load_snapshot_file,
}
use hacp_sidecar.Trust.Bindings.{Bound, resolve_key_iff}
use hacp_sidecar.Trust.Reloading.{load_snapshot_file_ok}

abbrev pub conformance_test_key_id : String
conformance_test_key_id = "key-ed25519-test-001"

abbrev pub conformance_test_key_hex : String
conformance_test_key_hex = "9d17f1bbcc0845865e670f526413fb7a510380798fe300b6c98e28f3a3b0fdb3"

pub data StartupError : Type 0 where
  missing_trust_config ambiguous_trust_mode undecodable_builtin_key : StartupError
  builtin_key_size : ℕ → StartupError
  trust_error : TrustError → StartupError
  unsupported_trust_mode : String → StartupError

pub data TrustStartup : Type 0 where
  started : AtomicTrustStore → TrustStartup
  not_started : StartupError → TrustStartup

abbrev pub of_store : Result AtomicTrustStore → TrustStartup
of_store (ok s) = started s
of_store (failed e) = not_started (trust_error e)

abbrev pub of_snapshot : Crypto → Result TrustSnapshot → TrustStartup
of_snapshot c (failed e) = not_started (trust_error e)
of_snapshot c (ok x) = of_store (new_store c x)

abbrev pub builtin_bindings : Bytes → List KeyBinding
builtin_bindings raw = record { key_id = conformance_test_key_id; public_key = raw } ∷ []

-- The two environment variables are arguments, without the white space around them.
module _ (hex_decode : String → Option Bytes) (c : Crypto) (now : Time) where
  unfoldable pub start_production : String → TrustFile → TrustStartup
  start_production trust_file file =
      if str_eq trust_file ""
      then not_started missing_trust_config
      else of_snapshot c (load_snapshot_file hex_decode c now trust_file file)

  unfoldable pub start_test : String → TrustStartup
  start_test trust_file =
      if not (str_eq trust_file "")
      then not_started ambiguous_trust_mode
      else elim (hex_decode conformance_test_key_hex) [
        | none ↦ not_started undecodable_builtin_key
        | some raw ↦
            if not (length raw == public_key_size)
            then not_started (builtin_key_size (length raw))
            else of_snapshot c
                (new_snapshot c 1 now "builtin:conformance-test" (builtin_bindings raw))
      ]

  abbrev pub start_mode : String → String → TrustFile → TrustStartup
  start_mode mode trust_file file =
      if str_eq mode "production"
      then start_production trust_file file
      else if str_eq mode "test"
      then start_test trust_file
      else not_started (unsupported_trust_mode mode)

  unfoldable pub load_startup_trust_store : String → String → TrustFile → TrustStartup
  unfolding start_production start_test
  load_startup_trust_store mode trust_file file =
      start_mode (if str_eq mode "" then "production" else mode) trust_file file

  of_snapshot_started :
      (revision : ℕ) (source : String) (bs : List KeyBinding) (r : Result TrustSnapshot)
      (s : AtomicTrustStore)
      → new_snapshot c revision now source bs ≡ r
      → of_snapshot c r ≡ started s
      → (k : String) (key : Bytes) → (resolve_key s k ≡ ok key) ↔ Bound k key bs
  of_snapshot_started revision source bs (failed e) s h started_s k key = cc started_s
  of_snapshot_started revision source bs (ok x) s h started_s k key =
      let (made, resolved) = resolve_key_iff c revision now source bs x h in
      let this : s ≡ record { active = some x } = ground (arith, made, started_s) in
      subst (λ t. (resolve_key t k ≡ ok key) ↔ Bound k key bs) (sym this) (resolved k key)

  -- The store resolves exactly the bindings.
  abbrev pub Resolves : AtomicTrustStore → List KeyBinding → Type 0
  Resolves s bs = (k : String) (key : Bytes) → (resolve_key s k ≡ ok key) ↔ Bound k key bs

  -- The store is that of the file, which holds one configuration.
  abbrev pub FromFile : String → TrustFile → AtomicTrustStore → Type 0
  FromFile trust_file file s =
      (trust_file ≢ "")
      × ((cfg : FileTrustConfig) × (bs : List KeyBinding) × (file ≡ decoded cfg end_of_file)
          × (decode_entries hex_decode cfg.keys ≡ ok bs)
          × Resolves s bs)

  -- The published test key, under its id.
  abbrev pub Published : Bytes → List KeyBinding → Type 0
  Published raw bs =
      (hex_decode "9d17f1bbcc0845865e670f526413fb7a510380798fe300b6c98e28f3a3b0fdb3" ≡ some raw)
      × (length raw ≡ 32)
      × (bs ≡ record { key_id = "key-ed25519-test-001"; public_key = raw } ∷ [])

  -- The store resolves the published test key alone, and no file was named.
  abbrev pub FromBuiltin : String → AtomicTrustStore → Type 0
  FromBuiltin trust_file s =
      (trust_file ≡ "")
      × ((raw : Bytes) × (bs : List KeyBinding) × Published raw bs × Resolves s bs)

  from_file :
      (trust_file : String) (file : TrustFile) (s : AtomicTrustStore) (r : Result TrustSnapshot)
      → trust_file ≢ ""
      → load_snapshot_file hex_decode c now trust_file file ≡ r
      → of_snapshot c r ≡ started s
      → FromFile trust_file file s
  from_file trust_file file s (failed e) named loaded f = cc f
  from_file trust_file file s (ok x) named loaded f =
      let (cfg, bs, this, entries, snapshot) =
        load_snapshot_file_ok hex_decode c now trust_file file x loaded in
      (
        named,
        (
          cfg,
          bs,
          this,
          entries,
          of_snapshot_started cfg.revision (str_append "file:" trust_file) bs (ok x) s snapshot f,
        ),
      )

  start_production-FromFile :
      (trust_file : String) (file : TrustFile) (s : AtomicTrustStore)
      → start_production trust_file file ≡ started s
      → FromFile trust_file file s
  unfolding start_production
  start_production-FromFile trust_file file s h = elim (Bool-cases (str_eq trust_file "")) [
    | inl nameless ↦ absurd (ground (arith, nameless, h))
    | inr named ↦
        from_file trust_file file s (load_snapshot_file hex_decode c now trust_file file)
          (ne_of_eq-false trust_file "" named) refl (ground (arith, named, h))
  ]

  from_builtin :
      (s : AtomicTrustStore) (raw : Bytes) (r : Result TrustSnapshot)
      → new_snapshot c 1 now "builtin:conformance-test" (builtin_bindings raw) ≡ r
      → of_snapshot c r ≡ started s
      → Resolves s (builtin_bindings raw)
  from_builtin s raw r h f =
      of_snapshot_started 1 "builtin:conformance-test" (builtin_bindings raw) r s h f

  start_test-FromBuiltin :
      (trust_file : String) (s : AtomicTrustStore)
      → start_test trust_file ≡ started s
      → FromBuiltin trust_file s
  unfolding start_test
  start_test-FromBuiltin trust_file s h = elim (Bool-cases (str_eq trust_file "")) [
    | inr named ↦ absurd (ground (arith, named, h))
    | inl nameless ↦ elim (Option-cases (hex_decode conformance_test_key_hex)) [
      | inl bad ↦ absurd (ground (arith, nameless, bad, h))
      | inr (raw, good) ↦ (
        (eq_iff trust_file "").0 nameless,
        (
          raw,
          builtin_bindings raw,
          (good, ground (arith, nameless, good, h), refl),
          from_builtin s raw _ refl (ground (arith, nameless, good, h)),
        ),
      )
    ]
  ]

  in_production :
      (mode trust_file : String) (file : TrustFile) (s : AtomicTrustStore)
      → str_eq mode "test" ≡ false
      → load_startup_trust_store mode trust_file file ≡ started s
      → start_production trust_file file ≡ started s
  unfolding load_startup_trust_store
  in_production mode trust_file file s other h = elim (Bool-cases (str_eq mode "")) [
    | inl unset ↦
        subst (λ m. load_startup_trust_store m trust_file file ≡ started s)
          ((eq_iff mode "").0 unset) h
    | inr given ↦
        let chosen : start_mode mode trust_file file ≡ started s =
          subst (λ b. start_mode (if b then "production" else mode) trust_file file ≡ started s)
            given h in
        ground (arith, other, chosen)
  ]

  -- Where the sidecar starts, its trust store resolves exactly the entries of the configured file, in
  -- any mode but the test mode; in the test mode it resolves the published key alone, and no file
  -- is configured. So the test key is never trusted beside a file's.
  pub load_startup_trust_store_lem :
      (mode trust_file : String) (file : TrustFile) (s : AtomicTrustStore)
      → load_startup_trust_store mode trust_file file ≡ started s
      → ((mode ≢ "test") × FromFile trust_file file s)
        ⊎ ((mode ≡ "test") × FromBuiltin trust_file s)
  unfolding load_startup_trust_store
  load_startup_trust_store_lem mode trust_file file s h = elim (Bool-cases (str_eq mode "test")) [
    | inl test ↦
        let at = (eq_iff mode "test").0 test in
        let this : start_test trust_file ≡ started s =
          subst (λ m. load_startup_trust_store m trust_file file ≡ started s) at h in
        inr (at, start_test-FromBuiltin trust_file s this)
    | inr other ↦ inl (
      ne_of_eq-false mode "test" other,
      start_production-FromFile trust_file file s (in_production mode trust_file file s other h),
    )
  ]
