-- ===== src/Trust/Reloading.antt =====
-- internal/trust/reload.go: every outcome of a reload.
use hacp_sidecar.Common.{
  ◌<◌, String, ◌≡◌, ◌≢◌, ◌↔◌, refl, sym, ap, ◌∙◌, false, Option, none, some, List, arith, length,
  ltb, ◌==◌, inl, inr, str_eq, eq_iff, str_append, Bool-cases,
}
use hacp_sidecar.Common.Strings.{ne_of_eq-false, not_eq-false}
use hacp_sidecar.Common.Time.{Time}
use hacp_sidecar.Wire.{Bytes, Crypto}
use hacp_sidecar.Trust.{
  KeyBinding, TrustSnapshot, TrustError, Result, ok, failed, bind_ok, trust_revision_rollback,
  trust_revision_conflict, ◌>>=◌, new_snapshot,
}
use hacp_sidecar.Trust.Store.{AtomicTrustStore, activated, resolve_key, replace, replace_active}
use hacp_sidecar.Trust.File.{
  FileTrustConfig, TrustFile, unopened, undecodable, decoded, end_of_file, another_value, garbage,
  decode_entries, load_config, load_snapshot_file, reload_from_file,
}
use hacp_sidecar.Trust.Bindings.{Bound, new_snapshot_ok, resolve_key_iff}

module _ (hex_decode : String → Option Bytes) (c : Crypto) (now : Time) where
  -- Where a file loads, it holds a configuration and nothing after it, whose entries decode to the
  -- bindings of the snapshot.
  pub load_snapshot_file_ok :
      (path : String) (file : TrustFile) (x : TrustSnapshot)
      → load_snapshot_file hex_decode c now path file ≡ ok x
      → (cfg : FileTrustConfig) × (bs : List KeyBinding) × (file ≡ decoded cfg end_of_file)
        × (decode_entries hex_decode cfg.keys ≡ ok bs)
        × (new_snapshot c cfg.revision now (str_append "file:" path) bs ≡ ok x)
  unfolding load_snapshot_file load_config
  load_snapshot_file_ok path unopened x h = absurd (ground (arith, h))
  load_snapshot_file_ok path undecodable x h = absurd (ground (arith, h))
  load_snapshot_file_ok path (decoded cfg another_value) x h = absurd (ground (arith, h))
  load_snapshot_file_ok path (decoded cfg garbage) x h = absurd (ground (arith, h))
  load_snapshot_file_ok path (decoded cfg end_of_file) x h =
      let loads : (decode_entries hex_decode cfg.keys
            >>= (λ bs. new_snapshot c cfg.revision now (str_append "file:" path) bs))
          ≡ ok x =
        ground (arith, h) in
      let (bs, entries, snapshot) = bind_ok (decode_entries hex_decode cfg.keys) _ x loads in
      (cfg, bs, refl, entries, snapshot)

  -- The file is a whole configuration, and `x` is the snapshot of its entries.
  pub record Loads (path : String) (file : TrustFile) (x : TrustSnapshot) : Type 0 where
    pub config : FileTrustConfig
    pub bindings : List KeyBinding
    pub named : path ≢ ""
    pub whole : file ≡ decoded config end_of_file
    pub numbered : 0 < config.revision
    pub given : 0 < length config.keys
    pub entries : decode_entries hex_decode config.keys ≡ ok bindings
    pub made : new_snapshot c config.revision now (str_append "file:" path) bindings ≡ ok x

  load_snapshot_file-Loads :
      (path : String) (file : TrustFile) (x : TrustSnapshot)
      → load_snapshot_file hex_decode c now path file ≡ ok x
      → Loads path file x
  unfolding load_snapshot_file load_config
  load_snapshot_file-Loads path file x h =
      let (cfg, bs, this, entries, made) = load_snapshot_file_ok path file x h in
      let loads = ap (λ f. load_snapshot_file hex_decode c now path f) (sym this) ∙ h in
      let named : str_eq path "" ≡ false = ground (arith, loads) in
      record {
        config = cfg;
        bindings = bs;
        named = ne_of_eq-false path "" named;
        whole = this;
        numbered = ground (arith, loads);
        given = ground (arith, loads);
        entries = entries;
        made = made;
      }

  Loads-load_snapshot_file :
      (path : String) (file : TrustFile) (x : TrustSnapshot)
      → Loads path file x
      → load_snapshot_file hex_decode c now path file ≡ ok x
  unfolding load_snapshot_file load_config
  Loads-load_snapshot_file path file x l =
      ap (λ f. load_snapshot_file hex_decode c now path f) l.whole
      ∙ ground (arith, not_eq-false path "" l.named, l.numbered, l.given, l.entries, l.made)

  -- What a reload does to a store with the active snapshot `a`. If no snapshot can be made of the file, or the
  -- file's has an earlier revision or the active revision with another fingerprint, an error keeps the
  -- store; a file with the active revision and fingerprint keeps it too; and one with a later revision makes
  -- its snapshot the active one, and the store then resolves exactly the entries of the file.
  pub data Reload (path : String) (file : TrustFile) (a : TrustSnapshot)
      : Option AtomicTrustStore × Option TrustError → Type 0 where
    unloaded :
        (e : TrustError)
        → ((x : TrustSnapshot) → ¬ Loads path file x)
        → Reload path file a (some (record { active = some a }), some e)
    older :
        (x : TrustSnapshot)
        → Loads path file x
        → (x.revision < a.revision)
        → Reload path file a (
          some (record { active = some a }),
          some (trust_revision_rollback a.revision x.revision),
        )
    changed :
        (x : TrustSnapshot)
        → Loads path file x
        → (x.revision ≡ a.revision)
        → (x.fingerprint ≢ a.fingerprint)
        → Reload path file a
            (some (record { active = some a }), some (trust_revision_conflict x.revision))
    same :
        (x : TrustSnapshot)
        → Loads path file x
        → (x.revision ≡ a.revision)
        → (x.fingerprint ≡ a.fingerprint)
        → Reload path file a (some (record { active = some a }), none)
    renewed :
        (x : TrustSnapshot) (l : Loads path file x)
        → (a.revision < x.revision)
        → ((k : String) (key : Bytes)
            → (resolve_key (record { active = some x }) k ≡ ok key) ↔ Bound k key l.bindings)
        → Reload path file a (some (record { active = some x }), none)

  activated-Reload :
      (path : String) (file : TrustFile) (a x : TrustSnapshot)
      → Loads path file x
      → let s : AtomicTrustStore = record { active = some a } in
        let r = activated s (replace_active a x) in Reload path file a (some r.store, r.error)
  unfolding replace_active
  activated-Reload path file a x l = elim (Bool-cases (ltb x.revision a.revision)) [
    | inl earlier ↦ rw (earlier, replace_active) (older x l (ground arith))
    | inr current ↦ elim (Bool-cases (x.revision == a.revision)) [
      | inr newer ↦
          rw (current, newer, replace_active)
            (renewed x l (ground arith)
              (resolve_key_iff c l.config.revision now (str_append "file:" path) l.bindings x
                l.made).1)
      | inl at ↦ elim (Bool-cases (str_eq x.fingerprint a.fingerprint)) [
        | inr other ↦
            rw (current, at, other, replace_active)
              (changed x l (ground arith) (ne_of_eq-false x.fingerprint a.fingerprint other))
        | inl equal ↦
            rw (current, at, equal, replace_active) (same x l (ground arith) ((eq_iff _ _).0 equal))
      ]
    ]
  ]

  replace-Reload :
      (path : String) (file : TrustFile) (a x : TrustSnapshot)
      → Loads path file x
      → let r = replace c (record { active = some a }) x in
        Reload path file a (some r.store, r.error)
  unfolding replace
  replace-Reload path file a x l =
      let (_, _, _, valid) =
        new_snapshot_ok c l.config.revision now (str_append "file:" path) l.bindings x l.made in
      rw (valid, replace) (activated-Reload path file a x l)

  -- A reload of a store with an active snapshot either fails, where no snapshot can be made of the file or
  -- the file's has an earlier revision, or the active revision with another fingerprint, and keeps the
  -- store; or it finds the active revision and fingerprint in the file and keeps the store; or the file's
  -- snapshot has a later revision, becomes the active one, and the store then resolves exactly the
  -- entries of the file.
  pub reload_from_file-Reload :
      (path : String) (file : TrustFile) (a : TrustSnapshot)
      → Reload path file a
          (reload_from_file hex_decode c now path file (some (record { active = some a })))
  unfolding reload_from_file
  reload_from_file-Reload path file a = go (load_snapshot_file hex_decode c now path file) refl
    where
      go :
          (r : Result TrustSnapshot)
          → load_snapshot_file hex_decode c now path file ≡ r
          → Reload path file a
              (reload_from_file hex_decode c now path file (some (record { active = some a })))
      go (failed e) h =
          rw (h, reload_from_file)
            (unloaded e (λ x l. cc (h, Loads-load_snapshot_file path file x l)))
      go (ok x) h =
          rw (h, reload_from_file)
            (replace-Reload path file a x (load_snapshot_file-Loads path file x h))
