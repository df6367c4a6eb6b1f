-- ===== src/Tests/Trusting.antt =====
-- The trust store of internal/trust, with two keys of 32 bytes.
use hacp_sidecar.Common.{
  ℕ, String, ◌≡◌, ◌≢◌, ◌↔◌, ◌⊎◌, refl, true, Option, none, some, List, [], ◌∷◌, arith, str_eq,
  if◌then◌else◌,
}
use hacp_sidecar.Common.Int.{add_int64}
use hacp_sidecar.Common.Strings.{lookup, put}
use hacp_sidecar.Common.Utf8.{utf8}
use hacp_sidecar.Wire.{
  bytes_equal, Bytes, verify_ed25519, sha256_hex, envelope_payload, token_payload,
}
use hacp_sidecar.Evaluate.Interfaces.{effective_clock}
use hacp_sidecar.Evaluate.Pipeline.Checks.{Pipeline, evaluation_time}
use hacp_sidecar.Evaluate.Pipeline.Authorized.{EnvelopeAuthorized, TokenAuthorized}
use hacp_sidecar.Evaluate.Pipeline.{evaluate}
use hacp_sidecar.Evaluate.Pipeline.Authorization.{allows, evaluate-allows_token}
use hacp_sidecar.Trust.{
  KeyBinding, TrustSnapshot, conflicting_key_binding, ok, failed, new_snapshot, add_binding,
  add_bindings, fingerprint_keys, insert_id, sort_ids, hashed, check_keys, validate,
}
use hacp_sidecar.Trust.Store.{new_store, resolve_key, key_resolver}
use hacp_sidecar.Trust.File.{
  TrustFile, decoded, end_of_file, decode_entry, decode_entries, load_config, load_snapshot_file,
  reload_from_file,
}
use hacp_sidecar.Trust.Bindings.{Bound, resolve_key_iff}
use hacp_sidecar.Trust.Revisions.{replace_all, Later, replace_all-Later}
use hacp_sidecar.Trust.Reloading.{Reload, reload_from_file-Reload}
use hacp_sidecar.Trust.Startup.{
  load_startup_trust_store, start_production, started, FromFile, FromBuiltin,
  load_startup_trust_store_lem,
}
use hacp_sidecar.Trust.Signers.{with_trust, SignedBy, evaluate-SignedBy}
use hacp_sidecar.Trust.Written.{written}
use hacp_sidecar.Trust.Fingerprint.{ids_without_nul, SameBindings, fingerprint_iff}
use hacp_sidecar.Tests.Decisions.{
  zeros, crypto, pipeline, writer, state, env, tok, req, clock, token_left,
}

-- The second binding is given twice.
abbrev bindings : List KeyBinding
bindings =
    record { key_id = "k1"; public_key = zeros 32 }
    ∷ record { key_id = "k0"; public_key = 7 ∷ zeros 31 }
    ∷ record { key_id = "k0"; public_key = 7 ∷ zeros 31 }
    ∷ []

abbrev keys : List (String × Bytes)
keys = ("k1", zeros 32) ∷ ("k0", 7 ∷ zeros 31) ∷ []

abbrev snapshot : ℕ → TrustSnapshot
snapshot revision = record {
  revision = revision;
  loaded_at = 5;
  source = "test";
  keys = keys;
  fingerprint = "digest";
}

made : new_snapshot crypto 3 5 "test" bindings ≡ ok (snapshot 3)
unfolding new_snapshot add_bindings add_binding bytes_equal lookup put validate check_keys
    fingerprint_keys sort_ids insert_id hashed utf8
made = refl

-- A second key for one id.
conflicting :
    add_bindings keys (record { key_id = "k1"; public_key = 7 ∷ zeros 31 } ∷ [])
    ≡ failed (conflicting_key_binding "k1")
unfolding add_bindings add_binding bytes_equal lookup put
conflicting = refl

resolve_key_iff_example :
    (new_store crypto (snapshot 3) ≡ ok (record { active = some (snapshot 3) }))
    × ((k : String) (key : Bytes)
        → (resolve_key (record { active = some (snapshot 3) }) k ≡ ok key) ↔ Bound k key bindings)
resolve_key_iff_example = resolve_key_iff crypto 3 5 "test" bindings (snapshot 3) made

-- An older revision, a later one, and one that is not valid.
abbrev offered : List TrustSnapshot
offered = snapshot 2 ∷ snapshot 5 ∷ (record (snapshot 9) { fingerprint = "other" }) ∷ []

replace_all-Later_example :
    (b : TrustSnapshot) × (replace_all crypto (record { active = some (snapshot 3) }) offered
      ≡ record { active = some b })
    × Later crypto (snapshot 3) offered b
replace_all-Later_example = replace_all-Later crypto (snapshot 3) offered

abbrev pub hex_decode : String → Option Bytes
hex_decode text = if str_eq text "00" then some (zeros 32) else none

abbrev pub file : TrustFile
file =
    decoded (record { revision = 4; keys = record { key_id = "k1"; public_key_hex = "00" } ∷ [] })
      end_of_file

reload_from_file-Reload_example : Reload hex_decode crypto 5 "keys.json" file (snapshot 3) (
    reload_from_file hex_decode crypto 5 "keys.json" file
      (some (record { active = some (snapshot 3) })))
reload_from_file-Reload_example =
    reload_from_file-Reload hex_decode crypto 5 "keys.json" file (snapshot 3)

abbrev pub file_snapshot : TrustSnapshot
file_snapshot = record {
  revision = 4;
  loaded_at = 5;
  source = "file:keys.json";
  keys = ("k1", zeros 32) ∷ [];
  fingerprint = "digest";
}

starts :
    load_startup_trust_store hex_decode crypto 5 "" "keys.json" file
    ≡ started (record { active = some file_snapshot })
unfolding load_startup_trust_store start_production load_snapshot_file load_config decode_entries
    decode_entry new_snapshot add_bindings add_binding bytes_equal lookup put validate check_keys
    fingerprint_keys sort_ids insert_id hashed utf8 new_store
starts = refl

load_startup_trust_store_lem_example :
    (◌≢◌ {A = String} "" "test"
      × FromFile hex_decode crypto 5 "keys.json" file (record { active = some file_snapshot }))
    ⊎ (◌≡◌ {A = String} "" "test"
        × FromBuiltin hex_decode crypto 5 "keys.json" (record { active = some file_snapshot }))
load_startup_trust_store_lem_example =
    load_startup_trust_store_lem hex_decode crypto 5 "" "keys.json" file
      (record { active = some file_snapshot }) starts

abbrev trusting : Pipeline
trusting = with_trust pipeline (record { active = some (snapshot 3) })

env_authorized : EnvelopeAuthorized trusting env req clock
unfolding verify_ed25519 evaluation_time effective_clock add_int64 with_trust key_resolver
    resolve_key lookup
env_authorized = record {
  fresh = tt;
  signed = record { key = zeros 32; known = refl; unrevoked = refl; verified = refl };
  unrevoked = refl;
  in_time = omega arith;
  clear = tt;
}

tok_authorized : TokenAuthorized trusting env tok req (evaluation_time req clock)
unfolding verify_ed25519 evaluation_time effective_clock add_int64 sha256_hex with_trust
    key_resolver resolve_key lookup
tok_authorized = record {
  signed = record { key = zeros 32; known = refl; unrevoked = refl; verified = refl };
  unrevoked = refl;
  in_time = omega arith;
  bound = refl;
  allows = refl;
  proposed = λ h. ground arith;
  canonical = 123 ∷ 125 ∷ [];
  canonicalized = refl;
  hashed = refl;
  matched = refl;
  inside = refl;
}

allowed : allows (evaluate writer trusting state (some env) (some tok) (some req) clock) ≡ true
allowed =
    (evaluate-allows_token writer trusting state env tok req clock).1
      (env_authorized, tok_authorized, token_left, ("r1" ∷ [], refl))

evaluate-SignedBy_example :
    SignedBy crypto bindings "k1" (envelope_payload env) (zeros 64)
    × SignedBy crypto bindings "k1" (token_payload tok) (zeros 64)
evaluate-SignedBy_example =
    evaluate-SignedBy writer pipeline crypto 3 5 "test" bindings (snapshot 3) state env tok req
      clock made allowed

-- The same bindings in another order, without the repetition, and as another revision.
abbrev reordered : List KeyBinding
reordered =
    record { key_id = "k0"; public_key = 7 ∷ zeros 31 }
    ∷ record { key_id = "k1"; public_key = zeros 32 }
    ∷ []

abbrev reordered_snapshot : TrustSnapshot
reordered_snapshot = record {
  revision = 4;
  loaded_at = 6;
  source = "other";
  keys = ("k0", 7 ∷ zeros 31) ∷ ("k1", zeros 32) ∷ [];
  fingerprint = "digest";
}

remade : new_snapshot crypto 4 6 "other" reordered ≡ ok reordered_snapshot
unfolding new_snapshot add_bindings add_binding bytes_equal lookup put validate check_keys
    fingerprint_keys sort_ids insert_id hashed utf8
remade = refl

fingerprint_iff_example : (◌≡◌ {A = String} "digest" "digest") ↔ SameBindings bindings reordered
unfolding ids_without_nul hashed sort_ids insert_id lookup
fingerprint_iff_example =
    fingerprint_iff crypto 3 4 5 6 "test" "other" bindings reordered (snapshot 3) reordered_snapshot
      made remade refl refl (λ h. refl)

-- An id with a NUL: what is hashed for one binding is what is hashed for two, the first with a key of 32 `x`.
abbrev two_keys : List (String × Bytes)
two_keys = ("a", utf8 "xxxxxxxxxxxxxxxxxxxxxxxxxxxxxxxx") ∷ ("b", zeros 32) ∷ []

abbrev one_key : List (String × Bytes)
one_key = ("a\0xxxxxxxxxxxxxxxxxxxxxxxxxxxxxxxx\0b", zeros 32) ∷ []

ambiguous : written two_keys ≡ written one_key
unfolding hashed sort_ids insert_id lookup utf8
ambiguous = refl
