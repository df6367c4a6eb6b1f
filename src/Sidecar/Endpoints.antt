-- ===== src/Sidecar/Endpoints.antt =====
-- cmd/sidecar/main.go and trust_admin.go: the local endpoints. A reply is the status, the `Allow`
-- header and the body; the other headers are not modelled. `net.SplitHostPort` and `strings.TrimSpace`
-- are arguments.
use hacp_sidecar.Common.{
  ℕ, String, Bool, false, not, ◌||◌, Option, none, some, str_eq, str_append, if◌then◌else◌,
}
use hacp_sidecar.Common.Time.{Time}
use hacp_sidecar.Revocation.{InMemoryRevocationStore, revoke_key, revoke_token, revoke_envelope}
use hacp_sidecar.Wire.{Bytes, Crypto}
use hacp_sidecar.Trust.{TrustError, Result, ok, failed, ◌>>=◌, trust_not_ready}
use hacp_sidecar.Trust.Store.{
  AtomicTrustStore, revision, fingerprint, active_key_count, source, loaded_at,
}
use hacp_sidecar.Trust.File.{TrustFile, reload_from_file}

pub record TrustStateResponse : Type 0 where
  pub revision : ℕ
  pub fingerprint : String
  pub key_count : ℕ
  pub source : String
  pub loaded_at : Time

-- What a body is made of: a text, the encoded state of the trust store, or the error of a reload.
pub data Body : Type 0 where
  text : String → Body
  trust_state : TrustStateResponse → Body
  reload_rejected : TrustError → Body

pub record Reply : Type 0 where
  pub status : ℕ
  pub allow : Option String
  pub body : Body

abbrev pub http_error : ℕ → String → Reply
http_error status message = record {
  status = status;
  allow = none;
  body = text (str_append message "\n");
}

-- The store after `makeRevokeHandler`'s handler, and its reply.
unfoldable pub revoke_handler :
    InMemoryRevocationStore → String → String → String → Time → InMemoryRevocationStore × Reply
unfolding revoke_key revoke_token revoke_envelope
revoke_handler store kind method id now =
    let revoked : Reply = record { status = 200; allow = none; body = text "revoked\n" } in
    if not (str_eq method "POST")
    then (store, http_error 405 "method not allowed")
    else if str_eq id ""
    then (store, http_error 400 "missing id")
    else if str_eq kind "token"
    then (revoke_token store id now, revoked)
    else if str_eq kind "envelope"
    then (revoke_envelope store id now, revoked)
    else if str_eq kind "key"
    then (revoke_key store id now, revoked)
    else (store, http_error 500 "unsupported revocation kind")

-- The kind that a path stands for, where it is one of the three.
unfoldable pub revocation_kind : String → Option String
revocation_kind path =
    if str_eq path "/revoke/token"
    then some "token"
    else if str_eq path "/revoke/envelope"
    then some "envelope"
    else if str_eq path "/revoke/key"
    then some "key"
    else none

-- What the routes of `registerRevocationRoutes` do with a request; no reply where none of them matches.
unfoldable pub revocation_routes :
    Option InMemoryRevocationStore
    → String
    → String
    → String
    → Time
    → Option InMemoryRevocationStore × Option Reply
unfolding revoke_handler revocation_kind
revocation_routes store path method id now = elim (revocation_kind path) [
  | none ↦ (store, none)
  | some kind ↦ elim store [
    | none ↦ (none, some (http_error 404 "404 page not found"))
    | some s ↦
        let handled : InMemoryRevocationStore × Reply = revoke_handler s kind method id now in
        (some handled.0, some handled.1)
  ]
]

unfoldable pub read_trust_state : Option AtomicTrustStore → Result TrustStateResponse
unfolding revision fingerprint active_key_count source loaded_at
read_trust_state none = failed trust_not_ready
read_trust_state (some store) = revision store >>= (λ r. fingerprint store >>= (λ f.
    active_key_count store >>= (λ n. source store >>= (λ s. loaded_at store >>= (λ t.
      ok record { revision = r; fingerprint = f; key_count = n; source = s; loaded_at = t })))))

abbrev pub method_not_allowed : String → Reply
method_not_allowed allowed = record {
  status = 405;
  allow = some allowed;
  body = text "method not allowed\n";
}

abbrev pub trust_state_reply : Result TrustStateResponse → Reply
trust_state_reply (failed e) = http_error 503 "trust store not ready"
trust_state_reply (ok state) = record { status = 200; allow = none; body = trust_state state }

-- The handler of `/trust`.
unfoldable pub get_trust : Option AtomicTrustStore → String → Reply
unfolding read_trust_state
get_trust store method =
    if not (str_eq method "GET")
    then method_not_allowed "GET"
    else trust_state_reply (read_trust_state store)

abbrev pub reloaded : Option AtomicTrustStore × Option TrustError → Option AtomicTrustStore × Reply
reloaded (store, some e) = (store, record { status = 409; allow = none; body = reload_rejected e })
reloaded (store, none) = (store, trust_state_reply (read_trust_state store))

module _ (hex_decode : String → Option Bytes) (c : Crypto) (trim_space : String → String) where
  -- The handler of `/trust/reload`, where `file` is what opening and decoding `path` give.
  unfoldable pub post_trust_reload :
      Option AtomicTrustStore → String → TrustFile → String → Time → Option AtomicTrustStore × Reply
  unfolding reload_from_file
  post_trust_reload store path file method now =
      if not (str_eq method "POST")
      then (store, method_not_allowed "POST")
      else if str_eq (trim_space path) ""
      then (store, http_error 409 "trust reload is unavailable without an explicit trust file")
      else reloaded (reload_from_file hex_decode c now path file store)

-- `validateTrustAdminAddress`: whether the address is accepted; none is an error of `SplitHostPort`.
unfoldable pub valid_trust_admin_address :
    (String → Option (String × String)) → (String → String) → String → Bool
valid_trust_admin_address split_host_port trim_space addr =
    elim (split_host_port (trim_space addr)) [
      | none ↦ false
      | some (host, port) ↦
          if str_eq port ""
          then false
          else str_eq host "127.0.0.1" || str_eq host "::1" || str_eq host "localhost"
    ]
