-- ===== src/Tests/Configuring.antt =====
-- cmd/sidecar: configurations, a distributed sidecar whose first snapshot does not come, and a standalone
-- one that is asked to revoke.
use hacp_sidecar.Common.{
  String, ◌≡◌, refl, true, false, Option, none, some, List, [], ◌∷◌, str_eq, if◌then◌else◌,
}
use hacp_sidecar.Common.Int.{ℤ, pos}
use hacp_sidecar.Revocation
use hacp_sidecar.Revocation.{InMemoryRevocationStore}
use hacp_sidecar.ControlPlane.Adapter.{new_adapter}
use hacp_sidecar.ControlPlane.State.{new_control_state}
use hacp_sidecar.ControlPlane.Journal.{RevocationKind}
use hacp_sidecar.ControlPlane.Subscriber.{
  Subscriber, new_subscriber, set_control_state, load_snapshot, materialize, split_entries,
}
use hacp_sidecar.ControlPlane.Subscriber.Start.{
  Try, after_load, load_initial_snapshot, started_subscriber,
}
use hacp_sidecar.Evaluate.Pipeline.{evaluate}
use hacp_sidecar.Evaluate.Pipeline.Authorization.{allows}
use hacp_sidecar.Sidecar.Config.{
  Environment, ControlRuntimeConfig, config, rejected, insecure_control_tls_options,
  max_staleness_of, standalone_config, distributed_config, tls_config, load_control_runtime_config,
}
use hacp_sidecar.Sidecar.Transport.{
  Certificates, insecure, tls, system_roots, build_control_tls_credentials,
  build_control_transport_credentials, dial, start_control,
}
use hacp_sidecar.Wire.{Bytes}
use hacp_sidecar.Sidecar.Runtime.{
  distributed, built, new_control_runtime, ready, readiness_status, wire,
}
use hacp_sidecar.Sidecar.Endpoints.{http_error, revoke_handler, revocation_kind, revocation_routes}
use hacp_sidecar.Sidecar.Revoking.{RevokeRequest, asked}
use hacp_sidecar.Sidecar.Closed.{Unloaded, asks_to_revoke, load_initial_snapshot-Closed}
use hacp_sidecar.Tests.Decisions.{pipeline, writer, state, env, tok, req, clock}

abbrev pub parse_duration : String → Option ℤ
parse_duration raw = if str_eq raw "2s" then some (pos 2000000000) else none

-- A distributed environment, for each TLS mode and CA file.
abbrev pub environment : String → String → Environment
environment tls_mode ca_file = record {
  control_mode = "distributed";
  control_plane_addr = "plane:7443";
  sidecar_id = "s1";
  control_max_staleness = "2s";
  control_tls_mode = tls_mode;
  control_ca_file = ca_file;
  control_server_name = "";
}

abbrev configuration : ControlRuntimeConfig
configuration = record {
  mode = "distributed";
  address = "plane:7443";
  sidecar_id = "s1";
  max_staleness = pos 2000000000;
  tls_mode = "insecure";
  ca_file = "";
  server_name = "";
}

loads :
    load_control_runtime_config parse_duration (environment "insecure" "") ≡ config configuration
unfolding load_control_runtime_config max_staleness_of standalone_config distributed_config
    tls_config
loads = refl

ambiguous_insecure :
    load_control_runtime_config parse_duration (environment "insecure" "ca.pem")
    ≡ rejected insecure_control_tls_options
unfolding load_control_runtime_config max_staleness_of standalone_config distributed_config
    tls_config
ambiguous_insecure = refl

-- One certificate pool is the list of the files that it has; there is one file.
abbrev pub certificates : Certificates (List Bytes)
certificates = record {
  system_pool = none;
  new_pool = [];
  read_file = λ path. if str_eq path "ca.pem" then some (45 ∷ []) else none;
  append_certs = λ pool pem. some (pem ∷ pool);
}

dials :
    start_control certificates parse_duration (environment "insecure" "")
    ≡ dial "plane:7443" insecure
unfolding start_control load_control_runtime_config max_staleness_of distributed_config tls_config
    build_control_transport_credentials
dials = refl

dials_tls :
    start_control certificates parse_duration (environment "" "ca.pem")
    ≡ dial "plane:7443"
        (tls record { min_version = 771; root_cas = (45 ∷ []) ∷ []; server_name = "" })
unfolding start_control load_control_runtime_config max_staleness_of distributed_config tls_config
    build_control_transport_credentials build_control_tls_credentials system_roots
dials_tls = refl

-- The subscriber of that configuration.
abbrev pub subscriber : Subscriber
unfolding new_subscriber set_control_state new_control_state new_adapter Revocation.new_store
subscriber = set_control_state (new_subscriber (new_adapter 4)) (new_control_state (pos 2000000000))

subscriber_built : new_control_runtime configuration true 4 ≡ built (distributed subscriber)
unfolding new_control_runtime
subscriber_built = refl

-- The client fails, then gives a snapshot with an unknown kind.
abbrev tries : List Try
tries =
    record { answer = none; answer_time = 5; cancelled = false; wait_cancelled = false }
    ∷ record {
      answer = some record {
        revision = 1;
        generated_at_ms = 6;
        entries = record { kind = RevocationKind.unspecified; subject_id = "x" } ∷ [];
      };
      answer_time = 6;
      cancelled = false;
      wait_cancelled = false;
    }
    ∷ []

unloaded : Unloaded (load_initial_snapshot subscriber (pos 0) tries)
unfolding load_initial_snapshot after_load load_snapshot materialize split_entries
unloaded = tt

load_initial_snapshot-Closed_example :
    let runtime =
      distributed (started_subscriber (load_initial_snapshot subscriber (pos 0) tries)) in
    (readiness_status (some (ready runtime 7)) ≡ 503)
    × (allows (evaluate writer (wire pipeline runtime) state (some env) (some tok) (some req) clock)
        ≡ false)
load_initial_snapshot-Closed_example =
    load_initial_snapshot-Closed writer pipeline configuration true 4 subscriber tries 7 state env
      (some tok) req clock subscriber_built unloaded

abbrev post : String → String → String → RevokeRequest
post path method id = record { path = path; method = method; id = id; now = 9 }

-- A GET and an empty identifier change nothing; the token of the request is then revoked.
abbrev requests : List RevokeRequest
requests =
    post "/revoke/key" "GET" "k1"
    ∷ post "/revoke/key" "POST" ""
    ∷ post "/revoke/token" "POST" "t1"
    ∷ []

abbrev store : InMemoryRevocationStore
unfolding Revocation.new_store
store = Revocation.new_store 4

token_asked : asks_to_revoke requests env tok ≡ true
unfolding asks_to_revoke asked
token_asked = refl

wrong_method :
    revoke_handler store "key" "GET" "k1" 9 ≡ (store, http_error 405 "method not allowed")
unfolding revoke_handler
wrong_method = refl

distributed_routes :
    revocation_routes none "/revoke/key" "POST" "k1" 9
    ≡ (none, some (http_error 404 "404 page not found"))
unfolding revocation_routes revocation_kind
distributed_routes = refl
