-- ===== src/Tests/Running.antt =====
-- The sidecar command: one that starts, and requests to a standalone one.
use hacp_sidecar.Common.{
  String, ◌≡◌, refl, true, false, none, some, List, [], ◌∷◌, str_eq, if◌then◌else◌,
}
use hacp_sidecar.Common.Int.{pos, add_int64}
use hacp_sidecar.Common.Strings.{add, lookup, put, contains}
use hacp_sidecar.Common.Utf8.{utf8}
use hacp_sidecar.Revocation
use hacp_sidecar.Wire.{Bytes, verify_ed25519, sha256_hex}
use hacp_sidecar.Proxy.Handler.{answered, serve_http, upstream_request}
use hacp_sidecar.Wire.Parsing.{
  payload_of, base64_url_decode, parse_intent_envelope, parse_decision_token, check_envelope_fields,
  check_token_fields,
}
use hacp_sidecar.Wire.Headers.{get, header_bytes, extract_headers}
use hacp_sidecar.Budget.{consume_token, count}
use hacp_sidecar.Evaluate.Interfaces.{allow_decision, deny_decision, effective_clock}
use hacp_sidecar.Evaluate.Pipeline.Checks
use hacp_sidecar.Evaluate.Pipeline.{evaluate}
use hacp_sidecar.Evaluate.Pipeline
use hacp_sidecar.Evaluate.ScopeGuard.{
  check_boundary, match_request_constraints, parse_proposed_action_attributes, scope_violation,
  first_violation, checks, quantity_violation, destination_violation, tool_violation,
}
use hacp_sidecar.Scope.Matrix.{evaluate_boundary_crossing}
use hacp_sidecar.Proxy.Hops.{hop_by_hop, nominated, copy_except, copy_end_to_end_headers}
use hacp_sidecar.Provenance.{new_ring_buffer, accept, ring_writer}
use hacp_sidecar.Trust.{new_snapshot}
use hacp_sidecar.Trust.Store.{new_store}
use hacp_sidecar.Trust.File.{load_snapshot_file}
use hacp_sidecar.Sidecar.Transport.{build_control_transport_credentials}
use hacp_sidecar.Sidecar.Runtime.{standalone, distributed}
use hacp_sidecar.Sidecar.Main.{Settings, System, Running, running, start}
use hacp_sidecar.Sidecar.Routes.{
  with_local, Site, Incoming, Event, request, reload, received, pattern, serve, run,
}
use hacp_sidecar.Sidecar.Forwarding.{forwarded}
use hacp_sidecar.Sidecar.Lasting.{Unrevoked, revoke_requests, run-Unrevoked}
use hacp_sidecar.Revocation.Laws
use hacp_sidecar.Revocation.Laws.{token}
use hacp_sidecar.ControlPlane.Adapter
use hacp_sidecar.ControlPlane.Journal.{RevocationKind, RevocationEntry, RevocationEvent}
use hacp_sidecar.ControlPlane.Subscriber.{Subscriber, event}
use hacp_sidecar.Sidecar.Starting.{Guarded, start-Guarded}
use hacp_sidecar.Tests.Decisions.{crypto}
use hacp_sidecar.Tests.Trusting.{hex_decode, file, file_snapshot}
use hacp_sidecar.Tests.Configuring.{parse_duration, environment, certificates, subscriber}
use hacp_sidecar.Tests.Conforming.{world}
use hacp_sidecar.Tests.Proxying.{http, header, idle, moment, sent}
use hacp_sidecar.Tests.Proxying as Proxying

abbrev pub system : System (List Bytes)
system = record {
  trim_space = λ t. t;
  trim_slashes = λ t. t;
  parse_duration = parse_duration;
  split_host_port =
      λ addr. if str_eq addr "127.0.0.1:9081" then some ("127.0.0.1", "9081") else none;
  hex_decode = hex_decode;
  crypto = crypto;
  x509 = certificates;
  trust_file = λ path. file;
  new_client = λ address creds. true;
  listen = λ addr. true;
}

abbrev pub settings : Settings
settings = record {
  port = "";
  upstream = "http://upstream";
  provenance_flush_path = "";
  trust_mode = "";
  trust_keys_file = "keys.json";
  trust_admin_addr = "127.0.0.1:9081";
  control = environment "" "ca.pem";
}

abbrev pub sidecar : Running
sidecar = record {
  port = "8080";
  upstream = "http://upstream";
  provenance_path = "./provenance.jsonl";
  control = record {
    mode = "distributed";
    address = "plane:7443";
    sidecar_id = "s1";
    max_staleness = pos 2000000000;
    tls_mode = "required";
    ca_file = "ca.pem";
    server_name = "";
  };
  trust_keys_file = "keys.json";
  trust = record { active = some file_snapshot };
  runtime = distributed subscriber;
  admin = some "127.0.0.1:9081";
  state = record idle { provenance = new_ring_buffer 10000 };
}

starts : start system settings 5 4 ≡ running sidecar
unfolding start load_snapshot_file new_snapshot new_store build_control_transport_credentials
starts = refl

start-Guarded_example :
    Guarded system settings 5 4 sidecar.control sidecar.trust sidecar.runtime sidecar.admin
start-Guarded_example = start-Guarded system settings 5 4 sidecar starts

-- A mux that gives the paths that are registered to their patterns, and all others to the proxy.
abbrev pub site : Site
site = record {
  library = world.library;
  crypto = crypto;
  canonicalize = λ bytes. some bytes;
  codec = world.codec;
  http = http;
  marshal = λ action. some (123 ∷ 125 ∷ []);
  answer = λ u. answered 200 [] (111 ∷ 107 ∷ []);
  mux = λ known method path. if contains path known then pattern path else pattern "/";
  hex_decode = hex_decode;
  trim_space = λ t. t;
}

abbrev alone : Running
alone = record sidecar { runtime = standalone (Revocation.new_store 4); state = idle }

abbrev pub incoming : String → String → String → Incoming
incoming method path id = record {
  request = record Proxying.request { method = method; url_path = path; request_uri = path };
  id = id;
  now = 9;
  moment = moment;
  request_id = "r1";
}

-- Another token is revoked, and the trust store is reloaded, before the request.
abbrev pub events : List (Event site)
events =
    request (incoming "POST" "/revoke/token" "t2")
    ∷ request (incoming "GET" "/healthz" "")
    ∷ reload file "POST" 9
    ∷ []

forwards : forwarded (serve site (run site alone events) (incoming "GET" "/a" "")).1 ≡ some sent
unfolding serve run new_snapshot with_local Revocation.new_store serve_http extract_headers
    header_bytes get lookup put utf8 contains hop_by_hop nominated copy_except
    copy_end_to_end_headers base64_url_decode parse_intent_envelope parse_decision_token payload_of
    check_envelope_fields check_token_fields evaluate ring_writer accept new_ring_buffer
    verify_ed25519 sha256_hex consume_token count effective_clock allow_decision deny_decision
    upstream_request add_int64 Checks.check_envelope Checks.check_control_state
    Checks.check_unresolved Checks.check_envelope_signature Checks.check_key Checks.deny_if
    Checks.is_expired Checks.evaluation_time Checks.check_checkpoint Checks.check_token
    Checks.check_token_signature Checks.check_decision Checks.pause_if Checks.check_action_hash
    Pipeline.accept_provenance Revocation.is_key_revoked Revocation.is_envelope_revoked
    Revocation.is_token_revoked check_boundary match_request_constraints
    parse_proposed_action_attributes scope_violation first_violation evaluate_boundary_crossing
    checks quantity_violation destination_violation tool_violation add
forwards = refl

run-Unrevoked_example : Unrevoked site (incoming "GET" "/a" "") (revoke_requests site events)
run-Unrevoked_example =
    run-Unrevoked site alone (Revocation.new_store 4) events (incoming "GET" "/a" "") sent refl
      forwards

-- A connected sidecar without revocations, whose control plane revokes another token.
abbrev connected : Subscriber
connected = record {
  store = record { store = Revocation.new_store 4 };
  state = record {
    last_seen_revision = 0;
    last_update = 5;
    connected = true;
    unsafe = false;
    max_staleness = pos 10;
  };
  last_seen_revision = 0;
  reconnect_initial_backoff = pos 1;
  reconnect_max_backoff = pos 8;
}

abbrev other_revoked : RevocationEvent
other_revoked = record {
  revision = 1;
  event_id = 49 ∷ [];
  kind = RevocationKind.token;
  subject_id = "t2";
  issued_at_ms = 6;
}

abbrev given : List (Event site)
given =
    received (event other_revoked) 6
    ∷ request (incoming "POST" "/revoke/token" "t1")
    ∷ received (event other_revoked) 7
    ∷ []

abbrev revocations : List RevocationEntry
revocations = record { kind = RevocationKind.token; subject_id = "t2" } ∷ []

abbrev following : Running
following = record sidecar { runtime = distributed connected; state = idle }
