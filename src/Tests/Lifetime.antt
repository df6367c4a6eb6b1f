-- ===== src/Tests/Lifetime.antt =====
-- The sidecar command from its start to its end, and the provenance file that it leaves.
use hacp_sidecar.Common.{◌≤◌, arith, ◌≡◌, refl, String, ◌++◌, true, List, [], ◌∷◌}
use hacp_sidecar.Common.Int.{pos, add_int64}
use hacp_sidecar.Common.Strings.{add, lookup, put, contains}
use hacp_sidecar.Common.Utf8.{utf8}
use hacp_sidecar.Revocation
use hacp_sidecar.Wire.{verify_ed25519, sha256_hex}
use hacp_sidecar.Proxy.Handler.{serve_http, upstream_request}
use hacp_sidecar.Wire.Parsing.{
  payload_of, base64_url_decode, parse_intent_envelope, parse_decision_token, check_envelope_fields,
  check_token_fields,
}
use hacp_sidecar.Wire.Headers.{get, header_bytes, extract_headers}
use hacp_sidecar.Budget.{consume_token, count}
use hacp_sidecar.Evaluate.Interfaces.{allow_decision, deny_decision, effective_clock}
use hacp_sidecar.Evaluate.Pipeline.Checks
use hacp_sidecar.Evaluate.Pipeline.{evaluate}
use hacp_sidecar.Evaluate.Pipeline
use hacp_sidecar.Evaluate.ScopeGuard.{
  check_boundary, match_request_constraints, parse_proposed_action_attributes, scope_violation,
  first_violation, checks, quantity_violation, destination_violation, tool_violation,
}
use hacp_sidecar.Scope.Matrix.{evaluate_boundary_crossing}
use hacp_sidecar.Proxy.Hops.{hop_by_hop, nominated, copy_except, copy_end_to_end_headers}
use hacp_sidecar.Provenance.{new_ring_buffer, accept, ring_writer}
use hacp_sidecar.Trust.{new_snapshot}
use hacp_sidecar.Trust.Store.{new_store}
use hacp_sidecar.Trust.File.{load_snapshot_file}
use hacp_sidecar.Provenance.{opens, Disk, tick, signal, wake}
use hacp_sidecar.Provenance.Accounted.{allowed_ids}
use hacp_sidecar.Sidecar.Runtime.{standalone}
use hacp_sidecar.Sidecar.Main.{Settings, Running, running, start}
use hacp_sidecar.Sidecar.Routes.{serve, run, with_local, request, reload}
use hacp_sidecar.Sidecar.Lifetime.{Turn, handled, worked, signalled, server_failed, live}
use hacp_sidecar.Sidecar.Logging.{MayLose, granted_ids, start-granted}
use hacp_sidecar.Sidecar.Replaying.{RequestLimits, granted_uses, granted_uses-le}
use hacp_sidecar.Tests.Trusting.{file}
use hacp_sidecar.Tests.Running.{system, settings, sidecar, site, incoming}

abbrev alone_settings : Settings
alone_settings = record settings {
  control = record {
    control_mode = "standalone";
    control_plane_addr = "";
    sidecar_id = "";
    control_max_staleness = "";
    control_tls_mode = "";
    control_ca_file = "";
    control_server_name = "";
  };
}

abbrev alone : Running
alone = record sidecar {
  control = record {
    mode = "standalone";
    address = "";
    sidecar_id = "";
    max_staleness = pos 5000000000;
    tls_mode = "";
    ca_file = "";
    server_name = "";
  };
  runtime = standalone (Revocation.new_store 4);
}

starts_alone : start system alone_settings 5 4 ≡ running alone
unfolding start load_snapshot_file new_snapshot new_store
starts_alone = refl

abbrev works : Disk
works = opens (λ e. true)

-- Three requests with one token, of which the third comes after the revocation of the token, with two turns
-- of the worker.
abbrev turns : List (Turn site)
turns =
    handled (request (incoming "GET" "/a" ""))
    ∷ worked signal works
    ∷ handled (request (incoming "GET" "/a" ""))
    ∷ handled (request (incoming "POST" "/revoke/token" "t1"))
    ∷ handled (request (incoming "GET" "/a" ""))
    ∷ worked tick works
    ∷ handled (reload file "POST" 9)
    ∷ []

start-granted_example :
    (lost : List String) × MayLose site (signalled works) lost
    × (allowed_ids (live site alone turns (signalled works)) ++ lost
        ≡ granted_ids site alone turns (signalled works))
start-granted_example =
    start-granted system alone_settings 5 4 alone site turns (signalled works) starts_alone
      ((λ e. refl), ((λ e. refl), tt)) (λ e. refl)

grants_first : granted_ids site alone turns (signalled works) ≡ "r1" ∷ []
unfolding granted_ids wake serve run new_snapshot with_local Revocation.new_store serve_http
    extract_headers header_bytes get lookup put utf8 contains hop_by_hop nominated copy_except
    copy_end_to_end_headers base64_url_decode parse_intent_envelope parse_decision_token payload_of
    check_envelope_fields check_token_fields evaluate ring_writer accept new_ring_buffer
    verify_ed25519 sha256_hex consume_token count effective_clock allow_decision deny_decision
    upstream_request add_int64 Checks.check_envelope Checks.check_control_state
    Checks.check_unresolved Checks.check_envelope_signature Checks.check_key Checks.deny_if
    Checks.is_expired Checks.evaluation_time Checks.check_checkpoint Checks.check_token
    Checks.check_token_signature Checks.check_decision Checks.pause_if Checks.check_action_hash
    Pipeline.accept_provenance Revocation.is_key_revoked Revocation.is_envelope_revoked
    Revocation.is_token_revoked check_boundary match_request_constraints
    parse_proposed_action_attributes scope_violation first_violation evaluate_boundary_crossing
    checks quantity_violation destination_violation tool_violation add
grants_first = refl

limits : RequestLimits site "t1" 1 turns
unfolding extract_headers Pipeline.max_uses
limits = (λ e. omega arith, (λ e. omega arith, (λ e. omega arith, (λ e. omega arith, (tt, tt)))))

granted_uses-le_example : granted_uses site "t1" alone turns ≤ 1
granted_uses-le_example =
    granted_uses-le system alone_settings 5 4 alone site "t1" 1 turns starts_alone limits

-- A server that fails before the worker's turn loses the event of the request.
loses_last :
    allowed_ids (live site alone (handled (request (incoming "GET" "/a" "")) ∷ []) server_failed)
    ≡ []
unfolding live allowed_ids
loses_last = refl
