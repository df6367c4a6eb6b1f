-- ===== src/Tests/Proxying.antt =====
-- Requests through internal/proxy/handler.go, with an upstream that answers 200.
use hacp_sidecar.Common.{◌≡◌, refl, true, some, [], ◌∷◌}
use hacp_sidecar.Common.Int.{pos, add_int64}
use hacp_sidecar.Common.Strings.{lookup, put, contains}
use hacp_sidecar.Common.Utf8.{utf8}
use hacp_sidecar.Wire.{verify_ed25519, sha256_hex}
use hacp_sidecar.Wire.Parsing.{
  payload_of, base64_url_decode, parse_intent_envelope, parse_decision_token, check_envelope_fields,
  check_token_fields,
}
use hacp_sidecar.Wire.Headers.{Header, get, header_bytes, extract_headers}
use hacp_sidecar.Budget.{consume_token, count}
use hacp_sidecar.Evaluate.Interfaces.{allow_decision, deny_decision, effective_clock}
use hacp_sidecar.Evaluate.Pipeline.Checks
use hacp_sidecar.Evaluate.Pipeline.{State, evaluate}
use hacp_sidecar.Evaluate.Pipeline
use hacp_sidecar.Provenance.{RingBuffer, accept, ring_writer, new_ring_buffer}
use hacp_sidecar.Proxy.Hops.{Http, hop_by_hop, nominated, copy_except, copy_end_to_end_headers}
use hacp_sidecar.Proxy.Handler.{
  Request, Moment, UpstreamRequest, answered, Proxy, serve_http, upstream_request,
}
use hacp_sidecar.Proxy.Enforced.{Authorized, serve_http_iff}
use hacp_sidecar.Tests.Decisions.{pipeline, clock}
use hacp_sidecar.Tests.Parsing.{codec}

abbrev pub http : Http
http = record {
  canonical_key = λ name. name;
  split_commas = λ t. t ∷ "Keep-Alive" ∷ [];
  trim_space = λ t. t;
}

abbrev proxy : Proxy
proxy = record {
  pipeline = pipeline;
  codec = codec;
  http = http;
  marshal = λ action. some (123 ∷ 125 ∷ []);
  upstream = "http://upstream";
  answer = λ u. answered 200 [] (111 ∷ 107 ∷ []);
}

abbrev pub header : Header
header =
    ("X-HACP-Intent-Envelope", "AA" ∷ [])
    ∷ ("X-HACP-Decision-Token", "AA" ∷ [])
    ∷ ("Connection", "X-Private" ∷ [])
    ∷ ("X-Private", "secret" ∷ [])
    ∷ []

private_hop : contains "X-Private" (hop_by_hop http header) ≡ true
unfolding contains hop_by_hop nominated get lookup
private_hop = refl

abbrev pub request : Request
request = record {
  method = "GET";
  url_path = "/a";
  request_uri = "/a";
  header = header;
  body = some [];
}

abbrev pub moment : Moment
moment = record {
  timestamp = 0;
  latency_ns = pos 1;
  recorded_at = pos 9;
  denied_latency_ns = pos 2;
  clock = clock;
}

abbrev pub idle : State RingBuffer
idle = record {
  ledger = record { token_consumed = []; autonomy_consumed = [] };
  provenance = new_ring_buffer 2;
}

abbrev pub sent : UpstreamRequest
sent = record {
  method = "GET";
  url = "http://upstream/a";
  header = ("X-HACP-Intent-Envelope", "AA" ∷ []) ∷ ("X-HACP-Decision-Token", "AA" ∷ []) ∷ [];
  body = [];
}

forwards : (serve_http proxy idle moment "r1" request).forwarded ≡ some sent
unfolding serve_http extract_headers header_bytes get lookup put utf8 contains hop_by_hop nominated
    copy_except copy_end_to_end_headers base64_url_decode parse_intent_envelope parse_decision_token
    payload_of check_envelope_fields check_token_fields evaluate ring_writer accept new_ring_buffer
    verify_ed25519 sha256_hex consume_token count effective_clock allow_decision deny_decision
    upstream_request add_int64 Checks.check_envelope Checks.check_control_state
    Checks.check_unresolved Checks.check_envelope_signature Checks.check_key Checks.deny_if
    Checks.is_expired Checks.evaluation_time Checks.check_checkpoint Checks.check_token
    Checks.check_token_signature Checks.check_decision Checks.pause_if Checks.check_action_hash
    Pipeline.accept_provenance
forwards = refl

authorized : Authorized proxy idle moment "r1" request sent
authorized = (serve_http_iff proxy idle moment "r1" request sent).0 forwards
