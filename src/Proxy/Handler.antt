-- ===== src/Proxy/Handler.antt =====
-- internal/proxy/handler.go: `ServeHTTP` and the responses. What the upstream does with a request is a
-- function; reading the request's body, the client's connection and the clock are fields of the request
-- and of `Moment`. The request's identifier is an argument of random bytes.
use hacp_sidecar.Common.{ℕ, String, Option, none, some, [], ◌∷◌, str_append, if◌then◌else◌}
use hacp_sidecar.Common.Int.{ℤ, pos}
use hacp_sidecar.Common.Time.{Time}
use hacp_sidecar.Common.Strings.{put}
use hacp_sidecar.Common.Utf8.{utf8}
use hacp_sidecar.Wire.{Bytes, IntentEnvelope, DecisionToken, sha256_hex}
use hacp_sidecar.Wire.Parsing.{Codec, ParseResult, parsed, refused, ParseError}
use hacp_sidecar.Wire.Headers.{Header, get, extract_headers}
use hacp_sidecar.Evaluate.Interfaces.{
  Reason, EvalError, Decision, RequestContext, Accepted, accepted, panicked, invalid_envelope,
  invalid_action,
}
use hacp_sidecar.Evaluate.Interfaces as Eval
use hacp_sidecar.Evaluate.Pipeline.Checks.{Pipeline, Clock}
use hacp_sidecar.Evaluate.Pipeline.{State, Evaluated, returned, panic, evaluate}
use hacp_sidecar.Provenance.{RingBuffer, accept_denied, ring_writer}
use hacp_sidecar.Proxy.Action.{ProposedAction, synthesize_proposed_action}
use hacp_sidecar.Proxy.Hops.{Http, copy_end_to_end_headers}

-- `request_uri` is `r.URL.RequestURI()`, `url_path` is `r.URL.Path`; a body of none cannot be read.
pub record Request : Type 0 where
  pub method : String
  pub url_path : String
  pub request_uri : String
  pub header : Header
  pub body : Option Bytes

-- What the clock shows during the request.
pub record Moment : Type 0 where
  pub timestamp : Time
  pub latency_ns : ℤ
  pub recorded_at : ℤ
  pub denied_latency_ns : ℤ
  pub clock : Clock

pub data DenyError : Type 0 where
  header_error : ParseError → DenyError
  body_error marshal_error : DenyError
  decision_error : Option EvalError → DenyError

pub data Body : Type 0 where
  deny_body : Reason → DenyError → String → Body
  error_body : String → String → Body
  upstream_body : Bytes → Body

pub record Response : Type 0 where
  pub header : Header
  pub reason : Option Reason
  pub status : ℕ
  pub body : Body

pub record UpstreamRequest : Type 0 where
  pub method : String
  pub url : String
  pub header : Header
  pub body : Bytes

-- What `http.NewRequestWithContext`, `Client.Do` and the reading of the answer give.
pub data Answer : Type 0 where
  not_created unavailable unreadable : Answer
  answered : ℕ → Header → Bytes → Answer

-- What a request comes to: the response, what was sent to the upstream, and the state; the response is
-- none where the handler panics or returns without one.
pub record Served : Type 0 where
  pub response : Option Response
  pub forwarded : Option UpstreamRequest
  pub state : State RingBuffer

pub record Proxy : Type 1 where
  pub pipeline : Pipeline
  pub codec : Codec
  pub http : Http
  pub marshal : ProposedAction → Option Bytes
  pub upstream : String
  pub answer : UpstreamRequest → Answer

-- `w.Header().Set(name, value)`, for a canonical name.
abbrev pub set : String → String → Header → Header
set name value h = put name (value ∷ []) h

abbrev pub written : State RingBuffer → Accepted RingBuffer → State RingBuffer
written s (accepted rb) = record s { provenance = rb }
written s (Eval.refused rb) = record s { provenance = rb }
written s panicked = s

-- The event of a denial; the error of a full buffer is only logged.
unfoldable pub record_denial :
    State RingBuffer
    → Moment
    → Option IntentEnvelope
    → Option DecisionToken
    → RequestContext
    → Reason
    → State RingBuffer
unfolding accept_denied
record_denial s m (some env) (some tok) req reason =
    written s (accept_denied s.provenance m.recorded_at (some env) (some tok) req reason)
record_denial s m _ _ req reason = s

-- The request context of `respondDeny`, which has these two fields alone.
abbrev pub denial_context : String → ℤ → RequestContext
denial_context request_id latency_ns = record {
  method = "";
  path = [];
  tool_name = "";
  payload_hash = "";
  timestamp = 0;
  request_id = request_id;
  latency_ns = latency_ns;
  clock = pos 0;
  proposed_action = [];
  policy = none;
  checkpoint = none;
}

module _ (x : Proxy) where
  abbrev pub decided : String → String → Header → Header
  decided decision request_id h =
      set (x.http.canonical_key "X-HACP-Request-Id") request_id
        (set (x.http.canonical_key "X-HACP-Decision") decision h)

  unfoldable pub respond_deny :
      State RingBuffer
      → Moment
      → String
      → Reason
      → DenyError
      → Option IntentEnvelope
      → Option DecisionToken
      → Served
  unfolding record_denial
  respond_deny s m request_id reason err env tok = record {
    response = some record {
      header = decided "DENY" request_id [];
      reason = some reason;
      status = 403;
      body = deny_body reason err request_id;
    };
    forwarded = none;
    state = record_denial s m env tok (denial_context request_id m.denied_latency_ns) reason;
  }

  unfoldable pub upstream_error : String → String → Response
  upstream_error request_id message = record {
    header =
        set (x.http.canonical_key "Content-Type") "application/json"
          (decided "ALLOW" request_id []);
    reason = none;
    status = 502;
    body = error_body message request_id;
  }

  unfoldable pub upstream_request : Request → Bytes → UpstreamRequest
  unfolding copy_end_to_end_headers
  upstream_request r body = record {
    method = r.method;
    url = str_append x.upstream r.request_uri;
    header = copy_end_to_end_headers x.http [] r.header;
    body = body;
  }

  -- `forwardUpstream`, for what the upstream answers.
  unfoldable pub forward_upstream : State RingBuffer → String → UpstreamRequest → Answer → Served
  unfolding upstream_error copy_end_to_end_headers
  forward_upstream s request_id u not_created = record {
    response = some (upstream_error request_id "failed to create upstream request");
    forwarded = none;
    state = s;
  }
  forward_upstream s request_id u unavailable = record {
    response = some (upstream_error request_id "upstream unavailable");
    forwarded = some u;
    state = s;
  }
  forward_upstream s request_id u unreadable = record {
    response = none;
    forwarded = some u;
    state = s;
  }
  forward_upstream s request_id u (answered status header body) = record {
    response = some record {
      header = decided "ALLOW" request_id (copy_end_to_end_headers x.http [] header);
      reason = none;
      status = status;
      body = upstream_body body;
    };
    forwarded = some u;
    state = s;
  }

  -- After the decision.
  unfoldable pub enforce :
      Moment
      → String
      → IntentEnvelope
      → DecisionToken
      → Request
      → Bytes
      → Evaluated RingBuffer
      → Served
  unfolding respond_deny forward_upstream upstream_request
  enforce m request_id env tok r body (panic s) = record {
    response = none;
    forwarded = none;
    state = s;
  }
  enforce m request_id env tok r body (returned d s) =
      if d.allow
      then forward_upstream s request_id (upstream_request r body)
          (x.answer (upstream_request r body))
      else respond_deny s m request_id d.reason_code (decision_error d.error) (some env) (some tok)

  unfoldable pub request_context : Moment → String → Request → Bytes → Bytes → RequestContext
  unfolding get utf8 sha256_hex
  request_context m request_id r body action = record {
    method = r.method;
    path = utf8 r.request_uri;
    tool_name = get x.http.canonical_key r.header "X-HACP-Tool-Name";
    payload_hash = sha256_hex x.pipeline.crypto body;
    timestamp = m.timestamp;
    request_id = request_id;
    latency_ns = m.latency_ns;
    clock = pos 0;
    proposed_action = action;
    policy = none;
    checkpoint = none;
  }

  abbrev pub serve_action :
      State RingBuffer
      → Moment
      → String
      → IntentEnvelope
      → DecisionToken
      → Request
      → Bytes
      → Option Bytes
      → Served
  serve_action s m request_id env tok r body none =
      respond_deny s m request_id invalid_action marshal_error (some env) (some tok)
  serve_action s m request_id env tok r body (some action) = enforce m request_id env tok r body (
      evaluate (ring_writer m.recorded_at) x.pipeline s (some env) (some tok)
        (some (request_context m request_id r body action)) m.clock)

  -- The synthesis of the action panics at a nil scope.
  abbrev pub serve_proposed :
      State RingBuffer
      → Moment
      → String
      → IntentEnvelope
      → DecisionToken
      → Request
      → Bytes
      → Option ProposedAction
      → Served
  serve_proposed s m request_id env tok r body none = record {
    response = none;
    forwarded = none;
    state = s;
  }
  serve_proposed s m request_id env tok r body (some action) =
      serve_action s m request_id env tok r body (x.marshal action)

  abbrev pub serve_body :
      State RingBuffer
      → Moment
      → String
      → IntentEnvelope
      → DecisionToken
      → Request
      → Option Bytes
      → Served
  serve_body s m request_id env tok r none =
      respond_deny s m request_id invalid_action body_error (some env) (some tok)
  serve_body s m request_id env tok r (some body) =
      serve_proposed s m request_id env tok r body
        (synthesize_proposed_action r.method r.url_path env (sha256_hex x.pipeline.crypto body))

  abbrev pub serve_parsed :
      State RingBuffer
      → Moment
      → String
      → Request
      → ParseResult (IntentEnvelope × DecisionToken)
      → Served
  serve_parsed s m request_id r (refused e) =
      respond_deny s m request_id invalid_envelope (header_error e) none none
  serve_parsed s m request_id r (parsed (env, tok)) = serve_body s m request_id env tok r r.body

  unfoldable pub serve_http : State RingBuffer → Moment → String → Request → Served
  unfolding extract_headers synthesize_proposed_action sha256_hex evaluate ring_writer enforce
      respond_deny request_context
  serve_http s m request_id r =
      serve_parsed s m request_id r (extract_headers x.codec x.http.canonical_key r.header)

-- `generateRequestID`: random bytes in hexadecimal, or else the time in decimal.
unfoldable pub generate_request_id : (Bytes → String) → Option Bytes → String → String
generate_request_id hex_encode (some bytes) unix_nano = str_append "req-" (hex_encode bytes)
generate_request_id hex_encode none unix_nano = str_append "req-" unix_nano
