-- ===== src/Proxy/Enforced.antt =====
-- internal/proxy/handler.go: what reaches the upstream.
use hacp_sidecar.Common.{
  ◌<◌, ◌↔◌, ◌≢◌, ap, ◌∙◌, leb, String, ◌≡◌, refl, true, false, Option, none, some, arith, inl, inr,
  Bool-cases,
}
use hacp_sidecar.Wire.{Bytes, IntentEnvelope, DecisionToken, sha256_hex}
use hacp_sidecar.Wire.Parsing.{ParseResult, parsed, refused}
use hacp_sidecar.Wire.Headers.{extract_headers}
use hacp_sidecar.Budget.{consume_token}
use hacp_sidecar.Evaluate.Pipeline.Authorized.{EnvelopeAuthorized, TokenAuthorized}
use hacp_sidecar.Evaluate.Interfaces.{RequestContext, unspecified}
use hacp_sidecar.Evaluate.Pipeline.Checks.{evaluation_time}
use hacp_sidecar.Evaluate.Pipeline.{State, Evaluated, returned, panic, max_uses}
use hacp_sidecar.Evaluate.Pipeline.Authorization.{allows, Recorded, evaluate-allows_token}
use hacp_sidecar.Provenance.{RingBuffer, pushed, event_of, accept, put, ring_writer}
use hacp_sidecar.Proxy.Action.{ProposedAction, synthesize_proposed_action}
use hacp_sidecar.Proxy.Handler.{
  Request, Moment, UpstreamRequest, Answer, not_created, unavailable, unreadable, answered, Proxy,
  respond_deny, upstream_request, forward_upstream, enforce, request_context, serve_action,
  serve_proposed, serve_body, serve_parsed, serve_http,
}

-- The request's objects authorize the action that its method and path propose, the token has a use left, the
-- provenance log has room, and the request can go on as it came.
pub record Authorized (x : Proxy) (s : State RingBuffer) (m : Moment) (request_id : String)
    (r : Request) (u : UpstreamRequest) : Type 0 where
  pub env : IntentEnvelope
  pub tok : DecisionToken
  pub body : Bytes
  pub action : Bytes
  pub extracted : extract_headers x.codec x.http.canonical_key r.header ≡ parsed (env, tok)
  pub read : r.body ≡ some body
  pub envelope :
      EnvelopeAuthorized x.pipeline env (request_context x m request_id r body action) m.clock
  pub token :
      TokenAuthorized x.pipeline env tok
        (request_context x m request_id r body action)
        (evaluation_time (request_context x m request_id r body action) m.clock)
  pub left : (consume_token s.ledger tok.token_id (max_uses tok)).1 ≡ true
  pub room : s.provenance.count < s.provenance.capacity
  pub proposed : ProposedAction
  pub synthesized :
      synthesize_proposed_action r.method r.url_path env (sha256_hex x.pipeline.crypto body)
      ≡ some proposed
  pub marshalled : x.marshal proposed ≡ some action
  pub creatable : x.answer (upstream_request x r body) ≢ not_created
  pub unchanged : upstream_request x r body ≡ u

module _ (x : Proxy) (s : State RingBuffer) (m : Moment) (request_id : String) (r : Request)
    (u : UpstreamRequest) where
  forwarded_request :
      (s' : State RingBuffer) (v : UpstreamRequest) (a : Answer)
      → (forward_upstream x s' request_id v a).forwarded ≡ some u
      → (v ≡ u) × (a ≢ not_created)
  unfolding forward_upstream
  forwarded_request s' v not_created h = cc h
  forwarded_request s' v unavailable h = (cc h, λ e. cc e)
  forwarded_request s' v unreadable h = (cc h, λ e. cc e)
  forwarded_request s' v (answered status header body) h = (cc h, λ e. cc e)

  enforced :
      (env : IntentEnvelope) (tok : DecisionToken) (body : Bytes) (e : Evaluated RingBuffer)
      → (enforce x m request_id env tok r body e).forwarded ≡ some u
      → (allows e ≡ true)
        × (upstream_request x r body ≡ u)
        × (x.answer (upstream_request x r body) ≢ not_created)
  unfolding enforce respond_deny
  enforced env tok body (panic s') h = cc h
  enforced env tok body (returned d s') h = elim (Bool-cases d.allow) [
    | inl granted ↦
        let (same, creatable) =
          forwarded_request s' (upstream_request x r body) (x.answer (upstream_request x r body))
            (ground (arith, granted, h)) in
        (granted, same, creatable)
    | inr denied ↦ absurd (ground (arith, denied, h))
  ]

  Recorded-room :
      (env : IntentEnvelope) (tok : DecisionToken) (req : RequestContext)
      → Recorded (ring_writer m.recorded_at) s.provenance env (some tok) req
      → s.provenance.count < s.provenance.capacity
  unfolding ring_writer accept put
  Recorded-room env tok req (log, h) = ground (arith, h)

  room-Recorded :
      (env : IntentEnvelope) (tok : DecisionToken) (req : RequestContext)
      → s.provenance.count < s.provenance.capacity
      → Recorded (ring_writer m.recorded_at) s.provenance env (some tok) req
  unfolding ring_writer accept put
  room-Recorded env tok req room =
      let free : leb s.provenance.capacity s.provenance.count ≡ false = ground (arith, room) in
      (pushed s.provenance (event_of m.recorded_at env tok req "ALLOW" unspecified), rw free refl)

  by_action :
      (env : IntentEnvelope) (tok : DecisionToken) (body : Bytes) (proposed : ProposedAction)
      (action : Option Bytes)
      → extract_headers x.codec x.http.canonical_key r.header ≡ parsed (env, tok)
      → r.body ≡ some body
      → synthesize_proposed_action r.method r.url_path env (sha256_hex x.pipeline.crypto body)
        ≡ some proposed
      → x.marshal proposed ≡ action
      → (serve_action x s m request_id env tok r body action).forwarded ≡ some u
      → Authorized x s m request_id r u
  unfolding respond_deny
  by_action env tok body proposed none extracted read synthesized marshalled h = cc h
  by_action env tok body proposed (some action) extracted read synthesized marshalled h =
      let req = request_context x m request_id r body action in
      let (allowed, same, creatable) = enforced env tok body _ h in
      let (e, t, granted, recorded) =
        (evaluate-allows_token (ring_writer m.recorded_at) x.pipeline s env tok req m.clock).0
          allowed in
      record {
        env = env;
        tok = tok;
        body = body;
        action = action;
        extracted = extracted;
        read = read;
        envelope = e;
        token = t;
        left = granted;
        room = Recorded-room env tok req recorded;
        proposed = proposed;
        synthesized = synthesized;
        marshalled = marshalled;
        creatable = creatable;
        unchanged = same;
      }

  by_proposal :
      (env : IntentEnvelope) (tok : DecisionToken) (body : Bytes) (action : Option ProposedAction)
      → extract_headers x.codec x.http.canonical_key r.header ≡ parsed (env, tok)
      → r.body ≡ some body
      → synthesize_proposed_action r.method r.url_path env (sha256_hex x.pipeline.crypto body)
        ≡ action
      → (serve_proposed x s m request_id env tok r body action).forwarded ≡ some u
      → Authorized x s m request_id r u
  by_proposal env tok body none extracted read synthesized h = cc h
  by_proposal env tok body (some action) extracted read synthesized h =
      by_action env tok body action (x.marshal action) extracted read synthesized refl h

  by_body :
      (env : IntentEnvelope) (tok : DecisionToken) (body : Option Bytes)
      → extract_headers x.codec x.http.canonical_key r.header ≡ parsed (env, tok)
      → r.body ≡ body
      → (serve_body x s m request_id env tok r body).forwarded ≡ some u
      → Authorized x s m request_id r u
  unfolding respond_deny
  by_body env tok none extracted read h = cc h
  by_body env tok (some body) extracted read h = by_proposal env tok body _ extracted read refl h

  by_headers :
      (p : ParseResult (IntentEnvelope × DecisionToken))
      → extract_headers x.codec x.http.canonical_key r.header ≡ p
      → (serve_parsed x s m request_id r p).forwarded ≡ some u
      → Authorized x s m request_id r u
  unfolding respond_deny
  by_headers (refused e) extracted h = cc h
  by_headers (parsed (env, tok)) extracted h = by_body env tok r.body extracted refl h

  pub serve_http-Authorized :
      (serve_http x s m request_id r).forwarded ≡ some u → Authorized x s m request_id r u
  unfolding serve_http
  serve_http-Authorized h = by_headers _ refl h

  sent_on :
      (s' : State RingBuffer) (v : UpstreamRequest) (a : Answer)
      → a ≢ not_created
      → (forward_upstream x s' request_id v a).forwarded ≡ some v
  unfolding forward_upstream
  sent_on s' v not_created creatable = absurd (creatable refl)
  sent_on s' v unavailable creatable = refl
  sent_on s' v unreadable creatable = refl
  sent_on s' v (answered status header body) creatable = refl

  allowed_on :
      (env : IntentEnvelope) (tok : DecisionToken) (body : Bytes) (e : Evaluated RingBuffer)
      → allows e ≡ true
      → x.answer (upstream_request x r body) ≢ not_created
      → (enforce x m request_id env tok r body e).forwarded ≡ some (upstream_request x r body)
  unfolding enforce
  allowed_on env tok body (panic s') h creatable = cc h
  allowed_on env tok body (returned d s') h creatable =
      ground (arith, h, sent_on s' (upstream_request x r body) _ creatable)

  Authorized-serve_http :
      Authorized x s m request_id r u → (serve_http x s m request_id r).forwarded ≡ some u
  unfolding serve_http
  Authorized-serve_http a =
      let req = request_context x m request_id r a.body a.action in
      ap (λ p. (serve_parsed x s m request_id r p).forwarded) a.extracted
      ∙ ap (λ b. (serve_body x s m request_id a.env a.tok r b).forwarded) a.read
      ∙ ap (λ o. (serve_proposed x s m request_id a.env a.tok r a.body o).forwarded) a.synthesized
      ∙ ap (λ o. (serve_action x s m request_id a.env a.tok r a.body o).forwarded) a.marshalled
      ∙ allowed_on a.env a.tok a.body _
          ((evaluate-allows_token (ring_writer m.recorded_at) x.pipeline s a.env a.tok req
              m.clock).1
            (a.envelope, a.token, a.left, room-Recorded a.env a.tok req a.room))
          a.creatable
      ∙ ap some a.unchanged

  pub serve_http_iff :
      ((serve_http x s m request_id r).forwarded ≡ some u) ↔ Authorized x s m request_id r u
  serve_http_iff = (serve_http-Authorized, Authorized-serve_http)
