-- ===== src/Proxy/Recording.antt =====
-- internal/proxy/handler.go: the events that `ServeHTTP` leaves in the provenance log.
use hacp_sidecar.Common.{
  String, ◌≡◌, refl, Bool, true, false, Option, none, some, [], ◌∷◌, arith, leb, if◌then◌else◌, inl,
  inr, Bool-cases,
}
use hacp_sidecar.Wire.{Bytes, IntentEnvelope, DecisionToken}
use hacp_sidecar.Wire.Parsing.{ParseResult, parsed, refused}
use hacp_sidecar.Evaluate.Interfaces.{Reason, RequestContext, invalid_envelope, invalid_action}
use hacp_sidecar.Evaluate.Pipeline.{State, Evaluated, returned, panic}
use hacp_sidecar.Provenance.{RingBuffer, put, event_of, accept_denied}
use hacp_sidecar.Provenance.Accounted.{
  Accounted, Accounted-refl, Accounted-trans, pushed-Accounted, Logged, evaluate-Logged,
  allowed_ids,
}
use hacp_sidecar.Proxy.Action.{ProposedAction}
use hacp_sidecar.Proxy.Handler.{
  Request, Moment, Response, Served, UpstreamRequest, Answer, not_created, unavailable, unreadable,
  answered, DenyError, header_error, body_error, marshal_error, decision_error, Proxy,
  upstream_error, record_denial, denial_context, respond_deny, forward_upstream, enforce,
  request_context, serve_action, serve_proposed, serve_body, serve_parsed, serve_http,
}

abbrev without_reason : Option Response → Bool
without_reason none = false
without_reason (some r) = elim r.reason [ none ↦ true | some reason ↦ false ]

-- The request was sent to the upstream, or answered without a reason of denial.
abbrev pub granted : Served → Bool
granted served = elim served.forwarded [ some u ↦ true | none ↦ without_reason served.response ]

-- Exactly a request that is granted leaves the event of an allowed action.
abbrev pub Recorded : State RingBuffer → String → Served → Type 0
Recorded s id served =
    Accounted s.provenance served.state.provenance (if granted served then id ∷ [] else [])

record_denial-Accounted :
    (s : State RingBuffer) (m : Moment) (env : Option IntentEnvelope) (tok : Option DecisionToken)
    (req : RequestContext) (reason : Reason)
    → Accounted s.provenance (record_denial s m env tok req reason).provenance []
unfolding record_denial accept_denied put allowed_ids
record_denial-Accounted s m none tok req reason = Accounted-refl s.provenance
record_denial-Accounted s m (some env) none req reason = Accounted-refl s.provenance
record_denial-Accounted s m (some env) (some tok) req reason =
    elim (Bool-cases (leb s.provenance.capacity s.provenance.count)) [
      | inl full ↦ rw full (Accounted-refl s.provenance)
      | inr room ↦ rw room (
          pushed-Accounted s.provenance _ (event_of m.recorded_at env tok req "DENY" reason)
            (ground (arith, room)))
    ]

module _ (x : Proxy) (m : Moment) (id : String) (r : Request) where
  respond_deny-Recorded :
      (s : State RingBuffer) (reason : Reason) (e : DenyError) (env : Option IntentEnvelope)
      (tok : Option DecisionToken)
      → Recorded s id (respond_deny x s m id reason e env tok)
  unfolding respond_deny
  respond_deny-Recorded s reason e env tok =
      record_denial-Accounted s m env tok (denial_context id m.denied_latency_ns) reason

  pub forward_upstream-granted :
      (s : State RingBuffer) (u : UpstreamRequest) (a : Answer)
      → (granted (forward_upstream x s id u a) ≡ true) × ((forward_upstream x s id u a).state ≡ s)
  unfolding forward_upstream upstream_error
  forward_upstream-granted s u not_created = (refl, refl)
  forward_upstream-granted s u unavailable = (refl, refl)
  forward_upstream-granted s u unreadable = (refl, refl)
  forward_upstream-granted s u (answered status header body) = (refl, refl)

  by_decision :
      (s s' : State RingBuffer) (allow : Bool) (u : UpstreamRequest) (a : Answer) (reason : Reason)
      (e : DenyError) (env : Option IntentEnvelope) (tok : Option DecisionToken)
      → Accounted s.provenance s'.provenance (if allow then id ∷ [] else [])
      → Recorded s id
          (if allow then forward_upstream x s' id u a else respond_deny x s' m id reason e env tok)
  unfolding respond_deny
  by_decision s s' true u a reason e env tok h =
      let (sent, same) = forward_upstream-granted s' u a in rw (sent, same) h
  by_decision s s' false u a reason e env tok h =
      Accounted-trans s.provenance s'.provenance _ [] [] h
        (respond_deny-Recorded s' reason e env tok)

  enforce-Recorded :
      (s : State RingBuffer) (env : IntentEnvelope) (tok : DecisionToken) (body : Bytes)
      (e : Evaluated RingBuffer)
      → Logged id s e
      → Recorded s id (enforce x m id env tok r body e)
  unfolding enforce
  enforce-Recorded s env tok body (panic s') h = h
  enforce-Recorded s env tok body (returned d s') h =
      by_decision s s' d.allow _ _ d.reason_code (decision_error d.error) (some env) (some tok) h

  serve_action-Recorded :
      (s : State RingBuffer) (env : IntentEnvelope) (tok : DecisionToken) (body : Bytes)
      (action : Option Bytes)
      → Recorded s id (serve_action x s m id env tok r body action)
  unfolding request_context
  serve_action-Recorded s env tok body none =
      respond_deny-Recorded s invalid_action marshal_error (some env) (some tok)
  serve_action-Recorded s env tok body (some action) = enforce-Recorded s env tok body _ (
      evaluate-Logged m.recorded_at x.pipeline s env tok (request_context x m id r body action)
        m.clock)

  serve_proposed-Recorded :
      (s : State RingBuffer) (env : IntentEnvelope) (tok : DecisionToken) (body : Bytes)
      (action : Option ProposedAction)
      → Recorded s id (serve_proposed x s m id env tok r body action)
  serve_proposed-Recorded s env tok body none = Accounted-refl s.provenance
  serve_proposed-Recorded s env tok body (some action) =
      serve_action-Recorded s env tok body (x.marshal action)

  serve_body-Recorded :
      (s : State RingBuffer) (env : IntentEnvelope) (tok : DecisionToken) (body : Option Bytes)
      → Recorded s id (serve_body x s m id env tok r body)
  serve_body-Recorded s env tok none =
      respond_deny-Recorded s invalid_action body_error (some env) (some tok)
  serve_body-Recorded s env tok (some body) = serve_proposed-Recorded s env tok body _

  serve_parsed-Recorded :
      (s : State RingBuffer) (p : ParseResult (IntentEnvelope × DecisionToken))
      → Recorded s id (serve_parsed x s m id r p)
  serve_parsed-Recorded s (refused e) =
      respond_deny-Recorded s invalid_envelope (header_error e) none none
  serve_parsed-Recorded s (parsed (env, tok)) = serve_body-Recorded s env tok r.body

  -- A request leaves the event of an allowed action in the log exactly if it is granted, under its own
  -- identifier.
  pub serve_http-Recorded : (s : State RingBuffer) → Recorded s id (serve_http x s m id r)
  unfolding serve_http
  serve_http-Recorded s = serve_parsed-Recorded s _
