-- ===== src/Proxy/Spending.antt =====
-- internal/proxy/handler.go: what `ServeHTTP` does to the uses of a token.
use hacp_sidecar.Common.{
  ℕ, ◌+◌, ◌≤◌, String, ◌≡◌, refl, Bool, true, false, Option, none, some, arith, str_eq,
  if◌then◌else◌,
}
use hacp_sidecar.Common.Int.{pos}
use hacp_sidecar.Budget.{Ledger, token_count}
use hacp_sidecar.Budget.Accounting.{tally}
use hacp_sidecar.Wire.{Bytes, IntentEnvelope, DecisionToken}
use hacp_sidecar.Wire.Parsing.{Codec, ParseResult, parsed, refused}
use hacp_sidecar.Wire.Headers.{extract_headers}
use hacp_sidecar.Evaluate.Interfaces.{Reason, RequestContext, invalid_envelope, invalid_action}
use hacp_sidecar.Evaluate.Pipeline.{State, Evaluated, returned, panic}
use hacp_sidecar.Evaluate.Pipeline.Replay.{TokenLimit, Counts, evaluate-Counts}
use hacp_sidecar.Provenance.{RingBuffer, accept_denied, put, ring_writer}
use hacp_sidecar.Proxy.Action.{ProposedAction}
use hacp_sidecar.Proxy.Hops.{Http}
use hacp_sidecar.Proxy.Recording.{granted, forward_upstream-granted}
use hacp_sidecar.Proxy.Handler.{
  Request, Moment, Served, UpstreamRequest, Answer, DenyError, header_error, body_error,
  marshal_error, decision_error, Proxy, record_denial, denial_context, respond_deny,
  forward_upstream, enforce, request_context, serve_action, serve_proposed, serve_body,
  serve_parsed, serve_http,
}

abbrev pub token_in : ParseResult (IntentEnvelope × DecisionToken) → Option DecisionToken
token_in (refused e) = none
token_in (parsed (env, tok)) = some tok

-- The token of a request, where its headers can be read. They are read by the codec and the names of headers
-- alone.
abbrev pub presented : Codec → Http → Request → Option DecisionToken
presented codec http r = token_in (extract_headers codec http.canonical_key r.header)

-- 1 for a granted request that presents the token `k`.
abbrev pub granted_use : String → Option DecisionToken → Served → ℕ
granted_use k none served = 0
granted_use k (some tok) served = if str_eq tok.token_id k then tally (granted served) else 0

-- What a request may do to the count of the token `k`.
pub record Spends (k : String) (limit : ℕ) (tok : Option DecisionToken) (before : Ledger)
    (served : Served) : Type 0 where
  pub counted : granted_use k tok served + token_count before k ≤ token_count served.state.ledger k
  pub within : token_count before k ≤ limit → token_count served.state.ledger k ≤ limit

record_denial-ledger :
    (s : State RingBuffer) (m : Moment) (env : Option IntentEnvelope) (tok : Option DecisionToken)
    (req : RequestContext) (reason : Reason)
    → (record_denial s m env tok req reason).ledger ≡ s.ledger
unfolding record_denial accept_denied put
record_denial-ledger s m none tok req reason = refl
record_denial-ledger s m (some env) none req reason = refl
record_denial-ledger s m (some env) (some tok) req reason = ground arith

module _ (x : Proxy) (m : Moment) (id : String) (r : Request) (k : String) (limit : ℕ) where
  respond_deny-Spends :
      (held : Option DecisionToken) (s : State RingBuffer) (reason : Reason) (e : DenyError)
      (env : Option IntentEnvelope) (tok : Option DecisionToken)
      → Spends k limit held s.ledger (respond_deny x s m id reason e env tok)
  unfolding respond_deny
  respond_deny-Spends none s reason e env tok =
      ground
        (arith, record_denial-ledger s m env tok (denial_context id m.denied_latency_ns) reason)
  respond_deny-Spends (some held) s reason e env tok =
      ground
        (arith, record_denial-ledger s m env tok (denial_context id m.denied_latency_ns) reason)

  by_decision :
      (tok : DecisionToken) (before : Ledger) (s' : State RingBuffer) (allow : Bool)
      (u : UpstreamRequest) (a : Answer) (reason : Reason) (e : DenyError)
      (env : Option IntentEnvelope)
      → (if str_eq tok.token_id k then tally allow else 0) + token_count before k
        ≤ token_count s'.ledger k
      → (token_count before k ≤ limit → token_count s'.ledger k ≤ limit)
      → Spends k limit (some tok) before (
          if allow
          then forward_upstream x s' id u a
          else respond_deny x s' m id reason e env (some tok))
  by_decision tok before s' true u a reason e env counted within =
      let (sent, same) = forward_upstream-granted x m id r s' u a in
      record { counted = rw (sent, same) counted; within = rw same within }
  by_decision tok before s' false u a reason e env counted within =
      let d = respond_deny-Spends (some tok) s' reason e env (some tok) in
      ground (arith, counted, d, within)

  enforce-Spends :
      (s : State RingBuffer) (env : IntentEnvelope) (tok : DecisionToken) (body : Bytes)
      (e : Evaluated RingBuffer)
      → Counts k limit (some tok) s.ledger e
      → Spends k limit (some tok) s.ledger (enforce x m id env tok r body e)
  unfolding enforce
  enforce-Spends s env tok body (panic s') c = record { counted = c.counted; within = c.within }
  enforce-Spends s env tok body (returned d s') c =
      by_decision tok s.ledger s' d.allow _ _ d.reason_code (decision_error d.error) (some env)
        c.counted c.within

  serve_action-Spends :
      (s : State RingBuffer) (env : IntentEnvelope) (tok : DecisionToken) (body : Bytes)
      (action : Option Bytes)
      → TokenLimit k (pos limit) (some tok)
      → Spends k limit (some tok) s.ledger (serve_action x s m id env tok r body action)
  serve_action-Spends s env tok body none h =
      respond_deny-Spends (some tok) s invalid_action marshal_error (some env) (some tok)
  serve_action-Spends s env tok body (some action) h = enforce-Spends s env tok body _ (
      evaluate-Counts (ring_writer m.recorded_at) x.pipeline k limit s (some env) (some tok)
        (some (request_context x m id r body action)) m.clock h)

  serve_proposed-Spends :
      (s : State RingBuffer) (env : IntentEnvelope) (tok : DecisionToken) (body : Bytes)
      (action : Option ProposedAction)
      → TokenLimit k (pos limit) (some tok)
      → Spends k limit (some tok) s.ledger (serve_proposed x s m id env tok r body action)
  serve_proposed-Spends s env tok body none h = ground arith
  serve_proposed-Spends s env tok body (some action) h =
      serve_action-Spends s env tok body (x.marshal action) h

  serve_body-Spends :
      (s : State RingBuffer) (env : IntentEnvelope) (tok : DecisionToken) (body : Option Bytes)
      → TokenLimit k (pos limit) (some tok)
      → Spends k limit (some tok) s.ledger (serve_body x s m id env tok r body)
  serve_body-Spends s env tok none h =
      respond_deny-Spends (some tok) s invalid_action body_error (some env) (some tok)
  serve_body-Spends s env tok (some body) h = serve_proposed-Spends s env tok body _ h

  serve_parsed-Spends :
      (s : State RingBuffer) (p : ParseResult (IntentEnvelope × DecisionToken))
      → TokenLimit k (pos limit) (token_in p)
      → Spends k limit (token_in p) s.ledger (serve_parsed x s m id r p)
  serve_parsed-Spends s (refused e) h =
      respond_deny-Spends none s invalid_envelope (header_error e) none none
  serve_parsed-Spends s (parsed (env, tok)) h = serve_body-Spends s env tok r.body h

  -- A granted request spends one use of its token, and no request spends a use above the limit.
  pub serve_http-Spends :
      (s : State RingBuffer)
      → TokenLimit k (pos limit) (presented x.codec x.http r)
      → Spends k limit (presented x.codec x.http r) s.ledger (serve_http x s m id r)
  unfolding serve_http
  serve_http-Spends s h =
      serve_parsed-Spends s (extract_headers x.codec x.http.canonical_key r.header) h
