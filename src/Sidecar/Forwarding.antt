-- ===== src/Sidecar/Forwarding.antt =====
-- cmd/sidecar/main.go: which requests the sidecar's server sends to the upstream.
use hacp_sidecar.Common.{
  String, ◌≡◌, refl, sym, ◌∙◌, false, ap, Option, none, some, arith, str_eq, eq_iff, inl, inr,
  Bool-cases,
}
use hacp_sidecar.Wire.{IntentEnvelope, DecisionToken}
use hacp_sidecar.ControlPlane.State.{ControlState}
use hacp_sidecar.Evaluate.Interfaces.{RevocationStore}
use hacp_sidecar.Evaluate.ScopeGuard.{default_scope_guard}
use hacp_sidecar.Evaluate.Pipeline.Checks.{new_pipeline}
use hacp_sidecar.Trust.Store.{key_resolver}
use hacp_sidecar.Sidecar.Runtime.{revocations, control_state, attach_control_state}
use hacp_sidecar.Revocation.{InMemoryRevocationStore}
use hacp_sidecar.Proxy.Handler.{UpstreamRequest}
use hacp_sidecar.Proxy.Enforced.{Authorized, serve_http-Authorized}
use hacp_sidecar.Sidecar.Runtime.{local_revocations}
use hacp_sidecar.Sidecar.Endpoints.{Reply, revocation_kind, revocation_routes}
use hacp_sidecar.Sidecar.Main.{Running}
use hacp_sidecar.Sidecar.Routes.{
  Matched, pattern, redirected, unmatched, Site, Incoming, Outgoing, replied, moved, proxied,
  patterns, pipeline_in, proxy_in, after_revocation, serve_other, serve_kind, serve_pattern,
  serve_matched, serve,
}

-- What a request made the sidecar send to the upstream.
abbrev pub forwarded : Outgoing → Option UpstreamRequest
forwarded (proxied served) = served.forwarded
forwarded (replied reply) = none
forwarded (moved location) = none

module _ (x : Site) where
  -- The mux gives the request to the proxy, which finds it authorized.
  pub record Passed (s : Running) (i : Incoming) (u : UpstreamRequest) : Type 0 where
    pub at_root : x.mux patterns i.request.method i.request.url_path ≡ pattern "/"
    pub authorized : Authorized (proxy_in x s) s.state i.moment i.request_id i.request u

  not_forwarded :
      (s : Running) (r : Option InMemoryRevocationStore × Option Reply)
      → forwarded (after_revocation x s r).1 ≡ none
  not_forwarded s (store, some reply) = refl
  not_forwarded s (store, none) = refl

  serve_other-Authorized :
      (s : Running) (i : Incoming) (p : String) (u : UpstreamRequest)
      → forwarded (serve_other x s i p).1 ≡ some u
      → (p ≡ "/") × Authorized (proxy_in x s) s.state i.moment i.request_id i.request u
  unfolding serve_other
  serve_other-Authorized s i p u h = elim (Bool-cases (str_eq p "/healthz")) [
    | inl e ↦ absurd (ground (arith, e, h))
    | inr n ↦ elim (Bool-cases (str_eq p "/readyz")) [
      | inl e ↦ absurd (ground (arith, n, e, h))
      | inr m ↦ elim (Bool-cases (str_eq p "/")) [
        | inr o ↦ absurd (ground (arith, n, m, o, h))
        | inl e ↦ (
          (eq_iff p "/").0 e,
          serve_http-Authorized (proxy_in x s) s.state i.moment i.request_id i.request u
              (ground (arith, n, m, e, h)),
        )
      ]
    ]
  ]

  serve_kind-Authorized :
      (s : Running) (i : Incoming) (p : String) (k : Option String) (u : UpstreamRequest)
      → forwarded (serve_kind x s i p k).1 ≡ some u
      → (p ≡ "/") × Authorized (proxy_in x s) s.state i.moment i.request_id i.request u
  unfolding serve_kind
  serve_kind-Authorized s i p (some kind) u h = cc (
    not_forwarded s (revocation_routes (local_revocations s.runtime) p i.request.method i.id i.now),
    h,
  )
  serve_kind-Authorized s i p none u h = serve_other-Authorized s i p u h

  serve_matched-Authorized :
      (s : Running) (i : Incoming) (m : Matched) (u : UpstreamRequest)
      → forwarded (serve_matched x s i m).1 ≡ some u
      → (m ≡ pattern "/") × Authorized (proxy_in x s) s.state i.moment i.request_id i.request u
  unfolding serve_pattern
  serve_matched-Authorized s i (pattern p) u h =
      let (root, authorized) = serve_kind-Authorized s i p (revocation_kind p) u h in
      (ap pattern root, authorized)
  serve_matched-Authorized s i (redirected location) u h = cc h
  serve_matched-Authorized s i unmatched u h = cc h

  -- A request reaches the upstream only if the mux gives it to the route of the proxy, and an envelope and a
  -- token in its headers authorize it for the sidecar's present trust store and runtime.
  pub serve-Passed :
      (s : Running) (i : Incoming) (u : UpstreamRequest)
      → forwarded (serve x s i).1 ≡ some u
      → Passed s i u
  unfolding serve
  serve-Passed s i u h =
      let (root, authorized) =
        serve_matched-Authorized s i (x.mux patterns i.request.method i.request.url_path) u h in
      record { at_root = root; authorized = authorized }

  -- A revocation store that revokes none of the four subjects that a request with a token rests on.
  abbrev pub Unlisted : RevocationStore → IntentEnvelope → DecisionToken → Type 0
  Unlisted v env tok =
      (v.is_envelope_revoked env.envelope_id ≡ false)
      × (v.is_key_revoked env.signer_key_id ≡ false)
      × (v.is_token_revoked tok.token_id ≡ false)
      × (v.is_key_revoked tok.signer_key_id ≡ false)

  pipeline_in-revocation : (s : Running) → (pipeline_in x s).revocation ≡ revocations s.runtime
  unfolding pipeline_in attach_control_state new_pipeline
  pipeline_in-revocation s = go (control_state s.runtime)
    where
      go :
          (o : Option ControlState)
          → (attach_control_state
              (new_pipeline
                (key_resolver s.trust)
                (revocations s.runtime)
                (default_scope_guard x.library)
                x.crypto
                x.canonicalize)
              o).revocation
            ≡ revocations s.runtime
      go none = refl
      go (some state) = refl

  pub Authorized-Unlisted :
      (s : Running) (i : Incoming) (u : UpstreamRequest)
      → (a : Authorized (proxy_in x s) s.state i.moment i.request_id i.request u)
      → Unlisted (revocations s.runtime) a.env a.tok
  unfolding proxy_in
  Authorized-Unlisted s i u a =
      let read = sym (pipeline_in-revocation s) in
      (
        ap (λ v. v.is_envelope_revoked a.env.envelope_id) read ∙ a.envelope.unrevoked,
        ap (λ v. v.is_key_revoked a.env.signer_key_id) read ∙ a.envelope.signed.unrevoked,
        ap (λ v. v.is_token_revoked a.tok.token_id) read ∙ a.token.unrevoked,
        ap (λ v. v.is_key_revoked a.tok.signer_key_id) read ∙ a.token.signed.unrevoked,
      )
