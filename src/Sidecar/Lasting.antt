-- ===== src/Sidecar/Lasting.antt =====
-- cmd/sidecar/main.go: requests to the local revocation endpoints, and the proxy after them.
use hacp_sidecar.Common.{
  String, ◌≡◌, refl, sym, ap, subst, ◌∙◌, false, Option, none, some, List, [], ◌∷◌, ◌++◌, arith,
}
use hacp_sidecar.Common.Time.{Time}
use hacp_sidecar.Wire.{IntentEnvelope, DecisionToken}
use hacp_sidecar.Wire.Parsing.{parsed}
use hacp_sidecar.Wire.Headers.{extract_headers}
use hacp_sidecar.Revocation.{InMemoryRevocationStore}
use hacp_sidecar.Revocation.Laws
use hacp_sidecar.Revocation.Laws.{key, token, envelope}
use hacp_sidecar.Trust.Store.{AtomicTrustStore}
use hacp_sidecar.Trust.File.{TrustFile}
use hacp_sidecar.Proxy.Handler.{UpstreamRequest}
use hacp_sidecar.Proxy.Enforced.{Authorized}
use hacp_sidecar.Sidecar.Runtime.{ControlRuntime, standalone, local_revocations, revocations}
use hacp_sidecar.Sidecar.Endpoints.{
  Reply, revoke_handler, revocation_kind, revocation_routes, post_trust_reload,
}
use hacp_sidecar.Sidecar.Revoking.{
  RevokeRequest, handle, handle_all, handle_all-asked, handle-of_other,
}
use hacp_sidecar.Sidecar.Closed.{asks_to_revoke}
use hacp_sidecar.Sidecar.Main.{Running}
use hacp_sidecar.Sidecar.Routes.{
  Matched, pattern, redirected, unmatched, Site, Incoming, patterns, with_local, proxy_in,
  after_revocation, serve_other, serve_kind, serve_pattern, serve_matched, serve, Event, request,
  reload, received, reloaded_store, snapshot_given, received_runtime, loaded_runtime, step, run,
}
use hacp_sidecar.Sidecar.Forwarding.{forwarded, serve-Passed, Unlisted, Authorized-Unlisted}

module _ (x : Site) where
  -- The requests that the mux gives to a pattern, as requests to revoke.
  abbrev pub revoke_request : Incoming → Matched → List RevokeRequest
  revoke_request i (pattern p) =
      record { path = p; method = i.request.method; id = i.id; now = i.now } ∷ []
  revoke_request i (redirected location) = []
  revoke_request i unmatched = []

  unfoldable pub revoke_requests : List (Event x) → List RevokeRequest
  revoke_requests [] = []
  revoke_requests (request i ∷ es) =
      revoke_request i (x.mux patterns i.request.method i.request.url_path) ++ revoke_requests es
  revoke_requests (reload file method now ∷ es) = revoke_requests es
  revoke_requests (received response now ∷ es) = revoke_requests es
  revoke_requests (snapshot_given answer now ∷ es) = revoke_requests es

  pub serve_other-runtime :
      (s : Running) (i : Incoming) (p : String) → (serve_other x s i p).0.runtime ≡ s.runtime
  unfolding serve_other
  serve_other-runtime s i p = ground (arith)

  -- The handler of a revocation endpoint, with a local store.
  routed :
      (r : ControlRuntime) (store : InMemoryRevocationStore) (p method id kind : String)
      (now : Time)
      → r ≡ standalone store
      → revocation_kind p ≡ some kind
      → ◌≡◌ {A = Option InMemoryRevocationStore × Option Reply}
          (revocation_routes (local_revocations r) p method id now)
          (
            some (handle store (record { path = p; method = method; id = id; now = now })),
            some (revoke_handler store kind method id now).1,
          )
  unfolding revocation_routes local_revocations handle
  routed r store p method id kind now h e =
      ap (λ q. revocation_routes (local_revocations q) p method id now) h
      ∙ rw (revocation_routes, handle, e) refl

  serve_kind-runtime :
      (s : Running) (i : Incoming) (p : String) (store : InMemoryRevocationStore)
      (k : Option String)
      → s.runtime ≡ standalone store
      → revocation_kind p ≡ k
      → (serve_kind x s i p k).0.runtime
        ≡ standalone
            (handle store (record { path = p; method = i.request.method; id = i.id; now = i.now }))
  unfolding serve_kind with_local
  serve_kind-runtime s i p store none h e =
      serve_other-runtime s i p ∙ h ∙ ap standalone (sym (handle-of_other store _ e))
  serve_kind-runtime s i p store (some kind) h e =
      ap (λ r. (after_revocation x s r).0.runtime)
        (routed s.runtime store p i.request.method i.id kind i.now h e)
      ∙ ap
          (λ r. with_local r (
            some (
              handle store
                (record { path = p; method = i.request.method; id = i.id; now = i.now }))))
          h

  serve_matched-runtime :
      (s : Running) (i : Incoming) (m : Matched) (store : InMemoryRevocationStore)
      → s.runtime ≡ standalone store
      → (serve_matched x s i m).0.runtime ≡ standalone (handle_all store (revoke_request i m))
  unfolding serve_pattern handle_all
  serve_matched-runtime s i (pattern p) store h =
      serve_kind-runtime s i p store (revocation_kind p) h refl
  serve_matched-runtime s i (redirected location) store h = h
  serve_matched-runtime s i unmatched store h = h

  handle_all-append :
      (store : InMemoryRevocationStore) (rs qs : List RevokeRequest)
      → handle_all store (rs ++ qs) ≡ handle_all (handle_all store rs) qs
  unfolding handle_all
  handle_all-append store [] qs = refl
  handle_all-append store (r ∷ rs) qs = handle_all-append (handle store r) rs qs

  pub reload-runtime :
      (s : Running) (file : TrustFile) (method : String) (now : Time)
      → (step x s (reload file method now)).runtime ≡ s.runtime
  unfolding step
  reload-runtime s file method now =
      go s.admin
        (post_trust_reload x.hex_decode x.crypto x.trim_space (some s.trust) s.trust_keys_file file
          method now).0
    where
      go :
          (admin : Option String) (store : Option AtomicTrustStore)
          → (reloaded_store x s admin store).runtime ≡ s.runtime
      go none store = refl
      go (some addr) none = refl
      go (some addr) (some trust) = refl

  serve-runtime :
      (s : Running) (i : Incoming) (store : InMemoryRevocationStore)
      → s.runtime ≡ standalone store
      → (step x s (request i)).runtime
        ≡ standalone (
            handle_all store
              (revoke_request i (x.mux patterns i.request.method i.request.url_path)))
  unfolding step serve
  serve-runtime s i store h =
      serve_matched-runtime s i (x.mux patterns i.request.method i.request.url_path) store h

  -- The local store of a standalone sidecar is what the requests to its endpoints have made of it.
  run-runtime :
      (s : Running) (es : List (Event x)) (store : InMemoryRevocationStore)
      → s.runtime ≡ standalone store
      → (run x s es).runtime ≡ standalone (handle_all store (revoke_requests es))
  unfolding run step revoke_requests handle_all
  run-runtime s [] store h = h
  run-runtime s (request i ∷ es) store h =
      let m : Matched = x.mux patterns i.request.method i.request.url_path in
      run-runtime (step x s (request i)) es (handle_all store (revoke_request i m))
        (serve-runtime s i store h)
      ∙ ap standalone (sym (handle_all-append store (revoke_request i m) (revoke_requests es)))
  run-runtime s (reload file method now ∷ es) store h =
      run-runtime (step x s (reload file method now)) es store
        (reload-runtime s file method now ∙ h)
  run-runtime s (received response now ∷ es) store h =
      run-runtime (step x s (received response now)) es store
        (ap (λ r. received_runtime x r response now) h)
  run-runtime s (snapshot_given answer now ∷ es) store h =
      run-runtime (step x s (snapshot_given answer now)) es store
        (ap (λ r. loaded_runtime x r answer now) h)

  -- The objects of a request name no subject that an earlier request to the endpoints has revoked.
  pub record Unrevoked (i : Incoming) (rs : List RevokeRequest) : Type 0 where
    pub env : IntentEnvelope
    pub tok : DecisionToken
    pub extracted :
        extract_headers x.codec x.http.canonical_key i.request.header ≡ parsed (env, tok)
    pub unasked : asks_to_revoke rs env tok ≡ false

  unasked :
      (store : InMemoryRevocationStore) (rs : List RevokeRequest) (s : Running) (i : Incoming)
      (u : UpstreamRequest)
      → s.runtime ≡ standalone (handle_all store rs)
      → Authorized (proxy_in x s) s.state i.moment i.request_id i.request u
      → Unrevoked i rs
  unfolding proxy_in revocations asks_to_revoke Laws.is_revoked
  unasked store rs s i u h a =
      let (no_envelope, no_signer, no_token, no_token_signer) =
        subst (λ r. Unlisted x (revocations r) a.env a.tok) h (Authorized-Unlisted x s i u a) in
      record {
        env = a.env;
        tok = a.tok;
        extracted = a.extracted;
        unasked = ground (
          arith,
          sym (handle_all-asked store rs envelope a.env.envelope_id) ∙ no_envelope,
          sym (handle_all-asked store rs key a.env.signer_key_id) ∙ no_signer,
          sym (handle_all-asked store rs token a.tok.token_id) ∙ no_token,
          sym (handle_all-asked store rs key a.tok.signer_key_id) ∙ no_token_signer,
        );
      }

  -- After any sequence of requests to a standalone sidecar's server and of reloads of its trust store, a request
  -- reaches the upstream only if its headers hold an envelope and a token, and no earlier request that the
  -- mux gave to a revocation endpoint has revoked either of them or one of their signers.
  pub run-Unrevoked :
      (s : Running) (store : InMemoryRevocationStore) (es : List (Event x)) (i : Incoming)
      (u : UpstreamRequest)
      → s.runtime ≡ standalone store
      → forwarded (serve x (run x s es) i).1 ≡ some u
      → Unrevoked i (revoke_requests es)
  run-Unrevoked s store es i u h forward =
      unasked store (revoke_requests es) (run x s es) i u (run-runtime s es store h)
        (serve-Passed x (run x s es) i u forward).authorized
