-- ===== src/Sidecar/Feeding.antt =====
-- cmd/sidecar/main.go: the server and the subscriber of a distributed sidecar, in any interleaving, and what
-- the control plane gives the subscriber.
use hacp_sidecar.Common.{
  ℕ, suc, ◌≤◌, ◌<◌, String, ◌≡◌, refl, sym, ap, ◌∙◌, true, Option, none, some, List, [], ◌∷◌, ◌++◌,
  arith, leb,
}
use hacp_sidecar.Common.Int.{two_64}
use hacp_sidecar.Common.Time.{Time}
use hacp_sidecar.Revocation.{InMemoryRevocationStore}
use hacp_sidecar.ControlPlane.State.{ControlState, HeartbeatError, mark_heartbeat}
use hacp_sidecar.ControlPlane.Journal.{
  Journal, snapshot, RevocationEntry, RevocationEvent, is_valid_kind,
}
use hacp_sidecar.ControlPlane.Journal.Validity.{IsValid}
use hacp_sidecar.ControlPlane.Subscriber.{
  Subscriber, Response, reset_required, empty, heartbeat, event, receive, apply_event, applied,
  beat, load_snapshot,
}
use hacp_sidecar.ControlPlane.Subscriber.Mirror.{load_snapshot-Mirrors, Mirrors}
use hacp_sidecar.ControlPlane.Subscriber.Watch.{receive-Mirrors}
use hacp_sidecar.Trust.File.{TrustFile}
use hacp_sidecar.Sidecar.Runtime.{ControlRuntime, distributed, local_revocations}
use hacp_sidecar.Sidecar.Endpoints.{Reply, revocation_kind, revocation_routes}
use hacp_sidecar.Sidecar.Main.{Running}
use hacp_sidecar.Sidecar.Routes.{
  Matched, pattern, redirected, unmatched, Site, Incoming, patterns, with_local, after_revocation,
  serve_kind, serve_pattern, serve_matched, serve, Event, request, reload, received, snapshot_given,
  loaded_runtime, received_runtime, step, run,
}
use hacp_sidecar.Sidecar.Lasting.{serve_other-runtime, reload-runtime}

-- A response that brings no revocation which is new after the first `n`.
abbrev pub Quiet : ℕ → Response → Type 0
Quiet n (event e) = e.revision ≤ n
Quiet n _ = Unit {0}

beat-Mirrors :
    (t : Subscriber) (n : ℕ) (ys : List RevocationEntry) (r : ControlState × Option HeartbeatError)
    → Mirrors t n ys
    → Mirrors (beat t r).0 n ys
unfolding beat
beat-Mirrors t n ys (state, none) m = m
beat-Mirrors t n ys (state, some e) m = m

receive-Quiet :
    (t : Subscriber) (n : ℕ) (ys : List RevocationEntry) (r : Response) (now : Time)
    → Mirrors t n ys
    → Quiet n r
    → Mirrors (receive t r now).0 n ys
unfolding receive apply_event applied
receive-Quiet t n ys reset_required now m q = m
receive-Quiet t n ys empty now m q = m
receive-Quiet t n ys (heartbeat current) now m q =
    beat-Mirrors t n ys (mark_heartbeat t.state current now) m
receive-Quiet t n ys (event e) now m q =
    let old : leb e.revision t.last_seen_revision ≡ true = ground (arith, m.0, q) in rw old m

module _ (x : Site) where
  -- What the control plane gives a subscriber that has the first `n` revocations `ys`, among the requests and
  -- the reloads of the trust store, in any interleaving: the next event of the journal, a snapshot of a
  -- valid journal, or no new revocation. In the end it has the first `m` revocations `zs`.
  pub data Feeds (m : ℕ) (zs : List RevocationEntry)
      : ℕ → List RevocationEntry → List (Event x) → Type 0 where
    fed : Feeds m zs m zs []
    feeds_request :
        {n : ℕ} {ys : List RevocationEntry} {es : List (Event x)} (i : Incoming)
        → Feeds m zs n ys es
        → Feeds m zs n ys (request i ∷ es)
    feeds_reload :
        {n : ℕ} {ys : List RevocationEntry} {es : List (Event x)} (file : TrustFile)
        (method : String) (now : Time)
        → Feeds m zs n ys es
        → Feeds m zs n ys (reload file method now ∷ es)
    feeds_next :
        {n : ℕ} {ys : List RevocationEntry} {es : List (Event x)} (e : RevocationEvent) (now : Time)
        (y : RevocationEntry)
        → (e.revision ≡ suc n) × (e.kind ≡ y.kind) × (e.subject_id ≡ y.subject_id)
        → is_valid_kind y.kind ≡ true
        → suc n < two_64
        → Feeds m zs (suc n) (ys ++ y ∷ []) es
        → Feeds m zs n ys (received (event e) now ∷ es)
    feeds_quiet :
        {n : ℕ} {ys : List RevocationEntry} {es : List (Event x)} (r : Response) (now : Time)
        → Quiet n r
        → Feeds m zs n ys es
        → Feeds m zs n ys (received r now ∷ es)
    feeds_snapshot :
        {n : ℕ} {ys : List RevocationEntry} {es : List (Event x)} (j : Journal)
        (generated now : Time)
        → IsValid j
        → Feeds m zs j.revision j.revoked es
        → Feeds m zs n ys (snapshot_given (some (snapshot j generated)) now ∷ es)
    feeds_none :
        {n : ℕ} {ys : List RevocationEntry} {es : List (Event x)} (now : Time)
        → Feeds m zs n ys es
        → Feeds m zs n ys (snapshot_given none now ∷ es)

  -- The runtime is distributed, with a subscriber that mirrors the revocations.
  abbrev pub Follows : ControlRuntime → ℕ → List RevocationEntry → Type 0
  Follows r n ys = (t : Subscriber) × (r ≡ distributed t) × Mirrors t n ys

  after_revocation-distributed :
      (s : Running) (t : Subscriber) (routed : Option InMemoryRevocationStore × Option Reply)
      → s.runtime ≡ distributed t
      → (after_revocation x s routed).0.runtime ≡ s.runtime
  unfolding with_local
  after_revocation-distributed s t (store, none) h = refl
  after_revocation-distributed s t (store, some reply) h = ap (λ r. with_local r store) h ∙ sym h

  serve_matched-distributed :
      (s : Running) (i : Incoming) (p : Matched) (t : Subscriber)
      → s.runtime ≡ distributed t
      → (serve_matched x s i p).0.runtime ≡ s.runtime
  unfolding serve_pattern serve_kind
  serve_matched-distributed s i (pattern p) t h = go (revocation_kind p)
    where
      go : (k : Option String) → (serve_kind x s i p k).0.runtime ≡ s.runtime
      go none = serve_other-runtime x s i p
      go (some kind) =
          after_revocation-distributed s t
            (revocation_routes (local_revocations s.runtime) p i.request.method i.id i.now) h
  serve_matched-distributed s i (redirected location) t h = refl
  serve_matched-distributed s i unmatched t h = refl

  serve-distributed :
      (s : Running) (i : Incoming) (t : Subscriber)
      → s.runtime ≡ distributed t
      → (step x s (request i)).runtime ≡ distributed t
  unfolding step serve
  serve-distributed s i t h =
      serve_matched-distributed s i (x.mux patterns i.request.method i.request.url_path) t h ∙ h

  pub run-Follows :
      {m : ℕ} {zs : List RevocationEntry} {n : ℕ} {ys : List RevocationEntry} {es : List (Event x)}
      (s : Running)
      → Feeds m zs n ys es
      → Follows s.runtime n ys
      → Follows (run x s es).runtime m zs
  unfolding run step
  run-Follows s fed f = f
  run-Follows s (feeds_request i rest) (t, h, f) =
      run-Follows (step x s (request i)) rest (t, serve-distributed s i t h, f)
  run-Follows s (feeds_reload file method now rest) (t, h, f) =
      run-Follows (step x s (reload file method now)) rest
        (t, reload-runtime x s file method now ∙ h, f)
  run-Follows {n} {ys} s (feeds_next e now y next valid fits rest) (t, h, f) =
      let (got, mirrors) = receive-Mirrors t n e now ys y f next valid fits in
      run-Follows (step x s (received (event e) now)) rest (
        (apply_event t e now).0,
        ap (λ r. received_runtime x r (event e) now) h ∙ ap (λ p. distributed p.0) got,
        mirrors,
      )
  run-Follows {n} {ys} s (feeds_quiet r now quiet rest) (t, h, f) =
      run-Follows (step x s (received r now)) rest (
        (receive t r now).0,
        ap (λ q. received_runtime x q r now) h,
        receive-Quiet t n ys r now f quiet,
      )
  run-Follows s (feeds_snapshot j generated now valid rest) (t, h, f) =
      run-Follows (step x s (snapshot_given (some (snapshot j generated)) now)) rest (
        (load_snapshot t (some (snapshot j generated)) now).0,
        ap (λ q. loaded_runtime x q (some (snapshot j generated)) now) h,
        (load_snapshot-Mirrors t j generated now valid).1,
      )
  run-Follows s (feeds_none now rest) (t, h, f) =
      run-Follows (step x s (snapshot_given none now)) rest
        ((load_snapshot t none now).0, ap (λ q. loaded_runtime x q none now) h, f)
