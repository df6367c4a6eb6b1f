-- ===== src/Sidecar/Routes.antt =====
-- cmd/sidecar/main.go: the routes of the sidecar's server, with its pipeline and its proxy over the state that
-- `main` has made, and the reloads of the trust admin server. How `http.ServeMux` chooses one of the
-- registered patterns, or redirects, is an argument.
use hacp_sidecar.Common.{String, Option, none, some, List, [], ◌∷◌, str_eq, if◌then◌else◌}
use hacp_sidecar.Common.Time.{Time}
use hacp_sidecar.Wire.{Bytes, Crypto}
use hacp_sidecar.Wire.Parsing.{Codec}
use hacp_sidecar.Revocation.{InMemoryRevocationStore}
use hacp_sidecar.Evaluate.Pipeline.Checks.{Pipeline, new_pipeline}
use hacp_sidecar.Evaluate.ScopeGuard.{Library, default_scope_guard}
use hacp_sidecar.ControlPlane.Journal.{RevocationSnapshot}
use hacp_sidecar.ControlPlane.Subscriber.{Response, receive, load_snapshot}
use hacp_sidecar.Trust.Store.{AtomicTrustStore, key_resolver}
use hacp_sidecar.Trust.File.{TrustFile}
use hacp_sidecar.Proxy.Action.{ProposedAction}
use hacp_sidecar.Proxy.Hops.{Http}
use hacp_sidecar.Proxy.Handler.{Request, Moment, UpstreamRequest, Answer, Served, Proxy, serve_http}
use hacp_sidecar.Sidecar.Runtime.{
  ControlRuntime, standalone, distributed, local_revocations, control_state, revocations, ready,
  attach_control_state,
}
use hacp_sidecar.Sidecar.Endpoints.{
  Reply, text, http_error, revocation_kind, revocation_routes, post_trust_reload,
}
use hacp_sidecar.Sidecar.Main.{Running}

-- What `http.ServeMux` finds for a method and a path.
pub data Matched : Type 0 where
  pattern redirected : String → Matched
  unmatched : Matched

pub record Site : Type 1 where
  pub library : Library
  pub crypto : Crypto
  pub canonicalize : Bytes → Option Bytes
  pub codec : Codec
  pub http : Http
  pub marshal : ProposedAction → Option Bytes
  pub answer : UpstreamRequest → Answer
  pub mux : List String → String → String → Matched
  pub hex_decode : String → Option Bytes
  pub trim_space : String → String

-- `id` is the value of the query's parameter of that name, or the empty string.
pub record Incoming : Type 0 where
  pub request : Request
  pub id : String
  pub now : Time
  pub moment : Moment
  pub request_id : String

pub data Outgoing : Type 0 where
  replied : Reply → Outgoing
  moved : String → Outgoing
  proxied : Served → Outgoing

abbrev pub patterns : List String
patterns = "/healthz" ∷ "/readyz" ∷ "/revoke/token" ∷ "/revoke/envelope" ∷ "/revoke/key" ∷ "/" ∷ []

-- The local store after a request to the revocation endpoints.
unfoldable pub with_local : ControlRuntime → Option InMemoryRevocationStore → ControlRuntime
with_local (standalone s) (some store) = standalone store
with_local runtime _ = runtime

module _ (x : Site) where
  -- `NewPipeline` and `attachControlState`.
  unfoldable pub pipeline_in : Running → Pipeline
  unfolding attach_control_state new_pipeline key_resolver revocations default_scope_guard
      control_state
  pipeline_in s =
      attach_control_state
        (new_pipeline (key_resolver s.trust) (revocations s.runtime) (default_scope_guard x.library)
          x.crypto x.canonicalize)
        (control_state s.runtime)

  -- `NewHandler`.
  unfoldable pub proxy_in : Running → Proxy
  unfolding pipeline_in
  proxy_in s = record {
    pipeline = pipeline_in s;
    codec = x.codec;
    http = x.http;
    marshal = x.marshal;
    upstream = s.upstream;
    answer = x.answer;
  }

  abbrev pub after_proxy : Running → Served → Running × Outgoing
  after_proxy s served = (record s { state = served.state }, proxied served)

  abbrev pub after_revocation :
      Running → Option InMemoryRevocationStore × Option Reply → Running × Outgoing
  after_revocation s (store, some reply) =
      (record s { runtime = with_local s.runtime store }, replied reply)
  after_revocation s (store, none) = (s, replied (http_error 404 "404 page not found"))

  -- The handlers that belong to none of the revocation endpoints.
  unfoldable pub serve_other : Running → Incoming → String → Running × Outgoing
  unfolding serve_http proxy_in ready
  serve_other s i p =
      if str_eq p "/healthz"
      then (s, replied (record { status = 200; allow = none; body = text "ok\n" }))
      else if str_eq p "/readyz"
      then (
        s,
        replied (
            if ready s.runtime i.now
            then record { status = 200; allow = none; body = text "ready\n" }
            else http_error 503 "not ready"),
      )
      else if str_eq p "/"
      then after_proxy s (serve_http (proxy_in s) s.state i.moment i.request_id i.request)
      else (s, replied (http_error 404 "404 page not found"))

  -- A request to one of the revocation endpoints, and one to another route.
  unfoldable pub serve_kind : Running → Incoming → String → Option String → Running × Outgoing
  unfolding serve_other revocation_routes local_revocations
  serve_kind s i p (some kind) =
      after_revocation s
        (revocation_routes (local_revocations s.runtime) p i.request.method i.id i.now)
  serve_kind s i p none = serve_other s i p

  unfoldable pub serve_pattern : Running → Incoming → String → Running × Outgoing
  unfolding serve_kind revocation_kind
  serve_pattern s i p = serve_kind s i p (revocation_kind p)

  abbrev pub serve_matched : Running → Incoming → Matched → Running × Outgoing
  serve_matched s i (pattern p) = serve_pattern s i p
  serve_matched s i (redirected location) = (s, moved location)
  serve_matched s i unmatched = (s, replied (http_error 404 "404 page not found"))

  -- One request to the sidecar's server, as one step; the code holds no lock for the whole of a request.
  unfoldable pub serve : Running → Incoming → Running × Outgoing
  unfolding serve_pattern
  serve s i = serve_matched s i (x.mux patterns i.request.method i.request.url_path)

  -- A request, a reload that the trust admin server is asked for, with the file that is read, or what the
  -- subscriber's goroutine is given: a response on its stream, or the answer when it asks for a snapshot.
  pub data Event : Type 0 where
    request : Incoming → Event
    reload : TrustFile → String → Time → Event
    received : Response → Time → Event
    snapshot_given : Option RevocationSnapshot → Time → Event

  -- The trust admin server serves where it has an address.
  abbrev pub reloaded_store : Running → Option String → Option AtomicTrustStore → Running
  reloaded_store s (some addr) (some trust) = record s { trust = trust }
  reloaded_store s (some addr) none = s
  reloaded_store s none store = s

  abbrev pub received_runtime : ControlRuntime → Response → Time → ControlRuntime
  received_runtime (standalone store) response now = standalone store
  received_runtime (distributed t) response now = distributed (receive t response now).0

  abbrev pub loaded_runtime : ControlRuntime → Option RevocationSnapshot → Time → ControlRuntime
  loaded_runtime (standalone store) answer now = standalone store
  loaded_runtime (distributed t) answer now = distributed (load_snapshot t answer now).0

  unfoldable pub step : Running → Event → Running
  unfolding serve post_trust_reload receive load_snapshot
  step s (request i) = (serve s i).0
  step s (reload file method now) =
      reloaded_store s s.admin
        (post_trust_reload x.hex_decode x.crypto x.trim_space (some s.trust) s.trust_keys_file file
          method now).0
  step s (received response now) = record s { runtime = received_runtime s.runtime response now }
  step s (snapshot_given answer now) = record s { runtime = loaded_runtime s.runtime answer now }

  unfoldable pub run : Running → List Event → Running
  unfolding step
  run s [] = s
  run s (e ∷ es) = run (step s e) es
