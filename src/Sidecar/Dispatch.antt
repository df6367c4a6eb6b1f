-- ===== src/Sidecar/Dispatch.antt =====
-- cmd/sidecar/main.go: the answers that the sidecar's server can give to a request.
use hacp_sidecar.Common.{String, Bool, true, false, Option, none, some, str_eq, if◌then◌else◌}
use hacp_sidecar.Revocation.{InMemoryRevocationStore}
use hacp_sidecar.Proxy.Handler.{serve_http}
use hacp_sidecar.Sidecar.Runtime.{ControlRuntime, local_revocations}
use hacp_sidecar.Sidecar.Endpoints.{Reply, revocation_kind, revocation_routes}
use hacp_sidecar.Sidecar.Main.{Running}
use hacp_sidecar.Sidecar.Routes.{
  Matched, pattern, redirected, unmatched, Site, Incoming, Outgoing, replied, moved, patterns,
  proxy_in, after_proxy, after_revocation, serve_other, serve_kind, serve_pattern, serve_matched,
  serve,
}

-- What holds of every reply that leaves the ledger, the log and the trust store, of every redirection and of the
-- proxy's answer holds of the answer to a request.
module _ {ℓ} (x : Site) (s : Running) (i : Incoming) (M : Running × Outgoing → Type ℓ)
    (reply : (runtime : ControlRuntime) (o : Reply) → M (record s { runtime = runtime }, replied o))
    (move : (location : String) → M (s, moved location))
    (proxy : M
      (after_proxy x s (serve_http (proxy_in x s) s.state i.moment i.request_id i.request))) where
  choose : (b : Bool) (q r : Running × Outgoing) → M q → M r → M (if b then q else r)
  choose true q r h k = h
  choose false q r h k = k

  serve_other_cases : (p : String) → M (serve_other x s i p)
  unfolding serve_other
  serve_other_cases p = choose (str_eq p "/healthz") _ _ (reply s.runtime _) (
      choose (str_eq p "/readyz") _ _ (reply s.runtime _)
        (choose (str_eq p "/") _ _ proxy (reply s.runtime _)))

  serve_kind_cases : (p : String) (kind : Option String) → M (serve_kind x s i p kind)
  unfolding serve_kind
  serve_kind_cases p none = serve_other_cases p
  serve_kind_cases p (some kind) =
      go (revocation_routes (local_revocations s.runtime) p i.request.method i.id i.now)
    where
      go : (r : Option InMemoryRevocationStore × Option Reply) → M (after_revocation x s r)
      go (store, none) = reply s.runtime _
      go (store, some o) = reply _ o

  serve_matched_cases : (p : Matched) → M (serve_matched x s i p)
  unfolding serve_pattern
  serve_matched_cases (pattern p) = serve_kind_cases p (revocation_kind p)
  serve_matched_cases (redirected location) = move location
  serve_matched_cases unmatched = reply s.runtime _

  pub serve_cases : M (serve x s i)
  unfolding serve
  serve_cases = serve_matched_cases (x.mux patterns i.request.method i.request.url_path)
