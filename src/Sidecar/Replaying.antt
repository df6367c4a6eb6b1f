-- ===== src/Sidecar/Replaying.antt =====
-- cmd/sidecar/main.go: the uses of a token over everything that a sidecar serves.
use hacp_sidecar.Common.{
  ℕ, ◌+◌, ◌≤◌, String, ◌≡◌, refl, ap, ◌∙◌, Option, none, some, List, [], ◌∷◌, arith,
}
use hacp_sidecar.Common.Int.{pos}
use hacp_sidecar.Common.Time.{Time}
use hacp_sidecar.Budget.{token_count, new_ledger, count}
use hacp_sidecar.Evaluate.Pipeline.Replay.{TokenLimit}
use hacp_sidecar.Trust.Store.{AtomicTrustStore}
use hacp_sidecar.Proxy.Spending.{presented, granted_use, serve_http-Spends}
use hacp_sidecar.Common.Strings.{lookup}
use hacp_sidecar.Provenance.{wake}
use hacp_sidecar.Sidecar.Lifetime.{worked_state, Turn, handled, worked}
use hacp_sidecar.Sidecar.Main.{Settings, System, Running, running, start}
use hacp_sidecar.Sidecar.Fresh.{start-Fresh}
use hacp_sidecar.Sidecar.Dispatch.{serve_cases}
use hacp_sidecar.Sidecar.Routes.{
  Site, Incoming, Outgoing, proxied, proxy_in, reloaded_store, serve, Event, request, reload,
  received, snapshot_given, step,
}

module _ (x : Site) (k : String) where
  -- 1 for a request with the token `k` that goes to the proxy and is granted.
  abbrev pub use_of : Incoming → Outgoing → ℕ
  use_of i (proxied served) = granted_use k (presented x.codec x.http i.request) served
  use_of i _ = 0

  abbrev pub use_by : Running → Event x → ℕ
  use_by s (request i) = use_of i (serve x s i).1
  use_by s _ = 0

  -- How many of the requests that present the token `k` are granted in these turns.
  unfoldable pub granted_uses : Running → List (Turn x) → ℕ
  unfolding serve step wake
  granted_uses s [] = 0
  granted_uses s (handled e ∷ ts) = let later = granted_uses (step x s e) ts in use_by s e + later
  granted_uses s (worked w d ∷ ts) = granted_uses (worked_state s (wake s.state.provenance w d)) ts

  abbrev pub RequestLimit : ℕ → Event x → Type 0
  RequestLimit limit (request i) = TokenLimit k (pos limit) (presented x.codec x.http i.request)
  RequestLimit limit _ = Unit {0}

  -- Every request that presents the token `k` carries a limit of at most `limit`.
  abbrev pub RequestLimits : ℕ → List (Turn x) → Type 0
  RequestLimits limit [] = Unit {0}
  RequestLimits limit (handled e ∷ ts) = RequestLimit limit e × RequestLimits limit ts
  RequestLimits limit (worked w d ∷ ts) = RequestLimits limit ts

  -- What the answer to a request may do to the count of the token.
  record Uses (limit : ℕ) (s : Running) (i : Incoming) (r : Running × Outgoing) : Type 0 where
    counted : use_of i r.1 + token_count s.state.ledger k ≤ token_count r.0.state.ledger k
    within : token_count s.state.ledger k ≤ limit → token_count r.0.state.ledger k ≤ limit

  module _ (limit : ℕ) where
    serve-Uses :
        (s : Running) (i : Incoming)
        → TokenLimit k (pos limit) (presented x.codec x.http i.request)
        → Uses limit s i (serve x s i)
    unfolding proxy_in
    serve-Uses s i h =
        let c =
          serve_http-Spends (proxy_in x s) i.moment i.request_id i.request k limit s.state h in
        serve_cases x s i (Uses limit s i) (λ runtime o. omega arith) (λ location. omega arith)
          record { counted = c.counted; within = c.within }

    reloaded_store-count :
        (s : Running) (addr : Option String) (store : Option AtomicTrustStore)
        → let after = token_count (reloaded_store x s addr store).state.ledger k in
          (0 + token_count s.state.ledger k ≤ after)
          × (token_count s.state.ledger k ≤ limit → after ≤ limit)
    reloaded_store-count s (some addr) (some trust) = (omega arith, λ below. below)
    reloaded_store-count s (some addr) none = (omega arith, λ below. below)
    reloaded_store-count s none store = (omega arith, λ below. below)

    step-Uses :
        (s : Running) (e : Event x)
        → RequestLimit limit e
        → (use_by s e + token_count s.state.ledger k ≤ token_count (step x s e).state.ledger k)
          × (token_count s.state.ledger k ≤ limit → token_count (step x s e).state.ledger k ≤ limit)
    unfolding step
    step-Uses s (request i) h = let c = serve-Uses s i h in (c.counted, c.within)
    step-Uses s (reload file method now) h = reloaded_store-count s s.admin _
    step-Uses s (received response now) h = (omega arith, λ below. below)
    step-Uses s (snapshot_given answer now) h = (omega arith, λ below. below)

    granted_uses-within :
        (s : Running) (ts : List (Turn x))
        → RequestLimits limit ts
        → token_count s.state.ledger k ≤ limit
        → granted_uses s ts + token_count s.state.ledger k ≤ limit
    unfolding granted_uses
    granted_uses-within s [] h below = omega arith
    granted_uses-within s (handled e ∷ ts) h below =
        let (counted, within) = step-Uses s e h.0 in
        omega (arith, counted, granted_uses-within (step x s e) ts h.1 (within below))
    granted_uses-within s (worked w d ∷ ts) h below =
        granted_uses-within (worked_state s (wake s.state.provenance w d)) ts h below

new_ledger-unused : (k : String) → token_count new_ledger k ≡ 0
unfolding token_count new_ledger count lookup
new_ledger-unused k = refl

module _ {Pool : Type 0} (sys : System Pool) (s : Settings) (loaded_at made_at : Time)
    (r : Running) where
  -- Replay protection of the whole sidecar, from its start: if every request that presents the token `k` in
  -- its headers carries a limit of at most `limit`, then the proxy sends to the upstream, or answers without a
  -- reason of denial, at most `limit` of them. The requests may be any otherwise, and so may the
  -- other requests, the revocations, the reloads of the trust store, the messages of the control
  -- plane and the turns of the provenance worker among them.
  pub granted_uses-le :
      (x : Site) (k : String) (limit : ℕ) (ts : List (Turn x))
      → start sys s loaded_at made_at ≡ running r
      → RequestLimits x k limit ts
      → granted_uses x k r ts ≤ limit
  granted_uses-le x k limit ts h limited =
      let unused =
        ap (λ q. token_count q.ledger k) (start-Fresh sys s loaded_at made_at r h)
        ∙ new_ledger-unused k in
      omega (arith, unused, granted_uses-within x k limit r ts limited (omega (arith, unused)))
