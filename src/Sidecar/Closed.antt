-- ===== src/Sidecar/Closed.antt =====
-- cmd/sidecar: what the wired sidecar refuses, before the first snapshot of the distributed mode and after
-- the local revocations of the standalone mode.
use hacp_sidecar.Common.{
  ◌≡◌, sym, ◌∙◌, Bool, ◌||◌, true, false, Option, none, some, List, [], ◌∷◌, arith, not_true,
  if◌then◌else◌,
}
use hacp_sidecar.Common.Int.{ℤ, pos, ltb_ℤ, pos_part}
use hacp_sidecar.Common.Time.{Time, unix}
use hacp_sidecar.Revocation.{InMemoryRevocationStore}
use hacp_sidecar.Revocation.Laws
use hacp_sidecar.Revocation.Laws.{key, token, envelope}
use hacp_sidecar.Wire.{IntentEnvelope, DecisionToken}
use hacp_sidecar.ControlPlane.State.{is_fresh, mark_disconnected, mark_unsafe, new_control_state}
use hacp_sidecar.ControlPlane.Journal.{RevocationSnapshot}
use hacp_sidecar.ControlPlane.Subscriber.{
  Subscriber, Subjects, load_snapshot, materialize, split_entries, new_subscriber,
  set_control_state,
}
use hacp_sidecar.ControlPlane.Subscriber.Start.{
  Try, Started, loaded, start_cancelled, trying, after_load, load_initial_snapshot,
  started_subscriber,
}
use hacp_sidecar.Evaluate.Interfaces.{RequestContext, effective_clock, ProvenanceWriter}
use hacp_sidecar.Evaluate.Pipeline.Checks.{Pipeline, Clock}
use hacp_sidecar.Evaluate.Pipeline.Authorized.{ControlFresh}
use hacp_sidecar.Evaluate.Pipeline.{State, evaluate}
use hacp_sidecar.Evaluate.Pipeline.Authorization.{
  allows, evaluate-allows_token, evaluate-allows-Autonomous,
}
use hacp_sidecar.Sidecar.Config.{ControlRuntimeConfig}
use hacp_sidecar.Sidecar.Runtime.{
  ControlRuntime, standalone, distributed, built, new_control_runtime, ready, readiness_status,
  control_state_ready, wire, attach_control_state, control_state, revocations,
}
use hacp_sidecar.Sidecar.Revoking.{RevokeRequest, handle_all, asked, handle_all-asked}

-- One of the four subjects that a request with a token rests on is named in a request to revoke.
unfoldable pub asks_to_revoke : List RevokeRequest → IntentEnvelope → DecisionToken → Bool
asks_to_revoke rs env tok =
    asked rs envelope env.envelope_id
    || asked rs key env.signer_key_id
    || asked rs token tok.token_id
    || asked rs key tok.signer_key_id

-- No snapshot has been loaded yet.
abbrev pub Unloaded : Started → Type 0
Unloaded (loaded s) = ⊥
Unloaded (start_cancelled s) = Unit {0}
Unloaded (trying s backoff) = Unit {0}

abbrev Blank : Subscriber → Type 0
Blank s = s.state.last_update ≡ 0

materialize-Blank :
    (s : Subscriber) (snapshot : RevocationSnapshot) (r : Option Subjects) (now : Time)
    (backoff : ℤ) (t : Try)
    → Blank s
    → Unloaded (after_load (materialize s snapshot r now) backoff t)
    → Blank (started_subscriber (after_load (materialize s snapshot r now) backoff t))
unfolding materialize after_load mark_disconnected mark_unsafe
materialize-Blank s snapshot none now backoff t b u = ground (arith, b, u)
materialize-Blank s snapshot (some r) now backoff t b u = absurd u

load_snapshot-Blank :
    (s : Subscriber) (backoff : ℤ) (t : Try)
    → Blank s
    → Unloaded (after_load (load_snapshot s t.answer t.answer_time) backoff t)
    → Blank (started_subscriber (after_load (load_snapshot s t.answer t.answer_time) backoff t))
unfolding load_snapshot after_load mark_disconnected
load_snapshot-Blank s backoff t b u = go t.answer u
  where
    go :
        (answer : Option RevocationSnapshot)
        → Unloaded (after_load (load_snapshot s answer t.answer_time) backoff t)
        → Blank (started_subscriber (after_load (load_snapshot s answer t.answer_time) backoff t))
    go none u = ground (arith, b, u)
    go (some snapshot) u =
        materialize-Blank s snapshot (split_entries snapshot.entries) t.answer_time backoff t b u

load_initial_snapshot-Blank :
    (s : Subscriber) (backoff : ℤ) (ts : List Try)
    → Blank s
    → Unloaded (load_initial_snapshot s backoff ts)
    → Blank (started_subscriber (load_initial_snapshot s backoff ts))
unfolding load_initial_snapshot
load_initial_snapshot-Blank s backoff [] b u = b
load_initial_snapshot-Blank s backoff (t ∷ ts) b u =
    next (after_load (load_snapshot s t.answer t.answer_time) backoff t)
      (load_snapshot-Blank s backoff t b) (λ s' b'. load_initial_snapshot-Blank s' b' ts) u
  where
    next :
        (o : Started)
        → (Unloaded o → Blank (started_subscriber o))
        → ((s' : Subscriber) (b' : ℤ)
            → Blank s'
            → Unloaded (load_initial_snapshot s' b' ts)
            → Blank (started_subscriber (load_initial_snapshot s' b' ts)))
        → Unloaded (elim o [
          | loaded s' ↦ loaded s'
          | start_cancelled s' ↦ start_cancelled s'
          | trying s' backoff' ↦ load_initial_snapshot s' backoff' ts
        ])
        → Blank (
            started_subscriber (elim o [
              | loaded s' ↦ loaded s'
              | start_cancelled s' ↦ start_cancelled s'
              | trying s' backoff' ↦ load_initial_snapshot s' backoff' ts
            ]))
    next (loaded s') k rest u = absurd u
    next (start_cancelled s') k rest u = k tt
    next (trying s' backoff') k rest u = rest s' backoff' (k tt) u

Blank-stale : (s : Subscriber) (now : Time) → Blank s → is_fresh s.state now ≡ false
unfolding is_fresh
Blank-stale s now b = ground (arith, b)

new_control_runtime-Blank :
    (cfg : ControlRuntimeConfig) (client : Bool) (now : Time) (s : Subscriber)
    → new_control_runtime cfg client now ≡ built (distributed s)
    → Blank s
unfolding new_control_runtime new_subscriber set_control_state new_control_state
new_control_runtime-Blank cfg client now s h = ground (arith, h)

ControlFresh-stale :
    (fresh : Time → Bool) (control_now : ℤ) (clock : Clock)
    → ((t : Time) → fresh t ≡ false)
    → ¬ ControlFresh (some fresh) control_now clock
ControlFresh-stale fresh control_now clock stale h =
    let now : Time =
      if ltb_ℤ (pos 0) control_now then unix (pos_part control_now) else clock.control_now in
    let stale_now = stale now in ground (arith, h, stale_now)

module _ {P : Type 0} (writer : ProvenanceWriter P) (p : Pipeline) where
  wire-stale :
      (s : Subscriber) (state : State P) (env : IntentEnvelope) (tok : Option DecisionToken)
      (req : RequestContext) (clock : Clock)
      → ((t : Time) → is_fresh s.state t ≡ false)
      → allows (evaluate writer (wire p (distributed s)) state (some env) tok (some req) clock)
        ≡ false
  unfolding wire attach_control_state control_state
  wire-stale s state env (some tok) req clock stale = not_true _ (λ h.
      let a = (evaluate-allows_token writer (wire p (distributed s)) state env tok req clock).0 h in
      ControlFresh-stale (is_fresh s.state) (effective_clock req) clock stale a.0.fresh)
  wire-stale s state env none req clock stale = not_true _ (λ h.
      let a =
        (evaluate-allows-Autonomous writer (wire p (distributed s)) state env req clock).0 h in
      ControlFresh-stale (is_fresh s.state) (effective_clock req) clock stale a.0.fresh)

  -- Whatever the control plane and the context do while a new distributed sidecar tries to load its first
  -- snapshot, until one is loaded `/readyz` answers 503 at any time, and the pipeline allows no request
  -- that has an envelope, with a token or without.
  pub load_initial_snapshot-Closed :
      (cfg : ControlRuntimeConfig) (client : Bool) (made : Time) (s : Subscriber) (tries : List Try)
      (now : Time) (state : State P) (env : IntentEnvelope) (tok : Option DecisionToken)
      (req : RequestContext) (clock : Clock)
      → new_control_runtime cfg client made ≡ built (distributed s)
      → Unloaded (load_initial_snapshot s (pos 0) tries)
      → let runtime = distributed (started_subscriber (load_initial_snapshot s (pos 0) tries)) in
        (readiness_status (some (ready runtime now)) ≡ 503)
        × (allows (evaluate writer (wire p runtime) state (some env) tok (some req) clock) ≡ false)
  unfolding ready control_state_ready readiness_status
  load_initial_snapshot-Closed cfg client made s tries now state env tok req clock h u =
      let s' : Subscriber = started_subscriber (load_initial_snapshot s (pos 0) tries) in
      let blank =
        load_initial_snapshot-Blank s (pos 0) tries (new_control_runtime-Blank cfg client made s h)
          u in
      (
        ground (arith, Blank-stale s' now blank),
        wire-stale s' state env tok req clock (λ t. Blank-stale s' t blank),
      )

  -- After any requests to the local revocation endpoints, a standalone sidecar allows no action whose
  -- envelope, envelope signer, token or token signer one of them revoked, whatever the request, the
  -- state and the clock are.
  pub evaluate-asked :
      (store : InMemoryRevocationStore) (rs : List RevokeRequest) (state : State P)
      (env : IntentEnvelope) (tok : DecisionToken) (req : RequestContext) (clock : Clock)
      → asks_to_revoke rs env tok ≡ true
      → allows (
          evaluate writer
            (wire p (standalone (handle_all store rs)))
            state
            (some env)
            (some tok)
            (some req)
            clock)
        ≡ false
  unfolding wire attach_control_state control_state revocations asks_to_revoke Laws.is_revoked
  evaluate-asked store rs state env tok req clock asked = not_true _ (λ h.
      let runtime : ControlRuntime = standalone (handle_all store rs) in
      let (e, t, _, _) =
        (evaluate-allows_token writer (wire p runtime) state env tok req clock).0 h in
      let no_envelope = sym (handle_all-asked store rs envelope env.envelope_id) ∙ e.unrevoked in
      let no_signer = sym (handle_all-asked store rs key env.signer_key_id) ∙ e.signed.unrevoked in
      let no_token = sym (handle_all-asked store rs token tok.token_id) ∙ t.unrevoked in
      let no_token_signer =
        sym (handle_all-asked store rs key tok.signer_key_id) ∙ t.signed.unrevoked in
      ground (arith, no_envelope, no_signer, no_token, no_token_signer, asked))
