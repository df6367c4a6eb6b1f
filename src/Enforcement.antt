-- ===== src/Enforcement.antt =====
-- cmd/sidecar/main.go: the pipeline reads the store that the subscriber writes, and asks its control
-- state.
use hacp_sidecar.Common.{
  ◌≡◌, sym, ◌∙◌, Bool, true, false, ◌||◌, Option, none, some, List, arith, not_true,
}
use hacp_sidecar.Revocation.Laws
use hacp_sidecar.Revocation.Laws.{Class, key, token, envelope}
use hacp_sidecar.Wire.{IntentEnvelope, DecisionToken}
use hacp_sidecar.ControlPlane.Adapter.{
  RevocationStoreAdapter, is_key_revoked, is_token_revoked, is_envelope_revoked, is_revoked,
}
use hacp_sidecar.ControlPlane.State.{is_fresh}
use hacp_sidecar.ControlPlane.Journal.{RevocationEntry}
use hacp_sidecar.ControlPlane.Subscriber.{Subscriber}
use hacp_sidecar.ControlPlane.Subscriber.Mirror.{Mirrors, revoked_in}
use hacp_sidecar.Evaluate.Interfaces.{RevocationStore, RequestContext, ProvenanceWriter}
use hacp_sidecar.Evaluate.Pipeline.Checks.{Pipeline, Clock}
use hacp_sidecar.Evaluate.Pipeline.{State, evaluate}
use hacp_sidecar.Evaluate.Pipeline.Authorization.{
  allows, evaluate-allows_token, evaluate-allows-Autonomous,
}

-- The adapter as the `evaluate.RevocationStore` of the pipeline.
unfoldable pub revocation_store : RevocationStoreAdapter → RevocationStore
revocation_store a = record {
  is_key_revoked = is_key_revoked a;
  is_envelope_revoked = is_envelope_revoked a;
  is_token_revoked = is_token_revoked a;
}

-- A pipeline connected to a subscriber's store and control state.
unfoldable pub connect : Pipeline → Subscriber → Pipeline
unfolding revocation_store
connect p s = record p {
  revocation = revocation_store s.store;
  control_state = some (is_fresh s.state);
}

-- One of the four subjects that a request with a token rests on is revoked.
unfoldable pub revokes : List RevocationEntry → IntentEnvelope → DecisionToken → Bool
revokes xs env tok =
    revoked_in xs envelope env.envelope_id
    || revoked_in xs key env.signer_key_id
    || revoked_in xs token tok.token_id
    || revoked_in xs key tok.signer_key_id

module _ {P : Type 0} (writer : ProvenanceWriter P) (p : Pipeline) where
  -- A sidecar whose subscriber mirrors the journal allows no action whose envelope, envelope signer,
  -- token or token signer the journal has revoked, whatever the request, the state and the clock are.
  pub evaluate-revokes :
      (s : Subscriber) (n : _) (xs : List RevocationEntry) (state : State P) (env : IntentEnvelope)
      (tok : DecisionToken) (req : RequestContext) (clock : Clock)
      → Mirrors s n xs
      → revokes xs env tok ≡ true
      → allows (evaluate writer (connect p s) state (some env) (some tok) (some req) clock) ≡ false
  unfolding revokes connect revocation_store is_key_revoked is_token_revoked is_envelope_revoked
      is_revoked Laws.is_revoked
  evaluate-revokes s n xs state env tok req clock m revoked = not_true _ (λ h.
      let (e, t, _, _) = (evaluate-allows_token writer (connect p s) state env tok req clock).0 h in
      let no_envelope = sym (m.1 envelope env.envelope_id) ∙ e.unrevoked in
      let no_signer = sym (m.1 key env.signer_key_id) ∙ e.signed.unrevoked in
      let no_token = sym (m.1 token tok.token_id) ∙ t.unrevoked in
      let no_token_signer = sym (m.1 key tok.signer_key_id) ∙ t.signed.unrevoked in
      ground (arith, no_envelope, no_signer, no_token, no_token_signer, revoked))

  -- While the subscriber's control state is marked unsafe the sidecar allows nothing, with a token or
  -- without.
  pub evaluate-unsafe :
      (s : Subscriber) (state : State P) (env : IntentEnvelope) (tok : Option DecisionToken)
      (req : RequestContext) (clock : Clock)
      → s.state.unsafe ≡ true
      → allows (evaluate writer (connect p s) state (some env) tok (some req) clock) ≡ false
  unfolding connect is_fresh
  evaluate-unsafe s state env (some tok) req clock unsafe = not_true _ (λ h.
      let a = (evaluate-allows_token writer (connect p s) state env tok req clock).0 h in
      let fresh = a.0.fresh in absurd (ground (arith, fresh)))
  evaluate-unsafe s state env none req clock unsafe = not_true _ (λ h.
      let a = (evaluate-allows-Autonomous writer (connect p s) state env req clock).0 h in
      let fresh = a.0.fresh in absurd (ground (arith, fresh)))
