-- ===== src/Evaluate/Pipeline/Returns.antt =====
-- internal/evaluate/pipeline.go: `Evaluate` returns where the provenance writer does.
use hacp_sidecar.Common.{◌≢◌, Option, none, some, arith}
use hacp_sidecar.Common.Int.{ℤ}
use hacp_sidecar.Wire.{IntentEnvelope, DecisionToken, Budget}
use hacp_sidecar.Budget.{consume_token, consume_autonomy}
use hacp_sidecar.Evaluate.Interfaces.{RequestContext, ProvenanceWriter, panicked}
use hacp_sidecar.Evaluate.Pipeline.Checks.{Pipeline, Clock, Check, stop, go}
use hacp_sidecar.Evaluate.Pipeline.{
  State, Evaluated, returned, panic, and_then, max_uses, accept_provenance, spend_autonomy,
  spend_budget, evaluate_without_token, spend_token, evaluate_action, evaluate,
}

abbrev pub Returns : {P : Type 0} → Evaluated P → Type 0
Returns (returned d s) = Unit {0}
Returns (panic s) = ⊥

and_then-Returns {ℓ} :
    {A : Type ℓ} {P : Type 0} (c : Check A) (s : State P) (rest : A → Evaluated P)
    → ((a : A) → Returns (rest a))
    → Returns (and_then c s rest)
and_then-Returns (stop d) s rest h = tt
and_then-Returns (go a) s rest h = h a

module _ {P : Type 0} (writer : ProvenanceWriter P) (p : Pipeline)
    (calm : (log : P) (env : IntentEnvelope) (tok : Option DecisionToken) (req : RequestContext)
      → writer.accept log env tok req ≢ panicked) where
  accept_provenance-Returns :
      (s : State P) (env : IntentEnvelope) (tok : Option DecisionToken) (req : RequestContext)
      → Returns (accept_provenance writer p s env tok req)
  unfolding accept_provenance
  accept_provenance-Returns s env tok req = ground (arith, calm s.provenance env tok req)

  spend_token-Returns :
      (s : State P) (env : IntentEnvelope) (tok : DecisionToken) (req : RequestContext)
      → Returns (spend_token writer p s env tok req)
  unfolding spend_token
  spend_token-Returns s env tok req = ground (
    arith,
    accept_provenance-Returns
        (record s { ledger = (consume_token s.ledger tok.token_id (max_uses tok)).0 }) env
        (some tok) req,
  )

  spend_autonomy-Returns :
      (s : State P) (env : IntentEnvelope) (budget : Budget) (req : RequestContext)
      → Returns (spend_autonomy writer p s env budget req)
  unfolding spend_autonomy
  spend_autonomy-Returns s env budget req = ground (
    arith,
    accept_provenance-Returns
        (record s { ledger = (consume_autonomy s.ledger env.envelope_id budget.max_actions).0 }) env
        none req,
  )

  spend_budget-Returns :
      (s : State P) (env : IntentEnvelope) (o : Option Budget) (req : RequestContext)
      → Returns (spend_budget writer p s env o req)
  unfolding spend_budget
  spend_budget-Returns s env none req = tt
  spend_budget-Returns s env (some b) req = spend_autonomy-Returns s env b req

  evaluate_action-Returns :
      (s : State P) (env : IntentEnvelope) (tok : Option DecisionToken) (req : RequestContext)
      (now : ℤ)
      → Returns (evaluate_action writer p s env tok req now)
  unfolding evaluate_action evaluate_without_token
  evaluate_action-Returns s env none req now =
      ground (arith, spend_budget-Returns s env env.autonomy_budget req)
  evaluate_action-Returns s env (some tok) req now =
      and_then-Returns _ s _ (λ _. spend_token-Returns s env tok req)

  pub evaluate-Returns :
      (s : State P) (env : IntentEnvelope) (tok : Option DecisionToken) (req : RequestContext)
      (clock : Clock)
      → Returns (evaluate writer p s (some env) tok (some req) clock)
  unfolding evaluate
  evaluate-Returns s env tok req clock =
      and_then-Returns _ s _ (λ now. evaluate_action-Returns s env tok req now)
