-- ===== src/Evaluate/Pipeline/Outcomes.antt =====
-- internal/evaluate/pipeline.go: the outcome of a decision and its flag.
use hacp_sidecar.Common.{◌≡◌, ◌↔◌, refl, true, Option, none, some, arith}
use hacp_sidecar.Common.Int.{ℤ}
use hacp_sidecar.Wire.{IntentEnvelope, DecisionToken, Budget}
use hacp_sidecar.Budget.{consume_token, consume_autonomy}
use hacp_sidecar.Evaluate.Interfaces.{
  Outcome, Decision, Reason, EvalError, RequestContext, ProvenanceWriter, allow_decision,
  deny_decision, checkpoint_decision,
}
use hacp_sidecar.Evaluate.Pipeline.Checks.{Pipeline, Clock, Check, stop, go}
use hacp_sidecar.Evaluate.Pipeline.Stops.{
  Stops, Refuses, deny_decision-Refuses, checkpoint_decision-Refuses, check_envelope-Stops,
  check_token-Stops,
}
use hacp_sidecar.Evaluate.Pipeline.{
  State, Evaluated, returned, panic, and_then, accept_provenance, spend_autonomy, spend_budget,
  max_uses, evaluate_without_token, spend_token, evaluate_action, evaluate,
}

-- The outcome is ALLOW exactly where the flag is set.
abbrev pub Agrees : Decision → Type 0
Agrees d = (d.outcome ≡ Outcome.allow) ↔ (d.allow ≡ true)

abbrev pub DecisionAgrees : {P : Type 0} → Evaluated P → Type 0
DecisionAgrees (returned d s) = Agrees d
DecisionAgrees (panic s) = Unit {0}

Refuses-Agrees : (d : Decision) → Refuses d → Agrees d
Refuses-Agrees d h = ((λ e. absurd (h.0 e)), (λ e. absurd (h.1 e)))

deny_decision-Agrees : (r : Reason) (e : EvalError) → Agrees (deny_decision r e)
deny_decision-Agrees r e = Refuses-Agrees (deny_decision r e) (deny_decision-Refuses r e)

checkpoint_decision-Agrees : (r : Reason) (e : EvalError) → Agrees (checkpoint_decision r e)
checkpoint_decision-Agrees r e =
    Refuses-Agrees (checkpoint_decision r e) (checkpoint_decision-Refuses r e)

allow_decision-Agrees : Agrees allow_decision
unfolding allow_decision
allow_decision-Agrees = ((λ _. refl), (λ _. refl))

and_then-Agrees {ℓ} :
    {A : Type ℓ} {P : Type 0} (c : Check A) (s : State P) (rest : A → Evaluated P)
    → Stops c
    → ((a : A) → DecisionAgrees (rest a))
    → DecisionAgrees (and_then c s rest)
unfolding Stops
and_then-Agrees (stop d) s rest refuses h = Refuses-Agrees d refuses
and_then-Agrees (go a) s rest refuses h = h a

module _ {P : Type 0} (writer : ProvenanceWriter P) (p : Pipeline) where
  accept_provenance-Agrees :
      (s : State P) (env : IntentEnvelope) (tok : Option DecisionToken) (req : RequestContext)
      → DecisionAgrees (accept_provenance writer p s env tok req)
  unfolding accept_provenance allow_decision deny_decision
  accept_provenance-Agrees s env tok req = ground (arith)

  spend_token-Agrees :
      (s : State P) (env : IntentEnvelope) (tok : DecisionToken) (req : RequestContext)
      → DecisionAgrees (spend_token writer p s env tok req)
  unfolding spend_token deny_decision
  spend_token-Agrees s env tok req = ground (
    arith,
    accept_provenance-Agrees
        (record s { ledger = (consume_token s.ledger tok.token_id (max_uses tok)).0 }) env
        (some tok) req,
  )

  spend_autonomy-Agrees :
      (s : State P) (env : IntentEnvelope) (budget : Budget) (req : RequestContext)
      → DecisionAgrees (spend_autonomy writer p s env budget req)
  unfolding spend_autonomy deny_decision
  spend_autonomy-Agrees s env budget req = ground (
    arith,
    accept_provenance-Agrees
        (record s { ledger = (consume_autonomy s.ledger env.envelope_id budget.max_actions).0 }) env
        none req,
  )

  spend_budget-Agrees :
      (s : State P) (env : IntentEnvelope) (o : Option Budget) (req : RequestContext)
      → DecisionAgrees (spend_budget writer p s env o req)
  unfolding spend_budget
  spend_budget-Agrees s env none req = checkpoint_decision-Agrees _ _
  spend_budget-Agrees s env (some b) req = spend_autonomy-Agrees s env b req

  evaluate_without_token-Agrees :
      (s : State P) (env : IntentEnvelope) (req : RequestContext)
      → DecisionAgrees (evaluate_without_token writer p s env req)
  unfolding evaluate_without_token deny_decision checkpoint_decision
  evaluate_without_token-Agrees s env req =
      ground (arith, spend_budget-Agrees s env env.autonomy_budget req)

  evaluate_action-Agrees :
      (s : State P) (env : IntentEnvelope) (tok : Option DecisionToken) (req : RequestContext)
      (now : ℤ)
      → DecisionAgrees (evaluate_action writer p s env tok req now)
  unfolding evaluate_action
  evaluate_action-Agrees s env none req now = evaluate_without_token-Agrees s env req
  evaluate_action-Agrees s env (some tok) req now =
      and_then-Agrees _ s _ (check_token-Stops p env tok req now)
        (λ _. spend_token-Agrees s env tok req)

  -- Every evaluation that returns has an outcome that agrees with its flag.
  pub evaluate-Agrees :
      (s : State P) (env : IntentEnvelope) (tok : Option DecisionToken) (req : RequestContext)
      (clock : Clock)
      → DecisionAgrees (evaluate writer p s (some env) tok (some req) clock)
  unfolding evaluate
  evaluate-Agrees s env tok req clock =
      and_then-Agrees _ s _ (check_envelope-Stops p env req clock)
        (λ now. evaluate_action-Agrees s env tok req now)
