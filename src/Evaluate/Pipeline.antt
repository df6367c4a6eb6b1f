-- ===== src/Evaluate/Pipeline.antt =====
-- internal/evaluate/pipeline.go: `Evaluate`, in the order of its steps. A step that returns early
-- stops with its decision; the steps that change state (the budgets, the provenance log) come last.
pub mod Checks
pub mod Authorized
pub mod Decides
pub mod DecidesToken
pub mod Stops
pub mod Authorization
pub mod Replay
pub mod Outcomes
pub mod Returns
use hacp_sidecar.Common.{
  ℕ, String, Bool, true, false, not, ◌&&◌, Option, none, some, List, [], str_eq, length, ◌==◌,
  if◌then◌else◌,
}
use hacp_sidecar.Common.Int.{ℤ, pos, leb_ℤ}
use hacp_sidecar.Common.Time.{Time}
use hacp_sidecar.Wire.{IntentEnvelope, DecisionToken, Budget, Constraints}
use hacp_sidecar.Budget.{Ledger, consume_token, consume_autonomy}
use hacp_sidecar.Evaluate.Interfaces.{
  Decision, allow_decision, deny_decision, checkpoint_decision, RequestContext, human_required,
  ProvenanceWriter, accepted, refused, panicked, invalid_envelope, invalid_action, nil_envelope,
  nil_request, budget_exhausted, traceability_fail, policy_denied, human_authorization_required,
  no_autonomy_budget, max_actions_zero, autonomous_action_exceeds_scope, token_required,
  autonomy_budget_exhausted, token_budget_exhausted, provenance_failed, reason_human_required,
}
use Checks.{Pipeline, Clock, Check, stop, go, check_envelope, check_token}

-- The state that an evaluation changes: the ledger and the provenance log.
pub record State (P : Type 0) : Type 0 where
  pub ledger : Ledger
  pub provenance : P

-- What a call of `Evaluate` does: it returns a decision, or panics in the provenance writer.
pub data Evaluated (P : Type 0) : Type 0 where
  returned : Decision → State P → Evaluated P
  panic : State P → Evaluated P

-- A step that stops returns its decision and leaves the state; otherwise the rest is run.
abbrev pub and_then {ℓ} :
    {A : Type ℓ} {P : Type 0} → Check A → State P → (A → Evaluated P) → Evaluated P
and_then (stop d) s rest = returned d s
and_then (go a) s rest = rest a

-- `maxUses` of step 17.
unfoldable pub max_uses : DecisionToken → ℤ
max_uses tok = elim tok.constraints [
  | none ↦ pos 1
  | some c ↦ elim c.max_uses [ none ↦ pos 1 | some n ↦ n ]
]

module _ {P : Type 0} (writer : ProvenanceWriter P) (p : Pipeline) where
  -- Step 18, and the end of the autonomous path.
  unfoldable pub accept_provenance :
      State P → IntentEnvelope → Option DecisionToken → RequestContext → Evaluated P
  accept_provenance s env tok req = elim (writer.accept s.provenance env tok req) [
    | accepted log ↦ returned allow_decision (record s { provenance = log })
    | refused log ↦
        returned (deny_decision traceability_fail provenance_failed) (record s { provenance = log })
    | panicked ↦ panic s
  ]

  -- Step 7 for a system principal with a budget.
  unfoldable pub spend_autonomy : State P → IntentEnvelope → Budget → RequestContext → Evaluated P
  spend_autonomy s env budget req =
      if leb_ℤ budget.max_actions (pos 0)
      then returned (deny_decision budget_exhausted max_actions_zero) s
      else let (boundary_ok, boundary_reason) = p.scope_guard.check_boundary env.scope req in
        if not boundary_ok
        then returned (deny_decision boundary_reason autonomous_action_exceeds_scope) s
        else let (ledger, granted) = consume_autonomy s.ledger env.envelope_id budget.max_actions in
          if not granted
          then returned (deny_decision budget_exhausted (autonomy_budget_exhausted env.envelope_id))
              (record s { ledger = ledger })
          else accept_provenance (record s { ledger = ledger }) env none req

  -- Step 7 for a system principal.
  unfoldable pub spend_budget :
      State P → IntentEnvelope → Option Budget → RequestContext → Evaluated P
  spend_budget s env none req =
      returned (checkpoint_decision reason_human_required no_autonomy_budget) s
  spend_budget s env (some budget) req = spend_autonomy s env budget req

  -- Step 7: no decision token.
  unfoldable pub evaluate_without_token : State P → IntentEnvelope → RequestContext → Evaluated P
  evaluate_without_token s env req =
      if human_required req
      then returned (checkpoint_decision reason_human_required human_authorization_required) s
      else if str_eq env.principal_kind "system"
      then spend_budget s env env.autonomy_budget req
      else returned (deny_decision policy_denied token_required) s

  -- Steps 17 and 18.
  unfoldable pub spend_token :
      State P → IntentEnvelope → DecisionToken → RequestContext → Evaluated P
  unfolding max_uses
  spend_token s env tok req =
      let (ledger, granted) = consume_token s.ledger tok.token_id (max_uses tok) in
      if not granted
      then returned
          (deny_decision budget_exhausted (token_budget_exhausted tok.token_id (max_uses tok)))
          (record s { ledger = ledger })
      else accept_provenance (record s { ledger = ledger }) env (some tok) req

  -- Steps 8 to 18.
  unfoldable pub evaluate_with_token :
      State P → IntentEnvelope → DecisionToken → RequestContext → ℤ → Evaluated P
  unfolding spend_token
  evaluate_with_token s env tok req now =
      and_then (check_token p env tok req now) s (λ _. spend_token s env tok req)

  -- The steps after the envelope's own.
  unfoldable pub evaluate_action :
      State P → IntentEnvelope → Option DecisionToken → RequestContext → ℤ → Evaluated P
  unfolding evaluate_without_token evaluate_with_token
  evaluate_action s env none req now = evaluate_without_token s env req
  evaluate_action s env (some tok) req now = evaluate_with_token s env tok req now

  unfoldable pub evaluate :
      State P
      → Option IntentEnvelope
      → Option DecisionToken
      → Option RequestContext
      → Clock
      → Evaluated P
  unfolding evaluate_action
  evaluate s none tok req clock = returned (deny_decision invalid_envelope nil_envelope) s
  evaluate s (some env) tok none clock = returned (deny_decision invalid_action nil_request) s
  evaluate s (some env) tok (some req) clock =
      and_then (check_envelope p env req clock) s (λ now. evaluate_action s env tok req now)
