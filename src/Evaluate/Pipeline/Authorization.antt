-- ===== src/Evaluate/Pipeline/Authorization.antt =====
-- When `Evaluate` allows an action, and what it does to its state.
use hacp_sidecar.Common.{
  ◌≡◌, ◌↔◌, inl, inr, refl, Bool, true, false, Option, none, some, arith, str_eq, eq_iff,
  Bool-cases,
}
use hacp_sidecar.Common.Int.{pos, ◌<ℤ◌}
use hacp_sidecar.Wire.{IntentEnvelope, DecisionToken, Budget}
use hacp_sidecar.Budget.{Ledger, consume_token, consume_autonomy}
use hacp_sidecar.Evaluate.Interfaces.{
  RequestContext, human_required, ProvenanceWriter, accepted, allow_decision, deny_decision,
  checkpoint_decision,
}
use hacp_sidecar.Evaluate.Pipeline.Checks.{Pipeline, Clock, Check, stop, go, evaluation_time}
use hacp_sidecar.Evaluate.Pipeline.Authorized.{EnvelopeAuthorized, TokenAuthorized}
use hacp_sidecar.Evaluate.Pipeline.Decides.{check_envelope_iff}
use hacp_sidecar.Evaluate.Pipeline.DecidesToken.{check_token_iff}
use hacp_sidecar.Evaluate.Pipeline.Stops.{Stops, check_envelope-Stops, check_token-Stops}
use hacp_sidecar.Evaluate.Pipeline.{
  State, Evaluated, returned, panic, and_then, max_uses, accept_provenance, spend_autonomy,
  spend_budget, evaluate_without_token, spend_token, evaluate_action, evaluate,
}

-- The caller forwards the action exactly if this holds.
abbrev pub allows : {P : Type 0} → Evaluated P → Bool
allows (returned d s) = d.allow
allows (panic s) = false

-- The state that the evaluation leaves behind.
abbrev pub after : {P : Type 0} → Evaluated P → State P
after (returned d s) = s
after (panic s) = s

-- The provenance writer records the event.
abbrev pub Recorded :
    {P : Type 0}
    → ProvenanceWriter P
    → P
    → IntentEnvelope
    → Option DecisionToken
    → RequestContext
    → Type 0
Recorded {P} writer log env tok req = (log' : P) × (writer.accept log env tok req ≡ accepted log')

-- The budget of an autonomous action: its envelope's, positive and not used up.
abbrev pub Autonomous : Pipeline → Ledger → IntentEnvelope → RequestContext → Type 0
Autonomous p ledger env req =
    (budget : Budget) × (env.autonomy_budget ≡ some budget)
    × (pos 0 <ℤ budget.max_actions)
    × ((p.scope_guard.check_boundary env.scope req).0 ≡ true)
    × ((consume_autonomy ledger env.envelope_id budget.max_actions).1 ≡ true)

go_injective {ℓ} : {A : Type ℓ} (a b : A) → go a ≡ go b → a ≡ b
go_injective a b h = cc

some_injective : (a b : Budget) → some a ≡ some b → a ≡ b
some_injective a b h = cc

and_then_iff {ℓ} :
    {A : Type ℓ} {P : Type 0} (c : Check A) (s : State P) (rest : A → Evaluated P)
    → Stops c
    → (allows (and_then c s rest) ≡ true) ↔ ((a : A) × (c ≡ go a) × (allows (rest a) ≡ true))
unfolding Stops
and_then_iff (stop d) s rest refuses = ((λ h. absurd (refuses.1 h)), (λ h. cc h.1))
and_then_iff (go a) s rest refuses = ((λ h. (a, refl, h)), (λ (b, e, h). rw (go_injective a b e) h))

module _ {P : Type 0} (writer : ProvenanceWriter P) (p : Pipeline) where
  accept_provenance_iff :
      (s : State P) (env : IntentEnvelope) (tok : Option DecisionToken) (req : RequestContext)
      → (allows (accept_provenance writer p s env tok req) ≡ true)
        ↔ Recorded writer s.provenance env tok req
  unfolding accept_provenance allow_decision deny_decision
  accept_provenance_iff s env tok req = ground arith

  spend_token_iff :
      (s : State P) (env : IntentEnvelope) (tok : DecisionToken) (req : RequestContext)
      → (allows (spend_token writer p s env tok req) ≡ true) ↔ (
          ((consume_token s.ledger tok.token_id (max_uses tok)).1 ≡ true)
          × Recorded writer s.provenance env (some tok) req)
  unfolding spend_token deny_decision
  spend_token_iff s env tok req = ground (
    arith,
    accept_provenance_iff
        (record s { ledger = (consume_token s.ledger tok.token_id (max_uses tok)).0 }) env
        (some tok) req,
  )

  spend_autonomy_iff :
      (s : State P) (env : IntentEnvelope) (budget : Budget) (req : RequestContext)
      → (allows (spend_autonomy writer p s env budget req) ≡ true) ↔ (
          (pos 0 <ℤ budget.max_actions)
          × ((p.scope_guard.check_boundary env.scope req).0 ≡ true)
          × ((consume_autonomy s.ledger env.envelope_id budget.max_actions).1 ≡ true)
          × Recorded writer s.provenance env none req)
  unfolding spend_autonomy deny_decision
  spend_autonomy_iff s env budget req = ground (
    arith,
    accept_provenance_iff
        (record s { ledger = (consume_autonomy s.ledger env.envelope_id budget.max_actions).0 }) env
        none req,
  )

  autonomy_iff :
      (s : State P) (env : IntentEnvelope) (o : Option Budget) (req : RequestContext)
      → (allows (spend_budget writer p s env o req) ≡ true) ↔ (
          ((budget : Budget) × (o ≡ some budget)
            × (pos 0 <ℤ budget.max_actions)
            × ((p.scope_guard.check_boundary env.scope req).0 ≡ true)
            × ((consume_autonomy s.ledger env.envelope_id budget.max_actions).1 ≡ true))
          × Recorded writer s.provenance env none req)
  unfolding spend_budget checkpoint_decision
  autonomy_iff s env none req = ((λ h. cc), (λ h. cc h.0.1))
  autonomy_iff s env (some b) req = (
    (λ h.
        let (positive, inside, granted, recorded) = (spend_autonomy_iff s env b req).0 h in
        ((b, refl, positive, inside, granted), recorded)),
    (λ ((b', e, positive, inside, granted), recorded).
        let same = some_injective b b' e in
        (spend_autonomy_iff s env b req).1 (rw same positive, inside, rw same granted, recorded)),
  )

  without_token_iff :
      (s : State P) (env : IntentEnvelope) (req : RequestContext)
      → (allows (evaluate_without_token writer p s env req) ≡ true) ↔ (
          (human_required req ≡ false)
          × (env.principal_kind ≡ "system")
          × Autonomous p s.ledger env req
          × Recorded writer s.provenance env none req)
  unfolding evaluate_without_token deny_decision checkpoint_decision
  without_token_iff s env req = elim (Bool-cases (human_required req)) [
    | inl h ↦ rw (h, evaluate_without_token) ((λ e. cc), (λ e. cc e.0))
    | inr h ↦ elim (Bool-cases (str_eq env.principal_kind "system")) [
      | inl k ↦
          rw (h, k, evaluate_without_token)
            (
              (λ e.
                  let (budget, recorded) = (autonomy_iff s env env.autonomy_budget req).0 e in
                  (refl, (eq_iff _ _).0 k, budget, recorded)),
              (λ (_, _, budget, recorded).
                  (autonomy_iff s env env.autonomy_budget req).1 (budget, recorded)),
            )
      | inr k ↦
          rw (h, k, evaluate_without_token)
            ((λ e. cc), (λ e. cc (k, (eq_iff env.principal_kind "system").1 e.1)))
    ]
  ]

  -- With a token, `Evaluate` allows an action exactly if the envelope and the token authorize it at
  -- the time of evaluation, the token has a use left, and the provenance writer records the event.
  pub evaluate-allows_token :
      (s : State P) (env : IntentEnvelope) (tok : DecisionToken) (req : RequestContext)
      (clock : Clock)
      → (allows (evaluate writer p s (some env) (some tok) (some req) clock) ≡ true) ↔ (
          EnvelopeAuthorized p env req clock
          × TokenAuthorized p env tok req (evaluation_time req clock)
          × ((consume_token s.ledger tok.token_id (max_uses tok)).1 ≡ true)
          × Recorded writer s.provenance env (some tok) req)
  unfolding evaluate
  evaluate-allows_token s env tok req clock = (
    (λ h.
        let (now, e, rest) = (and_then_iff _ s _ (check_envelope-Stops p env req clock)).0 h in
        let (a, same) = (check_envelope_iff p env req clock now).0 e in
        let (u, t, spent) = (and_then_iff _ s _ (check_token-Stops p env tok req now)).0 rest in
        let (granted, recorded) = (spend_token_iff s env tok req).0 spent in
        (a, rw (← same) ((check_token_iff p env tok req now).0 t), granted, recorded)),
    (λ (a, t, granted, recorded).
        let now = evaluation_time req clock in
        (and_then_iff _ s _ (check_envelope-Stops p env req clock)).1 (
          now,
          (check_envelope_iff p env req clock now).1 (a, refl),
          (and_then_iff _ s _ (check_token-Stops p env tok req now)).1 (
            tt,
            (check_token_iff p env tok req now).1 t,
            (spend_token_iff s env tok req).1 (granted, recorded),
          ),
        )),
  )

  -- Without a token, `Evaluate` allows an action exactly if the envelope authorizes it, no human is
  -- required, the principal is a system, and its autonomy budget and scope cover the action, and
  -- the provenance writer records the event.
  pub evaluate-allows-Autonomous :
      (s : State P) (env : IntentEnvelope) (req : RequestContext) (clock : Clock)
      → (allows (evaluate writer p s (some env) none (some req) clock) ≡ true) ↔ (
          EnvelopeAuthorized p env req clock
          × (human_required req ≡ false)
          × (env.principal_kind ≡ "system")
          × Autonomous p s.ledger env req
          × Recorded writer s.provenance env none req)
  unfolding evaluate evaluate_action
  evaluate-allows-Autonomous s env req clock = (
    (λ h.
        let (now, e, rest) = (and_then_iff _ s _ (check_envelope-Stops p env req clock)).0 h in
        let (a, same) = (check_envelope_iff p env req clock now).0 e in
        let (free, kind, budget, recorded) = (without_token_iff s env req).0 rest in
        (a, free, kind, budget, recorded)),
    (λ (a, free, kind, budget, recorded).
        let now = evaluation_time req clock in
        (and_then_iff _ s _ (check_envelope-Stops p env req clock)).1 (
          now,
          (check_envelope_iff p env req clock now).1 (a, refl),
          (without_token_iff s env req).1 (free, kind, budget, recorded),
        )),
  )
