-- ===== src/Evaluate/Pipeline/Replay.antt =====
-- internal/evaluate/pipeline.go: sequences of evaluations over one ledger, and the uses of a token.
use hacp_sidecar.Common.{
  ℕ, ◌+◌, ◌≤◌, String, ◌≡◌, true, Option, none, some, List, [], ◌∷◌, arith, str_eq, if◌then◌else◌,
}
use hacp_sidecar.Common.Int.{ℤ, pos, ◌≤ℤ◌}
use hacp_sidecar.Wire.{IntentEnvelope, DecisionToken, Budget}
use hacp_sidecar.Budget.{Ledger, consume_token, consume_autonomy, token_count}
use hacp_sidecar.Budget.Accounting.{
  tally, token_count-step, token_count-step_autonomy, consume_token-within,
}
use hacp_sidecar.Evaluate.Interfaces.{RequestContext, ProvenanceWriter, deny_decision}
use hacp_sidecar.Evaluate.Pipeline.Checks.{Pipeline, Clock, Check, stop, go}
use hacp_sidecar.Evaluate.Pipeline.Stops.{Stops, check_envelope-Stops, check_token-Stops}
use hacp_sidecar.Evaluate.Pipeline.Authorization.{allows, after}
use hacp_sidecar.Evaluate.Pipeline.{
  State, Evaluated, and_then, max_uses, accept_provenance, spend_autonomy, spend_budget,
  evaluate_without_token, spend_token, evaluate_action, evaluate,
}

-- One call of `Evaluate`.
pub record Attempt : Type 0 where
  pub envelope : Option IntentEnvelope
  pub token : Option DecisionToken
  pub request : Option RequestContext
  pub clock : Clock

-- 1 for an allowed evaluation that presents the token `k`.
abbrev pub uses : {P : Type 0} → String → Option DecisionToken → Evaluated P → ℕ
uses k none r = 0
uses k (some tok) r = if str_eq tok.token_id k then tally (allows r) else 0

-- Every attempt that presents the token `k` carries a limit of at most `m`.
abbrev pub TokenLimit : String → ℤ → Option DecisionToken → Type 0
TokenLimit k m none = Unit {0}
TokenLimit k m (some tok) = (str_eq tok.token_id k ≡ true) → max_uses tok ≤ℤ m

abbrev pub TokenLimits : String → ℤ → List Attempt → Type 0
TokenLimits k m [] = Unit {0}
TokenLimits k m (a ∷ rest) = TokenLimit k m a.token × TokenLimits k m rest

-- What an evaluation may do to the count of the token `k`.
pub record Counts {P : Type 0} (k : String) (limit : ℕ) (tok : Option DecisionToken)
    (before : Ledger) (r : Evaluated P) : Type 0 where
  pub counted : uses k tok r + token_count before k ≤ token_count (after r).ledger k
  pub within : token_count before k ≤ limit → token_count (after r).ledger k ≤ limit

module _ {P : Type 0} (writer : ProvenanceWriter P) (p : Pipeline) where
  accept_provenance-ledger :
      (s : State P) (env : IntentEnvelope) (tok : Option DecisionToken) (req : RequestContext)
      → (after (accept_provenance writer p s env tok req)).ledger ≡ s.ledger
  unfolding accept_provenance
  accept_provenance-ledger s env tok req = ground arith

  spend_token-Counts :
      (k : String) (limit : ℕ) (s : State P) (env : IntentEnvelope) (tok : DecisionToken)
      (req : RequestContext)
      → TokenLimit k (pos limit) (some tok)
      → Counts k limit (some tok) s.ledger (spend_token writer p s env tok req)
  unfolding spend_token deny_decision
  spend_token-Counts k limit s env tok req h = ground (
    arith,
    accept_provenance-ledger
        (record s { ledger = (consume_token s.ledger tok.token_id (max_uses tok)).0 }) env
        (some tok) req,
    token_count-step s.ledger tok.token_id k (max_uses tok),
    consume_token-within s.ledger tok.token_id k (max_uses tok) limit h,
  )

  spend_autonomy-Counts :
      (k : String) (limit : ℕ) (s : State P) (env : IntentEnvelope) (budget : Budget)
      (req : RequestContext)
      → Counts k limit none s.ledger (spend_autonomy writer p s env budget req)
  unfolding spend_autonomy deny_decision
  spend_autonomy-Counts k limit s env budget req = ground (
    arith,
    accept_provenance-ledger
        (record s { ledger = (consume_autonomy s.ledger env.envelope_id budget.max_actions).0 }) env
        none req,
    token_count-step_autonomy s.ledger env.envelope_id k budget.max_actions,
  )

  spend_budget-Counts :
      (k : String) (limit : ℕ) (s : State P) (env : IntentEnvelope) (o : Option Budget)
      (req : RequestContext)
      → Counts k limit none s.ledger (spend_budget writer p s env o req)
  unfolding spend_budget
  spend_budget-Counts k limit s env none req = omega arith
  spend_budget-Counts k limit s env (some b) req = spend_autonomy-Counts k limit s env b req

  evaluate_without_token-Counts :
      (k : String) (limit : ℕ) (s : State P) (env : IntentEnvelope) (req : RequestContext)
      → Counts k limit none s.ledger (evaluate_without_token writer p s env req)
  unfolding evaluate_without_token
  evaluate_without_token-Counts k limit s env req =
      ground (arith, spend_budget-Counts k limit s env env.autonomy_budget req)

  -- A step that stops changes no count.
  and_then-Counts {ℓ} :
      {A : Type ℓ} (k : String) (limit : ℕ) (tok : Option DecisionToken) (s : State P) (c : Check A)
      (rest : A → Evaluated P)
      → Stops c
      → ((a : A) → Counts k limit tok s.ledger (rest a))
      → Counts k limit tok s.ledger (and_then c s rest)
  unfolding Stops
  and_then-Counts k limit none s (stop d) rest refuses h = omega arith
  and_then-Counts k limit (some tok) s (stop d) rest refuses h = ground (arith, refuses)
  and_then-Counts k limit tok s (go a) rest refuses h = h a

  evaluate_action-Counts :
      (k : String) (limit : ℕ) (s : State P) (env : IntentEnvelope) (tok : Option DecisionToken)
      (req : RequestContext) (now : ℤ)
      → TokenLimit k (pos limit) tok
      → Counts k limit tok s.ledger (evaluate_action writer p s env tok req now)
  unfolding evaluate_action
  evaluate_action-Counts k limit s env none req now h =
      evaluate_without_token-Counts k limit s env req
  evaluate_action-Counts k limit s env (some tok) req now h =
      and_then-Counts k limit (some tok) s _ _ (check_token-Stops p env tok req now)
        (λ _. spend_token-Counts k limit s env tok req h)

  pub evaluate-Counts :
      (k : String) (limit : ℕ) (s : State P) (env : Option IntentEnvelope)
      (tok : Option DecisionToken) (req : Option RequestContext) (clock : Clock)
      → TokenLimit k (pos limit) tok
      → Counts k limit tok s.ledger (evaluate writer p s env tok req clock)
  unfolding evaluate deny_decision
  evaluate-Counts k limit s none none req clock h = omega arith
  evaluate-Counts k limit s none (some tok) req clock h = ground arith
  evaluate-Counts k limit s (some env) none none clock h = omega arith
  evaluate-Counts k limit s (some env) (some tok) none clock h = ground arith
  evaluate-Counts k limit s (some env) tok (some req) clock h =
      and_then-Counts k limit tok s _ _ (check_envelope-Stops p env req clock)
        (λ now. evaluate_action-Counts k limit s env tok req now h)

  -- The attempts, one after another; a panic ends its request and the next goes on.
  unfoldable pub attempt : State P → Attempt → Evaluated P
  attempt s a = evaluate writer p s a.envelope a.token a.request a.clock

  -- How many of the attempts that present the token `k` are allowed.
  unfoldable pub allowed_uses : String → State P → List Attempt → ℕ
  allowed_uses k s [] = 0
  allowed_uses k s (a ∷ rest) =
      let later = allowed_uses k (after (attempt s a)) rest in uses k a.token (attempt s a) + later

  -- Replay protection of the whole pipeline: however envelopes, requests, clocks and other tokens
  -- vary, if every attempt that presents the token `k` carries a limit of at most `limit`, and no
  -- more than that was spent before, then at most `limit` less what was spent are allowed.
  pub allowed_uses-le :
      (k : String) (limit : ℕ) (s : State P) (attempts : List Attempt)
      → TokenLimits k (pos limit) attempts
      → token_count s.ledger k ≤ limit
      → allowed_uses k s attempts + token_count s.ledger k ≤ limit
  unfolding allowed_uses attempt
  allowed_uses-le k limit s [] h below = omega arith
  allowed_uses-le k limit s (a ∷ rest) h below =
      let r = evaluate writer p s a.envelope a.token a.request a.clock in
      let c = evaluate-Counts k limit s a.envelope a.token a.request a.clock h.0 in
      omega (arith, c.counted, allowed_uses-le k limit (after r) rest h.1 (c.within below))
