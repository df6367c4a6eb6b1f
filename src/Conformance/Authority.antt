-- ===== src/Conformance/Authority.antt =====
-- cmd/hacp-conformance-runner/main.go: what an ALLOW of the runner rests on.
use hacp_sidecar.Common.{
  String, ◌≡◌, refl, ap, ◌∙◌, subst, Bool, true, false, Option, none, some, length, ◌==◌,
  if◌then◌else◌,
}
use hacp_sidecar.Common.Strings.{ne_of_eq-false}
use hacp_sidecar.Wire.{IntentEnvelope, DecisionToken}
use hacp_sidecar.Budget.{Ledger, consume_token}
use hacp_sidecar.Provenance.{noop_writer}
use hacp_sidecar.Evaluate.Interfaces.{Outcome, RequestContext, human_required}
use hacp_sidecar.Evaluate.Pipeline.Checks.{Pipeline, Clock, evaluation_time}
use hacp_sidecar.Evaluate.Pipeline.Authorized.{EnvelopeAuthorized, TokenAuthorized}
use hacp_sidecar.Evaluate.Pipeline.{State, Evaluated, returned, panic, max_uses, evaluate}
use hacp_sidecar.Evaluate.Pipeline.Authorization.{
  allows, Autonomous, evaluate-allows_token, evaluate-allows-Autonomous,
}
use hacp_sidecar.Evaluate.Pipeline.Outcomes.{DecisionAgrees, evaluate-Agrees}
use hacp_sidecar.Conformance.Protocol.{Request, InputData, Response, Step, reply, next, or_reply}
use hacp_sidecar.Conformance.Runner.{Runner, pipeline_of}
use hacp_sidecar.Conformance.Preflight.{preflight}
use hacp_sidecar.Conformance.Inputs.{Arguments, read_arguments}
use hacp_sidecar.Conformance.Handling.{
  World, Reading, outcome_text, decision_text, decision_response, read_input, evaluated,
  evaluate_read, handle_evaluate,
}
use hacp_sidecar.Conformance.Replies.{Denies, read_input-Denies}
use hacp_sidecar.Conformance.Reads.{
  Preflighted, preflight-Preflighted, ReadFrom, read_arguments-ReadFrom,
}
use hacp_sidecar.Conformance.Steps.{bind_next, next_injective, or_reply_next}

-- The pipeline grants the action, with a token or as an autonomous one.
abbrev pub Granted :
    Pipeline → Ledger → IntentEnvelope → Option DecisionToken → RequestContext → Clock → Type 0
Granted p ledger env (some tok) req clock =
    EnvelopeAuthorized p env req clock
    × TokenAuthorized p env tok req (evaluation_time req clock)
    × ((consume_token ledger tok.token_id (max_uses tok)).1 ≡ true)
Granted p ledger env none req clock =
    EnvelopeAuthorized p env req clock
    × (human_required req ≡ false)
    × (env.principal_kind ≡ "system")
    × Autonomous p ledger env req

evaluate-Granted :
    (p : Pipeline) (s : State (Unit {0})) (env : IntentEnvelope) (tok : Option DecisionToken)
    (req : RequestContext) (clock : Clock)
    → allows (evaluate noop_writer p s (some env) tok (some req) clock) ≡ true
    → Granted p s.ledger env tok req clock
evaluate-Granted p s env (some tok) req clock h =
    let (e, t, granted, _) = (evaluate-allows_token noop_writer p s env tok req clock).0 h in
    (e, t, granted)
evaluate-Granted p s env none req clock h =
    let (e, free, kind, budget, _) =
      (evaluate-allows-Autonomous noop_writer p s env req clock).0 h in
    (e, free, kind, budget)

pub decision_text-allow :
    (o : Outcome) (b : Bool) → decision_text (outcome_text o) b ≡ "ALLOW" → o ≡ Outcome.allow
unfolding decision_text
decision_text-allow Outcome.allow b h = refl
decision_text-allow Outcome.deny b h = absurd (ne_of_eq-false "DENY" "ALLOW" refl h)
decision_text-allow Outcome.checkpoint b h = absurd (ne_of_eq-false "CHECKPOINT" "ALLOW" refl h)

pub response_injective : (y z : Response) → some y ≡ some z → y ≡ z
response_injective y z h = cc h

abbrev pub Context : World → Runner → String → Reading → InputData → Arguments → Type 0
Context x r vector_id now input a =
    ReadFrom x.decoder x.codec vector_id now.timestamp input a
    × Preflighted x.decoder input
    × Granted (pipeline_of x.library x.crypto x.canonicalize_json r) r.budget_ledger a.envelope
        a.token a.context now.clock

read_input-Context :
    (x : World) (req : Request) (now : Reading) (input : InputData) (a : Arguments)
    → read_input x req now ≡ next (input, a)
    → (x.decoder.input_data req.input ≡ some input)
      × ReadFrom x.decoder x.codec req.vector_id now.timestamp input a
      × Preflighted x.decoder input
unfolding read_input
read_input-Context x req now input a h =
    let (i, decoded, h1) = bind_next (or_reply (x.decoder.input_data req.input) _) _ (input, a) h in
    let (_, _, h2) =
      bind_next (or_reply (if length i.intent_envelope == 0 then none else some tt) _) _ (input, a)
        h1 in
    let (_, checked, h3) = bind_next (preflight x.decoder i) _ (input, a) h2 in
    let (b, read, h4) =
      bind_next (read_arguments x.decoder x.codec req.vector_id now.timestamp i) _ (input, a) h3 in
    let this = next_injective (i, b) (input, a) h4 in
    let same_input : i ≡ input = ap (λ q. q.0) this in
    let same_arguments : b ≡ a = ap (λ q. q.1) this in
    (
      or_reply_next (x.decoder.input_data req.input) _ i decoded ∙ ap some same_input,
      subst (λ b. ReadFrom x.decoder x.codec req.vector_id now.timestamp input b) same_arguments
          (subst (λ i. ReadFrom x.decoder x.codec req.vector_id now.timestamp i b) same_input
            (read_arguments-ReadFrom x.decoder x.codec req.vector_id now.timestamp i b read)),
      subst (λ i. Preflighted x.decoder i) same_input (preflight-Preflighted x.decoder i checked),
    )

evaluated-allows :
    (x : World) (r : Runner) (input : InputData) (tok : Option DecisionToken) (now : Reading)
    (e : Evaluated (Unit {0})) (y : Response)
    → DecisionAgrees e
    → (evaluated x r input tok now e).response ≡ some y
    → y.decision ≡ "ALLOW"
    → allows e ≡ true
unfolding decision_response
evaluated-allows x r input tok now (panic s) y agrees h allow = cc h
evaluated-allows x r input tok now (returned d s) y agrees h allow = agrees.0 (
    decision_text-allow d.outcome d.allow (ap (λ z. z.decision) (response_injective _ y h) ∙ allow))

-- The runner answers ALLOW to an evaluation only if the input decodes to an envelope, and to a token or to
-- none, that the pipeline over the runner's stores grants, with a use left in the runner's ledger,
-- for the request context that the input describes: its proposed action, policy, clock, checkpoint,
-- method and target, and the vector's id; and only if the input's envelope is not that of a system
-- principal whose verb the policy of the input names as one that needs a human.
pub handle_evaluate-Granted :
    (x : World) (r : Runner) (req : Request) (now : Reading) (y : Response)
    → (handle_evaluate x r req now).response ≡ some y
    → y.decision ≡ "ALLOW"
    → (input : InputData) × (a : Arguments) × (x.decoder.input_data req.input ≡ some input)
      × Context x r req.vector_id now input a
unfolding handle_evaluate Denies
handle_evaluate-Granted x r req now y h allow = go (read_input x req now) refl h
  where
    go :
        (s : Step (InputData × Arguments))
        → read_input x req now ≡ s
        → (evaluate_read x r now s).response ≡ some y
        → (input : InputData) × (a : Arguments) × (x.decoder.input_data req.input ≡ some input)
          × Context x r req.vector_id now input a
    go (reply z) e k = absurd (
        subst (λ s. Denies s) e (read_input-Denies x req now)
          (ap (λ z. z.decision) (response_injective z y k) ∙ allow))
    go (next (input, a)) e k =
        let (decoded, read, checked) = read_input-Context x req now input a e in
        let p = pipeline_of x.library x.crypto x.canonicalize_json r in
        let s : State (Unit {0}) = record { ledger = r.budget_ledger; provenance = tt } in
        let yes_allows =
          evaluated-allows x r input a.token now
            (evaluate noop_writer p s (some a.envelope) a.token (some a.context) now.clock) y
            (evaluate-Agrees noop_writer p s a.envelope a.token a.context now.clock) k allow in
        (
          input,
          a,
          decoded,
          (read, checked, evaluate-Granted p s a.envelope a.token a.context now.clock yes_allows),
        )
