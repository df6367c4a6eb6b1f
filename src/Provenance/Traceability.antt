-- ===== src/Provenance/Traceability.antt =====
-- internal/provenance/ring.go as the provenance writer of internal/evaluate/pipeline.go.
use hacp_sidecar.Common.{
  ◌≡◌, sym, false, Option, none, some, List, [], ◌∷◌, ◌++◌, append-nil, arith, leb, if◌then◌else◌,
  inl, inr, Bool-cases, not_true, ◌≤◌,
}
use hacp_sidecar.Common.Int.{ℤ}
use hacp_sidecar.Wire.{IntentEnvelope, DecisionToken}
use hacp_sidecar.Budget.{consume_token}
use hacp_sidecar.Evaluate.Interfaces.{RequestContext, unspecified, allow_decision, deny_decision}
use hacp_sidecar.Evaluate.Pipeline.Checks.{Pipeline, Clock, Check, stop, go}
use hacp_sidecar.Evaluate.Pipeline.{
  State, Evaluated, and_then, max_uses, accept_provenance, spend_token, evaluate_with_token,
  evaluate_action, evaluate,
}
use hacp_sidecar.Evaluate.Pipeline.Authorization.{
  allows, after, evaluate-allows-Autonomous, evaluate-allows_token,
}
use hacp_sidecar.Evaluate.Pipeline.Stops.{Stops, check_envelope-Stops, check_token-Stops}
use hacp_sidecar.Provenance.{Event, RingBuffer, event_of, recorded, put, accept, ring_writer}
use hacp_sidecar.Provenance.Window.{IsValid, pending, pushed-pending}

-- What an evaluation must leave in the log: one event if it allows the action, and none otherwise.
abbrev pub Traced : Event → State RingBuffer → Evaluated RingBuffer → Type 0
Traced e s r =
    pending (after r).provenance ≡ pending s.provenance ++ (if allows r then e ∷ [] else [])

untouched : (es : List Event) → es ≡ es ++ []
untouched es = sym (append-nil es)

and_then-Traced {ℓ} :
    {A : Type ℓ} (e : Event) (c : Check A) (s : State RingBuffer) (rest : A → Evaluated RingBuffer)
    → Stops c
    → ((a : A) → Traced e s (rest a))
    → Traced e s (and_then c s rest)
unfolding Stops
and_then-Traced e (stop d) s rest refuses h =
    rw (not_true d.allow refuses.1) (untouched (pending s.provenance))
and_then-Traced e (go a) s rest refuses h = h a

module _ (now : ℤ) (p : Pipeline) where
  accept_provenance-Traced :
      (s : State RingBuffer) (env : IntentEnvelope) (tok : DecisionToken) (req : RequestContext)
      → IsValid s.provenance
      → Traced
          (event_of now env tok req "ALLOW" unspecified)
          s
          (accept_provenance (ring_writer now) p s env (some tok) req)
  unfolding accept_provenance ring_writer accept put allow_decision deny_decision
  accept_provenance-Traced s env tok req v =
      elim (Bool-cases (leb s.provenance.capacity s.provenance.count)) [
        | inl full ↦ rw (full, accept_provenance) (untouched (pending s.provenance))
        | inr room ↦
            rw (room, accept_provenance)
              (pushed-pending s.provenance (event_of now env tok req "ALLOW" unspecified) v
                (ground arith))
      ]

  spend_token-Traced :
      (s : State RingBuffer) (env : IntentEnvelope) (tok : DecisionToken) (req : RequestContext)
      → IsValid s.provenance
      → Traced
          (event_of now env tok req "ALLOW" unspecified)
          s
          (spend_token (ring_writer now) p s env tok req)
  unfolding spend_token deny_decision
  spend_token-Traced s env tok req v =
      elim (Bool-cases (consume_token s.ledger tok.token_id (max_uses tok)).1) [
        | inl granted ↦
            rw (granted, spend_token)
              (accept_provenance-Traced
                (record s { ledger = (consume_token s.ledger tok.token_id (max_uses tok)).0 }) env
                tok req v)
        | inr spent ↦ rw (spent, spend_token) (untouched (pending s.provenance))
      ]

  -- With the ring buffer as its log, an evaluation with a token adds exactly one event to the buffer if
  -- it allows the action, after those that are there, with the ids of the envelope, the token and
  -- the request; and it adds none if it denies the action or asks for a checkpoint.
  pub evaluate-Traced :
      (s : State RingBuffer) (env : IntentEnvelope) (tok : DecisionToken) (req : RequestContext)
      (clock : Clock)
      → IsValid s.provenance
      → Traced
          (event_of now env tok req "ALLOW" unspecified)
          s
          (evaluate (ring_writer now) p s (some env) (some tok) (some req) clock)
  unfolding evaluate evaluate_action evaluate_with_token
  evaluate-Traced s env tok req clock v =
      let e = event_of now env tok req "ALLOW" unspecified in
      and_then-Traced e _ s _ (check_envelope-Stops p env req clock) (λ at.
        and_then-Traced e _ s _ (check_token-Stops p env tok req at)
          (λ _. spend_token-Traced s env tok req v))

  -- With the ring buffer as its log, no action without a token is ever allowed, whatever the envelope's
  -- autonomy budget is.
  pub evaluate-refuses_autonomy :
      (s : State RingBuffer) (env : IntentEnvelope) (req : RequestContext) (clock : Clock)
      → allows (evaluate (ring_writer now) p s (some env) none (some req) clock) ≡ false
  unfolding ring_writer accept
  evaluate-refuses_autonomy s env req clock = not_true _ (λ h.
      let (_, _, _, _, (log, recorded)) =
        (evaluate-allows-Autonomous (ring_writer now) p s env req clock).0 h in
      elim (Bool-cases (leb s.provenance.capacity s.provenance.count)) [
        | inl full ↦ cc (full, recorded)
        | inr room ↦ cc (room, recorded)
      ])

  -- While the ring buffer is full, no evaluation with a token is allowed: nothing is overwritten, and no
  -- action goes unrecorded.
  pub evaluate-full :
      (s : State RingBuffer) (env : IntentEnvelope) (tok : Option DecisionToken)
      (req : RequestContext) (clock : Clock)
      → s.provenance.capacity ≤ s.provenance.count
      → allows (evaluate (ring_writer now) p s (some env) tok (some req) clock) ≡ false
  unfolding ring_writer accept put
  evaluate-full s env none req clock full = evaluate-refuses_autonomy s env req clock
  evaluate-full s env (some tok) req clock full = not_true _ (λ h.
      let (_, _, _, (log, recorded)) =
        (evaluate-allows_token (ring_writer now) p s env tok req clock).0 h in
      elim (Bool-cases (leb s.provenance.capacity s.provenance.count)) [
        | inl over ↦ cc (over, recorded)
        | inr room ↦ absurd (ground arith)
      ])
