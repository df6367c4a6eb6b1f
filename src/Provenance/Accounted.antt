-- ===== src/Provenance/Accounted.antt =====
-- internal/provenance/ring.go as the provenance writer of internal/evaluate/pipeline.go: the events of an
-- evaluation in the accounts of the buffer and the file.
use hacp_sidecar.Common.{
  ℕ, zero, suc, take, String, ◌≡◌, refl, sym, ap, ◌∙◌, subst, some, List, [], ◌∷◌, ◌++◌,
  append_assoc, append-nil, arith, leb, str_eq, if◌then◌else◌, inl, inr, Bool-cases, not_true,
}
use hacp_sidecar.Common.Int.{ℤ}
use hacp_sidecar.Wire.{IntentEnvelope, DecisionToken}
use hacp_sidecar.Budget.{consume_token}
use hacp_sidecar.Evaluate.Interfaces.{RequestContext, unspecified, allow_decision, deny_decision}
use hacp_sidecar.Evaluate.Pipeline.Checks.{Pipeline, Clock, Check, stop, go}
use hacp_sidecar.Evaluate.Pipeline.{
  State, Evaluated, and_then, max_uses, accept_provenance, spend_token, evaluate_with_token,
  evaluate_action, evaluate,
}
use hacp_sidecar.Evaluate.Pipeline.Authorization.{allows, after}
use hacp_sidecar.Evaluate.Pipeline.Stops.{Stops, check_envelope-Stops, check_token-Stops}
use hacp_sidecar.Provenance.{Event, RingBuffer, event_of, recorded, put, accept, ring_writer}
use hacp_sidecar.Provenance.Ledger.{Log, note, Balanced, put-Balanced}

-- The requests of the events that record an allowed action.
unfoldable pub allowed_ids : List Event → List String
allowed_ids [] = []
allowed_ids (e ∷ es) =
    let rest = allowed_ids es in if str_eq e.decision "ALLOW" then e.request_id ∷ rest else rest

pub allowed_ids-append :
    (es fs : List Event) → allowed_ids (es ++ fs) ≡ allowed_ids es ++ allowed_ids fs
unfolding allowed_ids
allowed_ids-append [] fs = refl
allowed_ids-append (e ∷ es) fs = ground (arith, allowed_ids-append es fs)

-- From one buffer to another exactly the events of those ids that were allowed, and others that were not, are
-- accepted.
abbrev pub Accounted : RingBuffer → RingBuffer → List String → Type 0
Accounted rb rb' ids =
    (kept file : List Event)
    → Balanced (record { ring = rb; kept = kept; file = file })
    → (es : List Event) × Balanced (record { ring = rb'; kept = kept ++ es; file = file })
      × (allowed_ids es ≡ ids)

pub Accounted-refl : (rb : RingBuffer) → Accounted rb rb []
unfolding allowed_ids
Accounted-refl rb kept file b = (
  [],
  subst (λ k. Balanced (record { ring = rb; kept = k; file = file })) (sym (append-nil kept)) b,
  refl,
)

pub Accounted-trans :
    (r s t : RingBuffer) (is js : List String)
    → Accounted r s is
    → Accounted s t js
    → Accounted r t (is ++ js)
Accounted-trans r s t is js first next kept file b =
    let (es, mid, these) = first kept file b in
    let (fs, end, those) = next (kept ++ es) file mid in
    (
      es ++ fs,
      subst (λ k. Balanced (record { ring = t; kept = k; file = file })) (append_assoc kept es fs)
          end,
      allowed_ids-append es fs ∙ ap (λ k. k ++ allowed_ids fs) these ∙ ap (λ k. is ++ k) those,
    )

pub pushed-Accounted :
    (rb rb' : RingBuffer) (e : Event)
    → put rb e ≡ some rb'
    → Accounted rb rb' (allowed_ids (e ∷ []))
pushed-Accounted rb rb' e h kept file b =
    let log : Log = record { ring = rb; kept = kept; file = file } in
    (
      e ∷ [],
      subst (λ o. Balanced (note log (recorded rb o) (e ∷ []))) h (put-Balanced log e b),
      refl,
    )

pub take_rest : {A : Type 0} (n : ℕ) (xs : List A) → (rest : List A) × (take n xs ++ rest ≡ xs)
take_rest zero xs = (xs, refl)
take_rest (suc n) [] = ([], refl)
take_rest (suc n) (x ∷ xs) = let (rest, e) = take_rest n xs in (rest, ap (λ t. x ∷ t) e)

pub rejoined :
    (file front rest whole held kept : List Event)
    → front ++ rest ≡ whole
    → kept ≡ (file ++ whole) ++ held
    → (file ++ front) ++ (rest ++ held) ≡ kept
rejoined file front rest whole held kept e b =
    append_assoc file front (rest ++ held)
    ∙ ap (λ es. file ++ es) (sym (append_assoc front rest held) ∙ ap (λ es. es ++ held) e)
    ∙ sym (append_assoc file whole held)
    ∙ sym b

abbrev pub Logged : String → State RingBuffer → Evaluated RingBuffer → Type 0
Logged id s r = Accounted s.provenance (after r).provenance (if allows r then id ∷ [] else [])

and_then-Logged {ℓ} :
    {A : Type ℓ} (id : String) (c : Check A) (s : State RingBuffer)
    (rest : A → Evaluated RingBuffer)
    → Stops c
    → ((a : A) → Logged id s (rest a))
    → Logged id s (and_then c s rest)
unfolding Stops
and_then-Logged id (stop d) s rest refuses h =
    rw (not_true d.allow refuses.1) (Accounted-refl s.provenance)
and_then-Logged id (go a) s rest refuses h = h a

module _ (now : ℤ) (p : Pipeline) where
  accept_provenance-Logged :
      (s : State RingBuffer) (env : IntentEnvelope) (tok : DecisionToken) (req : RequestContext)
      → Logged req.request_id s (accept_provenance (ring_writer now) p s env (some tok) req)
  unfolding accept_provenance ring_writer accept put allow_decision deny_decision allowed_ids
  accept_provenance-Logged s env tok req =
      elim (Bool-cases (leb s.provenance.capacity s.provenance.count)) [
        | inl full ↦ rw (full, accept_provenance) (Accounted-refl s.provenance)
        | inr room ↦
            rw (room, accept_provenance)
              (pushed-Accounted s.provenance _ (event_of now env tok req "ALLOW" unspecified)
                (ground (arith, room)))
      ]

  spend_token-Logged :
      (s : State RingBuffer) (env : IntentEnvelope) (tok : DecisionToken) (req : RequestContext)
      → Logged req.request_id s (spend_token (ring_writer now) p s env tok req)
  unfolding spend_token deny_decision
  spend_token-Logged s env tok req =
      elim (Bool-cases (consume_token s.ledger tok.token_id (max_uses tok)).1) [
        | inl granted ↦
            rw (granted, spend_token)
              (accept_provenance-Logged
                (record s { ledger = (consume_token s.ledger tok.token_id (max_uses tok)).0 }) env
                tok req)
        | inr spent ↦ rw (spent, spend_token) (Accounted-refl s.provenance)
      ]

  -- An evaluation with a token accepts the event of its request if it allows the action, and no other.
  pub evaluate-Logged :
      (s : State RingBuffer) (env : IntentEnvelope) (tok : DecisionToken) (req : RequestContext)
      (clock : Clock)
      → Logged req.request_id s
          (evaluate (ring_writer now) p s (some env) (some tok) (some req) clock)
  unfolding evaluate evaluate_action evaluate_with_token
  evaluate-Logged s env tok req clock =
      and_then-Logged req.request_id _ s _ (check_envelope-Stops p env req clock) (λ at.
        and_then-Logged req.request_id _ s _ (check_token-Stops p env tok req at)
          (λ _. spend_token-Logged s env tok req))
