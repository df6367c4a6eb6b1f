-- ===== src/Conformance/Isolation.antt =====
-- cmd/hacp-conformance-runner/main.go: what one vector leaves to the next.
use hacp_sidecar.Common.{
  String, ◌≡◌, ◌≢◌, refl, sym, ◌∙◌, subst, false, Option, List, [], ◌∷◌, arith, str_eq, Bool-cases,
  inl, inr,
}
use hacp_sidecar.Common.Strings.{not_eq-false}
use hacp_sidecar.Wire.{DecisionToken}
use hacp_sidecar.Budget.{reset}
use hacp_sidecar.Evaluate.Pipeline.{Evaluated, returned, panic}
use hacp_sidecar.Conformance.Protocol.{Request, InputData, Response, Step, reply, next}
use hacp_sidecar.Conformance.Runner.{Runner, prepare_vector_state}
use hacp_sidecar.Conformance.Inputs.{Arguments}
use hacp_sidecar.Conformance.Handling.{
  World, Reading, read_input, evaluated, evaluate_read, handle_evaluate, handle_prepared,
  handle_request,
}

-- A request, with what the clocks read.
pub record Exchange : Type 0 where
  pub request : Request
  pub now : Reading

-- `HandleRequest` on one request after another.
unfoldable pub run : World → Runner → List Exchange → Runner × List (Option Response)
unfolding handle_request
run x r [] = (r, [])
run x r (e ∷ es) =
    let h = handle_request x r e.request e.now in
    let rest = run x h.runner es in (rest.0, h.response ∷ rest.1)

-- The second runner has spent of its budgets alone.
pub record Spends (r s : Runner) : Type 0 where
  pub revocation : r.revocation ≡ s.revocation
  pub key_resolver : r.key_resolver ≡ s.key_resolver
  pub current_vector_id : r.current_vector_id ≡ s.current_vector_id

evaluated-Spends :
    (x : World) (r : Runner) (input : InputData) (tok : Option DecisionToken) (now : Reading)
    (e : Evaluated (Unit {0}))
    → Spends r (evaluated x r input tok now e).runner
evaluated-Spends x r input tok now (panic s) = record {
  revocation = refl;
  key_resolver = refl;
  current_vector_id = refl;
}
evaluated-Spends x r input tok now (returned d s) = record {
  revocation = refl;
  key_resolver = refl;
  current_vector_id = refl;
}

evaluate_read-Spends :
    (x : World) (r : Runner) (now : Reading) (s : Step (InputData × Arguments))
    → Spends r (evaluate_read x r now s).runner
evaluate_read-Spends x r now (reply y) = record {
  revocation = refl;
  key_resolver = refl;
  current_vector_id = refl;
}
evaluate_read-Spends x r now (next (input, a)) = evaluated-Spends x r input a.token now _

pub handle_evaluate-Spends :
    (x : World) (r : Runner) (req : Request) (now : Reading)
    → Spends r (handle_evaluate x r req now).runner
unfolding handle_evaluate
handle_evaluate-Spends x r req now = evaluate_read-Spends x r now (read_input x req now)

handle_prepared-Spends :
    (x : World) (r : Runner) (req : Request) (now : Reading)
    → str_eq req.operation "revoke" ≡ false
    → Spends r (handle_prepared x r req now).runner
unfolding handle_prepared
handle_prepared-Spends x r req now other =
    let s = handle_evaluate-Spends x r req now in
    record {
      revocation = ground (arith, other, s.revocation);
      key_resolver = ground (arith, other, s.key_resolver);
      current_vector_id = ground (arith, other, s.current_vector_id);
    }

-- Requests of other vectors than `v`, none of which revokes.
abbrev pub Others : String → List Exchange → Type 0
Others v [] = Unit {0}
Others v (e ∷ es) =
    (e.request.vector_id ≢ v) × (str_eq e.request.operation "revoke" ≡ false) × Others v es

-- Two runners with the same keys and revocations, neither of which is in the vector `v`.
pub record Apart (v : String) (r s : Runner) : Type 0 where
  pub revocation : r.revocation ≡ s.revocation
  pub key_resolver : r.key_resolver ≡ s.key_resolver
  pub left_outside : r.current_vector_id ≢ v
  pub right_outside : s.current_vector_id ≢ v

pub prepare_vector_state-revocation :
    (r : Runner) (v : String) → (prepare_vector_state r v).revocation ≡ r.revocation
unfolding prepare_vector_state
prepare_vector_state-revocation r v = ground (arith)

prepare_vector_state-key_resolver :
    (r : Runner) (v : String) → (prepare_vector_state r v).key_resolver ≡ r.key_resolver
unfolding prepare_vector_state
prepare_vector_state-key_resolver r v = ground (arith)

prepare_vector_state-outside :
    (r : Runner) (v w : String)
    → r.current_vector_id ≢ v
    → w ≢ v
    → (prepare_vector_state r w).current_vector_id ≢ v
unfolding prepare_vector_state
prepare_vector_state-outside r v w h k = elim (Bool-cases (str_eq w "")) [
  | inl nameless ↦ rw (nameless, prepare_vector_state) h
  | inr named ↦ elim (Bool-cases (str_eq r.current_vector_id w)) [
    | inl current ↦ rw (named, current, prepare_vector_state) h
    | inr fresh ↦ rw (named, fresh, prepare_vector_state) k
  ]
]

run-Apart :
    (x : World) (v : String) (r s : Runner) (es : List Exchange)
    → Apart v r s
    → Others v es
    → Apart v r (run x s es).0
unfolding run handle_request
run-Apart x v r s [] a o = a
run-Apart x v r s (e ∷ es) a (differs, keeps, rest) =
    let prepared = prepare_vector_state s e.request.vector_id in
    let spent = handle_prepared-Spends x prepared e.request e.now keeps in
    run-Apart x v r (handle_prepared x prepared e.request e.now).runner es
      record {
        revocation =
            a.revocation
            ∙ sym (prepare_vector_state-revocation s e.request.vector_id)
            ∙ spent.revocation;
        key_resolver =
            a.key_resolver
            ∙ sym (prepare_vector_state-key_resolver s e.request.vector_id)
            ∙ spent.key_resolver;
        left_outside = a.left_outside;
        right_outside =
            subst (λ i. i ≢ v) spent.current_vector_id
              (prepare_vector_state-outside s v e.request.vector_id a.right_outside differs);
      }
      rest

-- A fresh vector starts from the same state in both.
prepare_vector_state-Apart :
    (v : String) (r s : Runner)
    → v ≢ ""
    → Apart v r s
    → prepare_vector_state r v ≡ prepare_vector_state s v
unfolding prepare_vector_state reset
prepare_vector_state-Apart v r s named a =
    rw
      (
        not_eq-false v "" named,
        not_eq-false r.current_vector_id v a.left_outside,
        not_eq-false s.current_vector_id v a.right_outside,
        prepare_vector_state,
      )
      (cc (a.revocation, a.key_resolver))

-- Budgets do not leak between vectors: a vector that has a name, and that is not the runner's current one,
-- gets after any requests of other vectors that revoke nothing the responses that it gets without
-- them, from its first request on and whatever follows.
pub run-isolated :
    (x : World) (r : Runner) (before : List Exchange) (e : Exchange) (es : List Exchange)
    → e.request.vector_id ≢ ""
    → r.current_vector_id ≢ e.request.vector_id
    → Others e.request.vector_id before
    → (run x (run x r before).0 (e ∷ es)).1 ≡ (run x r (e ∷ es)).1
unfolding run handle_request
run-isolated x r before e es named outside others =
    let v = e.request.vector_id in
    let a : Apart v r (run x r before).0 =
      run-Apart x v r r before
        (record {
          revocation = refl;
          key_resolver = refl;
          left_outside = outside;
          right_outside = outside;
        })
        others in
    rw (prepare_vector_state-Apart v r (run x r before).0 named a) refl
