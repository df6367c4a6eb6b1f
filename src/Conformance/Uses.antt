-- ===== src/Conformance/Uses.antt =====
-- cmd/hacp-conformance-runner/main.go: the uses of a token within one vector.
use hacp_sidecar.Common.{
  ℕ, ◌+◌, ◌≤◌, String, ◌≡◌, refl, sym, ◌∙◌, List, [], ◌∷◌, arith, str_eq, eq_iff, Bool-cases, inl,
  inr,
}
use hacp_sidecar.Common.Int.{pos}
use hacp_sidecar.Budget.{token_count}
use hacp_sidecar.Evaluate.Pipeline.Replay.{TokenLimit}
use hacp_sidecar.Conformance.Runner.{Runner, prepare_vector_state}
use hacp_sidecar.Conformance.Handling.{World, handle_prepared, handle_request}
use hacp_sidecar.Conformance.Isolation.{Exchange}
use hacp_sidecar.Conformance.Spending.{presented, used, handle_prepared-Spent}

-- How often the token `k` is allowed.
unfoldable pub allowed_in : String → World → Runner → List Exchange → ℕ
allowed_in k x r [] = 0
allowed_in k x r (e ∷ es) =
    let h = handle_request x r e.request e.now in
    let later = allowed_in k x h.runner es in used k (presented x e) h.response + later

-- Every request is of the vector `v`, and a token `k` that it presents has a limit of at most `m`.
abbrev pub OfVector : World → String → String → ℕ → List Exchange → Type 0
OfVector x v k m [] = Unit {0}
OfVector x v k m (e ∷ es) =
    (e.request.vector_id ≡ v) × TokenLimit k (pos m) (presented x e) × OfVector x v k m es

same_vector : (r : Runner) (v : String) → r.current_vector_id ≡ v → prepare_vector_state r v ≡ r
unfolding prepare_vector_state
same_vector r v h = elim (Bool-cases (str_eq v "")) [
  | inl nameless ↦ rw (nameless, prepare_vector_state) refl
  | inr named ↦ rw (named, (eq_iff r.current_vector_id v).1 h, prepare_vector_state) refl
]

-- Within one vector the runner allows a token `k` at most as often as its limit `m`, less what the ledger
-- has spent of it, however the evaluations, revocations and other requests of the vector are mixed,
-- if every evaluation that presents `k` carries a limit of at most `m`.
pub allowed_in-le :
    (x : World) (k v : String) (m : ℕ) (r : Runner) (es : List Exchange)
    → r.current_vector_id ≡ v
    → OfVector x v k m es
    → token_count r.budget_ledger k ≤ m
    → allowed_in k x r es + token_count r.budget_ledger k ≤ m
unfolding allowed_in handle_request
allowed_in-le x k v m r [] current o below = omega arith
allowed_in-le x k v m r (e ∷ es) current (same, limit, rest) below =
    let prepared : prepare_vector_state r e.request.vector_id ≡ r =
      same_vector r e.request.vector_id (current ∙ sym same) in
    let spent = handle_prepared-Spent x k m r e limit in
    let h = handle_prepared x r e.request e.now in
    let later =
      allowed_in-le x k v m h.runner es (sym spent.current ∙ current) rest (spent.within below) in
    let counted = spent.counted in rw (prepared) (omega (arith, counted, later))
