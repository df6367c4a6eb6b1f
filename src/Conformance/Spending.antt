-- ===== src/Conformance/Spending.antt =====
-- cmd/hacp-conformance-runner/main.go: what one request spends of a token.
use hacp_sidecar.Common.{
  ℕ, ◌+◌, ◌≤◌, String, ◌≡◌, refl, subst, Bool, true, false, not, ◌||◌, Option, none, some, List,
  arith, str_eq, eq_iff, if◌then◌else◌, Bool-cases, inl, inr,
}
use hacp_sidecar.Common.Int.{pos}
use hacp_sidecar.Common.Time.{Time}
use hacp_sidecar.Wire.Canonical.{Json}
use hacp_sidecar.Revocation.{InMemoryRevocationStore, revoke_token, revoke_envelope, revoke_key}
use hacp_sidecar.Wire.{DecisionToken}
use hacp_sidecar.Budget.{token_count}
use hacp_sidecar.Budget.Accounting.{tally}
use hacp_sidecar.Provenance.{noop_writer}
use hacp_sidecar.Evaluate.Interfaces.{Decision}
use hacp_sidecar.Evaluate.Pipeline.{State, Evaluated, returned, panic}
use hacp_sidecar.Evaluate.Pipeline.Outcomes.{DecisionAgrees, evaluate-Agrees}
use hacp_sidecar.Evaluate.Pipeline.Replay.{TokenLimit, Counts, evaluate-Counts}
use hacp_sidecar.Conformance.Protocol.{
  Message, missing_target, unknown_target_kind, input_parse, unsupported_protocol_version,
  unknown_operation, InputData, Response, Step, reply, next, error_response, protocol_version,
}
use hacp_sidecar.Conformance.Runner.{Runner, pipeline_of}
use hacp_sidecar.Conformance.Inputs.{Arguments}
use hacp_sidecar.Conformance.Handling.{
  revoked, member_string, World, Reading, Handled, handled, decision_text, outcome_text,
  decision_response, evaluated, evaluate_read, read_input, handle_evaluate, handle_revoke,
  revoke_input, revoke_target, handle_explain, handle_prepared,
}
use hacp_sidecar.Conformance.Authority.{decision_text-allow}
use hacp_sidecar.Conformance.Isolation.{Exchange}

-- The token that an evaluation presents to the pipeline.
abbrev token_read : Step (InputData × Arguments) → Option DecisionToken
token_read (reply y) = none
token_read (next (input, a)) = a.token

unfoldable pub presented : World → Exchange → Option DecisionToken
presented x e =
    if str_eq e.request.operation "evaluate"
    then token_read (read_input x e.request e.now)
    else none

abbrev pub is_allow : Option Response → ℕ
is_allow none = 0
is_allow (some y) = if str_eq y.decision "ALLOW" then 1 else 0

-- 1 for an ALLOW to a request that presents the token `k`.
abbrev pub used : String → Option DecisionToken → Option Response → ℕ
used k none y = 0
used k (some tok) y = if str_eq tok.token_id k then is_allow y else 0

-- What a request may do to the count of the token `k`.
pub record Spent (k : String) (m : ℕ) (tok : Option DecisionToken) (r : Runner) (h : Handled)
    : Type 0 where
  pub counted :
      used k tok h.response + token_count r.budget_ledger k ≤ token_count h.runner.budget_ledger k
  pub within : token_count r.budget_ledger k ≤ m → token_count h.runner.budget_ledger k ≤ m
  pub current : r.current_vector_id ≡ h.runner.current_vector_id

unspent : (k : String) (m : ℕ) (r : Runner) (y : Response) → Spent k m none r (handled r y)
unspent k m r y = record { counted = omega arith; within = λ h. h; current = refl }

is_allow-le :
    (x : World) (input : InputData) (tok : Option DecisionToken) (now : Reading) (d : Decision)
    (s : State (Unit {0}))
    → DecisionAgrees (returned d s)
    → is_allow (some (decision_response x.decoder input tok now d)) ≤ tally d.allow
unfolding decision_response
is_allow-le x input tok now d s agrees =
    elim (Bool-cases (str_eq (decision_text (outcome_text d.outcome) d.allow) "ALLOW")) [
      | inr other ↦ rw (other) (omega arith)
      | inl allow ↦
          let flag =
            agrees.0 (decision_text-allow d.outcome d.allow ((eq_iff _ "ALLOW").0 allow)) in
          rw (allow, flag) (omega arith)
    ]

evaluated-Spent :
    (x : World) (k : String) (m : ℕ) (r : Runner) (input : InputData) (tok : Option DecisionToken)
    (now : Reading) (e : Evaluated (Unit {0}))
    → DecisionAgrees e
    → Counts k m tok r.budget_ledger e
    → Spent k m tok r (evaluated x r input tok now e)
evaluated-Spent x k m r input none now (panic s) agrees c = record {
  counted = c.counted;
  within = c.within;
  current = refl;
}
evaluated-Spent x k m r input (some tok) now (panic s) agrees c = record {
  counted = ground (arith, c.counted);
  within = c.within;
  current = refl;
}
evaluated-Spent x k m r input none now (returned d s) agrees c = record {
  counted = c.counted;
  within = c.within;
  current = refl;
}
evaluated-Spent x k m r input (some tok) now (returned d s) agrees c =
    let le = is_allow-le x input (some tok) now d s agrees in
    record { counted = ground (arith, c.counted, le); within = c.within; current = refl }

evaluate_read-Spent :
    (x : World) (k : String) (m : ℕ) (r : Runner) (now : Reading) (s : Step (InputData × Arguments))
    → TokenLimit k (pos m) (token_read s)
    → Spent k m (token_read s) r (evaluate_read x r now s)
evaluate_read-Spent x k m r now (reply y) h = unspent k m r y
evaluate_read-Spent x k m r now (next (input, a)) h =
    let p = pipeline_of x.library x.crypto x.canonicalize_json r in
    let s : State (Unit {0}) = record { ledger = r.budget_ledger; provenance = tt } in
    evaluated-Spent x k m r input a.token now _
      (evaluate-Agrees noop_writer p s a.envelope a.token a.context now.clock)
      (evaluate-Counts noop_writer p k m s (some a.envelope) a.token (some a.context) now.clock h)

error-Spent :
    (k : String) (m : ℕ) (tok : Option DecisionToken) (r : Runner) (e : Message)
    → Spent k m tok r (handled r (error_response e))
unfolding error_response
error-Spent k m none r e = unspent k m r (error_response e)
error-Spent k m (some tok) r e = record {
  counted = ground (arith);
  within = λ h. h;
  current = refl;
}

if-Spent :
    (k : String) (m : ℕ) (tok : Option DecisionToken) (r : Runner) (b : Bool) (g h : Handled)
    → Spent k m tok r g
    → Spent k m tok r h
    → Spent k m tok r (if b then g else h)
if-Spent k m tok r true g h p q = p
if-Spent k m tok r false g h p q = q

-- A revocation spends nothing.
revoked-Spent :
    (k : String) (m : ℕ) (r : Runner) (s : InMemoryRevocationStore) → Spent k m none r (revoked r s)
revoked-Spent k m r s = record { counted = omega arith; within = λ h. h; current = refl }

revoke_target-Spent :
    (k : String) (m : ℕ) (r : Runner) (target_id target_kind : String) (now : Time)
    → Spent k m none r (revoke_target r target_id target_kind now)
unfolding revoke_target
revoke_target-Spent k m r id kind now =
    if-Spent k m none r (str_eq id "" || str_eq kind "") _ _ (error-Spent k m none r missing_target)
      (if-Spent k m none r (str_eq kind "token") _ _
        (revoked-Spent k m r (revoke_token r.revocation id now))
        (if-Spent k m none r (str_eq kind "envelope") _ _
          (revoked-Spent k m r (revoke_envelope r.revocation id now))
          (if-Spent k m none r (str_eq kind "key") _ _
            (revoked-Spent k m r (revoke_key r.revocation id now))
            (error-Spent k m none r (unknown_target_kind kind)))))

revoke_input-Spent :
    (k : String) (m : ℕ) (r : Runner) (now : Time) (o : Option (List (String × Json)))
    → Spent k m none r (revoke_input r now o)
revoke_input-Spent k m r now none = error-Spent k m none r input_parse
revoke_input-Spent k m r now (some input) =
    revoke_target-Spent k m r (member_string "target_id" input) (member_string "target_kind" input)
      now

-- What `handle_prepared` does with an operation, once the version is right.
abbrev operate : World → Runner → Exchange → Handled
operate x r e =
    if str_eq e.request.operation "evaluate"
    then handle_evaluate x r e.request e.now
    else if str_eq e.request.operation "revoke"
    then handle_revoke x r e.request e.now.timestamp
    else if str_eq e.request.operation "explain"
    then handled r handle_explain
    else handled r (error_response (unknown_operation e.request.operation))

operate-Spent :
    (x : World) (k : String) (m : ℕ) (r : Runner) (e : Exchange)
    → TokenLimit k (pos m) (presented x e)
    → Spent k m (presented x e) r (operate x r e)
unfolding presented handle_evaluate handle_revoke
operate-Spent x k m r e h = elim (Bool-cases (str_eq e.request.operation "evaluate")) [
  | inl asked ↦
      let limit =
        subst
          (λ b.
            TokenLimit k (pos m) (if b then token_read (read_input x e.request e.now) else none))
          asked h in
      rw (asked, presented) (evaluate_read-Spent x k m r e.now (read_input x e.request e.now) limit)
  | inr other ↦
      rw (other, presented)
        (if-Spent k m none r (str_eq e.request.operation "revoke") _ _
          (revoke_input-Spent k m r e.now.timestamp (x.decoder.members e.request.input))
          (if-Spent k m none r (str_eq e.request.operation "explain") _ _
            (unspent k m r handle_explain)
            (error-Spent k m none r (unknown_operation e.request.operation))))
]

pub handle_prepared-Spent :
    (x : World) (k : String) (m : ℕ) (r : Runner) (e : Exchange)
    → TokenLimit k (pos m) (presented x e)
    → Spent k m (presented x e) r (handle_prepared x r e.request e.now)
unfolding handle_prepared
handle_prepared-Spent x k m r e h =
    if-Spent k m (presented x e) r (not (str_eq e.request.protocol_version protocol_version)) _
      (operate x r e)
      (error-Spent k m (presented x e) r (unsupported_protocol_version e.request.protocol_version))
      (operate-Spent x k m r e h)
