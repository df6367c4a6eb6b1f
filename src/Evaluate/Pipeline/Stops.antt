-- ===== src/Evaluate/Pipeline/Stops.antt =====
-- internal/evaluate/pipeline.go: the decisions of the steps that return early.
use hacp_sidecar.Common.{String, ◌≢◌, Bool, true, false, Option, none, some, inl, inr, Option-cases}
use hacp_sidecar.Common.Int.{ℤ}
use hacp_sidecar.Wire.{IntentEnvelope, DecisionToken, Bytes}
use hacp_sidecar.Evaluate.Interfaces.{
  Outcome, Decision, Reason, EvalError, CheckpointState, CheckpointContext, RequestContext,
  deny_decision, checkpoint_decision, KeyResult, resolved, nil_key, key_error,
}
use hacp_sidecar.Evaluate.Pipeline.Checks.{
  Pipeline, Clock, Check, stop, go, ◌>>=◌, deny_if, pause_if, check_control_state,
  switch_checkpoint, check_unresolved, check_resolved, check_key, check_envelope_signature,
  check_checkpoint, check_envelope, check_token_signature, check_decision, compare_hash,
  check_action_hash, check_token,
}

-- A decision that does not allow: its outcome and its flag agree.
abbrev pub Refuses : Decision → Type 0
Refuses d = (d.outcome ≢ Outcome.allow) × (d.allow ≢ true)

unfoldable pub Stops {ℓ} : {A : Type ℓ} → Check A → Type 0
Stops (stop d) = Refuses d
Stops (go a) = Unit {0}

pub deny_decision-Refuses : (r : Reason) (e : EvalError) → Refuses (deny_decision r e)
unfolding deny_decision
deny_decision-Refuses r e = ((λ h. cc), (λ h. cc))

pub checkpoint_decision-Refuses : (r : Reason) (e : EvalError) → Refuses (checkpoint_decision r e)
unfolding checkpoint_decision
checkpoint_decision-Refuses r e = ((λ h. cc), (λ h. cc))

bind-Stops {ℓ κ} :
    {A : Type ℓ} {B : Type κ} (m : Check A) (f : A → Check B)
    → Stops m
    → ((a : A) → Stops (f a))
    → Stops (m >>= f)
unfolding Stops
bind-Stops (stop d) f h k = h
bind-Stops (go a) f h k = k a

deny-Stops {ℓ} :
    (A : Type ℓ) (r : Reason) (e : EvalError) → Stops {A = A} (stop (deny_decision r e))
unfolding Stops
deny-Stops A r e = deny_decision-Refuses r e

pause-Stops {ℓ} :
    (A : Type ℓ) (r : Reason) (e : EvalError) → Stops {A = A} (stop (checkpoint_decision r e))
unfolding Stops
pause-Stops A r e = checkpoint_decision-Refuses r e

go-Stops {ℓ} : {A : Type ℓ} (a : A) → Stops (go a)
unfolding Stops
go-Stops a = tt

deny_if-Stops : (b : Bool) (r : Reason) (e : EvalError) → Stops (deny_if b r e)
unfolding Stops deny_if
deny_if-Stops true r e = deny_decision-Refuses r e
deny_if-Stops false r e = tt

pause_if-Stops : (b : Bool) (r : Reason) (e : EvalError) → Stops (pause_if b r e)
unfolding Stops pause_if
pause_if-Stops true r e = checkpoint_decision-Refuses r e
pause_if-Stops false r e = tt

check_control_state-Stops :
    (p : Pipeline) (req : RequestContext) (clock : Clock) → Stops (check_control_state p req clock)
unfolding check_control_state
check_control_state-Stops p req clock = elim (Option-cases p.control_state) [
  | inl e ↦ rw (e, check_control_state) (go-Stops tt)
  | inr (f, e) ↦ rw (e, check_control_state) (deny_if-Stops _ _ _)
]

switch_checkpoint-Stops :
    (st : CheckpointState) (cp : CheckpointContext) (now : ℤ) → Stops (switch_checkpoint st cp now)
unfolding switch_checkpoint
switch_checkpoint-Stops CheckpointState.open_state cp now =
    bind-Stops _ _ (deny_if-Stops _ _ _) (λ _. pause-Stops _ _ _)
switch_checkpoint-Stops CheckpointState.resolved_deny cp now = deny-Stops _ _ _
switch_checkpoint-Stops CheckpointState.expired cp now = deny-Stops _ _ _
switch_checkpoint-Stops CheckpointState.resolved_allow cp now = deny_if-Stops _ _ _
switch_checkpoint-Stops CheckpointState.unknown cp now = go-Stops tt
switch_checkpoint-Stops (CheckpointState.other s) cp now = go-Stops tt

check_unresolved-Stops : (o : Option CheckpointContext) (now : ℤ) → Stops (check_unresolved o now)
unfolding check_unresolved
check_unresolved-Stops none now = go-Stops tt
check_unresolved-Stops (some cp) now = switch_checkpoint-Stops cp.state cp now

check_checkpoint-Stops :
    (p : Pipeline) (o : Option CheckpointContext) (now : ℤ) → Stops (check_checkpoint p o now)
unfolding check_checkpoint
check_checkpoint-Stops p none now = go-Stops tt
check_checkpoint-Stops p (some cp) now = bind-Stops _ _ (deny_if-Stops _ _ _) λ _.
    bind-Stops _ _ (deny_if-Stops _ _ _) λ _.
      bind-Stops _ _ (deny_if-Stops _ _ _)
        λ _. bind-Stops _ _ (pause_if-Stops _ _ _) λ _. deny_if-Stops _ _ _

check_resolved-Stops :
    (p : Pipeline) (k : KeyResult) (id : String) (a b : EvalError)
    → Stops (check_resolved p k id a b)
unfolding check_resolved
check_resolved-Stops p key_error id a b = deny-Stops _ _ _
check_resolved-Stops p nil_key id a b = deny-Stops _ _ _
check_resolved-Stops p (resolved key) id a b =
    bind-Stops _ _ (deny_if-Stops _ _ _) (λ _. go-Stops key)

check_key-Stops : (p : Pipeline) (id : String) (a b : EvalError) → Stops (check_key p id a b)
unfolding check_key
check_key-Stops p id a b = check_resolved-Stops p (p.resolve_key id) id a b

-- Steps 1 to 6 stop with a refusal only.
pub check_envelope-Stops :
    (p : Pipeline) (env : IntentEnvelope) (req : RequestContext) (clock : Clock)
    → Stops (check_envelope p env req clock)
unfolding check_envelope check_envelope_signature
check_envelope-Stops p env req clock = bind-Stops _ _ (check_control_state-Stops p req clock) λ _.
    bind-Stops _ _ (check_unresolved-Stops req.checkpoint _) λ _.
      bind-Stops _ _
        (bind-Stops _ _ (check_key-Stops p env.signer_key_id _ _)
          λ _. bind-Stops _ _ (deny_if-Stops _ _ _) λ _. deny_if-Stops _ _ _)
        λ _.
          bind-Stops _ _ (deny_if-Stops _ _ _)
            λ _. bind-Stops _ _ (check_checkpoint-Stops p req.checkpoint _) λ _. go-Stops _

compare_hash-Stops :
    (p : Pipeline) (tok : DecisionToken) (o : Option Bytes) → Stops (compare_hash p tok o)
unfolding compare_hash
compare_hash-Stops p tok none = deny-Stops _ _ _
compare_hash-Stops p tok (some c) = deny_if-Stops _ _ _

check_decision-Stops : (tok : DecisionToken) → Stops (check_decision tok)
unfolding check_decision
check_decision-Stops tok =
    bind-Stops _ _ (deny_if-Stops _ _ _)
      λ _. bind-Stops _ _ (pause_if-Stops _ _ _) λ _. deny_if-Stops _ _ _

-- Steps 8 to 16 stop with a refusal only.
pub check_token-Stops :
    (p : Pipeline) (env : IntentEnvelope) (tok : DecisionToken) (req : RequestContext) (now : ℤ)
    → Stops (check_token p env tok req now)
unfolding check_token check_token_signature check_action_hash
check_token-Stops p env tok req now =
    bind-Stops _ _
      (bind-Stops _ _ (check_key-Stops p tok.signer_key_id _ _)
        λ _. bind-Stops _ _ (deny_if-Stops _ _ _) λ _. deny_if-Stops _ _ _)
      λ _. bind-Stops _ _ (deny_if-Stops _ _ _) λ _. bind-Stops _ _ (deny_if-Stops _ _ _) λ _.
        bind-Stops _ _ (check_decision-Stops tok) λ _.
          bind-Stops _ _ (bind-Stops _ _ (deny_if-Stops _ _ _) λ _. compare_hash-Stops p tok _)
            λ _. bind-Stops _ _ (deny_if-Stops _ _ _) λ _. deny_if-Stops _ _ _
