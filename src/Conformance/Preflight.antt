-- ===== src/Conformance/Preflight.antt =====
-- cmd/hacp-conformance-runner/main.go: what `handleEvaluate` looks at before it parses the envelope.
use hacp_sidecar.Common.{Bool, ◌&&◌, [], length, ◌==◌, str_eq, if◌then◌else◌}
use hacp_sidecar.Common.Int.{ℤ, pos, ltb_ℤ, add_int64}
use hacp_sidecar.Common.Strings.{contains}
use hacp_sidecar.Wire.{Bytes}
use hacp_sidecar.Wire.Parsing.{is_zero_ℤ}
use hacp_sidecar.Evaluate.Interfaces.{
  invalid_envelope, invalid_action, policy_denied, checkpoint_timeout, reason_human_required,
}
use hacp_sidecar.Conformance.Protocol.{
  InputData, EnvelopePreflight, ActionPreflight, PolicyPreflight, Decoder, verdict, Step, reply,
  next, ◌>>=◌, or_reply,
}

-- A system principal asks for a verb that needs a human.
unfoldable pub needs_human : EnvelopePreflight → ActionPreflight → PolicyPreflight → Bool
unfolding contains
needs_human env action policy =
    str_eq env.principal_kind "system" && contains action.verb policy.human_required_verbs

unfoldable pub wait_started_at : EnvelopePreflight → ActionPreflight → ℤ
wait_started_at env action =
    if is_zero_ℤ action.proposed_at then env.issued_at else action.proposed_at

-- The action has waited longer than the timeout; the sum is that of `int64`.
unfoldable pub timed_out : EnvelopePreflight → ActionPreflight → PolicyPreflight → Bool
unfolding wait_started_at add_int64
timed_out env action policy =
    ltb_ℤ (pos 0) policy.current_time
    && ltb_ℤ (pos 0) policy.checkpoint_timeout_seconds
    && ltb_ℤ (pos 0) (wait_started_at env action)
    && ltb_ℤ (add_int64 (wait_started_at env action) policy.checkpoint_timeout_seconds)
        policy.current_time

unfoldable pub check_human : EnvelopePreflight → ActionPreflight → PolicyPreflight → Step (Unit {0})
unfolding needs_human timed_out
check_human env action policy =
    if needs_human env action policy
    then (if timed_out env action policy
        then reply (verdict "DENY" checkpoint_timeout)
        else reply (verdict "CHECKPOINT" reason_human_required))
    else next tt

abbrev pub no_policy : PolicyPreflight
no_policy = record {
  human_required_verbs = [];
  current_time = pos 0;
  checkpoint_timeout_seconds = pos 0;
}

unfoldable pub policy_preflight : Decoder → Bytes → Step PolicyPreflight
policy_preflight d raw =
    if length raw == 0
    then next no_policy
    else or_reply (d.policy_preflight raw) (verdict "DENY" policy_denied)

unfoldable pub preflight : Decoder → InputData → Step (Unit {0})
unfolding policy_preflight check_human
preflight d input = do
  env ← or_reply (d.envelope_preflight input.intent_envelope) (verdict "DENY" invalid_envelope)
  action ← or_reply (d.action_preflight input.proposed_action) (verdict "DENY" invalid_action)
  policy ← policy_preflight d input.policy_context
  check_human env action policy
