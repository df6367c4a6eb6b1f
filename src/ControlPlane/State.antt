-- ===== src/ControlPlane/State.antt =====
-- internal/controlplane/state.go: whether the local copy of the revocation state may be trusted.
-- The mutex makes each method one atomic step. Revisions are `uint64` values.
pub mod History
pub mod Freshness
use hacp_sidecar.Common.{
  ℕ, ◌*◌, Bool, true, false, not, Option, none, some, ltb, ◌==◌, if◌then◌else◌,
}
use hacp_sidecar.Common.Int.{ℤ, pos, leb_ℤ}
use hacp_sidecar.Common.Time.{Time, second, is_zero, before, sub_time}

pub record ControlState : Type 0 where
  pub last_seen_revision : ℕ
  pub last_update : Time
  pub connected : Bool
  pub unsafe : Bool
  pub max_staleness : ℤ

-- The error of `MarkHeartbeat`, with the two revisions that its text names.
pub data HeartbeatError : Type 0 where
  heartbeat_revision_mismatch : ℕ → ℕ → HeartbeatError

unfoldable pub new_control_state : ℤ → ControlState
new_control_state max_staleness = record {
  last_seen_revision = 0;
  last_update = 0;
  connected = false;
  unsafe = false;
  max_staleness = if leb_ℤ max_staleness (pos 0) then pos (5 * second) else max_staleness;
}

unfoldable pub mark_connected : ControlState → ControlState
mark_connected s = record s { connected = true }

unfoldable pub mark_disconnected : ControlState → ControlState
mark_disconnected s = record s { connected = false }

unfoldable pub mark_snapshot : ControlState → ℕ → Time → ControlState
mark_snapshot s revision now = record s {
  last_seen_revision = revision;
  last_update = now;
  unsafe = false;
}

unfoldable pub mark_event : ControlState → ℕ → Time → ControlState
mark_event s revision now = record s {
  last_seen_revision = revision;
  last_update = now;
  unsafe = false;
}

unfoldable pub mark_heartbeat : ControlState → ℕ → Time → ControlState × Option HeartbeatError
mark_heartbeat s current_revision now =
    if not (current_revision == s.last_seen_revision)
    then (
      record s { unsafe = true },
      some (heartbeat_revision_mismatch current_revision s.last_seen_revision),
    )
    else (record s { last_update = now; unsafe = false }, none)

unfoldable pub mark_unsafe : ControlState → ControlState
mark_unsafe s = record s { unsafe = true }

unfoldable pub is_fresh : ControlState → Time → Bool
is_fresh s now =
    if s.unsafe
    then false
    else if is_zero s.last_update
    then false
    else if before now s.last_update
    then true
    else leb_ℤ (sub_time now s.last_update) s.max_staleness
