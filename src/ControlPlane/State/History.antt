-- ===== src/ControlPlane/State/History.antt =====
-- The freshness verdict as a function of the history alone, independent of the state that the code
-- keeps: which mark counts as evidence, when it was made, and what has undone it since.
use hacp_sidecar.Common.{ℕ, ◌<◌, Option, none, some, List, [], ◌∷◌, ◌==◌, if◌then◌else◌}
use hacp_sidecar.Common.Time.{Time}
use hacp_sidecar.ControlPlane.State.{
  ControlState, mark_connected, mark_disconnected, mark_snapshot, mark_event, mark_heartbeat,
  mark_unsafe,
}

pub data Mark : Type 0 where
  connect disconnect unsafe : Mark
  snapshot event heartbeat : ℕ → Time → Mark

unfoldable pub mark : ControlState → Mark → ControlState
unfolding mark_connected mark_disconnected mark_snapshot mark_event mark_heartbeat mark_unsafe
mark s connect = mark_connected s
mark s disconnect = mark_disconnected s
mark s unsafe = mark_unsafe s
mark s (snapshot r t) = mark_snapshot s r t
mark s (event r t) = mark_event s r t
mark s (heartbeat r t) = (mark_heartbeat s r t).0

-- The state after a history, whose newest mark comes first.
unfoldable pub replay : ControlState → List Mark → ControlState
unfolding mark
replay s [] = s
replay s (m ∷ h) = mark (replay s h) m

-- The revision that the history has materialized: that of the newest snapshot or event.
unfoldable pub materialized : List Mark → ℕ
materialized [] = 0
materialized (snapshot r t ∷ h) = r
materialized (event r t ∷ h) = r
materialized (connect ∷ h) = materialized h
materialized (disconnect ∷ h) = materialized h
materialized (unsafe ∷ h) = materialized h
materialized (heartbeat r t ∷ h) = materialized h

-- When the state was last known to be complete, if nothing has cast doubt on it since.
unfoldable pub trusted_since : List Mark → Option Time
unfolding materialized
trusted_since [] = none
trusted_since (snapshot r t ∷ h) = some t
trusted_since (event r t ∷ h) = some t
trusted_since (connect ∷ h) = trusted_since h
trusted_since (disconnect ∷ h) = trusted_since h
trusted_since (unsafe ∷ h) = none
trusted_since (heartbeat r t ∷ h) = if r == materialized h then some t else none

-- The clock of every mark is past the zero `Time`.
abbrev pub Clocked : List Mark → Type 0
Clocked [] = Unit {0}
Clocked (snapshot r t ∷ h) = (0 < t) × Clocked h
Clocked (event r t ∷ h) = (0 < t) × Clocked h
Clocked (heartbeat r t ∷ h) = (0 < t) × Clocked h
Clocked (connect ∷ h) = Clocked h
Clocked (disconnect ∷ h) = Clocked h
Clocked (unsafe ∷ h) = Clocked h
