-- ===== src/ControlPlane/State/Freshness.antt =====
-- internal/controlplane/state.go: `IsFresh` and the verdict of the history.
use hacp_sidecar.Common.{
  ℕ, ◌+◌, ◌<◌, ◌≡◌, refl, ◌⊎◌, inl, Bool, true, false, Option, none, some, List, [], ◌∷◌, arith,
  leb,
}
use hacp_sidecar.Common.Int.{pos}
use hacp_sidecar.Common.Time.{Time, max_duration}
use hacp_sidecar.ControlPlane.State.{ControlState, new_control_state, is_fresh}
use hacp_sidecar.ControlPlane.State.History.{
  Mark, connect, disconnect, unsafe, snapshot, event, heartbeat, mark, replay, materialized,
  trusted_since, Clocked,
}

-- Evidence of the time `t` is good for the duration `d`; a clock that moved back keeps it good.
abbrev pub within : Option Time → ℕ → Time → Bool
within none d now = false
within (some t) d now = leb now (t + d)

-- The flag and the time of a state say the same as the history's evidence.
abbrev Evidence : ControlState → Option Time → Type 0
Evidence s none = (s.unsafe ≡ true) ⊎ (s.last_update ≡ 0)
Evidence s (some t) = (s.unsafe ≡ false) × (s.last_update ≡ t) × (0 < t)

record Agrees (d : ℕ) (h : List Mark) (s : ControlState) : Type 0 where
  revision : s.last_seen_revision ≡ materialized h
  staleness : s.max_staleness ≡ pos d
  evidence : Evidence s (trusted_since h)

new_control_state-Agrees : (d : ℕ) → 0 < d → Agrees d [] (new_control_state (pos d))
unfolding new_control_state materialized trusted_since
new_control_state-Agrees d h = ground arith

mark-Agrees :
    (d : ℕ) (s : ControlState) (m : Mark) (h : List Mark)
    → Clocked (m ∷ h)
    → Agrees d h s
    → Agrees d (m ∷ h) (mark s m)
unfolding mark materialized trusted_since
mark-Agrees d s connect h c a = record {
  revision = a.revision;
  staleness = a.staleness;
  evidence = keeps (trusted_since h) a.evidence;
}
  where
    keeps : (o : Option Time) → Evidence s o → Evidence (mark s connect) o
    keeps none e = e
    keeps (some t) e = e
mark-Agrees d s disconnect h c a = record {
  revision = a.revision;
  staleness = a.staleness;
  evidence = keeps (trusted_since h) a.evidence;
}
  where
    keeps : (o : Option Time) → Evidence s o → Evidence (mark s disconnect) o
    keeps none e = e
    keeps (some t) e = e
mark-Agrees d s unsafe h c a = record {
  revision = a.revision;
  staleness = a.staleness;
  evidence = inl refl;
}
mark-Agrees d s (snapshot r t) h c a = record {
  revision = refl;
  staleness = a.staleness;
  evidence = (refl, refl, c.0);
}
mark-Agrees d s (event r t) h c a = record {
  revision = refl;
  staleness = a.staleness;
  evidence = (refl, refl, c.0);
}
mark-Agrees d s (heartbeat r t) h c a = ground arith

Clocked-tail : (m : Mark) (h : List Mark) → Clocked (m ∷ h) → Clocked h
Clocked-tail connect h c = c
Clocked-tail disconnect h c = c
Clocked-tail unsafe h c = c
Clocked-tail (snapshot r t) h c = c.1
Clocked-tail (event r t) h c = c.1
Clocked-tail (heartbeat r t) h c = c.1

replay-Agrees :
    (d : ℕ) (h : List Mark) → 0 < d → Clocked h → Agrees d h (replay (new_control_state (pos d)) h)
unfolding replay
replay-Agrees d [] pos_d c = new_control_state-Agrees d pos_d
replay-Agrees d (m ∷ h) pos_d c =
    mark-Agrees d _ m h c (replay-Agrees d h pos_d (Clocked-tail m h c))

is_fresh-Evidence :
    (d : ℕ) (s : ControlState) (o : Option Time) (now : Time)
    → d < max_duration
    → s.max_staleness ≡ pos d
    → Evidence s o
    → is_fresh s now ≡ within o d now
unfolding is_fresh
is_fresh-Evidence d s none now lt st e = ground arith
is_fresh-Evidence d s (some t) now lt st e = ground arith

-- After any history of marks, `IsFresh` holds exactly when the history has evidence that nothing
-- since has undone (an unsafe mark, or a heartbeat of another revision than the materialized one),
-- and the evidence is no older than the configured staleness. Connecting and disconnecting do not
-- count. The staleness is positive and below the largest duration; the clock of every mark is past
-- the zero time.
pub is_fresh-replay :
    (d : ℕ) (h : List Mark) (now : Time)
    → 0 < d
    → d < max_duration
    → Clocked h
    → is_fresh (replay (new_control_state (pos d)) h) now ≡ within (trusted_since h) d now
is_fresh-replay d h now pos_d lt c =
    let a = replay-Agrees d h pos_d c in
    is_fresh-Evidence d _ (trusted_since h) now lt a.staleness a.evidence
