-- ===== src/ControlPlane/Subscriber/Start.antt =====
-- internal/controlplane/subscriber.go: `loadInitialSnapshot`, and `Run` with it. The arguments list
-- what the client and the context do at each try of the first snapshot, and then in each turn.
use hacp_sidecar.Common.{Bool, false, arith, Option, none, some, List, [], ◌∷◌, if◌then◌else◌}
use hacp_sidecar.Common.Int.{ℤ, pos}
use hacp_sidecar.Common.Time.{Time}
use hacp_sidecar.ControlPlane.State.{mark_disconnected}
use hacp_sidecar.ControlPlane.Journal.{Journal, RevocationSnapshot}
use hacp_sidecar.ControlPlane.Subscriber.{
  Subscriber, SubscriberError, load_snapshot, next_reconnect_backoff, Round, context_cancelled, Ran,
  stopped, running, run_rounds,
}
use hacp_sidecar.ControlPlane.Subscriber.Reconnect.{
  Synced, subscriber_of, load_snapshot-Synced, run_rounds-Synced,
}

-- One try: the client's answer, and whether the context is cancelled after it or during the wait.
pub record Try : Type 0 where
  pub answer : Option RevocationSnapshot
  pub answer_time : Time
  pub cancelled : Bool
  pub wait_cancelled : Bool

-- The snapshot is loaded, the context is cancelled, or the next try waits for the backoff.
pub data Started : Type 0 where
  loaded : Subscriber → Started
  start_cancelled : Subscriber → Started
  trying : Subscriber → ℤ → Started

-- The turn of the loop after `loadSnapshot`.
unfoldable pub after_load : Subscriber × Option SubscriberError → ℤ → Try → Started
after_load (s, none) backoff t = loaded s
after_load (s, some e) backoff t =
    let s' : Subscriber = record s { state = mark_disconnected s.state } in
    if t.cancelled
    then start_cancelled s'
    else if t.wait_cancelled
    then start_cancelled s'
    else trying s'
        (next_reconnect_backoff backoff s.reconnect_initial_backoff s.reconnect_max_backoff)

unfoldable pub load_initial_snapshot : Subscriber → ℤ → List Try → Started
unfolding after_load
load_initial_snapshot s backoff [] = trying s backoff
load_initial_snapshot s backoff (t ∷ ts) =
    elim (after_load (load_snapshot s t.answer t.answer_time) backoff t) [
      | loaded s' ↦ loaded s'
      | start_cancelled s' ↦ start_cancelled s'
      | trying s' backoff' ↦ load_initial_snapshot s' backoff' ts
    ]

-- `Run` after the first snapshot, if it was loaded.
unfoldable pub run_started : Started → List Round → Ran
run_started (loaded s) rounds = run_rounds s (pos 0) rounds
run_started (start_cancelled s) rounds = stopped s context_cancelled
run_started (trying s backoff) rounds = running s backoff

unfoldable pub run : Subscriber → List Try → List Round → Ran
unfolding load_initial_snapshot run_started
run s tries rounds = run_started (load_initial_snapshot s (pos 0) tries) rounds

abbrev pub started_subscriber : Started → Subscriber
started_subscriber (loaded s) = s
started_subscriber (start_cancelled s) = s
started_subscriber (trying s backoff) = s

after_load-Synced :
    (r : Subscriber × Option SubscriberError) (backoff : ℤ) (t : Try)
    → Synced r.0
    → Synced (started_subscriber (after_load r backoff t))
unfolding after_load mark_disconnected
after_load-Synced (s, none) backoff t h = h
after_load-Synced (s, some e) backoff t h = ground arith

load_initial_snapshot-Synced :
    (s : Subscriber) (backoff : ℤ) (tries : List Try)
    → Synced s
    → Synced (started_subscriber (load_initial_snapshot s backoff tries))
unfolding load_initial_snapshot
load_initial_snapshot-Synced s backoff [] h = h
load_initial_snapshot-Synced s backoff (t ∷ ts) h =
    next (after_load (load_snapshot s t.answer t.answer_time) backoff t)
      (after_load-Synced (load_snapshot s t.answer t.answer_time) backoff t
        (load_snapshot-Synced s t.answer t.answer_time h))
      (λ s' b. load_initial_snapshot-Synced s' b ts)
  where
    next :
        (o : Started)
        → Synced (started_subscriber o)
        → ((s' : Subscriber) (b : ℤ)
            → Synced s'
            → Synced (started_subscriber (load_initial_snapshot s' b ts)))
        → Synced (
            started_subscriber (elim o [
              | loaded s' ↦ loaded s'
              | start_cancelled s' ↦ start_cancelled s'
              | trying s' b ↦ load_initial_snapshot s' b ts
            ]))
    next (loaded s') k rest = k
    next (start_cancelled s') k rest = k
    next (trying s' b) k rest = rest s' b k

run_started-Synced :
    (o : Started) (rounds : List Round)
    → Synced (started_subscriber o)
    → Synced (subscriber_of (run_started o rounds))
unfolding run_started
run_started-Synced (loaded s) rounds h = run_rounds-Synced s (pos 0) rounds h
run_started-Synced (start_cancelled s) rounds h = h
run_started-Synced (trying s b) rounds h = h

-- If the cursor that the subscriber watches from is the revision of its control state, it stays so
-- whatever the control plane, the network and the context do from the start of `Run` on.
pub run-Synced :
    (s : Subscriber) (tries : List Try) (rounds : List Round)
    → Synced s
    → Synced (subscriber_of (run s tries rounds))
unfolding run
run-Synced s tries rounds h =
    run_started-Synced (load_initial_snapshot s (pos 0) tries) rounds
      (load_initial_snapshot-Synced s (pos 0) tries h)

-- A try that fails while the context lasts.
abbrev pub fails : Time → Try
fails now = record { answer = none; answer_time = now; cancelled = false; wait_cancelled = false }

abbrev pub failures : List Time → List Try → List Try
failures [] rest = rest
failures (now ∷ times) rest = fails now ∷ failures times rest
