-- ===== src/ControlPlane/Subscriber/Reconnect.antt =====
-- What `Run` keeps over any script of streams, snapshots and cancellations, and its backoff.
use hacp_sidecar.Common.{
  ℕ, ◌+◌, ◌%◌, ◌≡◌, refl, Bool, true, false, Option, none, some, List, [], ◌∷◌, arith, leb, ◌==◌,
  inl, inr, Bool-cases, Option-cases, ◌⊎◌, ◌∙◌, sym, subst, if◌then◌else◌,
}
use hacp_sidecar.Common.Int.{ℤ, pos, two_64}
use hacp_sidecar.Common.Time.{Time}
use hacp_sidecar.ControlPlane.State.{
  ControlState, HeartbeatError, mark_connected, mark_disconnected, mark_snapshot, mark_event,
  mark_heartbeat, mark_unsafe,
}
use hacp_sidecar.ControlPlane.Adapter.{RevocationStoreAdapter}
use hacp_sidecar.ControlPlane.Journal.{RevocationEvent, RevocationSnapshot}
use hacp_sidecar.ControlPlane.Subscriber.{
  Subscriber, Subjects, SubscriberError, Response, reset_required, empty, heartbeat, event,
  materialize, load_snapshot, split_entries, materialize_event, target, advance, apply_event, beat,
  applied, receive, watch_loop, watch, Round, Ran, stopped, running, context_cancelled, recovered,
  reconnect, after_watch, run_round, run_rounds, stream_failed, snapshot_required, revision_gap,
  unknown_revocation_kind, heartbeat_failed,
}

-- The cursor of the subscriber and the revision whose freshness `ControlState` tracks agree.
abbrev pub Synced : Subscriber → Type 0
Synced s = s.state.last_seen_revision ≡ s.last_seen_revision

materialize-Synced :
    (s : Subscriber) (r : RevocationSnapshot) (o : Option Subjects) (now : Time)
    → Synced s
    → Synced (materialize s r o now).0
unfolding materialize mark_unsafe mark_snapshot
materialize-Synced s r none now h = h
materialize-Synced s r (some _) now h = refl

pub load_snapshot-Synced :
    (s : Subscriber) (snapshot : Option RevocationSnapshot) (now : Time)
    → Synced s
    → Synced (load_snapshot s snapshot now).0
unfolding load_snapshot
load_snapshot-Synced s none now h = h
load_snapshot-Synced s (some r) now h = materialize-Synced s r (split_entries r.entries) now h

advance-Synced :
    (s : Subscriber) (e : RevocationEvent) (o : Option RevocationStoreAdapter) (now : Time)
    → Synced s
    → Synced (advance s e o now).0
unfolding advance mark_event mark_unsafe
advance-Synced s e none now h = h
advance-Synced s e (some _) now h = refl

pub apply_event-Synced :
    (s : Subscriber) (e : RevocationEvent) (now : Time) → Synced s → Synced (apply_event s e now).0
unfolding apply_event mark_unsafe
apply_event-Synced s e now h = elim (Bool-cases (leb e.revision s.last_seen_revision)) [
  | inl old ↦ rw old h
  | inr new ↦ elim (Bool-cases (e.revision == (s.last_seen_revision + 1) % two_64)) [
    | inl next ↦
        rw (new, next)
          (advance-Synced s e (materialize_event s.store (target e.kind) e.subject_id now) now h)
    | inr gap ↦ rw (new, gap) h
  ]
]

applied-Synced : (r : Subscriber × Option SubscriberError) → Synced r.0 → Synced (applied r).0
unfolding applied mark_unsafe
applied-Synced (s, none) h = h
applied-Synced (s, some e) h = h

mark_heartbeat-revision :
    (s : ControlState) (n : ℕ) (now : Time)
    → (mark_heartbeat s n now).0.last_seen_revision ≡ s.last_seen_revision
unfolding mark_heartbeat
mark_heartbeat-revision s n now = ground arith

beat-Synced :
    (s : Subscriber) (r : ControlState × Option HeartbeatError)
    → r.0.last_seen_revision ≡ s.last_seen_revision
    → Synced (beat s r).0
unfolding beat
beat-Synced s (state, none) h = h
beat-Synced s (state, some e) h = h

receive-Synced :
    (s : Subscriber) (r : Response) (now : Time) → Synced s → Synced (receive s r now).0
unfolding receive mark_unsafe
receive-Synced s reset_required now h = h
receive-Synced s empty now h = h
receive-Synced s (heartbeat n) now h =
    beat-Synced s (mark_heartbeat s.state n now) (mark_heartbeat-revision s.state n now ∙ h)
receive-Synced s (event e) now h =
    applied-Synced (apply_event s e now) (apply_event-Synced s e now h)

watch_loop-step :
    (s : Subscriber) (r : Response) (now : Time) (rest : List (Response × Time))
    → (((receive s r now).1 ≡ none)
        × (watch_loop s ((r, now) ∷ rest) ≡ watch_loop (receive s r now).0 rest))
      ⊎ ((watch_loop s ((r, now) ∷ rest)).0 ≡ (receive s r now).0)
unfolding watch_loop
watch_loop-step s r now rest = elim (Option-cases (receive s r now).1) [
  | inl fine ↦ inl (fine, rw (watch_loop, fine) refl)
  | inr (e, failed) ↦ inr (rw (watch_loop, failed) refl)
]

watch_loop-Synced :
    (s : Subscriber) (rs : List (Response × Time)) → Synced s → Synced (watch_loop s rs).0
unfolding watch_loop mark_disconnected
watch_loop-Synced s [] h = h
watch_loop-Synced s ((r, now) ∷ rest) h =
    let h' = receive-Synced s r now h in
    elim (watch_loop-step s r now rest) [
      | inl (fine, e) ↦
          subst (λ p. Synced p.0) (sym e) (watch_loop-Synced (receive s r now).0 rest h')
      | inr e ↦ subst Synced (sym e) h'
    ]

watch-Synced :
    (s : Subscriber) (o : Option (List (Response × Time))) → Synced s → Synced (watch s o).0
unfolding watch mark_connected
watch-Synced s none h = h
watch-Synced s (some rs) h = watch_loop-Synced (record s { state = mark_connected s.state }) rs h

-- The subscriber at the end of a turn or of a script.
abbrev pub subscriber_of : Ran → Subscriber
subscriber_of (stopped s e) = s
subscriber_of (running s backoff) = s

recovered-Synced :
    (r : Subscriber × Option SubscriberError) → Synced r.0 → Synced (subscriber_of (recovered r))
unfolding recovered
recovered-Synced (s, none) h = h
recovered-Synced (s, some e) h = h

reconnect-Synced :
    (s : Subscriber) (backoff : ℤ) (wait_cancelled : Bool)
    → Synced s
    → Synced (subscriber_of (reconnect s backoff wait_cancelled))
unfolding reconnect mark_disconnected
reconnect-Synced s backoff true h = h
reconnect-Synced s backoff false h = h

after_watch-Synced :
    (s : Subscriber) (connected : Bool) (e : SubscriberError) (backoff : ℤ) (r : Round)
    → Synced s
    → Synced (subscriber_of (after_watch s connected e backoff r))
unfolding after_watch mark_unsafe
after_watch-Synced s connected snapshot_required backoff r h =
    let s' : Subscriber = record s { state = mark_unsafe s.state } in
    recovered-Synced (load_snapshot s' r.recovery r.recovery_time)
      (load_snapshot-Synced s' r.recovery r.recovery_time h)
after_watch-Synced s connected stream_failed backoff r h =
    reconnect-Synced s (if connected then pos 0 else backoff) r.wait_cancelled h
after_watch-Synced s connected (revision_gap a b) backoff r h =
    reconnect-Synced s (if connected then pos 0 else backoff) r.wait_cancelled h
after_watch-Synced s connected (unknown_revocation_kind k) backoff r h =
    reconnect-Synced s (if connected then pos 0 else backoff) r.wait_cancelled h
after_watch-Synced s connected (heartbeat_failed e) backoff r h =
    reconnect-Synced s (if connected then pos 0 else backoff) r.wait_cancelled h

run_round-Synced :
    (s : Subscriber) (backoff : ℤ) (r : Round)
    → Synced s
    → Synced (subscriber_of (run_round s backoff r))
unfolding run_round mark_disconnected
run_round-Synced s backoff r h =
    let (s', connected, e) = watch s r.stream in
    let h' = watch-Synced s r.stream h in
    elim r.cancelled
      as (λ c. Synced (
        subscriber_of (
          if c
          then stopped (record s' { state = mark_disconnected s'.state }) context_cancelled
          else after_watch s' connected e backoff r))) [
            | true ↦ h'
            | false ↦ after_watch-Synced s' connected e backoff r h'
          ]

run_rounds-next :
    (o : Ran) (rs : List Round)
    → Synced (subscriber_of o)
    → ((s : Subscriber) (backoff : ℤ) → Synced s → Synced (subscriber_of (run_rounds s backoff rs)))
    → Synced (
        subscriber_of
          (elim o [ stopped s e ↦ stopped s e | running s backoff ↦ run_rounds s backoff rs ]))
run_rounds-next (stopped s e) rs h rest = h
run_rounds-next (running s backoff) rs h rest = rest s backoff h

-- Whatever the control plane, the network and the context do, the cursor that the subscriber watches
-- from stays the revision whose freshness the pipeline asks about.
pub run_rounds-Synced :
    (s : Subscriber) (backoff : ℤ) (rs : List Round)
    → Synced s
    → Synced (subscriber_of (run_rounds s backoff rs))
unfolding run_rounds
run_rounds-Synced s backoff [] h = h
run_rounds-Synced s backoff (r ∷ rs) h =
    run_rounds-next (run_round s backoff r) rs (run_round-Synced s backoff r h)
      (λ s' backoff'. run_rounds-Synced s' backoff' rs)
