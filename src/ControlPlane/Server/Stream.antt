-- ===== src/ControlPlane/Server/Stream.antt =====
-- internal/controlplane/server.go: the messages of a stream, over any turns.
use hacp_sidecar.Common.{
  ℕ, zero, suc, ◌≡◌, refl, sym, subst, some, List, [], ◌∷◌, ◌==◌, inl, inr, Bool-cases,
}
use hacp_sidecar.Common.Int.{pos, leb_ℤ}
use hacp_sidecar.ControlPlane.Journal.{
  RevocationEntry, RevocationEvent, Events, replay, revision_ahead, replay_unavailable,
  events_after, oldest_available_revision,
}
use hacp_sidecar.ControlPlane.Server.{
  Server, Payload, reset_required, revocation, heartbeat, Message, Wakeup, cancelled, notified,
  timer_fired, Turn, Status, invalid_argument, send_failed, context_done, done, waiting,
  failed_precondition, Cursor, Sent, next_sequence, send_events, send_one, nothing_sent, wait,
  after_replay, watch_turn, followed_by, continue_from, watch_turns, watch_revocations,
}
use hacp_sidecar.ControlPlane.Server.Replay.{Follows, Ordered, Seen, events_after-Ordered}

-- Where a message leaves the cursor.
abbrev pub position : ℕ → Payload → ℕ
position a (revocation e) = e.revision
position a (heartbeat r now_ms) = a
position a (reset_required oldest current) = a

abbrev pub moved : Cursor → Message → Cursor
moved c m = record { last_revision = position c.last_revision m.payload; sequence = m.sequence }

abbrev pub moved_all : Cursor → List Message → Cursor
moved_all c [] = c
moved_all c (m ∷ ms) = moved_all (moved c m) ms

-- What may be sent at a cursor: the next revocation of all, a heartbeat of the cursor's own revision, or
-- the request for a reset.
abbrev pub Due : List RevocationEntry → ℕ → Payload → Type 0
Due xs a (revocation e) = Follows xs a e
Due xs a (heartbeat r now_ms) = r ≡ a
Due xs a (reset_required oldest current) = Unit {0}

-- The messages count up from the cursor, and each is due.
unfoldable pub InOrder : List RevocationEntry → Cursor → List Message → Type 0
InOrder xs c [] = Unit {0}
InOrder xs c (m ∷ ms) =
    (m.sequence ≡ next_sequence c) × Due xs c.last_revision m.payload × InOrder xs (moved c m) ms

pub record Sound (xs : List RevocationEntry) (c : Cursor) (s : Sent) : Type 0 where
  pub in_order : InOrder xs c s.messages
  pub placed : s.status ≡ waiting → s.cursor ≡ moved_all c s.messages

nothing_sent-Sound :
    (xs : List RevocationEntry) (c : Cursor) (status : Status) → Sound xs c (nothing_sent c status)
unfolding InOrder
nothing_sent-Sound xs c status = record { in_order = tt; placed = λ _. refl }

send_one-Sound :
    (xs : List RevocationEntry) (c : Cursor) (sends : ℕ) (payload : Payload) (status : Status)
    → Due xs c.last_revision payload
    → Sound xs c (
        send_one c sends payload
          (record { last_revision = position c.last_revision payload; sequence = next_sequence c })
          status)
unfolding InOrder
send_one-Sound xs c zero payload status due = record { in_order = tt; placed = λ _. refl }
send_one-Sound xs c (suc sends) payload status due = record {
  in_order = (refl, due, tt);
  placed = λ _. refl;
}

send_events-Sound :
    (xs : List RevocationEntry) (c : Cursor) (sends : ℕ) (es : List RevocationEvent)
    → Ordered xs c.last_revision es
    → Sound xs c (send_events c sends es)
unfolding send_events Ordered InOrder
send_events-Sound xs c sends [] h = record { in_order = tt; placed = λ _. refl }
send_events-Sound xs c zero (e ∷ es) h = record { in_order = tt; placed = λ _. refl }
send_events-Sound xs c (suc sends) (e ∷ es) h =
    let c' : Cursor = record { last_revision = e.revision; sequence = next_sequence c } in
    let rest = send_events-Sound xs c' sends es (subst (λ a. Ordered xs a es) (sym h.0.0) h.1) in
    record { in_order = (refl, h.0, rest.in_order); placed = rest.placed }

wait-Sound :
    (xs : List RevocationEntry) (s : Server) (c : Cursor) (t : Turn) (w : Wakeup)
    → Sound xs c (wait s c t w)
unfolding wait
wait-Sound xs s c t cancelled = nothing_sent-Sound xs c context_done
wait-Sound xs s c t notified = nothing_sent-Sound xs c waiting
wait-Sound xs s c t timer_fired = elim (Bool-cases (leb_ℤ s.heartbeat_interval (pos 0))) [
  | inl off ↦ rw (off, wait) (nothing_sent-Sound xs c waiting)
  | inr on ↦ elim (Bool-cases (t.timer_journal.revision == c.last_revision)) [
    | inl caught_up ↦
        rw (on, caught_up, wait)
          (send_one-Sound xs c t.sends (heartbeat c.last_revision t.now_ms) waiting refl)
    | inr behind ↦ rw (on, behind, wait) (nothing_sent-Sound xs c waiting)
  ]
]

after_replay-Sound :
    (xs : List RevocationEntry) (s : Server) (c : Cursor) (t : Turn) (es : List RevocationEvent)
    → Ordered xs c.last_revision es
    → Sound xs c (after_replay s c t es)
unfolding after_replay
after_replay-Sound xs s c t [] h = wait-Sound xs s c t t.wakeup
after_replay-Sound xs s c t (e ∷ es) h = send_events-Sound xs c t.sends (e ∷ es) h

watch_turn-Sound :
    (xs : List RevocationEntry) (s : Server) (c : Cursor) (t : Turn) (r : Events)
    → events_after t.journal c.last_revision ≡ r
    → Seen xs t.journal
    → Sound xs c (watch_turn s c t)
unfolding watch_turn
watch_turn-Sound xs s c t (revision_ahead after current) h seen =
    rw (h, watch_turn) (nothing_sent-Sound xs c (failed_precondition after current))
watch_turn-Sound xs s c t (replay_unavailable after oldest current) h seen =
    rw (h, watch_turn)
      (send_one-Sound xs c t.sends
        (reset_required (oldest_available_revision t.oldest_journal) t.current_journal.revision)
        done tt)
watch_turn-Sound xs s c t (replay es n) h seen =
    rw (h, watch_turn)
      (after_replay-Sound xs s c t es
        (events_after-Ordered xs t.journal c.last_revision es n seen h))

followed_by-Sound :
    (xs : List RevocationEntry) (c : Cursor) (ms : List Message) (s : Sent)
    → InOrder xs c ms
    → Sound xs (moved_all c ms) s
    → Sound xs c (followed_by ms s)
unfolding InOrder
followed_by-Sound xs c [] s h r = r
followed_by-Sound xs c (m ∷ ms) s h r =
    let rest = followed_by-Sound xs (moved c m) ms s h.2 r in
    record { in_order = (h.0, h.1, rest.in_order); placed = rest.placed }

continue_from-Sound :
    (xs : List RevocationEntry) (c : Cursor) (status : Status) (s : Sent) (rest : Cursor → Sent)
    → s.status ≡ status
    → Sound xs c s
    → ((d : Cursor) → Sound xs d (rest d))
    → Sound xs c (continue_from status s rest)
unfolding continue_from
continue_from-Sound xs c waiting s rest h sound go =
    followed_by-Sound xs c s.messages (rest s.cursor) sound.in_order
      (subst (λ d. Sound xs d (rest s.cursor)) (sound.placed h) (go s.cursor))
continue_from-Sound xs c invalid_argument s rest h sound go = sound
continue_from-Sound xs c send_failed s rest h sound go = sound
continue_from-Sound xs c context_done s rest h sound go = sound
continue_from-Sound xs c done s rest h sound go = sound
continue_from-Sound xs c (failed_precondition a b) s rest h sound go = sound

-- Each turn reads the journal at some time.
abbrev pub AllSeen : List RevocationEntry → List Turn → Type 0
AllSeen xs [] = Unit {0}
AllSeen xs (t ∷ ts) = Seen xs t.journal × AllSeen xs ts

watch_turns-Sound :
    (xs : List RevocationEntry) (s : Server) (c : Cursor) (ts : List Turn)
    → AllSeen xs ts
    → Sound xs c (watch_turns s c ts)
unfolding watch_turns
watch_turns-Sound xs s c [] seen = nothing_sent-Sound xs c waiting
watch_turns-Sound xs s c (t ∷ ts) seen =
    continue_from-Sound xs c (watch_turn s c t).status (watch_turn s c t) _ refl
      (watch_turn-Sound xs s c t _ refl seen.0) (λ d. watch_turns-Sound xs s d ts seen.1)

-- Over any turns, each of which reads a valid journal whose revocations are the first ones of `xs`: the
-- messages of a stream are numbered from 1 on without a gap, the events are the revocations after
-- the watcher's revision, in order and with none left out or repeated, and a heartbeat carries the
-- revision of the last event, whatever sends fail and whenever the wait ends.
pub watch_revocations-InOrder :
    (xs : List RevocationEntry) (s : Server) (after_revision : ℕ) (ts : List Turn)
    → AllSeen xs ts
    → InOrder xs
        (record { last_revision = after_revision; sequence = 0 })
        (watch_revocations s (some after_revision) ts).messages
unfolding watch_revocations
watch_revocations-InOrder xs s after_revision ts seen =
    (watch_turns-Sound xs s (record { last_revision = after_revision; sequence = 0 }) ts
      seen).in_order
