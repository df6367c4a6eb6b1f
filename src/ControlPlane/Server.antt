-- ===== src/ControlPlane/Server.antt =====
-- internal/controlplane/server.go: the control plane's side of a stream of revocations. Each turn of the
-- loop of `WatchRevocations` meets the journal of its time, sends that succeed or fail, and what ends its
-- wait: these are the fields of `Turn`. The sequence is a `uint64`, with its wrap-around written out.
pub mod Replay
pub mod Stream
pub mod Following
pub mod CatchUp
use hacp_sidecar.Common.{
  ℕ, zero, suc, ◌+◌, ◌%◌, Bool, true, false, not, Option, none, some, List, [], ◌∷◌, ◌==◌,
  if◌then◌else◌,
}
use hacp_sidecar.Common.Int.{ℤ, pos, leb_ℤ, two_64}
use hacp_sidecar.ControlPlane.Journal.{
  RevocationEvent, RevocationSnapshot, Journal, replay, replay_unavailable, revision_ahead,
  events_after, oldest_available_revision, snapshot,
}

-- A nil journal or clock makes the constructors panic, and is left out. The clock is read in `Turn`.
pub record Server : Type 0 where
  pub heartbeat_interval : ℤ

unfoldable pub new_server : Server
new_server = record { heartbeat_interval = pos 0 }

-- none is the panic for an interval that is not positive.
unfoldable pub new_server_with_heartbeat : ℤ → Option Server
new_server_with_heartbeat heartbeat_interval =
    if leb_ℤ heartbeat_interval (pos 0)
    then none
    else some record { heartbeat_interval = heartbeat_interval }

unfoldable pub get_revocation_snapshot : Journal → ℕ → RevocationSnapshot
get_revocation_snapshot j now_ms = snapshot j now_ms

-- The payloads of `WatchRevocationsResponse`.
pub data Payload : Type 0 where
  reset_required : ℕ → ℕ → Payload
  revocation : RevocationEvent → Payload
  heartbeat : ℕ → ℕ → Payload

pub record Message : Type 0 where
  pub sequence : ℕ
  pub payload : Payload

-- What ends the wait. A timer that the server does not start never fires: such a turn waits on.
pub data Wakeup : Type 0 where
  cancelled notified timer_fired : Wakeup

-- `sends` of the turn's sends succeed, and the next one fails. The refusal of a replay reads the journal
-- twice more, and a timer once more.
pub record Turn : Type 0 where
  pub journal : Journal
  pub oldest_journal : Journal
  pub current_journal : Journal
  pub timer_journal : Journal
  pub sends : ℕ
  pub wakeup : Wakeup
  pub now_ms : ℕ

-- How a call returns; `waiting` is a call that goes on.
pub data Status : Type 0 where
  invalid_argument send_failed context_done done waiting : Status
  failed_precondition : ℕ → ℕ → Status

pub record Cursor : Type 0 where
  pub last_revision : ℕ
  pub sequence : ℕ

-- The messages sent, where the call stands, and how it returned.
pub record Sent : Type 0 where
  pub messages : List Message
  pub cursor : Cursor
  pub status : Status

abbrev pub next_sequence : Cursor → ℕ
next_sequence c = (c.sequence + 1) % two_64

abbrev pub prepend : Message → Sent → Sent
prepend m s = record s { messages = m ∷ s.messages }

-- The loop over the events.
unfoldable pub send_events : Cursor → ℕ → List RevocationEvent → Sent
send_events c sends [] = record { messages = []; cursor = c; status = waiting }
send_events c zero (e ∷ es) = record { messages = []; cursor = c; status = send_failed }
send_events c (suc sends) (e ∷ es) =
    prepend (record { sequence = next_sequence c; payload = revocation e })
      (send_events (record { last_revision = e.revision; sequence = next_sequence c }) sends es)

-- One message, after which the cursor and the status are these.
abbrev pub send_one : Cursor → ℕ → Payload → Cursor → Status → Sent
send_one c zero payload after status = record { messages = []; cursor = c; status = send_failed }
send_one c (suc sends) payload after status = record {
  messages = record { sequence = next_sequence c; payload = payload } ∷ [];
  cursor = after;
  status = status;
}

abbrev pub nothing_sent : Cursor → Status → Sent
nothing_sent c status = record { messages = []; cursor = c; status = status }

-- The part of the loop after an empty replay.
unfoldable pub wait : Server → Cursor → Turn → Wakeup → Sent
wait s c t cancelled = nothing_sent c context_done
wait s c t notified = nothing_sent c waiting
wait s c t timer_fired =
    if leb_ℤ s.heartbeat_interval (pos 0)
    then nothing_sent c waiting
    else if not (t.timer_journal.revision == c.last_revision)
    then nothing_sent c waiting
    else send_one c t.sends (heartbeat c.last_revision t.now_ms)
        (record c { sequence = next_sequence c }) waiting

unfoldable pub after_replay : Server → Cursor → Turn → List RevocationEvent → Sent
unfolding wait send_events
after_replay s c t [] = wait s c t t.wakeup
after_replay s c t (e ∷ es) = send_events c t.sends (e ∷ es)

-- One turn of the loop of `WatchRevocations`.
unfoldable pub watch_turn : Server → Cursor → Turn → Sent
unfolding after_replay
watch_turn s c t = elim (events_after t.journal c.last_revision) [
  | revision_ahead after current ↦ nothing_sent c (failed_precondition after current)
  | replay_unavailable after oldest current ↦
      send_one c t.sends
        (reset_required (oldest_available_revision t.oldest_journal) t.current_journal.revision)
        (record c { sequence = next_sequence c }) done
  | replay es notify ↦ after_replay s c t es
]

abbrev pub followed_by : List Message → Sent → Sent
followed_by [] s = s
followed_by (m ∷ ms) s = prepend m (followed_by ms s)

-- The loop goes on only while the call waits.
unfoldable pub continue_from : Status → Sent → (Cursor → Sent) → Sent
continue_from waiting s rest = followed_by s.messages (rest s.cursor)
continue_from _ s rest = s

unfoldable pub watch_turns : Server → Cursor → List Turn → Sent
unfolding watch_turn continue_from
watch_turns s c [] = nothing_sent c waiting
watch_turns s c (t ∷ ts) =
    let sent = watch_turn s c t in continue_from sent.status sent (λ c'. watch_turns s c' ts)

-- `WatchRevocations`, with the request's revision; none is a nil request.
unfoldable pub watch_revocations : Server → Option ℕ → List Turn → Sent
unfolding watch_turns
watch_revocations s none ts =
    nothing_sent (record { last_revision = 0; sequence = 0 }) invalid_argument
watch_revocations s (some after_revision) ts =
    watch_turns s (record { last_revision = after_revision; sequence = 0 }) ts
