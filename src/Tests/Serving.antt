-- ===== src/Tests/Serving.antt =====
-- Streams of internal/controlplane/server.go on concrete turns.
use hacp_sidecar.Common.{◌≡◌, refl, some, List, [], ◌∷◌}
use hacp_sidecar.Common.Int.{pos}
use hacp_sidecar.Common.Time.{Time}
use hacp_sidecar.ControlPlane.Journal.{RevocationEntry, events_after, is_compacted, newer}
use hacp_sidecar.ControlPlane.Subscriber.{Subscriber}
use hacp_sidecar.ControlPlane.Server.{
  Server, Message, revocation, heartbeat, Turn, timer_fired, watch_turn, watch_turns,
  watch_revocations, after_replay, wait, send_events, continue_from,
}
use hacp_sidecar.ControlPlane.Server.Stream.{InOrder, AllSeen, watch_revocations-InOrder}
use hacp_sidecar.Tests.Distribution.{entry_1, entry_2, event_2, compacted, compacted_valid, behind}

abbrev server : Server
server = record { heartbeat_interval = pos 1000 }

abbrev revocations : List RevocationEntry
revocations = entry_1 ∷ entry_2 ∷ []

abbrev turn : Turn
turn = record {
  journal = compacted;
  oldest_journal = compacted;
  current_journal = compacted;
  timer_journal = compacted;
  sends = 3;
  wakeup = timer_fired;
  now_ms = 4000;
}

-- The event, and then a heartbeat.
abbrev turns : List Turn
turns = turn ∷ turn ∷ []

sent :
    (watch_revocations server (some 1) turns).messages
    ≡ record { sequence = 1; payload = revocation event_2 }
      ∷ record { sequence = 2; payload = heartbeat 2 4000 }
      ∷ []
unfolding watch_revocations watch_turns watch_turn continue_from after_replay wait send_events
    events_after is_compacted newer
sent = refl

turns_seen : AllSeen revocations turns
turns_seen = ((compacted_valid, ([], refl)), ((compacted_valid, ([], refl)), tt))

watch_revocations-InOrder_example :
    InOrder revocations
      (record { last_revision = 1; sequence = 0 })
      (watch_revocations server (some 1) turns).messages
watch_revocations-InOrder_example = watch_revocations-InOrder revocations server 1 turns turns_seen

-- The subscriber that has the first revocation.
abbrev follower : Subscriber
follower = record behind { state = record behind.state { last_seen_revision = 1 } }

abbrev clock : Message → Time
clock m = m.sequence
