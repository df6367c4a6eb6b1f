-- ===== src/Tests/Distribution.antt =====
-- A journal, a subscriber and a freshness history of internal/controlplane on concrete values.
use hacp_sidecar.Common.{◌+◌, ◌<◌, String, ◌≡◌, refl, false, none, some, List, [], ◌∷◌, arith}
use hacp_sidecar.Common.Int.{pos, two_64}
use hacp_sidecar.Common.Time.{Time}
use hacp_sidecar.Common.Strings.{contains}
use hacp_sidecar.Revocation.Laws
use hacp_sidecar.Revocation.Laws.{Class, key, token, envelope, same_class}
use hacp_sidecar.ControlPlane.Adapter.{new_adapter, is_revoked}
use hacp_sidecar.ControlPlane.State.{new_control_state, is_fresh}
use hacp_sidecar.ControlPlane.State.History.{
  Mark, connect, snapshot, heartbeat, replay, trusted_since,
}
use hacp_sidecar.ControlPlane.State.Freshness.{within, is_fresh-replay}
use hacp_sidecar.ControlPlane.Journal.{
  RevocationKind, RevocationEvent, RevocationEntry, Journal, Events, revision_ahead,
  replay_unavailable, new_journal, commit, revoke, compact_through, events_after, contains_entry,
  drop_through, event_id, pad_decimal, is_compacted, newer,
}
use hacp_sidecar.ControlPlane.Journal
use hacp_sidecar.ControlPlane.Subscriber
use hacp_sidecar.ControlPlane.Journal.Validity.{
  Chain, IsValid, new_journal-IsValid, revoke-IsValid, compact_through-IsValid,
}
use hacp_sidecar.ControlPlane.Journal.Completeness.{events_after_complete, events_after-silent}
use hacp_sidecar.ControlPlane.Subscriber.{
  Subscriber, Round, new_subscriber, load_snapshot, watch_loop, run_rounds, next_reconnect_backoff,
}
use hacp_sidecar.ControlPlane.Subscriber.Mirror.{Mirrors, revoked_in}
use hacp_sidecar.ControlPlane.Subscriber.Watch.{Ended, deliver, watch-catches_up}
use hacp_sidecar.ControlPlane.Subscriber.Reconnect.{Synced}
use hacp_sidecar.ControlPlane.Subscriber.Start.{Try, fails}

-- Two revocations, made one after the other.
abbrev one : Journal
one = (revoke new_journal RevocationKind.key "k1" 1000).0

abbrev two : Journal
two = (revoke one RevocationKind.parent_envelope "e1" 2000).0

no_overflow : new_journal.revision + 1 < two_64
unfolding new_journal
no_overflow = omega arith

revoke-IsValid_example : IsValid one
revoke-IsValid_example =
    revoke-IsValid new_journal RevocationKind.key "k1" 1000 new_journal-IsValid no_overflow

one_revision : one.revision ≡ 1
unfolding revoke new_journal contains_entry commit
one_revision = refl

two_revision : two.revision ≡ 2
unfolding revoke new_journal contains_entry commit
two_revision = refl

one-IsValid : IsValid one
one-IsValid =
    revoke-IsValid new_journal RevocationKind.key "k1" 1000 new_journal-IsValid no_overflow

two-IsValid : IsValid two
two-IsValid =
    revoke-IsValid one RevocationKind.parent_envelope "e1" 2000 one-IsValid
      (omega (arith, one_revision))

compact_through-IsValid_example :
    IsValid (compact_through two 1) × ((compact_through two 1).revoked ≡ two.revoked)
compact_through-IsValid_example = compact_through-IsValid two 1 two-IsValid

-- The same journal after the first event has been compacted away.
abbrev pub entry_1 : RevocationEntry
entry_1 = record { kind = RevocationKind.key; subject_id = "k1" }

abbrev pub entry_2 : RevocationEntry
entry_2 = record { kind = RevocationKind.parent_envelope; subject_id = "e1" }

abbrev pub event_2 : RevocationEvent
event_2 = record {
  revision = 2;
  event_id = [];
  kind = RevocationKind.parent_envelope;
  subject_id = "e1";
  issued_at_ms = 2000;
}

abbrev pub compacted : Journal
compacted = record {
  revision = 2;
  events = event_2 ∷ [];
  revoked = entry_1 ∷ entry_2 ∷ [];
  notify = 2;
}

abbrev pub compacted_valid : IsValid compacted
compacted_valid = record {
  base = 1;
  retained = refl;
  counted = refl;
  chained = ((refl, refl, refl), tt);
  kinds = (refl, (refl, tt));
}

events_after_complete_example :
    (es : List RevocationEvent) × (events_after compacted 1 ≡ Events.replay es 2)
    × Chain 1 es (entry_2 ∷ [])
events_after_complete_example = events_after_complete compacted compacted_valid 0 (omega arith)

events_after-silent_example : events_after (compact_through compacted 2) 0 ≡ Events.replay [] 2
events_after-silent_example =
    events_after-silent compacted 2 0 compacted_valid (omega arith) (omega arith)

abbrev fresh_subscriber : Subscriber
fresh_subscriber = new_subscriber (new_adapter 5)

-- A subscriber that has applied the first revocation.
abbrev pub behind : Subscriber
behind = record {
  store = record {
    store = record {
      revoked_keys = "k1" ∷ [];
      revoked_envelopes = [];
      revoked_tokens = [];
      last_updated = 5;
    };
  };
  state = new_control_state (pos 5);
  last_seen_revision = 1;
  reconnect_initial_backoff = pos 1;
  reconnect_max_backoff = pos 8;
}

pub behind-Mirrors : Mirrors behind 1 (entry_1 ∷ [])
unfolding is_revoked contains revoked_in Laws.is_revoked
behind-Mirrors = (refl, answers)
  where
    answers :
        (c : Class) (id : String) → is_revoked behind.store c id ≡ revoked_in (entry_1 ∷ []) c id
    answers key id = refl
    answers token id = refl
    answers envelope id = refl

abbrev clock : RevocationEvent → Time
clock e = e.issued_at_ms

watch-catches_up_example :
    (es : List RevocationEvent) × (events_after compacted 1 ≡ Events.replay es 2)
    × Ended (watch_loop behind (deliver clock es)) 2 (entry_1 ∷ entry_2 ∷ [])
watch-catches_up_example =
    watch-catches_up compacted compacted_valid behind 0 clock behind-Mirrors (omega arith)
      (omega arith)

-- A stream that the control plane resets, and then one that the client refuses.
abbrev rounds : List Round
rounds =
    record {
      stream = some ((Subscriber.reset_required, 10) ∷ []);
      recovery = some (Journal.snapshot compacted 3000);
      recovery_time = 11;
      cancelled = false;
      wait_cancelled = false;
    }
    ∷ record {
      stream = none;
      recovery = none;
      recovery_time = 12;
      cancelled = false;
      wait_cancelled = false;
    }
    ∷ []

start-Synced : Synced fresh_subscriber
unfolding new_subscriber new_control_state
start-Synced = refl

-- The first answer fails, the second does not.
abbrev tries : List Try
tries =
    fails 7
    ∷ record {
      answer = some (Journal.snapshot compacted 3000);
      answer_time = 8;
      cancelled = false;
      wait_cancelled = false;
    }
    ∷ []

-- A snapshot, then a heartbeat that disagrees and one that agrees; the newest mark comes first.
abbrev history : List Mark
history = heartbeat 4 30 ∷ heartbeat 5 20 ∷ snapshot 4 10 ∷ connect ∷ []

is_fresh-replay_example :
    is_fresh (replay (new_control_state (pos 5)) history) 36 ≡ within (trusted_since history) 5 36
is_fresh-replay_example =
    is_fresh-replay 5 history 36 (omega arith) (omega arith)
      (omega arith, (omega arith, (omega arith, tt)))
