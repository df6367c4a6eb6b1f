-- ===== src/ControlPlane/Subscriber.antt =====
-- internal/controlplane/subscriber.go: the sidecar's side of the distribution. The store is the
-- adapter of internal/controlplane/adapter.go, whose `ReplaceRevocations` never fails; `state` is never
-- nil, since `NewSubscriber` makes one and `SetControlState` refuses nil. What the network gives is an
-- argument: a response of `GetRevocationSnapshot`, a list of what `Recv` returns before the stream
-- ends, and a script of such rounds for `Run`. A method reads the clock once.
pub mod Mirror
pub mod Watch
pub mod Reconnect
pub mod Backoff
pub mod Start
use hacp_sidecar.Common.{
  ℕ, ◌+◌, ◌*◌, ◌%◌, String, Bool, true, false, Option, none, some, List, [], ◌∷◌, ◌==◌, leb,
  if◌then◌else◌, not,
}
use hacp_sidecar.Common.Int.{ℤ, pos, leb_ℤ, ltb_ℤ, two_64, add_int64}
use hacp_sidecar.Common.Time.{Time, second, millisecond}
use hacp_sidecar.ControlPlane.Adapter.{
  RevocationStoreAdapter, revoke_key, revoke_token, revoke_envelope, replace_revocations,
}
use hacp_sidecar.ControlPlane.State.{
  ControlState, HeartbeatError, new_control_state, mark_connected, mark_disconnected, mark_snapshot,
  mark_event, mark_heartbeat, mark_unsafe,
}
use hacp_sidecar.ControlPlane.Journal.{
  RevocationKind, key, token, envelope, parent_envelope, RevocationEntry, RevocationEvent,
  RevocationSnapshot,
}

pub record Subscriber : Type 0 where
  pub store : RevocationStoreAdapter
  pub state : ControlState
  pub last_seen_revision : ℕ
  pub reconnect_initial_backoff : ℤ
  pub reconnect_max_backoff : ℤ

-- The errors of the subscriber; `stream_failed` is any error of the client or of `Recv`.
pub data SubscriberError : Type 0 where
  stream_failed snapshot_required : SubscriberError
  revision_gap : ℕ → ℕ → SubscriberError
  unknown_revocation_kind : RevocationKind → SubscriberError
  heartbeat_failed : HeartbeatError → SubscriberError

unfoldable pub new_subscriber : RevocationStoreAdapter → Subscriber
new_subscriber store = record {
  store = store;
  state = new_control_state (pos (5 * second));
  last_seen_revision = 0;
  reconnect_initial_backoff = pos (100 * millisecond);
  reconnect_max_backoff = pos (5 * second);
}

unfoldable pub set_control_state : Subscriber → ControlState → Subscriber
set_control_state s state = record s { state = state }

-- The three slices of `loadSnapshot`.
pub record Subjects : Type 0 where
  pub keys : List String
  pub tokens : List String
  pub envelopes : List String

-- What a kind of the enumeration is to the local store.
pub data Target : Type 0 where
  to_keys to_tokens to_envelopes to_none : Target

abbrev pub target : RevocationKind → Target
target key = to_keys
target token = to_tokens
target envelope = to_envelopes
target parent_envelope = to_envelopes
target _ = to_none

-- The loop of `loadSnapshot` over the entries: the first unknown kind ends it.
unfoldable pub split_entries : List RevocationEntry → Option Subjects
split_entries [] = some record { keys = []; tokens = []; envelopes = [] }
split_entries (e ∷ es) = elim (split_entries es) [
  | none ↦ none
  | some r ↦ elim (target e.kind) [
    | to_keys ↦ some record r { keys = e.subject_id ∷ r.keys }
    | to_tokens ↦ some record r { tokens = e.subject_id ∷ r.tokens }
    | to_envelopes ↦ some record r { envelopes = e.subject_id ∷ r.envelopes }
    | to_none ↦ none
  ]
]

-- The kind that the error of `loadSnapshot` names.
unfoldable pub first_unknown : List RevocationEntry → RevocationKind
first_unknown [] = RevocationKind.unspecified
first_unknown (e ∷ es) = elim (target e.kind) [ to_none ↦ e.kind | _ ↦ first_unknown es ]

unfoldable pub materialize :
    Subscriber → RevocationSnapshot → Option Subjects → Time → Subscriber × Option SubscriberError
unfolding first_unknown
materialize s snapshot none now = (
  record s { state = mark_unsafe s.state },
  some (unknown_revocation_kind (first_unknown snapshot.entries)),
)
materialize s snapshot (some r) now = (
  record s {
    store = replace_revocations s.store r.keys r.tokens r.envelopes now;
    last_seen_revision = snapshot.revision;
    state = mark_snapshot s.state snapshot.revision now;
  },
  none,
)

-- `loadSnapshot`, with the client's answer; none is its error.
unfoldable pub load_snapshot :
    Subscriber → Option RevocationSnapshot → Time → Subscriber × Option SubscriberError
unfolding split_entries materialize
load_snapshot s none now = (s, some stream_failed)
load_snapshot s (some snapshot) now = materialize s snapshot (split_entries snapshot.entries) now

-- The store of `applyEvent`; none is the default case.
unfoldable pub materialize_event :
    RevocationStoreAdapter → Target → String → Time → Option RevocationStoreAdapter
materialize_event store to_keys id now = some (revoke_key store id now)
materialize_event store to_tokens id now = some (revoke_token store id now)
materialize_event store to_envelopes id now = some (revoke_envelope store id now)
materialize_event store to_none id now = none

unfoldable pub advance :
    Subscriber
    → RevocationEvent
    → Option RevocationStoreAdapter
    → Time
    → Subscriber × Option SubscriberError
advance s event none now =
    (record s { state = mark_unsafe s.state }, some (unknown_revocation_kind event.kind))
advance s event (some store) now = (
  record s {
    store = store;
    last_seen_revision = event.revision;
    state = mark_event s.state event.revision now;
  },
  none,
)

unfoldable pub apply_event :
    Subscriber → RevocationEvent → Time → Subscriber × Option SubscriberError
unfolding materialize_event advance
apply_event s event now =
    if leb event.revision s.last_seen_revision
    then (s, none)
    else if not (event.revision == (s.last_seen_revision + 1) % two_64)
    then (
      record s { state = mark_unsafe s.state },
      some (revision_gap s.last_seen_revision event.revision),
    )
    else advance s event (materialize_event s.store (target event.kind) event.subject_id now) now

-- The variants of `WatchRevocationsResponse`; `empty` has none of them set.
pub data Response : Type 0 where
  reset_required empty : Response
  heartbeat : ℕ → Response
  event : RevocationEvent → Response

unfoldable pub beat :
    Subscriber → ControlState × Option HeartbeatError → Subscriber × Option SubscriberError
beat s (state, none) = (record s { state = state }, none)
beat s (state, some e) = (record s { state = state }, some (heartbeat_failed e))

-- `watch` marks the state unsafe when `applyEvent` fails.
unfoldable pub applied : Subscriber × Option SubscriberError → Subscriber × Option SubscriberError
applied (s, none) = (s, none)
applied (s, some e) = (record s { state = mark_unsafe s.state }, some e)

-- One turn of the loop of `watch`, for a response.
unfoldable pub receive : Subscriber → Response → Time → Subscriber × Option SubscriberError
unfolding apply_event beat applied
receive s reset_required now = (record s { state = mark_unsafe s.state }, some snapshot_required)
receive s empty now = (s, none)
receive s (heartbeat current_revision) now = beat s (mark_heartbeat s.state current_revision now)
receive s (event e) now = applied (apply_event s e now)

-- The loop of `watch`: what `Recv` returns, then its error.
unfoldable pub watch_loop : Subscriber → List (Response × Time) → Subscriber × SubscriberError
unfolding receive
watch_loop s [] = (record s { state = mark_disconnected s.state }, stream_failed)
watch_loop s ((response, now) ∷ rest) =
    let (s', failure) = receive s response now in
    elim failure [ none ↦ watch_loop s' rest | some e ↦ (s', e) ]

-- `watch`: none is a client that refuses the stream; the Boolean is `connected`.
unfoldable pub watch :
    Subscriber → Option (List (Response × Time)) → Subscriber × Bool × SubscriberError
unfolding watch_loop
watch s none = (s, false, stream_failed)
watch s (some responses) =
    let (s', e) = watch_loop (record s { state = mark_connected s.state }) responses in
    (s', true, e)

-- The first adjustment of `nextReconnectBackoff`.
abbrev pub initial_backoff : ℤ → ℤ
initial_backoff initial = if leb_ℤ initial (pos 0) then pos (100 * millisecond) else initial

abbrev pub max_backoff : ℤ → ℤ → ℤ
max_backoff initial max = if ltb_ℤ max initial then initial else max

-- The doubling wraps as `int64` does.
unfoldable pub next_reconnect_backoff : ℤ → ℤ → ℤ → ℤ
next_reconnect_backoff current initial max =
    let initial = initial_backoff initial in
    let max = max_backoff initial max in
    if leb_ℤ current (pos 0)
    then initial
    else if leb_ℤ max current
    then max
    else let next = add_int64 current current in if ltb_ℤ max next then max else next

-- What one turn of `Run` meets: the stream, the snapshot if one is asked for, and whether the context
-- is cancelled after the watch or during the wait.
pub record Round : Type 0 where
  pub stream : Option (List (Response × Time))
  pub recovery : Option RevocationSnapshot
  pub recovery_time : Time
  pub cancelled : Bool
  pub wait_cancelled : Bool

pub data RunError : Type 0 where
  context_cancelled : RunError
  recover_snapshot : SubscriberError → RunError

-- `running` holds the backoff for the next turn.
pub data Ran : Type 0 where
  stopped : Subscriber → RunError → Ran
  running : Subscriber → ℤ → Ran

unfoldable pub recovered : Subscriber × Option SubscriberError → Ran
recovered (s, none) = running s (pos 0)
recovered (s, some e) = stopped s (recover_snapshot e)

-- After an error of `watch` other than `ErrSnapshotRequired`; `watch` always returns an error.
unfoldable pub reconnect : Subscriber → ℤ → Bool → Ran
unfolding next_reconnect_backoff
reconnect s backoff wait_cancelled =
    let s' : Subscriber = record s { state = mark_disconnected s.state } in
    if wait_cancelled
    then stopped s' context_cancelled
    else running s'
        (next_reconnect_backoff backoff s.reconnect_initial_backoff s.reconnect_max_backoff)

unfoldable pub after_watch : Subscriber → Bool → SubscriberError → ℤ → Round → Ran
unfolding recovered reconnect load_snapshot
after_watch s connected snapshot_required backoff r =
    recovered (load_snapshot (record s { state = mark_unsafe s.state }) r.recovery r.recovery_time)
after_watch s connected _ backoff r =
    reconnect s (if connected then pos 0 else backoff) r.wait_cancelled

-- One turn of the loop of `Run`.
unfoldable pub run_round : Subscriber → ℤ → Round → Ran
unfolding watch after_watch
run_round s backoff r =
    let (s', connected, e) = watch s r.stream in
    if r.cancelled
    then stopped (record s' { state = mark_disconnected s'.state }) context_cancelled
    else after_watch s' connected e backoff r

-- The loop of `Run`, for as many turns as the script has.
unfoldable pub run_rounds : Subscriber → ℤ → List Round → Ran
unfolding run_round
run_rounds s backoff [] = running s backoff
run_rounds s backoff (r ∷ rs) = elim (run_round s backoff r) [
  | stopped s' e ↦ stopped s' e
  | running s' backoff' ↦ run_rounds s' backoff' rs
]
