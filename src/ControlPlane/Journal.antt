-- ===== src/ControlPlane/Journal.antt =====
-- internal/controlplane/journal.go: the authoritative journal of revocations. The mutex makes each
-- method one atomic step. Revisions are `uint64`; the wrap-around of `revision++` is written out.
pub mod Validity
pub mod Completeness
use hacp_sidecar.Common.{
  ℕ, zero, suc, ◌+◌, ◌-◌, ◌/◌, ◌%◌, String, Bool, true, false, ◌&&◌, ◌||◌, List, [], ◌∷◌, ◌++◌, ltb,
  leb, ◌==◌, str_eq, if◌then◌else◌,
}
use hacp_sidecar.Common.Int.{two_64}
use Prim.Native.Nat.{Ordering}
use Prim.Native.String.{compare}

-- The protobuf enumeration of gen/controlplane/v1, which is open: `other` is any other number.
pub data RevocationKind : Type 0 where
  unspecified key token envelope parent_envelope : RevocationKind
  other : ℕ → RevocationKind

-- The number of a kind in the enumeration.
abbrev pub kind_number : RevocationKind → ℕ
kind_number unspecified = 0
kind_number key = 1
kind_number token = 2
kind_number envelope = 3
kind_number parent_envelope = 4
kind_number (other n) = 5 + n

pub record RevocationEntry : Type 0 where
  pub kind : RevocationKind
  pub subject_id : String

pub record RevocationEvent : Type 0 where
  pub revision : ℕ
  pub event_id : List ℕ
  pub kind : RevocationKind
  pub subject_id : String
  pub issued_at_ms : ℕ

pub record RevocationSnapshot : Type 0 where
  pub revision : ℕ
  pub entries : List RevocationEntry
  pub generated_at_ms : ℕ

-- `revoked` is the set of the (kind, subject) pairs of the nested map, in the order of their
-- revocation; `notify` numbers the channel that is current, so a commit, which closes one channel
-- and makes the next, adds 1.
pub record Journal : Type 0 where
  pub revision : ℕ
  pub events : List RevocationEvent
  pub revoked : List RevocationEntry
  pub notify : ℕ

unfoldable pub new_journal : Journal
new_journal = record { revision = 0; events = []; revoked = []; notify = 0 }

pub data JournalError : Type 0 where
  invalid_revocation_kind : RevocationKind → JournalError
  empty_subject_id : JournalError

-- The results of `Revoke`: an error, a duplicate, or the committed event.
pub data Revoked : Type 0 where
  invalid : JournalError → Revoked
  duplicate : Revoked
  created : RevocationEvent → Revoked

abbrev pub is_valid_kind : RevocationKind → Bool
is_valid_kind key = true
is_valid_kind token = true
is_valid_kind envelope = true
is_valid_kind parent_envelope = true
is_valid_kind _ = false

unfoldable pub contains_entry : RevocationKind → String → List RevocationEntry → Bool
contains_entry k id [] = false
contains_entry k id (e ∷ es) =
    (kind_number e.kind == kind_number k && str_eq e.subject_id id) || contains_entry k id es

-- `%0wd`: the last `w` decimal digits.
unfoldable pub pad_decimal : ℕ → ℕ → List ℕ
pad_decimal zero n = []
pad_decimal (suc w) n = pad_decimal w (n / 10) ++ (b'0' + n % 10) ∷ []

-- "revocation-%020d"
unfoldable pub event_id : ℕ → List ℕ
unfolding pad_decimal
event_id revision =
    b'r'
    ∷ b'e'
    ∷ b'v'
    ∷ b'o'
    ∷ b'c'
    ∷ b'a'
    ∷ b't'
    ∷ b'i'
    ∷ b'o'
    ∷ b'n'
    ∷ b'-'
    ∷ pad_decimal 20 revision

-- The part of `Revoke` after validation and the test for a duplicate.
unfoldable pub commit : Journal → RevocationKind → String → ℕ → Journal × RevocationEvent
commit j kind subject_id now_ms =
    let revision = (j.revision + 1) % two_64 in
    let event : RevocationEvent = record {
      revision = revision;
      event_id = event_id revision;
      kind = kind;
      subject_id = subject_id;
      issued_at_ms = now_ms;
    } in
    (
      record {
        revision = revision;
        events = j.events ++ event ∷ [];
        revoked = j.revoked ++ record { kind = kind; subject_id = subject_id } ∷ [];
        notify = j.notify + 1;
      },
      event,
    )

unfoldable pub revoke : Journal → RevocationKind → String → ℕ → Journal × Revoked
revoke j kind subject_id now_ms =
    if str_eq subject_id ""
    then (j, invalid empty_subject_id)
    else if is_valid_kind kind
    then (if contains_entry kind subject_id j.revoked
        then (j, duplicate)
        else let (j', event) = commit j kind subject_id now_ms in (j', created event))
    else (j, invalid (invalid_revocation_kind kind))

-- The order of `Snapshot`: by the kind's number, then by the subject.
unfoldable pub entry_before : RevocationEntry → RevocationEntry → Bool
entry_before a b =
    if kind_number a.kind == kind_number b.kind
    then elim (compare a.subject_id b.subject_id) [ Ordering.lt ↦ true | _ ↦ false ]
    else ltb (kind_number a.kind) (kind_number b.kind)

-- `sort.Slice`: any sort gives this list, since no two entries are equal.
unfoldable pub insert_entry : RevocationEntry → List RevocationEntry → List RevocationEntry
unfolding entry_before
insert_entry e [] = e ∷ []
insert_entry e (x ∷ xs) = if entry_before e x then e ∷ x ∷ xs else x ∷ insert_entry e xs

unfoldable pub sort_entries : List RevocationEntry → List RevocationEntry
unfolding insert_entry
sort_entries [] = []
sort_entries (e ∷ es) = insert_entry e (sort_entries es)

unfoldable pub snapshot : Journal → ℕ → RevocationSnapshot
snapshot j now_ms = record {
  revision = j.revision;
  entries = sort_entries j.revoked;
  generated_at_ms = now_ms;
}

-- The results of `EventsAfter`: the two errors with what their texts name, or the events and the
-- channel that a caller waits on.
pub data Events : Type 0 where
  revision_ahead : ℕ → ℕ → Events
  replay_unavailable : ℕ → ℕ → ℕ → Events
  replay : List RevocationEvent → ℕ → Events

-- The loop of `EventsAfter`.
unfoldable pub newer : ℕ → List RevocationEvent → List RevocationEvent
newer after_revision [] = []
newer after_revision (e ∷ es) =
    let rest = newer after_revision es in if ltb after_revision e.revision then e ∷ rest else rest

-- Whether the event that follows the revision has been compacted away; `oldest - 1` does not wrap,
-- since `oldest` is not 0.
unfoldable pub is_compacted : ℕ → List RevocationEvent → Bool
is_compacted after_revision [] = false
is_compacted after_revision (e ∷ es) = ltb 0 e.revision && ltb after_revision (e.revision - 1)

-- `OldestAvailableRevision`, which wraps as `uint64` does.
unfoldable pub oldest_from : ℕ → List RevocationEvent → ℕ
oldest_from revision [] = (revision + 1) % two_64
oldest_from revision (e ∷ es) = e.revision

unfoldable pub oldest_available_revision : Journal → ℕ
unfolding oldest_from
oldest_available_revision j = oldest_from j.revision j.events

unfoldable pub events_after : Journal → ℕ → Events
events_after j after_revision =
    if ltb j.revision after_revision
    then revision_ahead after_revision j.revision
    else if is_compacted after_revision j.events
    then replay_unavailable after_revision (oldest_available_revision j) j.revision
    else if after_revision == j.revision
    then replay [] j.notify
    else replay (newer after_revision j.events) j.notify

-- The loop of `CompactThrough`, and the events that it keeps.
unfoldable pub drop_through : ℕ → List RevocationEvent → List RevocationEvent
drop_through revision [] = []
drop_through revision (e ∷ es) =
    let rest = drop_through revision es in if leb e.revision revision then rest else e ∷ es

unfoldable pub compact_through : Journal → ℕ → Journal
compact_through j revision = record j { events = drop_through revision j.events }
