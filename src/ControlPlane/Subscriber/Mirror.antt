-- ===== src/ControlPlane/Subscriber/Mirror.antt =====
-- The subscriber's local store as a mirror of the journal.
use hacp_sidecar.Common.{
  ℕ, zero, suc, String, ◌≡◌, refl, Bool, true, false, ◌&&◌, ◌||◌, none, some, List, [], ◌∷◌, ◌++◌,
  arith, str_eq, drop, ap, ◌∙◌, ◌⊎◌, inl, inr, Bool-cases,
}
use hacp_sidecar.Common.Time.{Time}
use hacp_sidecar.Common.Strings.{contains}
use hacp_sidecar.Revocation.Laws.{Class, key, token, envelope}
use hacp_sidecar.ControlPlane.Adapter.{is_revoked}
use hacp_sidecar.ControlPlane.Adapter.Replacement.{select, is_revoked-replace}
use hacp_sidecar.ControlPlane.Journal.{
  RevocationKind, RevocationEntry, Journal, is_valid_kind, entry_before, insert_entry, sort_entries,
  snapshot,
}
use hacp_sidecar.ControlPlane.Journal.Validity.{KindsValid, IsValid}
use hacp_sidecar.ControlPlane.Subscriber.{
  Subscriber, Subjects, Target, to_keys, to_tokens, to_envelopes, target, split_entries,
  load_snapshot, materialize,
}

-- Whether a target of the local store is the class.
abbrev pub in_class : Target → Class → Bool
in_class to_keys key = true
in_class to_tokens token = true
in_class to_envelopes envelope = true
in_class _ _ = false

-- Whether one of the revocations is of the subject, in the class.
unfoldable pub revoked_in : List RevocationEntry → Class → String → Bool
revoked_in [] c id = false
revoked_in (e ∷ es) c id =
    (in_class (target e.kind) c && str_eq e.subject_id id) || revoked_in es c id

-- The local store answers as the revocations do, and the cursor is at `n`.
abbrev pub Mirrors : Subscriber → ℕ → List RevocationEntry → Type 0
Mirrors s n xs =
    (s.last_seen_revision ≡ n)
    × ((c : Class) (id : String) → is_revoked s.store c id ≡ revoked_in xs c id)

pub revoked_in-append :
    (xs ys : List RevocationEntry) (c : Class) (id : String)
    → revoked_in (xs ++ ys) c id ≡ (revoked_in xs c id || revoked_in ys c id)
unfolding revoked_in
revoked_in-append [] ys c id = refl
revoked_in-append (x ∷ xs) ys c id = ground (arith, revoked_in-append xs ys c id)

revoked_in-insert :
    (x : RevocationEntry) (xs : List RevocationEntry) (c : Class) (id : String)
    → revoked_in (insert_entry x xs) c id ≡ revoked_in (x ∷ xs) c id
unfolding revoked_in insert_entry
revoked_in-insert x [] c id = refl
revoked_in-insert x (y ∷ ys) c id = elim (Bool-cases (entry_before x y)) [
  | inl before ↦ rw (before, insert_entry) refl
  | inr after ↦ rw (after, insert_entry) (ground (arith, revoked_in-insert x ys c id))
]

revoked_in-sort :
    (xs : List RevocationEntry) (c : Class) (id : String)
    → revoked_in (sort_entries xs) c id ≡ revoked_in xs c id
unfolding revoked_in sort_entries
revoked_in-sort [] c id = refl
revoked_in-sort (x ∷ xs) c id =
    ground (arith, revoked_in-insert x (sort_entries xs) c id, revoked_in-sort xs c id)

insert-KindsValid :
    (x : RevocationEntry) (xs : List RevocationEntry)
    → is_valid_kind x.kind ≡ true
    → KindsValid xs
    → KindsValid (insert_entry x xs)
unfolding insert_entry
insert-KindsValid x [] k h = (k, tt)
insert-KindsValid x (y ∷ ys) k h = elim (Bool-cases (entry_before x y)) [
  | inl before ↦ rw (before, insert_entry) (k, h)
  | inr after ↦ rw (after, insert_entry) (h.0, insert-KindsValid x ys k h.1)
]

sort-KindsValid : (xs : List RevocationEntry) → KindsValid xs → KindsValid (sort_entries xs)
unfolding sort_entries
sort-KindsValid [] h = tt
sort-KindsValid (x ∷ xs) h = insert-KindsValid x (sort_entries xs) h.0 (sort-KindsValid xs h.1)

pub drop-KindsValid : (n : ℕ) (xs : List RevocationEntry) → KindsValid xs → KindsValid (drop n xs)
drop-KindsValid zero xs h = h
drop-KindsValid (suc n) [] h = tt
drop-KindsValid (suc n) (x ∷ xs) h = drop-KindsValid n xs h.1

-- Every valid kind has a place in the local store.
pub Valid-target :
    (k : RevocationKind)
    → is_valid_kind k ≡ true
    → (target k ≡ to_keys) ⊎ ((target k ≡ to_tokens) ⊎ (target k ≡ to_envelopes))
Valid-target RevocationKind.unspecified h = absurd (ground arith)
Valid-target RevocationKind.key h = inl refl
Valid-target RevocationKind.token h = inr (inl refl)
Valid-target RevocationKind.envelope h = inr (inr refl)
Valid-target RevocationKind.parent_envelope h = inr (inr refl)
Valid-target (RevocationKind.other n) h = absurd (ground arith)

-- The three slices hold the entries of a snapshot.
Holds : Subjects → List RevocationEntry → Type 0
Holds r es =
    (c : Class) (id : String)
    → contains id (select c r.keys r.tokens r.envelopes) ≡ revoked_in es c id

holds_nothing : (c : Class) (id : String) → contains id (select c [] [] []) ≡ revoked_in [] c id
unfolding revoked_in contains
holds_nothing key id = refl
holds_nothing token id = refl
holds_nothing envelope id = refl

keys_answer :
    (c : Class) (x id : String) (r : Subjects)
    → contains id (select c (x ∷ r.keys) r.tokens r.envelopes)
      ≡ ((in_class to_keys c && str_eq x id) || contains id (select c r.keys r.tokens r.envelopes))
unfolding contains
keys_answer key x id r = refl
keys_answer token x id r = refl
keys_answer envelope x id r = refl

tokens_answer :
    (c : Class) (x id : String) (r : Subjects)
    → contains id (select c r.keys (x ∷ r.tokens) r.envelopes) ≡ (
        (in_class to_tokens c && str_eq x id) || contains id (select c r.keys r.tokens r.envelopes))
unfolding contains
tokens_answer key x id r = refl
tokens_answer token x id r = refl
tokens_answer envelope x id r = refl

envelopes_answer :
    (c : Class) (x id : String) (r : Subjects)
    → contains id (select c r.keys r.tokens (x ∷ r.envelopes)) ≡ (
        (in_class to_envelopes c && str_eq x id)
        || contains id (select c r.keys r.tokens r.envelopes))
unfolding contains
envelopes_answer key x id r = refl
envelopes_answer token x id r = refl
envelopes_answer envelope x id r = refl

split_entries-Holds :
    (es : List RevocationEntry)
    → KindsValid es
    → (r : Subjects) × (split_entries es ≡ some r) × Holds r es
unfolding split_entries revoked_in contains Holds
split_entries-Holds [] h = (record { keys = []; tokens = []; envelopes = [] }, refl, holds_nothing)
split_entries-Holds (e ∷ es) h =
    let (r, split, holds) = split_entries-Holds es h.1 in
    elim (Valid-target e.kind h.0) [
      | inl k ↦ (
        record r { keys = e.subject_id ∷ r.keys },
        rw (split_entries, split, k) refl,
        λ c id. rw k (
            keys_answer c e.subject_id id r
            ∙ ap (λ b. (in_class to_keys c && str_eq e.subject_id id) || b) (holds c id)),
      )
      | inr (inl t) ↦ (
        record r { tokens = e.subject_id ∷ r.tokens },
        rw (split_entries, split, t) refl,
        λ c id. rw t (
            tokens_answer c e.subject_id id r
            ∙ ap (λ b. (in_class to_tokens c && str_eq e.subject_id id) || b) (holds c id)),
      )
      | inr (inr v) ↦ (
        record r { envelopes = e.subject_id ∷ r.envelopes },
        rw (split_entries, split, v) refl,
        λ c id. rw v (
            envelopes_answer c e.subject_id id r
            ∙ ap (λ b. (in_class to_envelopes c && str_eq e.subject_id id) || b) (holds c id)),
      )
    ]

-- A snapshot of a valid journal is loaded and makes the local store a mirror of the whole journal, whatever the store
-- held before: every kind has its place, and the order of the entries does not matter.
pub load_snapshot-Mirrors :
    (s : Subscriber) (j : Journal) (generated now : Time)
    → IsValid j
    → ((load_snapshot s (some (snapshot j generated)) now).1 ≡ none)
      × Mirrors (load_snapshot s (some (snapshot j generated)) now).0 j.revision j.revoked
unfolding load_snapshot snapshot materialize Holds
load_snapshot-Mirrors s j generated now v =
    let (r, split, holds) =
      split_entries-Holds (sort_entries j.revoked) (sort-KindsValid j.revoked v.kinds) in
    rw split (
      refl,
      (
        refl,
        λ c id.
            is_revoked-replace s.store r.keys r.tokens r.envelopes now c id
            ∙ holds c id
            ∙ revoked_in-sort j.revoked c id,
      ),
    )
