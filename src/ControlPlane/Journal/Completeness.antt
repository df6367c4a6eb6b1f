-- ===== src/ControlPlane/Journal/Completeness.antt =====
-- internal/controlplane/journal.go: what `EventsAfter` gives a watcher of the journal.
use hacp_sidecar.Common.{
  drop-drop, ℕ, zero, suc, ◌+◌, ◌≤◌, ◌<◌, ◌≡◌, ◌≢◌, refl, sym, subst, true, false, List, [], ◌∷◌,
  arith, ltb, length, drop,
}
use native.Mathlib.Nat.{add-zero}
use hacp_sidecar.ControlPlane.Journal.{
  RevocationEntry, RevocationEvent, Journal, replay, revision_ahead, replay_unavailable, newer,
  is_compacted, oldest_from, oldest_available_revision, events_after, drop_through, compact_through,
}
use hacp_sidecar.ControlPlane.Journal.Validity.{Chain, IsValid}

newer_all :
    (a n : ℕ) (es : List RevocationEvent) (xs : List RevocationEntry)
    → Chain n es xs
    → a ≤ n
    → newer a es ≡ es
unfolding newer
newer_all a n [] xs c h = refl
newer_all a n (e ∷ es) [] c h = absurd c
newer_all a n (e ∷ es) (x ∷ xs) c h = ground (arith, newer_all a (suc n) es xs c.1)

newer-Chain :
    (k n : ℕ) (es : List RevocationEvent) (xs : List RevocationEntry)
    → Chain n es xs
    → k ≤ length es
    → Chain (n + k) (newer (n + k) es) (drop k xs)
unfolding newer
newer-Chain zero n es xs c h = rw (add-zero, newer_all n n es xs c (omega arith)) c
newer-Chain (suc k) n [] xs c h = absurd (omega arith)
newer-Chain (suc k) n (e ∷ es) [] c h = absurd c
newer-Chain (suc k) n (e ∷ es) (x ∷ xs) c h =
    let old : ltb (n + suc k) e.revision ≡ false = ground arith in
    let next : n + suc k ≡ suc n + k = omega arith in
    subst (λ m. Chain m (newer (n + suc k) (e ∷ es)) (drop k xs)) (sym next)
      (rw (newer, old)
        (subst (λ m. Chain (suc n + k) (newer m es) (drop k xs)) (sym next)
          (newer-Chain k (suc n) es xs c.1 (omega arith))))

newer_none :
    (a n : ℕ) (es : List RevocationEvent) (xs : List RevocationEntry)
    → Chain n es xs
    → n + length es ≤ a
    → newer a es ≡ []
unfolding newer
newer_none a n [] xs c h = refl
newer_none a n (e ∷ es) [] c h = absurd c
newer_none a n (e ∷ es) (x ∷ xs) c h = ground (arith, newer_none a (suc n) es xs c.1)

kept :
    (base : ℕ) (es : List RevocationEvent) (xs : List RevocationEntry) (a : ℕ)
    → Chain base es xs
    → base ≤ a
    → is_compacted a es ≡ false
unfolding is_compacted
kept base [] xs a c h = refl
kept base (e ∷ es) [] a c h = absurd c
kept base (e ∷ es) (x ∷ xs) a c h = ground arith

compacted :
    (base : ℕ) (es : List RevocationEvent) (xs : List RevocationEntry) (a revision : ℕ)
    → Chain base es xs
    → a < base
    → es ≢ []
    → (is_compacted a es ≡ true) × (oldest_from revision es ≡ suc base)
unfolding is_compacted oldest_from
compacted base [] xs a revision c h ne = absurd (ne refl)
compacted base (e ∷ es) [] a revision c h ne = absurd c
compacted base (e ∷ es) (x ∷ xs) a revision c h ne = (ground arith, c.0.0)

-- A watcher of a valid journal, at a revision that the retained history reaches, is given exactly the revocations after
-- that revision, in order, numbered without a gap up to the journal's revision.
pub events_after_complete :
    (j : Journal) (v : IsValid j) (k : ℕ)
    → v.base + k ≤ j.revision
    → (es : List RevocationEvent) × (events_after j (v.base + k) ≡ replay es j.notify)
      × Chain (v.base + k) es (drop (v.base + k) j.revoked)
unfolding events_after
events_after_complete j v k h = (
  newer (v.base + k) j.events,
  ground (
    arith,
    kept v.base j.events (drop v.base j.revoked) (v.base + k) v.chained,
    newer_none (v.base + k) v.base j.events (drop v.base j.revoked) v.chained,
    v.retained,
  ),
  rw (← drop-drop k v.base j.revoked)
      (newer-Chain k v.base j.events (drop v.base j.revoked) v.chained (omega (arith, v.retained))),
)

-- A watcher of a valid journal that is beyond its revision, or behind its retained events where it
-- has some, is refused, with the revisions that the watcher has to know.
pub events_after-refused :
    (j : Journal) (v : IsValid j) (a : ℕ)
    → (j.revision < a → events_after j a ≡ revision_ahead a j.revision)
      × ((a < v.base)
          → (j.events ≢ [])
          → events_after j a ≡ replay_unavailable a (suc v.base) j.revision)
unfolding events_after oldest_available_revision
events_after-refused j v a = (
  λ h. ground arith,
  λ behind some_events.
      let (gone, oldest) =
        compacted v.base j.events (drop v.base j.revoked) a j.revision v.chained behind
          some_events in
      let within : ltb j.revision a ≡ false = ground (arith, v.retained) in
      rw (within, gone, oldest_available_revision, oldest) refl,
)

drop_through-all :
    (r n : ℕ) (es : List RevocationEvent) (xs : List RevocationEntry)
    → Chain n es xs
    → n + length es ≤ r
    → drop_through r es ≡ []
unfolding drop_through
drop_through-all r n [] xs c h = refl
drop_through-all r n (e ∷ es) [] c h = absurd c
drop_through-all r n (e ∷ es) (x ∷ xs) c h = ground (arith, drop_through-all r (suc n) es xs c.1)

pub events_after-nothing :
    (j : Journal) (a : ℕ) → j.events ≡ [] → a < j.revision → events_after j a ≡ replay [] j.notify
unfolding events_after is_compacted newer
events_after-nothing j a e h = ground arith

-- Once `CompactThrough` of a valid journal has been called with the current revision or a later one, a watcher that is
-- behind is not refused: it is given no event and a channel to wait on, as if it were up to date.
pub events_after-silent :
    (j : Journal) (r a : ℕ)
    → IsValid j
    → j.revision ≤ r
    → a < j.revision
    → events_after (compact_through j r) a ≡ replay [] j.notify
unfolding compact_through
events_after-silent j r a v h behind =
    events_after-nothing (compact_through j r) a
      (drop_through-all r v.base j.events (drop v.base j.revoked) v.chained
        (omega (arith, v.retained)))
      behind
