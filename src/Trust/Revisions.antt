-- ===== src/Trust/Revisions.antt =====
-- internal/trust/store.go: the revisions of the active snapshot over a sequence of replacements.
use hacp_sidecar.Common.{
  ◌<◌, ◌≡◌, ◌⊎◌, inl, inr, refl, sym, subst, none, some, List, [], ◌∷◌, arith, ltb, str_eq, eq_iff,
  ◌==◌, Bool-cases,
}
use hacp_sidecar.Wire.{Crypto}
use hacp_sidecar.Trust.{TrustSnapshot, TrustError, Result, ok, failed, validate, rejected_snapshot}
use hacp_sidecar.Trust.Store.{AtomicTrustStore, Replaced, activated, replace_active, replace}

-- Calls of `Replace`, one after the other.
unfoldable pub replace_all : Crypto → AtomicTrustStore → List TrustSnapshot → AtomicTrustStore
unfolding replace
replace_all c s [] = s
replace_all c s (x ∷ xs) = replace_all c (replace c s x).store xs

unfoldable pub Offered : TrustSnapshot → List TrustSnapshot → Type 0
Offered b [] = ⊥
Offered b (x ∷ xs) = (b ≡ x) ⊎ Offered b xs

-- What one call does to a store with the active snapshot `a`.
pub data Step (c : Crypto) (s : AtomicTrustStore) (a x : TrustSnapshot) : Replaced → Type 0 where
  refused : (e : TrustError) → Step c s a x (record { store = s; error = some e })
  repeated :
      (a.revision ≡ x.revision)
      → (a.fingerprint ≡ x.fingerprint)
      → Step c s a x (record { store = s; error = none })
  advanced :
      (a.revision < x.revision)
      → (validate c x ≡ ok tt)
      → Step c s a x (record { store = record { active = some x }; error = none })

replace_active-Step :
    (c : Crypto) (a x : TrustSnapshot)
    → validate c x ≡ ok tt
    → Step c
        (record { active = some a })
        a
        x
        (activated (record { active = some a }) (replace_active a x))
unfolding replace_active
replace_active-Step c a x valid = elim (Bool-cases (ltb x.revision a.revision)) [
  | inl older ↦ rw (older, replace_active) (refused _)
  | inr current ↦ elim (Bool-cases (x.revision == a.revision)) [
    | inr newer ↦ rw (current, newer, replace_active) (advanced (ground arith) valid)
    | inl same ↦ elim (Bool-cases (str_eq x.fingerprint a.fingerprint)) [
      | inr changed ↦ rw (current, same, changed, replace_active) (refused _)
      | inl unchanged ↦
          rw (current, same, unchanged, replace_active)
            (repeated (ground arith) (sym ((eq_iff _ _).0 unchanged)))
    ]
  ]
]

pub replace-Step :
    (c : Crypto) (a x : TrustSnapshot)
    → Step c (record { active = some a }) a x (replace c (record { active = some a }) x)
unfolding replace
replace-Step c a x = go (validate c x) refl
  where
    go :
        (r : Result (Unit {0}))
        → validate c x ≡ r
        → Step c (record { active = some a }) a x (replace c (record { active = some a }) x)
    go (failed e) h = rw (h, replace) (refused (rejected_snapshot e))
    go (ok tt) h = rw (h, replace) (replace_active-Step c a x h)

-- The active snapshot is still `a`, or a valid one of the offered ones with a later revision.
abbrev pub Later : Crypto → TrustSnapshot → List TrustSnapshot → TrustSnapshot → Type 0
Later c a xs b = (b ≡ a) ⊎ (Offered b xs × ((a.revision < b.revision) × (validate c b ≡ ok tt)))

after_unchanged :
    (c : Crypto) (a b x : TrustSnapshot) (xs : List TrustSnapshot)
    → Later c a xs b
    → Later c a (x ∷ xs) b
unfolding Offered
after_unchanged c a b x xs (inl same) = inl same
after_unchanged c a b x xs (inr (offered, newer)) = inr (inr offered, newer)

after_advance :
    (c : Crypto) (a b x : TrustSnapshot) (xs : List TrustSnapshot)
    → a.revision < x.revision
    → validate c x ≡ ok tt
    → Later c x xs b
    → Later c a (x ∷ xs) b
unfolding Offered
after_advance c a b x xs newer valid (inl same) = inr (
  inl same,
  (subst (λ t. (a.revision < t.revision) × (validate c t ≡ ok tt)) (sym same) (newer, valid)),
)
after_advance c a b x xs newer valid (inr (offered, (later, ok_b))) =
    inr (inr offered, (omega arith, ok_b))

-- Over any sequence of replacements the active snapshot stays as it is, whole, or it is one of the
-- offered snapshots that is valid and has a later revision: its revision never goes back, and two
-- snapshots with one revision never follow each other.
pub replace_all-Later :
    (c : Crypto) (a : TrustSnapshot) (xs : List TrustSnapshot)
    → (b : TrustSnapshot) × (replace_all c (record { active = some a }) xs
        ≡ record { active = some b })
      × Later c a xs b
unfolding replace_all
replace_all-Later c a [] = (a, refl, inl refl)
replace_all-Later c a (x ∷ xs) =
    go (replace c (record { active = some a }) x) (replace-Step c a x)
      (λ y. replace_all-Later c y xs)
  where
    go :
        (r : Replaced)
        → Step c (record { active = some a }) a x r
        → ((y : TrustSnapshot)
            → (b : TrustSnapshot) × (replace_all c (record { active = some y }) xs
                ≡ record { active = some b })
              × Later c y xs b)
        → (b : TrustSnapshot) × (replace_all c r.store xs ≡ record { active = some b })
          × Later c a (x ∷ xs) b
    go _ (refused e) rest = let (b, e, l) = rest a in (b, e, after_unchanged c a b x xs l)
    go _ (repeated r f) rest = let (b, e, l) = rest a in (b, e, after_unchanged c a b x xs l)
    go _ (advanced n v) rest = let (b, e, l) = rest x in (b, e, after_advance c a b x xs n v l)
