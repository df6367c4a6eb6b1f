-- ===== src/ControlPlane/Journal/Validity.antt =====
-- The journal's invariant: its events are the last of its revocations, numbered without a gap up to
-- the revision, which counts the revocations.
use hacp_sidecar.Common.{
  drop-append, drop-drop, ℕ, suc, ◌+◌, ◌<◌, String, ◌≡◌, refl, inl, inr, true, List, [], ◌∷◌, ◌++◌,
  arith, leb, length, drop, length-append, str_eq, Bool-cases,
}
use native.Mathlib.Nat.{add-zero, add-suc, suc-add}
use hacp_sidecar.Common.Int.{two_64}
use hacp_sidecar.ControlPlane.Journal.{
  RevocationKind, RevocationEntry, RevocationEvent, Journal, new_journal, is_valid_kind, commit,
  revoke, drop_through, compact_through, contains_entry,
}

-- The events carry the entries, with the revisions after `n`.
abbrev pub Chain : ℕ → List RevocationEvent → List RevocationEntry → Type 0
Chain n [] [] = Unit {0}
Chain n [] (x ∷ xs) = ⊥
Chain n (e ∷ es) [] = ⊥
Chain n (e ∷ es) (x ∷ xs) =
    ((e.revision ≡ suc n) × (e.kind ≡ x.kind) × (e.subject_id ≡ x.subject_id)) × Chain (suc n) es xs

abbrev pub KindsValid : List RevocationEntry → Type 0
KindsValid [] = Unit {0}
KindsValid (x ∷ xs) = (is_valid_kind x.kind ≡ true) × KindsValid xs

-- `base` is the last revision that compaction has removed.
pub record IsValid (j : Journal) : Type 0 where
  pub base : ℕ
  pub retained : base + length j.events ≡ j.revision
  pub counted : length j.revoked ≡ j.revision
  pub chained : Chain base j.events (drop base j.revoked)
  pub kinds : KindsValid j.revoked

pub new_journal-IsValid : IsValid new_journal
unfolding new_journal
new_journal-IsValid = record { base = 0; retained = refl; counted = refl; chained = tt; kinds = tt }

KindsValid-append :
    (xs : List RevocationEntry) (x : RevocationEntry)
    → KindsValid xs
    → is_valid_kind x.kind ≡ true
    → KindsValid (xs ++ x ∷ [])
KindsValid-append [] x h k = (k, tt)
KindsValid-append (y ∷ xs) x h k = (h.0, KindsValid-append xs x h.1 k)

Chain-append :
    (n : ℕ) (es : List RevocationEvent) (xs : List RevocationEntry) (e : RevocationEvent)
    (x : RevocationEntry)
    → Chain n es xs
    → (e.revision ≡ suc (n + length es)) × (e.kind ≡ x.kind) × (e.subject_id ≡ x.subject_id)
    → Chain n (es ++ e ∷ []) (xs ++ x ∷ [])
Chain-append n [] [] e x c h = ((omega (arith, h.0), h.1, h.2), tt)
Chain-append n [] (y ∷ xs) e x c h = absurd c
Chain-append n (d ∷ es) [] e x c h = absurd c
Chain-append n (d ∷ es) (y ∷ xs) e x c h =
    (c.0, Chain-append (suc n) es xs e x c.1 (omega (arith, h.0), h.1, h.2))

commit-IsValid :
    (j : Journal) (kind : RevocationKind) (subject_id : String) (now_ms : ℕ)
    → IsValid j
    → is_valid_kind kind ≡ true
    → j.revision + 1 < two_64
    → IsValid (commit j kind subject_id now_ms).0
unfolding commit
commit-IsValid j kind subject_id now_ms v k fits =
    let x : RevocationEntry = record { kind = kind; subject_id = subject_id } in
    let e = (commit j kind subject_id now_ms).1 in
    record {
      base = v.base;
      retained = omega (arith, length-append {0} j.events (e ∷ []), v.retained);
      counted = omega (arith, length-append {0} j.revoked (x ∷ []), v.counted);
      chained = rw (drop-append v.base j.revoked (x ∷ []) (omega (arith, v.retained, v.counted))) (
          Chain-append v.base j.events (drop v.base j.revoked) e x v.chained
            (omega (arith, v.retained), refl, refl));
      kinds = KindsValid-append j.revoked x v.kinds k;
    }

-- `Revoke` keeps the invariant on every branch, while the revision fits its 64 bits.
pub revoke-IsValid :
    (j : Journal) (kind : RevocationKind) (subject_id : String) (now_ms : ℕ)
    → IsValid j
    → j.revision + 1 < two_64
    → IsValid (revoke j kind subject_id now_ms).0
unfolding revoke
revoke-IsValid j kind subject_id now_ms v fits = elim (Bool-cases (str_eq subject_id "")) [
  | inl e ↦ rw (e, revoke) v
  | inr ne ↦ elim (Bool-cases (is_valid_kind kind)) [
    | inr bad ↦ rw (ne, bad, revoke) v
    | inl good ↦ elim (Bool-cases (contains_entry kind subject_id j.revoked)) [
      | inl old ↦ rw (ne, good, old, revoke) v
      | inr fresh ↦
          rw (ne, good, fresh, revoke) (commit-IsValid j kind subject_id now_ms v good fits)
    ]
  ]
]

-- What is left of a chain after compaction is a chain, further on.
drop_through-Chain :
    (r n : ℕ) (es : List RevocationEvent) (xs : List RevocationEntry)
    → Chain n es xs
    → (k : ℕ) × (k + length (drop_through r es) ≡ length es)
      × Chain (n + k) (drop_through r es) (drop k xs)
unfolding drop_through
drop_through-Chain r n [] [] c = (0, refl, tt)
drop_through-Chain r n [] (x ∷ xs) c = absurd c
drop_through-Chain r n (e ∷ es) [] c = absurd c
drop_through-Chain r n (e ∷ es) (x ∷ xs) c = elim (Bool-cases (leb e.revision r)) [
  | inl old ↦
      let (k, len, rest) = drop_through-Chain r (suc n) es xs c.1 in
      (
        suc k,
        rw (old, drop_through) (omega (arith, len)),
        rw (old, drop_through, add-suc, ← suc-add) rest,
      )
  | inr new ↦ (0, rw (new, drop_through) (omega arith), rw (new, drop_through, add-zero) c)
]

-- Compaction keeps the invariant, and so the revocations that a snapshot holds.
pub compact_through-IsValid :
    (j : Journal) (r : ℕ)
    → IsValid j
    → IsValid (compact_through j r) × ((compact_through j r).revoked ≡ j.revoked)
unfolding compact_through
compact_through-IsValid j r v =
    let (k, len, rest) = drop_through-Chain r v.base j.events (drop v.base j.revoked) v.chained in
    (
      record {
        base = v.base + k;
        retained = omega (arith, len, v.retained);
        counted = v.counted;
        chained = rw (← drop-drop k v.base j.revoked) rest;
        kinds = v.kinds;
      },
      refl,
    )
