-- ===== src/Trust/Digest.antt =====
-- internal/trust/snapshot.go: what `fingerprintKeys` writes to the hash.
use hacp_sidecar.Common.{
  String, ◌≡◌, ◌≢◌, refl, sym, ap, ◌∙◌, true, Option, none, some, List, [], ◌∷◌, ◌++◌, arith,
  length, str_eq, eq_iff, Bool-cases, inl, inr, subst,
}
use hacp_sidecar.Common.Strings.{lookup, contains}
use hacp_sidecar.Common.Utf8.{
  codes, codes-injective, utf8, utf8_codes, utf8_codes_unique, has_no_nul,
}
use hacp_sidecar.Wire.{Bytes, public_key_size}
use hacp_sidecar.Trust.{or_empty, hashed}

-- Each id is without a NUL and has a key of the right size.
unfoldable pub IsKeyed : List (String × Bytes) → List String → Type 0
IsKeyed keys [] = Unit {0}
IsKeyed keys (k ∷ ids) =
    (has_no_nul (codes k) ≡ true)
    × (length (or_empty (lookup k keys)) ≡ public_key_size)
    × IsKeyed keys ids

unfoldable pub SameKeys : List (String × Bytes) → List (String × Bytes) → List String → Type 0
SameKeys keys others [] = Unit {0}
SameKeys keys others (k ∷ ids) = (lookup k keys ≡ lookup k others) × SameKeys keys others ids

append_unique : (a b r s : Bytes) → length a ≡ length b → a ++ r ≡ b ++ s → (a ≡ b) × (r ≡ s)
append_unique [] [] r s l h = (refl, h)
append_unique [] (y ∷ b) r s l h = ground (arith, l)
append_unique (x ∷ a) [] r s l h = ground (arith, l)
append_unique (x ∷ a) (y ∷ b) r s l h =
    let (rest, after) = append_unique a b r s (omega (arith, l)) (cc h) in (cc (rest, h), after)

same_key :
    (a b : Option Bytes)
    → length (or_empty a) ≡ public_key_size
    → length (or_empty b) ≡ public_key_size
    → or_empty a ≡ or_empty b
    → a ≡ b
same_key none none la lb h = refl
same_key none (some y) la lb h = ground (arith, la)
same_key (some x) none la lb h = ground (arith, lb)
same_key (some x) (some y) la lb h = ap some h

not_empty : (xs r : Bytes) → [] ≢ xs ++ (0 ∷ r)
not_empty [] r h = cc h
not_empty (x ∷ xs) r h = cc h

-- The ids and their keys are determined by what is hashed.
pub hashed_unique :
    (keys others : List (String × Bytes)) (ids js : List String)
    → IsKeyed keys ids
    → IsKeyed others js
    → hashed keys ids ≡ hashed others js
    → (ids ≡ js) × SameKeys keys others ids
unfolding hashed IsKeyed SameKeys utf8
hashed_unique keys others [] [] a b h = (refl, tt)
hashed_unique keys others [] (j ∷ js) a b h = absurd (not_empty (utf8_codes (codes j)) _ h)
hashed_unique keys others (k ∷ ids) [] a b h = absurd (not_empty (utf8_codes (codes k)) _ (sym h))
hashed_unique keys others (k ∷ ids) (j ∷ js) (kn, kl, ka) (jn, jl, ja) h =
    let (read, after) = utf8_codes_unique (codes k) (codes j) _ _ kn jn h in
    let first = codes-injective k j read in
    let (key, rest) =
      append_unique (or_empty (lookup k keys)) (or_empty (lookup j others)) (0 ∷ hashed keys ids)
        (0 ∷ hashed others js) (kl ∙ sym jl) after in
    let (more, same) = hashed_unique keys others ids js ka ja (cc rest) in
    (
      cc (first, more),
      (
        same_key (lookup k keys) (lookup j others) kl jl key
            ∙ ap (λ i. lookup i others) (sym first),
        same,
      ),
    )

-- Maps with the same keys are written alike.
pub hashed-lookup :
    (keys others : List (String × Bytes)) (ids : List String)
    → ((k : String) → lookup k keys ≡ lookup k others)
    → hashed keys ids ≡ hashed others ids
unfolding hashed
hashed-lookup keys others [] h = refl
hashed-lookup keys others (k ∷ ids) h = rw (h k, hashed-lookup keys others ids h) refl

pub lookup-SameKeys :
    (keys others : List (String × Bytes)) (ids : List String) (k : String)
    → SameKeys keys others ids
    → contains k ids ≡ true
    → lookup k keys ≡ lookup k others
unfolding SameKeys contains
lookup-SameKeys keys others [] k s m = ground (arith, m)
lookup-SameKeys keys others (j ∷ ids) k (at, s) m = elim (Bool-cases (str_eq j k)) [
  | inl e ↦ subst (λ i. lookup i keys ≡ lookup i others) ((eq_iff j k).0 e) at
  | inr n ↦ lookup-SameKeys keys others ids k s (ground (arith, m, n))
]
