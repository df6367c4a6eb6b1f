-- ===== src/Trust/Written.antt =====
-- internal/trust/snapshot.go: what is hashed for the fingerprint, against the map of the keys.
use hacp_sidecar.Common.{
  String, ◌≡◌, ◌↔◌, refl, sym, ap, ◌∙◌, Bool, true, false, Option, none, some, List, [], ◌∷◌, arith,
  length, map, Bool-cases, Option-cases, inl, inr,
}
use hacp_sidecar.Common.Strings.{str_eq_refl, lookup, contains}
use hacp_sidecar.Common.Utf8.{codes, has_no_nul}
use hacp_sidecar.Wire.{Bytes, public_key_size}
use hacp_sidecar.Trust.{sort_ids, hashed, or_empty}
use hacp_sidecar.Trust.Sorting.{
  IsDistinct, contains-sort_ids, sort_ids-IsAscending, IsAscending-unique,
}
use hacp_sidecar.Trust.Digest.{IsKeyed, hashed_unique, hashed-lookup, lookup-SameKeys}

abbrev pub ids_of : List (String × Bytes) → List String
ids_of keys = map (λ (binding : String × Bytes). binding.0) keys

abbrev pub is_some : Option Bytes → Bool
is_some none = false
is_some (some key) = true

pub contains-ids_of :
    (k : String) (keys : List (String × Bytes)) → contains k (ids_of keys) ≡ is_some (lookup k keys)
unfolding contains lookup
contains-ids_of k [] = refl
contains-ids_of k ((j, key) ∷ keys) = ground (arith, contains-ids_of k keys)

-- The keys have different ids without a NUL, and the right sizes.
abbrev pub WellKeyed : List (String × Bytes) → Type 0
WellKeyed keys =
    IsDistinct (ids_of keys)
    × ((k : String) (key : Bytes)
        → lookup k keys ≡ some key
        → (has_no_nul (codes k) ≡ true) × (length key ≡ public_key_size))

IsKeyed-of :
    (keys : List (String × Bytes)) (ids : List String)
    → ((k : String) (key : Bytes)
        → lookup k keys ≡ some key
        → (has_no_nul (codes k) ≡ true) × (length key ≡ public_key_size))
    → ((k : String) → contains k ids ≡ true → is_some (lookup k keys) ≡ true)
    → IsKeyed keys ids
unfolding IsKeyed contains
IsKeyed-of keys [] h m = tt
IsKeyed-of keys (k ∷ ids) h m = elim (Option-cases (lookup k keys)) [
  | inl missing ↦ absurd (ground (arith, missing, m k, str_eq_refl k))
  | inr (key, held) ↦
      let (nul, size) = h k key held in
      (
        nul,
        ap (λ o. length (or_empty o)) held ∙ size,
        IsKeyed-of keys ids h (λ j in_ids. m j (ground (arith, in_ids))),
      )
]

-- What is hashed for the fingerprint.
abbrev pub written : List (String × Bytes) → Bytes
written keys = hashed keys (sort_ids (ids_of keys))

IsKeyed-sort_ids :
    (keys : List (String × Bytes)) → WellKeyed keys → IsKeyed keys (sort_ids (ids_of keys))
IsKeyed-sort_ids keys w =
    IsKeyed-of keys (sort_ids (ids_of keys)) w.1
      (λ k m. sym (contains-sort_ids k (ids_of keys) ∙ contains-ids_of k keys) ∙ m)

same_ids :
    (keys others : List (String × Bytes)) (k : String)
    → lookup k keys ≡ lookup k others
    → contains k (sort_ids (ids_of keys)) ≡ contains k (sort_ids (ids_of others))
same_ids keys others k h =
    (contains-sort_ids k (ids_of keys) ∙ contains-ids_of k keys)
    ∙ ap is_some h
    ∙ sym (contains-sort_ids k (ids_of others) ∙ contains-ids_of k others)

no_key : (o : Option Bytes) → is_some o ≡ false → o ≡ none
no_key none h = refl
no_key (some key) h = cc h

-- What is hashed is the map, without an order.
pub written_iff :
    (keys others : List (String × Bytes))
    → WellKeyed keys
    → WellKeyed others
    → (written keys ≡ written others) ↔ ((k : String) → lookup k keys ≡ lookup k others)
written_iff keys others w v = (
  (λ h k. read h k),
  (λ h.
      hashed-lookup keys others (sort_ids (ids_of keys)) h
      ∙ ap (hashed others) (
          IsAscending-unique (sort_ids (ids_of keys)) (sort_ids (ids_of others))
            (sort_ids-IsAscending (ids_of keys) w.0) (sort_ids-IsAscending (ids_of others) v.0)
            (λ k. same_ids keys others k (h k)))),
)
  where
    read : written keys ≡ written others → (k : String) → lookup k keys ≡ lookup k others
    read h k =
        let (ids, same) =
          hashed_unique keys others (sort_ids (ids_of keys)) (sort_ids (ids_of others))
            (IsKeyed-sort_ids keys w) (IsKeyed-sort_ids others v) h in
        let here = contains-sort_ids k (ids_of keys) ∙ contains-ids_of k keys in
        let there = contains-sort_ids k (ids_of others) ∙ contains-ids_of k others in
        elim (Bool-cases (contains k (sort_ids (ids_of keys)))) [
          | inl inside ↦ lookup-SameKeys keys others (sort_ids (ids_of keys)) k same inside
          | inr outside ↦
              no_key (lookup k keys) (sym here ∙ outside)
              ∙ sym (no_key (lookup k others) (sym there ∙ sym (ap (contains k) ids) ∙ outside))
        ]
