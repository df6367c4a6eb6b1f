-- ===== src/Trust/Sorting.antt =====
-- internal/trust/snapshot.go: the sorted ids of `fingerprintKeys`.
use Prim.Native.Nat.{Ordering}
use Prim.Native.String.{compare}
use text.Mathlib.TextEquality.{path_by_compare}
use text.Mathlib.TextPositions.{compare_refl}
use hacp_sidecar.Common.{
  String, ◌≡◌, ◌≢◌, refl, ap, ◌∙◌, true, false, ◌||◌, List, [], ◌∷◌, arith, str_eq, eq_iff,
}
use hacp_sidecar.Common.Strings.{contains, str_eq_refl}
use hacp_sidecar.Common.Order.{flip, compare-flip, compare_trans}
use hacp_sidecar.Trust.{insert_id, sort_ids}

-- The key is before each of the ids.
abbrev Before : String → List String → Type 0
Before k ids = (j : String) → contains j ids ≡ true → compare k j ≡ Ordering.lt

abbrev pub IsAscending : List String → Type 0
IsAscending [] = Unit {0}
IsAscending (k ∷ ids) = Before k ids × IsAscending ids

abbrev pub IsDistinct : List String → Type 0
IsDistinct [] = Unit {0}
IsDistinct (k ∷ ids) = (contains k ids ≡ false) × IsDistinct ids

contains-insert_id :
    (j k : String) (ids : List String)
    → contains j (insert_id k ids) ≡ (str_eq k j || contains j ids)
unfolding insert_id contains
contains-insert_id j k [] = refl
contains-insert_id j k (i ∷ ids) = ground (arith, contains-insert_id j k ids)

pub contains-sort_ids :
    (j : String) (ids : List String) → contains j (sort_ids ids) ≡ contains j ids
unfolding sort_ids contains
contains-sort_ids j [] = refl
contains-sort_ids j (k ∷ ids) =
    contains-insert_id j k (sort_ids ids) ∙ ap (λ b. str_eq k j || b) (contains-sort_ids j ids)

later : (k j : String) → k ≢ j → compare j k ≢ Ordering.lt → compare k j ≡ Ordering.lt
later k j h n = ground (arith, compare-flip j k, path_by_compare j k)

insert_id-IsAscending :
    (k : String) (ids : List String)
    → contains k ids ≡ false
    → IsAscending ids
    → IsAscending (insert_id k ids)
unfolding insert_id contains
insert_id-IsAscending k [] h a = ((λ j m. ground (arith, m)), tt)
insert_id-IsAscending k (i ∷ ids) h (first, rest) =
    go (compare i k) refl (insert_id-IsAscending k ids (ground (arith, h)) rest)
  where
    go :
        (o : Ordering)
        → compare i k ≡ o
        → IsAscending (insert_id k ids)
        → IsAscending (elim o [ Ordering.lt ↦ i ∷ insert_id k ids | _ ↦ k ∷ i ∷ ids ])
    go Ordering.lt e inner =
        ((λ j m. ground (arith, contains-insert_id j k ids, m, e, first j, eq_iff k j)), inner)
    go Ordering.eq e inner = absurd (ground (arith, h, path_by_compare i k e, eq_iff i k))
    go Ordering.gt e inner =
        let before : compare k i ≡ Ordering.lt = compare-flip i k ∙ ap flip e in
        (
          (λ j m. ground (arith, m, before, first j, eq_iff i j, compare_trans k i j)),
          (first, rest),
        )

pub sort_ids-IsAscending : (ids : List String) → IsDistinct ids → IsAscending (sort_ids ids)
unfolding sort_ids
sort_ids-IsAscending [] d = tt
sort_ids-IsAscending (k ∷ ids) (new, d) =
    insert_id-IsAscending k (sort_ids ids) (contains-sort_ids k ids ∙ new)
      (sort_ids-IsAscending ids d)

Before-new : (k : String) (ids : List String) → Before k ids → contains k ids ≡ false
Before-new k ids b = ground (arith, b k, compare_refl k)

same_first :
    (a b : String) (xs bs : List String)
    → Before a xs
    → Before b bs
    → ((k : String) → contains k (a ∷ xs) ≡ contains k (b ∷ bs))
    → a ≡ b
unfolding contains
same_first a b xs bs fa fb h = ground (
  arith,
  h a,
  h b,
  fa b,
  fb a,
  eq_iff a b,
  eq_iff b a,
  str_eq_refl a,
  str_eq_refl b,
  compare-flip a b,
)

-- Ascending lists with the same ids are equal.
pub IsAscending-unique :
    (xs ys : List String)
    → IsAscending xs
    → IsAscending ys
    → ((k : String) → contains k xs ≡ contains k ys)
    → xs ≡ ys
unfolding contains
IsAscending-unique [] [] a b h = refl
IsAscending-unique [] (y ∷ ys) a b h = ground (arith, h y, str_eq_refl y)
IsAscending-unique (x ∷ xs) [] a b h = ground (arith, h x, str_eq_refl x)
IsAscending-unique (x ∷ xs) (y ∷ ys) (fx, ax) (fy, ay) h =
    let first = same_first x y xs ys fx fy h in
    let rest = IsAscending-unique xs ys ax ay (λ k.
      ground (arith, h k, first, eq_iff x k, eq_iff y k, Before-new x xs fx, Before-new y ys fy)) in
    cc (first, rest)
