-- ===== src/Common/Strings.antt =====
-- Go strings as keys: `map[string]struct{}` as a list of its keys, `map[string]V` as an
-- association list.
use Prim.Native.String.{String}
use mathlib.Core.Path.{◌≡◌, refl, ap}
use mathlib.Core.Bool.{Bool, true, false, ◌||◌}
use mathlib.Core.Option.{Option, none, some}
use mathlib.Core.List.{List, [], ◌∷◌}
use native.Mathlib.Omega.{arith}
use text.Mathlib.Text.{◌==◌}
use text.Mathlib.TextEquality.{eq_iff}
use hacp_sidecar.Common.Tests.{if◌then◌else◌, Bool-cases}
use mathlib.Core.Logic.{◌≢◌, inl, inr}

-- `_, ok := set[k]`.
unfoldable pub contains : String → List String → Bool
contains k [] = false
contains k (j ∷ s) = j == k || contains k s

-- `set[k] = struct{}{}`.
unfoldable pub add : String → List String → List String
unfolding contains
add k s = if contains k s then s else k ∷ s

pub str_eq_refl : (k : String) → (k == k) ≡ true
str_eq_refl k = (eq_iff k k).1 refl

pub not_eq-false : (k j : String) → k ≢ j → (k == j) ≡ false
not_eq-false k j h = ground (arith, eq_iff k j)

pub ne_of_eq-false : (k j : String) → (k == j) ≡ false → k ≢ j
ne_of_eq-false k j h e = ground (arith, eq_iff k j)

contains-of_eq : (k j : String) (s : List String) → (k == j) ≡ true → contains k s ≡ contains j s
contains-of_eq k j s e = ap (λ x. contains x s) ((eq_iff k j).0 e)

old_key : (b c : Bool) → (b ≡ true → c ≡ true) → c ≡ (b || c)
old_key true c h = h refl
old_key false c h = refl

-- Adding a key makes that key a member and no other.
pub contains-add :
    (k j : String) (s : List String) → contains j (add k s) ≡ (k == j || contains j s)
unfolding contains add
contains-add k j s = elim (Bool-cases (contains k s)) [
  | inl old ↦
      rw (old, add) (old_key (k == j) (contains j s) (λ e. rw (← contains-of_eq k j s e) old))
  | inr new ↦ rw (new, add) refl
]

module _ {ℓ} {V : Type ℓ} where
  unfoldable pub lookup : String → List (String × V) → Option V
  lookup k [] = none
  lookup k ((j, v) ∷ m) = if j == k then some v else lookup k m

  unfoldable pub put : String → V → List (String × V) → List (String × V)
  put k v [] = (k, v) ∷ []
  put k v ((j, w) ∷ m) = if j == k then (k, v) ∷ m else (j, w) ∷ put k v m

  pub lookup-put :
      (k j : String) (v : V) (m : List (String × V))
      → lookup j (put k v m) ≡ (if k == j then some v else lookup j m)
  unfolding lookup put
  lookup-put k j v [] = refl
  lookup-put k j v ((i, w) ∷ m) =
      ground (arith, eq_iff k j, eq_iff i k, eq_iff i j, lookup-put k j v m)
