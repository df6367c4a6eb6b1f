-- ===== src/Common/Order.antt =====
-- The order of strings by their bytes, which is that of their code points: the laws that sorting needs.
use Prim.Native.Nat.{ℕ, Ordering, compare as compare_ℕ}
use Prim.Native.Char.{code}
use Prim.Native.String.compare
use Prim.Native.String.{String, [] as nil_text, ◌∷◌ as ◌◂◌, compare, then}
use mathlib.Core.Path.{◌≡◌, refl, sym, ap, ◌∙◌}
use native.Mathlib.Omega.{arith}

abbrev pub flip : Ordering → Ordering
flip Ordering.lt = Ordering.gt
flip Ordering.eq = Ordering.eq
flip Ordering.gt = Ordering.lt

flip_ℕ : (a b : ℕ) → compare_ℕ b a ≡ flip (compare_ℕ a b)
flip_ℕ a b = ground arith

flip-then : (o p : Ordering) → then (flip o) (flip p) ≡ flip (then o p)
flip-then Ordering.lt p = refl
flip-then Ordering.eq p = refl
flip-then Ordering.gt p = refl

pub compare-flip : (s t : String) → compare t s ≡ flip (compare s t)
compare-flip nil_text nil_text = refl
compare-flip nil_text (d ◂ t) = compare.cons-nil d t ∙ ap flip (sym (compare.nil-cons d t))
compare-flip (c ◂ s) nil_text = compare.nil-cons c s ∙ ap flip (sym (compare.cons-nil c s))
compare-flip (c ◂ s) (d ◂ t) =
    compare.cons-cons d c t s
    ∙ ap (λ o. then o (compare t s)) (flip_ℕ (code c) (code d))
    ∙ ap (then (flip (compare_ℕ (code c) (code d)))) (compare-flip s t)
    ∙ flip-then (compare_ℕ (code c) (code d)) (compare s t)
    ∙ ap flip (sym (compare.cons-cons c d s t))

trans-then :
    (a b c : ℕ) (o p q : Ordering)
    → (o ≡ Ordering.lt → p ≡ Ordering.lt → q ≡ Ordering.lt)
    → then (compare_ℕ a b) o ≡ Ordering.lt
    → then (compare_ℕ b c) p ≡ Ordering.lt
    → then (compare_ℕ a c) q ≡ Ordering.lt
trans-then a b c o p q k h1 h2 = ground (arith, k)

pub compare_trans :
    (s t u : String)
    → compare s t ≡ Ordering.lt
    → compare t u ≡ Ordering.lt
    → compare s u ≡ Ordering.lt
compare_trans nil_text nil_text u h k = k
compare_trans nil_text (d ◂ t) nil_text h k = cc (compare.cons-nil d t, k)
compare_trans nil_text (d ◂ t) (e ◂ u) h k = compare.nil-cons e u
compare_trans (c ◂ s) nil_text u h k = cc (compare.cons-nil c s, h)
compare_trans (c ◂ s) (d ◂ t) nil_text h k = cc (compare.cons-nil d t, k)
compare_trans (c ◂ s) (d ◂ t) (e ◂ u) h k =
    compare.cons-cons c e s u
    ∙ trans-then (code c) (code d) (code e) (compare s t) (compare t u) (compare s u)
        (compare_trans s t u) (sym (compare.cons-cons c d s t) ∙ h)
        (sym (compare.cons-cons d e t u) ∙ k)
