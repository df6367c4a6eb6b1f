-- ===== src/Trust/Fingerprint.antt =====
-- internal/trust/snapshot.go: what the fingerprint of a snapshot identifies.
use hacp_sidecar.Common.{
  ℕ, String, ◌≡◌, ◌↔◌, ◌⊎◌, refl, sym, ap, ◌∙◌, Bool, true, false, ◌&&◌, Option, none, some, List,
  [], ◌∷◌, arith, length, str_eq, eq_iff, Bool-cases, Option-cases, inl, inr, subst,
}
use hacp_sidecar.Common.Time.{Time}
use hacp_sidecar.Common.Strings.{lookup, lookup-put, put, contains}
use hacp_sidecar.Common.Utf8.{codes, has_no_nul}
use hacp_sidecar.Wire.{Bytes, Crypto, public_key_size}
use hacp_sidecar.Trust.{
  KeyBinding, TrustSnapshot, ok, bind_ok, add_binding, add_bindings, new_snapshot, fingerprint_keys,
}
use hacp_sidecar.Trust.Bindings.{Bound, add_binding-lookup, new_snapshot_ok, add_bindings-Bound}
use hacp_sidecar.Trust.Sorting.{IsDistinct}
use hacp_sidecar.Trust.Written.{ids_of, is_some, contains-ids_of, WellKeyed, written, written_iff}

-- No id of the bindings has a NUL.
unfoldable pub ids_without_nul : List KeyBinding → Bool
unfolding codes
ids_without_nul [] = true
ids_without_nul (b ∷ bs) = has_no_nul (codes b.key_id) && ids_without_nul bs

put-IsDistinct :
    (k : String) (key : Bytes) (keys : List (String × Bytes))
    → IsDistinct (ids_of keys)
    → IsDistinct (ids_of (put k key keys))
unfolding put contains lookup
put-IsDistinct k key [] d = (refl, tt)
put-IsDistinct k key ((j, old) ∷ keys) (new, d) =
    go (Bool-cases (str_eq j k)) (put-IsDistinct k key keys d)
  where
    go :
        (str_eq j k ≡ true) ⊎ (str_eq j k ≡ false)
        → IsDistinct (ids_of (put k key keys))
        → IsDistinct (ids_of (put k key ((j, old) ∷ keys)))
    go (inl e) rest = rw e (subst (λ i. contains i (ids_of keys) ≡ false) ((eq_iff j k).0 e) new, d)
    go (inr n) rest =
        let other : str_eq k j ≡ false = ground (arith, n, eq_iff k j, eq_iff j k) in
        rw n (
          contains-ids_of j (put k key keys)
              ∙ ap is_some (lookup-put k j key keys ∙ rw other refl)
              ∙ sym (contains-ids_of j keys)
              ∙ new,
          rest,
        )

add_binding-IsDistinct :
    (keys keys' : List (String × Bytes)) (b : KeyBinding)
    → add_binding keys b ≡ ok keys'
    → IsDistinct (ids_of keys)
    → IsDistinct (ids_of keys')
unfolding add_binding
add_binding-IsDistinct keys keys' b h d = elim (Option-cases (lookup b.key_id keys)) [
  | inl new ↦
      let this : put b.key_id b.public_key keys ≡ keys' = ground (arith, new, h) in
      subst (λ m. IsDistinct (ids_of m)) this (put-IsDistinct b.key_id b.public_key keys d)
  | inr (existing, known) ↦
      let this : keys ≡ keys' = ground (arith, known, h) in
      subst (λ m. IsDistinct (ids_of m)) this d
]

add_binding-sized :
    (keys keys' : List (String × Bytes)) (b : KeyBinding)
    → add_binding keys b ≡ ok keys'
    → length b.public_key ≡ public_key_size
unfolding add_binding
add_binding-sized keys keys' b h = ground (arith, h)

add_binding-WellKeyed :
    (keys keys' : List (String × Bytes)) (b : KeyBinding)
    → has_no_nul (codes b.key_id) ≡ true
    → add_binding keys b ≡ ok keys'
    → WellKeyed keys
    → WellKeyed keys'
add_binding-WellKeyed keys keys' b nul h (distinct, sized) = (
  add_binding-IsDistinct keys keys' b h distinct,
  (λ k key held.
      let found = sym (add_binding-lookup keys keys' b k h) ∙ held in
      elim (Bool-cases (str_eq b.key_id k)) [
        | inl e ↦
            let this : b.public_key ≡ key = ground (arith, found, e) in
            (
              subst (λ i. has_no_nul (codes i) ≡ true) ((eq_iff b.key_id k).0 e) nul,
              subst (λ v. length v ≡ public_key_size) this (add_binding-sized keys keys' b h),
            )
        | inr n ↦ sized k key (ground (arith, found, n))
      ]),
)

add_bindings-WellKeyed :
    (keys keys' : List (String × Bytes)) (bs : List KeyBinding)
    → ids_without_nul bs ≡ true
    → add_bindings keys bs ≡ ok keys'
    → WellKeyed keys
    → WellKeyed keys'
unfolding add_bindings ids_without_nul
add_bindings-WellKeyed keys keys' [] n h w = subst WellKeyed (cc h) w
add_bindings-WellKeyed keys keys' (b ∷ bs) n h w =
    let (keys1, first, rest) =
      bind_ok (add_binding keys b) (λ keys1. add_bindings keys1 bs) keys' h in
    add_bindings-WellKeyed keys1 keys' bs (ground (arith, n)) rest
      (add_binding-WellKeyed keys keys1 b (ground (arith, n)) first w)

empty-WellKeyed : WellKeyed []
unfolding lookup
empty-WellKeyed = (tt, λ k key h. cc h)

-- Two maps hold the same where they answer the same.
same_answers : (o p : Option Bytes) → ((key : Bytes) → (o ≡ some key) ↔ (p ≡ some key)) → o ≡ p
same_answers none none h = refl
same_answers none (some key) h = (h key).1 refl
same_answers (some key) p h = sym ((h key).0 refl)

-- Two lists of bindings bind the same ids to the same keys.
abbrev pub SameBindings : List KeyBinding → List KeyBinding → Type 0
SameBindings bs cs = (k : String) (key : Bytes) → Bound k key bs ↔ Bound k key cs

Bound-iff :
    (keys : List (String × Bytes)) (bs : List KeyBinding) (k : String) (key : Bytes)
    → add_bindings [] bs ≡ ok keys
    → (lookup k keys ≡ some key) ↔ Bound k key bs
unfolding lookup
Bound-iff keys bs k key h =
    let (to, of) = add_bindings-Bound [] keys bs k key h in
    ((λ e. elim (to e) [ inl old ↦ cc old | inr bound ↦ bound ]), (λ b. of (inr b)))

SameBindings-iff :
    (keys others : List (String × Bytes)) (bs cs : List KeyBinding)
    → add_bindings [] bs ≡ ok keys
    → add_bindings [] cs ≡ ok others
    → ((k : String) → lookup k keys ≡ lookup k others) ↔ SameBindings bs cs
SameBindings-iff keys others bs cs h g = (
  (λ same k key.
      let (to, of) = Bound-iff keys bs k key h in
      let (to', of') = Bound-iff others cs k key g in
      ((λ b. to' (sym (same k) ∙ of b)), (λ b. to (same k ∙ of' b)))),
  (λ same k. same_answers (lookup k keys) (lookup k others) (λ key.
      let (to, of) = Bound-iff keys bs k key h in
      let (to', of') = Bound-iff others cs k key g in
      ((λ e. of' ((same k key).0 (to e))), (λ e. of ((same k key).1 (to' e)))))),
)

-- The two texts are no collision of the hash.
abbrev pub NoCollision : Crypto → Bytes → Bytes → Type 0
NoCollision c a b = c.hex_encode (c.sha256 a) ≡ c.hex_encode (c.sha256 b) → a ≡ b

-- What a snapshot without an error holds.
made_of :
    (c : Crypto) (revision : ℕ) (loaded_at : Time) (source : String) (bs : List KeyBinding)
    (x : TrustSnapshot)
    → new_snapshot c revision loaded_at source bs ≡ ok x
    → ids_without_nul bs ≡ true
    → (add_bindings [] bs ≡ ok x.keys)
      × (x.fingerprint ≡ c.hex_encode (c.sha256 (written x.keys)))
      × WellKeyed x.keys
unfolding fingerprint_keys
made_of c revision loaded_at source bs x h n =
    let (keys, added, same, _) = new_snapshot_ok c revision loaded_at source bs x h in
    let held = ap (λ t. t.keys) same in
    let this = added ∙ ap ok (sym held) in
    (
      this,
      ap (λ t. t.fingerprint) same ∙ ap (fingerprint_keys c) (sym held),
      add_bindings-WellKeyed [] x.keys bs n this empty-WellKeyed,
    )

-- Two snapshots whose ids hold no NUL have one fingerprint exactly if their bindings bind the same ids to the same
-- keys, whatever the order and the repetitions of the bindings are, where what is hashed for them is no
-- collision of SHA-256.
pub fingerprint_iff :
    (c : Crypto) (revision revision' : ℕ) (loaded_at loaded_at' : Time) (source source' : String)
    (bs cs : List KeyBinding) (x y : TrustSnapshot)
    → new_snapshot c revision loaded_at source bs ≡ ok x
    → new_snapshot c revision' loaded_at' source' cs ≡ ok y
    → ids_without_nul bs ≡ true
    → ids_without_nul cs ≡ true
    → NoCollision c (written x.keys) (written y.keys)
    → (x.fingerprint ≡ y.fingerprint) ↔ SameBindings bs cs
fingerprint_iff c revision revision' loaded_at loaded_at' source source' bs cs x y h g n m
      distinct =
    let (added, fx, wx) = made_of c revision loaded_at source bs x h n in
    let (added', fy, wy) = made_of c revision' loaded_at' source' cs y g m in
    let (to_maps, of_maps) = written_iff x.keys y.keys wx wy in
    let (to_bindings, of_bindings) = SameBindings-iff x.keys y.keys bs cs added added' in
    (
      (λ e. to_bindings (to_maps (distinct (sym fx ∙ e ∙ fy)))),
      (λ s. fx ∙ ap (λ t. c.hex_encode (c.sha256 t)) (of_maps (of_bindings s)) ∙ sym fy),
    )
