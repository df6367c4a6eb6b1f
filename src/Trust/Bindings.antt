-- ===== src/Trust/Bindings.antt =====
-- internal/trust/snapshot.go: the keys of a snapshot against the bindings it was made of.
use hacp_sidecar.Common.{
  ℕ, String, ◌≡◌, ◌≢◌, ◌↔◌, ◌⊎◌, inl, inr, refl, sym, ap, ◌∙◌, true, false, Option, none, some,
  List, [], ◌∷◌, arith, str_eq, eq_iff, if◌then◌else◌, Bool-cases, Option-cases, subst,
}
use hacp_sidecar.Common.Time.{Time}
use hacp_sidecar.Common.Strings.{lookup, lookup-put}
use hacp_sidecar.Wire.{bytes_equal, Bytes, Crypto}
use hacp_sidecar.Trust.{
  KeyBinding, TrustSnapshot, ok, bind_ok, add_binding, add_bindings, validate, new_snapshot,
  fingerprint_keys,
}
use hacp_sidecar.Trust.Store.{new_store, resolve_key, found}

bytes_equal_path : (xs ys : Bytes) → bytes_equal xs ys ≡ true → xs ≡ ys
unfolding bytes_equal
bytes_equal_path [] [] h = refl
bytes_equal_path [] (b ∷ ys) h = cc h
bytes_equal_path (a ∷ xs) [] h = cc h
bytes_equal_path (a ∷ xs) (b ∷ ys) h =
    let heads : a ≡ b = ground arith in
    let tails = bytes_equal_path xs ys (ground arith) in cc (heads, tails)

-- One of the bindings binds `k` to `key`.
unfoldable pub Bound : String → Bytes → List KeyBinding → Type 0
Bound k key [] = ⊥
Bound k key (b ∷ bs) = ((b.key_id ≡ k) × (b.public_key ≡ key)) ⊎ Bound k key bs

pub add_binding-lookup :
    (keys keys' : List (String × Bytes)) (b : KeyBinding) (k : String)
    → add_binding keys b ≡ ok keys'
    → lookup k keys' ≡ (if str_eq b.key_id k then some b.public_key else lookup k keys)
unfolding add_binding
add_binding-lookup keys keys' b k h = elim (Option-cases (lookup b.key_id keys)) [
  | inl new ↦ ground (arith, new, lookup-put b.key_id k b.public_key keys)
  | inr (existing, known) ↦
      let same : keys ≡ keys' = ground (arith, known) in
      let key : existing ≡ b.public_key =
        bytes_equal_path existing b.public_key (ground (arith, known)) in
      elim (Bool-cases (str_eq b.key_id k)) [
        | inl at ↦ rw at (
            ap (lookup k) (sym same)
            ∙ ap (λ j. lookup j keys) (sym ((eq_iff b.key_id k).0 at))
            ∙ known
            ∙ ap some key)
        | inr other ↦ rw other (ap (lookup k) (sym same))
      ]
]

-- No binding replaces a key.
add_binding-keeps :
    (keys keys' : List (String × Bytes)) (b : KeyBinding) (k : String) (key : Bytes)
    → add_binding keys b ≡ ok keys'
    → lookup k keys ≡ some key
    → lookup k keys' ≡ some key
unfolding add_binding
add_binding-keeps keys keys' b k key h known = elim (Option-cases (lookup b.key_id keys)) [
  | inl new ↦
      let other : str_eq b.key_id k ≡ false = ground (arith, eq_iff b.key_id k, new, known) in
      add_binding-lookup keys keys' b k h ∙ rw other known
  | inr (existing, old) ↦
      let same : keys ≡ keys' = ground (arith, old) in ap (lookup k) (sym same) ∙ known
]

add_binding_iff :
    (keys keys' : List (String × Bytes)) (b : KeyBinding) (k : String) (key : Bytes)
    → add_binding keys b ≡ ok keys'
    → (lookup k keys' ≡ some key)
      ↔ ((lookup k keys ≡ some key) ⊎ ((b.key_id ≡ k) × (b.public_key ≡ key)))
add_binding_iff keys keys' b k key h = (
  (λ e. ground (arith, add_binding-lookup keys keys' b k h, eq_iff b.key_id k, e)),
  (λ s. elim s [
    | inl known ↦ add_binding-keeps keys keys' b k key h known
    | inr (at, of) ↦
        ground (arith, add_binding-lookup keys keys' b k h, (eq_iff b.key_id k).1 at, of)
  ]),
)

empty_lookup : (k : String) (key : Bytes) → lookup k [] ≢ some key
unfolding lookup
empty_lookup k key h = cc h

pub add_bindings-Bound :
    (keys keys' : List (String × Bytes)) (bs : List KeyBinding) (k : String) (key : Bytes)
    → add_bindings keys bs ≡ ok keys'
    → (lookup k keys' ≡ some key) ↔ ((lookup k keys ≡ some key) ⊎ Bound k key bs)
unfolding add_bindings Bound
add_bindings-Bound keys keys' [] k key h =
    let same : keys ≡ keys' = cc h in
    (
      (λ e. inl (ap (lookup k) same ∙ e)),
      (λ s. elim s [ inl e ↦ ap (lookup k) (sym same) ∙ e | inr none_left ↦ elim none_left [ ] ]),
    )
add_bindings-Bound keys keys' (b ∷ bs) k key h =
    let (keys1, first, rest) =
      bind_ok (add_binding keys b) (λ keys1. add_bindings keys1 bs) keys' h in
    let now = add_binding_iff keys keys1 b k key first in
    let later = add_bindings-Bound keys1 keys' bs k key rest in
    (
      (λ e. elim (later.0 e) [
        | inr tail ↦ inr (inr tail)
        | inl mid ↦ elim (now.0 mid) [ inl old ↦ inl old | inr here ↦ inr (inl here) ]
      ]),
      (λ s. elim s [
        | inl old ↦ later.1 (inl (now.1 (inl old)))
        | inr (inl here) ↦ later.1 (inl (now.1 (inr here)))
        | inr (inr tail) ↦ later.1 (inr tail)
      ]),
    )

abbrev pub snapshot_of : Crypto → ℕ → Time → String → List (String × Bytes) → TrustSnapshot
snapshot_of c revision loaded_at source keys = record {
  revision = revision;
  loaded_at = loaded_at;
  source = source;
  keys = keys;
  fingerprint = fingerprint_keys c keys;
}

-- What a snapshot without an error is.
pub new_snapshot_ok :
    (c : Crypto) (revision : ℕ) (loaded_at : Time) (source : String) (bs : List KeyBinding)
    (s : TrustSnapshot)
    → new_snapshot c revision loaded_at source bs ≡ ok s
    → (keys : List (String × Bytes)) × (add_bindings [] bs ≡ ok keys)
      × (s ≡ snapshot_of c revision loaded_at source keys)
      × (validate c s ≡ ok tt)
unfolding new_snapshot
new_snapshot_ok c revision loaded_at source [] s h = cc h
new_snapshot_ok c revision loaded_at source (b ∷ bs) s h =
    let (keys, added, rest) = bind_ok (add_bindings [] (b ∷ bs)) _ s h in
    let (u, valid, same) =
      bind_ok (validate c (snapshot_of c revision loaded_at source keys)) _ s rest in
    let this : snapshot_of c revision loaded_at source keys ≡ s = cc same in
    (keys, added, sym this, subst (λ t. validate c t ≡ ok tt) this valid)

add_binding-named :
    (keys keys' : List (String × Bytes)) (b : KeyBinding)
    → add_binding keys b ≡ ok keys'
    → str_eq b.key_id "" ≡ false
unfolding add_binding
add_binding-named keys keys' b h = ground arith

Bound-named :
    (keys keys' : List (String × Bytes)) (bs : List KeyBinding) (k : String) (key : Bytes)
    → add_bindings keys bs ≡ ok keys'
    → Bound k key bs
    → str_eq k "" ≡ false
unfolding add_bindings Bound
Bound-named keys keys' [] k key h bound = elim bound [ ]
Bound-named keys keys' (b ∷ bs) k key h bound =
    let (keys1, first, rest) =
      bind_ok (add_binding keys b) (λ keys1. add_bindings keys1 bs) keys' h in
    elim bound [
      | inl (at, _) ↦ subst (λ j. str_eq j "" ≡ false) at (add_binding-named keys keys1 b first)
      | inr tail ↦ Bound-named keys1 keys' bs k key rest tail
    ]

pub found_iff :
    (k : String) (o : Option Bytes) (key : Bytes) → (found k o ≡ ok key) ↔ (o ≡ some key)
found_iff k none key = ((λ h. cc h), (λ h. cc h))
found_iff k (some j) key = ((λ h. cc h), (λ h. cc h))

-- A named id resolves to what the keys hold.
pub resolve_key-lookup :
    (s : TrustSnapshot) (k : String)
    → str_eq k "" ≡ false
    → resolve_key (record { active = some s }) k ≡ found k (lookup k s.keys)
unfolding resolve_key
resolve_key-lookup s k named = rw (named, resolve_key) refl

resolve_key-empty :
    (s : TrustSnapshot) (k : String) (key : Bytes)
    → str_eq k "" ≡ true
    → resolve_key (record { active = some s }) k ≢ ok key
unfolding resolve_key
resolve_key-empty s k key nameless h = ground (arith, nameless, h)

-- A snapshot of bindings makes a store, and the store resolves an id to a key exactly if one of the
-- bindings binds them.
pub resolve_key_iff :
    (c : Crypto) (revision : ℕ) (loaded_at : Time) (source : String) (bs : List KeyBinding)
    (s : TrustSnapshot)
    → new_snapshot c revision loaded_at source bs ≡ ok s
    → (new_store c s ≡ ok (record { active = some s }))
      × ((k : String) (key : Bytes)
          → (resolve_key (record { active = some s }) k ≡ ok key) ↔ Bound k key bs)
unfolding new_store
resolve_key_iff c revision loaded_at source bs s h =
    let (keys, added, same, valid) = new_snapshot_ok c revision loaded_at source bs s h in
    (
      rw (valid, new_store) refl,
      (λ k key.
          let bound = add_bindings-Bound [] keys bs k key added in
          let held = ap (λ t. lookup k t.keys) same in
          (
            (λ e. elim (Bool-cases (str_eq k "")) [
              | inl nameless ↦ absurd (resolve_key-empty s k key nameless e)
              | inr named ↦
                  let inside = (found_iff k _ key).0 (sym (resolve_key-lookup s k named) ∙ e) in
                  elim (bound.0 (sym held ∙ inside)) [
                    | inl nothing ↦ absurd (empty_lookup k key nothing)
                    | inr b ↦ b
                  ]
            ]),
            (λ b.
                resolve_key-lookup s k (Bound-named [] keys bs k key added b)
                ∙ (found_iff k _ key).1 (held ∙ bound.1 (inr b))),
          )),
    )
