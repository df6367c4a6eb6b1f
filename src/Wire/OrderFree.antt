-- ===== src/Wire/OrderFree.antt =====
-- internal/wire/jcs.go: the canonical form does not depend on the order of an object's members.
use Prim.Native.Nat.{Ordering}
use Prim.Native.String.{compare}
use text.Mathlib.TextEquality.{path_by_compare}
use hacp_sidecar.Common.{
  ℕ, String, ◌≡◌, ◌≢◌, refl, sym, ap, ◌∙◌, subst, Option, some, List, [], ◌∷◌, arith,
}
use hacp_sidecar.Common.Order.{flip, compare-flip, compare_trans}
use hacp_sidecar.Common.Utf8.{utf8_codes}
use hacp_sidecar.Wire.{Bytes}
use hacp_sidecar.Wire.Canonical.{
  Json, Items, no_items, item, array, object, more_items, Members, no_members, member, Numbers,
  insert_member, sort_members, members_text, canonical_value, member_texts, canonicalize_json,
}

-- What is not before one key, and before another, puts the first before the second.
between :
    (n j k : String)
    → (compare n j ≢ Ordering.lt)
    → compare n k ≡ Ordering.lt
    → compare j k ≡ Ordering.lt
between n j k h before = go (compare n j) refl
  where
    go : (o : Ordering) → compare n j ≡ o → compare j k ≡ Ordering.lt
    go Ordering.lt e = absurd (h e)
    go Ordering.eq e = subst (λ m. compare m k ≡ Ordering.lt) (path_by_compare n j e) before
    go Ordering.gt e = compare_trans j n k (compare-flip n j ∙ ap flip e) before

different : (k j : String) → k ≢ j → compare j k ≢ Ordering.eq
different k j h e = h (sym (path_by_compare j k e))

insert_comm :
    (k j : String) (a b : List ℕ) (ms : List (String × List ℕ))
    → k ≢ j
    → insert_member (k, a) (insert_member (j, b) ms)
      ≡ insert_member (j, b) (insert_member (k, a) ms)
unfolding insert_member
insert_comm k j a b [] h = ground (arith, compare-flip j k, different k j h)
insert_comm k j a b ((n, c) ∷ ms) h = ground (
  arith,
  compare-flip j k,
  different k j h,
  between n j k,
  between n k j,
  insert_comm k j a b ms h,
)

-- Two values that differ in the order of the members of their objects alone, at any depth.
mutual
  pub data Same : Json → Json → Type 0 where
    same_value : (v : Json) → Same v v
    same_array : {vs ws : Items} → SameItems vs ws → Same (array vs) (array ws)
    same_object : {ms ns : Members} → Reordered ms ns → Same (object ms) (object ns)

  pub data SameItems : Items → Items → Type 0 where
    same_end : SameItems no_items no_items
    same_item :
        {v w : Json} {vs ws : Items}
        → Same v w
        → SameItems vs ws
        → SameItems (item v vs) (item w ws)

  pub data Reordered : Members → Members → Type 0 where
    same_members : Reordered no_members no_members
    kept :
        {v w : Json} {ms ns : Members} (k : String)
        → Same v w
        → Reordered ms ns
        → Reordered (member k v ms) (member k w ns)
    swapped :
        (k j : String) (v w : Json) (ms : Members)
        → (k ≢ j)
        → Reordered (member k v (member j w ms)) (member j w (member k v ms))
    then_on : {ms ns os : Members} → Reordered ms ns → Reordered ns os → Reordered ms os

module _ (lib : Numbers) where
  mutual
    unfolding canonical_value sort_members

    pub canonical_value-Same :
        (v w : Json) → Same v w → canonical_value lib v ≡ canonical_value lib w
    canonical_value-Same v _ (same_value _) = refl
    canonical_value-Same _ _ (same_array {vs} {ws} s) = items_text vs ws s
    canonical_value-Same _ _ (same_object {ms} {ns} s) = ap members_text (sorted_texts ms ns s)

    items_text :
        (vs ws : Items)
        → SameItems vs ws
        → canonical_value lib (array vs) ≡ canonical_value lib (array ws)
    items_text _ _ same_end = refl
    items_text _ _ (same_item {v} {w} {vs} {ws} s rest) =
        rw (canonical_value-Same v w s, more_items-Same vs ws rest) refl

    more_items-Same : (vs ws : Items) → SameItems vs ws → more_items lib vs ≡ more_items lib ws
    more_items-Same _ _ same_end = refl
    more_items-Same _ _ (same_item {v} {w} {vs} {ws} s rest) =
        rw (canonical_value-Same v w s, more_items-Same vs ws rest) refl

    sorted_texts :
        (ms ns : Members)
        → Reordered ms ns
        → sort_members (member_texts lib ms) ≡ sort_members (member_texts lib ns)
    sorted_texts _ _ same_members = refl
    sorted_texts _ _ (kept {v} {w} {ms} {ns} k s rest) =
        rw (canonical_value-Same v w s, sorted_texts ms ns rest) refl
    sorted_texts _ _ (swapped k j v w ms h) =
        insert_comm k j (canonical_value lib v) (canonical_value lib w)
          (sort_members (member_texts lib ms)) h
    sorted_texts _ _ (then_on {ms} {ns} {os} r s) = sorted_texts ms ns r ∙ sorted_texts ns os s

  -- Two texts of values that differ in the order of the members of their objects alone, at any depth, have
  -- one canonical form.
  pub canonicalize_json-Same :
      (decode : Bytes → Option Json) (a b : Bytes) (v w : Json)
      → decode a ≡ some v
      → decode b ≡ some w
      → Same v w
      → canonicalize_json lib decode a ≡ canonicalize_json lib decode b
  unfolding canonicalize_json
  canonicalize_json-Same decode a b v w h k s =
      rw (h, k, canonicalize_json) (ap (λ cs. some (utf8_codes cs)) (canonical_value-Same v w s))
