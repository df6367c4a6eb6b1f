-- ===== src/Wire/Faithful.antt =====
-- internal/wire/jcs.go: what a canonical form keeps of a value.
use hacp_sidecar.Common.{
  String, ◌≡◌, refl, sym, ap, ◌∙◌, ◌↔◌, Bool, true, false, ◌&&◌, Option, none, some, [], ◌++◌,
  arith,
}
use Prim.Native.Nat.{Ordering}
use Prim.Native.String.{compare}
use hacp_sidecar.Common.Int.{ℤ}
use hacp_sidecar.Common.Utf8.{codes, utf8_codes, utf8_codes-injective}
use hacp_sidecar.Wire.{Bytes}
use hacp_sidecar.Wire.Canonical.{
  Json, null, boolean, number, text, Items, no_items, item, array, object, Members, no_members,
  member, Numbers, canonical_number, canonical_float, canonical_value, canonicalize_json,
}
use hacp_sidecar.Wire.Normal.{
  Tree, Entries, no_entries, entry, print, tree, branches, sorted, insert_entry,
  canonical_value-tree,
}
use hacp_sidecar.Wire.Unique.{is_word, ends, is_tree, are_entries, are_trees}
use hacp_sidecar.Wire.Reading.{print_unique, and_left, and_right}

-- Every number of a value is written without quotes, commas, brackets and braces, as JSON's numbers are.
unfoldable mutual
  unfolding is_word codes

  pub has_literals : Json → Bool
  has_literals (number n) = is_word (codes n)
  has_literals (array vs) = items_have_literals vs
  has_literals (object ms) = members_have_literals ms
  has_literals _ = true

  items_have_literals : Items → Bool
  items_have_literals no_items = true
  items_have_literals (item v vs) = has_literals v && items_have_literals vs

  members_have_literals : Members → Bool
  members_have_literals no_members = true
  members_have_literals (member k v ms) = has_literals v && members_have_literals ms

and_both : (a b : Bool) → a ≡ true → b ≡ true → (a && b) ≡ true
and_both a b ha hb = ground (arith, ha, hb)

insert_entry-are_entries :
    (k : String) (t : Tree) (es : Entries)
    → is_tree t ≡ true
    → are_entries es ≡ true
    → are_entries (insert_entry k t es) ≡ true
unfolding insert_entry is_tree
insert_entry-are_entries k t no_entries ht hes = and_both _ _ ht refl
insert_entry-are_entries k t (entry j u es) ht hes =
    go (compare j k) (insert_entry-are_entries k t es ht (and_right _ _ hes))
  where
    go :
        (o : Ordering)
        → are_entries (insert_entry k t es) ≡ true
        → are_entries (elim o [
          | Ordering.lt ↦ entry j u (insert_entry k t es)
          | _ ↦ entry k t (entry j u es)
        ])
          ≡ true
    go Ordering.lt h = and_both _ _ (and_left _ _ hes) h
    go Ordering.eq h = and_both _ _ ht hes
    go Ordering.gt h = and_both _ _ ht hes

module _ (lib : Numbers) (ints : (i : ℤ) → is_word (lib.format_int i) ≡ true)
    (floats : (f : lib.Float) → is_word (lib.format_float f) ≡ true) where
  canonical_float-word : (f : lib.Float) → is_word (canonical_float lib f) ≡ true
  unfolding canonical_float codes is_word
  canonical_float-word f = ground (arith, ints (lib.truncated f), floats f)

  canonical_number-word :
      (n : String) → is_word (codes n) ≡ true → is_word (canonical_number lib n) ≡ true
  unfolding canonical_number
  canonical_number-word n h = go (lib.int64 n) (lib.float64 n)
    where
      go :
          (i : Option ℤ) (f : Option lib.Float)
          → is_word (elim i [
            | some k ↦ lib.format_int k
            | none ↦ elim f [ some x ↦ canonical_float lib x | none ↦ codes n ]
          ])
            ≡ true
      go (some k) f = ints k
      go none (some x) = canonical_float-word x
      go none none = h

  mutual
    unfolding has_literals is_tree tree

    tree-is_tree : (v : Json) → has_literals v ≡ true → is_tree (tree lib v) ≡ true
    tree-is_tree null h = refl
    tree-is_tree (boolean true) h = refl
    tree-is_tree (boolean false) h = refl
    tree-is_tree (number n) h = canonical_number-word n h
    tree-is_tree (text s) h = refl
    tree-is_tree (array vs) h = branches-are_trees vs h
    tree-is_tree (object ms) h = sorted-are_entries ms h

    branches-are_trees :
        (vs : Items) → items_have_literals vs ≡ true → are_trees (branches lib vs) ≡ true
    branches-are_trees no_items h = refl
    branches-are_trees (item v vs) h =
        and_both _ _ (tree-is_tree v (and_left _ _ h)) (branches-are_trees vs (and_right _ _ h))

    sorted-are_entries :
        (ms : Members) → members_have_literals ms ≡ true → are_entries (sorted lib ms) ≡ true
    sorted-are_entries no_members h = refl
    sorted-are_entries (member k v ms) h =
        insert_entry-are_entries k (tree lib v) (sorted lib ms) (tree-is_tree v (and_left _ _ h))
          (sorted-are_entries ms (and_right _ _ h))

-- Under the conditions of `canonicalize_json_iff` the code points of two canonical forms are equal exactly where the values are one
-- tree.
pub canonical_value_iff :
    (lib : Numbers)
    → ((i : ℤ) → is_word (lib.format_int i) ≡ true)
    → ((f : lib.Float) → is_word (lib.format_float f) ≡ true)
    → (v w : Json) → has_literals v ≡ true
    → has_literals w ≡ true
    → (canonical_value lib v ≡ canonical_value lib w) ↔ (tree lib v ≡ tree lib w)
unfolding ends
canonical_value_iff lib ints floats v w hv hw = (
  λ h.
      (print_unique (tree lib v) (tree lib w) [] [] (tree-is_tree lib ints floats v hv)
        (tree-is_tree lib ints floats w hw) refl refl
        (ap (λ t. t ++ []) (sym (canonical_value-tree lib v) ∙ h ∙ canonical_value-tree lib w))).0,
  λ h. canonical_value-tree lib v ∙ ap print h ∙ sym (canonical_value-tree lib w),
)

canonical_of :
    (lib : Numbers) (decode : Bytes → Option Json) (u : Json) (c : Bytes)
    → decode c ≡ some u
    → canonicalize_json lib decode c ≡ some (utf8_codes (canonical_value lib u))
unfolding canonicalize_json
canonical_of lib decode u c e = rw (canonicalize_json, e) refl

some_injective : (a b : Bytes) → some a ≡ some b → a ≡ b
some_injective a b h = cc h

-- Where the texts of strconv and of the numbers hold no quote, comma, bracket or brace, two texts that are decoded
-- have one canonical form, as bytes, exactly where their values are one tree: a form keeps every string, key,
-- word and array of a value, and nothing can be put into a string or a number that reads as another
-- value.
pub canonicalize_json_iff :
    (lib : Numbers)
    → ((i : ℤ) → is_word (lib.format_int i) ≡ true)
    → ((f : lib.Float) → is_word (lib.format_float f) ≡ true)
    → (decode : Bytes → Option Json) (a b : Bytes) (v w : Json) → decode a ≡ some v
    → decode b ≡ some w
    → has_literals v ≡ true
    → has_literals w ≡ true
    → (canonicalize_json lib decode a ≡ canonicalize_json lib decode b) ↔ (tree lib v ≡ tree lib w)
canonicalize_json_iff lib ints floats decode a b v w ha hb hv hw =
    let (to, of) = canonical_value_iff lib ints floats v w hv hw in
    (
      (λ h. to (
          utf8_codes-injective (canonical_value lib v) (canonical_value lib w) (
            some_injective _ _
              (sym (canonical_of lib decode v a ha) ∙ h ∙ canonical_of lib decode w b hb)))),
      (λ t.
          canonical_of lib decode v a ha
          ∙ ap (λ k. some (utf8_codes k)) (of t)
          ∙ sym (canonical_of lib decode w b hb)),
    )
