-- ===== src/Wire/Normal.antt =====
-- internal/wire/jcs.go: what a canonical form says. A `Tree` is a JSON value with its members sorted, and its
-- words as they are printed: null, the Booleans and the numbers.
use Prim.Native.Nat.{Ordering}
use Prim.Native.String.{compare}
use hacp_sidecar.Common.{ℕ, String, ◌≡◌, refl, sym, ap, true, false, List, [], ◌∷◌, ◌++◌}
use hacp_sidecar.Common.Utf8.{codes}
use hacp_sidecar.Wire.Canonical.{
  Json, null, boolean, number, text, Items, no_items, item, array, object, Members, no_members,
  member, Numbers, canonical_string, canonical_number, insert_member, sort_members, members_text,
  canonical_value, more_items, member_texts,
}

mutual
  pub data Tree : Type 0 where
    word : List ℕ → Tree
    quoted : String → Tree
    listing : Branches → Tree
    mapping : Entries → Tree

  pub data Branches : Type 0 where
    no_branches : Branches
    branch : Tree → Branches → Branches

  pub data Entries : Type 0 where
    no_entries : Entries
    entry : String → Tree → Entries → Entries

-- The entries stay sorted by their keys.
unfoldable pub insert_entry : String → Tree → Entries → Entries
insert_entry k t no_entries = entry k t no_entries
insert_entry k t (entry j u es) =
    let rest = insert_entry k t es in
    elim (compare j k) [ Ordering.lt ↦ entry j u rest | _ ↦ entry k t (entry j u es) ]

unfoldable mutual
  unfolding canonical_string codes members_text

  pub print : Tree → List ℕ
  print (word t) = t
  print (quoted s) = canonical_string (codes s)
  print (listing no_branches) = 91 ∷ 93 ∷ []
  print (listing (branch t ts)) = 91 ∷ (print t ++ print_more ts)
  print (mapping es) = members_text (entry_texts es)

  pub print_more : Branches → List ℕ
  print_more no_branches = 93 ∷ []
  print_more (branch t ts) = 44 ∷ (print t ++ print_more ts)

  pub entry_texts : Entries → List (String × List ℕ)
  entry_texts no_entries = []
  entry_texts (entry k t es) = (k, print t) ∷ entry_texts es

entry_texts-insert_entry :
    (k : String) (t : Tree) (es : Entries)
    → entry_texts (insert_entry k t es) ≡ insert_member (k, print t) (entry_texts es)
unfolding insert_entry insert_member print
entry_texts-insert_entry k t no_entries = refl
entry_texts-insert_entry k t (entry j u es) = go (compare j k) (entry_texts-insert_entry k t es)
  where
    go :
        (o : Ordering)
        → entry_texts (insert_entry k t es) ≡ insert_member (k, print t) (entry_texts es)
        → entry_texts (elim o [
          | Ordering.lt ↦ entry j u (insert_entry k t es)
          | _ ↦ entry k t (entry j u es)
        ])
          ≡ elim o [
            | Ordering.lt ↦ (j, print u) ∷ insert_member (k, print t) (entry_texts es)
            | _ ↦ (k, print t) ∷ (j, print u) ∷ entry_texts es
          ]
    go Ordering.lt h = ap (λ ms. (j, print u) ∷ ms) h
    go Ordering.eq h = refl
    go Ordering.gt h = refl

module _ (lib : Numbers) where
  unfoldable mutual
    unfolding canonical_number codes insert_entry

    pub tree : Json → Tree
    tree null = word (codes "null")
    tree (boolean true) = word (codes "true")
    tree (boolean false) = word (codes "false")
    tree (number n) = word (canonical_number lib n)
    tree (text s) = quoted s
    tree (array vs) = listing (branches vs)
    tree (object ms) = mapping (sorted ms)

    pub branches : Items → Branches
    branches no_items = no_branches
    branches (item v vs) = branch (tree v) (branches vs)

    pub sorted : Members → Entries
    sorted no_members = no_entries
    sorted (member k v ms) = insert_entry k (tree v) (sorted ms)

  mutual
    unfolding canonical_value tree print sort_members

    pub canonical_value-tree : (v : Json) → canonical_value lib v ≡ print (tree v)
    canonical_value-tree null = refl
    canonical_value-tree (boolean true) = refl
    canonical_value-tree (boolean false) = refl
    canonical_value-tree (number n) = refl
    canonical_value-tree (text s) = refl
    canonical_value-tree (array no_items) = refl
    canonical_value-tree (array (item v vs)) =
        rw (canonical_value-tree v, more_items-branches vs) refl
    canonical_value-tree (object ms) = ap members_text (sort_members-sorted ms)

    more_items-branches : (vs : Items) → more_items lib vs ≡ print_more (branches vs)
    more_items-branches no_items = refl
    more_items-branches (item v vs) = rw (canonical_value-tree v, more_items-branches vs) refl

    sort_members-sorted :
        (ms : Members) → sort_members (member_texts lib ms) ≡ entry_texts (sorted ms)
    sort_members-sorted no_members = refl
    sort_members-sorted (member k v ms) =
        rw (canonical_value-tree v, sort_members-sorted ms)
          (sym (entry_texts-insert_entry k (tree v) (sorted ms)))
