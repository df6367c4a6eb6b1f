-- ===== src/Wire/Unique.antt =====
-- internal/wire/jcs.go: the words of a canonical text, and how a value in it begins and ends.
use hacp_sidecar.Common.{
  ℕ, ◌≡◌, ◌≢◌, refl, Bool, true, false, not, ◌&&◌, ◌||◌, List, [], ◌∷◌, ◌++◌, ◌==◌, arith,
  if◌then◌else◌,
}
use hacp_sidecar.Wire.Normal.{
  Tree, word, quoted, listing, mapping, Branches, no_branches, branch, Entries, no_entries, entry,
  print,
}

-- The characters that begin a value which is no word, and those that end one.
unfoldable is_mark : ℕ → Bool
is_mark c = c == 34 || c == 44 || c == 91 || c == 93 || c == 123 || c == 125

unfoldable plain : List ℕ → Bool
unfolding is_mark
plain [] = true
plain (c ∷ cs) = not (is_mark c) && plain cs

-- A word as it is printed: null, a Boolean or a number.
unfoldable pub is_word : List ℕ → Bool
unfolding plain
is_word [] = false
is_word (c ∷ cs) = plain (c ∷ cs)

unfoldable pub ends : List ℕ → Bool
unfolding is_mark
ends [] = true
ends (c ∷ cs) = is_mark c

plain_unique :
    (a b r s : List ℕ)
    → plain a ≡ true
    → plain b ≡ true
    → ends r ≡ true
    → ends s ≡ true
    → a ++ r ≡ b ++ s
    → (a ≡ b) × (r ≡ s)
unfolding plain ends
plain_unique [] [] r s ha hb hr hs h = (refl, h)
plain_unique [] (d ∷ b) r s ha hb hr hs h = ground (arith, ha, hb, hr, hs, h)
plain_unique (c ∷ a) [] r s ha hb hr hs h = ground (arith, ha, hb, hr, hs, h)
plain_unique (c ∷ a) (d ∷ b) r s ha hb hr hs h =
    let (rest, after) =
      plain_unique a b r s (ground (arith, ha)) (ground (arith, hb)) hr hs (cc h) in
    (cc (rest, h), after)

pub word_unique :
    (a b r s : List ℕ)
    → is_word a ≡ true
    → is_word b ≡ true
    → ends r ≡ true
    → ends s ≡ true
    → a ++ r ≡ b ++ s
    → (a ≡ b) × (r ≡ s)
unfolding is_word
word_unique [] b r s ha hb hr hs h = ground (arith, ha)
word_unique (c ∷ a) [] r s ha hb hr hs h = ground (arith, hb)
word_unique (c ∷ a) (d ∷ b) r s ha hb hr hs h = plain_unique (c ∷ a) (d ∷ b) r s ha hb hr hs h

-- The trees whose words are well formed.
unfoldable mutual
  unfolding is_word

  pub is_tree : Tree → Bool
  is_tree (word w) = is_word w
  is_tree (quoted s) = true
  is_tree (listing ts) = are_trees ts
  is_tree (mapping es) = are_entries es

  pub are_trees : Branches → Bool
  are_trees no_branches = true
  are_trees (branch t ts) = is_tree t && are_trees ts

  pub are_entries : Entries → Bool
  are_entries no_entries = true
  are_entries (entry k t es) = is_tree t && are_entries es

-- How a value begins.
unfoldable pub first_mark : List ℕ → ℕ
unfolding is_mark
first_mark [] = 0
first_mark (c ∷ cs) = if is_mark c then c else 0

unfoldable pub tree_mark : Tree → ℕ
tree_mark (word w) = 0
tree_mark (quoted s) = 34
tree_mark (listing ts) = 91
tree_mark (mapping es) = 123

first_mark-word : (w r : List ℕ) → is_word w ≡ true → first_mark (w ++ r) ≡ 0
unfolding is_word first_mark
first_mark-word [] r h = ground (arith, h)
first_mark-word (c ∷ w) r h = ground (arith, h)

pub first_mark-print :
    (t : Tree) (r : List ℕ) → is_tree t ≡ true → first_mark (print t ++ r) ≡ tree_mark t
unfolding is_tree print first_mark tree_mark
first_mark-print (word w) r h = first_mark-word w r h
first_mark-print (quoted s) r h = refl
first_mark-print (listing no_branches) r h = refl
first_mark-print (listing (branch t ts)) r h = refl
first_mark-print (mapping no_entries) r h = refl
first_mark-print (mapping (entry k t es)) r h = refl

pub tree_mark-bracket : (t : Tree) → tree_mark t ≢ 93
unfolding tree_mark
tree_mark-bracket (word w) h = omega (arith, h)
tree_mark-bracket (quoted s) h = omega (arith, h)
tree_mark-bracket (listing ts) h = omega (arith, h)
tree_mark-bracket (mapping es) h = omega (arith, h)
