-- ===== src/Wire/Reading.antt =====
-- internal/wire/jcs.go: canonical texts of trees, one after another.
use hacp_sidecar.Common.{
  ℕ, String, ◌≡◌, ◌≢◌, refl, sym, ap, ◌∙◌, Bool, true, ◌&&◌, List, ◌∷◌, ◌++◌, append_assoc, arith,
}
use hacp_sidecar.Common.Utf8.{codes, codes-injective}
use hacp_sidecar.Wire.Canonical.{canonical_string, more_members, members_text, member_text}
use hacp_sidecar.Wire.Escapes.{canonical_string_unique}
use hacp_sidecar.Wire.Normal.{
  Tree, word, quoted, listing, mapping, Branches, no_branches, branch, Entries, no_entries, entry,
  print, print_more, entry_texts,
}
use hacp_sidecar.Wire.Unique.{
  ends, word_unique, is_tree, are_trees, are_entries, tree_mark, first_mark-print,
  tree_mark-bracket, first_mark,
}

string_unique :
    (s t : String) (q r : List ℕ)
    → canonical_string (codes s) ++ q ≡ canonical_string (codes t) ++ r
    → (s ≡ t) × (q ≡ r)
string_unique s t q r h =
    let (read, after) = canonical_string_unique (codes s) (codes t) q r h in
    (codes-injective s t read, after)

tail_injective : (c d : ℕ) (r s : List ℕ) → c ∷ r ≡ d ∷ s → r ≡ s
tail_injective c d r s h = cc h

marks_agree :
    (t u : Tree) (r s : List ℕ)
    → is_tree t ≡ true
    → is_tree u ≡ true
    → print t ++ r ≡ print u ++ s
    → tree_mark t ≡ tree_mark u
marks_agree t u r s ht hu h =
    sym (first_mark-print t r ht) ∙ ap first_mark h ∙ first_mark-print u s hu

-- A value does not begin with the bracket that closes an array.
not_bracket : (t : Tree) (r s : List ℕ) → is_tree t ≡ true → print t ++ r ≢ 93 ∷ s
unfolding first_mark
not_bracket t r s ht h = tree_mark-bracket t (sym (first_mark-print t r ht) ∙ ap first_mark h)

print_more-ends : (ts : Branches) (r : List ℕ) → ends (print_more ts ++ r) ≡ true
unfolding print ends
print_more-ends no_branches r = refl
print_more-ends (branch t ts) r = refl

more_members-ends : (es : Entries) (r : List ℕ) → ends (more_members (entry_texts es) ++ r) ≡ true
unfolding more_members print ends
more_members-ends no_entries r = refl
more_members-ends (entry k t es) r = refl

pub and_left : (a b : Bool) → (a && b) ≡ true → a ≡ true
and_left a b h = ground (arith, h)

pub and_right : (a b : Bool) → (a && b) ≡ true → b ≡ true
and_right a b h = ground (arith, h)

-- One member, what follows it put after its value.
entry_text :
    (k : String) (t : Tree) (es : Entries) (r : List ℕ)
    → (member_text (k, print t) ++ more_members (entry_texts es)) ++ r
      ≡ canonical_string (codes k) ++ (58 ∷ (print t ++ (more_members (entry_texts es) ++ r)))
unfolding member_text
entry_text k t es r =
    append_assoc (member_text (k, print t)) (more_members (entry_texts es)) r
    ∙ append_assoc (canonical_string (codes k)) (58 ∷ print t) (more_members (entry_texts es) ++ r)

-- What is read back of two values, of two lists of values and of two lists of members: the texts are the
-- same where the values are, and so is what follows.
abbrev SameTree : Tree → Tree → Type 0
SameTree t u =
    (r s : List ℕ)
    → is_tree t ≡ true
    → is_tree u ≡ true
    → ends r ≡ true
    → ends s ≡ true
    → print t ++ r ≡ print u ++ s
    → (t ≡ u) × (r ≡ s)

abbrev SameBranches : Branches → Branches → Type 0
SameBranches ts us =
    (r s : List ℕ)
    → are_trees ts ≡ true
    → are_trees us ≡ true
    → print_more ts ++ r ≡ print_more us ++ s
    → (ts ≡ us) × (r ≡ s)

abbrev SameEntries : Entries → Entries → Type 0
SameEntries es fs =
    (r s : List ℕ)
    → are_entries es ≡ true
    → are_entries fs ≡ true
    → more_members (entry_texts es) ++ r ≡ more_members (entry_texts fs) ++ s
    → (es ≡ fs) × (r ≡ s)

same_branch : {t u : Tree} {ts us : Branches} → t ≡ u → ts ≡ us → branch t ts ≡ branch u us
same_branch h k = cc (h, k)

same_entry :
    {j k : String} {t u : Tree} {es fs : Entries}
    → j ≡ k
    → t ≡ u
    → es ≡ fs
    → entry j t es ≡ entry k u fs
same_entry g h i = cc (g, h, i)

branch_unique :
    (t u : Tree) (ts us : Branches)
    → SameTree t u
    → SameBranches ts us
    → (r s : List ℕ) → (is_tree t && are_trees ts) ≡ true
    → (is_tree u && are_trees us) ≡ true
    → (print t ++ print_more ts) ++ r ≡ (print u ++ print_more us) ++ s
    → (branch t ts ≡ branch u us) × (r ≡ s)
branch_unique t u ts us first others r s ht hu h =
    let (same, after) =
      first (print_more ts ++ r) (print_more us ++ s) (and_left _ _ ht) (and_left _ _ hu)
        (print_more-ends ts r) (print_more-ends us s)
        (sym (append_assoc (print t) (print_more ts) r)
          ∙ h
          ∙ append_assoc (print u) (print_more us) s) in
    let (rest, end) = others r s (and_right _ _ ht) (and_right _ _ hu) after in
    (same_branch same rest, end)

entry_unique :
    (j k : String) (t u : Tree) (es fs : Entries)
    → SameTree t u
    → SameEntries es fs
    → (r s : List ℕ) → (is_tree t && are_entries es) ≡ true
    → (is_tree u && are_entries fs) ≡ true
    → (member_text (j, print t) ++ more_members (entry_texts es)) ++ r
      ≡ (member_text (k, print u) ++ more_members (entry_texts fs)) ++ s
    → (entry j t es ≡ entry k u fs) × (r ≡ s)
entry_unique j k t u es fs first others r s ht hu h =
    let (key, after_key) =
      string_unique j k _ _ (sym (entry_text j t es r) ∙ h ∙ entry_text k u fs s) in
    let (same, after) =
      first (more_members (entry_texts es) ++ r) (more_members (entry_texts fs) ++ s)
        (and_left _ _ ht) (and_left _ _ hu) (more_members-ends es r) (more_members-ends fs s)
        (tail_injective _ _ _ _ after_key) in
    let (rest, end) = others r s (and_right _ _ ht) (and_right _ _ hu) after in
    (same_entry key same rest, end)

-- What a value's text followed by more is, read back one value at a time.
mutual
  unfolding is_tree print tree_mark members_text more_members

  pub print_unique : (t u : Tree) → SameTree t u
  print_unique (word a) (word b) r s ht hu hr hs h =
      let (same, after) = word_unique a b r s ht hu hr hs h in (ap word same, after)
  print_unique (quoted a) (quoted b) r s ht hu hr hs h =
      let (same, after) = string_unique a b r s h in (ap quoted same, after)
  print_unique (listing ts) (listing us) r s ht hu hr hs h =
      let (same, after) = listing_unique ts us r s ht hu h in (ap listing same, after)
  print_unique (mapping es) (mapping fs) r s ht hu hr hs h =
      let (same, after) = mapping_unique es fs r s ht hu h in (ap mapping same, after)
  print_unique (word a) (quoted b) r s ht hu hr hs h =
      absurd (omega (arith, marks_agree (word a) (quoted b) r s ht hu h))
  print_unique (word a) (listing us) r s ht hu hr hs h =
      absurd (omega (arith, marks_agree (word a) (listing us) r s ht hu h))
  print_unique (word a) (mapping fs) r s ht hu hr hs h =
      absurd (omega (arith, marks_agree (word a) (mapping fs) r s ht hu h))
  print_unique (quoted a) (word b) r s ht hu hr hs h =
      absurd (omega (arith, marks_agree (quoted a) (word b) r s ht hu h))
  print_unique (quoted a) (listing us) r s ht hu hr hs h =
      absurd (omega (arith, marks_agree (quoted a) (listing us) r s ht hu h))
  print_unique (quoted a) (mapping fs) r s ht hu hr hs h =
      absurd (omega (arith, marks_agree (quoted a) (mapping fs) r s ht hu h))
  print_unique (listing ts) (word b) r s ht hu hr hs h =
      absurd (omega (arith, marks_agree (listing ts) (word b) r s ht hu h))
  print_unique (listing ts) (quoted b) r s ht hu hr hs h =
      absurd (omega (arith, marks_agree (listing ts) (quoted b) r s ht hu h))
  print_unique (listing ts) (mapping fs) r s ht hu hr hs h =
      absurd (omega (arith, marks_agree (listing ts) (mapping fs) r s ht hu h))
  print_unique (mapping es) (word b) r s ht hu hr hs h =
      absurd (omega (arith, marks_agree (mapping es) (word b) r s ht hu h))
  print_unique (mapping es) (quoted b) r s ht hu hr hs h =
      absurd (omega (arith, marks_agree (mapping es) (quoted b) r s ht hu h))
  print_unique (mapping es) (listing us) r s ht hu hr hs h =
      absurd (omega (arith, marks_agree (mapping es) (listing us) r s ht hu h))

  listing_unique :
      (ts us : Branches) (r s : List ℕ)
      → are_trees ts ≡ true
      → are_trees us ≡ true
      → print (listing ts) ++ r ≡ print (listing us) ++ s
      → (ts ≡ us) × (r ≡ s)
  listing_unique no_branches no_branches r s ht hu h = (refl, cc h)
  listing_unique no_branches (branch u us) r s ht hu h = absurd (
      not_bracket u (print_more us ++ s) r (and_left _ _ hu)
        (sym (append_assoc (print u) (print_more us) s) ∙ sym (tail_injective _ _ _ _ h)))
  listing_unique (branch t ts) no_branches r s ht hu h = absurd (
      not_bracket t (print_more ts ++ r) s (and_left _ _ ht)
        (sym (append_assoc (print t) (print_more ts) r) ∙ tail_injective _ _ _ _ h))
  listing_unique (branch t ts) (branch u us) r s ht hu h =
      branch_unique t u ts us (print_unique t u) (print_more_unique ts us) r s ht hu
        (tail_injective _ _ _ _ h)

  print_more_unique : (ts us : Branches) → SameBranches ts us
  print_more_unique no_branches no_branches r s ht hu h = (refl, cc h)
  print_more_unique no_branches (branch u us) r s ht hu h = ground (arith, h)
  print_more_unique (branch t ts) no_branches r s ht hu h = ground (arith, h)
  print_more_unique (branch t ts) (branch u us) r s ht hu h =
      branch_unique t u ts us (print_unique t u) (print_more_unique ts us) r s ht hu
        (tail_injective _ _ _ _ h)

  mapping_unique :
      (es fs : Entries) (r s : List ℕ)
      → are_entries es ≡ true
      → are_entries fs ≡ true
      → print (mapping es) ++ r ≡ print (mapping fs) ++ s
      → (es ≡ fs) × (r ≡ s)
  mapping_unique no_entries no_entries r s ht hu h = (refl, cc h)
  mapping_unique no_entries (entry k u fs) r s ht hu h = ground (arith, h)
  mapping_unique (entry j t es) no_entries r s ht hu h = ground (arith, h)
  mapping_unique (entry j t es) (entry k u fs) r s ht hu h =
      entry_unique j k t u es fs (print_unique t u) (more_members_unique es fs) r s ht hu
        (tail_injective _ _ _ _ h)

  more_members_unique : (es fs : Entries) → SameEntries es fs
  more_members_unique no_entries no_entries r s ht hu h = (refl, cc h)
  more_members_unique no_entries (entry k u fs) r s ht hu h = ground (arith, h)
  more_members_unique (entry j t es) no_entries r s ht hu h = ground (arith, h)
  more_members_unique (entry j t es) (entry k u fs) r s ht hu h =
      entry_unique j k t u es fs (print_unique t u) (more_members_unique es fs) r s ht hu
        (tail_injective _ _ _ _ h)
