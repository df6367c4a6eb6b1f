-- ===== src/Wire/Escapes.antt =====
-- internal/wire/jcs.go: a reader of the escapes of `canonicalizeString`.
use hacp_sidecar.Common.{
  ℕ, ◌+◌, ◌-◌, ◌*◌, ◌/◌, ◌%◌, ◌<◌, ◌≡◌, ◌≢◌, refl, sym, ap, ◌∙◌, Option, none, some, List, [], ◌∷◌,
  ◌++◌, append_assoc, ltb, ◌==◌, arith, if◌then◌else◌,
}
use hacp_sidecar.Common.Utf8.{pair_injective}
use hacp_sidecar.Wire.Canonical.{hex_digit, escape, escape_all, canonical_string}

-- A reader of one escape, or of one code point that is not escaped.
abbrev hex_value : ℕ → ℕ
hex_value x = if ltb x 58 then x - 48 else x - 87

abbrev letter_value : ℕ → ℕ
letter_value x =
    if x == b'b'
    then 8
    else if x == b'f'
    then 12
    else if x == b'n'
    then 10
    else if x == b'r'
    then 13
    else if x == b't'
    then 9
    else x

abbrev read_hex : List ℕ → Option (ℕ × List ℕ)
read_hex (z ∷ y ∷ a ∷ b ∷ r) = some (16 * hex_value a + hex_value b, r)
read_hex _ = none

abbrev read_escape : List ℕ → Option (ℕ × List ℕ)
read_escape [] = none
read_escape (x ∷ r) = if x == b'u' then read_hex r else some (letter_value x, r)

abbrev pub read_code : List ℕ → Option (ℕ × List ℕ)
read_code [] = none
read_code (x ∷ r) = if x == 92 then read_escape r else some (x, r)

hex_value-hex_digit : (n : ℕ) → n < 16 → hex_value (hex_digit n) ≡ n
unfolding hex_digit
hex_value-hex_digit n h = ground (arith, h)

-- What is escaped is read back, whatever follows it.
pub read_code-escape : (c : ℕ) (r : List ℕ) → read_code (escape c ++ r) ≡ some (c, r)
unfolding escape
read_code-escape c r = ground (arith, hex_value-hex_digit (c / 16), hex_value-hex_digit (c % 16))

-- No escape begins with a quote.
escape-quote : (c : ℕ) (r s : List ℕ) → escape c ++ r ≢ 34 ∷ s
unfolding escape
escape-quote c r s h = ground (arith, h)

tail_injective : (c d : ℕ) (r s : List ℕ) → c ∷ r ≡ d ∷ s → r ≡ s
tail_injective c d r s h = cc h

-- The code points before the closing quote are determined, and so is what follows it.
escape_all_unique :
    (cs ds r s : List ℕ)
    → escape_all cs ++ (34 ∷ r) ≡ escape_all ds ++ (34 ∷ s)
    → (cs ≡ ds) × (r ≡ s)
unfolding escape_all
escape_all_unique [] [] r s h = (refl, tail_injective 34 34 r s h)
escape_all_unique [] (d ∷ ds) r s h = absurd (
    escape-quote d (escape_all ds ++ (34 ∷ s)) r
      (sym (append_assoc (escape d) (escape_all ds) (34 ∷ s)) ∙ sym h))
escape_all_unique (c ∷ cs) [] r s h = absurd (
    escape-quote c (escape_all cs ++ (34 ∷ r)) s
      (sym (append_assoc (escape c) (escape_all cs) (34 ∷ r)) ∙ h))
escape_all_unique (c ∷ cs) (d ∷ ds) r s h =
    let joined =
      sym (append_assoc (escape c) (escape_all cs) (34 ∷ r))
      ∙ h
      ∙ append_assoc (escape d) (escape_all ds) (34 ∷ s) in
    let codes_read =
      sym (read_code-escape c (escape_all cs ++ (34 ∷ r)))
      ∙ ap read_code joined
      ∙ read_code-escape d (escape_all ds ++ (34 ∷ s)) in
    let (head, tail) =
      pair_injective c d (escape_all cs ++ (34 ∷ r)) (escape_all ds ++ (34 ∷ s)) codes_read in
    let (rest, after) = escape_all_unique cs ds r s tail in (cc (head, rest), after)

-- A string's canonical text ends where its value does.
pub canonical_string_unique :
    (cs ds r s : List ℕ) → canonical_string cs ++ r ≡ canonical_string ds ++ s → (cs ≡ ds) × (r ≡ s)
unfolding canonical_string
canonical_string_unique cs ds r s h = escape_all_unique cs ds r s (
    sym (append_assoc (escape_all cs) (34 ∷ []) r)
    ∙ tail_injective 34 34 ((escape_all cs ++ (34 ∷ [])) ++ r) ((escape_all ds ++ (34 ∷ [])) ++ s) h
    ∙ append_assoc (escape_all ds) (34 ∷ []) s)
