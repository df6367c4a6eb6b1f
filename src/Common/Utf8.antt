-- ===== src/Common/Utf8.antt =====
-- The bytes of a Go string: its characters in UTF-8.
use Prim.Native.Nat.{ℕ, ◌+◌, ◌-◌, ◌*◌, ◌/◌, ◌%◌}
use Prim.Native.Char.{code}
use Prim.Native.String.{String, [] as nil_text, ◌∷◌ as ◌◂◌}
use mathlib.Core.Path.{◌≡◌, refl, sym, ap, ◌∙◌}
use mathlib.Core.Option.{Option, none, some}
use native.Mathlib.Omega.{arith}
use text.Mathlib.TextEquality.{Char-path}
use mathlib.Core.Bool.{Bool, true, not, ◌&&◌}
use mathlib.Core.List.{List, [], ◌∷◌, ◌++◌, append_assoc}
use hacp_sidecar.Common.Tests.{ltb, ◌==◌, if◌then◌else◌}

-- The bytes of a character, in UTF-8.
abbrev pub utf8_char : ℕ → List ℕ
utf8_char n =
    if ltb n 128
    then n ∷ []
    else if ltb n 2048
    then (192 + n / 64) ∷ (128 + n % 64) ∷ []
    else if ltb n 65536
    then (224 + n / 4096) ∷ (128 + n / 64 % 64) ∷ (128 + n % 64) ∷ []
    else (240 + n / 262144) ∷ (128 + n / 4096 % 64) ∷ (128 + n / 64 % 64) ∷ (128 + n % 64) ∷ []

-- The code points of a string.
unfoldable pub codes : String → List ℕ
codes nil_text = []
codes (c ◂ s) = code c ∷ codes s

pub codes-injective : (s t : String) → codes s ≡ codes t → s ≡ t
unfolding codes
codes-injective nil_text nil_text h = refl
codes-injective nil_text (c ◂ t) h = ground (arith, h)
codes-injective (c ◂ s) nil_text h = ground (arith, h)
codes-injective (c ◂ s) (d ◂ t) h = cc (Char-path c d (cc h), codes-injective s t (cc h))

unfoldable pub utf8_codes : List ℕ → List ℕ
utf8_codes [] = []
utf8_codes (c ∷ cs) = utf8_char c ++ utf8_codes cs

-- `[]byte(s)`.
unfoldable pub utf8 : String → List ℕ
unfolding codes utf8_codes
utf8 s = utf8_codes (codes s)

utf8_example : utf8 "aé€𝄞" ≡ 97 ∷ 195 ∷ 169 ∷ 226 ∷ 130 ∷ 172 ∷ 240 ∷ 157 ∷ 132 ∷ 158 ∷ []
unfolding utf8
utf8_example = refl

-- The character that a text in UTF-8 begins with, and the rest.
abbrev decode_char : List ℕ → Option (ℕ × List ℕ)
decode_char (a ∷ s) =
    if ltb a 128
    then some (a, s)
    else if ltb a 224
    then two a s
    else if ltb a 240
    then three a s
    else four a s
  where
    two : ℕ → List ℕ → Option (ℕ × List ℕ)
    two a (b ∷ s) = some ((a - 192) * 64 + (b - 128), s)
    two a [] = none

    three : ℕ → List ℕ → Option (ℕ × List ℕ)
    three a (b ∷ c ∷ s) = some ((a - 224) * 4096 + (b - 128) * 64 + (c - 128), s)
    three a _ = none

    four : ℕ → List ℕ → Option (ℕ × List ℕ)
    four a (b ∷ c ∷ d ∷ s) =
        some ((a - 240) * 262144 + (b - 128) * 4096 + (c - 128) * 64 + (d - 128), s)
    four a _ = none
decode_char [] = none

decode_char-utf8_char : (n : ℕ) (s : List ℕ) → decode_char (utf8_char n ++ s) ≡ some (n, s)
decode_char-utf8_char n s = ground arith

pub pair_injective :
    (c d : ℕ) (r s : List ℕ)
    → ◌≡◌ {A = Option (ℕ × List ℕ)} (some (c, r)) (some (d, s))
    → (c ≡ d) × (r ≡ s)
pair_injective c d r s h = (cc h, cc h)

-- The first character of a text in UTF-8 and the rest are determined.
utf8_char_unique :
    (c d : ℕ) (r s : List ℕ) → utf8_char c ++ r ≡ utf8_char d ++ s → (c ≡ d) × (r ≡ s)
utf8_char_unique c d r s h =
    pair_injective c d r s
      (sym (decode_char-utf8_char c r) ∙ ap decode_char h ∙ decode_char-utf8_char d s)

abbrev pub has_no_nul : List ℕ → Bool
has_no_nul [] = true
has_no_nul (c ∷ cs) = not (c == 0) && has_no_nul cs

-- A text in UTF-8 without a NUL ends at the first NUL.
pub utf8_codes_unique :
    (cs ds r s : List ℕ)
    → has_no_nul cs ≡ true
    → has_no_nul ds ≡ true
    → utf8_codes cs ++ (0 ∷ r) ≡ utf8_codes ds ++ (0 ∷ s)
    → (cs ≡ ds) × (r ≡ s)
unfolding utf8_codes
utf8_codes_unique [] [] r s hc hd h = (refl, cc h)
utf8_codes_unique [] (d ∷ ds) r s hc hd h =
    let (same, _) =
      utf8_char_unique 0 d r (utf8_codes ds ++ (0 ∷ s))
        (h ∙ append_assoc (utf8_char d) (utf8_codes ds) (0 ∷ s)) in
    absurd (ground (arith, hd, same))
utf8_codes_unique (c ∷ cs) [] r s hc hd h =
    let (same, _) =
      utf8_char_unique 0 c s (utf8_codes cs ++ (0 ∷ r))
        (sym h ∙ append_assoc (utf8_char c) (utf8_codes cs) (0 ∷ r)) in
    absurd (ground (arith, hc, same))
utf8_codes_unique (c ∷ cs) (d ∷ ds) r s hc hd h =
    let (first, rest) = utf8_char_unique c d (utf8_codes cs ++ (0 ∷ r)) (utf8_codes ds ++ (0 ∷ s)) (
      sym (append_assoc (utf8_char c) (utf8_codes cs) (0 ∷ r))
      ∙ h
      ∙ append_assoc (utf8_char d) (utf8_codes ds) (0 ∷ s)) in
    let (same, after) =
      utf8_codes_unique cs ds r s (ground (arith, hc)) (ground (arith, hd)) rest in
    (cc (first, same), after)

-- What is written in UTF-8 can be read.
pub utf8_codes-injective : (cs ds : List ℕ) → utf8_codes cs ≡ utf8_codes ds → cs ≡ ds
unfolding utf8_codes
utf8_codes-injective [] [] h = refl
utf8_codes-injective [] (d ∷ ds) h =
    absurd (ground (arith, ap decode_char h, decode_char-utf8_char d (utf8_codes ds)))
utf8_codes-injective (c ∷ cs) [] h =
    absurd (ground (arith, ap decode_char h, decode_char-utf8_char c (utf8_codes cs)))
utf8_codes-injective (c ∷ cs) (d ∷ ds) h =
    let (first, rest) = utf8_char_unique c d (utf8_codes cs) (utf8_codes ds) h in
    cc (first, utf8_codes-injective cs ds rest)
