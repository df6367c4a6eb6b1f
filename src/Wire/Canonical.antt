-- ===== src/Wire/Canonical.antt =====
-- internal/wire/jcs.go: canonical JSON. A decoded value is a tree; the members of an object are those of a Go
-- map, with the keys all different. Decoding, and what strconv and floating point do with the text of a
-- number, are arguments. A text is written as its code points, and the buffer's bytes are their UTF-8.
use Prim.Native.Nat.{Ordering}
use Prim.Native.String.{compare}
use hacp_sidecar.Common.{
  ℕ, ◌+◌, ◌/◌, ◌%◌, String, Bool, true, false, ◌&&◌, Option, none, some, List, [], ◌∷◌, ◌++◌, ltb,
  str_eq, ◌==◌, if◌then◌else◌,
}
use hacp_sidecar.Common.Int.{ℤ}
use hacp_sidecar.Common.Utf8.{codes, utf8_codes}
use hacp_sidecar.Wire.{Bytes}

mutual
  pub data Json : Type 0 where
    null : Json
    boolean : Bool → Json
    number : String → Json
    text : String → Json
    array : Items → Json
    object : Members → Json

  pub data Items : Type 0 where
    no_items : Items
    item : Json → Items → Items

  pub data Members : Type 0 where
    no_members : Members
    member : String → Json → Members → Members

-- strconv, json.Number and `float64`, whose values are `Float`.
pub record Numbers : Type 1 where
  pub Float : Type 0
  pub int64 : String → Option ℤ
  pub float64 : String → Option Float
  pub is_nan_or_inf : Float → Bool
  pub below_2_53 : Float → Bool
  pub truncated : Float → ℤ
  pub is_whole : Float → Bool
  pub format_int : ℤ → List ℕ
  pub format_float : Float → List ℕ

unfoldable pub hex_digit : ℕ → ℕ
hex_digit n = if ltb n 10 then b'0' + n else 87 + n

-- One code point of `canonicalizeString`.
unfoldable pub escape : ℕ → List ℕ
unfolding hex_digit
escape c =
    if c == 34
    then 92 ∷ 34 ∷ []
    else if c == 92
    then 92 ∷ 92 ∷ []
    else if c == 8
    then 92 ∷ b'b' ∷ []
    else if c == 12
    then 92 ∷ b'f' ∷ []
    else if c == 10
    then 92 ∷ b'n' ∷ []
    else if c == 13
    then 92 ∷ b'r' ∷ []
    else if c == 9
    then 92 ∷ b't' ∷ []
    else if ltb c 32
    then 92 ∷ b'u' ∷ b'0' ∷ b'0' ∷ hex_digit (c / 16) ∷ hex_digit (c % 16) ∷ []
    else c ∷ []

unfoldable pub escape_all : List ℕ → List ℕ
unfolding escape
escape_all [] = []
escape_all (c ∷ cs) = escape c ++ escape_all cs

unfoldable pub canonical_string : List ℕ → List ℕ
unfolding escape_all
canonical_string cs = 34 ∷ (escape_all cs ++ (34 ∷ []))

-- The sorted keys with their values' texts: `sort.Strings` orders as the code points do.
unfoldable pub insert_member : String × List ℕ → List (String × List ℕ) → List (String × List ℕ)
insert_member m [] = m ∷ []
insert_member m (n ∷ ms) =
    let rest = insert_member m ms in
    elim (compare n.0 m.0) [ Ordering.lt ↦ n ∷ rest | _ ↦ m ∷ n ∷ ms ]

unfoldable pub sort_members : List (String × List ℕ) → List (String × List ℕ)
unfolding insert_member
sort_members [] = []
sort_members (m ∷ ms) = insert_member m (sort_members ms)

-- One member, and those after it.
unfoldable pub member_text : String × List ℕ → List ℕ
unfolding canonical_string codes
member_text m = canonical_string (codes m.0) ++ (58 ∷ m.1)

unfoldable pub more_members : List (String × List ℕ) → List ℕ
unfolding member_text
more_members [] = 125 ∷ []
more_members (m ∷ ms) = 44 ∷ (member_text m ++ more_members ms)

unfoldable pub members_text : List (String × List ℕ) → List ℕ
unfolding more_members member_text
members_text [] = 123 ∷ 125 ∷ []
members_text (m ∷ ms) = 123 ∷ (member_text m ++ more_members ms)

module _ (lib : Numbers) where
  -- `canonicalizeNumber`.
  unfoldable pub canonical_float : lib.Float → List ℕ
  unfolding codes
  canonical_float f =
      if lib.is_nan_or_inf f
      then codes "null"
      else if lib.below_2_53 f && lib.is_whole f
      then lib.format_int (lib.truncated f)
      else lib.format_float f

  -- `canonicalizeJSONNumber`.
  unfoldable pub canonical_number : String → List ℕ
  unfolding canonical_float codes
  canonical_number n = elim (lib.int64 n) [
    | some i ↦ lib.format_int i
    | none ↦ elim (lib.float64 n) [ some f ↦ canonical_float f | none ↦ codes n ]
  ]

  unfoldable mutual
    unfolding canonical_number canonical_string codes sort_members members_text

    -- `canonicalizeValue`.
    pub canonical_value : Json → List ℕ
    canonical_value null = codes "null"
    canonical_value (boolean true) = codes "true"
    canonical_value (boolean false) = codes "false"
    canonical_value (number n) = canonical_number n
    canonical_value (text s) = canonical_string (codes s)
    canonical_value (array no_items) = 91 ∷ 93 ∷ []
    canonical_value (array (item v vs)) = 91 ∷ (canonical_value v ++ more_items vs)
    canonical_value (object ms) = members_text (sort_members (member_texts ms))

    pub more_items : Items → List ℕ
    more_items no_items = 93 ∷ []
    more_items (item v vs) = 44 ∷ (canonical_value v ++ more_items vs)

    pub member_texts : Members → List (String × List ℕ)
    member_texts no_members = []
    member_texts (member k v ms) = (k, canonical_value v) ∷ member_texts ms

  -- `CanonicalizeJSON`, with `json.Decoder.Decode` for its argument.
  unfoldable pub canonicalize_json : (Bytes → Option Json) → Bytes → Option Bytes
  unfolding canonical_value utf8_codes
  canonicalize_json decode bytes = elim (decode bytes) [
    | none ↦ none
    | some v ↦ some (utf8_codes (canonical_value v))
  ]

  -- `delete(obj, key)`.
  unfoldable pub remove : String → Members → Members
  remove key no_members = no_members
  remove key (member k v ms) =
      let rest = remove key ms in if str_eq k key then rest else member k v rest

  -- `RemoveSignatureField`: decoding into a map fails on a value that is no object, but for null, which
  -- leaves the map nil; a nil map is written as an empty one.
  unfoldable pub remove_signature_field : (Bytes → Option Json) → Bytes → Option Bytes
  unfolding canonical_value utf8_codes remove
  remove_signature_field decode bytes = elim (decode bytes) [
    | some (object ms) ↦ some (utf8_codes (canonical_value (object (remove "signature" ms))))
    | some null ↦ some (utf8_codes (canonical_value (object no_members)))
    | _ ↦ none
  ]

  -- `VerifyCanonicalization`.
  unfoldable pub verify_canonicalization :
      (Bytes → Option Json) → (Bytes → Bytes → Bool) → Bytes → Bytes → Option Bool
  unfolding canonicalize_json
  verify_canonicalization decode equal a b = elim (canonicalize_json decode a) [
    | none ↦ none
    | some canon_a ↦ elim (canonicalize_json decode b) [
      | none ↦ none
      | some canon_b ↦ some (equal canon_a canon_b)
    ]
  ]
