-- ===== src/Wire/Unordered.antt =====
-- internal/wire/jcs.go: JSON values up to the order of their members, as a quotient.
use mathlib.Core.Quot
use mathlib.Core.Quot.{Quot, Quot-set}
use mathlib.Core.List
use native.Mathlib.Nat.{ℕ_set}
use hacp_sidecar.Common.{ℕ, ◌≡◌, refl, sym, ap, ◌∙◌, Option, none, some, List}
use hacp_sidecar.Common.Utf8.{utf8_codes}
use hacp_sidecar.Wire.{Bytes}
use hacp_sidecar.Wire.Canonical.{Json, Numbers, canonical_value, canonicalize_json}
use hacp_sidecar.Wire.OrderFree.{Same, canonical_value-Same}

-- Two values are one where they differ in the order of the members of their objects alone.
abbrev pub Unordered : Type 0
Unordered = Quot Same

abbrev pub unordered : Json → Unordered
unordered v = Quot.mk v

-- The canonical form of a value without an order.
unfoldable pub canonical_of : Numbers → Unordered → List ℕ
canonical_of lib = Quot.lift (List.is_set ℕ_set) (canonical_value lib) (canonical_value-Same lib)

abbrev pub decode_unordered : (Bytes → Option Json) → Bytes → Option Unordered
decode_unordered decode bytes = elim (decode bytes) [ none ↦ none | some v ↦ some (unordered v) ]

unfoldable pub canonicalize_unordered : Numbers → Option Unordered → Option Bytes
unfolding canonical_of utf8_codes
canonicalize_unordered lib none = none
canonicalize_unordered lib (some q) = some (utf8_codes (canonical_of lib q))

-- The canonical form of a text is made of its value without an order.
canonicalize_json-factors :
    (lib : Numbers) (decode : Bytes → Option Json) (bytes : Bytes)
    → canonicalize_json lib decode bytes
      ≡ canonicalize_unordered lib (decode_unordered decode bytes)
unfolding canonicalize_json canonicalize_unordered canonical_of
canonicalize_json-factors lib decode bytes = go (decode bytes)
  where
    go :
        (o : Option Json)
        → (elim o [ none ↦ none | some v ↦ some (utf8_codes (canonical_value lib v)) ])
          ≡ canonicalize_unordered lib (elim o [ none ↦ none | some v ↦ some (unordered v) ])
    go none = refl
    go (some v) = refl

-- Texts that decode to one value, once the order of the members of objects is forgotten at every depth,
-- have one canonical form: what is signed and hashed holds no order.
pub canonicalize_json-Unordered :
    (lib : Numbers) (decode : Bytes → Option Json) (a b : Bytes)
    → decode_unordered decode a ≡ decode_unordered decode b
    → canonicalize_json lib decode a ≡ canonicalize_json lib decode b
canonicalize_json-Unordered lib decode a b h =
    canonicalize_json-factors lib decode a
    ∙ ap (canonicalize_unordered lib) h
    ∙ sym (canonicalize_json-factors lib decode b)
