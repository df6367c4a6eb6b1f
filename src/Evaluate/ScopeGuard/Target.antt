-- ===== src/Evaluate/ScopeGuard/Target.antt =====
-- The comparison of request targets against a normal form: RFC 3986 takes percent-encodings that
-- differ only in the case of their hexadecimal digits to be equal.
use hacp_sidecar.Common.{
  ℕ, ◌≡◌, ◌≢◌, refl, sym, ap, subst, ◌∙◌, ◌↔◌, inl, inr, Bool, true, false, not, ◌&&◌, ◌||◌, [],
  ◌∷◌, arith, length, ◌==◌, if◌then◌else◌, Bool-cases,
}
use hacp_sidecar.Wire.{Bytes}
use hacp_sidecar.Evaluate.ScopeGuard.{is_hex, lower_hex, equal_from, equal_request_target}

-- Whether a percent-encoding starts here.
abbrev pub is_escape : ℕ → ℕ → ℕ → Bool
is_escape a a1 a2 = a == b'%' && is_hex a1 && is_hex a2

-- The target with the digits of its percent-encodings in lower case.
unfoldable pub normal_target : Bytes → Bytes
normal_target (a ∷ a1 ∷ a2 ∷ xs) =
    let past_escape = normal_target xs in
    let past_byte = normal_target (a1 ∷ a2 ∷ xs) in
    if is_escape a a1 a2 then a ∷ lower_hex a1 ∷ lower_hex a2 ∷ past_escape else a ∷ past_byte
normal_target (a ∷ xs) = a ∷ normal_target xs
normal_target [] = []

cons_iff : (a b : ℕ) (xs ys : Bytes) → (a ∷ xs ≡ b ∷ ys) ↔ ((a ≡ b) × (xs ≡ ys))
cons_iff a b xs ys = ((λ h. (cc h, cc h)), (λ h. cc (h.0, h.1)))

-- The first byte is kept; the normal form of what follows it is the rest, unless it starts an
-- escape.
normal_head : (b : ℕ) (ys : Bytes) → (zs : Bytes) × (normal_target (b ∷ ys) ≡ b ∷ zs)
unfolding normal_target
normal_head b [] = ([], refl)
normal_head b (b1 ∷ []) = (b1 ∷ [], refl)
normal_head b (b1 ∷ b2 ∷ ys) = elim (Bool-cases (is_escape b b1 b2)) [
  | inl e ↦ (lower_hex b1 ∷ lower_hex b2 ∷ normal_target ys, rw (e, normal_target) refl)
  | inr e ↦ (normal_target (b1 ∷ b2 ∷ ys), rw (e, normal_target) refl)
]

normal_plain :
    (b : ℕ) (ys : Bytes) → (b == b'%') ≡ false → normal_target (b ∷ ys) ≡ b ∷ normal_target ys
unfolding normal_target
normal_plain b [] h = refl
normal_plain b (b1 ∷ []) h = refl
normal_plain b (b1 ∷ b2 ∷ ys) h = rw (h, normal_target) refl

hex_plain : (b : ℕ) → is_hex b ≡ true → (b == b'%') ≡ false
unfolding is_hex
hex_plain b h = ground arith

lower_hex-hex : (b : ℕ) → is_hex b ≡ true → is_hex (lower_hex b) ≡ true
unfolding is_hex
lower_hex-hex b h = ground arith

-- Two digits at the front of a normal form are the first two bytes.
hex_prefix :
    (c1 c2 : ℕ) (zs : Bytes) (b1 b2 : ℕ) (ys : Bytes)
    → is_hex c1 ≡ true
    → is_hex c2 ≡ true
    → c1 ∷ c2 ∷ zs ≡ normal_target (b1 ∷ b2 ∷ ys)
    → (is_hex b1 ≡ true) × (is_hex b2 ≡ true)
hex_prefix c1 c2 zs b1 b2 ys h1 h2 e =
    let (rest, head) = normal_head b1 (b2 ∷ ys) in
    let first = ((cons_iff c1 b1 (c2 ∷ zs) rest).0 (e ∙ head)).0 in
    let hex1 : is_hex b1 ≡ true = subst (λ c. is_hex c ≡ true) first h1 in
    let plain = normal_plain b1 (b2 ∷ ys) (hex_plain b1 hex1) in
    let (rest2, head2) = normal_head b2 ys in
    let tails = ((cons_iff c1 b1 (c2 ∷ zs) (normal_target (b2 ∷ ys))).0 (e ∙ plain)).1 in
    let second = ((cons_iff c2 b2 zs rest2).0 (tails ∙ head2)).0 in
    (hex1, subst (λ c. is_hex c ≡ true) second h2)

normal_hex :
    (a1 a2 : ℕ) (xs : Bytes)
    → is_hex a1 ≡ true
    → is_hex a2 ≡ true
    → normal_target (a1 ∷ a2 ∷ xs) ≡ a1 ∷ a2 ∷ normal_target xs
normal_hex a1 a2 xs h1 h2 =
    normal_plain a1 (a2 ∷ xs) (hex_plain a1 h1) ∙ ap (◌∷◌ a1) (normal_plain a2 xs (hex_plain a2 h2))

escape_parts :
    (a a1 a2 : ℕ)
    → is_escape a a1 a2 ≡ true
    → ((a == b'%') ≡ true) × (is_hex a1 ≡ true) × (is_hex a2 ≡ true)
escape_parts a a1 a2 h = ground arith

-- An escape and what is none have different normal forms, of the whole and of what follows the
-- first byte.
escape_only :
    (a a1 a2 : ℕ) (xs : Bytes) (b b1 b2 : ℕ) (ys : Bytes)
    → is_escape a a1 a2 ≡ true
    → is_escape b b1 b2 ≡ false
    → a ≡ b
    → (normal_target (a1 ∷ a2 ∷ xs) ≢ normal_target (b1 ∷ b2 ∷ ys))
      × (lower_hex a1 ∷ lower_hex a2 ∷ normal_target xs ≢ normal_target (b1 ∷ b2 ∷ ys))
escape_only a a1 a2 xs b b1 b2 ys e n same =
    let (percent, h1, h2) = escape_parts a a1 a2 e in
    (
      (λ q.
          let hex =
            hex_prefix a1 a2 (normal_target xs) b1 b2 ys h1 h2
              (sym (normal_hex a1 a2 xs h1 h2) ∙ q) in
          absurd (ground (arith, hex))),
      (λ q.
          let hex =
            hex_prefix (lower_hex a1) (lower_hex a2) (normal_target xs) b1 b2 ys
              (lower_hex-hex a1 h1) (lower_hex-hex a2 h2) q in
          absurd (ground (arith, hex))),
    )

-- One turn of the loop, with what the two sides are past an escape and past a byte.
turn_iff :
    (ea eb : Bool) (a b l1 l2 m1 m2 : ℕ) (X Y U V : Bytes) (E P : Bool)
    → ((E ≡ true) ↔ (X ≡ Y))
    → ((P ≡ true) ↔ (U ≡ V))
    → (ea ≡ true → eb ≡ true → a ≡ b)
    → (ea ≡ true → eb ≡ false → a ≡ b → (U ≢ V) × (l1 ∷ l2 ∷ X ≢ V))
    → (eb ≡ true → ea ≡ false → b ≡ a → (V ≢ U) × (m1 ∷ m2 ∷ Y ≢ U))
    → ((if ea && eb
          then (if not (l1 == m1) || not (l2 == m2) then false else E)
          else if not (a == b)
          then false
          else P)
        ≡ true)
      ↔ ((if ea then a ∷ l1 ∷ l2 ∷ X else a ∷ U) ≡ (if eb then b ∷ m1 ∷ m2 ∷ Y else b ∷ V))
turn_iff true true a b l1 l2 m1 m2 X Y U V E P hE hP same left right = ground (
  arith,
  hE,
  same refl refl,
  cons_iff a b (l1 ∷ l2 ∷ X) (m1 ∷ m2 ∷ Y),
  cons_iff l1 m1 (l2 ∷ X) (m2 ∷ Y),
  cons_iff l2 m2 X Y,
)
turn_iff true false a b l1 l2 m1 m2 X Y U V E P hE hP same left right =
    ground (arith, hP, left refl refl, cons_iff a b (l1 ∷ l2 ∷ X) V)
turn_iff false true a b l1 l2 m1 m2 X Y U V E P hE hP same left right = (
  (λ h. absurd (ground (arith, hP, right refl refl))),
  (λ h.
      let (first, rest) = (cons_iff a b U (m1 ∷ m2 ∷ Y)).0 h in
      absurd ((right refl refl (sym first)).1 (sym rest))),
)
turn_iff false false a b l1 l2 m1 m2 X Y U V E P hE hP same left right =
    ground (arith, hP, cons_iff a b U V)

both_escapes :
    (a a1 a2 b b1 b2 : ℕ)
    → (a == b'%' && b == b'%' && is_hex a1 && is_hex a2 && is_hex b1 && is_hex b2)
      ≡ (is_escape a a1 a2 && is_escape b b1 b2)
both_escapes a a1 a2 b b1 b2 = ground arith

same_start : (a a1 a2 b b1 b2 : ℕ) → is_escape a a1 a2 ≡ true → is_escape b b1 b2 ≡ true → a ≡ b
same_start a a1 a2 b b1 b2 h k = ground arith

equal_from_iff :
    (a b : Bytes)
    → length a ≡ length b
    → (equal_from a b ≡ true) ↔ (normal_target a ≡ normal_target b)
unfolding equal_from normal_target
equal_from_iff [] [] n = ((λ _. refl), (λ _. refl))
equal_from_iff [] (b ∷ ys) n = absurd (omega arith)
equal_from_iff (a ∷ xs) [] n = absurd (omega arith)
equal_from_iff (a ∷ []) (b ∷ []) n = ground (arith, cons_iff a b [] [])
equal_from_iff (a ∷ []) (b ∷ b1 ∷ ys) n = absurd (omega arith)
equal_from_iff (a ∷ a1 ∷ xs) (b ∷ []) n = absurd (omega arith)
equal_from_iff (a ∷ a1 ∷ []) (b ∷ b1 ∷ []) n =
    ground (arith, cons_iff a b (a1 ∷ []) (b1 ∷ []), cons_iff a1 b1 [] [])
equal_from_iff (a ∷ a1 ∷ []) (b ∷ b1 ∷ b2 ∷ ys) n = absurd (omega arith)
equal_from_iff (a ∷ a1 ∷ a2 ∷ xs) (b ∷ b1 ∷ []) n = absurd (omega arith)
equal_from_iff (a ∷ a1 ∷ a2 ∷ xs) (b ∷ b1 ∷ b2 ∷ ys) n =
    let past_escape = equal_from_iff xs ys (omega arith) in
    let past_byte = equal_from_iff (a1 ∷ a2 ∷ xs) (b1 ∷ b2 ∷ ys) (omega arith) in
    rw (both_escapes a a1 a2 b b1 b2) (
      turn_iff (is_escape a a1 a2) (is_escape b b1 b2) a b (lower_hex a1) (lower_hex a2)
        (lower_hex b1) (lower_hex b2) (normal_target xs) (normal_target ys)
        (normal_target (a1 ∷ a2 ∷ xs)) (normal_target (b1 ∷ b2 ∷ ys)) (equal_from xs ys)
        (equal_from (a1 ∷ a2 ∷ xs) (b1 ∷ b2 ∷ ys)) past_escape past_byte
        (same_start a a1 a2 b b1 b2) (escape_only a a1 a2 xs b b1 b2 ys)
        (escape_only b b1 b2 ys a a1 a2 xs))

length-normal_target : (a : Bytes) → length (normal_target a) ≡ length a
unfolding normal_target
length-normal_target [] = refl
length-normal_target (a ∷ []) = refl
length-normal_target (a ∷ a1 ∷ []) = refl
length-normal_target (a ∷ a1 ∷ a2 ∷ xs) =
    ground (arith, length-normal_target xs, length-normal_target (a1 ∷ a2 ∷ xs))

-- Two request targets are equal exactly if they are the same text once the hexadecimal digits of
-- their percent-encodings are in lower case; every other byte counts as it is.
pub equal_request_target_iff :
    (a b : Bytes) → (equal_request_target a b ≡ true) ↔ (normal_target a ≡ normal_target b)
unfolding equal_request_target
equal_request_target_iff a b = elim (Bool-cases (length a == length b)) [
  | inl same ↦ rw same (equal_from_iff a b (ground arith))
  | inr differ ↦ rw differ (
    (λ h. absurd (ground arith)),
    (λ h.
        let lengths = ap length h in
        absurd (ground (arith, lengths, length-normal_target a, length-normal_target b))),
  )
]
