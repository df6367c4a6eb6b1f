-- ===== src/Scope/Restriction.antt =====
-- internal/scope/matrix.go: the boundary decision and the transitions from the granted values.
use hacp_sidecar.Common.{
  ℕ, ◌≤◌, String, ◌≡◌, ◌≢◌, refl, ◌↔◌, ◌⊎◌, ◌∙◌, ap, sym, inl, inr, true, false, List, [], ◌∷◌,
  arith, str_eq, eq_iff, if◌then◌else◌, Bool-cases,
}
use mathlib.Core.Path.{subst}
use hacp_sidecar.Common.Strings.{contains, not_eq-false}
use hacp_sidecar.Scope.Matrix.{
  AttributeType, Action, allow, deny, evaluate_transition, action_rank, is_more_restrictive,
  most_restrictive, evaluate_boundary_crossing,
}

-- The transition from each of the values is at most as restrictive as `n`.
abbrev pub AllBelow : AttributeType → String → ℕ → List String → Type 0
AllBelow attr p n [] = Unit {0}
AllBelow attr p n (v ∷ vs) = (action_rank (evaluate_transition attr v p) ≤ n) × AllBelow attr p n vs

-- The action is the transition from one of the values.
abbrev pub IsTransition : AttributeType → String → Action → List String → Type 0
IsTransition attr p x [] = ⊥
IsTransition attr p x (v ∷ vs) = (x ≡ evaluate_transition attr v p) ⊎ IsTransition attr p x vs

-- One round of the loop keeps the worse of two actions.
abbrev worse : Action → Action → Action
worse acc x = if is_more_restrictive x acc then x else acc

worse-upper :
    (acc x : Action)
    → (action_rank acc ≤ action_rank (worse acc x)) × (action_rank x ≤ action_rank (worse acc x))
unfolding is_more_restrictive
worse-upper acc x = ground arith

AllBelow-le :
    (attr : AttributeType) (p : String) (n m : ℕ) (vs : List String)
    → n ≤ m
    → AllBelow attr p n vs
    → AllBelow attr p m vs
AllBelow-le attr p n m [] h b = tt
AllBelow-le attr p n m (v ∷ vs) h b = (omega arith, AllBelow-le attr p n m vs h b.1)

most_restrictive-upper :
    (attr : AttributeType) (p : String) (acc : Action) (vs : List String)
    → (action_rank acc ≤ action_rank (most_restrictive attr p acc vs))
      × AllBelow attr p (action_rank (most_restrictive attr p acc vs)) vs
unfolding most_restrictive
most_restrictive-upper attr p acc [] = (omega arith, tt)
most_restrictive-upper attr p acc (v ∷ vs) =
    let x = evaluate_transition attr v p in
    let ih = most_restrictive-upper attr p (worse acc x) vs in
    let up = worse-upper acc x in (omega (arith, ih.0, up.0), (omega (arith, ih.0, up.1), ih.1))

most_restrictive-chosen :
    (attr : AttributeType) (p : String) (acc : Action) (vs : List String)
    → (most_restrictive attr p acc vs ≡ acc)
      ⊎ IsTransition attr p (most_restrictive attr p acc vs) vs
unfolding most_restrictive
most_restrictive-chosen attr p acc [] = inl refl
most_restrictive-chosen attr p acc (v ∷ vs) =
    let x = evaluate_transition attr v p in
    elim (most_restrictive-chosen attr p (worse acc x) vs) [
      | inl e ↦ elim (Bool-cases (is_more_restrictive x acc)) [
        | inl more ↦ inr (inl (e ∙ ap (λ b. if b then x else acc) more))
        | inr less ↦ inl (e ∙ ap (λ b. if b then x else acc) less)
      ]
      | inr t ↦ inr (inr t)
    ]

crossing-outside :
    (attr : AttributeType) (v : String) (vs : List String) (p : String)
    → p ≢ ""
    → contains p (v ∷ vs) ≡ false
    → evaluate_boundary_crossing attr (v ∷ vs) p ≡ most_restrictive attr p allow (v ∷ vs)
unfolding evaluate_boundary_crossing
crossing-outside attr v vs p named outside = rw (not_eq-false p "" named, outside)

crossing-inside :
    (attr : AttributeType) (v : String) (vs : List String) (p : String)
    → p ≢ ""
    → contains p (v ∷ vs) ≡ true
    → evaluate_boundary_crossing attr (v ∷ vs) p ≡ allow
unfolding evaluate_boundary_crossing
crossing-inside attr v vs p named inside = rw (not_eq-false p "" named, inside)

crossing-unnamed :
    (attr : AttributeType) (vs : List String) (p : String)
    → str_eq p "" ≡ true
    → evaluate_boundary_crossing attr vs p ≡ deny
unfolding evaluate_boundary_crossing
crossing-unnamed attr [] p e = refl
crossing-unnamed attr (v ∷ vs) p e = rw e

crossing-nothing : (attr : AttributeType) (p : String) → evaluate_boundary_crossing attr [] p ≡ deny
unfolding evaluate_boundary_crossing
crossing-nothing attr p = refl

-- For a value that is present and outside a scope that grants something, the answer is at least as restrictive as the
-- transition from every granted value, and it is the transition from one of them, or `allow`
-- because all of them allow.
pub crossing_most_restrictive :
    (attr : AttributeType) (v : String) (vs : List String) (p : String)
    → p ≢ ""
    → contains p (v ∷ vs) ≡ false
    → let x = evaluate_boundary_crossing attr (v ∷ vs) p in
      AllBelow attr p (action_rank x) (v ∷ vs) × ((x ≡ allow) ⊎ IsTransition attr p x (v ∷ vs))
crossing_most_restrictive attr v vs p named outside =
    subst
      (λ x.
        AllBelow attr p (action_rank x) (v ∷ vs) × ((x ≡ allow) ⊎ IsTransition attr p x (v ∷ vs)))
      (sym (crossing-outside attr v vs p named outside))
      (
        (most_restrictive-upper attr p allow (v ∷ vs)).1,
        most_restrictive-chosen attr p allow (v ∷ vs),
      )

action_rank-zero : (x : Action) → action_rank x ≤ 0 → x ≡ allow
unfolding action_rank
action_rank-zero x h = ground arith

-- Every transition allows.
abbrev pub AllAllow : AttributeType → String → List String → Type 0
AllAllow attr p [] = Unit {0}
AllAllow attr p (v ∷ vs) = (evaluate_transition attr v p ≡ allow) × AllAllow attr p vs

AllBelow-zero :
    (attr : AttributeType) (p : String) (vs : List String)
    → AllBelow attr p 0 vs
    → AllAllow attr p vs
AllBelow-zero attr p [] b = tt
AllBelow-zero attr p (v ∷ vs) b = (action_rank-zero _ b.0, AllBelow-zero attr p vs b.1)

most_restrictive-AllAllow :
    (attr : AttributeType) (p : String) (vs : List String)
    → AllAllow attr p vs
    → most_restrictive attr p allow vs ≡ allow
unfolding most_restrictive is_more_restrictive action_rank
most_restrictive-AllAllow attr p [] a = refl
most_restrictive-AllAllow attr p (v ∷ vs) a = rw a.0 (most_restrictive-AllAllow attr p vs a.1)

AllAllow-of_crossing :
    (attr : AttributeType) (v : String) (vs : List String) (p : String)
    → p ≢ ""
    → contains p (v ∷ vs) ≡ false
    → evaluate_boundary_crossing attr (v ∷ vs) p ≡ allow
    → AllAllow attr p (v ∷ vs)
unfolding action_rank
AllAllow-of_crossing attr v vs p named outside h =
    let below = crossing_most_restrictive attr v vs p named outside in
    AllBelow-zero attr p (v ∷ vs) (AllBelow-le attr p _ 0 (v ∷ vs) (rw h (omega arith)) below.0)

crossing-allow_only :
    (attr : AttributeType) (vs : List String) (p : String)
    → evaluate_boundary_crossing attr vs p ≡ allow
    → (vs ≢ []) × (p ≢ "") × ((contains p vs ≡ true) ⊎ AllAllow attr p vs)
crossing-allow_only attr [] p h = cc (crossing-nothing attr p)
crossing-allow_only attr (v ∷ vs) p h = elim (Bool-cases (str_eq p "")) [
  | inl e ↦ cc (crossing-unnamed attr (v ∷ vs) p e)
  | inr ne ↦
      let named : p ≢ "" = λ e. ground (arith, (eq_iff p "").1 e) in
      elim (Bool-cases (contains p (v ∷ vs))) [
        | inl c ↦ (λ e. cc, named, inl c)
        | inr c ↦ (λ e. cc, named, inr (AllAllow-of_crossing attr v vs p named c h))
      ]
]

crossing-allow_if :
    (attr : AttributeType) (vs : List String) (p : String)
    → (vs ≢ []) × (p ≢ "") × ((contains p vs ≡ true) ⊎ AllAllow attr p vs)
    → evaluate_boundary_crossing attr vs p ≡ allow
crossing-allow_if attr [] p h = absurd (h.0 refl)
crossing-allow_if attr (v ∷ vs) p h = elim (Bool-cases (contains p (v ∷ vs))) [
  | inl c ↦ crossing-inside attr v vs p h.1 c
  | inr c ↦
      rw (crossing-outside attr v vs p h.1 c)
        (elim h.2 [ inl c' ↦ cc (c, c') | inr a ↦ most_restrictive-AllAllow attr p (v ∷ vs) a ])
]

-- A value is allowed exactly when something is granted, the value is present, and it is one of the
-- granted values or the transition from every granted value allows it.
pub crossing-allow_iff :
    (attr : AttributeType) (vs : List String) (p : String)
    → (evaluate_boundary_crossing attr vs p ≡ allow)
      ↔ ((vs ≢ []) × (p ≢ "") × ((contains p vs ≡ true) ⊎ AllAllow attr p vs))
crossing-allow_iff attr vs p = (crossing-allow_only attr vs p, crossing-allow_if attr vs p)
