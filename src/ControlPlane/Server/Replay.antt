-- ===== src/ControlPlane/Server/Replay.antt =====
-- internal/controlplane/server.go: the events that a turn is given, against the revocations of the journal.
use hacp_sidecar.Common.{
  ℕ, zero, suc, ◌+◌, ◌-◌, ◌<◌, ◌≡◌, refl, sym, ap, ◌∙◌, subst, Option, none, some, List, [], ◌∷◌,
  ◌++◌, arith, ltb, drop, inl, inr, Bool-cases,
}
use hacp_sidecar.ControlPlane.Journal.{
  RevocationEntry, RevocationEvent, Journal, replay, events_after,
}
use hacp_sidecar.ControlPlane.Journal.Validity.{Chain, IsValid}
use hacp_sidecar.ControlPlane.Journal.Completeness.{
  events_after_complete, events_after-refused, events_after-nothing,
}

unfoldable pub entry_at : List RevocationEntry → ℕ → Option RevocationEntry
entry_at [] a = none
entry_at (x ∷ xs) zero = some x
entry_at (x ∷ xs) (suc a) = entry_at xs a

-- The event is the revocation that follows the first `a` ones.
abbrev pub Follows : List RevocationEntry → ℕ → RevocationEvent → Type 0
Follows xs a e =
    (e.revision ≡ suc a)
    × (entry_at xs a ≡ some record { kind = e.kind; subject_id = e.subject_id })

-- The events are the revocations that follow the first `a` ones, without a gap.
unfoldable pub Ordered : List RevocationEntry → ℕ → List RevocationEvent → Type 0
Ordered xs a [] = Unit {0}
Ordered xs a (e ∷ es) = Follows xs a e × Ordered xs (suc a) es

-- The revocations of a journal at some time: the first ones of `xs`.
abbrev pub Seen : List RevocationEntry → Journal → Type 0
Seen xs j = IsValid j × ((zs : List RevocationEntry) × (xs ≡ j.revoked ++ zs))

entry_at-drop :
    (xs ys : List RevocationEntry) (x : RevocationEntry) (a : ℕ)
    → drop a xs ≡ x ∷ ys
    → (entry_at xs a ≡ some x) × (drop (suc a) xs ≡ ys)
unfolding entry_at
entry_at-drop [] ys x zero h = cc h
entry_at-drop [] ys x (suc a) h = cc h
entry_at-drop (y ∷ xs) ys x zero h = (cc h, cc h)
entry_at-drop (y ∷ xs) ys x (suc a) h = entry_at-drop xs ys x a h

entry_at-append :
    (xs zs : List RevocationEntry) (x : RevocationEntry) (a : ℕ)
    → entry_at xs a ≡ some x
    → entry_at (xs ++ zs) a ≡ some x
unfolding entry_at
entry_at-append [] zs x a h = cc h
entry_at-append (y ∷ xs) zs x zero h = h
entry_at-append (y ∷ xs) zs x (suc a) h = entry_at-append xs zs x a h

Chain-Ordered :
    (xs zs : List RevocationEntry) (a : ℕ) (es : List RevocationEvent) (ys : List RevocationEntry)
    → drop a xs ≡ ys
    → Chain a es ys
    → Ordered (xs ++ zs) a es
unfolding Ordered
Chain-Ordered xs zs a [] ys h c = tt
Chain-Ordered xs zs a (e ∷ es) [] h c = absurd c
Chain-Ordered xs zs a (e ∷ es) (y ∷ ys) h c =
    let (at, rest) = entry_at-drop xs ys y a h in
    let this : some y ≡ some record { kind = e.kind; subject_id = e.subject_id } =
      λ i. some record { kind = sym c.0.1 i; subject_id = sym c.0.2 i } in
    ((c.0.0, entry_at-append xs zs y a at ∙ this), Chain-Ordered xs zs (suc a) es ys rest c.1)

replayed : (es fs : List RevocationEvent) (m n : ℕ) → replay es m ≡ replay fs n → es ≡ fs
replayed es fs m n h = cc h

-- A cursor before the retained events is given nothing.
missed :
    (j : Journal) (v : IsValid j) (a : ℕ) (es ds : List RevocationEvent) (n : ℕ)
    → a < v.base
    → j.events ≡ ds
    → events_after j a ≡ replay es n
    → [] ≡ es
missed j v a es [] n behind e h =
    replayed [] es j.notify n
      (sym (events_after-nothing j a e (omega (arith, behind, v.retained))) ∙ h)
missed j v a es (d ∷ ds) n behind e h =
    let refused = (events_after-refused j v a).1 behind (λ none_left. cc (none_left, e)) in
    cc (refused, h)

-- A replay from a journal's time is what follows the cursor, with nothing left out.
pub events_after-Ordered :
    (xs : List RevocationEntry) (j : Journal) (a : ℕ) (es : List RevocationEvent) (n : ℕ)
    → Seen xs j
    → events_after j a ≡ replay es n
    → Ordered xs a es
unfolding Ordered
events_after-Ordered xs j a es n (v, (zs, all)) h = elim (Bool-cases (ltb j.revision a)) [
  | inl ahead ↦
      let refused = (events_after-refused j v a).0 (ground (arith, ahead)) in cc (refused, h)
  | inr within ↦ elim (Bool-cases (ltb a v.base)) [
    | inr reached ↦
        let k = a - v.base in
        let at : v.base + k ≡ a = ground (arith, reached) in
        let (fs, given, chain) = events_after_complete j v k (ground (arith, within, at)) in
        let this = replayed fs es j.notify n (sym given ∙ ap (events_after j) at ∙ h) in
        let ordered = Chain-Ordered j.revoked zs (v.base + k) fs _ refl chain in
        subst (λ ys. Ordered ys a es) (sym all)
          (subst (λ gs. Ordered (j.revoked ++ zs) a gs) this
            (subst (λ b. Ordered (j.revoked ++ zs) b fs) at ordered))
    | inl behind ↦
        subst (λ gs. Ordered xs a gs) (missed j v a es j.events n (ground (arith, behind)) refl h)
          tt
  ]
]
