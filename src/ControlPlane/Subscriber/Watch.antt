-- ===== src/ControlPlane/Subscriber/Watch.antt =====
-- A watch whose stream carries the journal's events in order: `applyEvent` and the loop of `watch`.
use hacp_sidecar.Common.{
  take-drop, length-drop, ℕ, suc, ◌+◌, ◌%◌, ◌≤◌, ◌<◌, String, ◌≡◌, refl, sym, ap, subst, ◌∙◌, true,
  false, ◌&&◌, ◌||◌, Option, none, some, List, [], ◌∷◌, ◌++◌, append_assoc, append-nil, arith,
  str_eq, length, take, drop, leb, ◌==◌, inl, inr,
}
use hacp_sidecar.Common.Time.{Time}
use hacp_sidecar.Common.Int.{two_64}
use hacp_sidecar.Revocation.Laws.{Class, key, token, envelope, same_class}
use hacp_sidecar.ControlPlane.Adapter.{is_revoked}
use hacp_sidecar.ControlPlane.Adapter.Replacement.{is_revoked-adapter_revoke}
use hacp_sidecar.ControlPlane.Journal.{
  RevocationEntry, RevocationEvent, Journal, is_valid_kind, replay, events_after,
}
use hacp_sidecar.ControlPlane.Journal.Validity.{Chain, KindsValid, IsValid}
use hacp_sidecar.ControlPlane.Journal.Completeness.{events_after_complete}
use hacp_sidecar.ControlPlane.Subscriber.{
  Subscriber, SubscriberError, stream_failed, target, to_keys, to_tokens, to_envelopes,
  materialize_event, advance, apply_event, Response, event, applied, receive, watch_loop,
}
use hacp_sidecar.ControlPlane.Subscriber.Mirror.{
  in_class, revoked_in, Mirrors, revoked_in-append, drop-KindsValid, Valid-target,
}

-- What `applyEvent` does with the next event.
abbrev pub Applied : Subscriber → RevocationEvent → Subscriber × Option SubscriberError → Type 0
Applied s e r =
    (r.1 ≡ none)
    × (r.0.last_seen_revision ≡ e.revision)
    × ((c : Class) (id : String)
        → is_revoked r.0.store c id
          ≡ ((in_class (target e.kind) c && str_eq e.subject_id id) || is_revoked s.store c id))

keys_class : (c : Class) → same_class key c ≡ in_class to_keys c
keys_class key = refl
keys_class token = refl
keys_class envelope = refl

tokens_class : (c : Class) → same_class token c ≡ in_class to_tokens c
tokens_class key = refl
tokens_class token = refl
tokens_class envelope = refl

envelopes_class : (c : Class) → same_class envelope c ≡ in_class to_envelopes c
envelopes_class key = refl
envelopes_class token = refl
envelopes_class envelope = refl

advance-Applied :
    (s : Subscriber) (e : RevocationEvent) (now : Time)
    → is_valid_kind e.kind ≡ true
    → Applied s e (advance s e (materialize_event s.store (target e.kind) e.subject_id now) now)
unfolding advance materialize_event
advance-Applied s e now valid = elim (Valid-target e.kind valid) [
  | inl k ↦ rw k (
    refl,
    refl,
    λ c id.
        (is_revoked-adapter_revoke s.store e.subject_id id now c).0
        ∙ ap (λ b. (b && str_eq e.subject_id id) || is_revoked s.store c id) (keys_class c),
  )
  | inr (inl t) ↦ rw t (
    refl,
    refl,
    λ c id.
        (is_revoked-adapter_revoke s.store e.subject_id id now c).1
        ∙ ap (λ b. (b && str_eq e.subject_id id) || is_revoked s.store c id) (tokens_class c),
  )
  | inr (inr v) ↦ rw v (
    refl,
    refl,
    λ c id.
        (is_revoked-adapter_revoke s.store e.subject_id id now c).2
        ∙ ap (λ b. (b && str_eq e.subject_id id) || is_revoked s.store c id) (envelopes_class c),
  )
]

pub apply_event-Applied :
    (s : Subscriber) (e : RevocationEvent) (now : Time)
    → e.revision ≡ suc s.last_seen_revision
    → e.revision < two_64
    → is_valid_kind e.kind ≡ true
    → Applied s e (apply_event s e now)
unfolding apply_event
apply_event-Applied s e now next fits valid =
    let ahead : leb e.revision s.last_seen_revision ≡ false = ground arith in
    let same : (e.revision == (s.last_seen_revision + 1) % two_64) ≡ true = ground arith in
    rw (ahead, same) (advance-Applied s e now valid)

-- The stream that carries the events, received at the times of a clock.
abbrev pub deliver : (RevocationEvent → Time) → List RevocationEvent → List (Response × Time)
deliver clock [] = []
deliver clock (e ∷ es) = (event e, clock e) ∷ deliver clock es

pub receive-Applied :
    (s : Subscriber) (e : RevocationEvent) (now : Time)
    → (p : Subscriber × Option SubscriberError) → apply_event s e now ≡ p
    → p.1 ≡ none
    → receive s (event e) now ≡ p
unfolding receive applied
receive-Applied s e now (s', none) h k = rw h refl
receive-Applied s e now (s', some x) h k = absurd (ground arith)

pub watch_loop-next :
    (s s' : Subscriber) (response : Response) (now : Time) (rest : List (Response × Time))
    → receive s response now ≡ (s', none)
    → watch_loop s ((response, now) ∷ rest) ≡ watch_loop s' rest
unfolding watch_loop
watch_loop-next s s' response now rest h =
    rw (watch_loop, ap (λ p. p.1) h) (ap (λ p. watch_loop p.0 rest) h)

-- The answer after one more revocation.
pub joined :
    (s : Subscriber) (e : RevocationEvent) (x : RevocationEntry) (ys : List RevocationEntry)
    (c : Class) (id : String)
    → (e.kind ≡ x.kind) × (e.subject_id ≡ x.subject_id)
    → is_revoked s.store c id ≡ revoked_in ys c id
    → ((in_class (target e.kind) c && str_eq e.subject_id id) || is_revoked s.store c id)
      ≡ revoked_in (ys ++ x ∷ []) c id
unfolding revoked_in
joined s e x ys c id h m = rw (h.0, h.1, m, revoked_in-append ys (x ∷ []) c id) (ground arith)

-- The next event of a mirror's journal makes it a mirror of one more revocation.
pub receive-Mirrors :
    (s : Subscriber) (n : ℕ) (e : RevocationEvent) (now : Time) (ys : List RevocationEntry)
    (x : RevocationEntry)
    → Mirrors s n ys
    → (e.revision ≡ suc n) × (e.kind ≡ x.kind) × (e.subject_id ≡ x.subject_id)
    → is_valid_kind x.kind ≡ true
    → suc n < two_64
    → (receive s (event e) now ≡ ((apply_event s e now).0, none))
      × Mirrors (apply_event s e now).0 (suc n) (ys ++ x ∷ [])
receive-Mirrors s n e now ys x m c v fits =
    let s' = (apply_event s e now).0 in
    let (ok, at, answers) =
      apply_event-Applied s e now (omega (arith, m.0, c.0)) (omega (arith, c.0, fits))
        (ap is_valid_kind c.1 ∙ v) in
    (
      receive-Applied s e now (apply_event s e now) refl ok ∙ ap (λ f. (s', f)) ok,
      (at ∙ c.0, λ d id. answers d id ∙ joined s e x ys d id (c.1, c.2) (m.1 d id)),
    )

-- How a watch ends whose stream carries only what is next.
abbrev pub Ended : Subscriber × SubscriberError → ℕ → List RevocationEntry → Type 0
Ended r n xs = (r.1 ≡ stream_failed) × Mirrors r.0 n xs

-- A stream that carries the next revocations after those that the store mirrors, in order, of valid
-- kinds and with revisions that fit 64 bits, is applied to its end:
-- the store mirrors the old revocations and the new ones, the cursor stands at the last, and the
-- watch ends only because the stream does.
pub watch_loop-Mirrors :
    (s : Subscriber) (n : ℕ) (clock : RevocationEvent → Time) (es : List RevocationEvent)
    (ys xs : List RevocationEntry)
    → Mirrors s n ys
    → Chain n es xs
    → KindsValid xs
    → n + length es < two_64
    → Ended (watch_loop s (deliver clock es)) (n + length es) (ys ++ xs)
unfolding watch_loop
watch_loop-Mirrors s n clock [] ys [] m c v fits = (
  refl,
  (omega (arith, m.0), λ d id. m.1 d id ∙ ap (λ zs. revoked_in zs d id) (sym (append-nil ys))),
)
watch_loop-Mirrors s n clock [] ys (x ∷ xs) m c v fits = absurd c
watch_loop-Mirrors s n clock (e ∷ es) ys [] m c v fits = absurd c
watch_loop-Mirrors s n clock (e ∷ es) ys (x ∷ xs) m c v fits =
    let now = clock e in
    let s' = (apply_event s e now).0 in
    let (received, mirrors) = receive-Mirrors s n e now ys x m c.0 v.0 (omega arith) in
    let counted : suc n + length es ≡ n + length (e ∷ es) = omega arith in
    rw (watch_loop-next s s' (event e) now (deliver clock es) received) (
      subst (λ k. Ended (watch_loop s' (deliver clock es)) k (ys ++ x ∷ xs)) counted
        (subst (λ zs. Ended (watch_loop s' (deliver clock es)) (suc n + length es) zs)
          (append_assoc ys (x ∷ []) xs)
          (watch_loop-Mirrors s' (suc n) clock es (ys ++ x ∷ []) xs mirrors c.1 v.1 (omega arith))))

pub length-Chain :
    (n : ℕ) (es : List RevocationEvent) (xs : List RevocationEntry)
    → Chain n es xs
    → length es ≡ length xs
length-Chain n [] [] c = refl
length-Chain n [] (x ∷ xs) c = absurd c
length-Chain n (e ∷ es) [] c = absurd c
length-Chain n (e ∷ es) (x ∷ xs) c = omega (arith, length-Chain (suc n) es xs c.1)

-- A subscriber that mirrors a prefix of a valid journal, as far back as the journal still has the events,
-- and that watches from its cursor is given events that make it a mirror of the whole journal, while
-- the revision fits its 64 bits.
pub watch-catches_up :
    (j : Journal) (v : IsValid j) (s : Subscriber) (k : ℕ) (clock : RevocationEvent → Time)
    → Mirrors s (v.base + k) (take (v.base + k) j.revoked)
    → v.base + k ≤ j.revision
    → j.revision < two_64
    → (es : List RevocationEvent) × (events_after j s.last_seen_revision ≡ replay es j.notify)
      × Ended (watch_loop s (deliver clock es)) j.revision j.revoked
watch-catches_up j v s k clock m h fits =
    let (es, given, chain) = events_after_complete j v k h in
    let news = drop (v.base + k) j.revoked in
    let all : (v.base + k) + length es ≡ j.revision = omega (
      arith,
      length-Chain (v.base + k) es news chain,
      length-drop (v.base + k) j.revoked (omega (arith, v.counted)),
      v.counted,
    ) in
    (
      es,
      rw m.0 given,
      subst (λ n. Ended (watch_loop s (deliver clock es)) n j.revoked) all
          (subst (λ zs. Ended (watch_loop s (deliver clock es)) ((v.base + k) + length es) zs)
            (take-drop (v.base + k) j.revoked)
            (watch_loop-Mirrors s (v.base + k) clock es (take (v.base + k) j.revoked) news m chain
              (drop-KindsValid (v.base + k) j.revoked v.kinds) (omega (arith, all)))),
    )
