-- ===== src/Provenance/Window.antt =====
-- The events that a ring buffer holds, oldest first, and what each method does to them.
use hacp_sidecar.Common.{
  ℕ, zero, suc, ◌+◌, ◌-◌, ◌%◌, ◌≤◌, ◌<◌, ◌≡◌, ◌≢◌, refl, sym, ap, ◌∙◌, true, false, List, [], ◌∷◌,
  ◌++◌, arith, ltb, ◌==◌, if◌then◌else◌, inl, inr, Bool-cases,
}
use native.Mathlib.Nat.{mod-eq_of_lt, mod-eq-sub-mod, add-zero, add-suc, suc-add, zero-add}
use hacp_sidecar.Provenance.{
  Event, RingBuffer, pushed, copy_events, flush, append_file, encode_all, Disk, open_fails, opens,
}

pub record IsValid (rb : RingBuffer) : Type 0 where
  pub head_in : rb.head < rb.capacity
  pub count_in : rb.count ≤ rb.capacity

abbrev pub pending : RingBuffer → List Event
pending rb = copy_events rb 0 rb.count

-- An index less than one turn ahead.
wrapped : (x cap : ℕ) → x < cap + cap → x % cap ≡ (if ltb x cap then x else x - cap)
wrapped x cap h = elim (Bool-cases (ltb x cap)) [
  | inl inside ↦ rw inside (mod-eq_of_lt (ground arith))
  | inr past ↦
      let p : cap ≤ x = ground arith in rw past (mod-eq-sub-mod p ∙ mod-eq_of_lt (omega arith))
]

distinct : (head cap i j : ℕ) → head < cap → i < j → j < cap → (head + i) % cap ≢ (head + j) % cap
distinct head cap i j h lt k e =
    absurd
      (ground (arith, wrapped (head + i) cap (omega arith), wrapped (head + j) cap (omega arith)))

pub mod_lt : (x cap : ℕ) → x < cap + cap → x % cap < cap
mod_lt x cap h = ground (arith, wrapped x cap h)

eq-false : (a b : ℕ) → a ≢ b → (a == b) ≡ false
eq-false a b h = ground arith

eq-true : (a : ℕ) → (a == a) ≡ true
eq-true a = ground arith

-- A write in the first free place leaves the events before it.
copy_events-pushed :
    (rb : RingBuffer) (e : Event) (i left : ℕ)
    → IsValid rb
    → i + left ≤ rb.count
    → rb.count < rb.capacity
    → copy_events (pushed rb e) i left ≡ copy_events rb i left
unfolding copy_events
copy_events-pushed rb e i zero v h room = refl
copy_events-pushed rb e i (suc left) v h room =
    rw
      (
        eq-false _ _ (distinct rb.head rb.capacity i rb.count v.head_in (omega arith) room),
        copy_events-pushed rb e (suc i) left v (omega arith) room,
      )
      refl

-- The last event copied.
copy_events_last :
    (rb : RingBuffer) (i left : ℕ)
    → copy_events rb i (left + 1)
      ≡ copy_events rb i left ++ (rb.events ((rb.head + (i + left)) % rb.capacity) ∷ [])
unfolding copy_events
copy_events_last rb i zero = rw add-zero refl
copy_events_last rb i (suc left) =
    rw (add-suc i left, suc-add left 1, copy_events_last rb (suc i) left, suc-add i left) refl

pub pushed-pending :
    (rb : RingBuffer) (e : Event)
    → IsValid rb
    → rb.count < rb.capacity
    → pending (pushed rb e) ≡ pending rb ++ (e ∷ [])
unfolding copy_events
pushed-pending rb e v room =
    copy_events_last (pushed rb e) 0 rb.count
    ∙ rw
        (
          copy_events-pushed rb e 0 rb.count v (omega arith) room,
          zero-add,
          eq-true ((rb.head + rb.count) % rb.capacity),
        )
        refl

pub pushed-IsValid :
    (rb : RingBuffer) (e : Event) → IsValid rb → rb.count < rb.capacity → IsValid (pushed rb e)
pushed-IsValid rb e v room = record { head_in = v.head_in; count_in = omega arith }

nothing : (disk : Disk) → [] ≡ append_file disk []
unfolding append_file encode_all
nothing open_fails = refl
nothing (opens encodes) = refl

none_pending : (rb : RingBuffer) → rb.count ≡ 0 → pending rb ≡ []
unfolding copy_events
none_pending rb z = ap (copy_events rb 0) z

-- Nothing is left after a flush, and all of it was handed to the file.
pub flush_lem :
    (rb : RingBuffer) (disk : Disk)
    → IsValid rb
    → IsValid (flush rb disk).0
      × ((pending (flush rb disk).0 ≡ []) × ((flush rb disk).1 ≡ append_file disk (pending rb)))
unfolding flush copy_events append_file encode_all
flush_lem rb disk v = elim (Bool-cases (rb.count == 0)) [
  | inl none_held ↦
      let empty = none_pending rb (ground arith) in
      rw none_held (v, (empty, nothing disk ∙ ap (append_file disk) (sym empty)))
  | inr held ↦ rw held (
    record {
      head_in = mod_lt (rb.head + rb.count) rb.capacity (omega (arith, v.head_in, v.count_in));
      count_in = omega arith;
    },
    (refl, refl),
  )
]
