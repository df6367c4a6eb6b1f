-- ===== src/Provenance/Ledger.antt =====
-- internal/provenance/ring.go over sequences of calls and turns of the worker: what was accepted
-- against what the file and the buffer hold.
use hacp_sidecar.Common.{
  ℕ, zero, suc, ◌≤◌, ◌<◌, ◌≡◌, refl, sym, ap, ◌∙◌, Bool, true, false, Option, none, some, List, [],
  ◌∷◌, ◌++◌, append_assoc, append-nil, arith, leb, if◌then◌else◌, inl, inr, Bool-cases,
}
use hacp_sidecar.Common.Int.{ℤ}
use hacp_sidecar.Wire.{IntentEnvelope, DecisionToken}
use hacp_sidecar.Evaluate.Interfaces.{
  Reason, RequestContext, Accepted, accepted, refused, panicked, unspecified,
}
use hacp_sidecar.Provenance.{
  Event, RingBuffer, Disk, open_fails, opens, Wake, stop, signal, tick, accept, accept_denied, wake,
  flush, put, new_ring_buffer, event_of, recorded, append_file, encode_all, copy_events,
}
use hacp_sidecar.Provenance.Window.{IsValid, pending, pushed-pending, pushed-IsValid, flush_lem}

-- A call of a method, or a turn of the worker.
pub data Op : Type 0 where
  allow : ℤ → IntentEnvelope → Option DecisionToken → RequestContext → Op
  deny : ℤ → Option IntentEnvelope → Option DecisionToken → RequestContext → Reason → Op
  work : Wake → Disk → Op

-- The buffer with the events that it accepted and those that the file has, both oldest first.
pub record Log : Type 0 where
  pub ring : RingBuffer
  pub kept : List Event
  pub file : List Event

-- The buffer after a call with its result, and the event if it was accepted. A panic comes before any
-- write.
abbrev pub note : Log → Accepted RingBuffer → List Event → Log
note log (accepted rb) es = record { ring = rb; kept = log.kept ++ es; file = log.file }
note log (refused rb) es = record log { ring = rb }
note log panicked es = log

unfoldable pub step : Log → Op → Log
unfolding accept accept_denied wake
step log (allow now env none req) = note log (accept log.ring now env none req) []
step log (allow now env (some tok) req) =
    note log (accept log.ring now env (some tok) req)
      (event_of now env tok req "ALLOW" unspecified ∷ [])
step log (deny now (some env) (some tok) req reason) =
    note log (accept_denied log.ring now (some env) (some tok) req reason)
      (event_of now env tok req "DENY" reason ∷ [])
step log (deny now env tok req reason) = note log (accept_denied log.ring now env tok req reason) []
step log (work w disk) =
    let (rb, written) = wake log.ring w disk in record log { ring = rb; file = log.file ++ written }

unfoldable pub run : Log → List Op → Log
unfolding step
run log [] = log
run log (op ∷ ops) = run (step log op) ops

abbrev pub new_log : ℕ → Log
new_log capacity = record { ring = new_ring_buffer capacity; kept = []; file = [] }

-- The file can be opened, and takes every event.
abbrev pub Works : Disk → Type 0
Works open_fails = ⊥
Works (opens encodes) = (e : Event) → encodes e ≡ true

-- Each turn of the worker finds a file that works.
abbrev pub AllWork : List Op → Type 0
AllWork [] = Unit {0}
AllWork (work w disk ∷ ops) = Works disk × AllWork ops
AllWork (_ ∷ ops) = AllWork ops

pub record Balanced (log : Log) : Type 0 where
  pub valid : IsValid log.ring
  pub balance : log.kept ≡ log.file ++ pending log.ring

-- Both methods, with the event that they put.
pub put-Balanced :
    (log : Log) (e : Event)
    → Balanced log
    → Balanced (note log (recorded log.ring (put log.ring e)) (e ∷ []))
unfolding put
put-Balanced log e b = elim (Bool-cases (leb log.ring.capacity log.ring.count)) [
  | inl full ↦ rw full b
  | inr room ↦
      let free : log.ring.count < log.ring.capacity = ground arith in
      rw room record {
        valid = pushed-IsValid log.ring e b.valid free;
        balance =
            ap (λ es. es ++ (e ∷ [])) b.balance
            ∙ append_assoc log.file (pending log.ring) (e ∷ [])
            ∙ ap (λ es. log.file ++ es) (sym (pushed-pending log.ring e b.valid free));
      }
]

encode_all-Works :
    (encodes : Event → Bool)
    → ((e : Event) → encodes e ≡ true)
    → (es : List Event) → encode_all encodes es ≡ es
unfolding encode_all
encode_all-Works encodes h [] = refl
encode_all-Works encodes h (e ∷ es) = rw (h e, encode_all-Works encodes h es) refl

append_file-Works : (disk : Disk) → Works disk → (es : List Event) → append_file disk es ≡ es
unfolding append_file encode_all
append_file-Works open_fails h es = elim h [ ]
append_file-Works (opens encodes) h es = encode_all-Works encodes h es

pub flush-Balanced :
    (log : Log) (disk : Disk)
    → Works disk
    → Balanced log
    → Balanced
        (record log { ring = (flush log.ring disk).0; file = log.file ++ (flush log.ring disk).1 })
flush-Balanced log disk h b =
    let (v, (empty, written)) = flush_lem log.ring disk b.valid in
    record {
      valid = v;
      balance =
          b.balance
          ∙ ap (λ es. log.file ++ es) (sym (written ∙ append_file-Works disk h (pending log.ring)))
          ∙ sym (append-nil (log.file ++ (flush log.ring disk).1))
          ∙ ap (λ es. (log.file ++ (flush log.ring disk).1) ++ es) (sym empty);
    }

copy_events-taken :
    (rb : RingBuffer) (i left : ℕ)
    → copy_events (record rb { flush_signal = false }) i left ≡ copy_events rb i left
unfolding copy_events
copy_events-taken rb i zero = refl
copy_events-taken rb i (suc left) = rw (copy_events-taken rb (suc i) left) refl

-- Taking the signal changes no event.
taken-Balanced :
    (log : Log)
    → Balanced log
    → Balanced (record log { ring = record log.ring { flush_signal = false } })
taken-Balanced log b = record {
  valid = record { head_in = b.valid.head_in; count_in = b.valid.count_in };
  balance =
      b.balance ∙ ap (λ es. log.file ++ es) (sym (copy_events-taken log.ring 0 log.ring.count));
}

pub step-Balanced :
    (log : Log) (op : Op) (ops : List Op)
    → AllWork (op ∷ ops)
    → Balanced log
    → Balanced (step log op) × AllWork ops
unfolding step accept accept_denied wake put
step-Balanced log (allow now env none req) ops h b =
    elim (leb log.ring.capacity log.ring.count)
      as (λ full.
        Balanced (note log (if full then refused log.ring else panicked) []) × AllWork ops) [
          | true ↦ (b, h)
          | false ↦ (b, h)
        ]
step-Balanced log (allow now env (some tok) req) ops h b =
    (put-Balanced log (event_of now env tok req "ALLOW" unspecified) b, h)
step-Balanced log (deny now (some env) (some tok) req reason) ops h b =
    (put-Balanced log (event_of now env tok req "DENY" reason) b, h)
step-Balanced log (deny now none tok req reason) ops h b = (b, h)
step-Balanced log (deny now (some env) none req reason) ops h b = (b, h)
step-Balanced log (work stop disk) ops (w, h) b = (flush-Balanced log disk w b, h)
step-Balanced log (work tick disk) ops (w, h) b = (flush-Balanced log disk w b, h)
step-Balanced log (work signal disk) ops (w, h) b = (
  flush-Balanced (record log { ring = record log.ring { flush_signal = false } }) disk w
      (taken-Balanced log b),
  h,
)

pub run-Balanced : (log : Log) (ops : List Op) → AllWork ops → Balanced log → Balanced (run log ops)
unfolding run
run-Balanced log [] h b = b
run-Balanced log (op ∷ ops) h b =
    let (b', h') = step-Balanced log op ops h b in run-Balanced (step log op) ops h' b'

pub new_log-Balanced : (capacity : ℕ) → 0 < capacity → Balanced (new_log capacity)
unfolding new_ring_buffer copy_events
new_log-Balanced capacity h = record {
  valid = record { head_in = h; count_in = omega arith };
  balance = refl;
}

-- Over any sequence of accepted, denied and refused requests and turns of the worker, from a new
-- buffer with a place, the events in the file followed by those in the buffer are exactly the accepted
-- events, each once and in their order, while the file can be opened and takes every event; and the
-- buffer never holds more than its capacity.
pub run-kept :
    (capacity : ℕ) (ops : List Op)
    → 0 < capacity
    → AllWork ops
    → ((run (new_log capacity) ops).file ++ pending (run (new_log capacity) ops).ring
        ≡ (run (new_log capacity) ops).kept)
      × ((run (new_log capacity) ops).ring.count ≤ (run (new_log capacity) ops).ring.capacity)
run-kept capacity ops h w =
    let b = run-Balanced (new_log capacity) ops w (new_log-Balanced capacity h) in
    (sym b.balance, b.valid.count_in)
