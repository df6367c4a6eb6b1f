-- ===== src/Provenance/Bounds.antt =====
-- internal/provenance/ring.go: the indices of the ring buffer, whatever the file does.
use hacp_sidecar.Common.{
  ℕ, ◌+◌, ◌%◌, ◌≤◌, ◌<◌, ◌≡◌, refl, true, false, none, some, List, [], ◌∷◌, arith, subst, leb, ◌==◌,
  if◌then◌else◌, inl, inr, Bool-cases,
}
use hacp_sidecar.Provenance.{
  Event, RingBuffer, Disk, stop, signal, tick, accept, accept_denied, wake, flush, put,
  new_ring_buffer, event_of, recorded,
}
use hacp_sidecar.Evaluate.Interfaces.{refused, panicked, unspecified}
use hacp_sidecar.Provenance.Window.{mod_lt}
use hacp_sidecar.Provenance.Ledger.{Op, allow, deny, work, Log, note, step, run, new_log}

-- The slice keeps its length, the oldest event is in it, and it holds no more events than places.
pub record Within (capacity : ℕ) (rb : RingBuffer) : Type 0 where
  pub same : rb.capacity ≡ capacity
  pub head_in : rb.head < rb.capacity
  pub count_in : rb.count ≤ rb.capacity

put-Within :
    (capacity : ℕ) (log : Log) (e : Event) (es : List Event)
    → Within capacity log.ring
    → Within capacity (note log (recorded log.ring (put log.ring e)) es).ring
unfolding put
put-Within capacity log e es w = elim (Bool-cases (leb log.ring.capacity log.ring.count)) [
  | inl full ↦ rw full w
  | inr room ↦ rw room record { same = w.same; head_in = w.head_in; count_in = ground arith }
]

flush-Within :
    (capacity : ℕ) (rb : RingBuffer) (disk : Disk)
    → Within capacity rb
    → Within capacity (flush rb disk).0
unfolding flush
flush-Within capacity rb disk w = elim (Bool-cases (rb.count == 0)) [
  | inl empty ↦ rw (empty, flush) w
  | inr held ↦
      rw (held, flush)
        record {
          same = w.same;
          head_in = mod_lt (rb.head + rb.count) rb.capacity (omega (arith, w.head_in, w.count_in));
          count_in = omega arith;
        }
]

step-Within :
    (capacity : ℕ) (log : Log) (op : Op)
    → Within capacity log.ring
    → Within capacity (step log op).ring
unfolding step accept accept_denied wake put
step-Within capacity log (allow now env none req) w =
    elim (leb log.ring.capacity log.ring.count)
      as (λ full.
        Within capacity (note log (if full then refused log.ring else panicked) []).ring) [
          | true ↦ w
          | false ↦ w
        ]
step-Within capacity log (allow now env (some tok) req) w =
    put-Within capacity log (event_of now env tok req "ALLOW" unspecified) _ w
step-Within capacity log (deny now (some env) (some tok) req reason) w =
    put-Within capacity log (event_of now env tok req "DENY" reason) _ w
step-Within capacity log (deny now none tok req reason) w = w
step-Within capacity log (deny now (some env) none req reason) w = w
step-Within capacity log (work stop disk) w = flush-Within capacity log.ring disk w
step-Within capacity log (work tick disk) w = flush-Within capacity log.ring disk w
step-Within capacity log (work signal disk) w =
    flush-Within capacity (record log.ring { flush_signal = false }) disk
      (record { same = w.same; head_in = w.head_in; count_in = w.count_in })

run-Within_from :
    (capacity : ℕ) (log : Log) (ops : List Op)
    → Within capacity log.ring
    → Within capacity (run log ops).ring
unfolding run
run-Within_from capacity log [] w = w
run-Within_from capacity log (op ∷ ops) w =
    run-Within_from capacity (step log op) ops (step-Within capacity log op w)

-- Over any sequence of calls and turns of the worker on a new buffer with a place, whatever the file
-- does, the slice keeps its length, the buffer never counts more events than the slice has places, and the
-- places of the oldest event and of the next one are indices of the slice.
pub run-Within :
    (capacity : ℕ) (ops : List Op)
    → 0 < capacity
    → Within capacity (run (new_log capacity) ops).ring
      × (((run (new_log capacity) ops).ring.head + (run (new_log capacity) ops).ring.count)
            % (run (new_log capacity) ops).ring.capacity
          < capacity)
unfolding new_ring_buffer
run-Within capacity ops h =
    let w =
      run-Within_from capacity (new_log capacity) ops
        (record { same = refl; head_in = h; count_in = omega arith }) in
    let rb = (run (new_log capacity) ops).ring in
    let i = mod_lt (rb.head + rb.count) rb.capacity (omega (arith, w.head_in, w.count_in)) in
    (w, subst (λ c. (rb.head + rb.count) % rb.capacity < c) w.same i)
