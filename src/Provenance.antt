-- ===== src/Provenance.antt =====
-- internal/provenance/ring.go and noop.go: the provenance log. The slice `events`, of a fixed length,
-- is a function of the index; the mutex makes each method one atomic step. Of the worker's
-- goroutine `wake` is one turn of its loop; the file is what the writes append to it. Time and file
-- system are arguments.
pub mod Window
pub mod Ledger
pub mod Bounds
pub mod Traceability
pub mod Accounted
use hacp_sidecar.Common.{
  ℕ, zero, suc, ◌+◌, ◌%◌, String, Bool, true, false, Option, none, some, List, [], ◌∷◌, leb, ◌==◌,
  if◌then◌else◌,
}
use hacp_sidecar.Common.Int.{ℤ}
use hacp_sidecar.Wire.{IntentEnvelope, DecisionToken}
use hacp_sidecar.Evaluate.Interfaces.{
  Reason, unspecified, RequestContext, Accepted, accepted, refused, panicked, ProvenanceWriter,
}

pub record Event : Type 0 where
  pub timestamp : ℤ
  pub request_id : String
  pub envelope_id : String
  pub token_id : String
  pub action_hash : String
  pub decision : String
  pub reason_code : Reason
  pub latency_ns : ℤ

abbrev pub zero_event : Event
zero_event = record {
  timestamp = ℤ.pos 0;
  request_id = "";
  envelope_id = "";
  token_id = "";
  action_hash = "";
  decision = "";
  reason_code = unspecified;
  latency_ns = ℤ.pos 0;
}

-- `flush_signal` is the one place of the channel `flushCh`.
pub record RingBuffer : Type 0 where
  pub events : ℕ → Event
  pub capacity : ℕ
  pub head : ℕ
  pub count : ℕ
  pub flush_signal : Bool

unfoldable pub new_ring_buffer : ℕ → RingBuffer
new_ring_buffer capacity = record {
  events = λ i. zero_event;
  capacity = capacity;
  head = 0;
  count = 0;
  flush_signal = false;
}

-- `rb.events[i] = e`.
abbrev pub store_at : (ℕ → Event) → ℕ → Event → ℕ → Event
store_at events i e j = if j == i then e else events j

abbrev pub pushed : RingBuffer → Event → RingBuffer
pushed rb e = record rb {
  events = store_at rb.events ((rb.head + rb.count) % rb.capacity) e;
  count = rb.count + 1;
  flush_signal = true;
}

-- The end that `Accept` and `AcceptDenied` share; none is the error of a full buffer.
unfoldable pub put : RingBuffer → Event → Option RingBuffer
put rb e = if leb rb.capacity rb.count then none else some (pushed rb e)

abbrev pub event_of : ℤ → IntentEnvelope → DecisionToken → RequestContext → String → Reason → Event
event_of now env tok req decision reason = record {
  timestamp = now;
  request_id = req.request_id;
  envelope_id = env.envelope_id;
  token_id = tok.token_id;
  action_hash = tok.action_hash;
  decision = decision;
  reason_code = reason;
  latency_ns = req.latency_ns;
}

abbrev pub recorded : RingBuffer → Option RingBuffer → Accepted RingBuffer
recorded rb none = refused rb
recorded rb (some rb') = accepted rb'

-- `Accept` reads the token with no test for nil, after the test for a full buffer.
unfoldable pub accept :
    RingBuffer → ℤ → IntentEnvelope → Option DecisionToken → RequestContext → Accepted RingBuffer
unfolding put
accept rb now env none req = if leb rb.capacity rb.count then refused rb else panicked
accept rb now env (some tok) req =
    recorded rb (put rb (event_of now env tok req "ALLOW" unspecified))

unfoldable pub accept_denied :
    RingBuffer
    → ℤ
    → Option IntentEnvelope
    → Option DecisionToken
    → RequestContext
    → Reason
    → Accepted RingBuffer
unfolding put
accept_denied rb now (some env) (some tok) req reason =
    recorded rb (put rb (event_of now env tok req "DENY" reason))
accept_denied rb now _ _ req reason = refused rb

-- The loop that copies the events, from the i-th on.
unfoldable pub copy_events : RingBuffer → ℕ → ℕ → List Event
copy_events rb i zero = []
copy_events rb i (suc left) = rb.events ((rb.head + i) % rb.capacity) ∷ copy_events rb (suc i) left

-- The file: it cannot be opened, or it takes the events that can be encoded.
pub data Disk : Type 0 where
  open_fails : Disk
  opens : (Event → Bool) → Disk

unfoldable pub encode_all : (Event → Bool) → List Event → List Event
encode_all encodes [] = []
encode_all encodes (e ∷ es) =
    let rest = encode_all encodes es in if encodes e then e ∷ rest else rest

unfoldable pub append_file : Disk → List Event → List Event
unfolding encode_all
append_file open_fails es = []
append_file (opens encodes) es = encode_all encodes es

-- `flush`, with what it appends to the file, as one step; the code releases the mutex before it writes.
unfoldable pub flush : RingBuffer → Disk → RingBuffer × List Event
unfolding copy_events append_file
flush rb disk = if rb.count == 0 then (rb, []) else (
  record rb { head = (rb.head + rb.count) % rb.capacity; count = 0 },
  append_file disk (copy_events rb 0 rb.count),
)

-- What ends a wait of the worker. `stop` also ends the worker.
pub data Wake : Type 0 where
  stop tick signal : Wake

unfoldable pub wake : RingBuffer → Wake → Disk → RingBuffer × List Event
unfolding flush
wake rb signal disk = flush (record rb { flush_signal = false }) disk
wake rb _ disk = flush rb disk

unfoldable pub pending_count : RingBuffer → ℕ
pending_count rb = rb.count

-- The log as the pipeline's `evaluate.ProvenanceWriter`, at a time.
unfoldable pub ring_writer : ℤ → ProvenanceWriter RingBuffer
unfolding accept
ring_writer now = record { accept = λ rb env tok req. accept rb now env tok req }

-- internal/provenance/noop.go, whose writer has no state.
unfoldable pub noop_writer : ProvenanceWriter (Unit {0})
noop_writer = record { accept = λ s env tok req. accepted s }
