-- ===== src/Lib.antt =====
-- The decision core of the HACP sidecar, and the distribution of revocations to it.
--
-- The sidecar stands between an agent and a service. For each request it asks the pipeline
-- (internal/evaluate) whether the signed intent envelope and the decision token authorize the
-- action; the pipeline asks the scope guard (internal/evaluate, internal/scope), the revocation
-- store, the budget ledger (internal/budget) and the provenance writer. A control plane
-- (internal/controlplane) keeps a journal of revocations; a subscriber in each sidecar copies it
-- into the store that the pipeline reads, and a control state says whether that copy may be trusted.
--
-- Files, each with its children:
--   Budget        internal/budget/ledger.go: the ledger; `step` and `run` are sequences of its calls.
--   Revocation    internal/evaluate/revocation.go: the deny lists.
--   Scope         internal/scope/matrix.go: the table of boundary transitions and its evaluation.
--   ControlPlane  internal/controlplane: adapter.go (Adapter), state.go (State), journal.go (Journal),
--                 subscriber.go (Subscriber) and server.go (Server).
--   Wire          internal/wire: the signed objects, their parsers and encodings (Parsing), headers.go and
--                 key_resolver.go (Headers) and jcs.go (Canonical).
--   Evaluate      internal/evaluate: interfaces.go (Interfaces), scope.go with internal/scope/action.go
--                 (ScopeGuard) and pipeline.go (Pipeline). `check_envelope` is steps 1 to 6 of
--                 `Evaluate`, `evaluate_without_token` step 7, `check_token` steps 8 to 16 and
--                 `spend_token` steps 17 and 18.
--   Provenance    internal/provenance: ring.go and noop.go. `Ledger` has sequences of its calls and of
--                 the worker's turns.
--   Trust         internal/trust: snapshot.go, store.go and observability.go (Store), file_loader.go and
--                 reload.go (File); Startup is cmd/sidecar/trust_config.go.
--   Proxy         internal/proxy: proposed_action.go (Action) and handler.go, its header copy (Hops), its
--                 responses and `ServeHTTP` (Handler) and its body reader (Reader).
--   Enforcement   cmd/sidecar/main.go, where the pipeline is given the store and the control state that
--                 the subscriber writes.
--   Sidecar       cmd/sidecar: control_config.go (Config), control_transport.go with the dialling of
--                 main.go (Transport), control_runtime.go with the two files of readiness and the wiring
--                 in main.go (Runtime), the revocation endpoints of main.go and trust_admin.go
--                 (Endpoints, with sequences of requests in Revoking), `main` up to its server (Main), the routes
--                 of the server over the state that it has made (Routes, where `run` is a sequence of
--                 requests, reloads of the trust store and what the control plane gives the subscriber;
--                 Feeding says what it may give) and the rest of `main` with the provenance worker
--                 (Lifetime, where `live` is what is appended to the provenance file until a signal or an
--                 error of the server ends the process); Closed is about the whole sidecar.
--   Conformance   cmd/hacp-conformance-runner/main.go: the messages (Protocol), the state (Runner), what
--                 `handleEvaluate` does before it asks the pipeline (Preflight, Inputs), `HandleRequest`
--                 and its operations (Handling) and the loop of `main` (Serving).
--   Common        Booleans, lists, `int64`, times, UTF-8, the order of strings and string-keyed maps.
--   Tests         runs and instances at concrete inputs.
--
-- A method that changes its receiver returns the new one. Where the code holds a mutex a method is
-- one step, so a concurrent run is a sequence of calls. A `time.Time` is the number of nanoseconds
-- since the zero time; a method reads the clock once, and the reading is an argument. `int` and
-- `int64` are integers and `uint64` natural numbers, with the wrap-around of `expires_at + skew`, of
-- `revision + 1`, of a stream's sequence and of the doubled backoff written out. The budget counts
-- do not overflow: each stays below a limit of type `int`; nor do the ring's indices, which stay
-- below twice its capacity. An error is a constructor that carries what its text names. There is no
-- fuel: every loop is a structural recursion over a list, and the endless loops (of the subscriber's
-- `watch` and `Run`, of the server's `WatchRevocations` and of the ring's worker) recurse over the
-- list of what the network, the file and the context do in their turns.
--
-- Arguments, since they are not code of this repository: Ed25519, SHA-256 and hexadecimal
-- (`Crypto`), `strings.EqualFold` and `json.Unmarshal` into the attributes of an action (`Library`),
-- JSON decoding and base64 (`Codec`, `Decoder`), the texts of numbers (`Numbers`), names of headers
-- (`Http`), the provenance file (`Disk`), the trust file (`TrustFile`), certificates
-- (`Certificates`), `time.ParseDuration`, `net.SplitHostPort`, the operating system (`System`), the
-- choice of `http.ServeMux` among the registered patterns (`Site`) and the upstream's answer (`Answer`).
-- The key resolver, the revocation store, the scope guard, the provenance writer and the canonical
-- form of JSON are interfaces to the pipeline: its results hold for any of them.
--
-- Simplified: a whole HTTP request is one step of `run`, although `ServeHTTP` holds no lock between the
-- evaluation and the forwarding, so a revocation or a reload that comes in between counts as one that
-- comes after the request. A flush of the ring buffer is one step too: it releases the mutex before it
-- writes, but only the worker writes the file, so an event that is accepted meanwhile is one that is
-- accepted after the flush; an end of the process while it writes is an `Ending` of its own. The times
-- of `time.Unix` do not wrap around, as they do in Go for clocks near the ends of `int64`; that
-- concerns `check_control_state` alone, which neither the sidecar nor the runner gives such a clock.
--
-- Not modelled: the timers of the subscriber, logging, the settings of the HTTP and gRPC transports, a
-- process that is killed, the five seconds of the shutdown of the sidecar command (a request that
-- outlasts them, or that an error of the server cuts off, is in no sequence), the benchmarks and tools, which drive and measure the code that is
-- modelled, and the generated protocol code beyond its messages.
pub mod Common
pub mod Budget
pub mod Revocation
pub mod Scope
pub mod ControlPlane
pub mod Wire
pub mod Evaluate
pub mod Provenance
pub mod Trust
pub mod Proxy
pub mod Sidecar
pub mod Conformance
pub mod Enforcement
mod Tests
