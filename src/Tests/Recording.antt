-- ===== src/Tests/Recording.antt =====
-- The provenance log of internal/provenance/ring.go, with a buffer of two places.
use hacp_sidecar.Common.{
  ◌+◌, ◌%◌, ◌≤◌, ◌<◌, ◌≡◌, refl, true, false, none, some, List, [], ◌∷◌, ◌++◌, arith,
}
use hacp_sidecar.Common.Int.{pos}
use hacp_sidecar.Evaluate.Interfaces.{unspecified, policy_denied}
use hacp_sidecar.Evaluate.Pipeline.{State, evaluate}
use hacp_sidecar.Evaluate.Pipeline.Authorization.{allows}
use hacp_sidecar.Provenance.{
  RingBuffer, Disk, open_fails, opens, stop, signal, ring_writer, event_of,
}
use hacp_sidecar.Provenance.Window.{pending}
use hacp_sidecar.Provenance.Ledger.{Op, allow, deny, work, run, new_log, AllWork, run-kept}
use hacp_sidecar.Provenance.Bounds.{Within, run-Within}
use hacp_sidecar.Provenance.Traceability.{evaluate-refuses_autonomy}
use hacp_sidecar.Tests.Decisions.{env, tok, req, clock, pipeline}

abbrev disk : Disk
disk = opens (λ e. true)

-- The third request finds the buffer full; the fourth goes round the end of the slice.
abbrev calls : List Op
calls =
    allow (pos 1) env (some tok) req
    ∷ allow (pos 2) env (some tok) req
    ∷ allow (pos 3) env (some tok) req
    ∷ work signal disk
    ∷ deny (pos 4) (some env) (some tok) req policy_denied
    ∷ allow (pos 5) env none req
    ∷ work stop disk
    ∷ []

-- The file cannot be opened at the first turn.
abbrev failing_calls : List Op
failing_calls =
    allow (pos 1) env (some tok) req
    ∷ work signal open_fails
    ∷ allow (pos 2) env (some tok) req
    ∷ []

calls_work : AllWork calls
calls_work = ((λ e. refl), ((λ e. refl), tt))

run-kept_example :
    ((run (new_log 2) calls).file ++ pending (run (new_log 2) calls).ring
      ≡ (run (new_log 2) calls).kept)
    × ((run (new_log 2) calls).ring.count ≤ (run (new_log 2) calls).ring.capacity)
run-kept_example = run-kept 2 calls (omega arith) calls_work

run-Within_example :
    Within 2 (run (new_log 2) failing_calls).ring
    × (((run (new_log 2) failing_calls).ring.head + (run (new_log 2) failing_calls).ring.count)
          % (run (new_log 2) failing_calls).ring.capacity
        < 2)
run-Within_example = run-Within 2 failing_calls (omega arith)

abbrev empty_state : State RingBuffer
empty_state = record {
  ledger = record { token_consumed = []; autonomy_consumed = [] };
  provenance = record {
    events = λ i. event_of (pos 0) env tok req "" unspecified;
    capacity = 2;
    head = 1;
    count = 0;
    flush_signal = false;
  };
}

evaluate-refuses_autonomy_example :
    allows (evaluate (ring_writer (pos 7)) pipeline empty_state (some env) none (some req) clock)
    ≡ false
evaluate-refuses_autonomy_example =
    evaluate-refuses_autonomy (pos 7) pipeline empty_state env req clock
