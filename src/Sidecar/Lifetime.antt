-- ===== src/Sidecar/Lifetime.antt =====
-- cmd/sidecar/main.go with the worker of internal/provenance/ring.go: what a sidecar does from the start of its
-- server to the end of the process, and what that leaves in the provenance file. A request that outlasts the
-- five seconds of `Shutdown` is not among the turns. A process that is killed is not modelled.
use hacp_sidecar.Common.{ℕ, take, List, [], ◌∷◌, ◌++◌}
use hacp_sidecar.Provenance.{Event, RingBuffer, Disk, Wake, stop, wake}
use hacp_sidecar.Sidecar.Main.{Running}
use hacp_sidecar.Sidecar.Routes as Routes
use hacp_sidecar.Sidecar.Routes.{Site, step}

-- After a turn of the worker.
abbrev pub worked_state : Running → RingBuffer × List Event → Running
worked_state s flushed = record s { state = record s.state { provenance = flushed.0 } }

-- `Stop` closes the channel and waits for the worker, whose last turn this is.
unfoldable pub shut_down : Running → Disk → List Event
unfolding wake
shut_down s disk = (wake s.state.provenance stop disk).1

module _ (x : Site) where
  -- An event of the servers or the subscriber, or a turn of the worker of the provenance log.
  pub data Turn : Type 0 where
    handled : Routes.Event x → Turn
    worked : Wake → Disk → Turn

  -- How the process ends: by a signal, with what the file is for the last flush; or by an error of the server,
  -- which does not wait for the worker. That can come while the worker writes what it has taken: then the
  -- file has the first events of these, and others may have been handled since they were taken.
  pub data Ending : Type 0 where
    signalled : Disk → Ending
    server_failed : Ending
    cut_off : Wake → Disk → ℕ → List (Routes.Event x) → Ending

  -- All that is appended to the provenance file, until the process ends after these turns.
  unfoldable pub live : Running → List Turn → Ending → List Event
  unfolding step wake shut_down
  live s [] (signalled disk) = shut_down s disk
  live s [] server_failed = []
  live s [] (cut_off w disk n es) = take n (wake s.state.provenance w disk).1
  live s (handled e ∷ ts) end = live (step x s e) ts end
  live s (worked w d ∷ ts) end =
      let flushed = wake s.state.provenance w d in flushed.1 ++ live (worked_state s flushed) ts end
