-- ===== src/Sidecar/Fresh.antt =====
-- cmd/sidecar/main.go: the ledger and the provenance log of a sidecar that starts.
use hacp_sidecar.Common.{◌≡◌, sym, ap, true, arith, inl, inr, Bool-cases}
use hacp_sidecar.Common.Time.{Time}
use hacp_sidecar.Budget.{new_ledger}
use hacp_sidecar.Evaluate.Pipeline.{State}
use hacp_sidecar.Provenance.{RingBuffer, new_ring_buffer}
use hacp_sidecar.Trust.Store.{AtomicTrustStore}
use hacp_sidecar.Trust.Startup.{TrustStartup, started, not_started}
use hacp_sidecar.Sidecar.Config.{
  ControlRuntimeConfig, Loaded, config, rejected, load_control_runtime_config,
}
use hacp_sidecar.Sidecar.Transport.{Dial, dial, local, fatal_config, fatal_transport, dialed}
use hacp_sidecar.Sidecar.Runtime.{Built, built, not_built, new_control_runtime}
use hacp_sidecar.Sidecar.Main.{
  Settings, System, Admin, disabled, listening, not_admin, Running, Main, running, fatal,
  start_trust_admin_server, with_admin, assembled, with_runtime, with_client, with_trust_store,
  with_config, start,
}

module _ {Pool : Type 0} (sys : System Pool) (s : Settings) (loaded_at made_at : Time)
    (r : Running) where
  abbrev pub fresh : State RingBuffer
  fresh = record { ledger = new_ledger; provenance = new_ring_buffer 10000 }

  -- The state of what starts is new.
  abbrev pub Fresh : Main → Type 0
  Fresh m = m ≡ running r → r.state ≡ fresh

  abbrev running_state : Main → State RingBuffer
  running_state (running q) = q.state
  running_state (fatal e) = r.state

  with_runtime-Fresh :
      (cfg : ControlRuntimeConfig) (trust : AtomicTrustStore) (b : Built)
      → Fresh (with_runtime sys s loaded_at made_at cfg trust b)
  with_runtime-Fresh cfg trust (not_built e) h = cc h
  with_runtime-Fresh cfg trust (built runtime) h =
      go (start_trust_admin_server sys s.trust_admin_addr) h
    where
      go :
          (a : Admin)
          → Fresh (
              with_admin sys s loaded_at made_at
                (assembled sys s loaded_at made_at cfg trust runtime)
                a)
      go disabled h = sym (ap running_state h)
      go (listening addr) h = sym (ap running_state h)
      go (not_admin e) h = cc h

  with_client-Fresh :
      (cfg : ControlRuntimeConfig) (trust : AtomicTrustStore) (d : Dial sys.x509)
      → Fresh (with_client sys s loaded_at made_at cfg trust d)
  with_client-Fresh cfg trust local h = with_runtime-Fresh cfg trust _ h
  with_client-Fresh cfg trust (dial address creds) h =
      elim (Bool-cases (sys.new_client address creds)) [
        | inl made ↦
            with_runtime-Fresh cfg trust (new_control_runtime cfg true made_at)
              (ground (arith, made, h))
        | inr failed ↦ absurd (ground (arith, failed, h))
      ]
  with_client-Fresh cfg trust (fatal_config e) h = cc h
  with_client-Fresh cfg trust (fatal_transport e) h = cc h

  pub start-Fresh : Fresh (start sys s loaded_at made_at)
  unfolding start
  start-Fresh = by_config (load_control_runtime_config sys.parse_duration s.control)
    where
      by_trust :
          (cfg : ControlRuntimeConfig) (t : TrustStartup)
          → Fresh (with_trust_store sys s loaded_at made_at cfg t)
      by_trust cfg (not_started e) h = cc h
      by_trust cfg (started trust) h = with_client-Fresh cfg trust (dialed sys.x509 cfg.mode cfg) h

      by_config : (l : Loaded) → Fresh (with_config sys s loaded_at made_at l)
      by_config (rejected e) h = cc h
      by_config (config cfg) h = by_trust cfg _ h
