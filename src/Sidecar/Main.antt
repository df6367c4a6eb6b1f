-- ===== src/Sidecar/Main.antt =====
-- cmd/sidecar/main.go: `main` up to its server, with `startTrustAdminServer` of trust_admin.go. The
-- environment variables are arguments, those of the control plane without the white space around them, and so are white space, certificates, files, the client of the
-- control plane and the listener of the trust admin server.
use hacp_sidecar.Common.{String, Bool, true, false, Option, none, some, str_eq, if◌then◌else◌}
use hacp_sidecar.Common.Int.{ℤ}
use hacp_sidecar.Common.Time.{Time}
use hacp_sidecar.Wire.{Bytes, Crypto}
use hacp_sidecar.Budget.{new_ledger}
use hacp_sidecar.Provenance.{RingBuffer, new_ring_buffer}
use hacp_sidecar.Evaluate.Pipeline.{State}
use hacp_sidecar.Trust.Store.{AtomicTrustStore}
use hacp_sidecar.Trust.File.{TrustFile}
use hacp_sidecar.Trust.Startup.{
  StartupError, TrustStartup, started, not_started, load_startup_trust_store,
}
use hacp_sidecar.Sidecar.Config.{
  Environment, ControlRuntimeConfig, ConfigError, Loaded, config, rejected,
  load_control_runtime_config,
}
use hacp_sidecar.Sidecar.Transport.{
  Certificates, Credentials, TransportError, Dial, dial, local, fatal_config, fatal_transport,
  dialed,
}
use hacp_sidecar.Sidecar.Runtime.{
  ControlRuntime, RuntimeError, Built, built, not_built, new_control_runtime,
}
use hacp_sidecar.Sidecar.Endpoints.{valid_trust_admin_address}

-- What `main` reads from the environment.
pub record Settings : Type 0 where
  pub port : String
  pub upstream : String
  pub provenance_flush_path : String
  pub trust_mode : String
  pub trust_keys_file : String
  pub trust_admin_addr : String
  pub control : Environment

pub record System (Pool : Type 0) : Type 0 where
  pub trim_space : String → String
  pub trim_slashes : String → String
  pub parse_duration : String → Option ℤ
  pub split_host_port : String → Option (String × String)
  pub hex_decode : String → Option Bytes
  pub crypto : Crypto
  pub x509 : Certificates Pool
  pub trust_file : String → TrustFile
  pub new_client : String → Credentials Pool → Bool
  pub listen : String → Bool

pub data AdminError : Type 0 where
  unsafe_trust_admin_address not_listening : AdminError

pub data Admin : Type 0 where
  disabled : Admin
  listening : String → Admin
  not_admin : AdminError → Admin

pub data FatalError : Type 0 where
  control_config : ConfigError → FatalError
  trust_config : StartupError → FatalError
  control_credentials : TransportError → FatalError
  control_client : FatalError
  control_runtime : RuntimeError → FatalError
  trust_admin : AdminError → FatalError

-- What the server of the sidecar runs over; `admin` is the address of the trust admin server.
pub record Running : Type 0 where
  pub port : String
  pub upstream : String
  pub provenance_path : String
  pub control : ControlRuntimeConfig
  pub trust_keys_file : String
  pub trust : AtomicTrustStore
  pub runtime : ControlRuntime
  pub admin : Option String
  pub state : State RingBuffer

pub data Main : Type 0 where
  running : Running → Main
  fatal : FatalError → Main

abbrev pub or_default : String → String → String
or_default value default = if str_eq value "" then default else value

module _ {Pool : Type 0} (sys : System Pool) where
  unfoldable pub start_trust_admin_server : String → Admin
  unfolding valid_trust_admin_address
  start_trust_admin_server raw =
      let addr : String = sys.trim_space raw in
      if str_eq addr ""
      then disabled
      else if valid_trust_admin_address sys.split_host_port sys.trim_space addr
      then (if sys.listen addr then listening addr else not_admin not_listening)
      else not_admin unsafe_trust_admin_address

  module _ (s : Settings) (loaded_at made_at : Time) where
    abbrev pub with_admin : Running → Admin → Main
    with_admin r disabled = running r
    with_admin r (listening addr) = running (record r { admin = some addr })
    with_admin r (not_admin e) = fatal (trust_admin e)

    abbrev pub assembled : ControlRuntimeConfig → AtomicTrustStore → ControlRuntime → Running
    assembled cfg trust runtime = record {
      port = or_default s.port "8080";
      upstream = sys.trim_slashes (or_default s.upstream "http://127.0.0.1:8000");
      provenance_path = or_default s.provenance_flush_path "./provenance.jsonl";
      control = cfg;
      trust_keys_file = s.trust_keys_file;
      trust = trust;
      runtime = runtime;
      admin = none;
      state = record { ledger = new_ledger; provenance = new_ring_buffer 10000 };
    }

    abbrev pub with_runtime : ControlRuntimeConfig → AtomicTrustStore → Built → Main
    with_runtime cfg trust (not_built e) = fatal (control_runtime e)
    with_runtime cfg trust (built runtime) =
        with_admin (assembled cfg trust runtime) (start_trust_admin_server s.trust_admin_addr)

    abbrev pub with_client : ControlRuntimeConfig → AtomicTrustStore → Dial sys.x509 → Main
    with_client cfg trust local = with_runtime cfg trust (new_control_runtime cfg false made_at)
    with_client cfg trust (dial address creds) =
        if sys.new_client address creds
        then with_runtime cfg trust (new_control_runtime cfg true made_at)
        else fatal control_client
    with_client cfg trust (fatal_config e) = fatal (control_config e)
    with_client cfg trust (fatal_transport e) = fatal (control_credentials e)

    abbrev pub with_trust_store : ControlRuntimeConfig → TrustStartup → Main
    with_trust_store cfg (not_started e) = fatal (trust_config e)
    with_trust_store cfg (started trust) = with_client cfg trust (dialed sys.x509 cfg.mode cfg)

    abbrev pub with_config : Loaded → Main
    with_config (rejected e) = fatal (control_config e)
    with_config (config cfg) =
        let trust_file : String = sys.trim_space s.trust_keys_file in
        with_trust_store cfg (
          load_startup_trust_store sys.hex_decode sys.crypto loaded_at (sys.trim_space s.trust_mode)
            trust_file (sys.trust_file trust_file))

    -- `main`, to the point where its server listens or the process ends with an error.
    unfoldable pub start : Main
    unfolding load_control_runtime_config load_startup_trust_store new_control_runtime
        start_trust_admin_server new_ledger new_ring_buffer
    start = with_config (load_control_runtime_config sys.parse_duration s.control)
