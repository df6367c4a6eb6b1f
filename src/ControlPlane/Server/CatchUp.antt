-- ===== src/ControlPlane/Server/CatchUp.antt =====
-- internal/controlplane/server.go: a turn whose sends succeed brings the watcher up to the journal.
use hacp_sidecar.ControlPlane.Server.{Server}
