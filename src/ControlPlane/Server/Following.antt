-- ===== src/ControlPlane/Server/Following.antt =====
-- internal/controlplane/server.go and subscriber.go together: a subscriber that is given the messages of a
-- server's stream.
use hacp_sidecar.Common.{ℕ, ◌≡◌, ◌⊎◌, List, [], ◌∷◌, take}
use hacp_sidecar.Common.Time.{Time}
use hacp_sidecar.ControlPlane.Journal.{RevocationEntry}
use hacp_sidecar.ControlPlane.Subscriber.{
  Subscriber, SubscriberError, stream_failed, snapshot_required, Response, event,
}
use hacp_sidecar.ControlPlane.Subscriber as Local
use hacp_sidecar.ControlPlane.Subscriber.Mirror.{Mirrors}
use hacp_sidecar.ControlPlane.Subscriber.Reconnect.{Synced}
use hacp_sidecar.ControlPlane.Server.{
  Server, Payload, reset_required, revocation, heartbeat, Message,
}

-- A payload as the subscriber's `Recv` returns it.
abbrev pub as_response : Payload → Response
as_response (reset_required oldest current) = Local.Response.reset_required
as_response (revocation e) = event e
as_response (heartbeat r now_ms) = Local.Response.heartbeat r

abbrev pub carry : (Message → Time) → List Message → List (Response × Time)
carry clock [] = []
carry clock (m ∷ ms) = (as_response m.payload, clock m) ∷ carry clock ms

-- The store holds the first `n` revocations, and both cursors stand there.
abbrev pub Tracks : List RevocationEntry → ℕ → Subscriber → Type 0
Tracks xs n s = Mirrors s n (take n xs) × Synced s

-- How a watch may end: with the stream, after all its messages, or by a reset that the server asked for.
abbrev pub Followed : List RevocationEntry → ℕ → Subscriber × SubscriberError → Type 0
Followed xs last r =
    (n : ℕ) × Tracks xs n r.0 × (((r.1 ≡ stream_failed) × (n ≡ last)) ⊎ (r.1 ≡ snapshot_required))
