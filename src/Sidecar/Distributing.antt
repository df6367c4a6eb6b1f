-- ===== src/Sidecar/Distributing.antt =====
-- cmd/sidecar/main.go: what a distributed sidecar sends to the upstream.
use hacp_sidecar.Common.{◌≡◌, false, List}
use hacp_sidecar.Wire.{IntentEnvelope, DecisionToken}
use hacp_sidecar.Wire.Parsing.{parsed}
use hacp_sidecar.Wire.Headers.{extract_headers}
use hacp_sidecar.Revocation.Laws
use hacp_sidecar.Revocation.Laws.{Class}
use hacp_sidecar.ControlPlane.Journal.{RevocationEntry}
use hacp_sidecar.ControlPlane.Subscriber.{Subscriber}
use hacp_sidecar.Enforcement.{revokes}
use hacp_sidecar.Sidecar.Routes.{Site, Incoming}

module _ (x : Site) where
  -- The objects of a request name no subject that the revocations name.
  pub record Clear (i : Incoming) (zs : List RevocationEntry) : Type 0 where
    pub env : IntentEnvelope
    pub tok : DecisionToken
    pub extracted :
        extract_headers x.codec x.http.canonical_key i.request.header ≡ parsed (env, tok)
    pub unrevoked : revokes zs env tok ≡ false
