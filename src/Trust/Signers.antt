-- ===== src/Trust/Signers.antt =====
-- The trust store as the key resolver of internal/evaluate/pipeline.go, as cmd/sidecar/main.go connects
-- them.
use hacp_sidecar.Common.{ℕ, String, ◌≡◌, true, some, List}
use hacp_sidecar.Common.Time.{Time}
use hacp_sidecar.Wire.{
  Bytes, Crypto, IntentEnvelope, DecisionToken, verify_ed25519, envelope_payload, token_payload,
}
use hacp_sidecar.Evaluate.Interfaces.{RequestContext, ProvenanceWriter, resolved}
use hacp_sidecar.Evaluate.Pipeline.Checks.{Pipeline, Clock}
use hacp_sidecar.Evaluate.Pipeline.Authorized.{Signed}
use hacp_sidecar.Evaluate.Pipeline.{State, evaluate}
use hacp_sidecar.Evaluate.Pipeline.Authorization.{allows, evaluate-allows_token}
use hacp_sidecar.Trust.{KeyBinding, TrustSnapshot, Result, ok, failed, new_snapshot}
use hacp_sidecar.Trust.Store.{AtomicTrustStore, key_result, key_resolver}
use hacp_sidecar.Trust.Bindings.{Bound, resolve_key_iff}

-- The pipeline with the store for its keys.
unfoldable pub with_trust : Pipeline → AtomicTrustStore → Pipeline
with_trust p s = record p { resolve_key = key_resolver s }

key_result-resolved : (r : Result Bytes) (key : Bytes) → key_result r ≡ resolved key → r ≡ ok key
key_result-resolved (ok k) key h = cc h
key_result-resolved (failed e) key h = cc h

-- One of the bindings gives the signer a key that verifies the signature.
abbrev pub SignedBy : Crypto → List KeyBinding → String → Bytes → Bytes → Type 0
SignedBy c bs key_id payload signature =
    (key : Bytes) × Bound key_id key bs × (verify_ed25519 c key payload signature ≡ true)

module _ {P : Type 0} (writer : ProvenanceWriter P) (p : Pipeline) where
  signed_by :
      (c : Crypto) (revision : ℕ) (loaded_at : Time) (source : String) (bs : List KeyBinding)
      (s : TrustSnapshot) (key_id : String) (payload signature : Bytes)
      → new_snapshot c revision loaded_at source bs ≡ ok s
      → Signed (with_trust p (record { active = some s })) key_id payload signature
      → SignedBy p.crypto bs key_id payload signature
  unfolding with_trust key_resolver
  signed_by c revision loaded_at source bs s key_id payload signature h signed =
      let known = key_result-resolved _ signed.key signed.known in
      let (_, resolves) = resolve_key_iff c revision loaded_at source bs s h in
      (signed.key, (resolves key_id signed.key).0 known, signed.verified)

  -- With a store of a snapshot for its keys, the pipeline allows an action with a token only if one of
  -- the snapshot's bindings gives the envelope's signer a key that verifies the envelope's signature, and
  -- one gives the token's signer a key that verifies the token's.
  pub evaluate-SignedBy :
      (c : Crypto) (revision : ℕ) (loaded_at : Time) (source : String) (bs : List KeyBinding)
      (s : TrustSnapshot) (state : State P) (env : IntentEnvelope) (tok : DecisionToken)
      (req : RequestContext) (clock : Clock)
      → new_snapshot c revision loaded_at source bs ≡ ok s
      → allows (
          evaluate writer
            (with_trust p (record { active = some s }))
            state
            (some env)
            (some tok)
            (some req)
            clock)
        ≡ true
      → SignedBy p.crypto bs env.signer_key_id (envelope_payload env) env.signature
        × SignedBy p.crypto bs tok.signer_key_id (token_payload tok) tok.signature
  evaluate-SignedBy c revision loaded_at source bs s state env tok req clock h allowed =
      let (e, t, _, _) =
        (evaluate-allows_token writer (with_trust p (record { active = some s })) state env tok req
            clock).0
          allowed in
      (
        signed_by c revision loaded_at source bs s _ _ _ h e.signed,
        signed_by c revision loaded_at source bs s _ _ _ h t.signed,
      )
