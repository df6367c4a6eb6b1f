-- ===== src/ControlPlane/Adapter.antt =====
-- internal/controlplane/adapter.go: the store that the subscriber writes and the evaluator reads.
-- The adapter holds a pointer to a store of internal/evaluate and swaps it in `ReplaceRevocations`;
-- the store is reached through the adapter alone, so the pointer is the store itself.
pub mod Replacement
use hacp_sidecar.Common.{String, Bool, List, [], ◌∷◌}
use hacp_sidecar.Common.Time.{Time}
use hacp_sidecar.Revocation.{InMemoryRevocationStore}
use hacp_sidecar.Revocation
use hacp_sidecar.Revocation.Laws
use hacp_sidecar.Revocation.Laws.{Class}

pub record RevocationStoreAdapter : Type 0 where
  pub store : InMemoryRevocationStore

unfoldable pub new_adapter : Time → RevocationStoreAdapter
new_adapter now = record { store = Revocation.new_store now }

unfoldable pub is_key_revoked : RevocationStoreAdapter → String → Bool
is_key_revoked a id = Revocation.is_key_revoked a.store id

unfoldable pub is_token_revoked : RevocationStoreAdapter → String → Bool
is_token_revoked a id = Revocation.is_token_revoked a.store id

unfoldable pub is_envelope_revoked : RevocationStoreAdapter → String → Bool
is_envelope_revoked a id = Revocation.is_envelope_revoked a.store id

unfoldable pub last_updated : RevocationStoreAdapter → Time
last_updated a = Revocation.last_updated a.store

unfoldable pub revoke_key : RevocationStoreAdapter → String → Time → RevocationStoreAdapter
revoke_key a id now = record { store = Revocation.revoke_key a.store id now }

unfoldable pub revoke_token : RevocationStoreAdapter → String → Time → RevocationStoreAdapter
revoke_token a id now = record { store = Revocation.revoke_token a.store id now }

unfoldable pub revoke_envelope : RevocationStoreAdapter → String → Time → RevocationStoreAdapter
revoke_envelope a id now = record { store = Revocation.revoke_envelope a.store id now }

-- The three loops of `ReplaceRevocations`, over the store under construction.
unfoldable pub revoke_keys : InMemoryRevocationStore → List String → Time → InMemoryRevocationStore
revoke_keys s [] now = s
revoke_keys s (id ∷ ids) now = revoke_keys (Revocation.revoke_key s id now) ids now

unfoldable pub revoke_tokens :
    InMemoryRevocationStore → List String → Time → InMemoryRevocationStore
revoke_tokens s [] now = s
revoke_tokens s (id ∷ ids) now = revoke_tokens (Revocation.revoke_token s id now) ids now

unfoldable pub revoke_envelopes :
    InMemoryRevocationStore → List String → Time → InMemoryRevocationStore
revoke_envelopes s [] now = s
revoke_envelopes s (id ∷ ids) now = revoke_envelopes (Revocation.revoke_envelope s id now) ids now

-- The error of the interface is always nil here, so the new adapter is the whole result.
unfoldable pub replace_revocations :
    RevocationStoreAdapter → List String → List String → List String → Time → RevocationStoreAdapter
unfolding revoke_keys revoke_tokens revoke_envelopes
replace_revocations a keys tokens envelopes now =
    let next = Revocation.new_store now in
    let next = revoke_keys next keys now in
    let next = revoke_tokens next tokens now in
    let next = revoke_envelopes next envelopes now in record { store = next }

-- What the evaluator sees of an adapter.
unfoldable pub is_revoked : RevocationStoreAdapter → Class → String → Bool
is_revoked a c id = Laws.is_revoked a.store c id
