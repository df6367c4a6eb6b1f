-- ===== src/Revocation.antt =====
-- internal/evaluate/revocation.go: the deny lists that the evaluator reads. The mutex makes each
-- method one atomic step. A method that reads the clock takes the reading as its argument `now`.
-- A `map[string]bool` that only ever stores `true` is the list of its keys.
pub mod Laws
use hacp_sidecar.Common.{String, Bool, List, []}
use hacp_sidecar.Common.Time.{Time}
use hacp_sidecar.Common.Strings.{contains, add}

pub record InMemoryRevocationStore : Type 0 where
  pub revoked_keys : List String
  pub revoked_envelopes : List String
  pub revoked_tokens : List String
  pub last_updated : Time

unfoldable pub new_store : Time → InMemoryRevocationStore
new_store now = record {
  revoked_keys = [];
  revoked_envelopes = [];
  revoked_tokens = [];
  last_updated = now;
}

unfoldable pub revoke_key : InMemoryRevocationStore → String → Time → InMemoryRevocationStore
revoke_key s key_id now = record s { revoked_keys = add key_id s.revoked_keys; last_updated = now }

unfoldable pub revoke_envelope : InMemoryRevocationStore → String → Time → InMemoryRevocationStore
revoke_envelope s envelope_id now = record s {
  revoked_envelopes = add envelope_id s.revoked_envelopes;
  last_updated = now;
}

unfoldable pub revoke_token : InMemoryRevocationStore → String → Time → InMemoryRevocationStore
revoke_token s token_id now = record s {
  revoked_tokens = add token_id s.revoked_tokens;
  last_updated = now;
}

unfoldable pub is_key_revoked : InMemoryRevocationStore → String → Bool
is_key_revoked s key_id = contains key_id s.revoked_keys

unfoldable pub is_envelope_revoked : InMemoryRevocationStore → String → Bool
is_envelope_revoked s envelope_id = contains envelope_id s.revoked_envelopes

unfoldable pub is_token_revoked : InMemoryRevocationStore → String → Bool
is_token_revoked s token_id = contains token_id s.revoked_tokens

unfoldable pub last_updated : InMemoryRevocationStore → Time
last_updated s = s.last_updated

unfoldable pub clear : InMemoryRevocationStore → Time → InMemoryRevocationStore
clear s now = record {
  revoked_keys = [];
  revoked_envelopes = [];
  revoked_tokens = [];
  last_updated = now;
}
