-- ===== src/Revocation/Laws.antt =====
-- The deny lists seen as one set of subjects of three classes: what an update does to it.
use hacp_sidecar.Common.{String, ◌≡◌, refl, Bool, true, false, ◌||◌, ◌&&◌, str_eq}
use hacp_sidecar.Common.Time.{Time}
use hacp_sidecar.Common.Strings.{contains, contains-add}
use hacp_sidecar.Revocation.{
  InMemoryRevocationStore, new_store, revoke_key, revoke_envelope, revoke_token, is_key_revoked,
  is_envelope_revoked, is_token_revoked,
}

-- What the store can be asked about.
pub data Class : Type 0 where
  key token envelope : Class

abbrev pub same_class : Class → Class → Bool
same_class key key = true
same_class token token = true
same_class envelope envelope = true
same_class _ _ = false

unfoldable pub is_revoked : InMemoryRevocationStore → Class → String → Bool
unfolding is_key_revoked is_token_revoked is_envelope_revoked
is_revoked s key id = is_key_revoked s id
is_revoked s token id = is_token_revoked s id
is_revoked s envelope id = is_envelope_revoked s id

-- The method that revokes a subject of the class.
unfoldable pub revoke : InMemoryRevocationStore → Class → String → Time → InMemoryRevocationStore
unfolding revoke_key revoke_token revoke_envelope
revoke s key id now = revoke_key s id now
revoke s token id now = revoke_token s id now
revoke s envelope id now = revoke_envelope s id now

-- A revocation adds its subject, in its class, and changes no other answer.
pub is_revoked-revoke :
    (s : InMemoryRevocationStore) (c d : Class) (id j : String) (now : Time)
    → is_revoked (revoke s c id now) d j ≡ ((same_class c d && str_eq id j) || is_revoked s d j)
unfolding is_revoked revoke
is_revoked-revoke s key key id j now = contains-add id j s.revoked_keys
is_revoked-revoke s key token id j now = refl
is_revoked-revoke s key envelope id j now = refl
is_revoked-revoke s token key id j now = refl
is_revoked-revoke s token token id j now = contains-add id j s.revoked_tokens
is_revoked-revoke s token envelope id j now = refl
is_revoked-revoke s envelope key id j now = refl
is_revoked-revoke s envelope token id j now = refl
is_revoked-revoke s envelope envelope id j now = contains-add id j s.revoked_envelopes

-- A new store has no subject.
pub is_revoked-new_store :
    (now : Time) (c : Class) (id : String) → is_revoked (new_store now) c id ≡ false
unfolding is_revoked new_store contains
is_revoked-new_store now key id = refl
is_revoked-new_store now token id = refl
is_revoked-new_store now envelope id = refl
