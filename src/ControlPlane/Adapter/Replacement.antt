-- ===== src/ControlPlane/Adapter/Replacement.antt =====
-- What the evaluator sees after `ReplaceRevocations` and after single revocations.
use hacp_sidecar.Common.{String, ◌≡◌, refl, Bool, false, ◌||◌, ◌&&◌, List, [], ◌∷◌, arith, str_eq}
use hacp_sidecar.Common.Time.{Time}
use hacp_sidecar.Common.Strings.{contains}
use hacp_sidecar.Revocation.{InMemoryRevocationStore}
use hacp_sidecar.Revocation
use hacp_sidecar.Revocation.Laws.{
  Class, key, token, envelope, same_class, revoke, is_revoked-revoke, is_revoked-new_store,
}
use hacp_sidecar.Revocation.Laws
use hacp_sidecar.ControlPlane.Adapter.{
  RevocationStoreAdapter, revoke_key, revoke_token, revoke_envelope, revoke_keys, revoke_tokens,
  revoke_envelopes, replace_revocations, is_revoked,
}

-- Of the three lists of a snapshot, the one of the class.
abbrev pub select : Class → List String → List String → List String → List String
select key keys tokens envelopes = keys
select token keys tokens envelopes = tokens
select envelope keys tokens envelopes = envelopes

-- The loop of `ReplaceRevocations` for any class.
revoke_all : Class → InMemoryRevocationStore → List String → Time → InMemoryRevocationStore
revoke_all c s [] now = s
revoke_all c s (id ∷ ids) now = revoke_all c (revoke s c id now) ids now

revoke_all-key :
    (s : InMemoryRevocationStore) (ids : List String) (now : Time)
    → revoke_keys s ids now ≡ revoke_all key s ids now
unfolding revoke_keys revoke_all revoke
revoke_all-key s [] now = refl
revoke_all-key s (id ∷ ids) now = revoke_all-key (Revocation.revoke_key s id now) ids now

revoke_all-token :
    (s : InMemoryRevocationStore) (ids : List String) (now : Time)
    → revoke_tokens s ids now ≡ revoke_all token s ids now
unfolding revoke_tokens revoke_all revoke
revoke_all-token s [] now = refl
revoke_all-token s (id ∷ ids) now = revoke_all-token (Revocation.revoke_token s id now) ids now

revoke_all-envelope :
    (s : InMemoryRevocationStore) (ids : List String) (now : Time)
    → revoke_envelopes s ids now ≡ revoke_all envelope s ids now
unfolding revoke_envelopes revoke_all revoke
revoke_all-envelope s [] now = refl
revoke_all-envelope s (id ∷ ids) now =
    revoke_all-envelope (Revocation.revoke_envelope s id now) ids now

-- A loop adds its list to the subjects of its class.
is_revoked-revoke_all :
    (c d : Class) (s : InMemoryRevocationStore) (ids : List String) (now : Time) (j : String)
    → Laws.is_revoked (revoke_all c s ids now) d j
      ≡ ((same_class c d && contains j ids) || Laws.is_revoked s d j)
unfolding revoke_all contains
is_revoked-revoke_all c d s [] now j = ground arith
is_revoked-revoke_all c d s (id ∷ ids) now j = ground (
  arith,
  is_revoked-revoke_all c d (revoke s c id now) ids now j,
  is_revoked-revoke s c d id j now,
)

-- One answer, followed through the three loops.
by_class :
    (c : Class) (keys tokens envelopes : List String) (j : String) (b0 b1 b2 b3 : Bool)
    → b0 ≡ false
    → b1 ≡ ((same_class key c && contains j keys) || b0)
    → b2 ≡ ((same_class token c && contains j tokens) || b1)
    → b3 ≡ ((same_class envelope c && contains j envelopes) || b2)
    → b3 ≡ contains j (select c keys tokens envelopes)
by_class key keys tokens envelopes j b0 b1 b2 b3 e0 e1 e2 e3 = ground arith
by_class token keys tokens envelopes j b0 b1 b2 b3 e0 e1 e2 e3 = ground arith
by_class envelope keys tokens envelopes j b0 b1 b2 b3 e0 e1 e2 e3 = ground arith

-- After a replacement a subject is revoked exactly if the list of its class names it: nothing of
-- the old state is left, and nothing of the new one is missing.
pub is_revoked-replace :
    (a : RevocationStoreAdapter) (keys tokens envelopes : List String) (now : Time) (c : Class)
    (j : String)
    → is_revoked (replace_revocations a keys tokens envelopes now) c j
      ≡ contains j (select c keys tokens envelopes)
unfolding is_revoked replace_revocations
is_revoked-replace a keys tokens envelopes now c j =
    let s0 = Revocation.new_store now in
    let s1 = revoke_all key s0 keys now in
    let s2 = revoke_all token s1 tokens now in
    rw (revoke_all-key, revoke_all-token, revoke_all-envelope)
      (by_class c keys tokens envelopes j (Laws.is_revoked s0 c j) (Laws.is_revoked s1 c j)
        (Laws.is_revoked s2 c j) (Laws.is_revoked (revoke_all envelope s2 envelopes now) c j)
        (is_revoked-new_store now c j) (is_revoked-revoke_all key c s0 keys now j)
        (is_revoked-revoke_all token c s1 tokens now j)
        (is_revoked-revoke_all envelope c s2 envelopes now j))

-- A single revocation through the adapter adds its subject and changes no other answer.
pub is_revoked-adapter_revoke :
    (a : RevocationStoreAdapter) (id j : String) (now : Time) (d : Class)
    → (is_revoked (revoke_key a id now) d j
        ≡ ((same_class key d && str_eq id j) || is_revoked a d j))
      × (is_revoked (revoke_token a id now) d j
          ≡ ((same_class token d && str_eq id j) || is_revoked a d j))
      × (is_revoked (revoke_envelope a id now) d j
          ≡ ((same_class envelope d && str_eq id j) || is_revoked a d j))
unfolding is_revoked revoke_key revoke_token revoke_envelope revoke
is_revoked-adapter_revoke a id j now d = (
  is_revoked-revoke a.store key d id j now,
  is_revoked-revoke a.store token d id j now,
  is_revoked-revoke a.store envelope d id j now,
)
