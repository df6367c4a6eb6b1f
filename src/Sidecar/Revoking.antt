-- ===== src/Sidecar/Revoking.antt =====
-- cmd/sidecar/main.go: what a sequence of requests to the local revocation endpoints does to a
-- standalone sidecar.
use hacp_sidecar.Common.{
  String, ◌≡◌, refl, Bool, false, not, ◌&&◌, ◌||◌, none, some, List, [], ◌∷◌, arith, str_eq, eq_iff,
  Bool-cases, if◌then◌else◌, inl, inr,
}
use hacp_sidecar.Common.Time.{Time}
use hacp_sidecar.Revocation.{InMemoryRevocationStore}
use hacp_sidecar.Revocation.Laws
use hacp_sidecar.Revocation.Laws.{
  Class, key, token, envelope, same_class, revoke, is_revoked-revoke,
}
use hacp_sidecar.Sidecar.Endpoints.{revoke_handler, revocation_kind, revocation_routes}

pub record RevokeRequest : Type 0 where
  pub path : String
  pub method : String
  pub id : String
  pub now : Time

-- The store after one request, and after a sequence of them.
unfoldable pub handle : InMemoryRevocationStore → RevokeRequest → InMemoryRevocationStore
unfolding revocation_routes
handle s r = elim (revocation_routes (some s) r.path r.method r.id r.now).0 [
  | none ↦ s
  | some s' ↦ s'
]

unfoldable pub handle_all : InMemoryRevocationStore → List RevokeRequest → InMemoryRevocationStore
unfolding handle
handle_all s [] = s
handle_all s (r ∷ rs) = handle_all (handle s r) rs

abbrev pub path_of : Class → String
path_of key = "/revoke/key"
path_of token = "/revoke/token"
path_of envelope = "/revoke/envelope"

abbrev pub acceptable : RevokeRequest → Bool
acceptable r = str_eq r.method "POST" && not (str_eq r.id "")

-- The request names the subject of the class.
abbrev pub asks : RevokeRequest → Class → String → Bool
asks r c j = str_eq r.path (path_of c) && acceptable r && str_eq r.id j

unfoldable pub asked : List RevokeRequest → Class → String → Bool
asked [] c j = false
asked (r ∷ rs) c j = asks r c j || asked rs c j

handle-of_class :
    (s : InMemoryRevocationStore) (c : Class) (r : RevokeRequest)
    → r.path ≡ path_of c
    → handle s r ≡ (if acceptable r then revoke s c r.id r.now else s)
unfolding handle revocation_routes revocation_kind revoke_handler revoke
handle-of_class s key r e = rw (e) (ground (arith))
handle-of_class s token r e = rw (e) (ground (arith))
handle-of_class s envelope r e = rw (e) (ground (arith))

pub handle-of_other :
    (s : InMemoryRevocationStore) (r : RevokeRequest)
    → revocation_kind r.path ≡ none
    → handle s r ≡ s
unfolding handle revocation_routes
handle-of_other s r e = rw (e, handle) refl

-- A path is that of a class, or of none.
data PathCase (path : String) : Type 0 where
  at_class : (c : Class) → path ≡ path_of c → PathCase path
  at_none :
      revocation_kind path ≡ none → ((c : Class) → str_eq path (path_of c) ≡ false) → PathCase path

path_case : (path : String) → PathCase path
unfolding revocation_kind
path_case path = elim (Bool-cases (str_eq path "/revoke/token")) [
  | inl e ↦ at_class token ((eq_iff path "/revoke/token").0 e)
  | inr n ↦ elim (Bool-cases (str_eq path "/revoke/envelope")) [
    | inl e ↦ at_class envelope ((eq_iff path "/revoke/envelope").0 e)
    | inr m ↦ elim (Bool-cases (str_eq path "/revoke/key")) [
      | inl e ↦ at_class key ((eq_iff path "/revoke/key").0 e)
      | inr o ↦ at_none (ground (arith, n, m, o)) (λ c. differs n m o c)
    ]
  ]
]
  where
    differs :
        str_eq path "/revoke/token" ≡ false
        → str_eq path "/revoke/envelope" ≡ false
        → str_eq path "/revoke/key" ≡ false
        → (c : Class) → str_eq path (path_of c) ≡ false
    differs n m o key = o
    differs n m o token = n
    differs n m o envelope = m

path_of-same_class : (c d : Class) → str_eq (path_of c) (path_of d) ≡ same_class c d
path_of-same_class key key = refl
path_of-same_class key token = refl
path_of-same_class key envelope = refl
path_of-same_class token key = refl
path_of-same_class token token = refl
path_of-same_class token envelope = refl
path_of-same_class envelope key = refl
path_of-same_class envelope token = refl
path_of-same_class envelope envelope = refl

handle-asks :
    (s : InMemoryRevocationStore) (r : RevokeRequest) (d : Class) (j : String)
    → Laws.is_revoked (handle s r) d j ≡ (asks r d j || Laws.is_revoked s d j)
handle-asks s r d j = elim (path_case r.path) [
  | at_none e other ↦ rw (handle-of_other s r e, other d) refl
  | at_class c e ↦
      let same = path_of-same_class c d in
      let revoked = is_revoked-revoke s c d r.id j r.now in
      elim (Bool-cases (acceptable r)) [
        | inl a ↦ rw (handle-of_class s c r e, a, e, same) (ground (arith, revoked))
        | inr n ↦ rw (handle-of_class s c r e, n, e, same) (ground (arith))
      ]
]

-- After any requests to the local endpoints of a standalone sidecar, a subject is revoked exactly if it
-- was before, or one of them is a POST to the path of its class with it as the identifier, which is
-- not empty.
pub handle_all-asked :
    (s : InMemoryRevocationStore) (rs : List RevokeRequest) (d : Class) (j : String)
    → Laws.is_revoked (handle_all s rs) d j ≡ (asked rs d j || Laws.is_revoked s d j)
unfolding handle_all asked
handle_all-asked s [] d j = refl
handle_all-asked s (r ∷ rs) d j =
    let rest = handle_all-asked (handle s r) rs d j in
    let first = handle-asks s r d j in ground (arith, rest, first)
