-- ===== src/Evaluate/Pipeline/DecidesToken.antt =====
-- internal/evaluate/pipeline.go: what steps 8 to 16 ask of the token.
use hacp_sidecar.Common.{
  ◌≡◌, ◌≢◌, ◌↔◌, refl, ap, sym, ◌∙◌, false, Option, none, some, [], ◌∷◌, arith, length, ◌==◌,
}
use hacp_sidecar.Common.Int.{ℤ}
use hacp_sidecar.Wire.{Bytes, IntentEnvelope, DecisionToken, sha256_hex}
use hacp_sidecar.Evaluate.Interfaces.{RequestContext}
use hacp_sidecar.Evaluate.Pipeline.Checks.{
  Pipeline, go, compare_hash, check_action_hash, check_token,
}
use hacp_sidecar.Evaluate.Pipeline.Authorized.{TokenAuthorized}
use hacp_sidecar.Evaluate.Pipeline.Decides.{
  iff_trans, seq_iff, deny_if_iff, InTime-iff, deny_unless_iff, deny_unless_eq_iff,
  check_decision_iff, check_token_signature_iff,
}

nonempty_iff : (xs : Bytes) → ((length xs == 0) ≡ false) ↔ (xs ≢ [])
nonempty_iff [] = ((λ h. cc), (λ h. absurd (h refl)))
nonempty_iff (x ∷ xs) = ((λ h e. cc), (λ h. ground arith))

-- The canonical form of the proposed action hashes to what the token names.
abbrev Hashed : Pipeline → DecisionToken → RequestContext → Type 0
Hashed p tok req =
    (canonical : Bytes) × (p.canonicalize_json req.proposed_action ≡ some canonical)
    × (tok.action_hash ≡ sha256_hex p.crypto canonical)

some_injective : (a b : Bytes) → some a ≡ some b → a ≡ b
some_injective a b h = cc

hashed_iff :
    (p : Pipeline) (tok : DecisionToken) (o : Option Bytes)
    → (compare_hash p tok o ≡ go tt) ↔ (
        (canonical : Bytes) × (o ≡ some canonical)
        × (tok.action_hash ≡ sha256_hex p.crypto canonical))
unfolding compare_hash
hashed_iff p tok none = ((λ h. cc), (λ h. cc h.1))
hashed_iff p tok (some c) =
    iff_trans (deny_unless_eq_iff tok.action_hash (sha256_hex p.crypto c) _ _) (
      (λ e. (c, refl, e)),
      (λ (c', same, e). e ∙ ap (sha256_hex p.crypto) (sym (some_injective c c' same))),
    )

check_action_hash_iff :
    (p : Pipeline) (tok : DecisionToken) (req : RequestContext)
    → (check_action_hash p tok req ≡ go tt) ↔ ((req.proposed_action ≢ []) × Hashed p tok req)
unfolding check_action_hash
check_action_hash_iff p tok req =
    seq_iff _ _ tt (iff_trans (deny_if_iff _ _ _) (nonempty_iff req.proposed_action))
      (hashed_iff p tok (p.canonicalize_json req.proposed_action))

-- Steps 8 to 16 go on exactly for an authorized token.
pub check_token_iff :
    (p : Pipeline) (env : IntentEnvelope) (tok : DecisionToken) (req : RequestContext) (now : ℤ)
    → (check_token p env tok req now ≡ go tt) ↔ TokenAuthorized p env tok req now
unfolding check_token
check_token_iff p env tok req now =
    iff_trans
      (seq_iff _ _ tt (check_token_signature_iff p tok) (
        seq_iff _ _ tt (InTime-iff p tok.expires_at now _ _) (
          seq_iff _ _ tt (deny_unless_eq_iff tok.envelope_id env.envelope_id _ _) (
            seq_iff _ _ tt (check_decision_iff tok) (
              seq_iff _ _ tt (check_action_hash_iff p tok req) (
                seq_iff _ _ tt
                  (deny_unless_iff (p.scope_guard.match_request_constraints tok.constraints req) _
                    _)
                  (deny_unless_iff (p.scope_guard.check_boundary env.scope req).0 _ _)))))))
      (
        (λ (
          (signed, unrevoked),
          (in_time, (bound, (allows, ((proposed, hashed), (matched, inside))))),
        ).
            record {
              signed = signed;
              unrevoked = unrevoked;
              in_time = in_time;
              bound = bound;
              allows = allows;
              proposed = proposed;
              canonical = hashed.0;
              canonicalized = hashed.1;
              hashed = hashed.2;
              matched = matched;
              inside = inside;
            }),
        (λ a. (
          (a.signed, a.unrevoked),
          (
            a.in_time,
            (
              a.bound,
              (
                a.allows,
                ((a.proposed, (a.canonical, a.canonicalized, a.hashed)), (a.matched, a.inside)),
              ),
            ),
          ),
        )),
      )
