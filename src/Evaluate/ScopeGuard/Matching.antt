-- ===== src/Evaluate/ScopeGuard/Matching.antt =====
-- What `MatchRequestConstraints` asks of a request.
use hacp_sidecar.Common.{◌≡◌, ◌≢◌, refl, ◌↔◌, true, some, [], ◌∷◌, arith, length, ◌==◌, eq_iff}
use hacp_sidecar.Wire.{Bytes, Constraints}
use hacp_sidecar.Evaluate.Interfaces.{RequestContext}
use hacp_sidecar.Evaluate.ScopeGuard.{Library, match_constraints, match_request_constraints}
use hacp_sidecar.Evaluate.ScopeGuard.Target.{normal_target, equal_request_target_iff}

-- Each constraint that the token states is met; an empty one states nothing.
pub record Matches (lib : Library) (c : Constraints) (req : RequestContext) : Type 0 where
  pub method : c.method ≢ "" → lib.equal_fold c.method req.method ≡ true
  pub path : c.path ≢ [] → normal_target c.path ≡ normal_target req.path
  pub tool_name : c.tool_name ≢ "" → c.tool_name ≡ req.tool_name
  pub payload_hash : c.payload_hash ≢ "" → c.payload_hash ≡ req.payload_hash

empty_iff : (bs : Bytes) → ((length bs == 0) ≡ true) ↔ (bs ≡ [])
empty_iff [] = ((λ _. refl), (λ _. refl))
empty_iff (b ∷ bs) = ((λ h. absurd (ground arith)), (λ h. absurd (cc h)))

-- A request matches the token's constraints exactly if its method, target, tool and payload digest
-- each meet what the token states of them: the method up to case, the target up to the case of the
-- digits of its percent-encodings.
pub match_request_constraints-Matches-iff :
    (lib : Library) (c : Constraints) (req : RequestContext)
    → (match_request_constraints lib (some c) req ≡ true) ↔ Matches lib c req
unfolding match_request_constraints match_constraints
match_request_constraints-Matches-iff lib c req = ground (
  arith,
  eq_iff c.method "",
  eq_iff c.tool_name "",
  eq_iff c.payload_hash "",
  eq_iff c.tool_name req.tool_name,
  eq_iff c.payload_hash req.payload_hash,
  empty_iff c.path,
  equal_request_target_iff c.path req.path,
)
