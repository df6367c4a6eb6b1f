-- ===== src/Tests/Requests.antt =====
-- The scope guard of internal/evaluate/scope.go on concrete requests.
use hacp_sidecar.Common.{◌≡◌, refl, sym, true, none, some, [], ◌∷◌, arith, str_eq}
use hacp_sidecar.Common.Int.{pos}
use hacp_sidecar.Common.Strings.{contains}
use hacp_sidecar.Wire.{Bytes, ScopeGrant, Constraints}
use hacp_sidecar.Scope.Matrix.{evaluate_boundary_crossing}
use hacp_sidecar.Evaluate.Interfaces.{RequestContext}
use hacp_sidecar.Evaluate.ScopeGuard.{
  Library, ProposedActionAttributes, attributes, parse_proposed_action_attributes, check_boundary,
  equal_request_target, is_hex, match_request_constraints, effective_tool_name,
}
use hacp_sidecar.Evaluate.ScopeGuard.Boundary.{InScope, check_boundary-InScope-iff}
use hacp_sidecar.Evaluate.ScopeGuard.Target.{normal_target, equal_request_target_iff}
use hacp_sidecar.Evaluate.ScopeGuard.Matching.{Matches, match_request_constraints-Matches-iff}

-- "/%2F" and "/%2f".
abbrev upper_target : Bytes
upper_target = 47 ∷ 37 ∷ 50 ∷ 70 ∷ []

abbrev lower_target : Bytes
lower_target = 47 ∷ 37 ∷ 50 ∷ 102 ∷ []

same_normal : normal_target upper_target ≡ normal_target lower_target
unfolding normal_target is_hex
same_normal = refl

equal_request_target_iff_example : equal_request_target upper_target lower_target ≡ true
equal_request_target_iff_example =
    (equal_request_target_iff upper_target lower_target).1 same_normal

abbrev attrs : ProposedActionAttributes
attrs = record {
  verb = "read";
  resource_class = "internal";
  audience = "internal";
  reversibility = "reversible";
  externality = "internal";
  data_class = "public";
  quantity = some (pos 3);
  destination = some "ledger";
  tool_name = none;
}

-- Stand-ins: texts are compared as they are, and every action reads as `attrs`.
abbrev library : Library
library = record { equal_fold = λ a b. str_eq a b; unmarshal_attributes = λ bytes. some attrs }

abbrev grant : ScopeGrant
grant = record {
  verbs = "read" ∷ [];
  resource_classes = "internal" ∷ [];
  audiences = "internal" ∷ [];
  reversibility = "reversible" ∷ [];
  externality = "internal" ∷ [];
  data_classes = "public" ∷ [];
  max_quantity = some (pos 5);
  destinations = "bank" ∷ "ledger" ∷ [];
  tool_names = "search" ∷ [];
}

abbrev request : RequestContext
request = record {
  method = "GET";
  path = upper_target;
  tool_name = "search";
  payload_hash = "";
  timestamp = 0;
  request_id = "r1";
  latency_ns = pos 0;
  clock = pos 50;
  proposed_action = 123 ∷ 125 ∷ [];
  policy = none;
  checkpoint = none;
}

read_attributes :
    parse_proposed_action_attributes library request.proposed_action ≡ attributes attrs
unfolding parse_proposed_action_attributes
read_attributes = refl

in_grant : InScope grant attrs request
unfolding evaluate_boundary_crossing contains effective_tool_name
in_grant = record {
  audience = refl;
  reversibility = refl;
  externality = refl;
  data_class = refl;
  verb = refl;
  resource_class = refl;
  quantity = omega arith;
  destination = refl;
  tool = refl;
}

check_boundary-InScope-iff_example : (check_boundary library (some grant) request).0 ≡ true
check_boundary-InScope-iff_example =
    (check_boundary-InScope-iff library grant attrs request read_attributes).1 in_grant

abbrev constraints : Constraints
constraints = record {
  method = "GET";
  path = lower_target;
  tool_name = "search";
  payload_hash = "";
  max_uses = none;
}

met : Matches library constraints request
met = record {
  method = λ _. refl;
  path = λ _. sym same_normal;
  tool_name = λ _. refl;
  payload_hash = λ _. refl;
}

match_request_constraints-Matches-iff_example :
    match_request_constraints library (some constraints) request ≡ true
match_request_constraints-Matches-iff_example =
    (match_request_constraints-Matches-iff library constraints request).1 met
