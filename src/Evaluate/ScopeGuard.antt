-- ===== src/Evaluate/ScopeGuard.antt =====
-- internal/evaluate/scope.go: the token's constraints and the envelope's scope against a request.
pub mod Boundary
pub mod Target
pub mod Matching
use hacp_sidecar.Common.{
  ℕ, ◌+◌, ◌-◌, String, Bool, true, false, not, ◌&&◌, ◌||◌, Option, none, some, List, [], ◌∷◌, leb,
  ◌==◌, length, str_eq, if◌then◌else◌,
}
use hacp_sidecar.Common.Int.{ℤ, ltb_ℤ}
use hacp_sidecar.Common.Strings.{contains}
use hacp_sidecar.Wire.{Bytes, ScopeGrant, Constraints}
use hacp_sidecar.Scope.Matrix.{
  AttributeType, Action, attr_audience, attr_reversibility, attr_externality, attr_data_class,
  attr_verb, attr_resource_class, evaluate_boundary_crossing,
}
use hacp_sidecar.Scope.Matrix
use hacp_sidecar.Evaluate.Interfaces.{
  Reason, unspecified, scope_exceeded, boundary_crossing, unknown_attribute, RequestContext,
  ScopeGuard,
}

-- internal/scope/action.go: the attributes of a proposed action.
pub record ProposedActionAttributes : Type 0 where
  pub verb : String
  pub resource_class : String
  pub audience : String
  pub reversibility : String
  pub externality : String
  pub data_class : String
  pub quantity : Option ℤ
  pub destination : Option String
  pub tool_name : Option String

-- What the guard calls of the standard library: `strings.EqualFold`, and `json.Unmarshal` into the
-- attributes (`none` is its error).
pub record Library : Type 0 where
  pub equal_fold : String → String → Bool
  pub unmarshal_attributes : Bytes → Option ProposedActionAttributes

-- A parse result: an error, a nil pointer, or attributes.
pub data Parsed : Type 0 where
  parse_error nil_attributes : Parsed
  attributes : ProposedActionAttributes → Parsed

unfoldable pub parse_proposed_action_attributes : Library → Bytes → Parsed
parse_proposed_action_attributes lib bytes =
    if length bytes == 0 then nil_attributes else elim (lib.unmarshal_attributes bytes) [
      | none ↦ parse_error
      | some attrs ↦ attributes attrs
    ]

unfoldable pub is_hex : ℕ → Bool
is_hex c = (leb b'0' c && leb c b'9') || (leb b'a' c && leb c b'f') || (leb b'A' c && leb c b'F')

abbrev pub lower_hex : ℕ → ℕ
lower_hex c = if leb b'A' c && leb c b'F' then c + (b'a' - b'A') else c

unfoldable pub equal_hex : ℕ → ℕ → Bool
equal_hex a b = lower_hex a == lower_hex b

-- The loop of `equalRequestTarget`, over what is left of the two texts; they have one length.
unfoldable pub equal_from : Bytes → Bytes → Bool
unfolding is_hex equal_hex
equal_from (a ∷ a1 ∷ a2 ∷ xs) (b ∷ b1 ∷ b2 ∷ ys) =
    let past_escape = equal_from xs ys in
    let past_byte = equal_from (a1 ∷ a2 ∷ xs) (b1 ∷ b2 ∷ ys) in
    if a == b'%' && b == b'%' && is_hex a1 && is_hex a2 && is_hex b1 && is_hex b2
    then (if not (equal_hex a1 b1) || not (equal_hex a2 b2) then false else past_escape)
    else if not (a == b)
    then false
    else past_byte
equal_from (a ∷ xs) (b ∷ ys) =
    let past_byte = equal_from xs ys in if not (a == b) then false else past_byte
equal_from _ _ = true

unfoldable pub equal_request_target : Bytes → Bytes → Bool
unfolding equal_from
equal_request_target a b = if not (length a == length b) then false else equal_from a b

-- `MatchRequestConstraints`: each constraint that the token states is met.
unfoldable pub match_constraints : Library → Constraints → RequestContext → Bool
match_constraints lib c req =
    if not (str_eq c.method "") && not (lib.equal_fold c.method req.method)
    then false
    else if not (length c.path == 0) && not (equal_request_target c.path req.path)
    then false
    else if not (str_eq c.tool_name "") && not (str_eq c.tool_name req.tool_name)
    then false
    else if not (str_eq c.payload_hash "") && not (str_eq c.payload_hash req.payload_hash)
    then false
    else true

unfoldable pub match_request_constraints : Library → Option Constraints → RequestContext → Bool
unfolding match_constraints
match_request_constraints lib none req = true
match_request_constraints lib (some c) req = match_constraints lib c req

-- A row of the table of checks in `CheckBoundary`.
pub record BoundaryCheck : Type 0 where
  pub attr : AttributeType
  pub scope_values : List String
  pub proposed_value : String

unfoldable pub checks : ScopeGrant → ProposedActionAttributes → List BoundaryCheck
checks g a =
    record { attr = attr_audience; scope_values = g.audiences; proposed_value = a.audience }
    ∷ record {
      attr = attr_reversibility;
      scope_values = g.reversibility;
      proposed_value = a.reversibility;
    }
    ∷ record {
      attr = attr_externality;
      scope_values = g.externality;
      proposed_value = a.externality;
    }
    ∷ record {
      attr = attr_data_class;
      scope_values = g.data_classes;
      proposed_value = a.data_class;
    }
    ∷ record { attr = attr_verb; scope_values = g.verbs; proposed_value = a.verb }
    ∷ record {
      attr = attr_resource_class;
      scope_values = g.resource_classes;
      proposed_value = a.resource_class;
    }
    ∷ []

abbrev pub is_allow : Action → Bool
is_allow Matrix.allow = true
is_allow _ = false

-- The reason for a check that fails.
unfoldable pub violation : AttributeType → Reason
violation attr =
    if str_eq attr attr_audience
      || str_eq attr attr_reversibility
      || str_eq attr attr_externality
      || str_eq attr attr_data_class
    then boundary_crossing
    else scope_exceeded

-- The loop over the checks: the reason of the first that fails.
unfoldable pub first_violation : List BoundaryCheck → Option Reason
unfolding violation
first_violation [] = none
first_violation (c ∷ cs) =
    if not (is_allow (evaluate_boundary_crossing c.attr c.scope_values c.proposed_value))
    then some (violation c.attr)
    else first_violation cs

unfoldable pub quantity_violation : Option ℤ → Option ℤ → Option Reason
quantity_violation none q = none
quantity_violation (some most) none = some unknown_attribute
quantity_violation (some most) (some q) = if ltb_ℤ most q then some scope_exceeded else none

unfoldable pub destination_violation : List String → Option String → Option Reason
destination_violation [] d = none
destination_violation (x ∷ xs) none = some unknown_attribute
destination_violation (x ∷ xs) (some d) =
    if contains d (x ∷ xs) then none else some boundary_crossing

-- The tool that the action names, else the one that the request names.
unfoldable pub effective_tool_name : Option String → String → Option String
effective_tool_name (some t) requested = some t
effective_tool_name none requested = if str_eq requested "" then none else some requested

unfoldable pub tool_violation : List String → Option String → Option Reason
tool_violation [] t = none
tool_violation (x ∷ xs) none = some unknown_attribute
tool_violation (x ∷ xs) (some t) = if contains t (x ∷ xs) then none else some boundary_crossing

-- The first of the violations, in the order of the code.
infixr 30 ◌or_else◌
abbrev pub ◌or_else◌ : Option Reason → Option Reason → Option Reason
some r or_else o = some r
none or_else o = o

unfoldable pub scope_violation :
    ScopeGrant → ProposedActionAttributes → RequestContext → Option Reason
unfolding effective_tool_name
scope_violation g a req =
    first_violation (checks g a)
    or_else quantity_violation g.max_quantity a.quantity
    or_else destination_violation g.destinations a.destination
    or_else tool_violation g.tool_names (effective_tool_name a.tool_name req.tool_name)

unfoldable pub verdict : Option Reason → Bool × Reason
verdict none = (true, unspecified)
verdict (some r) = (false, r)

unfoldable pub check_boundary : Library → Option ScopeGrant → RequestContext → Bool × Reason
unfolding verdict
check_boundary lib none req = (false, scope_exceeded)
check_boundary lib (some g) req =
    if length req.proposed_action == 0
    then (true, unspecified)
    else elim (parse_proposed_action_attributes lib req.proposed_action) [
      | parse_error ↦ (false, scope_exceeded)
      | nil_attributes ↦ (true, unspecified)
      | attributes a ↦ verdict (scope_violation g a req)
    ]

unfoldable pub default_scope_guard : Library → ScopeGuard
default_scope_guard lib = record {
  match_request_constraints = match_request_constraints lib;
  check_boundary = check_boundary lib;
}
