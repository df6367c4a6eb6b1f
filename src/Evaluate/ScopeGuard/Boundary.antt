-- ===== src/Evaluate/ScopeGuard/Boundary.antt =====
-- What `CheckBoundary` accepts, stated with no order of checks.
use hacp_sidecar.Common.{
  String, ◌≡◌, refl, ◌↔◌, true, false, Option, none, some, List, [], ◌∷◌, arith, length, ◌==◌,
}
use hacp_sidecar.Common.Int.{ℤ, ◌≤ℤ◌}
use hacp_sidecar.Common.Strings.{contains}
use hacp_sidecar.Wire.{Bytes, ScopeGrant}
use hacp_sidecar.Scope.Matrix.{
  Action, allow, attr_audience, attr_reversibility, attr_externality, attr_data_class, attr_verb,
  attr_resource_class, AttributeType, evaluate_boundary_crossing,
}
use hacp_sidecar.Scope.Matrix
use hacp_sidecar.Evaluate.Interfaces.{Reason, RequestContext}
use hacp_sidecar.Evaluate.ScopeGuard.{
  ProposedActionAttributes, Library, attributes, parse_proposed_action_attributes, BoundaryCheck,
  checks, is_allow, first_violation, quantity_violation, destination_violation, effective_tool_name,
  tool_violation, ◌or_else◌, scope_violation, verdict, check_boundary,
}

-- A limit on the quantity needs a quantity that is within it.
abbrev pub WithinQuantity : Option ℤ → Option ℤ → Type 0
WithinQuantity none q = Unit {0}
WithinQuantity (some most) none = ⊥
WithinQuantity (some most) (some q) = q ≤ℤ most

-- A list that grants something needs a name that it has.
abbrev pub OneOf : List String → Option String → Type 0
OneOf [] name = Unit {0}
OneOf (x ∷ xs) none = ⊥
OneOf (x ∷ xs) (some name) = contains name (x ∷ xs) ≡ true

-- The action is inside the grant, in each of the nine ways.
pub record InScope (g : ScopeGrant) (a : ProposedActionAttributes) (req : RequestContext)
    : Type 0 where
  pub audience : evaluate_boundary_crossing attr_audience g.audiences a.audience ≡ allow
  pub reversibility :
      evaluate_boundary_crossing attr_reversibility g.reversibility a.reversibility ≡ allow
  pub externality : evaluate_boundary_crossing attr_externality g.externality a.externality ≡ allow
  pub data_class : evaluate_boundary_crossing attr_data_class g.data_classes a.data_class ≡ allow
  pub verb : evaluate_boundary_crossing attr_verb g.verbs a.verb ≡ allow
  pub resource_class :
      evaluate_boundary_crossing attr_resource_class g.resource_classes a.resource_class ≡ allow
  pub quantity : WithinQuantity g.max_quantity a.quantity
  pub destination : OneOf g.destinations a.destination
  pub tool : OneOf g.tool_names (effective_tool_name a.tool_name req.tool_name)

is_allow_iff : (x : Action) → (is_allow x ≡ true) ↔ (x ≡ allow)
is_allow_iff Matrix.allow = ((λ _. refl), (λ _. refl))
is_allow_iff Matrix.deny = ((λ h. absurd (ground arith)), (λ h. cc h))
is_allow_iff Matrix.checkpoint = ((λ h. absurd (ground arith)), (λ h. cc h))
is_allow_iff Matrix.reauthorize = ((λ h. absurd (ground arith)), (λ h. cc h))
is_allow_iff (Matrix.other s) = ((λ h. absurd (ground arith)), (λ h. cc h))

abbrev Passes : List BoundaryCheck → Type 0
Passes [] = Unit {0}
Passes (c ∷ cs) =
    (evaluate_boundary_crossing c.attr c.scope_values c.proposed_value ≡ allow) × Passes cs

first_violation_iff : (cs : List BoundaryCheck) → (first_violation cs ≡ none) ↔ Passes cs
unfolding first_violation
first_violation_iff [] = ((λ _. tt), (λ _. refl))
first_violation_iff (c ∷ cs) = ground (
  arith,
  is_allow_iff (evaluate_boundary_crossing c.attr c.scope_values c.proposed_value),
  first_violation_iff cs,
)

quantity_violation_iff : (m q : Option ℤ) → (quantity_violation m q ≡ none) ↔ WithinQuantity m q
unfolding quantity_violation
quantity_violation_iff none q = ((λ _. tt), (λ _. refl))
quantity_violation_iff (some m) none = ((λ h. cc h), (λ h. absurd h))
quantity_violation_iff (some m) (some q) = ground arith

destination_violation_iff :
    (xs : List String) (d : Option String) → (destination_violation xs d ≡ none) ↔ OneOf xs d
unfolding destination_violation
destination_violation_iff [] d = ((λ _. tt), (λ _. refl))
destination_violation_iff (x ∷ xs) none = ((λ h. cc h), (λ h. absurd h))
destination_violation_iff (x ∷ xs) (some d) = ground arith

tool_violation_iff :
    (xs : List String) (t : Option String) → (tool_violation xs t ≡ none) ↔ OneOf xs t
unfolding tool_violation
tool_violation_iff [] t = ((λ _. tt), (λ _. refl))
tool_violation_iff (x ∷ xs) none = ((λ h. cc h), (λ h. absurd h))
tool_violation_iff (x ∷ xs) (some t) = ground arith

or_else_iff : (o p : Option Reason) → (o or_else p ≡ none) ↔ ((o ≡ none) × (p ≡ none))
or_else_iff none p = ((λ h. (refl, h)), (λ h. h.1))
or_else_iff (some r) p = ((λ h. absurd (cc h)), (λ h. absurd (cc h.0)))

verdict_iff : (o : Option Reason) → ((verdict o).0 ≡ true) ↔ (o ≡ none)
unfolding verdict
verdict_iff none = ((λ _. refl), (λ _. refl))
verdict_iff (some r) = ((λ h. absurd (cc h)), (λ h. absurd (cc h)))

scope_violation_iff :
    (g : ScopeGrant) (a : ProposedActionAttributes) (req : RequestContext)
    → (scope_violation g a req ≡ none) ↔ InScope g a req
unfolding scope_violation checks
scope_violation_iff g a req =
    let t = tool_violation g.tool_names (effective_tool_name a.tool_name req.tool_name) in
    let d = destination_violation g.destinations a.destination in
    let q = quantity_violation g.max_quantity a.quantity in
    let first = or_else_iff (first_violation (checks g a)) (q or_else d or_else t) in
    let second = or_else_iff q (d or_else t) in
    let third = or_else_iff d t in
    let tool = tool_violation_iff g.tool_names (effective_tool_name a.tool_name req.tool_name) in
    let destination = destination_violation_iff g.destinations a.destination in
    let quantity = quantity_violation_iff g.max_quantity a.quantity in
    (
      (λ h.
          let passes = (first_violation_iff (checks g a)).0 (first.0 h).0 in
          let rest = second.0 (first.0 h).1 in
          let last = third.0 rest.1 in
          record {
            audience = passes.0;
            reversibility = passes.1.0;
            externality = passes.1.1.0;
            data_class = passes.1.1.1.0;
            verb = passes.1.1.1.1.0;
            resource_class = passes.1.1.1.1.1.0;
            quantity = quantity.0 rest.0;
            destination = destination.0 last.0;
            tool = tool.0 last.1;
          }),
      (λ i. first.1 (
        (first_violation_iff (checks g a)).1 (
          i.audience,
          (i.reversibility, (i.externality, (i.data_class, (i.verb, (i.resource_class, tt))))),
        ),
        second.1 (quantity.1 i.quantity, third.1 (destination.1 i.destination, tool.1 i.tool)),
      )),
    )

parsed_nonempty :
    (lib : Library) (bytes : Bytes) (a : ProposedActionAttributes)
    → parse_proposed_action_attributes lib bytes ≡ attributes a
    → (length bytes == 0) ≡ false
unfolding parse_proposed_action_attributes
parsed_nonempty lib bytes a h = ground arith

-- For an action whose attributes can be read, `CheckBoundary` accepts exactly if each of the six
-- attributes is allowed by the boundary matrix, the quantity is within its limit, and the
-- destination and the tool are among those that the grant names; a limit or a list of the grant
-- that the action says nothing about is not met.
pub check_boundary-InScope-iff :
    (lib : Library) (g : ScopeGrant) (a : ProposedActionAttributes) (req : RequestContext)
    → parse_proposed_action_attributes lib req.proposed_action ≡ attributes a
    → ((check_boundary lib (some g) req).0 ≡ true) ↔ InScope g a req
unfolding check_boundary
check_boundary-InScope-iff lib g a req parsed =
    let decided = verdict_iff (scope_violation g a req) in
    let conditions = scope_violation_iff g a req in
    rw (parsed_nonempty lib req.proposed_action a parsed, parsed)
      ((λ h. conditions.0 (decided.0 h)), (λ i. decided.1 (conditions.1 i)))
