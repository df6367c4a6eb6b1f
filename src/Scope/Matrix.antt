-- ===== src/Scope/Matrix.antt =====
-- internal/scope/matrix.go: what to do when an action leaves the scope that was granted.
use hacp_sidecar.Common.{
  ℕ, String, Bool, ◌&&◌, Option, none, some, List, [], ◌∷◌, ltb, str_eq, if◌then◌else◌,
}
use hacp_sidecar.Common.Strings.{contains}

-- `type AttributeType string` and its constants.
abbrev pub AttributeType : Type 0
AttributeType = String

abbrev pub attr_audience : AttributeType
attr_audience = "audience"

abbrev pub attr_reversibility : AttributeType
attr_reversibility = "reversibility"

abbrev pub attr_externality : AttributeType
attr_externality = "externality"

abbrev pub attr_data_class : AttributeType
attr_data_class = "data_class"

abbrev pub attr_verb : AttributeType
attr_verb = "verb"

abbrev pub attr_resource_class : AttributeType
attr_resource_class = "resource_class"

-- `type Action string`: its four constants, and any other text.
pub data Action : Type 0 where
  allow deny checkpoint reauthorize : Action
  other : String → Action

pub record BoundaryTransition : Type 0 where
  pub attribute : AttributeType
  pub from : String
  pub to : String
  pub action : Action

abbrev row : AttributeType → String → String → Action → BoundaryTransition
row a f t x = record { attribute = a; from = f; to = t; action = x }

unfoldable pub default_matrix : List BoundaryTransition
default_matrix =
    row attr_audience "internal" "external" reauthorize
    ∷ row attr_audience "external" "internal" allow
    ∷ row attr_reversibility "reversible" "irreversible" reauthorize
    ∷ row attr_reversibility "irreversible" "reversible" allow
    ∷ row attr_externality "internal" "external" reauthorize
    ∷ row attr_externality "external" "internal" allow
    ∷ row attr_data_class "public" "internal" allow
    ∷ row attr_data_class "internal" "confidential" reauthorize
    ∷ row attr_data_class "confidential" "internal" allow
    ∷ row attr_data_class "internal" "public" allow
    ∷ row attr_data_class "confidential" "public" deny
    ∷ row attr_verb "read" "write" reauthorize
    ∷ row attr_verb "read" "delete" reauthorize
    ∷ row attr_verb "analysis" "action" reauthorize
    ∷ row attr_verb "write" "read" allow
    ∷ row attr_verb "delete" "read" allow
    ∷ row attr_resource_class "internal" "customer_record" reauthorize
    ∷ row attr_resource_class "customer_record" "internal" allow
    ∷ []

pub record TransitionKey : Type 0 where
  pub attribute : AttributeType
  pub from : String
  pub to : String

unfoldable pub same_key : TransitionKey → TransitionKey → Bool
same_key j k = str_eq j.attribute k.attribute && str_eq j.from k.from && str_eq j.to k.to

abbrev pub key_of : BoundaryTransition → TransitionKey
key_of t = record { attribute = t.attribute; from = t.from; to = t.to }

-- The `map[TransitionKey]Action`, as an association list.
abbrev pub Index : Type 0
Index = List (TransitionKey × Action)

unfoldable pub index_get : TransitionKey → Index → Option Action
unfolding same_key
index_get k [] = none
index_get k ((j, x) ∷ m) = if same_key j k then some x else index_get k m

unfoldable pub index_put : TransitionKey → Action → Index → Index
unfolding same_key
index_put k x [] = (k, x) ∷ []
index_put k x ((j, y) ∷ m) = if same_key j k then (k, x) ∷ m else (j, y) ∷ index_put k x m

-- The loop of `init`: a later row replaces an earlier one of the same key.
unfoldable pub fill_index : Index → List BoundaryTransition → Index
unfolding index_put
fill_index m [] = m
fill_index m (t ∷ ts) = fill_index (index_put (key_of t) t.action m) ts

unfoldable pub matrix_index : Index
unfolding fill_index default_matrix
matrix_index = fill_index [] default_matrix

unfoldable pub evaluate_transition : AttributeType → String → String → Action
evaluate_transition attr from to =
    if str_eq from to
    then allow
    else elim (index_get (record { attribute = attr; from = from; to = to }) matrix_index) [
      | some action ↦ action
      | none ↦ deny
    ]

unfoldable pub action_rank : Action → ℕ
action_rank allow = 0
action_rank checkpoint = 1
action_rank reauthorize = 2
action_rank deny = 3
action_rank (other s) = 4

unfoldable pub is_more_restrictive : Action → Action → Bool
unfolding action_rank
is_more_restrictive a b = ltb (action_rank b) (action_rank a)

-- The second loop of `EvaluateBoundaryCrossing`.
unfoldable pub most_restrictive : AttributeType → String → Action → List String → Action
unfolding is_more_restrictive
most_restrictive attr proposed acc [] = acc
most_restrictive attr proposed acc (v ∷ vs) =
    let action = evaluate_transition attr v proposed in
    most_restrictive attr proposed (if is_more_restrictive action acc then action else acc) vs

unfoldable pub evaluate_boundary_crossing : AttributeType → List String → String → Action
unfolding most_restrictive
evaluate_boundary_crossing attr [] proposed = deny
evaluate_boundary_crossing attr (v ∷ vs) proposed =
    if str_eq proposed ""
    then deny
    else if contains proposed (v ∷ vs)
    then allow
    else most_restrictive attr proposed allow (v ∷ vs)
