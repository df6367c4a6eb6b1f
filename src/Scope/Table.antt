-- ===== src/Scope/Table.antt =====
-- internal/scope/matrix.go: the index that `init` builds, and the table of rows.
use hacp_sidecar.Common.{
  String, ◌≡◌, ◌≢◌, refl, Option, none, some, List, [], ◌∷◌, arith, eq_iff, if◌then◌else◌,
}
use hacp_sidecar.Common.Strings.{not_eq-false}
use hacp_sidecar.Scope.Matrix.{
  Action, deny, BoundaryTransition, default_matrix, TransitionKey, same_key, key_of, Index,
  index_get, index_put, fill_index, matrix_index, evaluate_transition,
}

-- The action of the last row with the key, or that of the index if no row has it.
unfoldable pub last_row : TransitionKey → List BoundaryTransition → Option Action → Option Action
unfolding same_key
last_row k [] old = old
last_row k (t ∷ ts) old = last_row k ts (if same_key (key_of t) k then some t.action else old)

index_get-put :
    (k j : TransitionKey) (x : Action) (m : Index)
    → index_get k (index_put j x m) ≡ (if same_key j k then some x else index_get k m)
unfolding index_get index_put
index_get-put k j x [] = refl
index_get-put k j x ((i, y) ∷ m) = ground (
  arith,
  index_get-put k j x m,
  eq_iff i.attribute j.attribute,
  eq_iff i.from j.from,
  eq_iff i.to j.to,
  eq_iff i.attribute k.attribute,
  eq_iff i.from k.from,
  eq_iff i.to k.to,
  eq_iff j.attribute k.attribute,
  eq_iff j.from k.from,
  eq_iff j.to k.to,
)

index_get-fill :
    (k : TransitionKey) (m : Index) (ts : List BoundaryTransition)
    → index_get k (fill_index m ts) ≡ last_row k ts (index_get k m)
unfolding fill_index last_row
index_get-fill k m [] = refl
index_get-fill k m (t ∷ ts) =
    rw
      (index_get-fill k (index_put (key_of t) t.action m) ts, index_get-put k (key_of t) t.action m)

index_get-matrix : (k : TransitionKey) → index_get k matrix_index ≡ last_row k default_matrix none
unfolding matrix_index index_get
index_get-matrix k = index_get-fill k [] default_matrix

-- A transition between different values takes the action of the last row of the table for it, and
-- is denied where the table has no row for it.
pub evaluate_transition-table :
    (attr from to : String)
    → from ≢ to
    → evaluate_transition attr from to
      ≡ elim (last_row (record { attribute = attr; from = from; to = to }) default_matrix none) [
        | some action ↦ action
        | none ↦ deny
      ]
unfolding evaluate_transition
evaluate_transition-table attr from to ne =
    rw
      (
        not_eq-false from to ne,
        index_get-matrix (record { attribute = attr; from = from; to = to }),
      )
      refl
