-- ===== src/Tests/Boundaries.antt =====
-- The boundary decisions of internal/scope/matrix.go on concrete values.
use hacp_sidecar.Common.{◌≡◌, refl, [], ◌∷◌}
use hacp_sidecar.Common.Strings.{contains}
use hacp_sidecar.Scope.Matrix.{
  deny, attr_data_class, default_matrix, fill_index, index_get, index_put, same_key, matrix_index,
  evaluate_transition, action_rank, is_more_restrictive, most_restrictive,
  evaluate_boundary_crossing,
}

-- From `public` the table has a row; from `confidential` it denies.
crossing_denied :
    evaluate_boundary_crossing attr_data_class ("internal" ∷ "confidential" ∷ []) "public" ≡ deny
unfolding evaluate_boundary_crossing most_restrictive is_more_restrictive action_rank
    evaluate_transition matrix_index fill_index index_put index_get same_key default_matrix contains
crossing_denied = refl
