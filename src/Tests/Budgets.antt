-- ===== src/Tests/Budgets.antt =====
-- The ledger of internal/budget/ledger.go and the deny lists of internal/evaluate/revocation.go on
-- concrete calls.
use hacp_sidecar.Common.{String, ◌≤◌, ◌≡◌, ◌≢◌, refl, true, List, [], ◌∷◌, arith}
use hacp_sidecar.Common.Int.{pos, negsuc}
use hacp_sidecar.Common.Strings.{contains, add, lookup, put, ne_of_eq-false}
use hacp_sidecar.Budget.{
  Ledger, Call, token, autonomy, new_ledger, count, consume_token, consume_autonomy, token_count,
  step,
}
use hacp_sidecar.Budget.Accounting.{token_grants, LimitedBy}
use hacp_sidecar.Revocation.{new_store, revoke_key, is_key_revoked}

-- Two uses of one token among other calls; the third call for it is over the limit.
abbrev calls : List Call
calls =
    token "t1" (pos 2)
    ∷ autonomy "e1" (pos 1)
    ∷ token "t1" (pos 1)
    ∷ token "t2" (negsuc 0)
    ∷ token "t1" (pos 2)
    ∷ token "t1" (pos 2)
    ∷ []

calls_granted : token_grants "t1" new_ledger calls ≡ 2
unfolding token_grants new_ledger count consume_token consume_autonomy step lookup put
calls_granted = refl

calls_limited : LimitedBy "t1" (pos 2) calls
calls_limited = (
  (λ _. omega arith),
  ((λ _. omega arith), ((λ _. omega arith), ((λ _. omega arith), ((λ _. omega arith), tt)))),
)

a_name : ◌≢◌ {A = String} "e1" ""
a_name = ne_of_eq-false "e1" "" refl

none_spent : token_count new_ledger "t1" ≤ 2
unfolding token_count new_ledger count lookup
none_spent = omega arith

abbrev spent : Ledger
spent = record { token_consumed = ("t1", 2) ∷ []; autonomy_consumed = ("e1", 1) ∷ [] }

key_stays_revoked : is_key_revoked (revoke_key (new_store 7) "k1" 8) "k1" ≡ true
unfolding is_key_revoked revoke_key new_store contains add
key_stays_revoked = refl
