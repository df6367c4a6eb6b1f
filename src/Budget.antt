-- ===== src/Budget.antt =====
-- internal/budget/ledger.go: how often each decision token and each envelope's autonomy budget
-- has been used. The mutex makes each method one atomic step; a method that mutates the ledger
-- returns the new one. A count starts at 0 and goes up by 1 while it is below an `int`, so it is
-- a natural number that does not overflow; the limits are any `int`.
pub mod Accounting
use hacp_sidecar.Common.{
  ℕ, ◌+◌, String, Bool, true, false, ◌||◌, Option, none, some, List, [], ◌∷◌, str_eq, if◌then◌else◌,
}
use hacp_sidecar.Common.Int.{ℤ, pos, leb_ℤ}
use hacp_sidecar.Common.Strings.{lookup, put}

pub record Ledger : Type 0 where
  pub token_consumed : List (String × ℕ)
  pub autonomy_consumed : List (String × ℕ)

unfoldable pub new_ledger : Ledger
new_ledger = record { token_consumed = []; autonomy_consumed = [] }

-- Reading a missing key of a `map[string]int` gives 0.
unfoldable pub count : String → List (String × ℕ) → ℕ
count k m = elim (lookup k m) [ none ↦ 0 | some n ↦ n ]

unfoldable pub consume_token : Ledger → String → ℤ → Ledger × Bool
consume_token l token_id max_uses =
    if str_eq token_id "" || leb_ℤ max_uses (pos 0)
    then (l, false)
    else let current = count token_id l.token_consumed in
      if leb_ℤ max_uses (pos current)
      then (l, false)
      else (record l { token_consumed = put token_id (current + 1) l.token_consumed }, true)

unfoldable pub consume_autonomy : Ledger → String → ℤ → Ledger × Bool
consume_autonomy l envelope_id max_actions =
    if str_eq envelope_id "" || leb_ℤ max_actions (pos 0)
    then (l, false)
    else let current = count envelope_id l.autonomy_consumed in
      if leb_ℤ max_actions (pos current) then (l, false) else (
        record l { autonomy_consumed = put envelope_id (current + 1) l.autonomy_consumed },
        true,
      )

unfoldable pub reset : Ledger → Ledger
reset l = record l { token_consumed = []; autonomy_consumed = [] }

unfoldable pub reset_tokens : Ledger → Ledger
reset_tokens l = record l { token_consumed = [] }

unfoldable pub reset_autonomy : Ledger → Ledger
reset_autonomy l = record l { autonomy_consumed = [] }

unfoldable pub token_count : Ledger → String → ℕ
token_count l token_id = count token_id l.token_consumed

unfoldable pub autonomy_count : Ledger → String → ℕ
autonomy_count l envelope_id = count envelope_id l.autonomy_consumed

-- The calls that spend a budget, as a client makes them.
pub data Call : Type 0 where
  token : String → ℤ → Call
  autonomy : String → ℤ → Call

unfoldable pub step : Ledger → Call → Ledger × Bool
unfolding consume_token consume_autonomy
step l (token k m) = consume_token l k m
step l (autonomy k m) = consume_autonomy l k m

-- The ledger after the calls, in order.
unfoldable pub run : Ledger → List Call → Ledger
run l [] = l
run l (c ∷ cs) = run (step l c).0 cs
