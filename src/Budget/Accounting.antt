-- ===== src/Budget/Accounting.antt =====
-- internal/budget/ledger.go: the accounts of the ledger over sequences of calls.
use hacp_sidecar.Common.{
  ℕ, zero, suc, ◌+◌, ◌-◌, ◌≤◌, ◌<◌, String, ◌≡◌, ◌≢◌, ◌↔◌, refl, Bool, true, false, List, [], ◌∷◌,
  arith, str_eq, eq_iff, if◌then◌else◌,
}
use Prim.Native.Nat.{min}
use hacp_sidecar.Common.Int.{ℤ, pos, ◌≤ℤ◌}
use hacp_sidecar.Common.Strings.{lookup, put, lookup-put, str_eq_refl}
use hacp_sidecar.Budget.{
  Ledger, new_ledger, count, consume_token, consume_autonomy, token_count, autonomy_count, Call,
  token, autonomy, step, run,
}

-- One grant, counted.
abbrev pub tally : Bool → ℕ
tally true = 1
tally false = 0

-- How many of the calls were for the token `k` and were granted.
unfoldable pub token_grants : String → Ledger → List Call → ℕ
token_grants k l [] = 0
token_grants k l (token j m ∷ cs) =
    let rest = token_grants k (step l (token j m)).0 cs in
    (if str_eq j k then tally (step l (token j m)).1 else 0) + rest
token_grants k l (autonomy j m ∷ cs) = token_grants k (step l (autonomy j m)).0 cs

-- Every call for the token `k` names a limit of at most `m`.
abbrev pub LimitedBy : String → ℤ → List Call → Type 0
LimitedBy k m [] = Unit {0}
LimitedBy k m (token j n ∷ cs) = ((str_eq j k ≡ true) → n ≤ℤ m) × LimitedBy k m cs
LimitedBy k m (autonomy j n ∷ cs) = LimitedBy k m cs

count-put :
    (k j : String) (n : ℕ) (m : _) → count j (put k n m) ≡ (if str_eq k j then n else count j m)
unfolding count
count-put k j n m = ground (arith, lookup-put k j n m)

-- One call moves the count of `k` by its grant.
pub token_count-step :
    (l : Ledger) (j k : String) (m : ℤ)
    → token_count (consume_token l j m).0 k
      ≡ (if str_eq j k then tally (consume_token l j m).1 else 0) + token_count l k
unfolding consume_token token_count
token_count-step l j k m =
    ground (arith, count-put j k (count j l.token_consumed + 1) l.token_consumed, eq_iff j k)

pub token_count-step_autonomy :
    (l : Ledger) (j k : String) (m : ℤ) → token_count (consume_autonomy l j m).0 k ≡ token_count l k
unfolding consume_autonomy token_count
token_count-step_autonomy l j k m = ground arith

-- A granted call stays within its limit, and no call lowers a count.
pub consume_token-within :
    (l : Ledger) (j k : String) (m : ℤ) (limit : ℕ)
    → ((str_eq j k ≡ true) → m ≤ℤ pos limit)
    → token_count l k ≤ limit
    → token_count (consume_token l j m).0 k ≤ limit
unfolding consume_token token_count
consume_token-within l j k m limit h below =
    ground (arith, count-put j k (count j l.token_consumed + 1) l.token_consumed, eq_iff j k)

-- Over any sequence of calls, on this token and on others and on autonomy budgets, the count of
-- a token goes up by exactly the number of calls for it that were granted.
pub token_grants-token_count :
    (k : String) (l : Ledger) (cs : List Call)
    → token_count (run l cs) k ≡ token_grants k l cs + token_count l k
unfolding run token_grants step
token_grants-token_count k l [] = omega arith
token_grants-token_count k l (token j m ∷ cs) =
    omega (arith, token_grants-token_count k (consume_token l j m).0 cs, token_count-step l j k m)
token_grants-token_count k l (autonomy j m ∷ cs) = omega (
  arith,
  token_grants-token_count k (consume_autonomy l j m).0 cs,
  token_count-step_autonomy l j k m,
)

-- If every call for the token names a limit of at most `limit`, and its count was within it, then
-- the count stays within it over any sequence of calls.
pub run-token_count-le :
    (k : String) (limit : ℕ) (l : Ledger) (cs : List Call)
    → LimitedBy k (pos limit) cs
    → token_count l k ≤ limit
    → token_count (run l cs) k ≤ limit
unfolding run step
run-token_count-le k limit l [] h below = below
run-token_count-le k limit l (token j m ∷ cs) h below =
    run-token_count-le k limit (consume_token l j m).0 cs h.1
      (consume_token-within l j k m limit h.0 below)
run-token_count-le k limit l (autonomy j m ∷ cs) h below =
    run-token_count-le k limit (consume_autonomy l j m).0 cs h
      (omega (arith, token_count-step_autonomy l j k m))

token_count-new_ledger : (k : String) → token_count new_ledger k ≡ 0
unfolding new_ledger token_count count lookup
token_count-new_ledger k = refl

-- Replay protection: from a new ledger, if every call for a token names a limit of at most
-- `limit`, at most `limit` of those calls are granted, whatever calls stand between them.
pub token_grants-le :
    (k : String) (limit : ℕ) (cs : List Call)
    → LimitedBy k (pos limit) cs
    → token_grants k new_ledger cs ≤ limit
token_grants-le k limit cs h = omega (
  arith,
  token_grants-token_count k new_ledger cs,
  run-token_count-le k limit new_ledger cs h (omega (arith, token_count-new_ledger k)),
  token_count-new_ledger k,
)

-- The same call made `n` times.
abbrev pub repeat : ℕ → Call → List Call
repeat zero c = []
repeat (suc n) c = c ∷ repeat n c

consume_token-grant :
    (l : Ledger) (k : String) (limit : ℕ)
    → k ≢ ""
    → tally (consume_token l k (pos limit)).1 ≡ min 1 (limit - token_count l k)
unfolding consume_token token_count
consume_token-grant l k limit h = ground (arith, eq_iff k "")

token_count_own :
    (l : Ledger) (k : String) (limit : ℕ)
    → token_count (consume_token l k (pos limit)).0 k
      ≡ tally (consume_token l k (pos limit)).1 + token_count l k
token_count_own l k limit = rw (str_eq_refl k) at (token_count-step l k k (pos limit))

-- The limit is used up and not cut short: of `n` calls for a token with a name and the limit
-- `limit`, the ledger grants as many as are left under the limit.
pub token_grants-repeat :
    (k : String) (limit n : ℕ) (l : Ledger)
    → k ≢ ""
    → token_grants k l (repeat n (token k (pos limit))) ≡ min n (limit - token_count l k)
unfolding token_grants step
token_grants-repeat k limit zero l h = omega arith
token_grants-repeat k limit (suc n) l h = rw (str_eq_refl k) (
    omega (
      arith,
      token_grants-repeat k limit n (consume_token l k (pos limit)).0 h,
      consume_token-grant l k limit h,
      token_count_own l k limit,
    ))

-- The two budgets are separate: spending a token leaves every autonomy count, and the other way
-- round.
pub consume_separate :
    (l : Ledger) (j k : String) (m : ℤ)
    → (autonomy_count (consume_token l j m).0 k ≡ autonomy_count l k)
      × (token_count (consume_autonomy l j m).0 k ≡ token_count l k)
unfolding consume_token autonomy_count
consume_separate l j k m = (ground arith, token_count-step_autonomy l j k m)

-- A call for an autonomy budget with a name is granted exactly while its count is below its limit,
-- and a granted call adds 1 to that count alone.
pub consume_autonomy_lem :
    (l : Ledger) (j k : String) (limit : ℕ)
    → j ≢ ""
    → let (l', granted) = consume_autonomy l j (pos limit) in
      ((granted ≡ true) ↔ (autonomy_count l j < limit))
      × (autonomy_count l' k ≡ (if str_eq j k then tally granted else 0) + autonomy_count l k)
unfolding consume_autonomy autonomy_count
consume_autonomy_lem l j k limit h = ground (
  arith,
  count-put j k (count j l.autonomy_consumed + 1) l.autonomy_consumed,
  eq_iff j k,
  eq_iff j "",
)
