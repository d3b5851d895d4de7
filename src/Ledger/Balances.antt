-- ===== src/Ledger/Balances.antt =====
-- server/ledger/balances.go
pub mod Sums
pub mod Groups
pub mod Total
pub mod Agree
use nonprofit_ledger.Prelude.{
  ℕ, eqb, ltb, select, if◌then◌else◌, is_empty, Option, none, some, List, [], ◌∷◌, map,
}
use nonprofit_ledger.Prelude.Int.{ℤ, pos, ◌+ℤ◌, ◌-ℤ◌, fits64}
use nonprofit_ledger.Schema.{Db, LineRow}
use nonprofit_ledger.Exec.{Exec, Outcome, done, fail, integer_overflow, statement}

pub record FundBalanceRow : Type 0 where
  pub fund_id : ℕ
  pub balance : ℤ

-- SQLite's `sum()` over a column of integers, which fails when a running sum leaves int64.
unfoldable pub sql_sum_from : ℤ → List ℤ → Option ℤ
unfolding ◌+ℤ◌
sql_sum_from acc [] = some acc
sql_sum_from acc (x ∷ xs) =
    let rest = sql_sum_from (acc +ℤ x) xs in if fits64 (acc +ℤ x) then rest else none

-- `SUM(debit_amount) - SUM(credit_amount)`; a difference outside int64 is no int64 to scan.
abbrev pub difference : Option ℤ → Option ℤ → Option ℤ
difference (some d) (some c) = if fits64 (d -ℤ c) then some (d -ℤ c) else none
difference (some d) none = none
difference none c = none

unfoldable pub sum_difference : List LineRow → Option ℤ
unfolding sql_sum_from ◌-ℤ◌
sum_difference rows =
    difference (sql_sum_from (pos 0) (map (λ (r : LineRow). r.debit_amount) rows))
      (sql_sum_from (pos 0) (map (λ (r : LineRow). r.credit_amount) rows))

abbrev pub of_fund : ℕ → List LineRow → List LineRow
of_fund fund_id = select (λ (r : LineRow). eqb r.fund_id fund_id)

abbrev pub or_overflow : {A : Type 0} → Option A → Db → Outcome A
or_overflow none db = fail integer_overflow
or_overflow (some a) db = done a db

-- SELECT COALESCE(SUM(debit_amount) - SUM(credit_amount), 0) ... WHERE fund_id = ?
-- The sums of no rows are NULL, and so is their difference: the balance is 0.
unfoldable pub fund_balance : ℕ → Exec ℤ
unfolding statement sum_difference
fund_balance fund_id = statement (λ db. or_overflow (sum_difference (of_fund fund_id db.lines)) db)

-- The groups of GROUP BY fund_id, in the order of ORDER BY fund_id.
abbrev pub insert_group : ℕ → List ℕ → List ℕ
insert_group n [] = n ∷ []
insert_group n (m ∷ ms) =
    if ltb n m then n ∷ m ∷ ms else if eqb n m then m ∷ ms else m ∷ insert_group n ms

unfoldable pub groups : List LineRow → List ℕ
groups [] = []
groups (r ∷ rows) = insert_group r.fund_id (groups rows)

abbrev pub cons_row : ℕ → Option ℤ → Option (List FundBalanceRow) → Option (List FundBalanceRow)
cons_row fund_id (some b) (some rows) = some (record { fund_id = fund_id; balance = b } ∷ rows)
cons_row fund_id (some b) none = none
cons_row fund_id none rows = none

unfoldable pub balance_rows : List ℕ → List LineRow → Option (List FundBalanceRow)
unfolding sum_difference
balance_rows [] lines = some []
balance_rows (f ∷ fs) lines = cons_row f (sum_difference (of_fund f lines)) (balance_rows fs lines)

unfoldable pub trial_balance : Exec (List FundBalanceRow)
unfolding statement groups balance_rows
trial_balance = statement (λ db. or_overflow (balance_rows (groups db.lines) db.lines) db)
