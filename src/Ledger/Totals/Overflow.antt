-- ===== src/Ledger/Totals/Overflow.antt =====
-- Where the int64 sums of `balances` wrap around.
use nonprofit_ledger.Prelude.{ℕ, ◌≡◌, true, ◌+◌, ◌-◌, ◌^◌, ◌<◌, none, List, [], ◌∷◌, All, arith}
use nonprofit_ledger.Prelude.Int.{pos, ◌+ℤ◌}
use nonprofit_ledger.Ledger.Entry.{NewLine, line_checks}
use nonprofit_ledger.Ledger.Posting.{balances}
use nonprofit_ledger.Ledger.Totals.{debits, credits}

abbrev pub debit_line : ℕ → ℕ → ℕ → NewLine
debit_line account fund cents = record {
  account_id = account;
  fund_id = fund;
  functional_category = none;
  debit_amount = pos cents;
  credit_amount = pos 0;
}

abbrev pub credit_line : ℕ → ℕ → ℕ → NewLine
credit_line account fund cents = record {
  account_id = account;
  fund_id = fund;
  functional_category = none;
  debit_amount = pos 0;
  credit_amount = pos cents;
}

-- Three debits whose sum passes 2 ^ 64 by as much as the one credit holds.
abbrev pub overflowing : ℕ → ℕ → ℕ → List NewLine
overflowing account fund cents =
    debit_line account fund (2 ^ 63 - 1)
    ∷ debit_line account fund (2 ^ 63 - 1)
    ∷ debit_line account fund (cents + 2)
    ∷ credit_line account fund cents
    ∷ []

-- For every amount of at least one cent that leaves room for two more in an int64, there are lines
-- that pass `balances` and every CHECK constraint, and whose debits exceed the credits by 2 ^ 64.
pub balances_wraps :
    (account fund cents : ℕ)
    → 0 < cents
    → cents + 2 < 2 ^ 63
    → (balances (overflowing account fund cents) ≡ true)
      × All (λ l. line_checks l ≡ true) (overflowing account fund cents)
      × (debits (overflowing account fund cents)
          ≡ credits (overflowing account fund cents) +ℤ pos (2 ^ 64))
unfolding balances line_checks ◌+ℤ◌
balances_wraps account fund cents h k = (ground arith, ground arith, ground arith)
