-- ===== src/Tests/Balances.antt =====
-- Balances of the sample office, and sums that wrap around.
use nonprofit_ledger.Prelude.{
  contains, ℕ, ◌≡◌, refl, ◌≢◌, ◌↔◌, true, All, List, [], ◌∷◌, map, ◌^◌, arith,
}
use nonprofit_ledger.Prelude.Int.{pos, ◌+ℤ◌, ◌-ℤ◌}
use nonprofit_ledger.Exec.{ok, tick, statement, transact}
use nonprofit_ledger.Ledger.Entry.{line_checks}
use nonprofit_ledger.Ledger.Entry.Lines.{line_of}
use nonprofit_ledger.Ledger.Posting.{balances}
use nonprofit_ledger.Ledger.Balances.{
  FundBalanceRow, sql_sum_from, sum_difference, groups, balance_rows, trial_balance, fund_balance,
}
use nonprofit_ledger.Ledger.Balances.{of_fund}
use nonprofit_ledger.Ledger.Balances.Agree.{reports_agree}
use nonprofit_ledger.Ledger.Balances.Groups.{IsAscending}
use nonprofit_ledger.Ledger.Balances.Total.{sum_balances, IsBalanceOf, trial_balance_lem}
use nonprofit_ledger.Ledger.Totals.{debits, credits, net, on_fund}
use nonprofit_ledger.Ledger.Totals.Balanced.{balances_iff}
use nonprofit_ledger.Ledger.Totals.Overflow.{overflowing, balances_wraps}
use nonprofit_ledger.Ledger.Books.Cancel.{balance_of}
use nonprofit_ledger.Ledger.Accounts.{}
use nonprofit_ledger.Ledger.Funds.{}
use nonprofit_ledger.Tests.{conn, office, donation}
use nonprofit_ledger.Schema.{Db, LineRow, entry_ids}
use nonprofit_ledger.Ledger.Posting.{post_journal_entry}
use nonprofit_ledger.Ledger.Posting.Accepts.{calm}
use nonprofit_ledger.Ledger.Reversal.{reverse_journal_entry}
use nonprofit_ledger.Ledger.Reversal.Undo.{post_then_reverse}
use nonprofit_ledger.Tests.Ledger.{posted, office-IsSound, donation-IsAcceptable}

post_then_reverse_example :
    (after : Db) × (undone : Db) × (post_journal_entry conn donation (calm office)
      ≡ (ok 1, calm after))
    × (transact (reverse_journal_entry conn 1 "entered twice" 1) (calm after)
        ≡ (ok (conn.row_id (entry_ids after)), calm undone))
    × ((f : ℕ)
        → (balance_of f after ≡ balance_of f office +ℤ net (on_fund f donation.lines))
          × (balance_of f undone ≡ balance_of f office))
post_then_reverse_example =
    post_then_reverse conn donation office "entered twice" 1 office-IsSound donation-IsAcceptable
      refl

balances_iff_example :
    (balances donation.lines ≡ true)
    ↔ ((debits donation.lines ≡ credits donation.lines) × (debits donation.lines ≢ pos 0))
unfolding ◌+ℤ◌
balances_iff_example = balances_iff donation.lines (ground arith) (ground arith) (ground arith)

balances_wraps_example :
    (balances (overflowing 1 1 2500) ≡ true)
    × All (λ l. line_checks l ≡ true) (overflowing 1 1 2500)
    × (debits (overflowing 1 1 2500) ≡ credits (overflowing 1 1 2500) +ℤ pos (2 ^ 64))
balances_wraps_example = balances_wraps 1 1 2500 (omega arith) (omega arith)

abbrev pub one_row : List FundBalanceRow
one_row = record { fund_id = 1; balance = pos 0 } ∷ []

trial_balance-posted : trial_balance posted ≡ (ok one_row, posted)
unfolding trial_balance statement groups balance_rows sum_difference sql_sum_from ◌-ℤ◌ ◌+ℤ◌
trial_balance-posted = refl

trial_balance_lem_example :
    ((f : ℕ)
      → contains f (map (λ (r : FundBalanceRow). r.fund_id) one_row)
        ≡ contains f (map (λ (r : LineRow). r.fund_id) posted.db.lines))
    × IsAscending (map (λ (r : FundBalanceRow). r.fund_id) one_row)
    × All (IsBalanceOf posted.db.lines) one_row
    × (sum_balances one_row ≡ net (map line_of posted.db.lines))
    × (posted.db ≡ posted.db)
trial_balance_lem_example = trial_balance_lem posted trial_balance-posted

reports_agree_example :
    (fund_balance 1 posted ≡ (ok (pos 0), tick posted))
    × (pos 0 ≡ net (map line_of (of_fund 1 posted.db.lines)))
reports_agree_example = reports_agree 1 posted posted trial_balance-posted refl refl
