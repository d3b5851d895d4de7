-- ===== src/Ledger/Balances/Agree.antt =====
-- FundBalance and TrialBalance of server/ledger/balances.go give one and the same balance of a fund.
use nonprofit_ledger.Prelude.{
  ℕ, ◌≡◌, refl, sym, ◌∙◌, ap, false, inl, inr, Bool-cases, eqb, eqb_iff, contains, find, Option,
  none, some, List, [], ◌∷◌, map, arith,
}
use nonprofit_ledger.Prelude.Int.{ℤ, pos, ◌-ℤ◌}
use nonprofit_ledger.Schema.{LineRow}
use nonprofit_ledger.Exec.{State, ok, tick, is_due, statement}
use nonprofit_ledger.Exec.Inversion.{statement-eq-ok}
use nonprofit_ledger.Ledger.Balances.{
  FundBalanceRow, of_fund, groups, sql_sum_from, sum_difference, or_overflow, balance_rows,
  trial_balance, fund_balance,
}
use nonprofit_ledger.Ledger.Balances.Groups.{contains-insert_group}
use nonprofit_ledger.Ledger.Balances.Total.{or_overflow-eq-done, cons_row-eq-some, fund_balance_lem}
use nonprofit_ledger.Ledger.Entry.Lines.{line_of}
use nonprofit_ledger.Ledger.Totals.{net}

-- A fund without a row has no lines, and so nothing in it.
abbrev or_nothing : Option FundBalanceRow → ℤ
or_nothing none = pos 0
or_nothing (some r) = r.balance

-- The balance of a fund in a trial balance.
abbrev pub balance_in : ℕ → List FundBalanceRow → ℤ
balance_in f rows = or_nothing (find (λ (r : FundBalanceRow). eqb r.fund_id f) rows)

no_group-no_lines :
    (f : ℕ) (lines : List LineRow) → contains f (groups lines) ≡ false → of_fund f lines ≡ []
unfolding groups
no_group-no_lines f [] h = refl
no_group-no_lines f (r ∷ lines) h =
    let split = sym (contains-insert_group f r.fund_id (groups lines)) ∙ h in
    ground (arith, no_group-no_lines f lines)

sum_difference-nil : sum_difference [] ≡ some (pos 0)
unfolding sum_difference sql_sum_from ◌-ℤ◌
sum_difference-nil = refl

module _ (f : ℕ) (lines : List LineRow) where
  balance_rows-in :
      (fs : List ℕ) {rows : List FundBalanceRow}
      → balance_rows fs lines ≡ some rows
      → (contains f fs ≡ false → sum_difference (of_fund f lines) ≡ some (pos 0))
      → sum_difference (of_fund f lines) ≡ some (balance_in f rows)
  unfolding balance_rows
  balance_rows-in [] {rows} h absent =
      let e : [] ≡ rows = cc in absent refl ∙ ap (λ m. some (balance_in f m)) e
  balance_rows-in (g ∷ gs) {rows} h absent =
      let (x, others, here, rest, e) =
        cons_row-eq-some g (sum_difference (of_fund g lines)) (balance_rows gs lines) h in
      let row : FundBalanceRow = record { fund_id = g; balance = x } in
      elim (Bool-cases (eqb g f)) [
        | inl hit ↦
            let first : balance_in f (row ∷ others) ≡ x = rw hit refl in
            ap (λ n. sum_difference (of_fund n lines)) (sym ((eqb_iff g f).0 hit))
            ∙ here
            ∙ ap (λ b. some b) (sym first)
            ∙ ap (λ m. some (balance_in f m)) e
        | inr other ↦
            let later : balance_in f (row ∷ others) ≡ balance_in f others = rw other refl in
            balance_rows-in gs rest (λ missing. absent (ground arith))
            ∙ ap (λ b. some b) (sym later)
            ∙ ap (λ m. some (balance_in f m)) e
      ]

module _ (f : ℕ) (s v : State) where
  fund_balance-agrees :
      {rows : List FundBalanceRow} {t : State}
      → trial_balance s ≡ (ok rows, t)
      → v.db.lines ≡ s.db.lines
      → is_due v.faults ≡ false
      → fund_balance f v ≡ (ok (balance_in f rows), tick v)
  unfolding trial_balance fund_balance statement
  fund_balance-agrees {rows} h kept calm =
      let lines = s.db.lines in
      let (found, same) =
        or_overflow-eq-done (balance_rows (groups lines) lines) s.db
          (statement-eq-ok (λ db. or_overflow (balance_rows (groups db.lines) db.lines) db) s h) in
      let alone : contains f (groups lines) ≡ false
          → sum_difference (of_fund f lines) ≡ some (pos 0) =
        λ missing. ap sum_difference (no_group-no_lines f lines missing) ∙ sum_difference-nil in
      let summed : sum_difference (of_fund f v.db.lines) ≡ some (balance_in f rows) =
        ap (λ m. sum_difference (of_fund f m)) kept
        ∙ balance_rows-in f lines (groups lines) found alone in
      rw (calm, summed) refl

  -- Once TrialBalance has returned its rows, FundBalance returns for every fund, on tables with the
  -- same lines, when the driver does not fail the query, the balance of the row of the fund, or 0
  -- where the fund has none: no overflow is left that could make it fail. And that is debits less
  -- credits of the lines of the fund.
  pub reports_agree :
      {rows : List FundBalanceRow} {t : State}
      → trial_balance s ≡ (ok rows, t)
      → v.db.lines ≡ s.db.lines
      → is_due v.faults ≡ false
      → (fund_balance f v ≡ (ok (balance_in f rows), tick v))
        × (balance_in f rows ≡ net (map line_of (of_fund f v.db.lines)))
  reports_agree h kept calm =
      let agrees = fund_balance-agrees h kept calm in (agrees, (fund_balance_lem f v agrees).0)
