-- ===== src/Ledger/Balances/Total.antt =====
-- The trial balance against the lines of the journal.
use nonprofit_ledger.Prelude.{
  ℕ, ◌≡◌, refl, ◌∙◌, ap, ap₂, sym, subst, contains, All, Option, none, some, List, [], ◌∷◌, map,
}
use nonprofit_ledger.Prelude.Int.{ℤ, pos, ◌+ℤ◌}
use nonprofit_ledger.Schema.{Db, LineRow}
use nonprofit_ledger.Exec.{State, done, ok}
use nonprofit_ledger.Exec.Inversion.{statement-eq-ok}
use nonprofit_ledger.Ledger.Entry.Lines.{line_of}
use nonprofit_ledger.Ledger.Totals.{net}
use nonprofit_ledger.Ledger.Balances.{
  FundBalanceRow, of_fund, groups, sum_difference, cons_row, or_overflow, balance_rows,
  trial_balance, fund_balance,
}
use nonprofit_ledger.Ledger.Balances.Sums.{sum_difference-eq-some}
use nonprofit_ledger.Ledger.Balances.Groups.{
  IsAscending, contains-groups, groups-IsAscending, net_of, net_of-groups,
}

abbrev pub sum_balances : List FundBalanceRow → ℤ
sum_balances [] = pos 0
sum_balances (r ∷ rows) = r.balance +ℤ sum_balances rows

-- A row holds debits less credits of the lines of its fund.
abbrev pub IsBalanceOf : List LineRow → FundBalanceRow → Type 0
IsBalanceOf lines r = r.balance ≡ net (map line_of (of_fund r.fund_id lines))

pub or_overflow-eq-done :
    {A : Type 0} (o : Option A) (db : Db) {a : A} {db' : Db}
    → or_overflow o db ≡ done a db'
    → (o ≡ some a) × (db' ≡ db)
or_overflow-eq-done none db h = cc
or_overflow-eq-done (some a) db h = (cc, cc)

pub cons_row-eq-some :
    (f : ℕ) (b : Option ℤ) (rest : Option (List FundBalanceRow)) {rows : List FundBalanceRow}
    → cons_row f b rest ≡ some rows
    → (x : ℤ) × (others : List FundBalanceRow) × (b ≡ some x)
      × (rest ≡ some others)
      × (record { fund_id = f; balance = x } ∷ others ≡ rows)
cons_row-eq-some f none rest h = cc
cons_row-eq-some f (some x) none h = cc
cons_row-eq-some f (some x) (some others) h = (x, others, refl, refl, cc)

balance_rows-eq-some :
    (fs : List ℕ) (lines : List LineRow) {rows : List FundBalanceRow}
    → balance_rows fs lines ≡ some rows
    → (map (λ (r : FundBalanceRow). r.fund_id) rows ≡ fs)
      × All (IsBalanceOf lines) rows
      × (sum_balances rows ≡ net_of fs lines)
unfolding balance_rows
balance_rows-eq-some [] lines {rows} h =
    let e : [] ≡ rows = cc in
    subst
      (λ m.
        (map (λ (r : FundBalanceRow). r.fund_id) m ≡ [])
        × All (IsBalanceOf lines) m
        × (sum_balances m ≡ pos 0))
      e (refl, tt, refl)
balance_rows-eq-some (f ∷ fs) lines {rows} h =
    let (x, others, here, rest, e) =
      cons_row-eq-some f (sum_difference (of_fund f lines)) (balance_rows fs lines) h in
    let (ids, balances, total) = balance_rows-eq-some fs lines rest in
    let b = sum_difference-eq-some (of_fund f lines) here in
    subst
      (λ m.
        (map (λ (r : FundBalanceRow). r.fund_id) m ≡ f ∷ fs)
        × All (IsBalanceOf lines) m
        × (sum_balances m ≡ net_of (f ∷ fs) lines))
      e (ap (λ m. f ∷ m) ids, (b, balances), ap₂ ◌+ℤ◌ b total)

-- A trial balance that is returned has a row for each fund with a line and for no other, in strictly
-- ascending order; each row holds debits less credits of its fund's lines; and the rows add up to
-- debits less credits of all lines. The tables stay as they are.
pub trial_balance_lem :
    (s : State) {rows : List FundBalanceRow} {t : State}
    → trial_balance s ≡ (ok rows, t)
    → ((f : ℕ)
        → contains f (map (λ (r : FundBalanceRow). r.fund_id) rows)
          ≡ contains f (map (λ (r : LineRow). r.fund_id) s.db.lines))
      × IsAscending (map (λ (r : FundBalanceRow). r.fund_id) rows)
      × All (IsBalanceOf s.db.lines) rows
      × (sum_balances rows ≡ net (map line_of s.db.lines))
      × (t.db ≡ s.db)
unfolding trial_balance
trial_balance_lem s h =
    let (found, same) =
      or_overflow-eq-done (balance_rows (groups s.db.lines) s.db.lines) s.db
        (statement-eq-ok (λ db. or_overflow (balance_rows (groups db.lines) db.lines) db) s h) in
    let (ids, balances, total) = balance_rows-eq-some (groups s.db.lines) s.db.lines found in
    (
      λ f. ap (contains f) ids ∙ contains-groups f s.db.lines,
      subst IsAscending (sym ids) (groups-IsAscending s.db.lines),
      balances,
      total ∙ net_of-groups s.db.lines,
      same,
    )

-- `FundBalance` returns debits less credits of the fund's lines, which is 0 for a fund with none.
pub fund_balance_lem :
    (fund_id : ℕ) (s : State) {b : ℤ} {t : State}
    → fund_balance fund_id s ≡ (ok b, t)
    → (b ≡ net (map line_of (of_fund fund_id s.db.lines))) × (t.db ≡ s.db)
unfolding fund_balance
fund_balance_lem fund_id s h =
    let (found, same) =
      or_overflow-eq-done (sum_difference (of_fund fund_id s.db.lines)) s.db
        (statement-eq-ok (λ db. or_overflow (sum_difference (of_fund fund_id db.lines)) db) s h) in
    (sum_difference-eq-some (of_fund fund_id s.db.lines) found, same)
