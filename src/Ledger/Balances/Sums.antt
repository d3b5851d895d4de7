-- ===== src/Ledger/Balances/Sums.antt =====
-- What a SUM that does not fail has computed.
use nonprofit_ledger.Prelude.{
  ◌≡◌, refl, sym, ap₂, subst, ◌∙◌, Option, none, some, List, [], ◌∷◌, map, arith,
}
use nonprofit_ledger.Prelude.Int.{ℤ, pos, ◌+ℤ◌, ◌-ℤ◌, int_laws}
use nonprofit_ledger.Schema.{LineRow}
use nonprofit_ledger.Ledger.Entry.Lines.{line_of}
use nonprofit_ledger.Ledger.Totals.{debits, credits, net, net-eq}
use nonprofit_ledger.Ledger.Balances.{sql_sum_from, difference, sum_difference}

abbrev sum : List ℤ → ℤ
sum [] = pos 0
sum (x ∷ xs) = x +ℤ sum xs

sql_sum_from-eq-some :
    (acc : ℤ) (xs : List ℤ) {r : ℤ} → sql_sum_from acc xs ≡ some r → r ≡ acc +ℤ sum xs
unfolding sql_sum_from
sql_sum_from-eq-some acc [] {r} h =
    let e : acc ≡ r = cc in subst (λ z. z ≡ acc +ℤ pos 0) e (omega int_laws)
sql_sum_from-eq-some acc (x ∷ xs) {r} h =
    let rest : sql_sum_from (acc +ℤ x) xs ≡ some r = ground arith in
    sql_sum_from-eq-some (acc +ℤ x) xs rest ∙ omega int_laws

zero-+ℤ : (a : ℤ) → pos 0 +ℤ a ≡ a
zero-+ℤ a = omega int_laws

sum-debits :
    (rows : List LineRow)
    → sum (map (λ (r : LineRow). r.debit_amount) rows) ≡ debits (map line_of rows)
sum-debits [] = refl
sum-debits (r ∷ rows) = rw (sum-debits rows)

sum-credits :
    (rows : List LineRow)
    → sum (map (λ (r : LineRow). r.credit_amount) rows) ≡ credits (map line_of rows)
sum-credits [] = refl
sum-credits (r ∷ rows) = rw (sum-credits rows)

difference-eq-some :
    (d c : Option ℤ) {b : ℤ}
    → difference d c ≡ some b
    → (x : ℤ) × (y : ℤ) × (d ≡ some x) × (c ≡ some y) × (b ≡ x -ℤ y)
difference-eq-some none c h = cc
difference-eq-some (some x) none h = cc
difference-eq-some (some x) (some y) h = (x, y, refl, refl, ground arith)

-- `SUM(debit_amount) - SUM(credit_amount)`, where it returns an integer, is debits less credits.
pub sum_difference-eq-some :
    (rows : List LineRow) {b : ℤ} → sum_difference rows ≡ some b → b ≡ net (map line_of rows)
unfolding sum_difference
sum_difference-eq-some rows h =
    let (x, y, left, right, e) =
      difference-eq-some (sql_sum_from (pos 0) (map (λ (r : LineRow). r.debit_amount) rows))
        (sql_sum_from (pos 0) (map (λ (r : LineRow). r.credit_amount) rows)) h in
    e
    ∙ ap₂ ◌-ℤ◌
        (sql_sum_from-eq-some (pos 0) (map (λ (r : LineRow). r.debit_amount) rows) left
          ∙ zero-+ℤ _
          ∙ sum-debits rows)
        (sql_sum_from-eq-some (pos 0) (map (λ (r : LineRow). r.credit_amount) rows) right
          ∙ zero-+ℤ _
          ∙ sum-credits rows)
    ∙ sym (net-eq (map line_of rows))
