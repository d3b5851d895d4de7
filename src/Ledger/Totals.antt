-- ===== src/Ledger/Totals.antt =====
-- Sums of lines as integers without bound: the specification that the int64 sums of posting.go and
-- the SUM of balances.go are held to.
pub mod Balanced
pub mod Overflow
use nonprofit_ledger.Prelude.{ℕ, ◌≡◌, refl, eqb, select, List, [], ◌∷◌, ◌++◌, map, All, arith}
use nonprofit_ledger.Prelude.Int.{ℤ, pos, ◌+ℤ◌, ◌-ℤ◌, int_laws}
use nonprofit_ledger.Ledger.Entry.{NewLine}
use nonprofit_ledger.Ledger.Journal.Reversed.{swap}

abbrev pub debits : List NewLine → ℤ
debits [] = pos 0
debits (l ∷ ls) = l.debit_amount +ℤ debits ls

abbrev pub credits : List NewLine → ℤ
credits [] = pos 0
credits (l ∷ ls) = l.credit_amount +ℤ credits ls

-- Debits less credits.
abbrev pub net : List NewLine → ℤ
net [] = pos 0
net (l ∷ ls) = (l.debit_amount -ℤ l.credit_amount) +ℤ net ls

abbrev pub on_fund : ℕ → List NewLine → List NewLine
on_fund fund_id = select (λ (l : NewLine). eqb l.fund_id fund_id)

abbrev pub on_account : ℕ → List NewLine → List NewLine
on_account account_id = select (λ (l : NewLine). eqb l.account_id account_id)

pub net-eq : (ls : List NewLine) → net ls ≡ debits ls -ℤ credits ls
net-eq [] = omega int_laws
net-eq (l ∷ ls) = rw (net-eq ls) (omega int_laws)

pub net-append : (ls ms : List NewLine) → net (ls ++ ms) ≡ net ls +ℤ net ms
net-append [] ms = omega int_laws
net-append (l ∷ ls) ms = rw (net-append ls ms) (omega int_laws)

-- Exchanging the sides of the lines changes the sign of what is left.
pub net-swap : (ls : List NewLine) → net (map swap ls) ≡ pos 0 -ℤ net ls
net-swap [] = omega int_laws
net-swap (l ∷ ls) = rw (net-swap ls) (omega int_laws)

pub on_fund-swap : (f : ℕ) (ls : List NewLine) → on_fund f (map swap ls) ≡ map swap (on_fund f ls)
on_fund-swap f [] = refl
on_fund-swap f (l ∷ ls) = ground (arith, on_fund-swap f ls)

pub on_account-swap :
    (a : ℕ) (ls : List NewLine) → on_account a (map swap ls) ≡ map swap (on_account a ls)
on_account-swap a [] = refl
on_account-swap a (l ∷ ls) = ground (arith, on_account-swap a ls)
