-- ===== src/Ledger/Totals/Balanced.antt =====
-- The check `balances` of posting.go against the sums without bound.
use nonprofit_ledger.Prelude.{
  ◌≡◌, sym, ap, ap₂, Bool, ◌∙◌, ◌≢◌, ◌↔◌, inl, inr, Bool-cases, true, ◌&&◌, not, &&-parts, ◌^◌, ◌-◌,
  List, [], ◌∷◌, All, arith,
}
use nonprofit_ledger.Prelude.Int.{ℤ, pos, ◌+ℤ◌, ◌≤ℤ◌, add64, wrap64_id, eqb_ℤ, eqb_ℤ_iff, int_laws}
use nonprofit_ledger.Ledger.Entry.{NewLine, line_checks}
use nonprofit_ledger.Ledger.Posting.{balances, balances_from}
use nonprofit_ledger.Ledger.Totals.{debits, credits}

abbrev pub max_int64 : ℤ
max_int64 = pos (2 ^ 63 - 1)

-- No amount of a line is negative.
abbrev pub IsNonneg : NewLine → Type 0
IsNonneg l = (pos 0 ≤ℤ l.debit_amount) × (pos 0 ≤ℤ l.credit_amount)

add64_exact : (a b : ℤ) → pos 0 ≤ℤ a +ℤ b → a +ℤ b ≤ℤ max_int64 → add64 a b ≡ a +ℤ b
unfolding add64
add64_exact a b lo hi = wrap64_id (a +ℤ b) (omega int_laws)

debits_nonneg : (ls : List NewLine) → All IsNonneg ls → pos 0 ≤ℤ debits ls
debits_nonneg [] h = omega arith
debits_nonneg (l ∷ ls) h = omega (int_laws, debits_nonneg ls h.1)

credits_nonneg : (ls : List NewLine) → All IsNonneg ls → pos 0 ≤ℤ credits ls
credits_nonneg [] h = omega arith
credits_nonneg (l ∷ ls) h = omega (int_laws, credits_nonneg ls h.1)

-- The test that ends the loop.
passes : ℤ → ℤ → Bool
passes d c = eqb_ℤ d c && not (eqb_ℤ d (pos 0))

passes_iff : (d c : ℤ) → (passes d c ≡ true) ↔ ((d ≡ c) × (d ≢ pos 0))
unfolding passes
passes_iff d c = (
  λ h.
      let (same, other) = &&-parts (eqb_ℤ d c) (not (eqb_ℤ d (pos 0))) h in
      ((eqb_ℤ_iff d c).0 same, λ e. ground (arith, (eqb_ℤ_iff d (pos 0)).1 e)),
  λ h. elim (Bool-cases (eqb_ℤ d (pos 0))) [
    | inl none_left ↦ absurd (h.1 ((eqb_ℤ_iff d (pos 0)).0 none_left))
    | inr left ↦ ap₂ ◌&&◌ ((eqb_ℤ_iff d c).1 h.0) (ap not left)
  ],
)

+ℤ_zero : (a : ℤ) → a +ℤ pos 0 ≡ a
+ℤ_zero a = omega int_laws

+ℤ_assoc : (a b c : ℤ) → a +ℤ b +ℤ c ≡ a +ℤ (b +ℤ c)
+ℤ_assoc a b c = omega int_laws

-- The loop adds up the two sides exactly, as long as both totals fit.
balances_from-eq :
    (d c : ℤ) (ls : List NewLine)
    → pos 0 ≤ℤ d
    → pos 0 ≤ℤ c
    → All IsNonneg ls
    → d +ℤ debits ls ≤ℤ max_int64
    → c +ℤ credits ls ≤ℤ max_int64
    → balances_from d c ls ≡ passes (d +ℤ debits ls) (c +ℤ credits ls)
unfolding balances_from passes
balances_from-eq d c [] hd hc h fd fc = sym (ap₂ passes (+ℤ_zero d) (+ℤ_zero c))
balances_from-eq d c (l ∷ ls) hd hc h fd fc =
    let nd = debits_nonneg ls h.1 in
    let nc = credits_nonneg ls h.1 in
    let ed = add64_exact d l.debit_amount (omega int_laws) (omega int_laws) in
    let ec = add64_exact c l.credit_amount (omega int_laws) (omega int_laws) in
    ap₂ (λ a b. balances_from a b ls) ed ec
    ∙ balances_from-eq (d +ℤ l.debit_amount) (c +ℤ l.credit_amount) ls (omega int_laws)
        (omega int_laws) h.1 (omega int_laws) (omega int_laws)
    ∙ ap₂ passes (+ℤ_assoc d l.debit_amount (debits ls)) (+ℤ_assoc c l.credit_amount (credits ls))

-- For lines without negative amounts whose totals fit an int64, the check passes exactly when the
-- debits equal the credits and are not zero.
pub balances_iff :
    (ls : List NewLine)
    → All IsNonneg ls
    → debits ls ≤ℤ max_int64
    → credits ls ≤ℤ max_int64
    → (balances ls ≡ true) ↔ ((debits ls ≡ credits ls) × (debits ls ≢ pos 0))
unfolding balances
balances_iff ls h fd fc =
    let e : balances ls ≡ passes (debits ls) (credits ls) =
      balances_from-eq (pos 0) (pos 0) ls (omega arith) (omega arith) h (omega int_laws)
        (omega int_laws)
      ∙ ap₂ passes (omega int_laws) (omega int_laws) in
    rw e (passes_iff (debits ls) (credits ls))

pub line_checks-IsNonneg : (l : NewLine) → line_checks l ≡ true → IsNonneg l
unfolding line_checks
line_checks-IsNonneg l h = ground arith
