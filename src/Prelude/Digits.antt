-- ===== src/Prelude/Digits.antt =====
-- Numbers that are written with a fixed number of digits, and texts that are made of them.
use text.Mathlib.TextLemmas.{nil-append, cons-append}
use Prim.Native.Char.{code}
use Prim.Native.String
use nonprofit_ledger.Prelude.{
  ℕ, String, ◌≡◌, ◌∙◌, ap, Bool, true, false, ◌+◌, ◌/◌, ◌%◌, ltb, if◌then◌else◌, List, [], ◌∷◌,
  ◌++◌, arith,
}
use nonprofit_ledger.Prelude.Text.{codes, lex_le}

-- A number below 100 as two digits.
abbrev pub two_digits : ℕ → List ℕ → List ℕ
two_digits n rest = (b'0' + (n / 10)) ∷ (b'0' + (n % 10)) ∷ rest

-- A number below 10000 as four digits.
abbrev pub four_digits : ℕ → List ℕ → List ℕ
four_digits n rest = two_digits (n / 100) (two_digits (n % 100) rest)

-- The order by a first key, and by what remains where the keys are the same.
abbrev pub by_key : ℕ → ℕ → Bool → Bool
by_key a b rest = if ltb a b then true else if ltb b a then false else rest

-- Two digits are compared like the number that they write.
pub lex_le-two_digits :
    (a b : ℕ) (xs ys : List ℕ)
    → lex_le (two_digits a xs) (two_digits b ys) ≡ by_key a b (lex_le xs ys)
lex_le-two_digits a b xs ys = ground arith

pub lex_le-four_digits :
    (a b : ℕ) (xs ys : List ℕ)
    → lex_le (four_digits a xs) (four_digits b ys) ≡ by_key a b (lex_le xs ys)
lex_le-four_digits a b xs ys =
    lex_le-two_digits (a / 100) (b / 100) (two_digits (a % 100) xs) (two_digits (b % 100) ys)
    ∙ ap (by_key (a / 100) (b / 100)) (lex_le-two_digits (a % 100) (b % 100) xs ys)
    ∙ ground arith

-- What has the same head compares like the rest.
pub lex_le-append : (zs xs ys : List ℕ) → lex_le (zs ++ xs) (zs ++ ys) ≡ lex_le xs ys
lex_le-append [] xs ys = λ i. lex_le xs ys
lex_le-append (z ∷ zs) xs ys = ground (arith, lex_le-append zs xs ys)

pub codes-append : (a b : String) → codes (String.◌++◌ a b) ≡ codes a ++ codes b
codes-append String.[] b = ap codes (nil-append b)
codes-append (String.◌∷◌ c a) b =
    ap codes (cons-append c a b) ∙ ap (λ m. code c ∷ m) (codes-append a b)
