-- ===== src/Prelude/Text.antt =====
-- Go strings: order and prefixes, over the code points. UTF-8 keeps their order, so this is the
-- byte order of the source.
use Prim.Native.Char.{Char, code}
use Prim.Native.Nat.{ℕ, compare, Ordering}
use Prim.Native.String.{String}
use mathlib.Core.Path.{◌≡◌, refl}
use mathlib.Core.Bool.{Bool, true, false}
use mathlib.Core.Option.{Option, none, some}
use mathlib.Core.Logic.{◌⊎◌}
use mathlib.Core.List.{List, [], ◌∷◌}
use native.Mathlib.Omega.{arith}
use nonprofit_ledger.Prelude.Tests.{eqb, if◌then◌else◌}

abbrev pub codes : String → List ℕ
codes String.[] = []
codes (String.◌∷◌ c s) = code c ∷ codes s

-- Lexicographic `<=`; the cases of `elim` wait for the comparison.
abbrev pub lex_le : List ℕ → List ℕ → Bool
lex_le [] ys = true
lex_le (x ∷ xs) [] = false
lex_le (x ∷ xs) (y ∷ ys) = elim (compare x y) [
  | Ordering.lt ↦ true
  | Ordering.gt ↦ false
  | Ordering.eq ↦ lex_le xs ys
]

-- Go's `a <= b` on strings.
unfoldable pub text_le : String → String → Bool
text_le a b = lex_le (codes a) (codes b)

pub lex_le_refl : (xs : List ℕ) → lex_le xs xs ≡ true
lex_le_refl [] = refl
lex_le_refl (x ∷ xs) = ground (arith, lex_le_refl xs)

pub lex_le_trans :
    (xs ys zs : List ℕ) → lex_le xs ys ≡ true → lex_le ys zs ≡ true → lex_le xs zs ≡ true
lex_le_trans [] ys zs h k = refl
lex_le_trans (x ∷ xs) [] zs h k = cc
lex_le_trans (x ∷ xs) (y ∷ ys) [] h k = cc
lex_le_trans (x ∷ xs) (y ∷ ys) (z ∷ zs) h k = ground (arith, lex_le_trans xs ys zs)

pub lex_le_total : (xs ys : List ℕ) → (lex_le xs ys ≡ true) ⊎ (lex_le ys xs ≡ true)
lex_le_total [] ys = ground arith
lex_le_total (x ∷ xs) [] = ground arith
lex_le_total (x ∷ xs) (y ∷ ys) = ground (arith, lex_le_total xs ys)

pub text_le_refl : (a : String) → text_le a a ≡ true
unfolding text_le
text_le_refl a = lex_le_refl (codes a)

pub text_le_trans : (a b c : String) → text_le a b ≡ true → text_le b c ≡ true → text_le a c ≡ true
unfolding text_le
text_le_trans a b c = lex_le_trans (codes a) (codes b) (codes c)

-- `strings.Split` at one character.
abbrev pub push_front : Char → List String → List String
push_front c [] = (String.◌∷◌ c String.[]) ∷ []
push_front c (p ∷ ps) = (String.◌∷◌ c p) ∷ ps

abbrev pub split : ℕ → String → List String
split sep String.[] = "" ∷ []
split sep (String.◌∷◌ c s) =
    let parts = split sep s in if eqb (code c) sep then "" ∷ parts else push_front c parts

pub text_le_total : (a b : String) → (text_le a b ≡ true) ⊎ (text_le b a ≡ true)
unfolding text_le
text_le_total a b = lex_le_total (codes a) (codes b)

-- `strings.HasPrefix` and `strings.TrimPrefix` at once: what follows the prefix.
abbrev pub after_prefix : List ℕ → List ℕ → Option (List ℕ)
after_prefix [] s = some s
after_prefix (p ∷ ps) [] = none
after_prefix (p ∷ ps) (c ∷ s) = let rest = after_prefix ps s in if eqb p c then rest else none
