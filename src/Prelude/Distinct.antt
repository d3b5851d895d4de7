-- ===== src/Prelude/Distinct.antt =====
-- Lists in which nothing occurs twice, and what is added to them at the end.
use Prim.Native.Nat.{ℕ}
use Prim.Native.String.{String}
use mathlib.Core.Path.{◌≡◌, refl}
use mathlib.Core.Bool.{false, ◌||◌}
use mathlib.Core.List.{List, [], ◌∷◌, ◌++◌, map}
use native.Mathlib.Omega.{arith}
use text.Mathlib.Text.{◌==◌}
use text.Mathlib.TextEquality.{eq_iff}
use nonprofit_ledger.Prelude.Lists.{any, contains, contains-append}
use nonprofit_ledger.Prelude.Sort.{has, Nodup}

has-append : (n x : String) (xs : List String) → has n (xs ++ x ∷ []) ≡ (has n xs || x == n)
has-append n x [] = ground arith
has-append n x (y ∷ ys) = ground (arith, has-append n x ys)

pub append-Nodup :
    (xs : List String) (x : String) → Nodup xs → has x xs ≡ false → Nodup (xs ++ x ∷ [])
append-Nodup [] x h k = (refl, tt)
append-Nodup (y ∷ ys) x h k =
    let first : has y (ys ++ x ∷ []) ≡ false =
      ground (arith, has-append y x ys, h.0, k, eq_iff x y, eq_iff y x) in
    let rest : has x ys ≡ false = ground arith in (first, append-Nodup ys x h.1 rest)

-- What a UNIQUE constraint looks at, as a list of texts.
pub any-has :
    {A : Type 0} (text : A → String) (n : String) (rows : List A)
    → any (λ r. text r == n) rows ≡ has n (map text rows)
any-has text n [] = refl
any-has text n (r ∷ rows) = ground (arith, any-has text n rows)

-- No number occurs twice.
abbrev pub IsApart : List ℕ → Type 0
IsApart [] = Unit
IsApart (x ∷ xs) = (contains x xs ≡ false) × IsApart xs

pub append-IsApart :
    (xs : List ℕ) (x : ℕ) → IsApart xs → contains x xs ≡ false → IsApart (xs ++ x ∷ [])
append-IsApart [] x h k = (refl, tt)
append-IsApart (y ∷ ys) x h k =
    let first : contains y (ys ++ x ∷ []) ≡ false =
      ground (arith, contains-append y ys (x ∷ []), h.0, k) in
    let rest : contains x ys ≡ false = ground arith in (first, append-IsApart ys x h.1 rest)
