-- ===== src/Prelude/Sort.antt =====
-- `sort.Strings`, and what Rotate of server/backup/backup.go asks of it: insertion sort by the order
-- of texts, and cutting a list at a place.
pub mod Select
use Prim.Native.Nat.{ℕ, zero, suc, ◌-◌, ◌≤◌}
use Prim.Native.String.{String}
use mathlib.Core.Path.{◌≡◌, refl, ap, sym, ◌∙◌}
use mathlib.Core.Logic.{◌⊎◌, inl, inr}
use mathlib.Core.Bool.{Bool, true, false, not, ◌||◌}
use mathlib.Core.List.{List, [], ◌∷◌, ◌++◌}
use native.Mathlib.Omega.{arith}
use text.Mathlib.Text.{◌==◌}
use text.Mathlib.TextEquality.{eq_iff}
use nonprofit_ledger.Prelude.Tests.{if◌then◌else◌, Bool-cases}
use nonprofit_ledger.Prelude.Lists.{length, select, any, All}
use nonprofit_ledger.Prelude.Text.{text_le, text_le_refl, text_le_trans, text_le_total}

module _ {ℓ} {A : Type ℓ} where
  abbrev pub take : ℕ → List A → List A
  take zero xs = []
  take (suc n) [] = []
  take (suc n) (x ∷ xs) = x ∷ take n xs

  abbrev pub drop : ℕ → List A → List A
  drop zero xs = xs
  drop (suc n) [] = []
  drop (suc n) (x ∷ xs) = drop n xs

unfoldable pub insert : String → List String → List String
insert x [] = x ∷ []
insert x (y ∷ ys) = if text_le x y then x ∷ y ∷ ys else y ∷ insert x ys

unfoldable pub sort : List String → List String
unfolding insert
sort [] = []
sort (x ∷ xs) = insert x (sort xs)

abbrev pub has : String → List String → Bool
has n xs = any (λ m. m == n) xs

-- Each element is at most those after it.
abbrev pub IsSorted : List String → Type 0
IsSorted [] = Unit
IsSorted (x ∷ xs) = All (λ y. text_le x y ≡ true) xs × IsSorted xs

-- No element occurs twice.
abbrev pub Nodup : List String → Type 0
Nodup [] = Unit
Nodup (x ∷ xs) = (has x xs ≡ false) × Nodup xs

abbrev pub AllAbove : String → List String → Type 0
AllAbove x = All (λ y. text_le x y ≡ true)

AllAbove-insert :
    (z x : String) (xs : List String)
    → text_le z x ≡ true
    → AllAbove z xs
    → AllAbove z (insert x xs)
unfolding insert
AllAbove-insert z x [] h k = (h, tt)
AllAbove-insert z x (y ∷ ys) h k = elim (Bool-cases (text_le x y)) [
  | inl le ↦ rw le (h, k)
  | inr gt ↦ rw gt (k.0, AllAbove-insert z x ys h k.1)
]

pub AllAbove-trans :
    (x y : String) (ys : List String) → text_le x y ≡ true → AllAbove y ys → AllAbove x ys
AllAbove-trans x y [] h k = tt
AllAbove-trans x y (z ∷ ys) h k = (text_le_trans x y z h k.0, AllAbove-trans x y ys h k.1)

other_way : (x y : String) → text_le x y ≡ false → text_le y x ≡ true
other_way x y h = elim (text_le_total x y) [ inl le ↦ cc | inr ge ↦ ge ]

insert-IsSorted : (x : String) (xs : List String) → IsSorted xs → IsSorted (insert x xs)
unfolding insert
insert-IsSorted x [] h = (tt, tt)
insert-IsSorted x (y ∷ ys) h = elim (Bool-cases (text_le x y)) [
  | inl le ↦ rw le ((le, AllAbove-trans x y ys le h.0), h)
  | inr gt ↦ rw gt (AllAbove-insert y x ys (other_way x y gt) h.0, insert-IsSorted x ys h.1)
]

pub sort-IsSorted : (xs : List String) → IsSorted (sort xs)
unfolding sort
sort-IsSorted [] = tt
sort-IsSorted (x ∷ xs) = insert-IsSorted x (sort xs) (sort-IsSorted xs)
