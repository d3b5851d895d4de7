-- ===== src/Prelude/Sort/Select.antt =====
-- Sorting and selecting: a part of a list that a test keeps is sorted like the list.
use Prim.Native.Nat.{ℕ, zero, suc, ◌-◌}
use Prim.Native.String.{String}
use mathlib.Core.Path.{◌≡◌, refl, ap, sym, ◌∙◌}
use mathlib.Core.Logic.{inl, inr}
use mathlib.Core.Bool.{Bool, true, false, not, ◌||◌}
use mathlib.Core.List.{List, [], ◌∷◌}
use native.Mathlib.Omega.{arith}
use text.Mathlib.Text.{◌==◌}
use text.Mathlib.TextEquality.{eq_iff}
use nonprofit_ledger.Prelude.Tests.{if◌then◌else◌, Bool-cases}
use nonprofit_ledger.Prelude.Lists.{length, select, All, select-All}
use nonprofit_ledger.Prelude.Text.{text_le}
use nonprofit_ledger.Prelude.Sort.{
  take, drop, insert, sort, has, IsSorted, Nodup, sort-IsSorted, AllAbove-trans,
}

insert-below :
    (x : String) (ys : List String) → All (λ y. text_le x y ≡ true) ys → insert x ys ≡ x ∷ ys
unfolding insert
insert-below x [] h = refl
insert-below x (y ∷ ys) h = ground arith

All-select :
    (P : String → Type 0) (p : String → Bool) (xs : List String) → All P xs → All P (select p xs)
All-select P p [] h = tt
All-select P p (x ∷ xs) h = elim (Bool-cases (p x)) [
  | inl keep ↦ rw keep (h.0, All-select P p xs h.1)
  | inr leave ↦ rw leave (All-select P p xs h.1)
]

select-insert_kept :
    (p : String → Bool) (x : String) (xs : List String)
    → IsSorted xs
    → p x ≡ true
    → select p (insert x xs) ≡ insert x (select p xs)
unfolding insert
select-insert_kept p x [] s h = rw h refl
select-insert_kept p x (y ∷ ys) s h = elim (Bool-cases (text_le x y)) [
  | inl le ↦ elim (Bool-cases (p y)) [
    | inl keep ↦ rw (le, h, keep, le) refl
    | inr leave ↦
        rw (le, h, leave)
          (sym (
            insert-below x (select p ys)
              (All-select (λ z. text_le x z ≡ true) p ys (AllAbove-trans x y ys le s.0))))
  ]
  | inr gt ↦ elim (Bool-cases (p y)) [
    | inl keep ↦ rw (gt, keep, gt) (ap (λ m. y ∷ m) (select-insert_kept p x ys s.1 h))
    | inr leave ↦ rw (gt, leave) (select-insert_kept p x ys s.1 h)
  ]
]

select-insert_left :
    (p : String → Bool) (x : String) (xs : List String)
    → p x ≡ false
    → select p (insert x xs) ≡ select p xs
unfolding insert
select-insert_left p x [] h = rw h refl
select-insert_left p x (y ∷ ys) h = ground (arith, select-insert_left p x ys)

pub sort-select : (p : String → Bool) (xs : List String) → sort (select p xs) ≡ select p (sort xs)
unfolding sort
sort-select p [] = refl
sort-select p (x ∷ xs) = elim (Bool-cases (p x)) [
  | inl keep ↦ rw keep (
      ap (insert x) (sort-select p xs)
      ∙ sym (select-insert_kept p x (sort xs) (sort-IsSorted xs) keep))
  | inr leave ↦ rw leave (sort-select p xs ∙ sym (select-insert_left p x (sort xs) leave))
]

has-insert : (n x : String) (xs : List String) → has n (insert x xs) ≡ has n (x ∷ xs)
unfolding insert
has-insert n x [] = refl
has-insert n x (y ∷ ys) = ground (arith, has-insert n x ys)

pub has-sort : (n : String) (xs : List String) → has n (sort xs) ≡ has n xs
unfolding sort
has-sort n [] = refl
has-sort n (x ∷ xs) = has-insert n x (sort xs) ∙ ap (λ b. x == n || b) (has-sort n xs)

insert-Nodup : (x : String) (xs : List String) → has x xs ≡ false → Nodup xs → Nodup (insert x xs)
unfolding insert
insert-Nodup x [] h k = (refl, tt)
insert-Nodup x (y ∷ ys) h k = elim (Bool-cases (text_le x y)) [
  | inl le ↦ rw le (h, k)
  | inr gt ↦ rw gt (
    has-insert y x ys ∙ ground (arith, eq_iff x y, eq_iff y x),
    insert-Nodup x ys (ground arith) k.1,
  )
]

pub sort-Nodup : (xs : List String) → Nodup xs → Nodup (sort xs)
unfolding sort
sort-Nodup [] h = tt
sort-Nodup (x ∷ xs) h = insert-Nodup x (sort xs) (has-sort x xs ∙ h.0) (sort-Nodup xs h.1)

length-insert : (x : String) (xs : List String) → length (insert x xs) ≡ suc (length xs)
unfolding insert
length-insert x [] = refl
length-insert x (y ∷ ys) = ground (arith, length-insert x ys)

pub length-sort : (xs : List String) → length (sort xs) ≡ length xs
unfolding sort
length-sort [] = refl
length-sort (x ∷ xs) = length-insert x (sort xs) ∙ ap suc (length-sort xs)

select_agree :
    (p q : String → Bool) (xs : List String) → All (λ n. p n ≡ q n) xs → select p xs ≡ select q xs
select_agree p q [] h = refl
select_agree p q (x ∷ xs) h =
    ap (λ b. if b then x ∷ select p xs else select p xs) h.0
    ∙ ap (λ m. if q x then x ∷ m else m) (select_agree p q xs h.1)

-- What is not among the first `m` of a list without repetitions is the rest of it.
left_out-has :
    (x : String) (m : List String) (xs : List String)
    → has x xs ≡ false
    → All (λ n. not (has n (x ∷ m)) ≡ not (has n m)) xs
left_out-has x m [] h = tt
left_out-has x m (y ∷ ys) h =
    (ground (arith, eq_iff x y, eq_iff y x), left_out-has x m ys (ground arith))

All-true : (xs : List String) → All (λ n. ◌≡◌ {A = Bool} true true) xs
All-true [] = tt
All-true (x ∷ xs) = (refl, All-true xs)

pub select-take :
    (m : ℕ) (xs : List String) → Nodup xs → select (λ n. not (has n (take m xs))) xs ≡ drop m xs
select-take zero xs h = select-All (λ n. true) xs (All-true xs)
select-take (suc m) [] h = refl
select-take (suc m) (x ∷ xs) h =
    let same : (x == x) ≡ true = (eq_iff x x).1 refl in
    rw same refl
    ∙ select_agree (λ n. not (has n (x ∷ take m xs))) (λ n. not (has n (take m xs))) xs
        (left_out-has x (take m xs) xs h.0)
    ∙ select-take m xs h.1

All-drop : (P : String → Type 0) (m : ℕ) (xs : List String) → All P xs → All P (drop m xs)
All-drop P zero xs h = h
All-drop P (suc m) [] h = tt
All-drop P (suc m) (x ∷ xs) h = All-drop P m xs h.1

-- What is cut off from a sorted list comes before what is left.
pub take-le-drop :
    (m : ℕ) (xs : List String)
    → IsSorted xs
    → All (λ a. All (λ b. text_le a b ≡ true) (drop m xs)) (take m xs)
take-le-drop zero xs h = tt
take-le-drop (suc m) [] h = tt
take-le-drop (suc m) (x ∷ xs) h =
    (All-drop (λ b. text_le x b ≡ true) m xs h.0, take-le-drop m xs h.1)

pub length-drop : (m : ℕ) (xs : List String) → length (drop m xs) ≡ length xs - m
length-drop zero xs = omega arith
length-drop (suc m) [] = omega arith
length-drop (suc m) (x ∷ xs) = omega (arith, length-drop m xs)
