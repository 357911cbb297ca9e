-- ===== src/Base/Names.antt =====
-- Lists of names compared by their counts.
use Prim.Native.Nat.{ℕ, suc, ◌+◌, ◌≤◌}
use Prim.Native.String.{String}
use mathlib.Core.Path.{◌≡◌, refl}
use mathlib.Core.List.{List, [], ◌∷◌, ◌++◌}
use native.Mathlib.Omega.{arith}
use text.Mathlib.TextEquality.{eq_iff}
use pici.Base.Tests.{str_eq, if◌then◌else◌}
use pici.Base.Lists.{length}

-- How often a name stands in a list.
abbrev pub count : String → List String → ℕ
count a [] = 0
count a (x ∷ xs) = (if str_eq x a then 1 else 0) + count a xs

pub count-append :
    (name : String) (front back : List String)
    → count name (front ++ back) ≡ count name front + count name back
count-append name [] back = omega arith
count-append name (other ∷ front) back = omega (arith, count-append name front back)

abbrev erase : String → List String → List String
erase a [] = []
erase a (x ∷ xs) = if str_eq x a then xs else x ∷ erase a xs

count-erase :
    (a b : String) (xs : List String)
    → 1 ≤ count a xs
    → (if str_eq a b then 1 else 0) + count b (erase a xs) ≡ count b xs
count-erase a b [] h = absurd (omega arith)
count-erase a b (x ∷ xs) h = ground (arith, eq_iff x a, eq_iff x b, eq_iff a b, count-erase a b xs)

length-erase :
    (a : String) (xs : List String) → 1 ≤ count a xs → suc (length (erase a xs)) ≡ length xs
length-erase a [] h = absurd (omega arith)
length-erase a (x ∷ xs) h = ground (arith, length-erase a xs)

module _ (x : String) (xs ys : List String) (h : (a : String) → count a (x ∷ xs) ≤ count a ys) where
  found : 1 ≤ count x ys
  found = ground (arith, h x, eq_iff x x)

  rest_le : (a : String) → count a xs ≤ count a (erase x ys)
  rest_le a = ground (arith, h a, count-erase x a ys found)

-- A list that holds no name more often than another is no longer.
pub length-le_of_count :
    (xs ys : List String) → ((a : String) → count a xs ≤ count a ys) → length xs ≤ length ys
length-le_of_count [] ys h = omega arith
length-le_of_count (x ∷ xs) ys h = omega (
  arith,
  length-erase x ys (found x xs ys h),
  length-le_of_count xs (erase x ys) (rest_le x xs ys h),
)

-- Of the same length, it holds the same names.
pub count-eq_of_length :
    (xs ys : List String)
    → ((a : String) → count a xs ≤ count a ys)
    → length xs ≡ length ys
    → (a : String) → count a xs ≡ count a ys
count-eq_of_length [] [] h e a = refl
count-eq_of_length [] (y ∷ ys) h e a = absurd (omega arith)
count-eq_of_length (x ∷ xs) ys h e a =
    let e' : length xs ≡ length (erase x ys) = omega (arith, length-erase x ys (found x xs ys h)) in
    omega (
      arith,
      count-erase x a ys (found x xs ys h),
      count-eq_of_length xs (erase x ys) (rest_le x xs ys h) e' a,
    )
