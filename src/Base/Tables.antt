-- ===== src/Base/Tables.antt =====
-- The tables of a database as lists of rows, with SELECT, UPDATE and DELETE.
use Prim.Native.String.{String, compare}
use Prim.Native.Nat.{lt, eq, gt}
use mathlib.Core.Bool.{Bool, true, false, not}
use mathlib.Core.List.{List, [], ◌∷◌}
use mathlib.Core.Option.{Option, none, some}
use pici.Base.Tests.{if◌then◌else◌}

module _ {ℓ} {A : Type ℓ} where
  -- SELECT … WHERE …, at most one row
  abbrev pub select : (A → Bool) → List A → Option A
  select p [] = none
  select p (x ∷ xs) = if p x then some x else select p xs

  -- SELECT … WHERE …
  abbrev pub select_all : (A → Bool) → List A → List A
  select_all p [] = []
  select_all p (x ∷ xs) = let rest = select_all p xs in if p x then x ∷ rest else rest

  -- UPDATE … SET … WHERE …
  abbrev pub update : (A → Bool) → (A → A) → List A → List A
  update p f [] = []
  update p f (x ∷ xs) = (if p x then f x else x) ∷ update p f xs

  -- DELETE … WHERE …
  abbrev pub delete : (A → Bool) → List A → List A
  delete p xs = select_all (λ x. not (p x)) xs

  -- ORDER BY, with the test that the first row stays before the second
  abbrev pub insert_by : (A → A → Bool) → A → List A → List A
  insert_by le x [] = x ∷ []
  insert_by le x (y ∷ ys) = let rest = insert_by le x ys in if le x y then x ∷ y ∷ ys else y ∷ rest

  abbrev pub order_by : (A → A → Bool) → List A → List A
  order_by le [] = []
  order_by le (x ∷ xs) = insert_by le x (order_by le xs)

-- Whether a string is not behind another.
abbrev pub str_leb : String → String → Bool
str_leb a b = elim (compare a b) [ lt ↦ true | eq ↦ true | gt ↦ false ]
