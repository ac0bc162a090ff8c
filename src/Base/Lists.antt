-- ===== src/Base/Lists.antt =====
-- Lists measured by native numbers, predicates on all items, and the search for the first item
-- that passes a test.
use Prim.Native.Nat.{ℕ, zero, suc, ◌+◌}
use mathlib.Core.Path.{◌≡◌}
use mathlib.Core.Bool.{Bool, true, false}
use mathlib.Core.List.{List, [], ◌∷◌, ◌++◌}
use mathlib.Core.Option.{Option, none, some}
use native.Mathlib.Omega.{arith}

module _ {ℓ} {A : Type ℓ} where
  abbrev pub length : List A → ℕ
  length [] = 0
  length (x ∷ xs) = suc (length xs)

  pub length-append : (xs ys : List A) → length (xs ++ ys) ≡ length xs + length ys
  length-append [] ys = omega arith
  length-append (x ∷ xs) ys = omega (arith, length-append xs ys)

  abbrev pub take : ℕ → List A → List A
  take zero xs = []
  take (suc n) [] = []
  take (suc n) (x ∷ xs) = x ∷ take n xs

  -- The first item that passes the test, as `QueryRow` and a loop with `break` find it.
  abbrev pub find : (A → Bool) → List A → Option A
  find p [] = none
  find p (x ∷ xs) = elim (p x) [ true ↦ some x | false ↦ find p xs ]

  -- The items that pass the test, in order.
  abbrev pub select : (A → Bool) → List A → List A
  select p [] = []
  select p (x ∷ xs) = elim (p x) [ true ↦ x ∷ select p xs | false ↦ select p xs ]

-- Every item has the property.
abbrev pub All {ℓ κ} : {Item : Type ℓ} → (Item → Type κ) → List Item → Type κ
All holds [] = Unit
All holds (first ∷ others) = holds first × All holds others

pub All-append {ℓ κ} :
    {Item : Type ℓ} (holds : Item → Type κ) (front back : List Item)
    → All holds front
    → All holds back
    → All holds (front ++ back)
All-append holds [] back in_front in_back = in_back
All-append holds (first ∷ others) back (here, there) in_back =
    (here, All-append holds others back there in_back)

-- Rows of a table: whether a row passes the test, and the changes that SQL makes to those that do.
module _ {ℓ} {Row : Type ℓ} where
  abbrev pub exists : (Row → Bool) → List Row → Bool
  exists p [] = false
  exists p (row ∷ rows) = elim (p row) [ true ↦ true | false ↦ exists p rows ]

  abbrev pub update : (Row → Bool) → (Row → Row) → List Row → List Row
  update p f [] = []
  update p f (row ∷ rows) = elim (p row) [
    | true ↦ f row ∷ update p f rows
    | false ↦ row ∷ update p f rows
  ]

  abbrev pub delete : (Row → Bool) → List Row → List Row
  delete p [] = []
  delete p (row ∷ rows) = elim (p row) [ true ↦ delete p rows | false ↦ row ∷ delete p rows ]

-- A row that is added at the end is found where no earlier one is.
pub find-append {ℓ} :
    {Row : Type ℓ} (p : Row → Bool) (rows : List Row) (row : Row)
    → find p rows ≡ none
    → p row ≡ true
    → find p (rows ++ row ∷ []) ≡ some row
find-append p [] row h t = ground arith
find-append p (x ∷ xs) row h t = ground (arith, find-append p xs row)
