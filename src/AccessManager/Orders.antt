-- ===== src/AccessManager/Orders.antt =====
-- Two ways to iterate over a set, for the tests.
use soros.Base.{ℕ, ◌≡◌, true, List, [], ◌∷◌, arith}
use soros.Base.HashSet
use soros.Base.HashSet.{HashOrder}

pub head-contains : (x : ℕ) (xs : List ℕ) → HashSet.contains x (x ∷ xs) ≡ true
head-contains x xs = ground arith

abbrev pub insertion_order : HashOrder
insertion_order = record { first = λ x xs. x; first-contains = head-contains }

-- The last element of the list.
abbrev pub last_of : ℕ → List ℕ → ℕ
last_of x [] = x
last_of x (y ∷ ys) = last_of y ys

pub last_of-contains : (x : ℕ) (xs : List ℕ) → HashSet.contains (last_of x xs) (x ∷ xs) ≡ true
last_of-contains x [] = ground arith
last_of-contains x (y ∷ ys) = ground (arith, last_of-contains y ys)

abbrev pub last_order : HashOrder
last_order = record { first = last_of; first-contains = last_of-contains }
