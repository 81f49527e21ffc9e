-- ===== src/Base/HashSet.antt =====
-- `std::collections::HashSet` of process ids: the elements, each once. In which order the set is
-- iterated depends on its hasher, so the first element of an iteration is a parameter.
use Prim.Native.Nat.{ℕ}
use mathlib.Core.Path.{◌≡◌, refl}
use mathlib.Core.Bool.{Bool, true, false, ◌||◌}
use mathlib.Core.List.{List, [], ◌∷◌}
use native.Mathlib.Omega.{arith}
use soros.Base.Tests.{◌==◌, if◌then◌else◌}

abbrev pub contains : ℕ → List ℕ → Bool
contains a [] = false
contains a (x ∷ xs) = a == x || contains a xs

abbrev pub insert : ℕ → List ℕ → List ℕ
insert a xs = if contains a xs then xs else a ∷ xs

abbrev pub remove : ℕ → List ℕ → List ℕ
remove a [] = []
remove a (x ∷ xs) = if a == x then xs else x ∷ remove a xs

-- `set.iter().next()` on the set of `x` and `xs`: some element.
pub record HashOrder : Type 0 where
  pub first : ℕ → List ℕ → ℕ
  pub first-contains : (x : ℕ) (xs : List ℕ) → contains (first x xs) (x ∷ xs) ≡ true

abbrev pub Distinct : List ℕ → Type 0
Distinct [] = Unit
Distinct (x ∷ xs) = (contains x xs ≡ false) × Distinct xs

pub insert-Distinct : (a : ℕ) (xs : List ℕ) → Distinct xs → Distinct (insert a xs)
insert-Distinct a xs h = ground arith

pub contains-insert : (a b : ℕ) (xs : List ℕ) → contains b (insert a xs) ≡ (b == a || contains b xs)
contains-insert a b xs = ground arith

pub contains-remove_ne :
    (a b : ℕ) (xs : List ℕ) → (a == b) ≡ false → contains b (remove a xs) ≡ contains b xs
contains-remove_ne a b [] h = refl
contains-remove_ne a b (x ∷ xs) h = ground (arith, contains-remove_ne a b xs h)

pub remove-Distinct : (a : ℕ) (xs : List ℕ) → Distinct xs → Distinct (remove a xs)
remove-Distinct a [] h = tt
remove-Distinct a (x ∷ xs) h = ground (arith, remove-Distinct a xs h.1, contains-remove_ne a x xs)

pub contains-remove_self : (a : ℕ) (xs : List ℕ) → Distinct xs → contains a (remove a xs) ≡ false
contains-remove_self a [] h = refl
contains-remove_self a (x ∷ xs) h = ground (arith, contains-remove_self a xs h.1)
