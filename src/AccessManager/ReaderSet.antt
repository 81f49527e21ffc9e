-- ===== src/AccessManager/ReaderSet.antt =====
-- The readers of a key as a set: lists up to the order in which the code holds the elements.
use soros.Base.{
  ℕ, ◌≡◌, refl, sym, ◌∙◌, ap, Bool, false, ◌||◌, List, [], ◌∷◌, ◌==◌, if◌then◌else◌, is_empty,
  arith,
}
use soros.Base.HashSet.{
  Distinct, contains, insert, remove, contains-insert, contains-remove_ne, contains-remove_self,
}
use mathlib.Core.Bool.{Bool-set}
use mathlib.Core.Quot
use mathlib.Core.Quot.{Quot, Quot-set}

abbrev pub SameMembers : List ℕ → List ℕ → Type 0
SameMembers xs ys = (a : ℕ) → contains a xs ≡ contains a ys

abbrev pub ReaderSet : Type 0
ReaderSet = Quot SameMembers

abbrev pub set_of : List ℕ → ReaderSet
set_of xs = Quot.mk xs

abbrev pub discard_all : ℕ → List ℕ → List ℕ
discard_all a [] = []
discard_all a (x ∷ xs) = let rest = discard_all a xs in if a == x then rest else x ∷ rest

contains-discard_all :
    (a b : ℕ) (xs : List ℕ)
    → contains b (discard_all a xs) ≡ (if a == b then false else contains b xs)
contains-discard_all a b [] = ground arith
contains-discard_all a b (x ∷ xs) = ground (arith, contains-discard_all a b xs)

contains-remove :
    (a b : ℕ) (xs : List ℕ)
    → Distinct xs
    → contains b (remove a xs) ≡ (if a == b then false else contains b xs)
contains-remove a b xs d = ground (arith, contains-remove_ne a b xs, contains-remove_self a xs d)

pub insert-SameMembers :
    (a : ℕ) (xs ys : List ℕ) → SameMembers xs ys → SameMembers (insert a xs) (insert a ys)
insert-SameMembers a xs ys h b =
    contains-insert a b xs ∙ (ap (λ t. b == a || t) (h b) ∙ sym (contains-insert a b ys))

pub discard_all-SameMembers :
    (a : ℕ) (xs ys : List ℕ) → SameMembers xs ys → SameMembers (discard_all a xs) (discard_all a ys)
discard_all-SameMembers a xs ys h b =
    contains-discard_all a b xs
    ∙ (ap (λ t. if a == b then false else t) (h b) ∙ sym (contains-discard_all a b ys))

pub is_empty-SameMembers : (xs ys : List ℕ) → SameMembers xs ys → is_empty xs ≡ is_empty ys
is_empty-SameMembers [] [] h = refl
is_empty-SameMembers [] (y ∷ ys) h = ground (arith, h y)
is_empty-SameMembers (x ∷ xs) [] h = ground (arith, h x)
is_empty-SameMembers (x ∷ xs) (y ∷ ys) h = refl

unfoldable pub mem : ℕ → ReaderSet → Bool
mem a = Quot.lift Bool-set (contains a) (λ xs ys h. h a)

unfoldable pub add : ℕ → ReaderSet → ReaderSet
add a =
    Quot.lift Quot-set (λ xs. set_of (insert a xs))
      (λ xs ys h. Quot.sound (insert-SameMembers a xs ys h))

unfoldable pub discard : ℕ → ReaderSet → ReaderSet
discard a =
    Quot.lift Quot-set (λ xs. set_of (discard_all a xs))
      (λ xs ys h. Quot.sound (discard_all-SameMembers a xs ys h))

unfoldable pub is_empty_set : ReaderSet → Bool
is_empty_set = Quot.lift Bool-set is_empty is_empty-SameMembers

-- `remove` takes one element away; of a list without repetition, that is all.
pub remove-discard :
    (a : ℕ) (xs : List ℕ) → Distinct xs → set_of (remove a xs) ≡ discard a (set_of xs)
unfolding discard
remove-discard a xs d = Quot.sound λ b. contains-remove a b xs d ∙ sym (contains-discard_all a b xs)
