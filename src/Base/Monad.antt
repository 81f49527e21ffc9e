-- ===== src/Base/Monad.antt =====
-- How a call ends, and methods on `&mut self` as actions on an explicit state.
use mathlib.Core.Path.{◌≡◌, refl}
use mathlib.Core.Logic.{◌≢◌, ◌⊎◌, inl, inr}
use mathlib.Core.Option.{Option, none, some}
use native.Mathlib.Omega.{arith}

-- `err` is a returned `Err`; `panic` is `panic!`, `unreachable!` or an `unwrap` of `None`;
-- `exit` is `std::process::exit`; `no_fuel` says that a loop has not ended within its fuel.
pub data Outcome (E A : Type 0) : Type 0 where
  ok : A → Outcome E A
  err : E → Outcome E A
  panic exit no_fuel : Outcome E A

-- The state comes back after an error too: what was written stays written.
abbrev pub Action : Type 0 → Type 0 → Type 0 → Type 0
Action S E A = S → Outcome E A × S

module _ {S E : Type 0} where
  abbrev pub pure : {A : Type 0} → A → Action S E A
  pure a s = (ok a, s)

  abbrev pub throw : {A : Type 0} → E → Action S E A
  throw e s = (err e, s)

  abbrev pub gets : {A : Type 0} → (S → A) → Action S E A
  gets f s = (ok (f s), s)

  abbrev pub modify : (S → S) → Action S E (Unit {0})
  modify f s = (ok tt, f s)

  abbrev pub crash : {A : Type 0} → Action S E A
  crash s = (panic, s)

  -- `r?`, with the error converted by `from`
  abbrev pub try_or : {D A : Type 0} → (D → E) → D ⊎ A → Action S E A
  try_or from (inl d) s = (err (from d), s)
  try_or from (inr a) s = (ok a, s)

  -- `o.ok_or(e)?`
  abbrev pub ok_or : {A : Type 0} → Option A → E → Action S E A
  ok_or none e s = (err e, s)
  ok_or (some a) e s = (ok a, s)

  -- `o.unwrap()`
  abbrev pub unwrap : {A : Type 0} → Option A → Action S E A
  unwrap none s = (panic, s)
  unwrap (some a) s = (ok a, s)

infixl 5 ◌>>=◌ ◌>>◌
abbrev pub ◌>>=◌ : {S E A B : Type 0} → Action S E A → (A → Action S E B) → Action S E B
◌>>=◌ m f s =
    let (r, s') = m s in
    elim r [
      | ok a ↦ f a s'
      | err e ↦ (err e, s')
      | panic ↦ (panic, s')
      | exit ↦ (exit, s')
      | no_fuel ↦ (no_fuel, s')
    ]

abbrev pub ◌>>◌ : {S E B : Type 0} → Action S E (Unit {0}) → Action S E B → Action S E B
m >> k = m >>= λ _. k

after_keeps :
    {S E A B C : Type 0} (P : S → C) (f : A → Action S E B)
    → ((a : A) (s : S) → P (f a s).1 ≡ P s)
    → (r : Outcome E A) (s : S) → P (◌>>=◌ {A = A} (λ _. (r, s)) f s).1 ≡ P s
after_keeps P f h (ok a) s = h a s
after_keeps P f h (err e) s = refl
after_keeps P f h panic s = refl
after_keeps P f h exit s = refl
after_keeps P f h no_fuel s = refl

-- What every continuation keeps is as the first step left it.
pub >>=-keeps :
    {S E A B C : Type 0} (P : S → C) (m : Action S E A) (f : A → Action S E B)
    → ((a : A) (s : S) → P (f a s).1 ≡ P s)
    → (s : S) → P ((m >>= f) s).1 ≡ P (m s).1
>>=-keeps P m f h s = after_keeps P f h (m s).0 (m s).1

after_reaches :
    {S E A B : Type 0} (Q R : S → Type 0) (f : A → Action S E B)
    → ((s : S) → Q s → R s)
    → ((a : A) (s : S) → Q s → R (f a s).1)
    → (r : Outcome E A) (s : S) → Q s
    → R (◌>>=◌ {A = A} (λ _. (r, s)) f s).1
after_reaches Q R f w h (ok a) s q = h a s q
after_reaches Q R f w h (err e) s q = w s q
after_reaches Q R f w h panic s q = w s q
after_reaches Q R f w h exit s q = w s q
after_reaches Q R f w h no_fuel s q = w s q

-- Two steps in a row reach what the second reaches from where the first leaves off, if the first
-- reaches it where it fails.
pub >>=-reaches :
    {S E A B : Type 0} (Q R : S → Type 0) (m : Action S E A) (f : A → Action S E B)
    → ((s : S) → Q s → R s)
    → ((a : A) (s : S) → Q s → R (f a s).1)
    → (s : S) → Q (m s).1
    → R ((m >>= f) s).1
>>=-reaches Q R m f w h s q = after_reaches Q R f w h (m s).0 (m s).1 q

-- An invariant of both steps is one of the two in a row.
pub >>=-preserves :
    {S E A B : Type 0} (P : S → Type 0) (m : Action S E A) (f : A → Action S E B)
    → ((s : S) → P s → P (m s).1)
    → ((a : A) (s : S) → P s → P (f a s).1)
    → (s : S) → P s
    → P ((m >>= f) s).1
>>=-preserves P m f hm hf s p = >>=-reaches P P m f (λ s p. p) hf s (hm s p)

-- A step that only looks at a value leaves the state as it is.
module _ {S E A : Type 0} (P : S → Type 0) where
  pub ok_or-preserves : (o : Option A) (e : E) (s : S) → P s → P (ok_or o e s).1
  ok_or-preserves none e s p = p
  ok_or-preserves (some a) e s p = p

  pub try_or-preserves :
      {D : Type 0} (from : D → E) (r : D ⊎ A) (s : S) → P s → P (try_or from r s).1
  try_or-preserves from (inl d) s p = p
  try_or-preserves from (inr a) s p = p

pub unwrap-preserves :
    {S A : Type 0} (E : Type 0) (P : S → Type 0) (o : Option A) (s : S)
    → P s
    → P (unwrap {E = E} o s).1
unwrap-preserves E P none s p = p
unwrap-preserves E P (some a) s p = p

after-ne-ok :
    {S E A B : Type 0} (P : S → Type 0) (f : A → Action S E B) (b : B)
    → ((a : A) (s : S) → P s → (f a s).0 ≢ ok b)
    → (r : Outcome E A) (s : S) → P s
    → (◌>>=◌ {A = A} (λ _. (r, s)) f s).0 ≢ ok b
after-ne-ok P f b h (ok a) s p = h a s p
after-ne-ok P f b h (err e) s p = λ q. cc
after-ne-ok P f b h panic s p = λ q. cc
after-ne-ok P f b h exit s p = λ q. cc
after-ne-ok P f b h no_fuel s p = λ q. cc

-- Two steps in a row do not end well if the second never does where the first may leave off.
pub >>=-ne-ok :
    {S E A B : Type 0} (P : S → Type 0) (m : Action S E A) (f : A → Action S E B) (b : B)
    → ((s : S) → P s → P (m s).1)
    → ((a : A) (s : S) → P s → (f a s).0 ≢ ok b)
    → (s : S) → P s
    → ((m >>= f) s).0 ≢ ok b
>>=-ne-ok P m f b hm hf s p = after-ne-ok P f b hf (m s).0 (m s).1 (hm s p)

-- The call came back to its caller, with a value or an error.
abbrev pub Returned : {E A : Type 0} → Outcome E A → Type 0
Returned (ok a) = Unit
Returned (err e) = Unit
Returned panic = ⊥
Returned exit = ⊥
Returned no_fuel = ⊥

-- A first step that ends well hands over to the second.
pub >>=-ok :
    {S E A B : Type 0} (m : Action S E A) (f : A → Action S E B) (s s' : S) (a : A)
    → m s ≡ (ok a, s')
    → (m >>= f) s ≡ f a s'
>>=-ok m f s s' a e = ground arith

after_returns :
    {S E A B : Type 0} (f : A → Action S E B)
    → ((a : A) (s : S) → Returned (f a s).0)
    → (r : Outcome E A) (s : S) → Returned r
    → Returned (◌>>=◌ {A = A} (λ _. (r, s)) f s).0
after_returns f h (ok a) s p = h a s
after_returns f h (err e) s p = tt
after_returns f h panic s p = elim p [ ]
after_returns f h exit s p = elim p [ ]
after_returns f h no_fuel s p = elim p [ ]

-- Two steps in a row come back if the first does, and the second does from wherever it starts.
pub >>=-returns :
    {S E A B : Type 0} (m : Action S E A) (f : A → Action S E B)
    → ((a : A) (s : S) → Returned (f a s).0)
    → (s : S) → Returned (m s).0
    → Returned ((m >>= f) s).0
>>=-returns m f h s p = after_returns f h (m s).0 (m s).1 p

-- No panic, and no loop that has not ended; the process may have come to its own exit.
abbrev pub NoPanic : {E A : Type 0} → Outcome E A → Type 0
NoPanic (ok a) = Unit
NoPanic (err e) = Unit
NoPanic panic = ⊥
NoPanic exit = Unit
NoPanic no_fuel = ⊥

pub Returned-NoPanic : {E A : Type 0} (r : Outcome E A) → Returned r → NoPanic r
Returned-NoPanic (ok a) h = tt
Returned-NoPanic (err e) h = tt
Returned-NoPanic panic h = h
Returned-NoPanic exit h = tt
Returned-NoPanic no_fuel h = h

-- A call has come to an end without a panic, in a state with `R`.
abbrev pub Ends : {S E A : Type 0} → (S → Type 0) → Outcome E A × S → Type 0
Ends R x = NoPanic x.0 × R x.1

after-Ends :
    {S E A B : Type 0} (Q R : S → Type 0) (f : A → Action S E B)
    → ((s : S) → Q s → R s)
    → ((a : A) (s : S) → Q s → Ends R (f a s))
    → (r : Outcome E A) (s : S) → NoPanic r
    → Q s
    → Ends R (◌>>=◌ {A = A} (λ _. (r, s)) f s)
after-Ends Q R f w h (ok a) s n q = h a s q
after-Ends Q R f w h (err e) s n q = (tt, w s q)
after-Ends Q R f w h panic s n q = elim n [ ]
after-Ends Q R f w h exit s n q = (tt, w s q)
after-Ends Q R f w h no_fuel s n q = elim n [ ]

-- Two steps in a row end without a panic if the first does in a state from which the second does.
pub >>=-Ends :
    {S E A B : Type 0} (Q R : S → Type 0) (m : Action S E A) (f : A → Action S E B)
    → ((s : S) → Q s → R s)
    → ((a : A) (s : S) → Q s → Ends R (f a s))
    → (s : S) → Ends Q (m s)
    → Ends R ((m >>= f) s)
>>=-Ends Q R m f w h s e = after-Ends Q R f w h (m s).0 (m s).1 e.0 e.1
