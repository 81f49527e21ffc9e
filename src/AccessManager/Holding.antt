-- ===== src/AccessManager/Holding.antt =====
-- Access lasts until its holder releases it.
use soros.Base.{
  ◌≡◌, sym, subst, ◌∙◌, Bool, true, false, ◌&&◌, List, [], ◌∷◌, Option, none, some, err, arith, inl,
  inr, Bool-cases, ◌==◌, ==_iff, All,
}
use soros.Base.HashSet.{HashOrder, contains-insert, contains-remove_ne}
use soros.Protocol.{ProcId, KeyId}
use soros.AccessManager.{AccessManager, KeyState, request_access, key_accessed}
use soros.AccessManager.Release.{holds, is_free, vacate, after_release}
use soros.AccessManager.Calls.{
  Call, create, read, write, release, delete, key_of, lock_after, answer, perform, run,
}
use soros.AccessManager.Refinement.{IsSound, perform-Refines}
use soros.AccessManager.Invariant.{perform-IsSound, run-IsSound}

abbrev pub is_release_by : ProcId → KeyId → Call → Bool
is_release_by p k (release q j) = q == p && j == k
is_release_by p k other = false

abbrev pub IsHeld : ProcId → Option KeyState → Type 0
IsHeld p none = ⊥
IsHeld p (some ks) = holds p ks ≡ true

holds-is_free : (p : ProcId) (ks : KeyState) → holds p ks ≡ true → is_free ks ≡ false
holds-is_free p ks h = ground arith

holds-vacate :
    (p q : ProcId) (ks : KeyState)
    → (q == p) ≡ false
    → holds p ks ≡ true
    → holds p (vacate q ks) ≡ true
holds-vacate p q ks ne h = ground (arith, contains-remove_ne q p ks.readers ne)

holds-after_release :
    (p q : ProcId) (ks : KeyState)
    → (q == p) ≡ false
    → holds p ks ≡ true
    → holds p (after_release q ks) ≡ true
unfolding after_release
holds-after_release p q ks ne h =
    ground (arith, holds-vacate p q ks ne h, holds-is_free p (vacate q ks))

lock_after-IsHeld :
    (p : ProcId) (c : Call) (ks : KeyState)
    → is_release_by p (key_of c) c ≡ false
    → holds p ks ≡ true
    → IsHeld p (lock_after c (some ks))
unfolding lock_after
lock_after-IsHeld p (create q k) ks n h = h
lock_after-IsHeld p (read q k) ks n h = ground (arith, contains-insert q p ks.readers)
lock_after-IsHeld p (write q k) ks n h = ground (arith, holds-is_free p ks h)
lock_after-IsHeld p (release q k) ks n h = ground (arith, holds-after_release p q ks)
lock_after-IsHeld p (delete k) ks n h = ground (arith, holds-is_free p ks h)

lock-IsHeld :
    (p : ProcId) (c : Call) (o : Option KeyState)
    → is_release_by p (key_of c) c ≡ false
    → IsHeld p o
    → IsHeld p (lock_after c o)
lock-IsHeld p c none n h = absurd h
lock-IsHeld p c (some ks) n h = lock_after-IsHeld p c ks n h

held_answer :
    (p q : ProcId) (k : KeyId) (o : Option KeyState)
    → IsHeld p o
    → (answer (write q k) o ≡ err (request_access q k)) × (answer (delete k) o ≡ err key_accessed)
unfolding answer
held_answer p q k none h = absurd h
held_answer p q k (some ks) h = ground (arith, holds-is_free p ks h)

module _ (order : HashOrder) (p : ProcId) (k : KeyId) where
  perform-IsHeld :
      (c : Call) (m : AccessManager)
      → IsSound m
      → is_release_by p k c ≡ false
      → IsHeld p (m.key_states k)
      → IsHeld p ((perform order c m).1.key_states k)
  perform-IsHeld c m s n h =
      let (r, f) = perform-Refines order m c s in
      elim (Bool-cases (key_of c == k)) [
        | inl here ↦
            let e = (==_iff (key_of c) k).0 here in
            subst (λ j. IsHeld p ((perform order c m).1.key_states j)) e
              (subst (IsHeld p) (sym f.here) (
                lock-IsHeld p c (m.key_states (key_of c))
                  (subst (λ j. is_release_by p j c ≡ false) (sym e) n)
                  (subst (λ j. IsHeld p (m.key_states j)) (sym e) h)))
        | inr other ↦ subst (IsHeld p) (sym (f.others k other)) h
      ]

  run-IsHeld :
      (cs : List Call) (m : AccessManager)
      → IsSound m
      → All (λ c. is_release_by p k c ≡ false) cs
      → IsHeld p (m.key_states k)
      → IsHeld p ((run order cs m).key_states k)
  unfolding run
  run-IsHeld [] m s n h = h
  run-IsHeld (c ∷ cs) m s (n, ns) h =
      run-IsHeld cs (perform order c m).1 (perform-IsSound order c m s) ns
        (perform-IsHeld c m s n h)

  -- While the release of a process that has access to a key is not among the calls, whatever the other
  -- calls are, it keeps its access, each further write of the key has to wait, and the key cannot be
  -- deleted.
  pub run-holds :
      (cs : List Call) (m : AccessManager) (q : ProcId)
      → IsSound m
      → All (λ c. is_release_by p k c ≡ false) cs
      → IsHeld p (m.key_states k)
      → let m' = run order cs m in
        IsHeld p (m'.key_states k)
        × ((perform order (write q k) m').0 ≡ err (request_access q k))
        × ((perform order (delete k) m').0 ≡ err key_accessed)
  run-holds cs m q s n h =
      let m' = run order cs m in
      let s' = run-IsSound order cs m s in
      let held = run-IsHeld cs m s n h in
      let (waits, stays) = held_answer p q k (m'.key_states k) held in
      (
        held,
        (perform-Refines order m' (write q k) s').0 ∙ waits,
        (perform-Refines order m' (delete k) s').0 ∙ stays,
      )
