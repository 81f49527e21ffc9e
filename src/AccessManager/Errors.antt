-- ===== src/AccessManager/Errors.antt =====
-- Errors are atomic: a call that is refused, and not queued, changes no lock and tells nobody.
use soros.Base.{
  ◌≡◌, refl, [], Option, none, some, err, arith, ◌==◌, Bool-cases, inl, inr, sym, ◌∙◌, append-nil,
  fun_ext, ==_iff,
}
use soros.Base.HashSet.{HashOrder}
use soros.AccessManager.{AccessManager, AccessManagerError, KeyState, request_access}
use soros.AccessManager.Calls.{
  Call, create, read, write, release, delete, key_of, perform, lock_after, told, answer,
}
use soros.AccessManager.Refinement.{IsSound, perform-Refines}

-- Any error but the one that says that the request has been queued.
abbrev pub IsRefusal : AccessManagerError → Type 0
IsRefusal (request_access p k) = ⊥
IsRefusal e = Unit

lock_refused :
    (c : Call) (o : Option KeyState) (e : AccessManagerError)
    → answer c o ≡ err e
    → IsRefusal e
    → (lock_after c o ≡ o) × (told c o ≡ [])
unfolding answer lock_after told
lock_refused (create p k) none e a h = cc
lock_refused (create p k) (some ks) e a h = (refl, refl)
lock_refused (read p k) none e a h = (refl, refl)
lock_refused (read p k) (some ks) e a h = ground arith
lock_refused (write p k) none e a h = (refl, refl)
lock_refused (write p k) (some ks) e a h = ground arith
lock_refused (release p k) none e a h = (refl, refl)
lock_refused (release p k) (some ks) e a h = ground arith
lock_refused (delete k) none e a h = (refl, refl)
lock_refused (delete k) (some ks) e a h = ground arith

module _ (order : HashOrder) (c : Call) (m : AccessManager) (e : AccessManagerError) where
  -- A call that fails, except with `request_access`, leaves every lock as it was and sends nothing.
  pub perform_refused :
      IsSound m
      → (perform order c m).0 ≡ err e
      → IsRefusal e
      → let m' = (perform order c m).1 in
        (m'.key_states ≡ m.key_states) × (m'.access_granted.sent ≡ m.access_granted.sent)
  perform_refused s failed h =
      let (r, f) = perform-Refines order m c s in
      let (same, quiet) = lock_refused c (m.key_states (key_of c)) e (sym r ∙ failed) h in
      (
        fun_ext λ j. elim (Bool-cases (key_of c == j)) [
          | inl here ↦ rw (← (==_iff (key_of c) j).0 here) (f.here ∙ same)
          | inr other ↦ f.others j other
        ],
        ground (arith, f.sent, append-nil m.access_granted.sent),
      )
