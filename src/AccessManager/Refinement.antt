-- ===== src/AccessManager/Refinement.antt =====
-- The manager refines its locks: each call is one step of the lock of its key.
use soros.Base.{
  ◌≡◌, true, Option, none, some, arith, append-nil, Option-cases, Bool-cases, inl, inr, ℕ,
}
use soros.Base.HashSet.{HashOrder}
use soros.AccessManager.{AccessManager, KeyState, put_key_state}
use soros.AccessManager
use soros.AccessManager.Lock.{IsValid}
use soros.AccessManager.Release.{holds, release-Effect, release-refused}
use soros.AccessManager.Serve.{Effect}
use soros.AccessManager.Calls.{
  Call, create, read, write, release, delete, key_of, perform, lock_after, told, answer,
}

pub record IsSound (m : AccessManager) : Type 0 where
  pub connected : m.access_granted.connected ≡ true
  pub locks : (k : ℕ) (ks : KeyState) → m.key_states k ≡ some ks → IsValid ks

-- The call `c` on the manager `m` answers and acts as the lock of its key says.
abbrev pub Refines : HashOrder → Call → AccessManager → Option KeyState → Type 0
Refines order c m o =
    ((perform order c m).0 ≡ answer c o)
    × Effect (key_of c) (lock_after c o) (told c o) m (perform order c m).1

module _ (order : HashOrder) (m : AccessManager) where
  missing-Refines : (c : Call) → m.key_states (key_of c) ≡ none → Refines order c m none
  unfolding perform AccessManager.create AccessManager.delete AccessManager.read AccessManager.write
      AccessManager.release lock_after told answer
  missing-Refines (create p k) h = ground (arith, append-nil m.access_granted.sent)
  missing-Refines (read p k) h = ground (arith, append-nil m.access_granted.sent)
  missing-Refines (write p k) h = ground (arith, append-nil m.access_granted.sent)
  missing-Refines (release p k) h = ground (arith, append-nil m.access_granted.sent)
  missing-Refines (delete k) h = ground (arith, append-nil m.access_granted.sent)

  release-Refines :
      (p k : ℕ) (ks : KeyState)
      → IsValid ks
      → m.access_granted.connected ≡ true
      → m.key_states k ≡ some ks
      → Refines order (release p k) m (some ks)
  unfolding perform lock_after told answer
  release-Refines p k ks v c h = elim (Bool-cases (holds p ks)) [
    | inl held ↦ ground (arith, release-Effect order p k ks m v held c h)
    | inr not_held ↦
        ground (arith, release-refused order p k ks m not_held h, append-nil m.access_granted.sent)
  ]

  present-Refines :
      (c : Call) (ks : KeyState)
      → IsSound m
      → m.key_states (key_of c) ≡ some ks
      → Refines order c m (some ks)
  unfolding perform AccessManager.create AccessManager.delete AccessManager.read AccessManager.write
      lock_after told answer
  present-Refines (create p k) ks s h = ground (arith, append-nil m.access_granted.sent)
  present-Refines (read p k) ks s h = ground (arith, append-nil m.access_granted.sent)
  present-Refines (write p k) ks s h = ground (arith, append-nil m.access_granted.sent)
  present-Refines (release p k) ks s h = release-Refines p k ks (s.locks k ks h) s.connected h
  present-Refines (delete k) ks s h = ground (arith, append-nil m.access_granted.sent)

  -- Each call is one step of the lock of its key.
  pub perform-Refines : (c : Call) → IsSound m → Refines order c m (m.key_states (key_of c))
  perform-Refines c s = elim (Option-cases (m.key_states (key_of c))) [
    | inl e ↦ rw e (missing-Refines c e)
    | inr (ks, e) ↦ rw e (present-Refines c ks s e)
  ]
