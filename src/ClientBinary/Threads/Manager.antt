-- ===== src/ClientBinary/Threads/Manager.antt =====
-- What the two threads rely on of a registry, and that the access manager has it.
use soros.Base.{◌||◌, List, [], ◌∷◌, ◌++◌, Option, ◌≡◌, refl, ap, ◌∙◌, arith}
use soros.Base.HashSet.{HashOrder}
use soros.Protocol.{ProcId, KeyId}
use soros.AccessManager.{AccessManager, AccessGranted, KeyState}
use soros.AccessManager.Calls.{Call, key_of, perform, lock_after, told, answer}
use soros.AccessManager.Refinement.{IsSound, perform-Refines}
use soros.AccessManager.Invariant.{perform-IsSound}
use soros.ClientBinary.Threads.{Registry}
use soros.ClientBinary.Threads.Roles.{tells}

-- Each call is answered by the lock of its key, which makes its step, and tells whom the lock lets in.
pub record IsLocking (registry : Registry) : Type 1 where
  pub Valid : registry.State → Type 0
  pub lock_of : registry.State → KeyId → Option KeyState
  pub ask-Valid : (c : Call) (s : registry.State) → Valid s → Valid (registry.ask c s).1
  pub ask-answer :
      (c : Call) (s : registry.State)
      → Valid s
      → (registry.ask c s).0 ≡ answer c (lock_of s (key_of c))
  pub ask-lock :
      (c : Call) (s : registry.State)
      → Valid s
      → lock_of (registry.ask c s).1 (key_of c) ≡ lock_after c (lock_of s (key_of c))
  pub ask-told :
      (c : Call) (p : ProcId) (s : registry.State)
      → Valid s
      → registry.has_told p (registry.ask c s).1
        ≡ (registry.has_told p s || tells p (told c (lock_of s (key_of c))))

pub tells-append :
    (p : ProcId) (gs hs : List AccessGranted) → tells p (gs ++ hs) ≡ (tells p gs || tells p hs)
tells-append p [] hs = refl
tells-append p (g ∷ gs) hs = ground (arith, tells-append p gs hs)

-- The access manager; it has told what it has sent on its channel.
abbrev pub manager_registry : HashOrder → Registry
manager_registry order = record {
  State = AccessManager;
  ask = perform order;
  has_told = λ p m. tells p m.access_granted.sent;
}

abbrev pub manager-IsLocking : (order : HashOrder) → IsLocking (manager_registry order)
manager-IsLocking order = record {
  Valid = IsSound;
  lock_of = λ m k. m.key_states k;
  ask-Valid = perform-IsSound order;
  ask-answer = λ c m v. (perform-Refines order m c v).0;
  ask-lock = λ c m v. (perform-Refines order m c v).1.here;
  ask-told = λ c p m v.
      ap (tells p) (perform-Refines order m c v).1.sent
      ∙ tells-append p m.access_granted.sent (told c (m.key_states (key_of c)));
}
