-- ===== src/AccessManager/Invariant.antt =====
-- Every call keeps every lock well formed, from the empty manager on.
use soros.Base.{
  panic, exit, no_fuel, ◌≡◌, refl, inl, inr, List, [], ◌∷◌, Option, none, some, arith, Bool-cases,
  ◌==◌, Outcome, Returned, Option-cases, ◌∙◌, sym, ap, ==_iff, subst,
}
use soros.Base.HashSet.{HashOrder}
use soros.Protocol.{ProcId, KeyId}
use soros.AccessManager.{
  AccessManager, KeyState, new_key_state, new, AccessGranted, AccessManagerError, err, send_error,
  ok,
}
use soros.AccessManager.Lock.{IsValid}
use soros.AccessManager.Release.{holds, is_free}
use soros.AccessManager.Serve.{Effect}
use soros.AccessManager.Calls.{
  Call, create, read, write, release, delete, key_of, perform, run, lock_after, answer, read_waits,
}
use soros.AccessManager.WellFormed.{
  push_read-IsValid, push_write-IsValid, register_reader-IsValid, register_writer-IsValid,
  after_release-IsValid,
}
use soros.AccessManager.Refinement.{IsSound, perform-Refines}

-- A lock that exists is well formed.
abbrev pub IsValidLock : Option KeyState → Type 0
IsValidLock none = Unit
IsValidLock (some ks) = IsValid ks

new_key_state-IsValid : (p : ProcId) → IsValid (new_key_state p)
new_key_state-IsValid p = ground arith

pub lock_after-IsValid :
    (c : Call) (o : Option KeyState) → IsValidLock o → IsValidLock (lock_after c o)
unfolding lock_after
lock_after-IsValid (create p k) none v = new_key_state-IsValid p
lock_after-IsValid (create p k) (some ks) v = v
lock_after-IsValid (read p k) none v = tt
lock_after-IsValid (read p k) (some ks) v = elim (Bool-cases (read_waits ks)) [
  | inl e ↦ rw e (push_read-IsValid p ks v e)
  | inr e ↦ rw e (register_reader-IsValid p ks v e)
]
lock_after-IsValid (write p k) none v = tt
lock_after-IsValid (write p k) (some ks) v = elim (Bool-cases (is_free ks)) [
  | inl e ↦ rw e (register_writer-IsValid p ks v e)
  | inr e ↦ rw e (push_write-IsValid p ks v e)
]
lock_after-IsValid (release p k) none v = tt
lock_after-IsValid (release p k) (some ks) v = elim (Bool-cases (holds p ks)) [
  | inl e ↦ rw e (after_release-IsValid p ks v)
  | inr e ↦ rw e v
]
lock_after-IsValid (delete k) none v = tt
lock_after-IsValid (delete k) (some ks) v = elim (Bool-cases (is_free ks)) [
  | inl e ↦ rw e tt
  | inr e ↦ rw e v
]

pub lock-IsValid : (m : AccessManager) (k : KeyId) → IsSound m → IsValidLock (m.key_states k)
lock-IsValid m k s = elim (Option-cases (m.key_states k)) [
  | inl e ↦ rw e tt
  | inr (ks, e) ↦ rw e (s.locks k ks e)
]

Effect-IsSound :
    (k : KeyId) (o : Option KeyState) (gs : List AccessGranted) (m m' : AccessManager)
    → IsSound m
    → IsValidLock o
    → Effect k o gs m m'
    → IsSound m'
Effect-IsSound k o gs m m' s v f = record {
  connected = f.connected ∙ s.connected;
  locks = λ j ks e. elim (Bool-cases (k == j)) [
    | inl same ↦
        let e' : o ≡ some ks = sym f.here ∙ (ap m'.key_states ((==_iff k j).0 same) ∙ e) in
        subst IsValidLock e' v
    | inr other ↦ s.locks j ks (sym (f.others j other) ∙ e)
  ];
}

-- No answer of a lock is a panic or a failed send.
abbrev pub IsAnswer : Outcome AccessManagerError (Unit {0}) → Type 0
IsAnswer (err (send_error g)) = ⊥
IsAnswer r = Returned r

answer-IsAnswer : (c : Call) (o : Option KeyState) → IsAnswer (answer c o)
unfolding answer
answer-IsAnswer (create p k) none = tt
answer-IsAnswer (create p k) (some ks) = tt
answer-IsAnswer (read p k) none = tt
answer-IsAnswer (read p k) (some ks) = ground arith
answer-IsAnswer (write p k) none = tt
answer-IsAnswer (write p k) (some ks) = ground arith
answer-IsAnswer (release p k) none = tt
answer-IsAnswer (release p k) (some ks) = ground arith
answer-IsAnswer (delete k) none = tt
answer-IsAnswer (delete k) (some ks) = ground arith

IsAnswer-Returned : (r : Outcome AccessManagerError (Unit {0})) → IsAnswer r → Returned r
IsAnswer-Returned (err (send_error g)) h = tt
IsAnswer-Returned (err e) h = tt
IsAnswer-Returned (ok a) h = tt
IsAnswer-Returned panic h = h
IsAnswer-Returned exit h = h
IsAnswer-Returned no_fuel h = h

pub answer-Returned : (c : Call) (o : Option KeyState) → Returned (answer c o)
answer-Returned c o = IsAnswer-Returned (answer c o) (answer-IsAnswer c o)

module _ (order : HashOrder) where
  -- Every call of the registry keeps the locks well formed and the channel connected.
  pub perform-IsSound : (c : Call) (m : AccessManager) → IsSound m → IsSound (perform order c m).1
  perform-IsSound c m s =
      Effect-IsSound (key_of c) _ _ m _ s
        (lock_after-IsValid c (m.key_states (key_of c)) (lock-IsValid m (key_of c) s))
        (perform-Refines order m c s).1

  pub run-IsSound : (cs : List Call) (m : AccessManager) → IsSound m → IsSound (run order cs m)
  unfolding run
  run-IsSound [] m s = s
  run-IsSound (c ∷ cs) m s = run-IsSound cs (perform order c m).1 (perform-IsSound c m s)

  pub new-IsSound : IsSound new
  new-IsSound = record { connected = refl; locks = λ k ks e. cc }

  pub run-new-IsSound : (cs : List Call) → IsSound (run order cs new)
  run-new-IsSound cs = run-IsSound cs new new-IsSound

  -- After any calls on a new manager, a call comes back: it does not panic, also not in
  -- `handle_requesting`, and no message to the registry is refused by the channel.
  pub perform-IsAnswer :
      (cs : List Call) (c : Call) → IsAnswer (perform order c (run order cs new)).0
  perform-IsAnswer cs c =
      let m = run order cs new in
      rw (perform-Refines order m c (run-new-IsSound cs)).0 (answer-IsAnswer c _)
