-- ===== src/AccessManager/Fairness.antt =====
-- First come, first served: the requests that had to wait are granted in the order of arrival, and
-- none is lost.
use soros.Base.{
  ◌≡◌, refl, true, false, List, [], ◌∷◌, ◌++◌, Option, none, some, Outcome, err, arith, append-nil,
  append_assoc, ◌==◌, if◌then◌else◌, Bool-cases, inl, inr, map, ℕ, sym, ◌∙◌, ap, ==_iff,
}
use soros.Base.HashSet.{HashOrder}
use soros.Protocol.{ProcId, KeyId, RequestType}
use soros.AccessManager.{
  AccessGranted, AccessManagerError, AccessManager, KeyState, request_access, new,
}
use soros.AccessManager.Lock.{
  Request, IsValid, leading_readers, after_readers, next_served, served, grants,
}
use soros.AccessManager.Release.{is_free, vacate, after_release, let_in}
use soros.AccessManager.Calls.{
  Call, create, read, write, release, delete, key_of, perform, run, lock_after, told, answer,
}
use soros.AccessManager.Refinement.{IsSound, perform-Refines}
use soros.AccessManager.Invariant.{IsValidLock, lock-IsValid, perform-IsSound, new-IsSound}

-- The requests on `k` among the messages that were sent.
unfoldable pub granted_on : KeyId → List AccessGranted → List Request
granted_on k [] = []
granted_on k ((p, key, t, h) ∷ gs) = if key == k then (p, t) ∷ granted_on k gs else granted_on k gs

abbrev pub waiting : Option KeyState → List Request
waiting none = []
waiting (some ks) = ks.pending_request

-- The request that its answer told to wait.
unfoldable pub told_to_wait : Call → Outcome AccessManagerError (Unit {0}) → List Request
told_to_wait (read p k) (err (request_access q j)) = (p, RequestType.read) ∷ []
told_to_wait (write p k) (err (request_access q j)) = (p, RequestType.write) ∷ []
told_to_wait c r = []

-- The requests on `k` that were told to wait while the calls `cs` ran, in order.
unfoldable pub waits : HashOrder → KeyId → List Call → AccessManager → List Request
waits order k [] m = []
waits order k (c ∷ cs) m =
    (if key_of c == k then told_to_wait c (perform order c m).0 else [])
    ++ waits order k cs (perform order c m).1

granted_on-append :
    (k : KeyId) (xs ys : List AccessGranted)
    → granted_on k (xs ++ ys) ≡ granted_on k xs ++ granted_on k ys
unfolding granted_on
granted_on-append k [] ys = refl
granted_on-append k (g ∷ xs) ys = ground (arith, granted_on-append k xs ys)

granted_on-grants : (k h : ℕ) (reqs : List Request) → granted_on k (grants k h reqs) ≡ reqs
unfolding granted_on
granted_on-grants k h [] = refl
granted_on-grants k h (r ∷ reqs) = ground (arith, granted_on-grants k h reqs)

granted_on-grants_ne :
    (j k h : ℕ) (reqs : List Request) → (k == j) ≡ false → granted_on j (grants k h reqs) ≡ []
unfolding granted_on
granted_on-grants_ne j k h [] ne = refl
granted_on-grants_ne j k h (r ∷ reqs) ne = ground (arith, granted_on-grants_ne j k h reqs ne)

leading-after :
    (ps : List Request)
    → map (λ q. (q, RequestType.read)) (leading_readers ps) ++ after_readers ps ≡ ps
unfolding leading_readers after_readers
leading-after [] = refl
leading-after ((p, RequestType.read) ∷ ps) = ground (arith, leading-after ps)
leading-after ((p, RequestType.write) ∷ ps) = refl
leading-after ((p, RequestType.create) ∷ ps) = refl
leading-after ((p, RequestType.delete) ∷ ps) = refl
leading-after ((p, RequestType.release) ∷ ps) = refl

-- What is served is the front of the queue, and the rest waits on.
pub next_served-append :
    (ps : List Request) (ks : KeyState)
    → ks.pending_request ≡ ps
    → next_served ps ++ (served ps ks).pending_request ≡ ps
unfolding next_served served
next_served-append [] ks e = e
next_served-append ((p, RequestType.read) ∷ ps) ks e = ground (arith, leading-after ps)
next_served-append ((p, RequestType.write) ∷ ps) ks e = refl
next_served-append ((p, RequestType.create) ∷ ps) ks e = e
next_served-append ((p, RequestType.delete) ∷ ps) ks e = e
next_served-append ((p, RequestType.release) ∷ ps) ks e = e

after_release-queue :
    (p : ProcId) (ks : KeyState)
    → let_in p ks ++ (after_release p ks).pending_request ≡ ks.pending_request
unfolding let_in after_release
after_release-queue p ks = ground (arith, next_served-append ks.pending_request (vacate p ks))

-- Nobody waits for a free lock.
pub free-queue : (ks : KeyState) → IsValid ks → is_free ks ≡ true → ks.pending_request ≡ []
free-queue ks v e = ground (arith, v.busy)

-- One lock: what leaves the queue is told, what joins it is queued.
lock_after-queue :
    (c : Call) (o : Option KeyState)
    → IsValidLock o
    → granted_on (key_of c) (told c o) ++ waiting (lock_after c o)
      ≡ waiting o ++ told_to_wait c (answer c o)
unfolding granted_on told lock_after told_to_wait answer
lock_after-queue (create p k) none v = refl
lock_after-queue (create p k) (some ks) v = ground (arith, append-nil ks.pending_request)
lock_after-queue (read p k) none v = refl
lock_after-queue (read p k) (some ks) v = ground (arith, append-nil ks.pending_request)
lock_after-queue (write p k) none v = refl
lock_after-queue (write p k) (some ks) v = ground (arith, append-nil ks.pending_request)
lock_after-queue (release p k) none v = refl
lock_after-queue (release p k) (some ks) v = ground (
  arith,
  append-nil ks.pending_request,
  after_release-queue p ks,
  granted_on-grants k ks.creator (let_in p ks),
)
lock_after-queue (delete k) none v = refl
lock_after-queue (delete k) (some ks) v = elim (Bool-cases (is_free ks)) [
  | inl e ↦ rw e (sym (append-nil ks.pending_request ∙ free-queue ks v e))
  | inr e ↦ rw e (sym (append-nil ks.pending_request))
]

told_elsewhere :
    (c : Call) (o : Option KeyState) (j : KeyId)
    → (key_of c == j) ≡ false
    → granted_on j (told c o) ≡ []
unfolding granted_on told
told_elsewhere (create p k) o j ne = refl
told_elsewhere (read p k) o j ne = refl
told_elsewhere (write p k) o j ne = refl
told_elsewhere (delete k) o j ne = refl
told_elsewhere (release p k) none j ne = refl
told_elsewhere (release p k) (some ks) j ne =
    ground (arith, granted_on-grants_ne j k ks.creator (let_in p ks) ne)

-- Who was told, then who still waits.
abbrev pub queue_log : KeyId → AccessManager → List Request
queue_log k m = granted_on k m.access_granted.sent ++ waiting (m.key_states k)

module _ (order : HashOrder) where
  perform-queue_log_self :
      (c : Call) (m : AccessManager)
      → IsSound m
      → queue_log (key_of c) (perform order c m).1
        ≡ queue_log (key_of c) m ++ told_to_wait c (perform order c m).0
  perform-queue_log_self c m s =
      let k : ℕ = key_of c in
      let (r, f) = perform-Refines order m c s in
      let sent : List AccessGranted = m.access_granted.sent in
      let o : Option KeyState = m.key_states k in
      ground (
        arith,
        f.here,
        granted_on-append k sent (told c o),
        append_assoc (granted_on k sent) (granted_on k (told c o)) (waiting (lock_after c o)),
        lock_after-queue c o (lock-IsValid m k s),
        append_assoc (granted_on k sent) (waiting o) (told_to_wait c (answer c o)),
      )

  perform-queue_log_ne :
      (k : KeyId) (c : Call) (m : AccessManager)
      → IsSound m
      → (key_of c == k) ≡ false
      → queue_log k (perform order c m).1 ≡ queue_log k m ++ []
  perform-queue_log_ne k c m s ne =
      let (r, f) = perform-Refines order m c s in
      let sent : List AccessGranted = m.access_granted.sent in
      let o : Option KeyState = m.key_states (key_of c) in
      ground (
        arith,
        f.others k ne,
        granted_on-append k sent (told c o),
        told_elsewhere c o k ne,
        append-nil (granted_on k sent),
        append-nil (queue_log k m),
      )

  perform-queue_log :
      (k : KeyId) (c : Call) (m : AccessManager)
      → IsSound m
      → queue_log k (perform order c m).1
        ≡ queue_log k m ++ (if key_of c == k then told_to_wait c (perform order c m).0 else [])
  perform-queue_log k c m s = elim (Bool-cases (key_of c == k)) [
    | inl same ↦ rw (same, ← (==_iff (key_of c) k).0 same) (perform-queue_log_self c m s)
    | inr other ↦ rw other (perform-queue_log_ne k c m s other)
  ]

  pub run-queue_log :
      (k : KeyId) (cs : List Call) (m : AccessManager)
      → IsSound m
      → queue_log k (run order cs m) ≡ queue_log k m ++ waits order k cs m
  unfolding run waits
  run-queue_log k [] m s = sym (append-nil (queue_log k m))
  run-queue_log k (c ∷ cs) m s =
      run-queue_log k cs (perform order c m).1 (perform-IsSound order c m s)
      ∙ (ap (λ l. l ++ waits order k cs (perform order c m).1) (perform-queue_log k c m s)
          ∙ append_assoc (queue_log k m) _ (waits order k cs (perform order c m).1))

  -- After any calls on a new manager: the requests on a key that were told to wait are, in the
  -- order in which they came, those that have been granted since and then those that still wait.
  pub run-new-queue_log :
      (k : KeyId) (cs : List Call) → queue_log k (run order cs new) ≡ waits order k cs new
  unfolding granted_on
  run-new-queue_log k cs = run-queue_log k cs new (new-IsSound order)
