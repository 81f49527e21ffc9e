-- ===== src/AccessManager/Progress.antt =====
-- No request waits for ever: when the holders release, everybody who waits gets access in turn.
use soros.Base.{
  ◌&&◌, not, is_empty, append-nil, ℕ, zero, suc, ◌+◌, ◌≤◌, ◌<◌, ◌≡◌, refl, true, false, List, [],
  ◌∷◌, ◌++◌, none, some, arith, ◌||◌, map, length, Option, if◌then◌else◌, Bool-cases, inl, inr,
  is_some,
}
use soros.Base.HashSet
use soros.Base.HashSet.{HashOrder}
use soros.Protocol.{ProcId, KeyId, RequestType}
use soros.AccessManager.{AccessManager, KeyState, is_writer, not}
use soros.AccessManager.Lock.{Request, IsValid, leading_readers, after_readers, served, insert_all}
use soros.AccessManager.Release.{holds, is_free, vacate, after_release}
use soros.AccessManager.Invariant.{run-IsSound}
use soros.AccessManager.Calls.{Call, release, perform, run, lock_after}
use soros.AccessManager.Fairness.{waits, told_to_wait, granted_on, run-queue_log, free-queue}
use soros.AccessManager.Refinement.{IsSound, perform-Refines}
use soros.AccessManager.Invariant.{perform-IsSound}

-- Twice the queue, and who holds the lock.
abbrev pub work : KeyState → ℕ
work ks =
    length ks.pending_request
    + length ks.pending_request
    + (if is_some ks.writer then 1 else 0)
    + length ks.readers

length-insert : (p : ProcId) (rs : List ProcId) → length (HashSet.insert p rs) ≤ length rs + 1
length-insert p rs = ground arith

length-insert_all : (ps rs : List ProcId) → length (insert_all ps rs) ≤ length rs + length ps
length-insert_all [] rs = omega arith
length-insert_all (p ∷ ps) rs =
    omega (arith, length-insert_all ps (HashSet.insert p rs), length-insert p rs)

length-leading :
    (ps : List Request) → length (leading_readers ps) + length (after_readers ps) ≡ length ps
unfolding leading_readers after_readers
length-leading [] = refl
length-leading ((p, RequestType.read) ∷ ps) = omega (arith, length-leading ps)
length-leading ((p, RequestType.write) ∷ ps) = omega arith
length-leading ((p, RequestType.create) ∷ ps) = omega arith
length-leading ((p, RequestType.delete) ∷ ps) = omega arith
length-leading ((p, RequestType.release) ∷ ps) = omega arith

length-remove :
    (p : ProcId) (rs : List ProcId)
    → HashSet.contains p rs ≡ true
    → length (HashSet.remove p rs) + 1 ≡ length rs
length-remove p [] h = cc
length-remove p (r ∷ rs) h = ground (arith, length-remove p rs)

-- To serve a free lock makes no work.
work-served :
    (ps : List Request) (ks : KeyState)
    → ks.pending_request ≡ ps
    → ks.writer ≡ none
    → ks.readers ≡ []
    → work (served ps ks) ≤ length ps + length ps
unfolding served
work-served [] ks e w r = ground arith
work-served ((p, RequestType.write) ∷ ps) ks e w r = ground arith
work-served ((p, RequestType.read) ∷ ps) ks e w r =
    ground (
      arith,
      length-insert_all (leading_readers ps) (HashSet.insert p ks.readers),
      length-leading ps,
    )
work-served ((p, RequestType.create) ∷ ps) ks e w r = ground arith
work-served ((p, RequestType.delete) ∷ ps) ks e w r = ground arith
work-served ((p, RequestType.release) ∷ ps) ks e w r = ground arith

work-vacate :
    (p : ProcId) (ks : KeyState) → IsValid ks → holds p ks ≡ true → work (vacate p ks) < work ks
work-vacate p ks v h = ground (arith, length-remove p ks.readers, v.exclusive)

work-after_release :
    (p : ProcId) (ks : KeyState)
    → IsValid ks
    → holds p ks ≡ true
    → work (after_release p ks) < work ks
unfolding after_release
work-after_release p ks v h = elim (Bool-cases (is_free (vacate p ks))) [
  | inl e ↦ rw e (
      ground (
        arith,
        work-served ks.pending_request (vacate p ks) refl (ground arith) (ground arith),
        work-vacate p ks v h,
      ))
  | inr e ↦ rw e (work-vacate p ks v h)
]

-- Somebody who has access.
holder_of :
    (w : Option ProcId) (rs : List ProcId)
    → (not (is_some w) && is_empty rs) ≡ false
    → (p : ProcId) × ((is_writer p w || HashSet.contains p rs) ≡ true)
holder_of (some w) rs h = (w, ground arith)
holder_of none [] h = cc
holder_of none (r ∷ rs) h = (r, ground arith)

unfoldable pub releases : KeyId → List ProcId → List Call
releases k = map (λ p. release p k)

waits-releases :
    (order : HashOrder) (k : KeyId) (ps : List ProcId) (m : AccessManager)
    → waits order k (releases k ps) m ≡ []
unfolding waits releases told_to_wait
waits-releases order k [] m = refl
waits-releases order k (p ∷ ps) m =
    ground (arith, waits-releases order k ps (perform order (release p k) m).1)

-- The calls `cs` on `m` are releases of `k`, at most `n` of them, and leave its lock free.
abbrev pub Frees : HashOrder → KeyId → ℕ → AccessManager → List ProcId → Type 0
Frees order k n m ps =
    (length ps ≤ n)
    × ((ks : KeyState) × ((run order (releases k ps) m).key_states k ≡ some ks)
        × (is_free ks ≡ true))

module _ (order : HashOrder) (k : KeyId) where
  release_step :
      (m : AccessManager) (ks : KeyState) (p : ProcId)
      → IsSound m
      → m.key_states k ≡ some ks
      → holds p ks ≡ true
      → (perform order (release p k) m).1.key_states k ≡ some (after_release p ks)
  unfolding lock_after
  release_step m ks p s e h =
      let (r, f) = perform-Refines order m (release p k) s in ground (arith, f.here)

  drain :
      (n : ℕ) (m : AccessManager) (ks : KeyState)
      → IsSound m
      → m.key_states k ≡ some ks
      → work ks ≤ n
      → (ps : List ProcId) × Frees order k n m ps
  unfolding run releases
  drain zero m ks s e b = ([], (omega arith, (ks, e, ground arith)))
  drain (suc n) m ks s e b = elim (Bool-cases (is_free ks)) [
    | inl f ↦ ([], (omega arith, (ks, e, f)))
    | inr nf ↦
        let (p, h) = holder_of ks.writer ks.readers nf in
        let v = s.locks k ks e in
        let (ps, (short, (ks', e', free))) =
          drain n (perform order (release p k) m).1 (after_release p ks)
            (perform-IsSound order (release p k) m s) (release_step m ks p s e h)
            (omega (arith, work-after_release p ks v h)) in
        (p ∷ ps, (omega arith, (ks', e', free)))
  ]

  -- Whatever waits for a key gets access: some releases, at most two for each waiting request and
  -- one for each holder, leave the key free, and have granted the whole queue in its order.
  pub release_all :
      (m : AccessManager) (ks : KeyState)
      → IsSound m
      → m.key_states k ≡ some ks
      → (ps : List ProcId) × (length ps ≤ work ks)
        × (granted_on k (run order (releases k ps) m).access_granted.sent
            ≡ granted_on k m.access_granted.sent ++ ks.pending_request)
        × ((ks' : KeyState) × ((run order (releases k ps) m).key_states k ≡ some ks')
            × (is_free ks' ≡ true))
  release_all m ks s e =
      let (ps, (short, (ks', e', free))) = drain (work ks) m ks s e (omega arith) in
      let m' : AccessManager = run order (releases k ps) m in
      let v' = (run-IsSound order (releases k ps) m s).locks k ks' e' in
      (
        ps,
        short,
        ground (
          arith,
          run-queue_log order k (releases k ps) m s,
          waits-releases order k ps m,
          append-nil (granted_on k m'.access_granted.sent),
          append-nil (granted_on k m.access_granted.sent ++ ks.pending_request),
          free-queue ks' v' free,
        ),
        (ks', e', free),
      )
