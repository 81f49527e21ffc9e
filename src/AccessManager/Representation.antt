-- ===== src/AccessManager/Representation.antt =====
-- The manager seen through the views of its locks: which list holds a set of readers, and in which
-- order a set is iterated, makes no difference.
use soros.Base.{
  ◌≡◌, refl, sym, subst, ◌∙◌, ap, ap₂, List, [], ◌∷◌, ◌++◌, Option, none, some, Outcome,
  if◌then◌else◌, arith, inl, inr, Bool-cases, ◌==◌, ==_iff,
}
use soros.Base.HashSet.{HashOrder, insert}
use soros.Protocol.{ProcId, KeyId, RequestType}
use soros.AccessManager.{AccessManager, AccessManagerError, KeyState}
use soros.AccessManager.Lock.{
  Request, IsValid, leading_readers, after_readers, next_served, served, insert_all,
}
use soros.AccessManager.Release.{vacate, is_free, holds, after_release, let_in}
use soros.AccessManager.Calls.{
  run, Call, create, read, write, release, delete, key_of, perform, lock_after, answer, told,
  read_waits,
}
use soros.AccessManager.Refinement.{IsSound, perform-Refines}
use soros.AccessManager.Invariant.{IsValidLock, lock-IsValid, perform-IsSound}
use soros.AccessManager.ReaderSet.{set_of, mem, add, is_empty_set, remove-discard}
use soros.AccessManager.View.{
  view, view_of, view_free, view_holds, view_vacate, add_all, view_served, view_release,
  view_let_in, view_after, view_told, view_answer,
}

view-free : (ks : KeyState) → view_free (view ks) ≡ is_free ks
unfolding view view_free is_empty_set
view-free ks = refl

view-holds : (p : ProcId) (ks : KeyState) → view_holds p (view ks) ≡ holds p ks
unfolding view view_holds mem
view-holds p ks = refl

view-vacate :
    (p : ProcId) (ks : KeyState) → IsValid ks → view (vacate p ks) ≡ view_vacate p (view ks)
unfolding view view_vacate
view-vacate p ks v =
    ap (λ r. record (view (vacate p ks)) { readers = r }) (remove-discard p ks.readers v.distinct)

add_all-insert_all : (ps xs : List ProcId) → set_of (insert_all ps xs) ≡ add_all ps (set_of xs)
unfolding add
add_all-insert_all [] xs = refl
add_all-insert_all (p ∷ ps) xs = add_all-insert_all ps (insert p xs)

view-served :
    (pending : List Request) (ks : KeyState)
    → view (served pending ks) ≡ view_served pending (view ks)
unfolding view view_served served add
view-served [] ks = refl
view-served ((p, RequestType.write) ∷ rest) ks = refl
view-served ((p, RequestType.read) ∷ rest) ks =
    ap (λ r. record (view (record ks { pending_request = after_readers rest })) { readers = r })
      (add_all-insert_all (leading_readers rest) (insert p ks.readers))
view-served ((p, RequestType.create) ∷ rest) ks = refl
view-served ((p, RequestType.delete) ∷ rest) ks = refl
view-served ((p, RequestType.release) ∷ rest) ks = refl

view-after_release :
    (p : ProcId) (ks : KeyState) → IsValid ks → view (after_release p ks) ≡ view_release p (view ks)
unfolding view_release after_release view
view-after_release p ks v =
    subst
      (λ left.
        view (after_release p ks)
        ≡ (if view_free left then view_served ks.pending_request left else left))
      (view-vacate p ks v)
      (elim (Bool-cases (is_free (vacate p ks))) [
        | inl e ↦
            ground (arith, e, view-free (vacate p ks), view-served ks.pending_request (vacate p ks))
        | inr e ↦ ground (arith, e, view-free (vacate p ks))
      ])

view-let_in : (p : ProcId) (ks : KeyState) → IsValid ks → let_in p ks ≡ view_let_in p (view ks)
unfolding view_let_in let_in view
view-let_in p ks v =
    subst (λ left. let_in p ks ≡ (if view_free left then next_served ks.pending_request else []))
      (view-vacate p ks v) (ground (arith, view-free (vacate p ks)))

lock_after-View :
    (c : Call) (o : Option KeyState)
    → IsValidLock o
    → view_of (lock_after c o) ≡ view_after c (view_of o)
unfolding lock_after view_after view add
lock_after-View (create p k) none v = refl
lock_after-View (create p k) (some ks) v = refl
lock_after-View (read p k) none v = refl
lock_after-View (read p k) (some ks) v = elim (Bool-cases (read_waits ks)) [
  | inl e ↦ rw e refl
  | inr e ↦ rw e refl
]
lock_after-View (write p k) none v = refl
lock_after-View (write p k) (some ks) v =
    rw (view-free ks) (elim (Bool-cases (is_free ks)) [ inl e ↦ rw e refl | inr e ↦ rw e refl ])
lock_after-View (release p k) none v = refl
lock_after-View (release p k) (some ks) v = rw (view-holds p ks) (elim (Bool-cases (holds p ks)) [
  | inl e ↦ rw e (ap some (view-after_release p ks v))
  | inr e ↦ rw e refl
])
lock_after-View (delete k) none v = refl
lock_after-View (delete k) (some ks) v =
    rw (view-free ks) (elim (Bool-cases (is_free ks)) [ inl e ↦ rw e refl | inr e ↦ rw e refl ])

answer-View : (c : Call) (o : Option KeyState) → answer c o ≡ view_answer c (view_of o)
unfolding answer view_answer view
answer-View (create p k) none = refl
answer-View (create p k) (some ks) = refl
answer-View (read p k) none = refl
answer-View (read p k) (some ks) = refl
answer-View (write p k) none = refl
answer-View (write p k) (some ks) = rw (view-free ks) refl
answer-View (release p k) none = refl
answer-View (release p k) (some ks) = rw (view-holds p ks) refl
answer-View (delete k) none = refl
answer-View (delete k) (some ks) = rw (view-free ks) refl

told-View : (c : Call) (o : Option KeyState) → IsValidLock o → told c o ≡ view_told c (view_of o)
unfolding told view_told view
told-View (create p k) o v = refl
told-View (read p k) o v = refl
told-View (write p k) o v = refl
told-View (delete k) o v = refl
told-View (release p k) none v = refl
told-View (release p k) (some ks) v = rw (view-holds p ks, view-let_in p ks v) refl

-- How some calls end, one after the other: the holder that a granted read names is left out.
unfoldable pub replies :
    HashOrder → List Call → AccessManager → List (Outcome AccessManagerError (Unit {0}))
replies order [] m = []
replies order (c ∷ cs) m = let (r, m') = perform order c m in r ∷ replies order cs m'

-- The same locks, with the readers as sets, and the same messages.
pub record SameViews (m n : AccessManager) : Type 0 where
  pub locks : (k : KeyId) → view_of (m.key_states k) ≡ view_of (n.key_states k)
  pub sent : m.access_granted.sent ≡ n.access_granted.sent

module _ (first second : HashOrder) where
  perform-SameViews :
      (c : Call) (m n : AccessManager)
      → IsSound m
      → IsSound n
      → SameViews m n
      → ((perform first c m).0 ≡ (perform second c n).0)
        × SameViews (perform first c m).1 (perform second c n).1
  perform-SameViews c m n sm sn same =
      let k = key_of c in
      let (rm, fm) = perform-Refines first m c sm in
      let (rn, fn) = perform-Refines second n c sn in
      let vm = lock-IsValid m k sm in
      let vn = lock-IsValid n k sn in
      (
        rm
            ∙ (answer-View c (m.key_states k)
                ∙ (ap (view_answer c) (same.locks k)
                    ∙ (sym (answer-View c (n.key_states k)) ∙ sym rn))),
        record {
          locks = λ j. elim (Bool-cases (k == j)) [
            | inl here ↦
                subst
                  (λ i.
                    view_of ((perform first c m).1.key_states i)
                    ≡ view_of ((perform second c n).1.key_states i))
                  ((==_iff k j).0 here)
                  (ap view_of fm.here
                    ∙ (lock_after-View c (m.key_states k) vm
                        ∙ (ap (view_after c) (same.locks k)
                            ∙ (sym (lock_after-View c (n.key_states k) vn)
                                ∙ sym (ap view_of fn.here)))))
            | inr other ↦
                ap view_of (fm.others j other)
                ∙ (same.locks j ∙ sym (ap view_of (fn.others j other)))
          ];
          sent =
              fm.sent
              ∙ (ap₂ (λ x y. x ++ y) same.sent
                    (told-View c (m.key_states k) vm
                      ∙ (ap (view_told c) (same.locks k) ∙ sym (told-View c (n.key_states k) vn)))
                  ∙ sym fn.sent);
        },
      )

  -- Two sound managers whose locks differ at most in the order in which they hold their readers, and
  -- that iterate over sets each in its own way, answer any calls alike, but for which of the readers the
  -- answer to a read names, which depends on that order; they send the same messages, and have again
  -- the same locks up to that order.
  pub replies-SameViews :
      (cs : List Call) (m n : AccessManager)
      → IsSound m
      → IsSound n
      → SameViews m n
      → (replies first cs m ≡ replies second cs n) × SameViews (run first cs m) (run second cs n)
  unfolding replies run
  replies-SameViews [] m n sm sn same = (refl, same)
  replies-SameViews (c ∷ cs) m n sm sn same =
      let (r, next) = perform-SameViews c m n sm sn same in
      let (rs, last) =
        replies-SameViews cs (perform first c m).1 (perform second c n).1
          (perform-IsSound first c m sm) (perform-IsSound second c n sn) next in
      (ap₂ (λ x xs. x ∷ xs) r rs, last)
