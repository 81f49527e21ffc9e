-- ===== src/AccessManager/ViewTests.antt =====
-- Two managers with the same readers in another order.
use soros.Base.{err, ◌≡◌, refl, List, [], ◌∷◌, ap, Bool-cases, inl, inr, ◌==◌, arith, some}
use soros.AccessManager
use soros.AccessManager.{
  AccessManager, AccessManagerError, KeyState, new, request_access, key_accessed,
}
use soros.AccessManager.Orders.{insertion_order, last_order}
use soros.AccessManager.Calls.{Call, create, read, write, release, delete, run, perform}
use soros.AccessManager.Invariant.{run-new-IsSound}
use soros.AccessManager.ReaderSet.{SameMembers}
use soros.AccessManager.Holding.{IsHeld, run-holds}
use soros.AccessManager.View.{view}
use soros.AccessManager.Representation.{SameViews, replies, replies-SameViews}
use mathlib.Core.Quot

abbrev one_two : List Call
one_two = create 9 0 ∷ read 1 0 ∷ read 2 0 ∷ []

abbrev two_one : List Call
two_one = create 9 0 ∷ read 2 0 ∷ read 1 0 ∷ []

same_readers : SameMembers (2 ∷ 1 ∷ []) (1 ∷ 2 ∷ [])
same_readers a = ground arith

SameViews-readers : SameViews (run insertion_order one_two new) (run last_order two_one new)
unfolding run perform AccessManager.create AccessManager.read view
SameViews-readers = record {
  locks = λ k. elim (Bool-cases (0 == k)) [
    | inl e ↦ rw e (
        ap (λ r. some (record (view (AccessManager.new_key_state 9)) { readers = r }))
          (Quot.sound same_readers))
    | inr e ↦ rw e refl
  ];
  sent = refl;
}

-- Process 3 waits to write until both have left.
abbrev later : List Call
later = write 3 0 ∷ release 1 0 ∷ release 2 0 ∷ []

replies-SameViews_example :
    (replies insertion_order later (run insertion_order one_two new)
      ≡ replies last_order later (run last_order two_one new))
    × SameViews
        (run insertion_order later (run insertion_order one_two new))
        (run last_order later (run last_order two_one new))
replies-SameViews_example =
    replies-SameViews insertion_order last_order later (run insertion_order one_two new)
      (run last_order two_one new) (run-new-IsSound insertion_order one_two)
      (run-new-IsSound last_order two_one) SameViews-readers

-- Process 1 reads key 0 and never releases it.
run-holds_example :
    let m' =
      run insertion_order
        (release 2 0 ∷ write 3 0 ∷ read 4 0 ∷ [])
        (run insertion_order one_two new) in
    IsHeld 1 (m'.key_states 0)
    × ((perform insertion_order (write 5 0) m').0 ≡ err (request_access 5 0))
    × ((perform insertion_order (delete 0) m').0 ≡ err key_accessed)
unfolding run perform AccessManager.create AccessManager.read
run-holds_example =
    run-holds insertion_order 1 0 (release 2 0 ∷ write 3 0 ∷ read 4 0 ∷ [])
      (run insertion_order one_two new) 5 (run-new-IsSound insertion_order one_two)
      (refl, (refl, (refl, tt))) refl
