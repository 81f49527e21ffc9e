-- ===== src/AccessManager/Tests.antt =====
-- The tests of access_manager.rs, and the theorems at concrete inputs.
use soros.Base.{◌≡◌, refl, true, List, [], ◌∷◌, ◌++◌, none, some, All, ok, length, ◌≤◌, ℕ}
use soros.Protocol.{ProcId, RequestType}
use soros.AccessManager.{
  AccessManager, AccessGranted, KeyState, new, request_access, handle_requesting, release_access,
}
use soros.AccessManager
use soros.AccessManager.Orders.{insertion_order}
use soros.AccessManager.Release.{is_free, after_release, let_in}
use soros.AccessManager.Calls.{Call, create, read, write, release, perform, run}
use soros.AccessManager.Refinement.{IsSound, Refines, perform-Refines}
use soros.AccessManager.Invariant.{IsAnswer, run-new-IsSound, perform-IsAnswer}
use soros.AccessManager.Fairness.{queue_log, waits, run-new-queue_log, granted_on}
use soros.AccessManager.Access.{HasAccess, run-new_exclusive, read_alone, let_in-holds}
use soros.AccessManager.Errors.{perform_refused}
use soros.AccessManager.Progress.{work, releases, release_all}

-- `test_fairness`, up to the second release: `a` = 1 reads, `c` = 3 and `b` = 2 wait.
abbrev contended_calls : List Call
contended_calls = create 1 0 ∷ read 1 0 ∷ write 3 0 ∷ read 2 0 ∷ []

abbrev contended : AccessManager
contended = run insertion_order contended_calls new

abbrev contended_key : KeyState
contended_key = record {
  pending_request = (3, RequestType.write) ∷ (2, RequestType.read) ∷ [];
  readers = 1 ∷ [];
  writer = none;
  creator = 1;
}

contended_state : contended.key_states 0 ≡ some contended_key
unfolding run perform AccessManager.create AccessManager.read AccessManager.write
contended_state = refl

abbrev fairness_calls : List Call
fairness_calls = contended_calls ++ release 1 0 ∷ read 4 0 ∷ release 3 0 ∷ []

fairness_grants :
    (run insertion_order fairness_calls new).access_granted.sent
    ≡ (3, 0, RequestType.write, 1) ∷ (2, 0, RequestType.read, 1) ∷ (4, 0, RequestType.read, 1) ∷ []
unfolding run perform AccessManager.create AccessManager.read AccessManager.write
    AccessManager.release AccessManager.handle_requesting AccessManager.handle_front
    AccessManager.grant_reads AccessManager.holder
fairness_grants = refl

fairness_state :
    (run insertion_order fairness_calls new).key_states 0
    ≡ some (record { pending_request = []; readers = 4 ∷ 2 ∷ []; writer = none; creator = 1 })
unfolding run perform AccessManager.create AccessManager.read AccessManager.write
    AccessManager.release AccessManager.handle_requesting AccessManager.handle_front
    AccessManager.grant_reads AccessManager.holder
fairness_state = refl

-- `test_handling_write_before_read`
abbrev writer_first : List Call
writer_first =
    create 0 0 ∷ write 1 0 ∷ read 2 0 ∷ read 3 0 ∷ read 4 0 ∷ write 5 0 ∷ release 1 0 ∷ []

writer_first_grants :
    (run insertion_order writer_first new).access_granted.sent
    ≡ (2, 0, RequestType.read, 0) ∷ (3, 0, RequestType.read, 0) ∷ (4, 0, RequestType.read, 0) ∷ []
unfolding run perform AccessManager.create AccessManager.read AccessManager.write
    AccessManager.release AccessManager.handle_requesting AccessManager.handle_front
    AccessManager.grant_reads AccessManager.holder
writer_first_grants = refl

run-new-IsSound_example : IsSound contended
run-new-IsSound_example = run-new-IsSound insertion_order contended_calls

perform-IsAnswer_example : IsAnswer (perform insertion_order (release 1 0) contended).0
perform-IsAnswer_example = perform-IsAnswer insertion_order contended_calls (release 1 0)

perform-Refines_example : Refines insertion_order (release 1 0) contended (contended.key_states 0)
perform-Refines_example =
    perform-Refines insertion_order contended (release 1 0)
      (run-new-IsSound insertion_order contended_calls)

run-new-queue_log_example :
    queue_log 0 (run insertion_order fairness_calls new)
    ≡ waits insertion_order 0 fairness_calls new
run-new-queue_log_example = run-new-queue_log insertion_order 0 fairness_calls

run-new_exclusive_example : ◌≡◌ {A = ℕ} 5 5
unfolding run perform AccessManager.create AccessManager.write
run-new_exclusive_example =
    run-new_exclusive insertion_order (create 1 0 ∷ write 5 0 ∷ []) 0
      (record { pending_request = []; readers = []; writer = some 5; creator = 1 }) 5 5 refl refl
      refl

read_alone_example :
    (AccessManager.read insertion_order 2 0 (run insertion_order (create 1 0 ∷ []) new)).0 ≡ ok 2
unfolding run perform AccessManager.create
read_alone_example =
    read_alone insertion_order 2 0
      (record { pending_request = []; readers = []; writer = none; creator = 1 })
      (run insertion_order (create 1 0 ∷ []) new) refl refl refl

let_in-holds_example : All (HasAccess (after_release 1 contended_key)) (let_in 1 contended_key)
let_in-holds_example = let_in-holds 1 contended_key

release_all_example :
    (ps : List ProcId) × (length ps ≤ work contended_key)
    × (granted_on 0 (run insertion_order (releases 0 ps) contended).access_granted.sent
        ≡ granted_on 0 contended.access_granted.sent ++ contended_key.pending_request)
    × ((ks' : KeyState) × ((run insertion_order (releases 0 ps) contended).key_states 0 ≡ some ks')
        × (is_free ks' ≡ true))
release_all_example =
    release_all insertion_order 0 contended contended_key
      (run-new-IsSound insertion_order contended_calls) contended_state

-- Process 5 releases a key that it does not hold.
perform_refused_example :
    let m = (perform insertion_order (release 5 0) contended).1 in
    (m.key_states ≡ contended.key_states) × (m.access_granted.sent ≡ contended.access_granted.sent)
unfolding run perform AccessManager.create AccessManager.read AccessManager.write
    AccessManager.release
perform_refused_example =
    perform_refused insertion_order (release 5 0) contended (release_access 5 0)
      (run-new-IsSound insertion_order contended_calls) refl tt
