-- ===== src/AccessManager/UnitTests.antt =====
-- The unit tests of access_manager.rs. They hold for every order in which a set is iterated.
use soros.Base.{
  ◌≡◌, refl, Bool, true, false, ◌&&◌, List, [], ◌∷◌, Option, none, some, ◌==◌, if◌then◌else◌,
  is_empty, ok, err, panic, exit, no_fuel, pure, crash, ◌>>=◌, ◌>>◌,
}
use soros.Base.HashSet
use soros.Base.HashSet.{HashOrder}
use soros.Protocol.{ProcId, KeyId, RequestType}
use soros.Channel.{try_iter}
use soros.AccessManager
use soros.AccessManager.{AccessManager, AccessGranted, KeyState, M, new, get_key_state}

-- `assert!(e)`
abbrev assert : Bool → M (Unit {0})
assert b = if b then pure tt else crash

-- `assert!(call.is_err())`
abbrev assert_err : {A : Type 0} → M A → M (Unit {0})
assert_err call m =
    let (r, m') = call m in
    (elim r [ err e ↦ ok tt | ok a ↦ panic | panic ↦ panic | exit ↦ exit | no_fuel ↦ no_fuel ], m')

-- `call?` where the value is not used
abbrev run_call : {A : Type 0} → M A → M (Unit {0})
run_call call = call >>= λ _. pure tt

-- `==` of request types, of what waits, of sets and of grants
abbrev same_type : RequestType → RequestType → Bool
same_type RequestType.create RequestType.create = true
same_type RequestType.delete RequestType.delete = true
same_type RequestType.read RequestType.read = true
same_type RequestType.write RequestType.write = true
same_type RequestType.release RequestType.release = true
same_type s t = false

abbrev same_requests : List (ProcId × RequestType) → List (ProcId × RequestType) → Bool
same_requests [] [] = true
same_requests ((p, s) ∷ xs) ((q, t) ∷ ys) = p == q && same_type s t && same_requests xs ys
same_requests xs ys = false

abbrev subset : List ProcId → List ProcId → Bool
subset [] ys = true
subset (x ∷ xs) ys = HashSet.contains x ys && subset xs ys

abbrev same_set : List ProcId → List ProcId → Bool
same_set xs ys = subset xs ys && subset ys xs

abbrev same_grant : AccessGranted → AccessGranted → Bool
same_grant (p, k, s, h) (q, j, t, i) = p == q && k == j && same_type s t && h == i

abbrev same_option : Option ProcId → Option ProcId → Bool
same_option none none = true
same_option (some p) (some q) = p == q
same_option none (some q) = false
same_option (some p) none = false

-- `access_granted_rx.try_recv().unwrap()`
abbrev recv : M AccessGranted
recv m = elim m.access_granted.sent [
  | [] ↦ (panic, m)
  | g ∷ gs ↦ (ok g, record m { access_granted = record m.access_granted { sent = gs } })
]

-- `assert_grant!`
abbrev assert_grant : ProcId → KeyId → RequestType → ProcId → M (Unit {0})
assert_grant p k t h = do g ← recv; assert (same_grant g (p, k, t, h))

-- `assert_eq!(manager.get_key_state(k)?.pending_request, requests)`
abbrev assert_pending : KeyId → List (ProcId × RequestType) → M (Unit {0})
assert_pending k requests = do
  ks ← get_key_state k
  assert (same_requests ks.pending_request requests)

abbrev assert_readers : KeyId → List ProcId → M (Unit {0})
assert_readers k readers = do ks ← get_key_state k; assert (same_set ks.readers readers)

abbrev assert_writer : KeyId → Option ProcId → M (Unit {0})
assert_writer k writer = do ks ← get_key_state k; assert (same_option ks.writer writer)

abbrev assert_creator : KeyId → ProcId → M (Unit {0})
assert_creator k p = do ks ← get_key_state k; assert (ks.creator == p)

unfoldable test_create : M (Unit {0})
test_create = do
  assert_err (get_key_state 0)
  AccessManager.create 2 0
  assert_creator 0 2
  assert_err (AccessManager.create 0 0)

unfoldable test_delete : M (Unit {0})
test_delete = do
  assert_err (AccessManager.delete 0)
  AccessManager.create 0 0
  AccessManager.delete 0
  assert_err (get_key_state 0)

module _ (order : HashOrder) where
  unfoldable test_read : M (Unit {0})
  test_read = do
    assert_err (AccessManager.read order 1 0)
    AccessManager.create 0 0
    run_call (AccessManager.read order 1 0)
    run_call (AccessManager.read order 2 0)
    run_call (AccessManager.read order 3 0)
    assert_err (AccessManager.delete 0)
    assert_pending 0 []
    assert_readers 0 (1 ∷ 2 ∷ 3 ∷ [])

  unfoldable test_write : M (Unit {0})
  test_write = do
    assert_err (AccessManager.write 1 0)
    AccessManager.create 0 0
    AccessManager.write 1 0
    assert_err (AccessManager.delete 0)
    assert_err (AccessManager.write 2 0)
    assert_pending 0 ((2, RequestType.write) ∷ [])
    assert_writer 0 (some 1)

  unfoldable test_read_before_write : M (Unit {0})
  test_read_before_write = do
    AccessManager.create 0 0
    run_call (AccessManager.read order 1 0)
    run_call (AccessManager.read order 2 0)
    assert_err (AccessManager.write 3 0)
    assert_err (AccessManager.read order 4 0)
    assert_pending 0 ((3, RequestType.write) ∷ (4, RequestType.read) ∷ [])

  unfoldable test_write_before_read : M (Unit {0})
  test_write_before_read = do
    AccessManager.create 0 0
    AccessManager.write 1 0
    assert_err (AccessManager.read order 2 0)
    assert_err (AccessManager.write 3 0)
    assert_pending 0 ((2, RequestType.read) ∷ (3, RequestType.write) ∷ [])

  unfoldable test_release_read : M (Unit {0})
  test_release_read = do
    AccessManager.create 0 0
    assert_err (AccessManager.release order 1 0)
    run_call (AccessManager.read order 1 0)
    assert_err (AccessManager.release order 2 0)
    AccessManager.release order 1 0
    assert_readers 0 []

  unfoldable test_release_write : M (Unit {0})
  test_release_write = do
    AccessManager.create 0 0
    assert_err (AccessManager.release order 1 0)
    AccessManager.write 1 0
    assert_err (AccessManager.release order 2 0)
    AccessManager.release order 1 0
    assert_writer 0 none

  unfoldable test_handling_read_before_write : M (Unit {0})
  test_handling_read_before_write = do
    AccessManager.create 0 0
    run_call (AccessManager.read order 1 0)
    assert_err (AccessManager.write 2 0)
    assert_err (AccessManager.read order 3 0)
    AccessManager.release order 1 0
    assert_grant 2 0 RequestType.write 0
    AccessManager.release order 2 0
    assert_grant 3 0 RequestType.read 0

  -- `assert_eq!(manager.access_granted_rx.try_iter().count(), 0)`
  abbrev assert_quiet : M (Unit {0})
  assert_quiet m =
      let (gs, ch) = try_iter m.access_granted in
      assert (is_empty gs) (record m { access_granted = ch })

  unfoldable test_handling_write_before_read : M (Unit {0})
  test_handling_write_before_read = do
    AccessManager.create 0 0
    AccessManager.write 1 0
    assert_err (AccessManager.read order 2 0)
    assert_err (AccessManager.read order 3 0)
    assert_err (AccessManager.read order 4 0)
    assert_err (AccessManager.write 5 0)
    AccessManager.release order 1 0
    assert_grant 2 0 RequestType.read 0
    assert_grant 3 0 RequestType.read 0
    assert_grant 4 0 RequestType.read 0
    AccessManager.release order 2 0
    AccessManager.release order 3 0
    assert_quiet
    AccessManager.release order 4 0
    assert_grant 5 0 RequestType.write 0

  -- `x` = 0, `a` = 1, `b` = 2, `c` = 3, `d` = 4
  unfoldable test_fairness : M (Unit {0})
  test_fairness = do
    AccessManager.create 1 0
    assert_creator 0 1
    run_call (AccessManager.read order 1 0)
    assert_err (AccessManager.write 3 0)
    assert_err (AccessManager.read order 2 0)
    assert_pending 0 ((3, RequestType.write) ∷ (2, RequestType.read) ∷ [])
    AccessManager.release order 1 0
    assert_grant 3 0 RequestType.write 1
    assert_pending 0 ((2, RequestType.read) ∷ [])
    assert_err (AccessManager.read order 4 0)
    assert_pending 0 ((2, RequestType.read) ∷ (4, RequestType.read) ∷ [])
    AccessManager.release order 3 0
    assert_grant 2 0 RequestType.read 1
    assert_grant 4 0 RequestType.read 1
    assert_pending 0 []
    assert_readers 0 (2 ∷ 4 ∷ [])
    assert_writer 0 none

  -- All unit tests pass.
  abbrev Passes : M (Unit {0}) → Type 0
  Passes test = (test new).0 ≡ ok tt

  unit_tests_pass :
      Passes test_create
      × Passes test_delete
      × Passes test_read
      × Passes test_write
      × Passes test_read_before_write
      × Passes test_write_before_read
      × Passes test_release_read
      × Passes test_release_write
      × Passes test_handling_read_before_write
      × Passes test_handling_write_before_read
      × Passes test_fairness
  unfolding test_create test_delete test_read test_write test_read_before_write
      test_write_before_read test_release_read test_release_write test_handling_read_before_write
      test_handling_write_before_read test_fairness AccessManager.create AccessManager.delete
      AccessManager.read AccessManager.write AccessManager.release AccessManager.handle_requesting
      AccessManager.handle_front AccessManager.grant_reads AccessManager.holder
  unit_tests_pass = (refl, refl, refl, refl, refl, refl, refl, refl, refl, refl, refl)
