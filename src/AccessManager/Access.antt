-- ===== src/AccessManager/Access.antt =====
-- Who has access: one writer alone or any number of readers, and everybody who was told so.
use soros.Base.{◌≡◌, true, List, [], ◌∷◌, some, All, ok, arith, map, Bool-cases, inl, inr}
use soros.Base.HashSet
use soros.Base.HashSet.{HashOrder, contains-insert}
use soros.Protocol.{ProcId, KeyId, RequestType}
use soros.AccessManager.{AccessManager, KeyState, new, is_writer}
use soros.AccessManager
use soros.AccessManager.Lock.{Request, leading_readers, next_served, served, insert_all}
use soros.AccessManager.Release.{holds, is_free, vacate, after_release, let_in}
use soros.AccessManager.Calls.{Call, run}
use soros.AccessManager.Invariant.{run-new-IsSound}

module _ (order : HashOrder) where
  -- After any calls on a new manager: if a process has write access to a key, no other process has
  -- access to it.
  pub run-new_exclusive :
      (cs : List Call) (k : KeyId) (ks : KeyState) (w p : ProcId)
      → (run order cs new).key_states k ≡ some ks
      → ks.writer ≡ some w
      → holds p ks ≡ true
      → p ≡ w
  run-new_exclusive cs k ks w p e writes held =
      let v = (run-new-IsSound order cs).locks k ks e in ground (arith, v.exclusive)

  first_alone : (p : ProcId) → order.first p [] ≡ p
  first_alone p = ground (arith, order.first-contains p [])

  -- The first reader of a key that nobody accesses is told that it is itself the holder of the
  -- data, whoever created the key.
  pub read_alone :
      (p : ProcId) (k : KeyId) (ks : KeyState) (m : AccessManager)
      → m.key_states k ≡ some ks
      → is_free ks ≡ true
      → ks.pending_request ≡ []
      → (AccessManager.read order p k m).0 ≡ ok p
  unfolding AccessManager.read AccessManager.holder
  read_alone p k ks m e free q = ground (arith, first_alone p)

contains-insert_all :
    (p : ProcId) (ps rs : List ProcId)
    → HashSet.contains p rs ≡ true
    → HashSet.contains p (insert_all ps rs) ≡ true
contains-insert_all p [] rs h = h
contains-insert_all p (q ∷ ps) rs h =
    contains-insert_all p ps (HashSet.insert q rs) (ground (arith, contains-insert q p rs))

abbrev pub IsReader : List ProcId → Request → Type 0
IsReader rs req = HashSet.contains req.0 rs ≡ true

abbrev pub HasAccess : KeyState → Request → Type 0
HasAccess ks req = holds req.0 ks ≡ true

insert_all-All :
    (ps rs : List ProcId) → All (IsReader (insert_all ps rs)) (map (λ q. (q, RequestType.read)) ps)
insert_all-All [] rs = tt
insert_all-All (p ∷ ps) rs = (
  contains-insert_all p ps (HashSet.insert p rs) (ground (arith, contains-insert p p rs)),
  insert_all-All ps (HashSet.insert p rs),
)

All-mono {ℓ κ} :
    {A : Type 0} (P : A → Type ℓ) (Q : A → Type κ) (xs : List A)
    → ((a : A) → P a → Q a)
    → All P xs
    → All Q xs
All-mono P Q [] f h = tt
All-mono P Q (x ∷ xs) f h = (f x h.0, All-mono P Q xs f h.1)

reader-holds : (ks : KeyState) (req : Request) → IsReader ks.readers req → HasAccess ks req
reader-holds ks req h = ground arith

served-holds : (ps : List Request) (ks : KeyState) → All (HasAccess (served ps ks)) (next_served ps)
unfolding served next_served
served-holds [] ks = tt
served-holds ((p, RequestType.write) ∷ ps) ks = (ground arith, tt)
served-holds ((p, RequestType.read) ∷ ps) ks =
    let ks' : KeyState = served ((p, RequestType.read) ∷ ps) ks in
    All-mono (IsReader ks'.readers) (HasAccess ks') (next_served ((p, RequestType.read) ∷ ps))
      (reader-holds ks') (insert_all-All (p ∷ leading_readers ps) ks.readers)
served-holds ((p, RequestType.create) ∷ ps) ks = tt
served-holds ((p, RequestType.delete) ∷ ps) ks = tt
served-holds ((p, RequestType.release) ∷ ps) ks = tt

-- A release tells only processes that have access once it is done.
pub let_in-holds : (p : ProcId) (ks : KeyState) → All (HasAccess (after_release p ks)) (let_in p ks)
unfolding let_in after_release
let_in-holds p ks = elim (Bool-cases (is_free (vacate p ks))) [
  | inl e ↦ rw e (served-holds ks.pending_request (vacate p ks))
  | inr e ↦ rw e tt
]
