-- ===== src/AccessManager/Lock.antt =====
-- What a key's lock looks like between two calls, and the order of its queue.
use soros.Base.{◌≡◌, ◌≢◌, ◌⊎◌, Bool, true, false, List, [], ◌∷◌, map, none, some, All}
use soros.Base.HashSet.{Distinct, insert}
use soros.Protocol.{ProcId, KeyId, RequestType}
use soros.AccessManager.{AccessGranted, KeyState}

abbrev pub Request : Type 0
Request = ProcId × RequestType

abbrev pub IsAccess : Request → Type 0
IsAccess (p, RequestType.read) = Unit
IsAccess (p, RequestType.write) = Unit
IsAccess (p, RequestType.create) = ⊥
IsAccess (p, RequestType.delete) = ⊥
IsAccess (p, RequestType.release) = ⊥

abbrev pub is_read_front : List Request → Bool
is_read_front [] = false
is_read_front ((p, RequestType.read) ∷ rest) = true
is_read_front ((p, RequestType.write) ∷ rest) = false
is_read_front ((p, RequestType.create) ∷ rest) = false
is_read_front ((p, RequestType.delete) ∷ rest) = false
is_read_front ((p, RequestType.release) ∷ rest) = false

-- `exclusive`: a writer is alone. `busy`: whoever waits waits for a holder. `front`: a read waits at
-- the front only behind a writer. `access`: only reads and writes wait. `distinct`: readers is a set.
pub record IsValid (ks : KeyState) : Type 0 where
  pub exclusive : (ks.writer ≡ none) ⊎ (ks.readers ≡ [])
  pub busy : (ks.pending_request ≡ []) ⊎ ((ks.writer ≢ none) ⊎ (ks.readers ≢ []))
  pub front : (ks.writer ≢ none) ⊎ (is_read_front ks.pending_request ≡ false)
  pub access : All IsAccess ks.pending_request
  pub distinct : Distinct ks.readers

-- The reads at the front of a queue, and what waits behind them.
unfoldable pub leading_readers : List Request → List ProcId
leading_readers [] = []
leading_readers ((p, RequestType.read) ∷ rest) = p ∷ leading_readers rest
leading_readers (other ∷ rest) = []

unfoldable pub after_readers : List Request → List Request
after_readers [] = []
after_readers ((p, RequestType.read) ∷ rest) = after_readers rest
after_readers (other ∷ rest) = other ∷ rest

abbrev pub insert_all : List ProcId → List ProcId → List ProcId
insert_all [] readers = readers
insert_all (p ∷ ps) readers = insert_all ps (insert p readers)

-- The requests that a free lock with queue `pending` serves next.
unfoldable pub next_served : List Request → List Request
unfolding leading_readers
next_served [] = []
next_served ((p, RequestType.write) ∷ rest) = (p, RequestType.write) ∷ []
next_served ((p, RequestType.read) ∷ rest) =
    map (λ q. (q, RequestType.read)) (leading_readers ((p, RequestType.read) ∷ rest))
next_served (other ∷ rest) = []

-- The lock that they leave.
unfoldable pub served : List Request → KeyState → KeyState
unfolding leading_readers after_readers
served [] ks = ks
served ((p, RequestType.write) ∷ rest) ks = record ks { pending_request = rest; writer = some p }
served ((p, RequestType.read) ∷ rest) ks = record ks {
  pending_request = after_readers rest;
  readers = insert_all (leading_readers rest) (insert p ks.readers);
}
served (other ∷ rest) ks = ks

-- The messages that tell the processes.
abbrev pub grants : KeyId → ProcId → List Request → List AccessGranted
grants k h = map (λ req. (req.0, k, req.1, h))
