-- ===== src/AccessManager/Calls.antt =====
-- The calls that the registry makes on its access manager, and one key's lock as a machine of its
-- own: what a call makes of the lock, whom it tells, and what it answers.
use soros.Base.{
  List, [], ◌∷◌, Option, none, some, Outcome, ok, err, if◌then◌else◌, ◌||◌, is_some, ◌>>=◌, pure,
}
use soros.Base.HashSet.{HashOrder}
use soros.Protocol.{ProcId, KeyId, RequestType}
use soros.AccessManager
use soros.AccessManager.{
  AccessGranted, AccessManagerError, KeyState, AccessManager, M, new_key_state, push_back,
  register_reader, register_writer, is_write_front, key_exists, key_not_found, key_accessed,
  request_access, release_access, Bool,
}
use soros.AccessManager.Lock.{Request, grants}
use soros.AccessManager.Release.{holds, is_free, after_release, let_in}

pub data Call : Type 0 where
  create read write release : ProcId → KeyId → Call
  delete : KeyId → Call

abbrev pub key_of : Call → KeyId
key_of (create p k) = k
key_of (read p k) = k
key_of (write p k) = k
key_of (release p k) = k
key_of (delete k) = k

unfoldable pub perform : HashOrder → Call → M (Unit {0})
perform order (create p k) = AccessManager.create p k
perform order (read p k) = AccessManager.read order p k >>= λ _. pure tt
perform order (write p k) = AccessManager.write p k
perform order (release p k) = AccessManager.release order p k
perform order (delete k) = AccessManager.delete k

unfoldable pub run : HashOrder → List Call → AccessManager → AccessManager
run order [] m = m
run order (c ∷ cs) m = run order cs (perform order c m).1

-- A read waits behind a writer, and behind a write at the front of the queue.
abbrev pub read_waits : KeyState → Bool
read_waits ks = is_some ks.writer || is_write_front ks.pending_request

-- The request that joins the queue.
unfoldable pub queued : Call → Option KeyState → List Request
queued (read p k) (some ks) = if read_waits ks then (p, RequestType.read) ∷ [] else []
queued (write p k) (some ks) = if is_free ks then [] else (p, RequestType.write) ∷ []
queued c o = []

unfoldable pub lock_after : Call → Option KeyState → Option KeyState
lock_after (create p k) none = some (new_key_state p)
lock_after (create p k) (some ks) = some ks
lock_after (read p k) none = none
lock_after (read p k) (some ks) =
    some (if read_waits ks then push_back (p, RequestType.read) ks else register_reader p ks)
lock_after (write p k) none = none
lock_after (write p k) (some ks) =
    some (if is_free ks then register_writer p ks else push_back (p, RequestType.write) ks)
lock_after (release p k) none = none
lock_after (release p k) (some ks) = some (if holds p ks then after_release p ks else ks)
lock_after (delete k) none = none
lock_after (delete k) (some ks) = if is_free ks then none else some ks

unfoldable pub told : Call → Option KeyState → List AccessGranted
told (release p k) (some ks) = if holds p ks then grants k ks.creator (let_in p ks) else []
told c o = []

unfoldable pub answer : Call → Option KeyState → Outcome AccessManagerError (Unit {0})
answer (create p k) none = ok tt
answer (create p k) (some ks) = err (key_exists k)
answer (read p k) none = err (key_not_found k)
answer (read p k) (some ks) = if read_waits ks then err (request_access p k) else ok tt
answer (write p k) none = err (key_not_found k)
answer (write p k) (some ks) = if is_free ks then ok tt else err (request_access p k)
answer (release p k) none = err (key_not_found k)
answer (release p k) (some ks) = if holds p ks then ok tt else err (release_access p k)
answer (delete k) none = err (key_not_found k)
answer (delete k) (some ks) = if is_free ks then ok tt else err key_accessed
