-- ===== src/AccessManager/View.antt =====
-- What a lock is to those who use it: its readers as a set. The calls as functions of that view.
use soros.Base.{
  Bool, not, ◌&&◌, ◌||◌, List, [], ◌∷◌, Option, none, some, Outcome, ok, err, is_some,
  if◌then◌else◌, ◌++◌,
}
use soros.Protocol.{ProcId, RequestType}
use soros.AccessManager.{
  AccessGranted, AccessManagerError, KeyState, is_writer, is_write_front, key_exists, key_not_found,
  key_accessed, request_access, release_access,
}
use soros.AccessManager.Lock.{Request, leading_readers, after_readers, next_served, grants}
use soros.AccessManager.Calls.{Call, create, read, write, release, delete}
use soros.AccessManager.ReaderSet.{ReaderSet, set_of, mem, add, discard, is_empty_set}

pub record View : Type 0 where
  pub waiting : List Request
  pub readers : ReaderSet
  pub writer : Option ProcId
  pub creator : ProcId

unfoldable pub view : KeyState → View
view ks = record {
  waiting = ks.pending_request;
  readers = set_of ks.readers;
  writer = ks.writer;
  creator = ks.creator;
}

abbrev pub view_of : Option KeyState → Option View
view_of none = none
view_of (some ks) = some (view ks)

unfoldable pub view_free : View → Bool
view_free v = not (is_some v.writer) && is_empty_set v.readers

unfoldable pub view_holds : ProcId → View → Bool
view_holds p v = is_writer p v.writer || mem p v.readers

unfoldable pub view_vacate : ProcId → View → View
view_vacate p v = record v {
  writer = if is_writer p v.writer then none else v.writer;
  readers = discard p v.readers;
}

abbrev pub add_all : List ProcId → ReaderSet → ReaderSet
add_all [] readers = readers
add_all (p ∷ ps) readers = add_all ps (add p readers)

unfoldable pub view_served : List Request → View → View
unfolding leading_readers after_readers
view_served [] v = v
view_served ((p, RequestType.write) ∷ rest) v = record v { waiting = rest; writer = some p }
view_served ((p, RequestType.read) ∷ rest) v = record v {
  waiting = after_readers rest;
  readers = add_all (leading_readers rest) (add p v.readers);
}
view_served (other ∷ rest) v = v

unfoldable pub view_release : ProcId → View → View
view_release p v =
    let left = view_vacate p v in if view_free left then view_served v.waiting left else left

unfoldable pub view_let_in : ProcId → View → List Request
view_let_in p v = if view_free (view_vacate p v) then next_served v.waiting else []

abbrev pub view_waits : View → Bool
view_waits v = is_some v.writer || is_write_front v.waiting

abbrev pub join_queue : Request → View → View
join_queue r v = record v { waiting = v.waiting ++ r ∷ [] }

unfoldable pub view_after : Call → Option View → Option View
view_after (create p k) none =
    some (record { waiting = []; readers = set_of []; writer = none; creator = p })
view_after (create p k) (some v) = some v
view_after (read p k) (some v) = some (
    if view_waits v
    then join_queue (p, RequestType.read) v
    else record v { readers = add p v.readers })
view_after (write p k) (some v) =
    some (if view_free v then record v { writer = some p } else join_queue (p, RequestType.write) v)
view_after (release p k) (some v) = some (if view_holds p v then view_release p v else v)
view_after (delete k) (some v) = if view_free v then none else some v
view_after (read p k) none = none
view_after (write p k) none = none
view_after (release p k) none = none
view_after (delete k) none = none

unfoldable pub view_told : Call → Option View → List AccessGranted
view_told (release p k) (some v) =
    if view_holds p v then grants k v.creator (view_let_in p v) else []
view_told c o = []

unfoldable pub view_answer : Call → Option View → Outcome AccessManagerError (Unit {0})
view_answer (create p k) none = ok tt
view_answer (create p k) (some v) = err (key_exists k)
view_answer (read p k) none = err (key_not_found k)
view_answer (read p k) (some v) = if view_waits v then err (request_access p k) else ok tt
view_answer (write p k) none = err (key_not_found k)
view_answer (write p k) (some v) = if view_free v then ok tt else err (request_access p k)
view_answer (release p k) none = err (key_not_found k)
view_answer (release p k) (some v) = if view_holds p v then ok tt else err (release_access p k)
view_answer (delete k) none = err (key_not_found k)
view_answer (delete k) (some v) = if view_free v then ok tt else err key_accessed
