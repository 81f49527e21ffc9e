-- ===== src/AccessManager.antt =====
-- access_manager.rs: the registry's read-write locks, one `KeyState` for each key.
pub mod Lock
pub mod Serve
pub mod Release
pub mod Calls
pub mod Refinement
pub mod WellFormed
pub mod Invariant
pub mod Fairness
pub mod Access
pub mod Progress
pub mod Errors
pub mod ReaderSet
pub mod View
pub mod Representation
pub mod Holding
pub mod Orders
mod ViewTests
mod UnitTests
mod Tests
use soros.Base.{
  Bool, true, false, not, ◌&&◌, ◌||◌, List, [], ◌∷◌, ◌++◌, Option, none, some, ◌==◌, if◌then◌else◌,
  is_some, is_empty, Outcome, ok, err, panic, Action, pure, throw, modify, ok_or, unwrap, ◌>>=◌,
  ◌>>◌,
}
use soros.Base.HashMap
use soros.Base.HashMap.{HashMap}
use soros.Base.HashSet
use soros.Base.HashSet.{HashOrder}
use soros.Protocol.{ProcId, KeyId, RequestType}
use soros.Channel.{Channel, channel, send}

-- The granted process, the key, the type of request, the holder.
abbrev pub AccessGranted : Type 0
AccessGranted = ProcId × KeyId × RequestType × ProcId

pub data AccessManagerError : Type 0 where
  send_error : AccessGranted → AccessManagerError
  request_access : ProcId → KeyId → AccessManagerError
  release_access : ProcId → KeyId → AccessManagerError
  key_accessed : AccessManagerError
  key_exists : KeyId → AccessManagerError
  key_not_found : KeyId → AccessManagerError

pub record KeyState : Type 0 where
  pub pending_request : List (ProcId × RequestType)
  pub readers : List ProcId
  pub writer : Option ProcId
  pub creator : ProcId

-- `KeyState::new`
abbrev pub new_key_state : ProcId → KeyState
new_key_state creator = record {
  pending_request = [];
  readers = [];
  writer = none;
  creator = creator;
}

abbrev pub register_reader : ProcId → KeyState → KeyState
register_reader proc_id ks = record ks { readers = HashSet.insert proc_id ks.readers }

abbrev pub register_writer : ProcId → KeyState → KeyState
register_writer proc_id ks = record ks { writer = some proc_id }

-- `pending_request.push_back`
abbrev pub push_back : ProcId × RequestType → KeyState → KeyState
push_back req ks = record ks { pending_request = ks.pending_request ++ req ∷ [] }

-- `matches!(front().1, RequestType::Write)`
abbrev pub is_write_front : List (ProcId × RequestType) → Bool
is_write_front [] = false
is_write_front ((p, RequestType.write) ∷ rest) = true
is_write_front ((p, RequestType.create) ∷ rest) = false
is_write_front ((p, RequestType.delete) ∷ rest) = false
is_write_front ((p, RequestType.read) ∷ rest) = false
is_write_front ((p, RequestType.release) ∷ rest) = false

pub record AccessManager : Type 0 where
  pub access_granted : Channel AccessGranted
  pub key_states : HashMap KeyState

-- `AccessManager::new`
abbrev pub new : AccessManager
new = record { access_granted = channel; key_states = HashMap.empty }

abbrev pub M : Type 0 → Type 0
M = Action AccessManager AccessManagerError

abbrev pub put_key_state : KeyId → KeyState → AccessManager → AccessManager
put_key_state key_id ks m = record m { key_states = HashMap.insert key_id ks m.key_states }

-- `get_key_state` and `get_key_state_mut`. What is written through the second goes back by
-- `put_key_state`.
abbrev pub get_key_state : KeyId → M KeyState
get_key_state key_id m = ok_or (m.key_states key_id) (key_not_found key_id) m

unfoldable pub create : ProcId → KeyId → M (Unit {0})
create proc_id key_id m =
    if HashMap.contains_key key_id m.key_states
    then (err (key_exists key_id), m)
    else (ok tt, put_key_state key_id (new_key_state proc_id) m)

unfoldable pub delete : KeyId → M (Unit {0})
delete key_id = do
  ks ← get_key_state key_id
  if not (is_empty ks.readers) || is_some ks.writer
      then throw key_accessed
      else modify (λ m. record m { key_states = HashMap.remove key_id m.key_states })

-- The `while let` of `handle_requesting`, over the queue `pending` of `ks`.
unfoldable pub grant_reads :
    KeyId
    → ProcId
    → List (ProcId × RequestType)
    → KeyState
    → Channel AccessGranted
    → Outcome AccessManagerError (Unit {0}) × KeyState × Channel AccessGranted
grant_reads key_id holder_id ((proc_id, RequestType.read) ∷ rest) ks ch =
    elim (send (proc_id, key_id, RequestType.read, holder_id) ch) [
      | none ↦ (err (send_error (proc_id, key_id, RequestType.read, holder_id)), ks, ch)
      | some ch' ↦
          grant_reads key_id holder_id rest
            (record (register_reader proc_id ks) { pending_request = rest }) ch'
    ]
grant_reads key_id holder_id pending ks ch = (ok tt, ks, ch)

-- Both `read` and `write` queue the request and report it when access is not possible now.
abbrev enqueue : {A : Type 0} → ProcId → KeyId → RequestType → KeyState → M A
enqueue proc_id key_id request_type ks = do
  modify (put_key_state key_id (push_back (proc_id, request_type) ks))
  throw (request_access proc_id key_id)

unfoldable pub write : ProcId → KeyId → M (Unit {0})
write proc_id key_id = do
  ks ← get_key_state key_id
  if not (is_empty ks.readers) || is_some ks.writer
      then enqueue proc_id key_id RequestType.write ks
      else modify (put_key_state key_id (register_writer proc_id ks))

abbrev pub is_writer : ProcId → Option ProcId → Bool
is_writer proc_id none = false
is_writer proc_id (some writer) = writer == proc_id

module _ (order : HashOrder) where
  abbrev first_reader : ProcId → List ProcId → ProcId
  first_reader creator [] = creator
  first_reader creator (x ∷ xs) = order.first x xs

  -- A process that knows the data of the key.
  unfoldable pub holder : KeyState → ProcId
  holder ks = elim ks.writer [ some writer ↦ writer | none ↦ first_reader ks.creator ks.readers ]

  -- The match of `handle_requesting` on the front of the queue `pending` of `ks`.
  unfoldable pub handle_front : KeyId → List (ProcId × RequestType) → KeyState → M (Unit {0})
  handle_front key_id [] ks m = (ok tt, m)
  handle_front key_id ((proc_id, RequestType.write) ∷ rest) ks m =
      elim (send (proc_id, key_id, RequestType.write, holder ks) m.access_granted) [
        | none ↦ (err (send_error (proc_id, key_id, RequestType.write, holder ks)), m)
        | some ch ↦ (
          ok tt,
          put_key_state key_id (record (register_writer proc_id ks) { pending_request = rest })
              (record m { access_granted = ch }),
        )
      ]
  handle_front key_id ((proc_id, RequestType.read) ∷ rest) ks m =
      let (r, ks', ch) =
        grant_reads key_id (holder ks) ((proc_id, RequestType.read) ∷ rest) ks m.access_granted in
      (r, put_key_state key_id ks' (record m { access_granted = ch }))
  handle_front key_id ((proc_id, RequestType.create) ∷ rest) ks m = (panic, m)
  handle_front key_id ((proc_id, RequestType.delete) ∷ rest) ks m = (panic, m)
  handle_front key_id ((proc_id, RequestType.release) ∷ rest) ks m = (panic, m)

  unfoldable pub handle_requesting : KeyId → M (Unit {0})
  handle_requesting key_id = do
    ks ← (λ m. unwrap (m.key_states key_id) m)
    handle_front key_id ks.pending_request ks

  unfoldable pub read : ProcId → KeyId → M ProcId
  read proc_id key_id = do
    ks ← get_key_state key_id
    if is_some ks.writer || is_write_front ks.pending_request
        then enqueue proc_id key_id RequestType.read ks
        else do
          modify (put_key_state key_id (register_reader proc_id ks))
          pure (holder (register_reader proc_id ks))

  abbrev release_writer : KeyId → KeyState → M (Unit {0})
  release_writer key_id ks = do
    modify (put_key_state key_id (record ks { writer = none }))
    handle_requesting key_id

  abbrev release_reader : KeyId → List ProcId → KeyState → M (Unit {0})
  release_reader key_id readers ks = do
    modify (put_key_state key_id (record ks { readers = readers }))
    if is_empty readers then handle_requesting key_id else pure tt

  unfoldable pub release : ProcId → KeyId → M (Unit {0})
  release proc_id key_id = do
    ks ← get_key_state key_id
    let writer_release = is_writer proc_id ks.writer
    let reader_release = HashSet.contains proc_id ks.readers
    if not writer_release && not reader_release
        then throw (release_access proc_id key_id)
        else if writer_release
        then release_writer key_id ks
        else if reader_release
        then release_reader key_id (HashSet.remove proc_id ks.readers) ks
        else pure tt
