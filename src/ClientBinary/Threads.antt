-- ===== src/ClientBinary/Threads.antt =====
-- bin/client.rs: the two threads of `p2p`, by the calls that they make, in any order of their steps. A
-- call to the registry is one step, answered by the registry's access manager, and a grant that comes
-- later is heard while the thread waits. A call may also fail, by its connection or its timeout,
-- before the registry has dealt with it or after. A thread's end is counted from when its last request
-- has been dealt with, or never will be. The creations whose end is ignored are answered in time, or
-- not at all: that a later call takes a late answer of theirs for its own is left out.
pub mod Roles
pub mod Manager
pub mod Stands
pub mod Leaving
pub mod Waiting
pub mod Texts
pub mod Steps
pub mod Safety
pub mod Settle
pub mod Turns
pub mod Rest
mod Tests
use soros.Base.{
  Bool, String, List, [], ◌∷◌, Option, none, some, Outcome, ok, err, panic, exit, no_fuel,
  if◌then◌else◌, ◌≡◌, true, false,
}
use soros.Protocol.{ProcId, KeyId}
use soros.AccessManager.{AccessManagerError, request_access, KeyState}
use soros.AccessManager.Calls.{Call}
use soros.DataStore
use soros.DataStore.{DataStore}

-- A registry as its clients see it: how it answers a call, and which grants it has told.
pub record Registry : Type 1 where
  pub State : Type 0
  pub ask : Call → State → Outcome AccessManagerError (Unit {0}) × State
  pub has_told : ProcId → State → Bool

abbrev pub data_key : KeyId
data_key = 1

-- The process ids of the two, which the registry gives in the order in which they connect.
abbrev pub writer_id : ProcId
writer_id = 1

abbrev pub reader_id : ProcId
reader_id = 2

abbrev pub first_text : String
first_text = "inital data fom client 1"

abbrev pub second_text : String
second_text = "new data from client 1"

-- Where `p2p_client1` stands: what it has done last, or that it waits for its write. `ended` is its
-- end by the answers that it got, and `failed` the one by a call that failed or got none in time.
pub data WriterAt : Type 0 where
  started created stored recreated waiting granted written ended failed : WriterAt

-- And `p2p_client2`, with the text that it has read. `unanswered` is its wait for the other peer's
-- answer to a request for data that it does not have: there is none, and no timeout.
pub data ReaderAt : Type 0 where
  started tried waiting granted : ReaderAt
  received copied released : String → ReaderAt
  unanswered ended failed : ReaderAt

-- How a call of the registry ends for a thread.
pub data Reply : Type 0 where
  success wait failure : Reply

abbrev pub reply_of : Outcome AccessManagerError (Unit {0}) → Reply
reply_of (ok a) = Reply.success
reply_of (err (request_access p k)) = Reply.wait
reply_of other = Reply.failure

module _ (registry : Registry) where
  open registry use {State, ask, has_told}

  pub record System : Type 0 where
    pub state : State
    pub writer : WriterAt
    pub reader : ReaderAt
    pub store : DataStore
    pub copy : DataStore

  abbrev pub to : WriterAt → System → System
  to at s = record s { writer = at }

  abbrev pub reads_at : ReaderAt → System → System
  reads_at at s = record s { reader = at }

  -- A call of the first thread, and where it stands after each reply.
  abbrev writer_asks : Call → (Reply → WriterAt) → System → System
  writer_asks call next s =
      let (r, state) = ask call s.state in record s { state = state; writer = next (reply_of r) }

  abbrev reader_asks : Call → (Reply → ReaderAt) → System → System
  reader_asks call next s =
      let (r, state) = ask call s.state in record s { state = state; reader = next (reply_of r) }

  abbrev pub or_end : WriterAt → Reply → WriterAt
  or_end at Reply.success = at
  or_end at Reply.wait = WriterAt.ended
  or_end at Reply.failure = WriterAt.ended

  abbrev pub after_write : Reply → WriterAt
  after_write Reply.success = WriterAt.granted
  after_write Reply.wait = WriterAt.waiting
  after_write Reply.failure = WriterAt.ended

  abbrev pub after_read : Reply → ReaderAt
  after_read Reply.success = ReaderAt.granted
  after_read Reply.wait = ReaderAt.waiting
  after_read Reply.failure = ReaderAt.ended

  abbrev pub or_stop : ReaderAt → Reply → ReaderAt
  or_stop at Reply.success = at
  or_stop at Reply.wait = ReaderAt.ended
  or_stop at Reply.failure = ReaderAt.ended

  -- The next step of `p2p_client1`.
  unfoldable pub writer_step : WriterAt → System → System
  writer_step WriterAt.started s =
      writer_asks (Call.create writer_id data_key) (or_end WriterAt.created) s
  writer_step WriterAt.created s = record s {
    writer = WriterAt.stored;
    store = (DataStore.create data_key first_text s.store).1;
  }
  writer_step WriterAt.stored s =
      writer_asks (Call.create writer_id data_key) (λ r. WriterAt.recreated) s
  writer_step WriterAt.recreated s = writer_asks (Call.write writer_id data_key) after_write s
  writer_step WriterAt.waiting s = if has_told writer_id s.state then to WriterAt.granted s else s
  writer_step WriterAt.granted s =
      let (r, store) = DataStore.write data_key second_text s.store in
      record s {
        writer = (elim r [ ok a ↦ WriterAt.written | other ↦ WriterAt.ended ]);
        store = store;
      }
  writer_step WriterAt.written s =
      writer_asks (Call.release writer_id data_key) (λ r. WriterAt.ended) s
  writer_step WriterAt.ended s = s
  writer_step WriterAt.failed s = s

  -- The next step of `p2p_client2`. It asks the other peer once, and gets what that peer's store has;
  -- if it has nothing, nothing is sent, and the thread waits for ever.
  unfoldable pub reader_step : ReaderAt → System → System
  reader_step ReaderAt.started s =
      reader_asks (Call.create reader_id data_key) (λ r. ReaderAt.tried) s
  reader_step ReaderAt.tried s = reader_asks (Call.read reader_id data_key) after_read s
  reader_step ReaderAt.waiting s =
      if has_told reader_id s.state then reads_at ReaderAt.granted s else s
  reader_step ReaderAt.granted s =
      let (r, store) = DataStore.get data_key s.store in
      elim r [
        | ok text ↦ reads_at (ReaderAt.received text) s
        | other ↦ reads_at ReaderAt.unanswered s
      ]
  reader_step (ReaderAt.received text) s = record s {
    reader = ReaderAt.copied text;
    copy = (DataStore.create data_key text s.copy).1;
  }
  reader_step (ReaderAt.copied text) s =
      reader_asks (Call.release reader_id data_key) (or_stop (ReaderAt.released text)) s
  reader_step (ReaderAt.released text) s =
      reader_asks (Call.delete data_key) (λ r. ReaderAt.ended) s
  reader_step ReaderAt.unanswered s = s
  reader_step ReaderAt.ended s = s
  reader_step ReaderAt.failed s = s

  -- The calls that end a thread if they fail: those of the first to the registry but its second
  -- creation, whose end is ignored, and of the second all but its creation.
  abbrev pub writer_may_fail : WriterAt → Bool
  writer_may_fail WriterAt.started = true
  writer_may_fail WriterAt.recreated = true
  writer_may_fail WriterAt.waiting = true
  writer_may_fail WriterAt.written = true
  writer_may_fail other = false

  abbrev pub reader_may_fail : ReaderAt → Bool
  reader_may_fail ReaderAt.tried = true
  reader_may_fail ReaderAt.waiting = true
  reader_may_fail ReaderAt.granted = true
  reader_may_fail ReaderAt.unanswered = true
  reader_may_fail (ReaderAt.copied t) = true
  reader_may_fail (ReaderAt.released t) = true
  reader_may_fail other = false

  -- One step of either thread. A call may fail before the registry has dealt with it (`fails`) or after
  -- (`fails_late`), and a creation whose end is ignored may not reach the registry (`skips`).
  pub data Step (s t : System) : Type 0 where
    of_writer : t ≡ writer_step s.writer s → Step s t
    of_reader : t ≡ reader_step s.reader s → Step s t
    writer_fails : writer_may_fail s.writer ≡ true → t ≡ to WriterAt.failed s → Step s t
    writer_fails_late :
        writer_may_fail s.writer ≡ true → t ≡ to WriterAt.failed (writer_step s.writer s) → Step s t
    writer_skips : s.writer ≡ WriterAt.stored → t ≡ to WriterAt.recreated s → Step s t
    reader_fails : reader_may_fail s.reader ≡ true → t ≡ reads_at ReaderAt.failed s → Step s t
    reader_fails_late :
        reader_may_fail s.reader ≡ true
        → t ≡ reads_at ReaderAt.failed (reader_step s.reader s)
        → Step s t
    reader_skips : s.reader ≡ ReaderAt.started → t ≡ reads_at ReaderAt.tried s → Step s t

  -- From `state`, with both threads at their start.
  abbrev pub start : State → System
  start state = record {
    state = state;
    writer = WriterAt.started;
    reader = ReaderAt.started;
    store = DataStore.new;
    copy = DataStore.new;
  }

  pub data Reach (s : System) : System → Type 0 where
    here : Reach s s
    next : {t u : System} → Reach s t → Step t u → Reach s u
