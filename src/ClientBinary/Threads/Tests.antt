-- ===== src/ClientBinary/Threads/Tests.antt =====
-- The two threads in one order of their steps, on a new access manager.
use soros.Base.{false, ◌&&◌, ◌≡◌, refl, none, List, ◌∷◌, [], not, arith, some}
use soros.AccessManager
use soros.AccessManager.Orders.{insertion_order}
use soros.AccessManager.Invariant.{new-IsSound}
use soros.AccessManager.Calls.{perform}
use soros.DataStore
use soros.AccessManager.{AccessManager, handle_requesting, handle_front, grant_reads}
use soros.ClientBinary.Threads.{
  System, of_writer, of_reader, Reach, here, next, start, reads_at, WriterAt, ReaderAt, writer_step,
  reader_step, data_key, second_text, writer_id, reader_id, first_text,
}
use soros.ClientBinary.Threads.Manager.{manager_registry}
use soros.ClientBinary.Threads.Texts.{HasReceived}
use soros.ClientBinary.Threads.Roles.{tells, lock_with}
use soros.ClientBinary.Threads.Waiting.{writer_waits, reader_waits, may_write, may_read}
use soros.ClientBinary.Threads.Turns.{round, rounds}
use soros.ClientBinary.Threads.Rest.{HasEnded, threads_end}
use soros.ClientBinary.Threads.Safety.{is_writing, is_reading, threads_safe}

abbrev S : Type 0
S = System (manager_registry insertion_order)

abbrev began : S
began = start (manager_registry insertion_order) AccessManager.new

data Turn : Type 0 where
  of_first of_second : Turn

abbrev after_turn : Turn → S → S
after_turn of_first s = writer_step (manager_registry insertion_order) s.writer s
after_turn of_second s = reader_step (manager_registry insertion_order) s.reader s

after : List Turn → S
after [] = began
after (t ∷ earlier) = after_turn t (after earlier)

after-Reach : (ts : List Turn) → Reach (manager_registry insertion_order) began (after ts)
unfolding after
after-Reach [] = here
after-Reach (of_first ∷ ts) = next (after-Reach ts) (of_writer refl)
after-Reach (of_second ∷ ts) = next (after-Reach ts) (of_reader refl)

-- The newest turn first: the second thread asks to read while the first may write, is let in by its
-- release, and reads.
abbrev turns : List Turn
turns =
    of_second ∷ of_second ∷ of_first ∷ of_first ∷ of_second ∷ of_second ∷ of_first ∷ of_first
    ∷ of_first ∷ of_first ∷ []

threads_safe_example :
    let s = after turns in
    let writer_told = tells writer_id s.state.access_granted.sent in
    let reader_told = tells reader_id s.state.access_granted.sent in
    ((is_writing s.writer && is_reading s.reader) ≡ false)
    × HasReceived s.reader
    × ((writer_waits s.writer writer_told && not (may_read s.reader reader_told)) ≡ false)
    × ((reader_waits s.reader reader_told && not (may_write s.writer writer_told)) ≡ false)
threads_safe_example =
    threads_safe insertion_order AccessManager.new (after turns) (new-IsSound insertion_order) refl
      refl refl (after-Reach turns)

has_read : (after turns).reader ≡ ReaderAt.received second_text
unfolding after reader_step writer_step perform AccessManager.create AccessManager.write
    DataStore.write DataStore.create AccessManager.read AccessManager.release handle_requesting
    handle_front grant_reads DataStore.get
has_read = refl

-- Between the creation of the key and that of the data, the second thread is let in and reads: it is
-- never answered, though the data come.
too_early :
    let s = after (of_second ∷ of_second ∷ of_second ∷ of_first ∷ []) in
    let t = rounds (manager_registry insertion_order) 14 s in
    (s.reader ≡ ReaderAt.unanswered)
    × (s.store.data_map data_key ≡ none)
    × (t.writer ≡ WriterAt.waiting)
    × (t.reader ≡ ReaderAt.unanswered)
    × (t.store.data_map data_key ≡ some first_text)
unfolding after rounds reader_step writer_step perform AccessManager.read AccessManager.create
    AccessManager.write DataStore.create DataStore.get
too_early = (refl, refl, refl, refl, refl)

-- The second thread creates the key before the first: the first ends by the refusal, and the second is
-- let in to read what nobody has stored.
threads_end_example :
    let t = rounds (manager_registry insertion_order) 14 (after (of_second ∷ [])) in
    HasEnded t.writer t.reader × (round (manager_registry insertion_order) t ≡ t)
threads_end_example =
    threads_end insertion_order AccessManager.new (after (of_second ∷ [])) 14
      (new-IsSound insertion_order) refl refl refl (after-Reach (of_second ∷ [])) (omega arith)

starved :
    let t = rounds (manager_registry insertion_order) 14 (after (of_second ∷ [])) in
    (t.writer ≡ WriterAt.ended) × (t.reader ≡ ReaderAt.unanswered)
unfolding rounds after reader_step writer_step perform AccessManager.create AccessManager.read
    DataStore.get
starved = (refl, refl)

-- From the start, step by step, both end.
both_end :
    let t = rounds (manager_registry insertion_order) 14 began in
    (t.writer ≡ WriterAt.ended) × (t.reader ≡ ReaderAt.ended)
unfolding rounds reader_step writer_step perform AccessManager.create AccessManager.read
    AccessManager.write AccessManager.release AccessManager.delete DataStore.create DataStore.write
    DataStore.get handle_requesting handle_front grant_reads
both_end = (refl, refl)

-- The second thread gives up while the first may write. The release of the first then lets it in, but
-- it has gone: nobody gives the key back.
abbrev given_up : S
given_up =
    reads_at (manager_registry insertion_order) ReaderAt.failed
      (after (of_second ∷ of_second ∷ of_first ∷ of_first ∷ of_first ∷ of_first ∷ []))

left_locked :
    (rounds (manager_registry insertion_order) 14 given_up).state.key_states data_key
    ≡ some (lock_with [] (reader_id ∷ []) none writer_id)
unfolding rounds after reader_step writer_step perform AccessManager.create AccessManager.read
    AccessManager.write AccessManager.release DataStore.create DataStore.write handle_requesting
    handle_front grant_reads
left_locked = refl
