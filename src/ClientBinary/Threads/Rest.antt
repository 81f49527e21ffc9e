-- ===== src/ClientBinary/Threads/Rest.antt =====
-- Where the two threads of bin/client.rs end, if each goes on taking its turns.
use soros.Base.{Bool, true, false, ◌&&◌, not, none, ℕ, ◌≤◌, ◌≡◌, arith}
use soros.Base.HashSet.{HashOrder}
use soros.AccessManager.{AccessManager}
use soros.AccessManager.Refinement.{IsSound}
use soros.ClientBinary.Threads.{
  System, Reach, start, WriterAt, ReaderAt, data_key, writer_id, reader_id,
}
use soros.ClientBinary.Threads.Roles.{tells}
use soros.ClientBinary.Threads.Manager.{manager_registry}
use soros.ClientBinary.Threads.Waiting.{
  writer_waits, reader_waits, may_read, may_write, writer-HasCause, reader-HasCause,
}
use soros.ClientBinary.Threads.Settle.{writer_stops, reader_stops}
use soros.ClientBinary.Threads.Turns.{round, rounds, rounds-Rests, rounds-Reach}
use soros.ClientBinary.Threads.Safety.{reached-Inv}

-- Each thread has ended or failed; or one waits for the other, which has failed; or the second waits
-- for an answer to its read that the other peer does not give.
abbrev pub HasEnded : WriterAt → ReaderAt → Type 0
HasEnded WriterAt.ended ReaderAt.ended = Unit
HasEnded WriterAt.ended ReaderAt.failed = Unit
HasEnded WriterAt.failed ReaderAt.ended = Unit
HasEnded WriterAt.failed ReaderAt.failed = Unit
HasEnded WriterAt.failed ReaderAt.waiting = Unit
HasEnded WriterAt.waiting ReaderAt.failed = Unit
HasEnded WriterAt.ended ReaderAt.unanswered = Unit
HasEnded WriterAt.failed ReaderAt.unanswered = Unit
HasEnded WriterAt.waiting ReaderAt.unanswered = Unit
HasEnded w at = ⊥

beside_ended :
    (at : ReaderAt) (b' : Bool)
    → reader_stops at b' ≡ true
    → (reader_waits at b' && not false) ≡ false
    → HasEnded WriterAt.ended at
beside_ended ReaderAt.started b' e cause = cc
beside_ended ReaderAt.tried b' e cause = cc
beside_ended ReaderAt.waiting b' e cause = absurd (ground (arith, e, cause))
beside_ended ReaderAt.granted b' e cause = cc
beside_ended (ReaderAt.received t) b' e cause = cc
beside_ended (ReaderAt.copied t) b' e cause = cc
beside_ended (ReaderAt.released t) b' e cause = cc
beside_ended ReaderAt.unanswered b' e cause = tt
beside_ended ReaderAt.ended b' e cause = tt
beside_ended ReaderAt.failed b' e cause = tt

beside_failed :
    (at : ReaderAt) (b' : Bool) → reader_stops at b' ≡ true → HasEnded WriterAt.failed at
beside_failed ReaderAt.started b' e = cc
beside_failed ReaderAt.tried b' e = cc
beside_failed ReaderAt.waiting b' e = tt
beside_failed ReaderAt.granted b' e = cc
beside_failed (ReaderAt.received t) b' e = cc
beside_failed (ReaderAt.copied t) b' e = cc
beside_failed (ReaderAt.released t) b' e = cc
beside_failed ReaderAt.unanswered b' e = tt
beside_failed ReaderAt.ended b' e = tt
beside_failed ReaderAt.failed b' e = tt

beside_waiting :
    (at : ReaderAt) (b b' : Bool)
    → not b ≡ true
    → reader_stops at b' ≡ true
    → (not b && not (may_read at b')) ≡ false
    → HasEnded WriterAt.waiting at
beside_waiting ReaderAt.started b b' e e' cause = cc
beside_waiting ReaderAt.tried b b' e e' cause = cc
beside_waiting ReaderAt.waiting b b' e e' cause = absurd (ground (arith, e, e', cause))
beside_waiting ReaderAt.granted b b' e e' cause = cc
beside_waiting (ReaderAt.received t) b b' e e' cause = cc
beside_waiting (ReaderAt.copied t) b b' e e' cause = cc
beside_waiting (ReaderAt.released t) b b' e e' cause = cc
beside_waiting ReaderAt.unanswered b b' e e' cause = tt
beside_waiting ReaderAt.ended b b' e e' cause = absurd (ground (arith, e, cause))
beside_waiting ReaderAt.failed b b' e e' cause = tt

stopped-HasEnded :
    (w : WriterAt) (at : ReaderAt) (b b' : Bool)
    → writer_stops w b ≡ true
    → reader_stops at b' ≡ true
    → (writer_waits w b && not (may_read at b')) ≡ false
    → (reader_waits at b' && not (may_write w b)) ≡ false
    → HasEnded w at
stopped-HasEnded WriterAt.ended at b b' e e' cause cause' = beside_ended at b' e' cause'
stopped-HasEnded WriterAt.failed at b b' e e' cause cause' = beside_failed at b' e'
stopped-HasEnded WriterAt.waiting at b b' e e' cause cause' = beside_waiting at b b' e e' cause
stopped-HasEnded WriterAt.started at b b' e e' cause cause' = cc
stopped-HasEnded WriterAt.created at b b' e e' cause cause' = cc
stopped-HasEnded WriterAt.stored at b b' e e' cause cause' = cc
stopped-HasEnded WriterAt.recreated at b b' e e' cause cause' = cc
stopped-HasEnded WriterAt.granted at b b' e e' cause cause' = cc
stopped-HasEnded WriterAt.written at b b' e e' cause cause' = cc

-- Two peers run their programs on a registry in which their key does not exist and none of them has
-- been told anything. From any system that they reach, also by calls that fail, if then each takes a
-- step in turn and no more calls fail, then after 14 rounds or more a further round changes nothing,
-- and each thread has ended or failed, but for two cases: one waits and the other has failed; or the
-- second has been let in and asked for data that the other peer did not have, which is not answered.
pub threads_end :
    (order : HashOrder) (m : AccessManager) (s : System (manager_registry order)) (n : ℕ)
    → IsSound m
    → m.key_states data_key ≡ none
    → tells writer_id m.access_granted.sent ≡ false
    → tells reader_id m.access_granted.sent ≡ false
    → Reach (manager_registry order) (start (manager_registry order) m) s
    → 14 ≤ n
    → let t = rounds (manager_registry order) n s in
      HasEnded t.writer t.reader × (round (manager_registry order) t ≡ t)
threads_end order m s n sound absent none_of_writer none_of_reader r enough =
    let registry = manager_registry order in
    let t = rounds registry n s in
    let (writer_stopped, reader_stopped, rests) =
      rounds-Rests registry n s (omega (arith, enough)) in
    let (h, o, received) =
      reached-Inv order m t sound absent none_of_writer none_of_reader
        (rounds-Reach registry n r) in
    (
      stopped-HasEnded t.writer t.reader _ _ writer_stopped reader_stopped
          (writer-HasCause t.writer t.reader h.writer_role h.reader_role _ _ _ h.of_writer
            h.of_reader h.fits)
          (reader-HasCause t.writer t.reader h.writer_role h.reader_role _ _ _ h.of_writer
            h.of_reader h.fits),
      rests,
    )
