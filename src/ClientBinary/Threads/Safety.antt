-- ===== src/ClientBinary/Threads/Safety.antt =====
-- What holds of the two threads of bin/client.rs in every order of their steps.
use soros.Base.{
  Bool, true, false, ◌&&◌, Option, none, ◌≡◌, refl, inl, inr, arith, Bool-cases, subst, not,
}
use soros.Base.HashSet.{HashOrder}
use soros.AccessManager.{AccessManager, KeyState}
use soros.AccessManager.Refinement.{IsSound}
use soros.ClientBinary.Threads.{
  System, Reach, start, WriterAt, ReaderAt, data_key, writer_id, reader_id,
}
use soros.ClientBinary.Threads.Roles.{Role, Fits, tells}
use soros.ClientBinary.Threads.Manager.{manager_registry, manager-IsLocking}
use soros.ClientBinary.Threads.Stands.{HasWriterRole, HasReaderRole, Stands}
use soros.ClientBinary.Threads.Texts.{HasReceived}
use soros.ClientBinary.Threads.Waiting.{
  writer_waits, reader_waits, may_write, may_read, writer-HasCause, reader-HasCause,
}
use soros.ClientBinary.Threads.Steps.{Inv, Reach-Inv}

-- A thread may use the data: it has been granted its access and has not released it.
abbrev pub is_writing : WriterAt → Bool
is_writing WriterAt.granted = true
is_writing WriterAt.written = true
is_writing other = false

abbrev pub is_reading : ReaderAt → Bool
is_reading ReaderAt.granted = true
is_reading (ReaderAt.received t) = true
is_reading (ReaderAt.copied t) = true
is_reading other = false

not_both : (r q : Role) (o : Option KeyState) → r ≡ Role.inside → q ≡ Role.inside → Fits r q o → ⊥
not_both r q o e e' f = subst (λ q. Fits Role.inside q o) e' (subst (λ r. Fits r q o) e f)

reading-role :
    (at : ReaderAt) (q : Role) (b : Bool)
    → HasReaderRole at q b
    → is_reading at ≡ true
    → q ≡ Role.inside
reading-role ReaderAt.granted q b h e = h
reading-role (ReaderAt.received t) q b h e = h
reading-role (ReaderAt.copied t) q b h e = h
reading-role ReaderAt.started q b h e = cc
reading-role ReaderAt.tried q b h e = cc
reading-role ReaderAt.waiting q b h e = cc
reading-role (ReaderAt.released t) q b h e = cc
reading-role ReaderAt.unanswered q b h e = cc
reading-role ReaderAt.ended q b h e = cc
reading-role ReaderAt.failed q b h e = cc

writing-role :
    (w : WriterAt) (r : Role) (b : Bool)
    → HasWriterRole w r b
    → is_writing w ≡ true
    → r ≡ Role.inside
writing-role WriterAt.granted r b h e = h
writing-role WriterAt.written r b h e = h
writing-role WriterAt.started r b h e = cc
writing-role WriterAt.created r b h e = cc
writing-role WriterAt.stored r b h e = cc
writing-role WriterAt.recreated r b h e = cc
writing-role WriterAt.waiting r b h e = cc
writing-role WriterAt.ended r b h e = cc
writing-role WriterAt.failed r b h e = cc

exclusive :
    (w : WriterAt) (at : ReaderAt) (r q : Role) (b b' : Bool) (o : Option KeyState)
    → HasWriterRole w r b
    → HasReaderRole at q b'
    → Fits r q o
    → (is_writing w && is_reading at) ≡ false
exclusive w at r q b b' o hw hr f = elim (Bool-cases (is_writing w)) [
  | inr e ↦ rw e refl
  | inl e ↦ elim (Bool-cases (is_reading at)) [
    | inr e' ↦ ground (arith, e, e')
    | inl e' ↦ absurd (not_both r q o (writing-role w r b hw e) (reading-role at q b' hr e') f)
  ]
]

-- The invariant of the two threads holds of every system that they reach from their start.
pub reached-Inv :
    (order : HashOrder) (m : AccessManager) (s : System (manager_registry order))
    → IsSound m
    → m.key_states data_key ≡ none
    → tells writer_id m.access_granted.sent ≡ false
    → tells reader_id m.access_granted.sent ≡ false
    → Reach (manager_registry order) (start (manager_registry order) m) s
    → Inv (manager_registry order) (manager-IsLocking order) s
reached-Inv order m s sound absent none_of_writer none_of_reader r =
    let registry = manager_registry order in
    let laws = manager-IsLocking order in
    let first : Stands registry laws m WriterAt.started ReaderAt.started = record {
      valid = sound;
      writer_role = Role.out;
      reader_role = Role.out;
      fits = inl absent;
      of_writer = (refl, none_of_writer);
      of_reader = (refl, none_of_reader);
    } in
    Reach-Inv registry laws {s = start registry m} {t = s} (first, refl, tt) r

-- Two peers run their programs on a registry in which their key does not exist and none of them has
-- been told anything. Then in any order of their steps, also by calls that fail: the one never uses
-- the data to write while the other uses it to read, so no text changes while it is read; and the
-- text that the second has read is one of the two that the first gives to it. And neither waits for
-- nobody: while one waits and has not been told, the other has its access, has been told of it, or
-- has failed.
pub threads_safe :
    (order : HashOrder) (m : AccessManager) (s : System (manager_registry order))
    → IsSound m
    → m.key_states data_key ≡ none
    → tells writer_id m.access_granted.sent ≡ false
    → tells reader_id m.access_granted.sent ≡ false
    → Reach (manager_registry order) (start (manager_registry order) m) s
    → let writer_told = tells writer_id s.state.access_granted.sent in
      let reader_told = tells reader_id s.state.access_granted.sent in
      ((is_writing s.writer && is_reading s.reader) ≡ false)
      × HasReceived s.reader
      × ((writer_waits s.writer writer_told && not (may_read s.reader reader_told)) ≡ false)
      × ((reader_waits s.reader reader_told && not (may_write s.writer writer_told)) ≡ false)
threads_safe order m s sound absent none_of_writer none_of_reader r =
    let (h, o, t) = reached-Inv order m s sound absent none_of_writer none_of_reader r in
    (
      exclusive s.writer s.reader h.writer_role h.reader_role _ _ _ h.of_writer h.of_reader h.fits,
      t,
      writer-HasCause s.writer s.reader h.writer_role h.reader_role _ _ _ h.of_writer h.of_reader
          h.fits,
      reader-HasCause s.writer s.reader h.writer_role h.reader_role _ _ _ h.of_writer h.of_reader
          h.fits,
    )
