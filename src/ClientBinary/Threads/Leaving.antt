-- ===== src/ClientBinary/Threads/Leaving.antt =====
-- What a release leaves the two threads of bin/client.rs with, and the deletion after it.
use soros.Base.{Bool, true, false, ◌||◌, String, refl, ◌∙◌, subst}
use soros.AccessManager.Calls.{Call, told}
use soros.ClientBinary.Threads.{
  Registry, WriterAt, ReaderAt, reply_of, data_key, writer_id, reader_id, or_stop,
}
use soros.ClientBinary.Threads.Roles.{
  Role, Fits, let_go, is_queued, delete-Fits, release_writer-Fits, release_reader-Fits,
}
use soros.ClientBinary.Threads.Manager.{IsLocking}
use soros.ClientBinary.Threads.Stands.{
  HasWriterRole, HasReaderRole, Stands, ask-Stands, reply-ask, quiet-Stands,
}

-- A thread that waits while the other releases is inside, and has been told.
let_go-reader :
    (at : ReaderAt) (q : Role) (b : Bool)
    → HasReaderRole at q b
    → HasReaderRole at (let_go q) (b || is_queued q)
let_go-reader ReaderAt.started q b (e, e') = rw (e, e') (refl, refl)
let_go-reader ReaderAt.tried q b (e, e') = rw (e, e') (refl, refl)
let_go-reader ReaderAt.waiting q true e = rw e refl
let_go-reader ReaderAt.waiting q false e = rw e refl
let_go-reader ReaderAt.granted q b e = rw e refl
let_go-reader (ReaderAt.received t) q b e = rw e refl
let_go-reader (ReaderAt.copied t) q b e = rw e refl
let_go-reader (ReaderAt.released t) q b e = rw e refl
let_go-reader ReaderAt.unanswered q b e = rw e refl
let_go-reader ReaderAt.ended q b e = rw e refl
let_go-reader ReaderAt.failed q b e = tt

let_go-writer :
    (w : WriterAt) (r : Role) (b : Bool)
    → HasWriterRole w r b
    → HasWriterRole w (let_go r) (b || is_queued r)
let_go-writer WriterAt.started r b (e, e') = rw (e, e') (refl, refl)
let_go-writer WriterAt.created r b (e, e') = rw (e, e') (refl, refl)
let_go-writer WriterAt.stored r b (e, e') = rw (e, e') (refl, refl)
let_go-writer WriterAt.recreated r b (e, e') = rw (e, e') (refl, refl)
let_go-writer WriterAt.waiting r true e = rw e refl
let_go-writer WriterAt.waiting r false e = rw e refl
let_go-writer WriterAt.granted r b e = rw e refl
let_go-writer WriterAt.written r b e = rw e refl
let_go-writer WriterAt.ended r b e = rw e refl
let_go-writer WriterAt.failed r b e = tt

module _ (registry : Registry) (laws : IsLocking registry) where
  open registry use {State, ask, has_told}
  open laws use {Valid, lock_of}

  pub release_writer-Stands :
      (at : ReaderAt) (s : State)
      → Stands registry laws s WriterAt.written at
      → Stands registry laws (ask (Call.release writer_id data_key) s).1 WriterAt.ended at
  release_writer-Stands at s h =
      let c = Call.release writer_id data_key in
      let o = lock_of s data_key in
      let (f, reader_told, writer_told) =
        release_writer-Fits h.reader_role o
          (subst (λ r. Fits r h.reader_role o) h.of_writer h.fits) in
      ask-Stands registry laws c s WriterAt.ended at Role.out (let_go h.reader_role) refl h.valid f
        refl (rw reader_told (let_go-reader at h.reader_role (has_told reader_id s) h.of_reader))

  pub release_reader-Stands :
      (t : String) (w : WriterAt) (s : State)
      → Stands registry laws s w (ReaderAt.copied t)
      → let (reply, s') = ask (Call.release reader_id data_key) s in
        Stands registry laws s' w (or_stop registry (ReaderAt.released t) (reply_of reply))
  release_reader-Stands t w s h =
      let c = Call.release reader_id data_key in
      let o = lock_of s data_key in
      let (f, writer_told, reader_told, done) =
        release_reader-Fits h.writer_role o
          (subst (λ q. Fits h.writer_role q o) h.of_reader h.fits) in
      rw (reply-ask registry laws c s h.valid ∙ done) (
        ask-Stands registry laws c s w (ReaderAt.released t) (let_go h.writer_role) Role.out refl
          h.valid f
          (rw writer_told (let_go-writer w h.writer_role (has_told writer_id s) h.of_writer)) refl)

  pub delete-Stands :
      (t : String) (w : WriterAt) (s : State)
      → Stands registry laws s w (ReaderAt.released t)
      → Stands registry laws (ask (Call.delete data_key) s).1 w ReaderAt.ended
  unfolding told
  delete-Stands t w s h =
      quiet-Stands registry laws (Call.delete data_key) s w ReaderAt.ended h.writer_role Role.out
        refl refl h.valid
        (delete-Fits h.writer_role (lock_of s data_key)
          (subst (λ q. Fits h.writer_role q (lock_of s data_key)) h.of_reader h.fits))
        h.of_writer refl
