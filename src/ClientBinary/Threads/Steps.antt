-- ===== src/ClientBinary/Threads/Steps.antt =====
-- That every step of the two threads keeps what is said of their roles, and of the texts.
use soros.Base.{
  Bool, false, String, none, some, ◌≡◌, refl, inl, inr, arith, Bool-cases, Option-cases, subst, sym,
}
use soros.AccessManager.Calls.{Call}
use soros.Base.HashMap
use soros.DataStore
use soros.ClientBinary.Threads.{
  Registry, System, Step, of_writer, of_reader, writer_fails, writer_fails_late, writer_skips,
  reader_fails, reader_fails_late, reader_skips, to, reads_at, Reach, here, next, WriterAt,
  ReaderAt, Reply, reply_of, writer_step, reader_step, or_end, data_key, writer_id, reader_id,
  first_text, second_text,
}
use soros.ClientBinary.Threads.Roles.{Role}
use soros.ClientBinary.Threads.Manager.{IsLocking}
use soros.ClientBinary.Threads.Texts.{
  HasStored, HasReceived, or_end-stored, after_write-stored, stored-IsText, after_read-received,
  or_stop-received, failed-stored,
}
use soros.ClientBinary.Threads.Leaving.{release_writer-Stands, release_reader-Stands, delete-Stands}
use soros.ClientBinary.Threads.Stands.{
  HasWriterRole, HasReaderRole, Stands, create-Stands, write-Stands, read-Stands,
}

or_end-role :
    (registry : Registry) (reply : Reply) (r : Role) (b : Bool)
    → (r ≡ Role.out) × (b ≡ false)
    → HasWriterRole (or_end registry WriterAt.created reply) r b
or_end-role registry Reply.success r b h = h
or_end-role registry Reply.wait r b h = h.0
or_end-role registry Reply.failure r b h = h.0

module _ (registry : Registry) (laws : IsLocking registry) where
  -- The invariant of a system of which the threads stand at `w` and `at`.
  abbrev InvAt : System registry → WriterAt → ReaderAt → Type 0
  InvAt s w at =
      Stands registry laws s.state w at × HasStored w (s.store.data_map data_key) × HasReceived at

  abbrev pub Inv : System registry → Type 0
  Inv s = InvAt s s.writer s.reader

  moved :
      (w w' : WriterAt) (at : ReaderAt) (s : registry.State) (h : Stands registry laws s w at)
      → HasWriterRole w' h.writer_role (registry.has_told writer_id s)
      → Stands registry laws s w' at
  moved w w' at s h e = record {
    valid = h.valid;
    writer_role = h.writer_role;
    reader_role = h.reader_role;
    fits = h.fits;
    of_writer = e;
    of_reader = h.of_reader;
  }

  moved_reader :
      (w : WriterAt) (at at' : ReaderAt) (s : registry.State) (h : Stands registry laws s w at)
      → HasReaderRole at' h.reader_role (registry.has_told reader_id s)
      → Stands registry laws s w at'
  moved_reader w at at' s h e = record {
    valid = h.valid;
    writer_role = h.writer_role;
    reader_role = h.reader_role;
    fits = h.fits;
    of_writer = h.of_writer;
    of_reader = e;
  }

  write_of_granted :
      (s : System registry)
      → s.store.data_map data_key ≡ some first_text
      → writer_step registry WriterAt.granted s ≡ record s {
        writer = WriterAt.written;
        store = record s.store { data_map = HashMap.insert data_key second_text s.store.data_map };
      }
  unfolding writer_step DataStore.write
  write_of_granted s o = ground (arith, o)

  read_of_none :
      (s : System registry)
      → s.store.data_map data_key ≡ none
      → reader_step registry ReaderAt.granted s ≡ record s { reader = ReaderAt.unanswered }
  unfolding reader_step DataStore.get
  read_of_none s o = ground (arith, o)

  read_of_some :
      (s : System registry) (text : String)
      → s.store.data_map data_key ≡ some text
      → reader_step registry ReaderAt.granted s ≡ record s { reader = ReaderAt.received text }
  unfolding reader_step DataStore.get
  read_of_some s text o = ground (arith, o)

  writer_step-Inv :
      (w : WriterAt) (s : System registry)
      → s.writer ≡ w
      → InvAt s w s.reader
      → Inv (writer_step registry w s)
  unfolding writer_step DataStore.create DataStore.write
  writer_step-Inv WriterAt.started s e (h, o, t) =
      let (reply, s') = registry.ask (Call.create writer_id data_key) s.state in
      (
        create-Stands registry laws writer_id (or_end registry WriterAt.created (reply_of reply))
            s.reader s.state h.writer_role h.reader_role h.valid h.fits
            (or_end-role registry (reply_of reply) h.writer_role _ h.of_writer) h.of_reader,
        or_end-stored registry (reply_of reply) _ o,
        t,
      )
  writer_step-Inv WriterAt.created s e (h, o, t) =
      (moved WriterAt.created WriterAt.stored s.reader s.state h h.of_writer, refl, t)
  writer_step-Inv WriterAt.stored s e (h, o, t) = (
    create-Stands registry laws writer_id WriterAt.recreated s.reader s.state h.writer_role
        h.reader_role h.valid h.fits h.of_writer h.of_reader,
    o,
    t,
  )
  writer_step-Inv WriterAt.recreated s e (h, o, t) =
      let (reply, s') = registry.ask (Call.write writer_id data_key) s.state in
      (
        write-Stands registry laws s.reader s.state h,
        after_write-stored registry (reply_of reply) _ o,
        t,
      )
  writer_step-Inv WriterAt.waiting s e (h, o, t) =
      elim (Bool-cases (registry.has_told writer_id s.state)) [
        | inl b ↦ rw b (
          moved WriterAt.waiting WriterAt.granted s.reader s.state h
              (ground (arith, b, h.of_writer)),
          o,
          t,
        )
        | inr b ↦ rw b (subst (λ w. InvAt s w s.reader) (sym e) (h, o, t))
      ]
  writer_step-Inv WriterAt.granted s e (h, o, t) =
      subst Inv (sym (write_of_granted s o))
        (moved WriterAt.granted WriterAt.written s.reader s.state h h.of_writer, refl, t)
  writer_step-Inv WriterAt.written s e (h, o, t) =
      (release_writer-Stands registry laws s.reader s.state h, rw o (inr refl), t)
  writer_step-Inv WriterAt.ended s e h = subst (λ w. InvAt s w s.reader) (sym e) h
  writer_step-Inv WriterAt.failed s e h = subst (λ w. InvAt s w s.reader) (sym e) h

  reader_step-Inv :
      (at : ReaderAt) (s : System registry)
      → s.reader ≡ at
      → InvAt s s.writer at
      → Inv (reader_step registry at s)
  unfolding reader_step DataStore.create DataStore.get
  reader_step-Inv ReaderAt.started s e (h, o, t) = (
    create-Stands registry laws reader_id s.writer ReaderAt.tried s.state h.writer_role
        h.reader_role h.valid h.fits h.of_writer h.of_reader,
    o,
    tt,
  )
  reader_step-Inv ReaderAt.tried s e (h, o, t) =
      let (reply, s') = registry.ask (Call.read reader_id data_key) s.state in
      (
        read-Stands registry laws s.writer s.state h,
        o,
        after_read-received registry (reply_of reply),
      )
  reader_step-Inv ReaderAt.waiting s e (h, o, t) =
      elim (Bool-cases (registry.has_told reader_id s.state)) [
        | inl b ↦ rw b (
          moved_reader s.writer ReaderAt.waiting ReaderAt.granted s.state h
              (ground (arith, b, h.of_reader)),
          o,
          tt,
        )
        | inr b ↦ rw b (subst (InvAt s s.writer) (sym e) (h, o, t))
      ]
  reader_step-Inv ReaderAt.granted s e (h, o, t) = elim (Option-cases (s.store.data_map data_key)) [
    | inl b ↦
        subst Inv (sym (read_of_none s b))
          (moved_reader s.writer ReaderAt.granted ReaderAt.unanswered s.state h h.of_reader, o, tt)
    | inr (text, b) ↦ subst Inv (sym (read_of_some s text b)) (
      moved_reader s.writer ReaderAt.granted (ReaderAt.received text) s.state h h.of_reader,
      o,
      stored-IsText s.writer text (subst (HasStored s.writer) b o),
    )
  ]
  reader_step-Inv (ReaderAt.received text) s e (h, o, t) = (
    moved_reader s.writer (ReaderAt.received text) (ReaderAt.copied text) s.state h h.of_reader,
    o,
    t,
  )
  reader_step-Inv (ReaderAt.copied text) s e (h, o, t) =
      let (reply, s') = registry.ask (Call.release reader_id data_key) s.state in
      (
        release_reader-Stands registry laws text s.writer s.state h,
        o,
        or_stop-received registry text (reply_of reply) t,
      )
  reader_step-Inv (ReaderAt.released text) s e (h, o, t) =
      (delete-Stands registry laws text s.writer s.state h, o, tt)
  reader_step-Inv ReaderAt.unanswered s e h = subst (InvAt s s.writer) (sym e) h
  reader_step-Inv ReaderAt.ended s e h = subst (InvAt s s.writer) (sym e) h
  reader_step-Inv ReaderAt.failed s e h = subst (InvAt s s.writer) (sym e) h

  -- A thread that fails leaves the rest as it is.
  writer_failed-Inv : (s : System registry) → Inv s → Inv (to registry WriterAt.failed s)
  writer_failed-Inv s (h, o, t) = (
    moved s.writer WriterAt.failed s.reader s.state h tt,
    failed-stored s.writer (s.store.data_map data_key) o,
    t,
  )

  reader_failed-Inv : (s : System registry) → Inv s → Inv (reads_at registry ReaderAt.failed s)
  reader_failed-Inv s (h, o, t) =
      (moved_reader s.writer s.reader ReaderAt.failed s.state h tt, o, tt)

  Step-Inv : {s t : System registry} → Step registry s t → Inv s → Inv t
  Step-Inv {s} (of_writer e) h = subst Inv (sym e) (writer_step-Inv s.writer s refl h)
  Step-Inv {s} (of_reader e) h = subst Inv (sym e) (reader_step-Inv s.reader s refl h)
  Step-Inv {s} (writer_fails may e) h = subst Inv (sym e) (writer_failed-Inv s h)
  Step-Inv {s} (writer_fails_late may e) h =
      subst Inv (sym e)
        (writer_failed-Inv (writer_step registry s.writer s) (writer_step-Inv s.writer s refl h))
  Step-Inv {s} (writer_skips w e) h =
      let (h, o, t) = subst (λ w. InvAt s w s.reader) w h in
      subst Inv (sym e)
        (moved WriterAt.stored WriterAt.recreated s.reader s.state h h.of_writer, o, t)
  Step-Inv {s} (reader_fails may e) h = subst Inv (sym e) (reader_failed-Inv s h)
  Step-Inv {s} (reader_fails_late may e) h =
      subst Inv (sym e)
        (reader_failed-Inv (reader_step registry s.reader s) (reader_step-Inv s.reader s refl h))
  Step-Inv {s} (reader_skips at e) h =
      let (h, o, t) = subst (InvAt s s.writer) at h in
      subst Inv (sym e)
        (moved_reader s.writer ReaderAt.started ReaderAt.tried s.state h h.of_reader, o, tt)

  pub Reach-Inv : {s t : System registry} → Inv s → Reach registry s t → Inv t
  Reach-Inv h here = h
  Reach-Inv h (next r st) = Step-Inv st (Reach-Inv h r)
