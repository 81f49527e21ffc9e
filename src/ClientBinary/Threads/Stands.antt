-- ===== src/ClientBinary/Threads/Stands.antt =====
-- Where the two threads stand at their lock, and that each call keeps it so.
use soros.Base.{[], Bool, true, false, ◌||◌, ◌≡◌, refl, sym, subst, if◌then◌else◌, ap}
use soros.Protocol.{ProcId}
use soros.AccessManager.Calls.{Call, key_of, lock_after, told, answer}
use soros.ClientBinary.Threads.{
  Registry, WriterAt, ReaderAt, Reply, reply_of, data_key, writer_id, reader_id, after_read,
  after_write,
}
use soros.ClientBinary.Threads.Roles.{
  Role, Fits, tells, by_reply, create-Fits, write-Fits, read-Fits,
}
use soros.ClientBinary.Threads.Manager.{IsLocking}

-- The role of the first thread where it stands; whether it has been told.
abbrev pub HasWriterRole : WriterAt → Role → Bool → Type 0
HasWriterRole WriterAt.waiting r b = r ≡ (if b then Role.inside else Role.queued)
HasWriterRole WriterAt.granted r b = r ≡ Role.inside
HasWriterRole WriterAt.written r b = r ≡ Role.inside
HasWriterRole WriterAt.ended r b = r ≡ Role.out
HasWriterRole WriterAt.failed r b = Unit
HasWriterRole other r b = (r ≡ Role.out) × (b ≡ false)

abbrev pub HasReaderRole : ReaderAt → Role → Bool → Type 0
HasReaderRole ReaderAt.started q b = (q ≡ Role.out) × (b ≡ false)
HasReaderRole ReaderAt.tried q b = (q ≡ Role.out) × (b ≡ false)
HasReaderRole ReaderAt.waiting q b = q ≡ (if b then Role.inside else Role.queued)
HasReaderRole ReaderAt.granted q b = q ≡ Role.inside
HasReaderRole (ReaderAt.received t) q b = q ≡ Role.inside
HasReaderRole (ReaderAt.copied t) q b = q ≡ Role.inside
HasReaderRole (ReaderAt.released t) q b = q ≡ Role.out
HasReaderRole ReaderAt.unanswered q b = q ≡ Role.inside
HasReaderRole ReaderAt.ended q b = q ≡ Role.out
HasReaderRole ReaderAt.failed q b = Unit

module _ (registry : Registry) (laws : IsLocking registry) where
  open registry use {State, ask, has_told}
  open laws use {Valid, lock_of}

  -- What the invariant says of the registry's state.
  pub record Stands (state : State) (w : WriterAt) (at : ReaderAt) : Type 0 where
    pub valid : Valid state
    pub writer_role : Role
    pub reader_role : Role
    pub fits : Fits writer_role reader_role (lock_of state data_key)
    pub of_writer : HasWriterRole w writer_role (has_told writer_id state)
    pub of_reader : HasReaderRole at reader_role (has_told reader_id state)

  -- A call on the key leaves both where the lock's step and what it tells put them.
  pub ask-Stands :
      (c : Call) (s : State) (w : WriterAt) (at : ReaderAt) (r q : Role)
      → key_of c ≡ data_key
      → Valid s
      → Fits r q (lock_after c (lock_of s (key_of c)))
      → HasWriterRole w r (has_told writer_id s || tells writer_id (told c (lock_of s (key_of c))))
      → HasReaderRole at q (has_told reader_id s || tells reader_id (told c (lock_of s (key_of c))))
      → Stands (ask c s).1 w at
  ask-Stands c s w at r q e v f hw hr = record {
    valid = laws.ask-Valid c s v;
    writer_role = r;
    reader_role = q;
    fits =
        subst (λ k. Fits r q (lock_of (ask c s).1 k)) e
          (subst (Fits r q) (sym (laws.ask-lock c s v)) f);
    of_writer = subst (HasWriterRole w r) (sym (laws.ask-told c writer_id s v)) hw;
    of_reader = subst (HasReaderRole at q) (sym (laws.ask-told c reader_id s v)) hr;
  }

  -- The reply of a call, by the lock.
  pub reply-ask :
      (c : Call) (s : State)
      → Valid s
      → reply_of (ask c s).0 ≡ reply_of (answer c (lock_of s (key_of c)))
  reply-ask c s v = ap reply_of (laws.ask-answer c s v)

  or_false : (b : Bool) → (b || false) ≡ b
  or_false true = refl
  or_false false = refl

  -- A call that tells nobody.
  pub quiet-Stands :
      (c : Call) (s : State) (w : WriterAt) (at : ReaderAt) (r q : Role)
      → key_of c ≡ data_key
      → told c (lock_of s (key_of c)) ≡ []
      → Valid s
      → Fits r q (lock_after c (lock_of s (key_of c)))
      → HasWriterRole w r (has_told writer_id s)
      → HasReaderRole at q (has_told reader_id s)
      → Stands (ask c s).1 w at
  quiet-Stands c s w at r q e silent v f hw hr =
      ask-Stands c s w at r q e v f (rw silent (rw (or_false (has_told writer_id s)) hw))
        (rw silent (rw (or_false (has_told reader_id s)) hr))

  pub create-Stands :
      (p : ProcId) (w : WriterAt) (at : ReaderAt) (s : State) (r q : Role)
      → Valid s
      → Fits r q (lock_of s data_key)
      → HasWriterRole w r (has_told writer_id s)
      → HasReaderRole at q (has_told reader_id s)
      → Stands (ask (Call.create p data_key) s).1 w at
  unfolding told
  create-Stands p w at s r q v f =
      quiet-Stands (Call.create p data_key) s w at r q refl refl v
        (create-Fits p r q (lock_of s data_key) f)

  -- Where the first thread stands after it has asked to write.
  after_write-role :
      (reply : Reply) (b : Bool)
      → b ≡ false
      → HasWriterRole (after_write registry reply) (by_reply reply) b
  after_write-role Reply.success b e = refl
  after_write-role Reply.wait b e = rw e refl
  after_write-role Reply.failure b e = refl

  after_read-role :
      (reply : Reply) (b : Bool)
      → b ≡ false
      → HasReaderRole (after_read registry reply) (by_reply reply) b
  after_read-role Reply.success b e = refl
  after_read-role Reply.wait b e = rw e refl
  after_read-role Reply.failure b e = refl

  pub write-Stands :
      (at : ReaderAt) (s : State)
      → Stands s WriterAt.recreated at
      → let (reply, s') = ask (Call.write writer_id data_key) s in
        Stands s' (after_write registry (reply_of reply)) at
  unfolding told
  write-Stands at s h =
      let c = Call.write writer_id data_key in
      let o = lock_of s data_key in
      rw (reply-ask c s h.valid) (
        quiet-Stands c s (after_write registry (reply_of (answer c o))) at
          (by_reply (reply_of (answer c o))) h.reader_role refl refl h.valid
          (write-Fits h.reader_role o (subst (λ r. Fits r h.reader_role o) h.of_writer.0 h.fits))
          (after_write-role (reply_of (answer c o)) (has_told writer_id s) h.of_writer.1)
          h.of_reader)

  pub read-Stands :
      (w : WriterAt) (s : State)
      → Stands s w ReaderAt.tried
      → let (reply, s') = ask (Call.read reader_id data_key) s in
        Stands s' w (after_read registry (reply_of reply))
  unfolding told
  read-Stands w s h =
      let c = Call.read reader_id data_key in
      let o = lock_of s data_key in
      rw (reply-ask c s h.valid) (
        quiet-Stands c s w (after_read registry (reply_of (answer c o))) h.writer_role
          (by_reply (reply_of (answer c o))) refl refl h.valid
          (read-Fits h.writer_role o (subst (λ q. Fits h.writer_role q o) h.of_reader.0 h.fits))
          h.of_writer
          (after_read-role (reply_of (answer c o)) (has_told reader_id s) h.of_reader.1))
