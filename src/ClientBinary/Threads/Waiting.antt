-- ===== src/ClientBinary/Threads/Waiting.antt =====
-- When one of the two threads waits, the other holds its access or has left.
use soros.Base.{Bool, true, false, ◌&&◌, Option, ◌≡◌, refl, inl, inr, arith, Bool-cases, subst, not}
use soros.AccessManager.{KeyState}
use soros.ClientBinary.Threads.{WriterAt, ReaderAt}
use soros.ClientBinary.Threads.Roles.{Role, Fits}
use soros.ClientBinary.Threads.Stands.{HasWriterRole, HasReaderRole}

-- A thread waits, and has not been told.
abbrev pub writer_waits : WriterAt → Bool → Bool
writer_waits WriterAt.waiting told = not told
writer_waits other told = false

abbrev pub reader_waits : ReaderAt → Bool → Bool
reader_waits ReaderAt.waiting told = not told
reader_waits other told = false

-- A thread has its access, or has failed and may have left with it.
abbrev pub may_write : WriterAt → Bool → Bool
may_write WriterAt.waiting told = told
may_write WriterAt.granted told = true
may_write WriterAt.written told = true
may_write WriterAt.failed told = true
may_write other told = false

abbrev pub may_read : ReaderAt → Bool → Bool
may_read ReaderAt.started told = false
may_read ReaderAt.tried told = false
may_read ReaderAt.ended told = false
may_read ReaderAt.waiting told = told
may_read (ReaderAt.released t) told = false
may_read other told = true

queued_writer :
    (w : WriterAt) (r : Role) (b : Bool)
    → HasWriterRole w r b
    → writer_waits w b ≡ true
    → r ≡ Role.queued
queued_writer WriterAt.waiting r false h e = h
queued_writer WriterAt.waiting r true h e = cc
queued_writer WriterAt.started r b h e = cc
queued_writer WriterAt.created r b h e = cc
queued_writer WriterAt.stored r b h e = cc
queued_writer WriterAt.recreated r b h e = cc
queued_writer WriterAt.granted r b h e = cc
queued_writer WriterAt.written r b h e = cc
queued_writer WriterAt.ended r b h e = cc
queued_writer WriterAt.failed r b h e = cc

queued_reader :
    (at : ReaderAt) (q : Role) (b : Bool)
    → HasReaderRole at q b
    → reader_waits at b ≡ true
    → q ≡ Role.queued
queued_reader ReaderAt.waiting q false h e = h
queued_reader ReaderAt.waiting q true h e = cc
queued_reader ReaderAt.started q b h e = cc
queued_reader ReaderAt.tried q b h e = cc
queued_reader ReaderAt.granted q b h e = cc
queued_reader (ReaderAt.received t) q b h e = cc
queued_reader (ReaderAt.copied t) q b h e = cc
queued_reader (ReaderAt.released t) q b h e = cc
queued_reader ReaderAt.unanswered q b h e = cc
queued_reader ReaderAt.ended q b h e = cc
queued_reader ReaderAt.failed q b h e = cc

inside_reader : (at : ReaderAt) (b : Bool) → HasReaderRole at Role.inside b → may_read at b ≡ true
inside_reader ReaderAt.started b h = cc
inside_reader ReaderAt.tried b h = cc
inside_reader ReaderAt.waiting true h = refl
inside_reader ReaderAt.waiting false h = cc
inside_reader ReaderAt.granted b h = refl
inside_reader (ReaderAt.received t) b h = refl
inside_reader (ReaderAt.copied t) b h = refl
inside_reader (ReaderAt.released t) b h = cc
inside_reader ReaderAt.unanswered b h = refl
inside_reader ReaderAt.ended b h = cc
inside_reader ReaderAt.failed b h = refl

inside_writer : (w : WriterAt) (b : Bool) → HasWriterRole w Role.inside b → may_write w b ≡ true
inside_writer WriterAt.started b h = cc
inside_writer WriterAt.created b h = cc
inside_writer WriterAt.stored b h = cc
inside_writer WriterAt.recreated b h = cc
inside_writer WriterAt.waiting true h = refl
inside_writer WriterAt.waiting false h = cc
inside_writer WriterAt.granted b h = refl
inside_writer WriterAt.written b h = refl
inside_writer WriterAt.ended b h = cc
inside_writer WriterAt.failed b h = refl

beside_queued_writer : (q : Role) (o : Option KeyState) → Fits Role.queued q o → q ≡ Role.inside
beside_queued_writer Role.inside o f = refl
beside_queued_writer Role.out o f = elim f [ ]
beside_queued_writer Role.queued o f = elim f [ ]

beside_queued_reader : (r : Role) (o : Option KeyState) → Fits r Role.queued o → r ≡ Role.inside
beside_queued_reader Role.inside o f = refl
beside_queued_reader Role.out o f = elim f [ ]
beside_queued_reader Role.queued o f = elim f [ ]

module _ (w : WriterAt) (at : ReaderAt) (r q : Role) (b b' : Bool) (o : Option KeyState) where
  pub writer-HasCause :
      HasWriterRole w r b
      → HasReaderRole at q b'
      → Fits r q o
      → (writer_waits w b && not (may_read at b')) ≡ false
  writer-HasCause hw hr f = elim (Bool-cases (writer_waits w b)) [
    | inr e ↦ rw e refl
    | inl e ↦
        let is_in =
          beside_queued_writer q o (subst (λ r. Fits r q o) (queued_writer w r b hw e) f) in
        let may = inside_reader at b' (subst (λ q. HasReaderRole at q b') is_in hr) in
        ground (arith, e, may)
  ]

  pub reader-HasCause :
      HasWriterRole w r b
      → HasReaderRole at q b'
      → Fits r q o
      → (reader_waits at b' && not (may_write w b)) ≡ false
  reader-HasCause hw hr f = elim (Bool-cases (reader_waits at b')) [
    | inr e ↦ rw e refl
    | inl e ↦
        let is_in =
          beside_queued_reader r o (subst (λ q. Fits r q o) (queued_reader at q b' hr e) f) in
        let may = inside_writer w b (subst (λ r. HasWriterRole w r b) is_in hw) in
        ground (arith, e, may)
  ]
