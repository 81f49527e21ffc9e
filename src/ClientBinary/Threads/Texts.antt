-- ===== src/ClientBinary/Threads/Texts.antt =====
-- What the first thread has stored, and what the second has received, where they stand.
use soros.Base.{String, Option, none, some, ◌≡◌, ◌⊎◌, inl, inr, arith, refl}
use soros.ClientBinary.Threads.{
  Registry, WriterAt, ReaderAt, Reply, after_write, after_read, or_end, or_stop, first_text,
  second_text,
}

-- The two texts that the first thread gives to its data.
abbrev pub IsText : String → Type 0
IsText t = (t ≡ first_text) ⊎ (t ≡ second_text)

abbrev pub HasStored : WriterAt → Option String → Type 0
HasStored WriterAt.started o = o ≡ none
HasStored WriterAt.created o = o ≡ none
HasStored WriterAt.written o = o ≡ some second_text
HasStored WriterAt.ended none = Unit
HasStored WriterAt.ended (some t) = IsText t
HasStored WriterAt.failed none = Unit
HasStored WriterAt.failed (some t) = IsText t
HasStored other o = o ≡ some first_text

abbrev pub HasReceived : ReaderAt → Type 0
HasReceived (ReaderAt.received t) = IsText t
HasReceived (ReaderAt.copied t) = IsText t
HasReceived (ReaderAt.released t) = IsText t
HasReceived other = Unit

pub or_end-stored :
    (registry : Registry) (reply : Reply) (o : Option String)
    → o ≡ none
    → HasStored (or_end registry WriterAt.created reply) o
or_end-stored registry Reply.success o e = e
or_end-stored registry Reply.wait o e = rw e tt
or_end-stored registry Reply.failure o e = rw e tt

pub after_write-stored :
    (registry : Registry) (reply : Reply) (o : Option String)
    → o ≡ some first_text
    → HasStored (after_write registry reply) o
after_write-stored registry Reply.success o e = e
after_write-stored registry Reply.wait o e = e
after_write-stored registry Reply.failure o e = rw e (inl refl)

pub stored-IsText : (w : WriterAt) (t : String) → HasStored w (some t) → IsText t
stored-IsText WriterAt.started t e = ground arith
stored-IsText WriterAt.created t e = ground arith
stored-IsText WriterAt.stored t e = inl (ground arith)
stored-IsText WriterAt.recreated t e = inl (ground arith)
stored-IsText WriterAt.waiting t e = inl (ground arith)
stored-IsText WriterAt.granted t e = inl (ground arith)
stored-IsText WriterAt.written t e = inr (ground arith)
stored-IsText WriterAt.ended t e = e
stored-IsText WriterAt.failed t e = e

-- A failure may come whatever has been stored.
pub failed-stored : (w : WriterAt) (o : Option String) → HasStored w o → HasStored WriterAt.failed o
failed-stored w none h = tt
failed-stored w (some t) h = stored-IsText w t h

pub after_read-received :
    (registry : Registry) (reply : Reply) → HasReceived (after_read registry reply)
after_read-received registry Reply.success = tt
after_read-received registry Reply.wait = tt
after_read-received registry Reply.failure = tt

pub or_stop-received :
    (registry : Registry) (t : String) (reply : Reply)
    → IsText t
    → HasReceived (or_stop registry (ReaderAt.released t) reply)
or_stop-received registry t Reply.success h = h
or_stop-received registry t Reply.wait h = tt
or_stop-received registry t Reply.failure h = tt
