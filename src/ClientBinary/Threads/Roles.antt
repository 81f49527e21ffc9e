-- ===== src/ClientBinary/Threads/Roles.antt =====
-- The two threads at the lock of their key: whether each is out, in the queue, or inside.
use soros.Base.{
  Bool, true, false, ◌||◌, List, [], ◌∷◌, Option, none, some, ◌⊎◌, inl, inr, ◌≡◌, refl, ◌==◌, arith,
}
use soros.Protocol.{ProcId, RequestType}
use soros.AccessManager.{AccessGranted, KeyState}
use soros.AccessManager.Lock.{Request, served, next_served}
use soros.AccessManager.Calls.{Call, lock_after, told, answer}
use soros.AccessManager.Release.{after_release, let_in}
use soros.ClientBinary.Threads.{data_key, writer_id, reader_id, Reply, reply_of}

pub data Role : Type 0 where
  out queued inside : Role

abbrev pub lock_with : List Request → List ProcId → Option ProcId → ProcId → KeyState
lock_with pending readers writer creator = record {
  pending_request = pending;
  readers = readers;
  writer = writer;
  creator = creator;
}

-- There is a lock, and it is the given one but for its creator.
abbrev pub Is : (ProcId → KeyState) → Option KeyState → Type 0
Is lock o = (creator : ProcId) × (o ≡ some (lock creator))

-- The lock where the writing and the reading thread have these roles. The two are never both inside.
abbrev pub Fits : Role → Role → Option KeyState → Type 0
Fits Role.out Role.out o = (o ≡ none) ⊎ Is (lock_with [] [] none) o
Fits Role.inside Role.out o = Is (lock_with [] [] (some writer_id)) o
Fits Role.out Role.inside o = Is (lock_with [] (reader_id ∷ []) none) o
Fits Role.inside Role.queued o =
    Is (lock_with ((reader_id, RequestType.read) ∷ []) [] (some writer_id)) o
Fits Role.queued Role.inside o =
    Is (lock_with ((writer_id, RequestType.write) ∷ []) (reader_id ∷ []) none) o
Fits r q o = ⊥

abbrev pub tells : ProcId → List AccessGranted → Bool
tells p [] = false
tells p (g ∷ gs) = (g.0 == p) || tells p gs

-- A thread's role after it has asked, by the reply.
abbrev pub by_reply : Reply → Role
by_reply Reply.success = Role.inside
by_reply Reply.wait = Role.queued
by_reply Reply.failure = Role.out

-- The role of the other thread after a release.
abbrev pub let_go : Role → Role
let_go Role.queued = Role.inside
let_go role = role

abbrev pub is_queued : Role → Bool
is_queued Role.queued = true
is_queued role = false

pub create-Fits :
    (p : ProcId) (r q : Role) (o : Option KeyState)
    → Fits r q o
    → Fits r q (lock_after (Call.create p data_key) o)
unfolding lock_after
create-Fits p Role.out Role.out o (inl e) = inr (p, ground (arith, e))
create-Fits p Role.out Role.out o (inr (c, e)) = inr (c, ground (arith, e))
create-Fits p Role.inside Role.out o (c, e) = (c, ground (arith, e))
create-Fits p Role.out Role.inside o (c, e) = (c, ground (arith, e))
create-Fits p Role.inside Role.queued o (c, e) = (c, ground (arith, e))
create-Fits p Role.queued Role.inside o (c, e) = (c, ground (arith, e))
create-Fits p Role.inside Role.inside o f = f
create-Fits p Role.out Role.queued o f = f
create-Fits p Role.queued Role.out o f = f
create-Fits p Role.queued Role.queued o f = f

pub write-Fits :
    (q : Role) (o : Option KeyState)
    → Fits Role.out q o
    → Fits
        (by_reply (reply_of (answer (Call.write writer_id data_key) o)))
        q
        (lock_after (Call.write writer_id data_key) o)
unfolding lock_after answer
write-Fits Role.out o (inl e) = rw e (inl refl)
write-Fits Role.out o (inr (c, e)) = rw e (c, refl)
write-Fits Role.inside o (c, e) = rw e (c, refl)
write-Fits Role.queued o f = elim f [ ]

pub read-Fits :
    (r : Role) (o : Option KeyState)
    → Fits r Role.out o
    → Fits r
        (by_reply (reply_of (answer (Call.read reader_id data_key) o)))
        (lock_after (Call.read reader_id data_key) o)
unfolding lock_after answer
read-Fits Role.out o (inl e) = rw e (inl refl)
read-Fits Role.out o (inr (c, e)) = rw e (c, refl)
read-Fits Role.inside o (c, e) = rw e (c, refl)
read-Fits Role.queued o f = elim f [ ]

pub delete-Fits :
    (r : Role) (o : Option KeyState)
    → Fits r Role.out o
    → Fits r Role.out (lock_after (Call.delete data_key) o)
unfolding lock_after
delete-Fits Role.out o (inl e) = rw e (inl refl)
delete-Fits Role.out o (inr (c, e)) = rw e (inl refl)
delete-Fits Role.inside o (c, e) = rw e (c, refl)
delete-Fits Role.queued o f = elim f [ ]

-- The writing thread is inside and releases: it is out, and the other is let in if it waits, and told.
pub release_writer-Fits :
    (q : Role) (o : Option KeyState)
    → Fits Role.inside q o
    → let call = Call.release writer_id data_key in
      Fits Role.out (let_go q) (lock_after call o)
      × (tells reader_id (told call o) ≡ is_queued q)
      × (tells writer_id (told call o) ≡ false)
unfolding lock_after told after_release let_in served next_served
release_writer-Fits Role.out o (c, e) = rw e (inr (c, refl), refl, refl)
release_writer-Fits Role.queued o (c, e) = rw e ((c, refl), refl, refl)
release_writer-Fits Role.inside o f = elim f [ ]

pub release_reader-Fits :
    (r : Role) (o : Option KeyState)
    → Fits r Role.inside o
    → let call = Call.release reader_id data_key in
      Fits (let_go r) Role.out (lock_after call o)
      × (tells writer_id (told call o) ≡ is_queued r)
      × (tells reader_id (told call o) ≡ false)
      × (reply_of (answer call o) ≡ Reply.success)
unfolding lock_after told answer after_release let_in served next_served
release_reader-Fits Role.out o (c, e) = rw e (inr (c, refl), refl, refl, refl)
release_reader-Fits Role.queued o (c, e) = rw e ((c, refl), refl, refl, refl)
release_reader-Fits Role.inside o f = elim f [ ]
