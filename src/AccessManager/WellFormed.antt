-- ===== src/AccessManager/WellFormed.antt =====
-- Every change that the access manager makes of a lock keeps it well formed.
use soros.Base.{
  ◌≡◌, ◌≢◌, refl, ◌⊎◌, inl, inr, List, [], ◌∷◌, none, All, All-append, arith, Bool-cases, true,
  false, ◌++◌,
}
use soros.Base.HashSet
use soros.Base.HashSet.{HashOrder, Distinct, insert-Distinct, remove-Distinct}
use soros.Protocol.{ProcId, RequestType}
use soros.AccessManager.{KeyState, push_back, register_reader, register_writer, is_write_front}
use soros.AccessManager.Lock.{
  Request, IsAccess, IsValid, is_read_front, leading_readers, after_readers, insert_all, served,
}
use soros.AccessManager.Release.{is_free, vacate, after_release}
use soros.AccessManager.Calls.{read_waits}

after_readers-IsAccess : (ps : List Request) → All IsAccess ps → All IsAccess (after_readers ps)
unfolding after_readers
after_readers-IsAccess [] a = tt
after_readers-IsAccess ((p, RequestType.read) ∷ ps) a = after_readers-IsAccess ps a.1
after_readers-IsAccess ((p, RequestType.write) ∷ ps) a = a
after_readers-IsAccess ((p, RequestType.create) ∷ ps) a = a
after_readers-IsAccess ((p, RequestType.delete) ∷ ps) a = a
after_readers-IsAccess ((p, RequestType.release) ∷ ps) a = a

after_readers_front : (ps : List Request) → is_read_front (after_readers ps) ≡ false
unfolding after_readers
after_readers_front [] = refl
after_readers_front ((p, RequestType.read) ∷ ps) = after_readers_front ps
after_readers_front ((p, RequestType.write) ∷ ps) = refl
after_readers_front ((p, RequestType.create) ∷ ps) = refl
after_readers_front ((p, RequestType.delete) ∷ ps) = refl
after_readers_front ((p, RequestType.release) ∷ ps) = refl

insert-ne-nil : (p : ProcId) (rs : List ProcId) → HashSet.insert p rs ≢ []
insert-ne-nil p [] e = cc
insert-ne-nil p (r ∷ rs) e = ground arith

insert_all-ne-nil : (ps rs : List ProcId) → rs ≢ [] → insert_all ps rs ≢ []
insert_all-ne-nil [] rs h = h
insert_all-ne-nil (p ∷ ps) rs h = insert_all-ne-nil ps (HashSet.insert p rs) (insert-ne-nil p rs)

insert_all-Distinct : (ps rs : List ProcId) → Distinct rs → Distinct (insert_all ps rs)
insert_all-Distinct [] rs h = h
insert_all-Distinct (p ∷ ps) rs h =
    insert_all-Distinct ps (HashSet.insert p rs) (insert-Distinct p rs h)

pub served-IsValid :
    (ps : List Request) (ks : KeyState)
    → ks.pending_request ≡ ps
    → ks.writer ≡ none
    → ks.readers ≡ []
    → All IsAccess ps
    → IsValid (served ps ks)
unfolding served
served-IsValid [] ks e w r a = record {
  exclusive = inl w;
  busy = inl e;
  front = inr (ground arith);
  access = ground arith;
  distinct = ground arith;
}
served-IsValid ((p, RequestType.write) ∷ ps) ks e w r a = record {
  exclusive = inr r;
  busy = inr (inl (λ q. cc));
  front = inl (λ q. cc);
  access = a.1;
  distinct = ground arith;
}
served-IsValid ((p, RequestType.read) ∷ ps) ks e w r a = record {
  exclusive = inl w;
  busy = inr (inr (insert_all-ne-nil (leading_readers ps) _ (insert-ne-nil p ks.readers)));
  front = inr (after_readers_front ps);
  access = after_readers-IsAccess ps a.1;
  distinct = insert_all-Distinct (leading_readers ps) _ (ground arith);
}
served-IsValid ((p, RequestType.create) ∷ ps) ks e w r a = absurd a.0
served-IsValid ((p, RequestType.delete) ∷ ps) ks e w r a = absurd a.0
served-IsValid ((p, RequestType.release) ∷ ps) ks e w r a = absurd a.0

is_read_front-push_read :
    (ps : List Request) (p : ProcId)
    → is_write_front ps ≡ true
    → is_read_front (ps ++ (p, RequestType.read) ∷ []) ≡ false
is_read_front-push_read [] p h = cc
is_read_front-push_read ((q, RequestType.write) ∷ ps) p h = refl
is_read_front-push_read ((q, RequestType.read) ∷ ps) p h = cc
is_read_front-push_read ((q, RequestType.create) ∷ ps) p h = cc
is_read_front-push_read ((q, RequestType.delete) ∷ ps) p h = cc
is_read_front-push_read ((q, RequestType.release) ∷ ps) p h = cc

is_read_front-push_write :
    (ps : List Request) (p : ProcId)
    → is_read_front ps ≡ false
    → is_read_front (ps ++ (p, RequestType.write) ∷ []) ≡ false
is_read_front-push_write [] p h = refl
is_read_front-push_write ((q, RequestType.write) ∷ ps) p h = refl
is_read_front-push_write ((q, RequestType.read) ∷ ps) p h = h
is_read_front-push_write ((q, RequestType.create) ∷ ps) p h = refl
is_read_front-push_write ((q, RequestType.delete) ∷ ps) p h = refl
is_read_front-push_write ((q, RequestType.release) ∷ ps) p h = refl

pub held_of_not_free : (ks : KeyState) → is_free ks ≡ false → (ks.writer ≢ none) ⊎ (ks.readers ≢ [])
held_of_not_free ks h = ground arith

module _ (p : ProcId) (ks : KeyState) (v : IsValid ks) where
  open v use {exclusive, busy, front, access, distinct}

  pub push_read-IsValid : read_waits ks ≡ true → IsValid (push_back (p, RequestType.read) ks)
  push_read-IsValid h = record {
    exclusive = exclusive;
    busy = inr (ground (arith, busy));
    front = ground (arith, is_read_front-push_read ks.pending_request p);
    access = All-append IsAccess ks.pending_request _ access (tt, tt);
    distinct = distinct;
  }

  pub push_write-IsValid : is_free ks ≡ false → IsValid (push_back (p, RequestType.write) ks)
  push_write-IsValid h = record {
    exclusive = exclusive;
    busy = inr (ground (arith, busy));
    front = ground (arith, front, is_read_front-push_write ks.pending_request p);
    access = All-append IsAccess ks.pending_request _ access (tt, tt);
    distinct = distinct;
  }

  pub register_reader-IsValid : read_waits ks ≡ false → IsValid (register_reader p ks)
  register_reader-IsValid h = record {
    exclusive = inl (ground arith);
    busy = inr (inr (insert-ne-nil p ks.readers));
    front = inr (ground (arith, front));
    access = access;
    distinct = insert-Distinct p ks.readers distinct;
  }

  pub register_writer-IsValid : is_free ks ≡ true → IsValid (register_writer p ks)
  register_writer-IsValid h = record {
    exclusive = inr (ground arith);
    busy = inr (inl (λ q. cc));
    front = inl (λ q. cc);
    access = access;
    distinct = distinct;
  }

  pub vacate-IsValid : is_free (vacate p ks) ≡ false → IsValid (vacate p ks)
  vacate-IsValid h = record {
    exclusive = ground (arith, exclusive);
    busy = inr (held_of_not_free (vacate p ks) h);
    front = ground (arith, exclusive, front);
    access = access;
    distinct = remove-Distinct p ks.readers distinct;
  }

  pub after_release-IsValid : IsValid (after_release p ks)
  unfolding after_release
  after_release-IsValid = elim (Bool-cases (is_free (vacate p ks))) [
    | inl e ↦
        rw e (
          served-IsValid ks.pending_request (vacate p ks) refl (ground arith) (ground arith) access)
    | inr e ↦ rw e (vacate-IsValid e)
  ]
