-- ===== src/AccessManager/Serve.antt =====
-- `handle_requesting` on a lock that nobody holds: it serves the front of the queue.
use soros.Base.{
  ◌≡◌, refl, true, false, List, [], ◌∷◌, ◌++◌, map, Option, none, some, All, ◌==◌, ok, arith,
  append-nil, append_assoc, ℕ,
}
use soros.Base.HashSet.{HashOrder}
use soros.Protocol.{KeyId, RequestType}
use soros.Channel.{Channel}
use soros.AccessManager.{
  AccessGranted, KeyState, AccessManager, grant_reads, handle_front, handle_requesting, holder,
  register_reader, put_key_state,
}
use soros.AccessManager.Lock.{
  Request, IsAccess, leading_readers, after_readers, insert_all, next_served, served, grants,
}

-- From `m` to `m'` the lock of `k` has become `o`, the messages `gs` were sent, and no other lock
-- has changed.
pub record Effect (k : KeyId) (o : Option KeyState) (gs : List AccessGranted) (m m' : AccessManager)
    : Type 0 where
  pub here : m'.key_states k ≡ o
  pub others : (j : ℕ) → (k == j) ≡ false → m'.key_states j ≡ m.key_states j
  pub sent : m'.access_granted.sent ≡ m.access_granted.sent ++ gs
  pub connected : m'.access_granted.connected ≡ m.access_granted.connected

pub grant_reads_lem :
    (k h : ℕ) (pending : List Request) (ks : KeyState) (ch : Channel AccessGranted)
    → ks.pending_request ≡ pending
    → ch.connected ≡ true
    → grant_reads k h pending ks ch ≡ (
      ok tt,
      record ks {
        pending_request = after_readers pending;
        readers = insert_all (leading_readers pending) ks.readers;
      },
      record ch {
        sent = ch.sent ++ grants k h (map (λ q. (q, RequestType.read)) (leading_readers pending));
      },
    )
unfolding grant_reads after_readers leading_readers
grant_reads_lem k h [] ks ch e c = ground (arith, append-nil ch.sent)
grant_reads_lem k h ((p, RequestType.write) ∷ rest) ks ch e c = ground (arith, append-nil ch.sent)
grant_reads_lem k h ((p, RequestType.create) ∷ rest) ks ch e c = ground (arith, append-nil ch.sent)
grant_reads_lem k h ((p, RequestType.delete) ∷ rest) ks ch e c = ground (arith, append-nil ch.sent)
grant_reads_lem k h ((p, RequestType.release) ∷ rest) ks ch e c = ground (arith, append-nil ch.sent)
grant_reads_lem k h ((p, RequestType.read) ∷ rest) ks ch e c = ground (
  arith,
  grant_reads_lem k h rest (record (register_reader p ks) { pending_request = rest })
      (record ch { sent = ch.sent ++ (p, k, RequestType.read, h) ∷ [] }) refl c,
  append_assoc ch.sent ((p, k, RequestType.read, h) ∷ [])
      (grants k h (map (λ q. (q, RequestType.read)) (leading_readers rest))),
)

-- Writing the lock of `k` first changes nothing of the effect.
pub Effect-put :
    (k : KeyId) (ks : KeyState) (o : Option KeyState) (gs : List AccessGranted)
    (m m' : AccessManager)
    → Effect k o gs (put_key_state k ks m) m'
    → Effect k o gs m m'
Effect-put k ks o gs m m' f = record {
  here = f.here;
  others = λ j ne. ground (arith, f.others j ne);
  sent = f.sent;
  connected = f.connected;
}

pub Effect-put_self :
    (k : KeyId) (ks : KeyState) (m : AccessManager) → Effect k (some ks) [] m (put_key_state k ks m)
Effect-put_self k ks m = ground (arith, append-nil m.access_granted.sent)

-- With a live receiver `handle_requesting` serves the front of a free lock.
module _ (order : HashOrder) (k : KeyId) (ks : KeyState) (m : AccessManager) where
  pub holder_free : ks.writer ≡ none → ks.readers ≡ [] → holder order ks ≡ ks.creator
  unfolding holder
  holder_free w r = ground arith

  handle_front-Effect :
      (pending : List Request)
      → ks.pending_request ≡ pending
      → ks.writer ≡ none
      → ks.readers ≡ []
      → All IsAccess pending
      → m.access_granted.connected ≡ true
      → m.key_states k ≡ some ks
      → let (r, m') = handle_front order k pending ks m in
        (r ≡ ok tt)
        × Effect k (some (served pending ks)) (grants k ks.creator (next_served pending)) m m'
  unfolding handle_front holder served next_served
  handle_front-Effect [] e w r a c h = ground (arith, append-nil m.access_granted.sent)
  handle_front-Effect ((p, RequestType.write) ∷ rest) e w r a c h = ground arith
  handle_front-Effect ((p, RequestType.read) ∷ rest) e w r a c h = ground (
    arith,
    grant_reads_lem k ks.creator ((p, RequestType.read) ∷ rest) ks m.access_granted e c,
    holder_free w r,
  )
  handle_front-Effect ((p, RequestType.create) ∷ rest) e w r a c h = absurd a.0
  handle_front-Effect ((p, RequestType.delete) ∷ rest) e w r a c h = absurd a.0
  handle_front-Effect ((p, RequestType.release) ∷ rest) e w r a c h = absurd a.0

  pub handle_requesting-Effect :
      ks.writer ≡ none
      → ks.readers ≡ []
      → All IsAccess ks.pending_request
      → m.access_granted.connected ≡ true
      → m.key_states k ≡ some ks
      → let (r, m') = handle_requesting order k m in
        (r ≡ ok tt)
        × Effect k
            (some (served ks.pending_request ks))
            (grants k ks.creator (next_served ks.pending_request))
            m
            m'
  unfolding handle_requesting
  handle_requesting-Effect w r a c h =
      ground (arith, handle_front-Effect ks.pending_request refl w r a c h)
