-- ===== src/AccessManager/Release.antt =====
-- What `release` does: the holder leaves, and the last one to leave lets the next requests in.
use soros.Base.{
  refl, inl, inr, ◌≡◌, Bool, true, false, not, ◌&&◌, ◌||◌, List, [], none, some, if◌then◌else◌,
  is_some, is_empty, ok, err, arith, is_some, Bool-cases, All,
}
use soros.Base.HashSet
use soros.Base.HashSet.{HashOrder}
use soros.Protocol.{ProcId, KeyId}
use soros.AccessManager.{KeyState, AccessManager, release_access, release, is_writer, put_key_state}
use soros.AccessManager.Lock.{Request, IsValid, next_served, served, grants, IsAccess}
use soros.AccessManager.Serve.{Effect, Effect-put, Effect-put_self, handle_requesting-Effect}

abbrev pub holds : ProcId → KeyState → Bool
holds p ks = is_writer p ks.writer || HashSet.contains p ks.readers

abbrev pub is_free : KeyState → Bool
is_free ks = not (is_some ks.writer) && is_empty ks.readers

-- The lock without the access of `p`.
abbrev pub vacate : ProcId → KeyState → KeyState
vacate p ks = record ks {
  writer = if is_writer p ks.writer then none else ks.writer;
  readers = HashSet.remove p ks.readers;
}

-- The lock after `p` has left, and the requests that this lets in.
unfoldable pub after_release : ProcId → KeyState → KeyState
after_release p ks =
    if is_free (vacate p ks) then served ks.pending_request (vacate p ks) else vacate p ks

unfoldable pub let_in : ProcId → KeyState → List Request
let_in p ks = if is_free (vacate p ks) then next_served ks.pending_request else []

module _ (order : HashOrder) (p : ProcId) (k : KeyId) (ks : KeyState) (m : AccessManager) where
  abbrev Released : Type 0
  Released =
      let (r, m') = release order p k m in
      (r ≡ ok tt) × Effect k (some (after_release p ks)) (grants k ks.creator (let_in p ks)) m m'

  release_by_writer :
      is_writer p ks.writer ≡ true
      → ks.readers ≡ []
      → All IsAccess ks.pending_request
      → m.access_granted.connected ≡ true
      → m.key_states k ≡ some ks
      → Released
  unfolding release after_release let_in
  release_by_writer w r a c h =
      let free : KeyState = record ks { writer = none } in
      let m1 : AccessManager = put_key_state k free m in
      let (done, f) = handle_requesting-Effect order k free m1 refl r a c (ground arith) in
      let f' = Effect-put k free _ _ m _ f in
      let e : vacate p ks ≡ free = ground arith in ground (arith, done, f', e)

  release_by_reader :
      is_writer p ks.writer ≡ false
      → ks.writer ≡ none
      → HashSet.contains p ks.readers ≡ true
      → All IsAccess ks.pending_request
      → m.access_granted.connected ≡ true
      → m.key_states k ≡ some ks
      → Released
  unfolding release after_release let_in
  release_by_reader nw w r a c h =
      let left : KeyState = record ks { readers = HashSet.remove p ks.readers } in
      let m1 : AccessManager = put_key_state k left m in
      let e : vacate p ks ≡ left = ground arith in
      elim (Bool-cases (is_empty left.readers)) [
        | inl last ↦
            let (done, f) =
              handle_requesting-Effect order k left m1 w (ground arith) a c (ground arith) in
            let f' = Effect-put k left _ _ m _ f in ground (arith, done, f', e)
        | inr more ↦ ground (arith, Effect-put_self k left m, e)
      ]

  -- A holder's release succeeds. The other locks stay; the lock of `k` loses the holder; and if no
  -- holder is left it goes to the requests at the front of its queue, who are told of it in order.
  pub release-Effect :
      IsValid ks
      → holds p ks ≡ true
      → m.access_granted.connected ≡ true
      → m.key_states k ≡ some ks
      → Released
  release-Effect v hold c h = elim (Bool-cases (is_writer p ks.writer)) [
    | inl w ↦ release_by_writer w (ground (arith, v.exclusive)) v.access c h
    | inr nw ↦ release_by_reader nw (ground (arith, v.exclusive)) (ground arith) v.access c h
  ]

  -- Whoever holds nothing is refused, and nothing changes.
  pub release-refused :
      holds p ks ≡ false
      → m.key_states k ≡ some ks
      → release order p k m ≡ (err (release_access p k), m)
  unfolding release
  release-refused hold h = ground arith
