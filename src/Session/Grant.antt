-- ===== src/Session/Grant.antt =====
-- A write that has to wait, as the registry handles it: the request, and the release of the client that
-- has the key.
use soros.Base.{
  ℕ, ◌≡◌, refl, false, [], ◌∷◌, none, some, inr, ok, ◌==◌, ◌∙◌, ap, arith, subst, sym, List, All,
}
use soros.Protocol.{
  ProcId, KeyId, Bytes, RegistryResponse, RequestType, registry_request, registry_response, to_vec,
  from_slice,
}
use soros.AccessManager.{KeyState}
use soros.AccessManager.Calls.{Call, perform, lock_after, told, answer}
use soros.AccessManager.Release.{after_release, let_in}
use soros.AccessManager.Lock.{grants, served, next_served}
use soros.AccessManager.Invariant.{perform-IsSound}
use soros.AccessManager.Refinement.{IsSound, perform-Refines}
use soros.RegistryServer.{Platform, Server}
use soros.RegistryServer.Requests.{handle_data}
use soros.RegistryServer.Replies.{handle_data-reply, afterwards, reply, verdict_of}
use soros.RegistryServer.Delivery.{
  Clients, delivered, IsKnown, after_response-delivers, handle_data-release,
}

-- The lock that `p` has to itself, with these requests in its queue.
abbrev pub written_by : ProcId → ProcId → List (ProcId × RequestType) → KeyState
written_by creator p pending = record {
  pending_request = pending;
  readers = [];
  writer = some p;
  creator = creator;
}

module _ (platform : Platform) (clients : Clients platform) where
  open platform use {network, serde, order}
  open clients use {stream_of, addr_of, line_of}

  -- The registry once it has told `q` to wait.
  abbrev pub told_to_wait : ProcId → KeyId → network.World → Server platform → Server platform
  told_to_wait q k w s = delivered platform clients [] (record s {
    world = (network.write_all (stream_of q) (line_of (RegistryResponse.wait k)) w).1;
    access_manager = (perform order (Call.write q k) s.access_manager).1;
  })

  pub handle_data-wait :
      (p q creator : ProcId) (k : KeyId) (b : ℕ) (bs : Bytes) (w : network.World)
      (s : Server platform)
      → IsSound s.access_manager
      → (q == s.backup_token) ≡ false
      → s.token_stream_map q ≡ some (stream_of q)
      → network.read (stream_of q) 256 s.world ≡ (inr (b ∷ bs), w)
      → from_slice serde (b ∷ bs) ≡ inr (registry_request k q RequestType.write)
      → s.access_manager.key_states k ≡ some (written_by creator p [])
      → s.access_manager.access_granted.sent ≡ []
      → s.backup_stream ≡ none
      → handle_data platform q s ≡ (ok tt, told_to_wait q k w s)
  unfolding answer told
  handle_data-wait p q creator k b bs w s sound client found got parsed lock quiet alone =
      let m = s.access_manager in
      let line = line_of (RegistryResponse.wait k) in
      let w' = (network.write_all (stream_of q) line w).1 in
      let m' = (perform order (Call.write q k) m).1 in
      let s1 : Server platform = record s { world = w'; access_manager = m' } in
      let f = (perform-Refines order m (Call.write q k) sound).1 in
      let v : verdict_of platform q RequestType.write k s ≡ ok (RegistryResponse.wait k) =
        ground (arith, lock) in
      let sent : m'.access_granted.sent ≡ [] = ground (arith, f.sent, quiet, lock) in
      handle_data-reply platform q (stream_of q) b bs line q RequestType.write k w w' s sound refl
        client found got parsed
        (ap (λ x. to_vec serde (registry_response (reply platform x))) v
          ∙ clients.to_vec-line_of (RegistryResponse.wait k))
        (ap (λ x. (x, w')) (clients.write_all-ok (stream_of q) line w))
      ∙ (ap (λ x. afterwards platform q (b ∷ bs) x s1) v
          ∙ ground
              (arith, after_response-delivers platform clients (b ∷ bs) [] s1 sent tt tt alone))

  waiting-lock :
      (p q creator : ProcId) (k : KeyId) (w : network.World) (s : Server platform)
      → IsSound s.access_manager
      → s.access_manager.key_states k ≡ some (written_by creator p [])
      → (told_to_wait q k w s).access_manager.key_states k
        ≡ some (written_by creator p ((q, RequestType.write) ∷ []))
  unfolding lock_after
  waiting-lock p q creator k w s sound lock =
      ground (arith, (perform-Refines order s.access_manager (Call.write q k) sound).1.here, lock)

  waiting-IsSound :
      (q : ProcId) (k : KeyId) (w : network.World) (s : Server platform)
      → IsSound s.access_manager
      → IsSound (told_to_wait q k w s).access_manager
  waiting-IsSound q k w s sound =
      let after = perform-IsSound order (Call.write q k) s.access_manager sound in
      record { connected = after.connected; locks = after.locks }

  granted-lock :
      (p q creator : ProcId)
      → after_release p (written_by creator p ((q, RequestType.write) ∷ []))
        ≡ written_by creator q []
  unfolding after_release served
  granted-lock p q creator = ground arith

  let_in-writer :
      (p q creator : ProcId)
      → let_in p (written_by creator p ((q, RequestType.write) ∷ [])) ≡ (q, RequestType.write) ∷ []
  unfolding let_in next_served
  let_in-writer p q creator = ground arith

  -- The registry once the holder `p` has released the key and `q` has been told, where `w` is the
  -- network once the release has been read.
  abbrev pub granted_to :
      ProcId → ProcId → ProcId → KeyId → network.World → Server platform → Server platform
  granted_to p q creator k w s =
      delivered platform clients ((q, k, RequestType.write, creator) ∷ []) (record s {
        world = (network.write_all (stream_of p) (line_of (RegistryResponse.success k)) w).1;
        access_manager = (perform order (Call.release p k) s.access_manager).1;
      })

  pub handle_data-grant :
      (p q creator : ProcId) (k : KeyId) (a : ℕ) (rest : Bytes) (w w2 : network.World)
      (s : Server platform)
      → let s1 = told_to_wait q k w s in
        IsSound s.access_manager
        → s.access_manager.key_states k ≡ some (written_by creator p [])
        → (p == s.backup_token) ≡ false
        → s.token_stream_map p ≡ some (stream_of p)
        → s.token_stream_map q ≡ some (stream_of q)
        → s.token_addr_map creator ≡ some (addr_of creator)
        → s.backup_stream ≡ none
        → network.read (stream_of p) 256 s1.world ≡ (inr (a ∷ rest), w2)
        → from_slice serde (a ∷ rest) ≡ inr (registry_request k p RequestType.release)
        → (handle_data platform p s1 ≡ (ok tt, granted_to p q creator k w2 s1))
          × ((granted_to p q creator k w2 s1).access_manager.key_states k
              ≡ some (written_by creator q []))
  handle_data-grant p q creator k a rest w w2 s sound lock client holder_there waiter_there
        creator_there alone got parsed =
      let s1 = told_to_wait q k w s in
      let ks : KeyState = written_by creator p ((q, RequestType.write) ∷ []) in
      let e = ap (grants k creator) (let_in-writer p q creator) in
      let (done, here) =
        handle_data-release platform clients p (stream_of p) a rest p k ks w2 s1
          (waiting-IsSound q k w s sound) client holder_there got parsed
          (waiting-lock p q creator k w s sound lock) (ground arith) refl alone
          (subst (All (IsKnown platform clients s1)) (sym e) ((waiter_there, creator_there), tt)) in
      (
        done
            ∙ ap
                (λ gs. (
                  ok tt,
                  delivered platform clients gs (record s1 {
                    world =
                        (network.write_all (stream_of p) (line_of (RegistryResponse.success k))
                          w2).1;
                    access_manager = (perform order (Call.release p k) s1.access_manager).1;
                  }),
                ))
                e,
        here ∙ ap some (granted-lock p q creator),
      )
