-- ===== src/RegistryServer/Delivery.antt =====
-- How the processes that a release lets in hear of it.
use soros.Base.{
  subst, ℕ, ◌+◌, ◌%◌, ◌≡◌, refl, ◌∙◌, ap, true, false, List, [], ◌∷◌, none, some, inr, ok, arith,
  All, ◌==◌, >>=-ok,
}
use soros.Protocol.{
  ProcId, KeyId, SocketAddr, Bytes, RequestType, RegistryResponse, registry_request,
  registry_response, from_slice, to_vec,
}
use soros.AccessManager.{AccessGranted, KeyState}
use soros.AccessManager.Lock.{grants}
use soros.AccessManager.Release.{holds, after_release, let_in}
use soros.AccessManager.Refinement.{IsSound, perform-Refines}
use soros.Network.{Token, TcpStream}
use soros.RegistryServer.{
  Platform, Server, handle_response, proc_id_to_addr, forward_request, u64_mod,
}
use soros.RegistryServer.Requests.{
  notify, notify_all, handle_data, after_response, take_grants, count_request,
}
use soros.AccessManager.Calls.{perform, release, lock_after, told, answer}
use soros.RegistryServer.Replies.{
  verdict_of, handle_data-reply, afterwards, reply, handle_response-sent,
}
use soros.RegistryServer.Grants.{IsGrant, told-IsGrant}

-- A network that takes everything, and the clients' streams, addresses and messages as functions.
pub record Clients (platform : Platform) : Type 0 where
  pub stream_of : ProcId → TcpStream
  pub addr_of : ProcId → SocketAddr
  pub line_of : RegistryResponse → Bytes
  pub to_vec-line_of :
      (r : RegistryResponse) → to_vec platform.serde (registry_response r) ≡ inr (line_of r)
  pub write_all-ok :
      (stream : TcpStream) (line : Bytes) (w : platform.network.World)
      → (platform.network.write_all stream line w).0 ≡ inr tt

module _ (platform : Platform) (clients : Clients platform) where
  open platform use {network, serde, order}
  open clients use {stream_of, addr_of, line_of}

  -- The client to be told is connected, and so is the holder.
  abbrev pub IsKnown : Server platform → AccessGranted → Type 0
  IsKnown s (p, k, t, h) =
      (s.token_stream_map p ≡ some (stream_of p)) × (s.token_addr_map h ≡ some (addr_of h))

  abbrev pub told_as : AccessGranted → RegistryResponse
  told_as (p, k, RequestType.read, h) = RegistryResponse.holder k (addr_of h)
  told_as (p, k, t, h) = RegistryResponse.success k

  -- The network after each grant has been written to its client, in order.
  abbrev pub deliver : List AccessGranted → network.World → network.World
  deliver [] w = w
  deliver (g ∷ gs) w = deliver gs (network.write_all (stream_of g.0) (line_of (told_as g)) w).1

  handle_response-delivers :
      (p : ProcId) (r : RegistryResponse) (s : Server platform)
      → s.token_stream_map p ≡ some (stream_of p)
      → handle_response platform p r s
        ≡ (ok tt, record s { world = (network.write_all (stream_of p) (line_of r) s.world).1 })
  handle_response-delivers p r s found =
      handle_response-sent platform p (stream_of p) r (line_of r) _ s found
        (clients.to_vec-line_of r)
        (ap (λ x. (x, (network.write_all (stream_of p) (line_of r) s.world).1))
          (clients.write_all-ok (stream_of p) (line_of r) s.world))

  notify-delivers :
      (g : AccessGranted) (s : Server platform)
      → IsGrant g
      → IsKnown s g
      → notify platform g s ≡ (ok tt, record s { world = deliver (g ∷ []) s.world })
  unfolding notify proc_id_to_addr
  notify-delivers (p, k, RequestType.read, h) s i (found, holder) =
      ground (arith, handle_response-delivers p (RegistryResponse.holder k (addr_of h)) s found)
  notify-delivers (p, k, RequestType.write, h) s i (found, holder) =
      ground (arith, handle_response-delivers p (RegistryResponse.success k) s found)
  notify-delivers (p, k, RequestType.create, h) s i f = absurd i
  notify-delivers (p, k, RequestType.delete, h) s i f = absurd i
  notify-delivers (p, k, RequestType.release, h) s i f = absurd i

  notify_all-delivers :
      (gs : List AccessGranted) (s : Server platform)
      → All IsGrant gs
      → All (IsKnown s) gs
      → notify_all platform gs s ≡ (ok tt, record s { world = deliver gs s.world })
  unfolding notify_all
  notify_all-delivers [] s i f = refl
  notify_all-delivers (g ∷ gs) s (i, is) (f, fs) =
      >>=-ok (notify platform g) (λ _. notify_all platform gs) s
        (record s { world = deliver (g ∷ []) s.world }) tt (notify-delivers g s i f)
      ∙ notify_all-delivers gs (record s { world = deliver (g ∷ []) s.world }) is fs

  -- The server once it has told `gs`.
  abbrev pub delivered : List AccessGranted → Server platform → Server platform
  delivered gs s = record s {
    access_manager = record s.access_manager {
      access_granted = record s.access_manager.access_granted { sent = [] };
    };
    world = deliver gs s.world;
    request_counter = (s.request_counter + 1) % u64_mod;
  }

  pub after_response-delivers :
      (text : Bytes) (gs : List AccessGranted) (s : Server platform)
      → s.access_manager.access_granted.sent ≡ gs
      → All IsGrant gs
      → All (IsKnown s) gs
      → s.backup_stream ≡ none
      → after_response platform text s ≡ (ok tt, delivered gs s)
  unfolding after_response forward_request count_request
  after_response-delivers text gs s e i f alone =
      let s1 : Server platform = (take_grants platform s).1 in
      ground (arith, e, notify_all-delivers gs s1 i f)

  -- A holder's release, on a registry without a secondary and with nothing left to tell, whose
  -- network takes everything: the holder is told of its success first; then each process that the
  -- release lets in, if it and the creator of the key are connected, is told in the order of the queue,
  -- a reader where the creator is; and the lock is that which the release leaves.
  pub handle_data-release :
      (token : Token) (stream : TcpStream) (b : ℕ) (bs : Bytes) (p : ProcId) (k : KeyId)
      (ks : KeyState) (w : network.World) (s : Server platform)
      → IsSound s.access_manager
      → (token == s.backup_token) ≡ false
      → s.token_stream_map token ≡ some stream
      → network.read stream 256 s.world ≡ (inr (b ∷ bs), w)
      → from_slice serde (b ∷ bs) ≡ inr (registry_request k p RequestType.release)
      → s.access_manager.key_states k ≡ some ks
      → holds p ks ≡ true
      → s.access_manager.access_granted.sent ≡ []
      → s.backup_stream ≡ none
      → All (IsKnown s) (grants k ks.creator (let_in p ks))
      → let m' = (perform order (release p k) s.access_manager).1 in
        let w' = (network.write_all stream (line_of (RegistryResponse.success k)) w).1 in
        (handle_data platform token s ≡ (
          ok tt,
          delivered
              (grants k ks.creator (let_in p ks))
              (record s { world = w'; access_manager = m' }),
        ))
        × (m'.key_states k ≡ some (after_release p ks))
  unfolding lock_after told answer
  handle_data-release token stream b bs p k ks w s sound client found got parsed lock held quiet
        alone known =
      let m = s.access_manager in
      let m' = (perform order (release p k) m).1 in
      let gs = grants k ks.creator (let_in p ks) in
      let line = line_of (RegistryResponse.success k) in
      let w' = (network.write_all stream line w).1 in
      let s1 : Server platform = record s { world = w'; access_manager = m' } in
      let (r, f) = perform-Refines order m (release p k) sound in
      let v : verdict_of platform p RequestType.release k s ≡ ok (RegistryResponse.success k) =
        ground (arith, lock, held) in
      let sent : m'.access_granted.sent ≡ gs = ground (arith, f.sent, quiet, lock, held) in
      let all_told : told (release p k) (some ks) ≡ gs = ground (arith, held) in
      let here : m'.key_states k ≡ some (after_release p ks) = ground (arith, f.here, lock, held) in
      (
        handle_data-reply platform token stream b bs line p RequestType.release k w w' s sound refl
              client found got parsed
              (ap (λ x. to_vec serde (registry_response (reply platform x))) v
                ∙ clients.to_vec-line_of (RegistryResponse.success k))
              (ap (λ x. (x, w')) (clients.write_all-ok stream line w))
            ∙ (ap (λ x. afterwards platform token (b ∷ bs) x s1) v
                ∙ ground (
                  arith,
                  after_response-delivers (b ∷ bs) gs s1 sent
                      (subst (All IsGrant) all_told (told-IsGrant (release p k) (some ks))) known
                      alone,
                )),
        here,
      )
