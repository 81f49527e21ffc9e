-- ===== src/Session/WaitingWrite.antt =====
-- A write that has to wait, from the request to its grant: the waiting client and the registry.
use soros.Base.{ℕ, ◌≡◌, false, [], ◌∷◌, ◌++◌, none, some, inr, ok, ◌==◌, ◌∙◌, arith}
use soros.Protocol.{
  ProcId, KeyId, Bytes, RegistryResponse, RequestType, newline, registry_request, registry_response,
  to_vec, from_slice,
}
use soros.AccessManager.Refinement.{IsSound}
use soros.Network.{Network}
use soros.RegistryServer.{Platform, Server}
use soros.RegistryServer.Requests.{handle_data}
use soros.RegistryServer.Delivery.{Clients}
use soros.ProtocolClient.{Client, has_newline}
use soros.ProtocolClient.Answers.{received}
use soros.ProtocolClient.Requests.{registry_write_sync}
use soros.ProtocolClient.Waiting.{registry_write_sync-wait}
use soros.Session.Lines.{Brings}
use soros.Session.Grant.{written_by, told_to_wait, granted_to, handle_data-wait, handle_data-grant}

module _ (platform : Platform) (clients : Clients platform) (ours : Network) where
  open platform use {network, serde}
  open clients use {stream_of, addr_of, line_of}

  -- A client asks to write a key that another one has for itself, with nobody else waiting. If its
  -- request comes to the registry, and later the release of the holder does, whose network takes
  -- everything, then the registry handles both, tells the client to wait, and then that it has the
  -- key; the client has the key for itself; and its call succeeds, if its stream brings it the two
  -- lines that the registry writes to it.
  pub registry_write_sync-granted :
      (p creator : ProcId) (k : KeyId) (b a : ℕ) (bs rest wait_body success_body seen : Bytes)
      (w w2 : network.World) (s : Server platform) (c : Client ours serde) (fuel : ℕ)
      (u1 u2 : ours.World) (st st' : Bytes × ours.World)
      → let q = c.proc_id in
        let s1 = told_to_wait platform clients q k w s in
        IsSound s.access_manager
        → s.access_manager.key_states k ≡ some (written_by creator p [])
        → s.access_manager.access_granted.sent ≡ []
        → s.backup_stream ≡ none
        → (p == s.backup_token) ≡ false
        → (q == s.backup_token) ≡ false
        → s.token_stream_map p ≡ some (stream_of p)
        → s.token_stream_map q ≡ some (stream_of q)
        → s.token_addr_map creator ≡ some (addr_of creator)
        → to_vec serde (registry_request k q RequestType.write) ≡ inr (b ∷ bs)
        → from_slice serde (b ∷ bs) ≡ inr (registry_request k q RequestType.write)
        → ours.write_all c.registry_stream (b ∷ bs) c.world ≡ (inr tt, u1)
        → ours.peek c.registry_stream u1 ≡ (inr seen, u2)
        → network.read (stream_of q) 256 s.world ≡ (inr (b ∷ bs), w)
        → network.read (stream_of p) 256 s1.world ≡ (inr (a ∷ rest), w2)
        → from_slice serde (a ∷ rest) ≡ inr (registry_request k p RequestType.release)
        → line_of (RegistryResponse.wait k) ≡ wait_body ++ newline ∷ []
        → has_newline wait_body ≡ false
        → from_slice serde wait_body ≡ inr (registry_response (RegistryResponse.wait k))
        → line_of (RegistryResponse.success k) ≡ success_body ++ newline ∷ []
        → has_newline success_body ≡ false
        → from_slice serde success_body ≡ inr (registry_response (RegistryResponse.success k))
        → Brings ours serde fuel c.registry_stream
            (line_of (RegistryResponse.wait k))
            (c.curr_data, u2)
            st
        → Brings ours serde fuel c.registry_stream (line_of (RegistryResponse.success k)) st st'
        → (handle_data platform q s ≡ (ok tt, s1))
          × (handle_data platform p s1 ≡ (ok tt, granted_to platform clients p q creator k w2 s1))
          × ((granted_to platform clients p q creator k w2 s1).access_manager.key_states k
              ≡ some (written_by creator q []))
          × (registry_write_sync ours serde fuel k c ≡ (ok tt, received ours serde c st'))
  registry_write_sync-granted p creator k b a bs rest wait_body success_body seen w w2 s c fuel u1
        u2 st st' sound lock quiet alone holder waiter holder_there waiter_there creator_there asked
        parsed sent peeked got got_release parsed_release wait_line wait_one wait_read success_line
        success_one success_read first second =
      let q = c.proc_id in
      let (granted, held) =
        handle_data-grant platform clients p q creator k a rest w w2 s sound lock holder
          holder_there waiter_there creator_there alone got_release parsed_release in
      (
        handle_data-wait platform clients p q creator k b bs w s sound waiter waiter_there got
            parsed lock quiet alone,
        granted,
        held,
        registry_write_sync-wait ours serde fuel k k c (b ∷ bs) seen u1 u2 st st'
              (ok (registry_response (RegistryResponse.success k))) asked sent peeked
              (first wait_body _ wait_line wait_one wait_read)
              (second success_body _ success_line success_one success_read)
            ∙ ground arith,
      )
