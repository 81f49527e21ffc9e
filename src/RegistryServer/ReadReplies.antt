-- ===== src/RegistryServer/ReadReplies.antt =====
-- The answer that a client gets to a request to read.
use soros.Base.{
  ℕ, ◌≡◌, false, ◌∷◌, Option, none, some, inl, inr, ok, err, arith, Outcome, ◌∙◌, ◌==◌,
  if◌then◌else◌, Option-cases,
}
use soros.Protocol.{
  ProcId, KeyId, SocketAddr, Bytes, RequestType, RegistryResponse, registry_request,
  registry_response, from_slice, to_vec,
}
use soros.AccessManager.{AccessManagerError, key_not_found, register_reader, holder, KeyState}
use soros.AccessManager
use soros.AccessManager.Refinement.{IsSound, perform-Refines}
use soros.AccessManager.Calls.{lock_after, read, perform, read_waits}
use soros.Network.{Token, TcpStream}
use soros.RegistryServer.{
  Platform, Server, RegistryServerError, access_manager, unknown_holder, answer_request,
  handle_message, proc_id_to_addr,
}
use soros.RegistryServer.Requests.{handle_data}
use soros.RegistryServer.Replies.{
  reply, afterwards, IsVerdict, settle, handle_response-sent, handle_data-request,
}

-- The address of the holder, if it is known.
abbrev pub holder_verdict :
    KeyId → ProcId → Option SocketAddr → Outcome RegistryServerError RegistryResponse
holder_verdict k h none = err (unknown_holder h)
holder_verdict k h (some addr) = ok (RegistryResponse.holder k addr)

module _ (platform : Platform) where
  open platform use {network, serde, order}

  -- The verdict on a read by `p` of a key with this lock: the read waits, or `p` is told where a
  -- process is that knows the data; `p` itself counts as one.
  abbrev pub read_verdict :
      ProcId
      → KeyId
      → Server platform
      → Option KeyState
      → Outcome RegistryServerError RegistryResponse
  read_verdict p k s none = err (access_manager (key_not_found k))
  read_verdict p k s (some ks) =
      let h = holder order (register_reader p ks) in
      if read_waits ks
      then ok (RegistryResponse.wait k)
      else holder_verdict k h (s.token_addr_map h)

  read_verdict-IsVerdict :
      (p : ProcId) (k : KeyId) (s : Server platform) (o : Option KeyState)
      → IsVerdict (read_verdict p k s o)
  read_verdict-IsVerdict p k s none = tt
  read_verdict-IsVerdict p k s (some ks) = ground arith

  answer_request-read :
      (p : ProcId) (k : KeyId) (s : Server platform)
      → answer_request platform p RequestType.read k s ≡ (
        read_verdict p k s (s.access_manager.key_states k),
        record s { access_manager = (perform order (read p k) s.access_manager).1 },
      )
  unfolding answer_request perform AccessManager.read proc_id_to_addr
  answer_request-read p k s = elim (Option-cases (s.access_manager.key_states k)) [
    | inl e ↦ ground arith
    | inr (ks, e) ↦ ground arith
  ]

  -- A request to read that comes whole from a client: the verdict, by the lock and by the addresses
  -- that the registry knows, is sent to the client first. The lock has made its step whichever
  -- verdict this is: also if the holder's address is not known, so that the client is sent an error,
  -- the client counts as a reader.
  pub handle_data-read :
      (token : Token) (stream : TcpStream) (b : ℕ) (bs line : Bytes) (p : ProcId) (k : KeyId)
      (w v : network.World) (s : Server platform)
      → IsSound s.access_manager
      → (token == s.backup_token) ≡ false
      → s.token_stream_map token ≡ some stream
      → network.read stream 256 s.world ≡ (inr (b ∷ bs), w)
      → from_slice serde (b ∷ bs) ≡ inr (registry_request k p RequestType.read)
      → to_vec serde
          (registry_response (reply platform (read_verdict p k s (s.access_manager.key_states k))))
        ≡ inr line
      → network.write_all stream line w ≡ (inr tt, v)
      → let o = s.access_manager.key_states k in
        let m' = (perform order (read p k) s.access_manager).1 in
        (handle_data platform token s
          ≡ afterwards platform token
              (b ∷ bs)
              (read_verdict p k s o)
              (record s { world = v; access_manager = m' }))
        × (m'.key_states k ≡ lock_after (read p k) o)
  unfolding handle_message
  handle_data-read token stream b bs line p k w v s sound client found received parsed written
        sent =
      let o = s.access_manager.key_states k in
      let m' = (perform order (read p k) s.access_manager).1 in
      (
        handle_data-request platform token stream b bs (registry_request k p RequestType.read) w s
              client found received parsed
            ∙ settle platform token (b ∷ bs) (answer_request platform p RequestType.read k)
                (read_verdict p k s o) (record s { world = w })
                (record s { world = w; access_manager = m' })
                (record s { world = v; access_manager = m' }) (read_verdict-IsVerdict p k s o)
                (answer_request-read p k (record s { world = w }))
                (handle_response-sent platform token stream (reply platform (read_verdict p k s o))
                  line v (record s { world = w; access_manager = m' }) found written sent),
        (perform-Refines order s.access_manager (read p k) sound).1.here,
      )
