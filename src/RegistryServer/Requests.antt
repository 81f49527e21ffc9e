-- ===== src/RegistryServer/Requests.antt =====
-- registry_server.rs: `handle_request` and `handle_data`, from the bytes of a client to the answers.
use soros.Base.{
  ◌+◌, ◌%◌, Bool, List, [], ◌∷◌, ◌⊎◌, inl, inr, ◌==◌, ◌&&◌, if◌then◌else◌, is_some, ok, err, panic,
  exit, no_fuel, pure, throw, gets, crash, unwrap, ◌>>=◌, ◌>>◌, ◌≡◌, arith,
}
use soros.Protocol.{Bytes, Message, RegistryResponse, RequestType, from_slice}
use soros.Channel.{try_iter}
use soros.AccessManager.{AccessGranted}
use soros.Network.{IoError, TcpStream, Token, is_utf8}
use soros.RegistryServer.{
  io_error, serialization_error, invalid_token, stop_request, Platform, u64_mod, Server, S,
  proc_id_to_addr, remove_client, handle_response, handle_error, forward_request, handle_message,
}

module _ (platform : Platform) where
  open platform use {network, serde}

  -- The response to a granted request; only reads and writes are ever granted.
  abbrev grant_response : AccessGranted → S platform RegistryResponse
  grant_response (proc_id, key_id, RequestType.read, holder_id) = do
    addr ← proc_id_to_addr platform holder_id
    pure (RegistryResponse.holder key_id addr)
  grant_response (proc_id, key_id, RequestType.write, holder_id) =
      pure (RegistryResponse.success key_id)
  grant_response (proc_id, key_id, RequestType.create, holder_id) = crash
  grant_response (proc_id, key_id, RequestType.delete, holder_id) = crash
  grant_response (proc_id, key_id, RequestType.release, holder_id) = crash

  -- A client that has gone is passed over; any other error ends the loop.
  abbrev unless_gone : S platform (Unit {0}) → S platform (Unit {0})
  unless_gone action s =
      let (r, s') = action s in
      (
        elim r [
          | ok _ ↦ ok tt
          | err e ↦ elim e [ invalid_token t ↦ ok tt | other ↦ err other ]
          | panic ↦ panic
          | exit ↦ exit
          | no_fuel ↦ no_fuel
        ],
        s',
      )

  unfoldable pub notify : AccessGranted → S platform (Unit {0})
  notify req = do
    response ← grant_response req
    unless_gone (handle_response platform req.0 response)

  -- `for req in requests`
  unfoldable pub notify_all : List AccessGranted → S platform (Unit {0})
  notify_all [] = pure tt
  notify_all (req ∷ requests) = notify req >> notify_all requests

  -- `access_granted_rx.try_iter().collect()`
  abbrev pub take_grants : S platform (List AccessGranted)
  take_grants s =
      let (requests, ch) = try_iter s.access_manager.access_granted in
      (ok requests, record s { access_manager = record s.access_manager { access_granted = ch } })

  -- `Message::from_slice(data)` with the log of what cannot be read, which wants it to be text.
  abbrev pub parse : Bytes → S platform Message
  parse text s = elim (from_slice serde text) [
    | inl e ↦ if is_utf8 text then (err (serialization_error e), s) else (panic, s)
    | inr message ↦ (ok message, s)
  ]

  -- The counter, and the end of a primary after its first request.
  unfoldable pub count_request : S platform (Unit {0})
  count_request s =
      let s' : Server platform = record s { request_counter = (s.request_counter + 1) % u64_mod } in
      (if is_some s'.backup_stream && s'.request_counter == 1 then exit else ok tt, s')

  -- What `handle_request` does after the response to the request itself.
  unfoldable pub after_response : Bytes → S platform (Unit {0})
  after_response text = do
    requests ← take_grants
    notify_all requests
    forward_request platform text
    count_request

  -- The answer to a message that has been handled, and what follows.
  abbrev pub respond : Token → Bytes → RegistryResponse → S platform (Unit {0})
  respond token text response = handle_response platform token response >> after_response text

  unfoldable pub handle_request : Token → Bytes → S platform (Unit {0})
  handle_request token text = do
    message ← parse text
    response ← handle_message platform message
    respond token text response

  pub handle_request-message :
      (token : Token) (text : Bytes) (message : Message) (s : Server platform)
      → from_slice serde text ≡ inr message
      → handle_request token text s ≡ (handle_message platform message >>= respond token text) s
  unfolding handle_request
  handle_request-message token text message s p = ground arith

  -- `stream.read(&mut buffer)` with a buffer of 256 bytes
  abbrev pub read_stream : TcpStream → S platform (IoError ⊎ Bytes)
  read_stream stream s =
      let (r, w) = network.read stream 256 s.world in (ok r, record s { world = w })

  -- What `handle_data` makes of the end of `handle_request`.
  abbrev pub report_error : Token → S platform (Unit {0}) → S platform (Unit {0})
  report_error token action s =
      let (r, s') = action s in
      elim r [
        | ok _ ↦ (ok tt, s')
        | err e ↦ elim e [
          | stop_request ↦ (err stop_request, s')
          | other ↦ handle_error platform token other s'
        ]
        | panic ↦ (panic, s')
        | exit ↦ (exit, s')
        | no_fuel ↦ (no_fuel, s')
      ]

  -- The match of `handle_data` on what was read.
  unfoldable pub handle_read : Token → Bool → IoError ⊎ Bytes → S platform (Unit {0})
  handle_read token is_backup (inr []) = if is_backup then pure tt else remove_client platform token
  handle_read token is_backup (inr (b ∷ bs)) =
      if is_backup then pure tt else report_error token (handle_request token (b ∷ bs))
  handle_read token is_backup (inl IoError.connection_reset) = do
    remove_client platform token
    throw (io_error IoError.connection_reset)
  handle_read token is_backup (inl IoError.would_block) = pure tt
  handle_read token is_backup (inl e) = throw (io_error e)

  unfoldable pub handle_data : Token → S platform (Unit {0})
  handle_data token = do
    is_backup ← gets (λ s. token == s.backup_token)
    stream ← (λ s. unwrap (if is_backup then s.backup_stream else s.token_stream_map token) s)
    result ← read_stream stream
    handle_read token is_backup result
