-- ===== src/RegistryServer/Limits.antt =====
-- Where the registry stops: unreadable requests, the reserved tokens, a primary's first request.
use soros.Base.{
  ℕ, ◌+◌, ◌%◌, ◌≡◌, false, ◌∷◌, none, some, inl, inr, ok, err, ◌⊎◌, panic, arith, ◌==◌,
  if◌then◌else◌,
}
use soros.Protocol.{
  Bytes, SerdeError, SocketAddr, usize_mod, from_slice, to_vec, registry_response, RegistryResponse,
}
use soros.Network.{Token, TcpStream, IoError, is_utf8}
use soros.RegistryServer.{
  Platform, Server, serialization_error, io_error, handle_error, handle_response, forward_request,
}
use soros.RegistryServer.Requests.{handle_data, handle_read, handle_request}
use soros.RegistryServer.EventLoop.{handle_connection, connect_client}

module _ (platform : Platform) where
  open platform use {network, serde, to_string}

  -- Bytes from a client that are no message: if they are UTF-8 text, the text of the error, and nothing
  -- else, is written to the client, and the registry goes on or ends with the error of that write; its
  -- locks and maps are as before. If they are not, the server ends by a panic, and writes nothing.
  pub handle_data-malformed :
      (token : Token) (stream : TcpStream) (b : ℕ) (bs reply : Bytes) (e : SerdeError)
      (r : IoError ⊎ Unit {0}) (w w' : network.World) (s : Server platform)
      → (token == s.backup_token) ≡ false
      → s.token_stream_map token ≡ some stream
      → network.read stream 256 s.world ≡ (inr (b ∷ bs), w)
      → from_slice serde (b ∷ bs) ≡ inl e
      → to_vec serde
          (registry_response (RegistryResponse.error (to_string (serialization_error e))))
        ≡ inr reply
      → network.write_all stream reply w ≡ (r, w')
      → handle_data platform token s ≡ (
          if is_utf8 (b ∷ bs)
          then (elim r [ inl x ↦ err (io_error x) | inr a ↦ ok tt ], record s { world = w' })
          else (panic, record s { world = w }))
  unfolding handle_data handle_read handle_request handle_error handle_response
  handle_data-malformed token stream b bs reply e r w w' s client found received malformed written
        sent =
      ground arith

  -- A registry without a secondary serves a client under the token that is meant for its secondary
  -- (999) like any other, and panics at the first event on that client's connection.
  pub reserved_token :
      (stream : TcpStream) (addr : SocketAddr) (s : Server platform)
      → s.backup_stream ≡ none
      → s.backup_addr ≡ none
      → s.first_connection ≡ false
      → (s.id_counter + 1) % usize_mod ≡ s.backup_token
      → (handle_connection platform stream addr s).0 ≡ ok tt
      → let s' = (handle_connection platform stream addr s).1 in
        (s'.token_stream_map s.backup_token ≡ some stream)
        × ((handle_data platform s.backup_token s').0 ≡ panic)
  unfolding handle_connection connect_client handle_data forward_request
  reserved_token stream addr s no_stream no_addr later next accepted = ground arith
