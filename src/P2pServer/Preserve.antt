-- ===== src/P2pServer/Preserve.antt =====
-- What an event on a connection leaves true of a peer's server: all that does not depend on the network,
-- and that the end of a connection does not spoil.
use soros.Base.{
  refl, ◌≡◌, [], ◌∷◌, inl, inr, ◌⊎◌, ok_or, unwrap, try_or, ◌>>=◌, >>=-preserves, ok_or-preserves,
  unwrap-preserves, try_or-preserves, subst, sym, arith,
}
use soros.Base.HashMap
use soros.Protocol.{Bytes, Serde, Message, DataMessage, to_vec}
use soros.Network.{Network, IoError, Token}
use soros.DataStore
use soros.P2pServer.{
  P2pServerError, Server, handle_message, handle_request, handle_read, handle_data, write_all,
  parse, reply, read_stream, io_error, serde_error, invalid_token,
}

module _ (network : Network) (serde : Serde) (P : Server network serde → Type 0)
    (world : (w : network.World) (s : Server network serde) → P s → P (record s { world = w }))
    (gone : (token : Token) (s : Server network serde)
      → P s
      → P (record s { token_stream_map = HashMap.remove token s.token_stream_map })) where
  reply-preserves :
      (token : Token) (answer : DataMessage) (s : Server network serde)
      → P s
      → P (reply network serde token answer s).1
  unfolding reply
  reply-preserves token answer =
      >>=-preserves P (λ s. ok_or (s.token_stream_map token) (invalid_token token) s)
        (λ stream.
          try_or serde_error (to_vec serde (Message.data_message answer))
          >>= write_all network serde stream)
        (λ s. ok_or-preserves P (s.token_stream_map token) (invalid_token token) s)
        (λ stream.
          >>=-preserves P (try_or serde_error (to_vec serde (Message.data_message answer)))
            (write_all network serde stream)
            (try_or-preserves P serde_error (to_vec serde (Message.data_message answer)))
            (λ text s h.
              let (r, w) = network.write_all stream text s.world in
              try_or-preserves P io_error r (record s { world = w }) (world w s h)))

  handle_message-same :
      (message : Message) (s : Server network serde)
      → (handle_message network serde message s).1 ≡ s
  unfolding handle_message DataStore.get
  handle_message-same (Message.data_message (DataMessage.request k)) s = ground arith
  handle_message-same (Message.data_message (DataMessage.response t)) s = refl
  handle_message-same (Message.registry m) s = refl

  parse-same : (text : Bytes) (s : Server network serde) → (parse network serde text s).1 ≡ s
  parse-same text s = ground arith

  handle_request-preserves :
      (token : Token) (text : Bytes) (s : Server network serde)
      → P s
      → P (handle_request network serde token text s).1
  unfolding handle_request
  handle_request-preserves token text =
      >>=-preserves P (parse network serde text)
        (λ message. handle_message network serde message >>= reply network serde token)
        (λ s. subst P (sym (parse-same text s)))
        (λ message.
          >>=-preserves P (handle_message network serde message) (reply network serde token)
            (λ s. subst P (sym (handle_message-same message s))) (reply-preserves token))

  handle_read-preserves :
      (token : Token) (r : IoError ⊎ Bytes) (s : Server network serde)
      → P s
      → P (handle_read network serde token r s).1
  unfolding handle_read
  handle_read-preserves token (inr []) s h = gone token s h
  handle_read-preserves token (inr (b ∷ bs)) s h = handle_request-preserves token (b ∷ bs) s h
  handle_read-preserves token (inl IoError.connection_reset) s h = gone token s h
  handle_read-preserves token (inl IoError.would_block) s h = h
  handle_read-preserves token (inl IoError.connection_refused) s h = h
  handle_read-preserves token (inl IoError.timed_out) s h = h
  handle_read-preserves token (inl IoError.other) s h = h

  pub handle_data-preserves :
      (token : Token) (s : Server network serde) → P s → P (handle_data network serde token s).1
  unfolding handle_data
  handle_data-preserves token =
      >>=-preserves P (λ s. unwrap (s.token_stream_map token) s)
        (λ stream. read_stream network serde stream >>= handle_read network serde token)
        (λ s. unwrap-preserves P2pServerError P (s.token_stream_map token) s)
        (λ stream.
          >>=-preserves P (read_stream network serde stream) (handle_read network serde token)
            (λ s h. world (network.read stream 256 s.world).1 s h) (handle_read-preserves token))
