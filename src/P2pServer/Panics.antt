-- ===== src/P2pServer/Panics.antt =====
-- When the handlers of a peer's server come back.
use soros.Base.{
  ◌≡◌, true, [], ◌∷◌, some, inl, inr, ◌⊎◌, arith, Returned, >>=-returns, ◌>>=◌, subst, sym, >>=-ok,
  unwrap,
}
use soros.Protocol.{Bytes, Serde, Message, DataMessage}
use soros.Network.{Network, IoError, TcpStream, Token, is_utf8, IsText}
use soros.DataStore
use soros.P2pServer.{
  Server, handle_message, handle_request, handle_read, handle_data, reply, parse, read_stream,
}

module _ (network : Network) (serde : Serde) where
  reply-Returned :
      (token : Token) (answer : DataMessage) (s : Server network serde)
      → Returned (reply network serde token answer s).0
  unfolding reply
  reply-Returned token answer s = ground arith

  handle_message-Returned :
      (m : Message) (s : Server network serde) → Returned (handle_message network serde m s).0
  unfolding handle_message DataStore.get
  handle_message-Returned (Message.data_message (DataMessage.request k)) s = ground arith
  handle_message-Returned (Message.data_message (DataMessage.response t)) s = tt
  handle_message-Returned (Message.registry m) s = tt

  handle_request-Returned :
      (token : Token) (text : Bytes) (s : Server network serde)
      → is_utf8 text ≡ true
      → Returned (handle_request network serde token text s).0
  unfolding handle_request
  handle_request-Returned token text s h =
      >>=-returns (parse network serde text)
        (λ m. handle_message network serde m >>= reply network serde token)
        (λ m s1.
          >>=-returns (handle_message network serde m) (reply network serde token)
            (reply-Returned token) s1 (handle_message-Returned m s1))
        s (ground (arith, h))

  handle_read-Returned :
      (token : Token) (r : IoError ⊎ Bytes) (s : Server network serde)
      → IsText r
      → Returned (handle_read network serde token r s).0
  unfolding handle_read
  handle_read-Returned token (inr []) s h = tt
  handle_read-Returned token (inr (b ∷ bs)) s h = handle_request-Returned token (b ∷ bs) s h
  handle_read-Returned token (inl IoError.connection_reset) s h = tt
  handle_read-Returned token (inl IoError.would_block) s h = tt
  handle_read-Returned token (inl IoError.connection_refused) s h = tt
  handle_read-Returned token (inl IoError.timed_out) s h = tt
  handle_read-Returned token (inl IoError.other) s h = tt

  -- An event on the token of a connection that the server has makes its handler return, with or
  -- without an error and without a panic, whatever the read gives and the message says, if the bytes
  -- that are read are UTF-8 text.
  pub handle_data-Returned :
      (token : Token) (stream : TcpStream) (s : Server network serde)
      → s.token_stream_map token ≡ some stream
      → IsText (network.read stream 256 s.world).0
      → Returned (handle_data network serde token s).0
  unfolding handle_data
  handle_data-Returned token stream s found h =
      subst (λ x. Returned x.0)
        (sym (
          >>=-ok (λ s. unwrap (s.token_stream_map token) s)
            (λ stream. read_stream network serde stream >>= handle_read network serde token) s s
            stream (ground (arith, found))))
        (handle_read-Returned token (network.read stream 256 s.world).0
          (record s { world = (network.read stream 256 s.world).1 }) h)
