-- ===== src/P2pServer.antt =====
-- p2p_server.rs: `P2PServer`, by which a peer reads the texts of another.
pub mod Handlers
mod Preserve
pub mod Events
pub mod Tokens
pub mod Panics
mod Tests
use soros.Base.{
  ℕ, ◌+◌, ◌%◌, Bool, true, false, List, [], ◌∷◌, Option, none, some, ◌⊎◌, inl, inr, if◌then◌else◌,
  Outcome, ok, err, panic, exit, no_fuel, Action, pure, throw, gets, modify, crash, try_or, ok_or,
  unwrap, ◌>>=◌, ◌>>◌,
}
use soros.Base.HashMap
use soros.Base.HashMap.{HashMap}
use soros.Protocol.{
  SocketAddr, Bytes, SerdeError, Serde, Message, DataMessage, usize_mod, to_vec, from_slice,
}
use soros.Network.{Network, IoError, TcpStream, Token, Event, incoming, event, is_utf8}
use soros.DataStore
use soros.DataStore.{DataStore, DataStoreError}

-- `ThreadPoolError`, which nothing makes, is left out.
pub data P2pServerError : Type 0 where
  io_error : IoError → P2pServerError
  serde_error : SerdeError → P2pServerError
  data_store_error : DataStoreError → P2pServerError
  unexpected_request unexpected_response : P2pServerError
  invalid_token : Token → P2pServerError

-- `data_store` is shared with the peer's own thread, which changes it between two events.
pub record P2pServer (World : Type 0) : Type 0 where
  pub peer_addr : SocketAddr
  pub data_store : DataStore
  pub token_stream_map : HashMap TcpStream
  pub token_counter : ℕ
  pub world : World

module _ (network : Network) (serde : Serde) where
  open network use {World}

  abbrev pub Server : Type 0
  Server = P2pServer World

  abbrev pub S : Type 0 → Type 0
  S = Action Server P2pServerError

  abbrev pub write_all : TcpStream → Bytes → S (Unit {0})
  write_all stream text s =
      let (r, w) = network.write_all stream text s.world in
      try_or io_error r (record s { world = w })

  abbrev register : TcpStream → Token → S (Unit {0})
  register stream token s =
      let (r, w) = network.register stream token s.world in
      try_or io_error r (record s { world = w })

  -- `P2PServer::new`
  unfoldable pub new : DataStore → SocketAddr → Action World P2pServerError Server
  new data_store peer_addr w =
      let (r, w') = network.new_poll w in
      try_or io_error
        (elim r [
          | inl e ↦ inl e
          | inr _ ↦ inr (record {
            peer_addr = peer_addr;
            data_store = data_store;
            token_stream_map = HashMap.empty;
            token_counter = 0;
            world = w';
          })
        ])
        w'

  unfoldable pub handle_message : Message → S DataMessage
  handle_message (Message.data_message (DataMessage.request key_id)) s =
      let (r, d) = DataStore.get key_id s.data_store in
      (
        elim r [
          | ok text ↦ ok (DataMessage.response text)
          | err e ↦ err (data_store_error e)
          | panic ↦ panic
          | exit ↦ exit
          | no_fuel ↦ no_fuel
        ],
        record s { data_store = d },
      )
  handle_message (Message.data_message (DataMessage.response t)) s = (err unexpected_request, s)
  handle_message (Message.registry m) s = (err unexpected_request, s)

  -- `Message::from_slice(data)` with the log of what cannot be read, which wants it to be text.
  abbrev pub parse : Bytes → S Message
  parse text s = elim (from_slice serde text) [
    | inl e ↦ if is_utf8 text then (err (serde_error e), s) else (panic, s)
    | inr message ↦ (ok message, s)
  ]

  -- The end of `handle_request`, which sends the response.
  unfoldable pub reply : Token → DataMessage → S (Unit {0})
  reply token answer = do
    stream ← (λ s. ok_or (s.token_stream_map token) (invalid_token token) s)
    text ← try_or serde_error (to_vec serde (Message.data_message answer))
    write_all stream text

  unfoldable pub handle_request : Token → Bytes → S (Unit {0})
  handle_request token text = do
    message ← parse text
    response ← handle_message message
    reply token response

  abbrev pub drop_stream : Token → S (Unit {0})
  drop_stream token =
      modify (λ s. record s { token_stream_map = HashMap.remove token s.token_stream_map })

  -- The match of `handle_data` on what was read.
  unfoldable pub handle_read : Token → IoError ⊎ Bytes → S (Unit {0})
  handle_read token (inr []) = drop_stream token
  handle_read token (inr (b ∷ bs)) = handle_request token (b ∷ bs)
  handle_read token (inl IoError.connection_reset) =
      drop_stream token >> throw (io_error IoError.connection_reset)
  handle_read token (inl IoError.would_block) = pure tt
  handle_read token (inl e) = throw (io_error e)

  abbrev pub read_stream : TcpStream → S (IoError ⊎ Bytes)
  read_stream stream s =
      let (r, w) = network.read stream 256 s.world in (ok r, record s { world = w })

  unfoldable pub handle_data : Token → S (Unit {0})
  handle_data token = do
    stream ← (λ s. unwrap (s.token_stream_map token) s)
    result ← read_stream stream
    handle_read token result

  unfoldable pub handle_connection : TcpStream → S (Unit {0})
  handle_connection stream = do
    modify (λ s. record s { token_counter = (s.token_counter + 1) % usize_mod })
    token ← gets (λ s. s.token_counter)
    register stream token
    modify (λ s. record s { token_stream_map = HashMap.insert token stream s.token_stream_map })

  -- The loop on `listener.accept()`
  unfoldable pub accept_all : List (TcpStream × SocketAddr) → IoError → S (Unit {0})
  accept_all [] IoError.would_block = pure tt
  accept_all [] e = crash
  accept_all ((stream, addr) ∷ rest) e = handle_connection stream >> accept_all rest e

  -- Errors of `handle_data` are only logged.
  abbrev log_error : S (Unit {0}) → S (Unit {0})
  log_error action s =
      let (r, s') = action s in
      (
        elim r [ ok _ ↦ ok tt | err e ↦ ok tt | panic ↦ panic | exit ↦ exit | no_fuel ↦ no_fuel ],
        s',
      )

  unfoldable pub handle_event : Event → S (Unit {0})
  handle_event (incoming connections e) = accept_all connections e
  handle_event (event token true) = log_error (handle_data token)
  handle_event (event token false) = pure tt

  unfoldable pub handle_events : List Event → S (Unit {0})
  handle_events [] = pure tt
  handle_events (e ∷ events) = handle_event e >> handle_events events

  abbrev pub listen : S (Unit {0})
  listen s =
      let (r, w) = network.listen s.peer_addr s.world in try_or io_error r (record s { world = w })

  -- `bind` never returns by itself; the list is what has happened so far.
  unfoldable pub bind : List Event → S (Unit {0})
  bind events = listen >> handle_events events
