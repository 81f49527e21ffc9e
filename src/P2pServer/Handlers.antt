-- ===== src/P2pServer/Handlers.antt =====
-- How a peer's server answers, and what it does with its data store.
use soros.Base.{
  ◌≡◌, true, false, List, [], ◌∷◌, none, some, inl, inr, err, ◌>>=◌, arith, >>=-preserves, ℕ,
  Option, String, try_or, Option-cases, Outcome,
}
use soros.Protocol.{KeyId, Bytes, Serde, Message, DataMessage, SocketAddr, from_slice, to_vec}
use soros.Network.{Network, IoError, TcpStream, Token, Event, incoming, event}
use soros.DataStore
use soros.DataStore.{DataStore, key_does_not_exist}
use soros.P2pServer.Preserve.{handle_data-preserves}
use soros.P2pServer.{
  P2pServerError, data_store_error, Server, handle_message, handle_request, handle_read,
  handle_data, handle_connection, accept_all, handle_event, handle_events, write_all, reply,
  serde_error,
}

module _ (network : Network) (serde : Serde) where
  -- The server has the store that it had.
  abbrev pub Keeps : DataStore → Server network serde → Type 0
  Keeps d s = s.data_store ≡ d

  handle_data-Keeps :
      (d : DataStore) (token : Token) (s : Server network serde)
      → Keeps d s
      → Keeps d (handle_data network serde token s).1
  handle_data-Keeps d = handle_data-preserves network serde (Keeps d) (λ w s h. h) (λ token s h. h)

  handle_connection-Keeps :
      (d : DataStore) (stream : TcpStream) (s : Server network serde)
      → Keeps d s
      → Keeps d (handle_connection network serde stream s).1
  unfolding handle_connection
  handle_connection-Keeps d stream s h = ground arith

  pub accept_all-Keeps :
      (d : DataStore) (cs : List (TcpStream × SocketAddr)) (e : IoError) (s : Server network serde)
      → Keeps d s
      → Keeps d (accept_all network serde cs e s).1
  unfolding accept_all
  accept_all-Keeps d [] IoError.would_block s h = h
  accept_all-Keeps d [] e s h = h
  accept_all-Keeps d ((stream, addr) ∷ cs) e s h =
      >>=-preserves (Keeps d) (handle_connection network serde stream)
        (λ _. accept_all network serde cs e) (handle_connection-Keeps d stream)
        (λ _ s1 h1. accept_all-Keeps d cs e s1 h1) s h

  handle_event-Keeps :
      (d : DataStore) (e : Event) (s : Server network serde)
      → Keeps d s
      → Keeps d (handle_event network serde e s).1
  unfolding handle_event
  handle_event-Keeps d (incoming cs e) s h = accept_all-Keeps d cs e s h
  handle_event-Keeps d (event token true) s h = handle_data-Keeps d token s h
  handle_event-Keeps d (event token false) s h = h

  -- Whatever peers connect and send, and whatever the network does, the server changes nothing in
  -- the data store.
  pub handle_events-Keeps :
      (d : DataStore) (events : List Event) (s : Server network serde)
      → Keeps d s
      → Keeps d (handle_events network serde events s).1
  unfolding handle_events
  handle_events-Keeps d [] s h = h
  handle_events-Keeps d (e ∷ events) s h =
      >>=-preserves (Keeps d) (handle_event network serde e)
        (λ _. handle_events network serde events) (handle_event-Keeps d e)
        (λ _ s1 h1. handle_events-Keeps d events s1 h1) s h

  -- What a request for `k` on `stream` comes to, from the state `s`, if the store has `o` for it.
  abbrev pub Answer :
      TcpStream
      → KeyId
      → Server network serde
      → Option String
      → Outcome P2pServerError (Unit {0}) × Server network serde
      → Type 0
  Answer stream k s none result = result ≡ (err (data_store_error (key_does_not_exist k)), s)
  Answer stream k s (some content) result =
      result
      ≡ (do
        text ←
            try_or serde_error (to_vec serde (Message.data_message (DataMessage.response content)))
        write_all network serde stream text)
          s

  -- A request for a key, on the connection `stream` of a client: if the store has a text for the key,
  -- the one thing that is done is to send that text; if it has none, the call fails, and nothing at
  -- all is sent, so the client gets no answer.
  pub handle_data-Answer :
      (token : Token) (stream : TcpStream) (k : KeyId) (b : ℕ) (bs : Bytes) (w : network.World)
      (s : Server network serde)
      → s.token_stream_map token ≡ some stream
      → network.read stream 256 s.world ≡ (inr (b ∷ bs), w)
      → from_slice serde (b ∷ bs) ≡ inr (Message.data_message (DataMessage.request k))
      → Answer stream k
          (record s { world = w })
          (s.data_store.data_map k)
          (handle_data network serde token s)
  unfolding handle_data handle_read handle_request handle_message reply DataStore.get
  handle_data-Answer token stream k b bs w s found received parsed =
      elim (Option-cases (s.data_store.data_map k)) [
        | inl e ↦ rw e (ground arith)
        | inr (content, e) ↦ rw e (ground arith)
      ]
