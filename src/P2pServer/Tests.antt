-- ===== src/P2pServer/Tests.antt =====
-- A peer with one text on a small network, where a connection keeps what was written to it.
use soros.Base.{Ends, arith, ℕ, ◌≡◌, refl, List, [], ◌∷◌, ◌++◌, ◌⊎◌, inl, inr, err, true}
use soros.Base.HashMap
use soros.Protocol.{Bytes, SerdeError, Serde, Message, DataMessage, to_vec, from_slice}
use soros.Network.{is_utf8, Network, TcpStream, Event, IoError, incoming, event}
use soros.DataStore.{DataStore, key_does_not_exist}
use soros.P2pServer.Events.{IsServing, handle_events-Ends}
use soros.DataStore
use soros.P2pServer.{
  handle_read, handle_request, handle_message, reply, handle_event, handle_connection, accept_all,
  Server, data_store_error, handle_data, handle_events, write_all, handle_read, handle_request,
  handle_message,
}
use soros.P2pServer.Handlers.{handle_data-Answer}

-- What the next read gives, and what was written.
record Wires : Type 0 where
  inbox : Bytes
  outbox : List (TcpStream × Bytes)

abbrev wires : Network
wires = record {
  World = Wires;
  connect = λ addr w. (inr 1, w);
  new_poll = λ w. (inr tt, w);
  listen = λ addr w. (inr tt, w);
  register = λ stream token w. (inr tt, w);
  read = λ stream n w. (inr w.inbox, w);
  peek = λ stream w. (inr w.inbox, w);
  write_all = λ stream text w. (inr tt, record w { outbox = w.outbox ++ (stream, text) ∷ [] });
  set_timeouts = λ stream n w. (inr tt, w);
}

-- One byte asks for a key.
abbrev decode : Bytes → SerdeError ⊎ Message
decode (k ∷ []) = inr (Message.data_message (DataMessage.request k))
decode other = inl "EOF"

abbrev encode : Message → SerdeError ⊎ Bytes
encode (Message.data_message (DataMessage.response t)) = inr (84 ∷ [])
encode other = inr []

abbrev serde : Serde
serde = record { serialize = encode; deserialize = decode }

abbrev store : DataStore
store = record { data_map = HashMap.insert 5 "five" HashMap.empty }

abbrev server : ℕ → Server wires serde
server k = record {
  peer_addr = record { ip = 0; port = 9000 };
  data_store = store;
  token_stream_map = HashMap.insert 1 11 HashMap.empty;
  token_counter = 1;
  world = record { inbox = k ∷ []; outbox = [] };
}

abbrev events : List Event
events =
    incoming ((12, record { ip = 1; port = 2 }) ∷ []) IoError.would_block
    ∷ event 1 true
    ∷ event 2 true
    ∷ []

handle_events-Ends_example :
    Ends (IsServing wires serde store) (handle_events wires serde events (server 5))
unfolding handle_event handle_connection accept_all is_utf8 handle_data handle_read handle_request
    from_slice handle_message DataStore.get reply to_vec
handle_events-Ends_example =
    handle_events-Ends wires serde store events (server 5)
      ((refl, omega arith), ((11, refl, refl), ((12, refl, refl), tt))) (refl, λ t h. ground arith)

handle_data-Answer_example :
    handle_data wires serde 1 (server 5) ≡ write_all wires serde 11 (84 ∷ 10 ∷ []) (server 5)
unfolding from_slice to_vec
handle_data-Answer_example = handle_data-Answer wires serde 1 11 5 5 [] _ (server 5) refl refl refl

-- A request for a key that the peer does not have: nothing is written.
missing_key :
    handle_data wires serde 1 (server 6) ≡ (err (data_store_error (key_does_not_exist 6)), server 6)
unfolding from_slice to_vec
missing_key = handle_data-Answer wires serde 1 11 6 6 [] _ (server 6) refl refl refl
