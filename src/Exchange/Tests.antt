-- ===== src/Exchange/Tests.antt =====
-- A read of key 5 between two peers. A world is what the next read gives and what was last written.
use soros.Base.{
  ltb, ℕ, zero, suc, length, arith, err, ◌++◌, ◌≡◌, refl, List, [], ◌∷◌, ◌⊎◌, inl, inr, ok, ap,
  true, sym, if◌then◌else◌, ◌==◌, err, ℕ, length, suc, ◌++◌, arith,
}
use soros.Base.HashMap
use soros.Protocol.{Bytes, SerdeError, Serde, Message, DataMessage, newline, to_vec, from_slice}
use soros.Network.{Network}
use soros.DataStore.History.{Operation, create, write, after, latest}
use soros.P2pServer.{Server, handle_data}
use soros.ProtocolClient.{Client, serialization_error}
use soros.ProtocolClient.Requests.{p2p_read}
use soros.Exchange.Truncation.{NeedsEnd, p2p_read-long}
use soros.Exchange.{ReadsBack, request_for, response_with, p2p_read-store}

abbrev wires : Network
wires = record {
  World = Bytes × Bytes;
  connect = λ addr w. (inr 1, w);
  new_poll = λ w. (inr tt, w);
  listen = λ addr w. (inr tt, w);
  register = λ stream token w. (inr tt, w);
  read = λ stream n w. (inr w.0, w);
  peek = λ stream w. (inr w.0, w);
  write_all = λ stream text w. (inr tt, (w.0, text));
  set_timeouts = λ stream n w. (inr tt, w);
}

-- A byte of 7 stands for the one text, another for the request of a key.
abbrev decode : Bytes → SerdeError ⊎ Message
decode (k ∷ rest) = if k == 7 then inr (response_with "five") else inr (request_for k)
decode [] = inl "EOF"

abbrev encode : Message → SerdeError ⊎ Bytes
encode (Message.data_message (DataMessage.request k)) = inr (k ∷ [])
encode (Message.data_message (DataMessage.response t)) = inr (7 ∷ [])
encode other = inl "not here"

abbrev serde : Serde
serde = record { serialize = encode; deserialize = decode }

abbrev right_or : Bytes → SerdeError ⊎ Bytes → Bytes
right_or d (inl e) = d
right_or d (inr text) = text

request-ReadsBack : ReadsBack serde (request_for 5)
unfolding to_vec from_slice
request-ReadsBack text e = ap (λ r. decode (right_or [] r)) (sym e)

response-ReadsBack : ReadsBack serde (response_with "five")
unfolding to_vec from_slice
response-ReadsBack text e = ap (λ r. decode (right_or [] r)) (sym e)

abbrev history : List Operation
history = write 5 "five" ∷ create 5 "5" ∷ []

abbrev server : Server wires serde
server = record {
  peer_addr = record { ip = 0; port = 9000 };
  data_store = after history;
  token_stream_map = HashMap.insert 1 11 HashMap.empty;
  token_counter = 1;
  world = (5 ∷ newline ∷ [], []);
}

abbrev client : Client wires serde
client = record {
  is_primary = true;
  logging = true;
  primary_server = record { ip = 0; port = 1 };
  secondary_server = record { ip = 0; port = 2 };
  proc_id = 4;
  registry_stream = 3;
  curr_data = [];
  world = (7 ∷ newline ∷ [], []);
}

p2p_read-store_example :
    (handle_data wires serde 1 server
      ≡ (ok tt, record server { world = (5 ∷ newline ∷ [], 7 ∷ newline ∷ []) }))
    × (p2p_read wires serde 5 server.peer_addr client
        ≡ (ok "five", record client { world = (7 ∷ newline ∷ [], 5 ∷ newline ∷ []) }))
unfolding to_vec latest
p2p_read-store_example =
    p2p_read-store wires wires serde history 5 "five" 1 server 11 (5 ∷ newline ∷ [], [])
      (5 ∷ newline ∷ [], 7 ∷ newline ∷ []) server.peer_addr client 1 (7 ∷ newline ∷ [], [])
      (7 ∷ newline ∷ [], 5 ∷ newline ∷ []) (7 ∷ newline ∷ [], 5 ∷ newline ∷ []) 5 (newline ∷ [])
      (7 ∷ newline ∷ []) request-ReadsBack response-ReadsBack refl refl refl refl refl refl refl
      refl refl refl

-- A peer whose texts all have messages of 300 bytes, of which the reader's network gives as many as it
-- is asked for.
abbrev repeat : ℕ → Bytes
repeat zero = []
repeat (suc n) = 7 ∷ repeat n

length-repeat : (n : ℕ) → length (repeat n) ≡ n
length-repeat zero = refl
length-repeat (suc n) = omega (arith, length-repeat n)

abbrev long_serde : Serde
long_serde = record {
  serialize = λ m. (elim m [
    | Message.registry r ↦ inl "not here"
    | Message.data_message d ↦ elim d [
      | DataMessage.request k ↦ inr (k ∷ [])
      | DataMessage.response t ↦ inr (repeat 300)
    ]
  ]);
  deserialize = λ text. if ltb (length text) 300 then inl "EOF" else inr (response_with "long");
}

abbrev long_wires : Network
long_wires = record wires { read = λ stream n w. (inr (repeat n), w) }

long-NeedsEnd : NeedsEnd long_serde (response_with "long")
unfolding from_slice
long-NeedsEnd json part rest written split short = ("EOF", ground (arith, length-repeat 300))

abbrev long_client : Client long_wires long_serde
long_client = client

p2p_read-long_example :
    (e : SerdeError) × (p2p_read long_wires long_serde 5
        (record { ip = 0; port = 9000 })
        long_client
      ≡ (
        err (serialization_error e),
        record long_client { world = ((7 ∷ newline ∷ []), (5 ∷ newline ∷ [])) },
      ))
unfolding to_vec
p2p_read-long_example =
    p2p_read-long long_wires long_serde 5 "long" (record { ip = 0; port = 9000 }) long_client 1
      (7 ∷ newline ∷ [], []) (7 ∷ newline ∷ [], 5 ∷ newline ∷ [])
      (7 ∷ newline ∷ [], 5 ∷ newline ∷ []) (5 ∷ newline ∷ []) (repeat 300)
      (repeat 300 ++ newline ∷ []) (repeat 256) (repeat 44 ++ newline ∷ []) long-NeedsEnd refl
      (omega (arith, length-repeat 300)) refl refl (omega (arith, length-repeat 256)) refl refl refl
      refl
