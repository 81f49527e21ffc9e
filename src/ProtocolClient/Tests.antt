-- ===== src/ProtocolClient/Tests.antt =====
-- A client on a small network: the reads that are left are given in advance, and the first registry's
-- stream, 1, no longer takes what is written.
use soros.Base.{
  ◌≡◌, refl, Bool, true, false, List, [], ◌∷◌, ◌++◌, ◌⊎◌, inl, inr, ok, err, no_fuel, arith, ◌==◌,
  if◌then◌else◌, ◌>>=◌,
}
use soros.Protocol.{
  Bytes, SerdeError, Serde, Message, RequestType, registry_connection, registry_response,
  RegistryResponse, from_slice, to_vec,
}
use soros.Network.{Network, IoError, TcpStream}
use soros.ProtocolClient.{
  Client, io_error, take_line, parse_line, receive_message, registry_send_request,
  send_to_secondary, switch_to_secondary, registry_handle_connection, fill,
}
use soros.ProtocolClient.Framing.{
  receive_message-line, receive_message-stuck, receive_message-endless,
}
use soros.ProtocolClient.Requests.{registry_write_sync}
use soros.ProtocolClient.Waiting.{registry_write_sync-wait}
use soros.ProtocolClient.Failover.{registry_send_request-IsIdentity}

-- What the reads give; none that is left means that the stream has ended or, if `open_end` says so,
-- that nothing comes in time.
record Wires : Type 0 where
  reads : List Bytes
  open_end : Bool
  outbox : List (TcpStream × Bytes)

abbrev read_wires : Wires → (IoError ⊎ Bytes) × Wires
read_wires w = elim w.reads [
  | [] ↦ if w.open_end then (inl IoError.would_block, w) else (inr [], w)
  | c ∷ cs ↦ (inr c, record w { reads = cs })
]

abbrev write_wires : TcpStream → Bytes → Wires → (IoError ⊎ Unit {0}) × Wires
write_wires stream text w =
    if stream == 1
    then (inl IoError.connection_reset, w)
    else (inr tt, record w { outbox = w.outbox ++ (stream, text) ∷ [] })

abbrev wires : Network
wires = record {
  World = Wires;
  connect = λ addr w. (inr addr.port, w);
  new_poll = λ w. (inr tt, w);
  listen = λ addr w. (inr tt, w);
  register = λ stream token w. (inr tt, w);
  read = λ stream n w. read_wires w;
  peek = λ stream w. (inr [], w);
  write_all = write_wires;
  set_timeouts = λ stream n w. (inr tt, w);
}

-- One byte is the id of the process; two are an answer about a key.
abbrev decode : Bytes → SerdeError ⊎ Message
decode (p ∷ []) = inr (registry_connection p)
decode (t ∷ k ∷ []) = inr (
    registry_response (
      if t == 0
      then RegistryResponse.wait k
      else if t == 2
      then RegistryResponse.holder k (record { ip = 1; port = 2 })
      else RegistryResponse.success k))
decode other = inl "EOF"

abbrev serde : Serde
serde = record { serialize = λ m. inr (7 ∷ []); deserialize = decode }

abbrev world : List Bytes → Bool → Wires
world reads open_end = record { reads = reads; open_end = open_end; outbox = [] }

abbrev client : Bool → TcpStream → List Bytes → Client wires serde
client is_primary stream reads = record {
  is_primary = is_primary;
  logging = true;
  primary_server = record { ip = 0; port = 1 };
  secondary_server = record { ip = 0; port = 2 };
  proc_id = 4;
  registry_stream = stream;
  curr_data = [];
  world = world reads true;
}

-- The line comes in two pieces, with the start of the next.
receive_message-line_example :
    receive_message wires serde 2 3 ([], world ((5 ∷ []) ∷ (10 ∷ 6 ∷ []) ∷ []) true)
    ≡ (ok (registry_connection 5), (6 ∷ [], world [] true))
unfolding from_slice
receive_message-line_example =
    receive_message-line wires serde 3 ((5 ∷ []) ∷ []) (10 ∷ 6 ∷ []) 2 [] (5 ∷ []) (6 ∷ [])
      (world ((5 ∷ []) ∷ (10 ∷ 6 ∷ []) ∷ []) true) (world ((10 ∷ 6 ∷ []) ∷ []) true) (world [] true)
      (registry_connection 5) (_, refl, refl) (refl, tt) refl refl (omega arith) refl refl refl

receive_message-stuck_example :
    (receive_message wires serde 1 3 (5 ∷ 10 ∷ [], world [] true)
      ≡ (err (io_error IoError.would_block), (5 ∷ 10 ∷ [], world [] true)))
    × ((take_line wires serde >>= parse_line wires serde) (5 ∷ 10 ∷ [], world [] true)
        ≡ (ok (registry_connection 5), ([], world [] true)))
unfolding from_slice
receive_message-stuck_example =
    receive_message-stuck wires serde 3 0 (5 ∷ 10 ∷ []) (5 ∷ []) [] (world [] true) (world [] true)
      (registry_connection 5) IoError.would_block refl refl refl refl

abbrev Ended : Wires → Type 0
Ended w = w ≡ world [] false

receive_message-endless_example :
    (receive_message wires serde 1000 3 (5 ∷ [], world [] false)).0 ≡ no_fuel
receive_message-endless_example =
    receive_message-endless wires serde 3 Ended (λ w e. rw e (refl, refl)) 1000 (5 ∷ [])
      (world [] false) refl

-- The primary takes nothing, so the request goes to the secondary, which calls the client 8.
switched :
    (registry_send_request wires serde 1 0 RequestType.read
      (client true 1 ((8 ∷ 10 ∷ []) ∷ []))).1.world.outbox
    ≡ (2, 7 ∷ 10 ∷ []) ∷ []
unfolding registry_send_request send_to_secondary switch_to_secondary registry_handle_connection
    receive_message fill take_line parse_line to_vec from_slice
switched = refl

identity_kept :
    let s =
      (registry_send_request wires serde 1 0 RequestType.read
        (client true 1 ((8 ∷ 10 ∷ []) ∷ []))).1 in
    (s.proc_id ≡ 4) × (s.is_primary ≡ true)
identity_kept =
    registry_send_request-IsIdentity wires serde 4 true 1 0 RequestType.read
      (client true 1 ((8 ∷ 10 ∷ []) ∷ [])) (refl, refl)

-- A registry that takes nothing more.
abbrev deaf_wires : Network
deaf_wires = record wires { write_all = λ stream text w. (inl IoError.connection_reset, w) }

abbrev client_of_deaf : Client deaf_wires serde
client_of_deaf = client false 1 []

-- The client asks for key 9, is told to wait for key 6, and then that it has key 6.
registry_write_sync-wait_example :
    registry_write_sync wires serde 1 9 (client true 3 ((0 ∷ 6 ∷ 10 ∷ []) ∷ (1 ∷ 6 ∷ 10 ∷ []) ∷ []))
    ≡ (
      ok tt,
      record (client true 3 []) {
        world = record { reads = []; open_end = true; outbox = (3, 7 ∷ 10 ∷ []) ∷ [] };
      },
    )
unfolding receive_message fill take_line parse_line to_vec from_slice
registry_write_sync-wait_example =
    registry_write_sync-wait wires serde 1 9 6
      (client true 3 ((0 ∷ 6 ∷ 10 ∷ []) ∷ (1 ∷ 6 ∷ 10 ∷ []) ∷ [])) (7 ∷ 10 ∷ []) []
      (record {
        reads = (0 ∷ 6 ∷ 10 ∷ []) ∷ (1 ∷ 6 ∷ 10 ∷ []) ∷ [];
        open_end = true;
        outbox = (3, 7 ∷ 10 ∷ []) ∷ [];
      })
      _
      (
        [],
        record { reads = (1 ∷ 6 ∷ 10 ∷ []) ∷ []; open_end = true; outbox = (3, 7 ∷ 10 ∷ []) ∷ [] },
      )
      ([], record { reads = []; open_end = true; outbox = (3, 7 ∷ 10 ∷ []) ∷ [] })
      (ok (registry_response (RegistryResponse.success 6))) refl refl refl refl refl
