-- ===== src/RegistryServer/Fixtures.antt =====
-- A registry on a small network: what it writes is kept, and messages have a short binary form.
use soros.Base.{
  ℕ, false, List, [], ◌∷◌, ◌++◌, Option, none, some, ◌⊎◌, inl, inr, ◌==◌, if◌then◌else◌,
}
use soros.Base.HashMap
use soros.Protocol.{
  Bytes, SerdeError, Message, RegistryMessage, RegistryResponse, RequestType, registry_request,
}
use soros.AccessManager
use soros.AccessManager.{AccessManager, KeyState}
use soros.AccessManager.Calls.{Call, run}
use soros.AccessManager.Refinement.{IsSound}
use soros.AccessManager.Invariant.{run-new-IsSound}
use soros.AccessManager.Orders.{insertion_order, last_order}
use soros.Network.{Network, TcpStream}
use soros.RegistryServer.{Platform, Server}

-- What the next read gives, and what was written to each stream.
pub record Wires : Type 0 where
  pub inbox : Bytes
  pub outbox : List (TcpStream × Bytes)

abbrev pub wires : Network
wires = record {
  World = Wires;
  connect = λ addr w. (inr 1, w);
  new_poll = λ w. (inr tt, w);
  listen = λ addr w. (inr tt, w);
  register = λ stream token w. (inr tt, w);
  read = λ stream n w. (inr w.inbox, w);
  peek = λ stream w. (inr w.inbox, w);
  write_all = λ stream text w. (inr tt, record w { outbox = w.outbox ++ (stream, text) ∷ [] });
  set_timeouts = λ stream n w. (inr tt, w);
}

abbrev pub type_of_code : ℕ → RequestType
type_of_code c =
    if c == 0
    then RequestType.create
    else if c == 1
    then RequestType.delete
    else if c == 2
    then RequestType.read
    else if c == 3
    then RequestType.write
    else RequestType.release

abbrev pub decode : Bytes → SerdeError ⊎ Message
decode (t ∷ p ∷ k ∷ rest) = inr (registry_request k p (type_of_code t))
decode other = inl "EOF"

abbrev pub encode_response : RegistryResponse → Bytes
encode_response RegistryResponse.ack = 0 ∷ []
encode_response (RegistryResponse.success k) = 1 ∷ k ∷ []
encode_response (RegistryResponse.wait k) = 2 ∷ k ∷ []
encode_response (RegistryResponse.holder k a) = 3 ∷ k ∷ a.port ∷ []
encode_response (RegistryResponse.error e) = 4 ∷ []

abbrev pub encode : Message → SerdeError ⊎ Bytes
encode (Message.registry (RegistryMessage.response r)) = inr (encode_response r)
encode other = inr (5 ∷ [])

abbrev pub platform : Platform
platform = record {
  network = wires;
  serde = record { serialize = encode; deserialize = decode };
  order = insertion_order;
  to_string = λ e. "error";
}

-- A machine that iterates over its sets the other way round.
abbrev pub mirror : Platform
mirror = record platform { order = last_order }

abbrev pub server : Option TcpStream → AccessManager → Server platform
server backup m = record {
  addr = record { ip = 0; port = 8888 };
  backup_addr = none;
  backup_stream = backup;
  backup_token = 999;
  primary_token = 1000;
  first_connection = false;
  access_manager = m;
  token_stream_map = HashMap.insert 1 11 (HashMap.insert 2 12 HashMap.empty);
  token_addr_map = HashMap.insert 2 (record { ip = 1; port = 2 }) HashMap.empty;
  id_counter = 998;
  request_counter = 0;
  world = record { inbox = 0x80 ∷ []; outbox = [] };
}

-- Process 1 writes key 0, which process 3 created; 2 waits to read.
abbrev pub calls : List Call
calls = Call.create 3 0 ∷ Call.write 1 0 ∷ Call.read 2 0 ∷ []

abbrev pub manager : AccessManager
manager = run insertion_order calls AccessManager.new

abbrev pub key_zero : KeyState
key_zero = record {
  pending_request = (2, RequestType.read) ∷ [];
  readers = [];
  writer = some 1;
  creator = 3;
}

pub manager-IsSound : IsSound manager
manager-IsSound = run-new-IsSound insertion_order calls

abbrev pub release_text : Bytes
release_text = 4 ∷ 1 ∷ 0 ∷ []

abbrev pub create_text : Bytes
create_text = 0 ∷ 1 ∷ 7 ∷ []
