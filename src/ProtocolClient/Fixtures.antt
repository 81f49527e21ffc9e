-- ===== src/ProtocolClient/Fixtures.antt =====
-- A client whose registry and peers give the answers of a list. A world is the answers that are left.
use soros.Base.{true, List, [], ◌∷◌, ◌⊎◌, inl, inr, ◌==◌, if◌then◌else◌}
use soros.Protocol.{
  Bytes, SerdeError, Serde, Message, DataMessage, registry_response, RegistryResponse,
}
use soros.Network.{Network, IoError}
use soros.ProtocolClient.{Client}

abbrev pub read_next : List Bytes → (IoError ⊎ Bytes) × List Bytes
read_next [] = (inl IoError.would_block, [])
read_next (answer ∷ rest) = (inr answer, rest)

abbrev pub wires : Network
wires = record {
  World = List Bytes;
  connect = λ addr w. (inr addr.port, w);
  new_poll = λ w. (inr tt, w);
  listen = λ addr w. (inr tt, w);
  register = λ stream token w. (inr tt, w);
  read = λ stream n w. read_next w;
  peek = λ stream w. (inr [], w);
  write_all = λ stream text w. (inr tt, w);
  set_timeouts = λ stream n w. (inr tt, w);
}

-- One byte is the text of a peer; two are an answer about a key.
abbrev pub decode : Bytes → SerdeError ⊎ Message
decode (p ∷ []) = inr (Message.data_message (DataMessage.response "five"))
decode (t ∷ k ∷ []) = inr (
    registry_response (
      if t == 0
      then RegistryResponse.holder k (record { ip = 0; port = 7 })
      else if t == 2
      then RegistryResponse.wait k
      else RegistryResponse.success k))
decode other = inl "EOF"

abbrev pub serde : Serde
serde = record { serialize = λ m. inr (7 ∷ []); deserialize = decode }

abbrev pub client : List Bytes → Client wires serde
client answers = record {
  is_primary = true;
  logging = true;
  primary_server = record { ip = 0; port = 1 };
  secondary_server = record { ip = 0; port = 2 };
  proc_id = 4;
  registry_stream = 1;
  curr_data = [];
  world = answers;
}

abbrev pub granted : Bytes
granted = 1 ∷ 1 ∷ 10 ∷ []

abbrev pub held : Bytes
held = 0 ∷ 1 ∷ 10 ∷ []

abbrev pub five : Bytes
five = 5 ∷ []

abbrev pub waiting : Bytes
waiting = 2 ∷ 1 ∷ 10 ∷ []
