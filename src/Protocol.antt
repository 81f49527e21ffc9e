-- ===== src/Protocol.antt =====
-- protocol.rs: the messages of the registry and of the peer-to-peer exchange.
use soros.Base.{ℕ, String, ◌^◌, ◌⊎◌, inl, inr, List, [], ◌∷◌, ◌++◌}

-- `usize` on a 64-bit platform.
abbrev pub usize_mod : ℕ
usize_mod = 2 ^ 64

abbrev pub ProcId : Type 0
ProcId = ℕ

abbrev pub KeyId : Type 0
KeyId = ℕ

-- `std::net::SocketAddr` of an IPv4 address.
pub record SocketAddr : Type 0 where
  pub ip : ℕ
  pub port : ℕ

pub data RegistryResponse : Type 0 where
  ack : RegistryResponse
  success : KeyId → RegistryResponse
  wait : KeyId → RegistryResponse
  holder : KeyId → SocketAddr → RegistryResponse
  error : String → RegistryResponse

pub data RequestType : Type 0 where
  create delete read write release : RequestType

pub data RegistryMessage : Type 0 where
  connection : ProcId → RegistryMessage
  connection_established : ProcId → RegistryMessage
  request : ProcId → RequestType → KeyId → RegistryMessage
  response : RegistryResponse → RegistryMessage
  stop_request : RegistryMessage

pub data DataMessage : Type 0 where
  request : KeyId → DataMessage
  response : String → DataMessage

pub data Message : Type 0 where
  registry : RegistryMessage → Message
  data_message : DataMessage → Message

-- The text of a `serde_json::Error`.
abbrev pub SerdeError : Type 0
SerdeError = String

abbrev pub Bytes : Type 0
Bytes = List ℕ

abbrev pub newline : ℕ
newline = b'\n'

-- The macros `registry_request!`, `registry_connection!`, `registry_connection_established!`,
-- `registry_response!` and `registry_stop!`.
abbrev pub registry_request : KeyId → ProcId → RequestType → Message
registry_request key_id proc_id request_type =
    Message.registry (RegistryMessage.request proc_id request_type key_id)

abbrev pub registry_connection : ProcId → Message
registry_connection proc_id = Message.registry (RegistryMessage.connection proc_id)

abbrev pub registry_connection_established : ProcId → Message
registry_connection_established id_counter =
    Message.registry (RegistryMessage.connection_established id_counter)

abbrev pub registry_response : RegistryResponse → Message
registry_response resp = Message.registry (RegistryMessage.response resp)

abbrev pub registry_stop : Message
registry_stop = Message.registry RegistryMessage.stop_request

-- `serde_json`'s `to_vec` and `from_slice` at `Message`; the left side is `Err`.
pub record Serde : Type 0 where
  pub serialize : Message → SerdeError ⊎ Bytes
  pub deserialize : Bytes → SerdeError ⊎ Message

module _ (serde : Serde) where
  -- `Message::to_vec`: one line.
  unfoldable pub to_vec : Message → SerdeError ⊎ Bytes
  to_vec message = elim (serde.serialize message) [
    | inl e ↦ inl e
    | inr text ↦ inr (text ++ newline ∷ [])
  ]

  unfoldable pub from_slice : Bytes → SerdeError ⊎ Message
  from_slice text = serde.deserialize text
