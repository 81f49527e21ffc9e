-- ===== src/RegistryServer.antt =====
-- registry_server.rs: the registry, which answers the requests of its clients and copies them to a
-- secondary registry.
pub mod Requests
pub mod EventLoop
pub mod Frame
pub mod Sound
pub mod Mirror
pub mod LostGrants
pub mod Limits
pub mod Grants
pub mod Panics
pub mod Events
pub mod Tokens
pub mod Replies
pub mod ReadReplies
pub mod Disconnect
pub mod Startup
pub mod Delivery
pub mod FirstRequest
pub mod Fixtures
mod EventTests
mod DeliveryTests
mod Tests
use soros.Base.{
  ℕ, suc, ◌+◌, ◌%◌, ◌≡◌, Bool, true, false, String, List, [], ◌∷◌, Option, none, some, ◌⊎◌, inl,
  inr, ◌==◌, ◌&&◌, if◌then◌else◌, is_some, not, Outcome, ok, err, panic, exit, no_fuel, Action,
  pure, throw, gets, modify, crash, try_or, unwrap, ok_or, ◌>>=◌, ◌>>◌,
}
use soros.Base.HashMap
use soros.Base.HashMap.{HashMap}
use soros.Base.HashSet.{HashOrder}
use soros.Protocol.{
  ProcId, KeyId, SocketAddr, Bytes, SerdeError, Serde, Message, RegistryMessage, RegistryResponse,
  RequestType, usize_mod, to_vec, from_slice, registry_response, registry_connection,
  registry_connection_established,
}
use soros.Channel.{try_iter}
use soros.AccessManager
use soros.AccessManager.{AccessManager, AccessManagerError, AccessGranted}
use soros.Network.{Network, IoError, TcpStream, Token, is_utf8}

pub data RegistryServerError : Type 0 where
  io_error : IoError → RegistryServerError
  serialization_error : SerdeError → RegistryServerError
  unexpected_request : RegistryServerError
  access_manager : AccessManagerError → RegistryServerError
  invalid_token : Token → RegistryServerError
  unknown_holder : Token → RegistryServerError
  stop_request : RegistryServerError

-- The server, and the world that it runs in, whose part `poll` is.
pub record RegistryServer (World : Type 0) : Type 0 where
  pub addr : SocketAddr
  pub backup_addr : Option SocketAddr
  pub backup_stream : Option TcpStream
  pub backup_token : Token
  pub primary_token : Token
  pub first_connection : Bool
  pub access_manager : AccessManager
  pub token_stream_map : HashMap TcpStream
  pub token_addr_map : HashMap SocketAddr
  pub id_counter : ProcId
  pub request_counter : ℕ
  pub world : World

-- What the code takes from elsewhere: the sockets, `serde_json`, the order of a hash set, and the
-- texts that `thiserror` makes of errors.
pub record Platform : Type 1 where
  pub network : Network
  pub open network use {World}
  pub serde : Serde
  pub order : HashOrder
  pub to_string : RegistryServerError → String

abbrev pub u64_mod : ℕ
u64_mod = usize_mod

module _ (platform : Platform) where
  open platform use {network, serde, order, to_string}
  open network use {World}

  abbrev pub Server : Type 0
  Server = RegistryServer World

  abbrev pub S : Type 0 → Type 0
  S = Action Server RegistryServerError

  -- `stream.write_all(data)?`
  abbrev pub write_all : TcpStream → Bytes → S (Unit {0})
  write_all stream text s =
      let (r, w) = network.write_all stream text s.world in
      try_or io_error r (record s { world = w })

  -- `self.poll.registry().register(stream, token, READABLE)?`
  abbrev pub register : TcpStream → Token → S (Unit {0})
  register stream token s =
      let (r, w) = network.register stream token s.world in
      try_or io_error r (record s { world = w })

  -- A call of the access manager, whose `Result` the caller looks at.
  abbrev pub manage : {A : Type 0} → AccessManager.M A → S (AccessManagerError ⊎ A)
  manage call s =
      let (r, m) = call s.access_manager in
      (
        elim r [
          | ok a ↦ ok (inr a)
          | err e ↦ ok (inl e)
          | panic ↦ panic
          | exit ↦ exit
          | no_fuel ↦ no_fuel
        ],
        record s { access_manager = m },
      )

  unfoldable pub proc_id_to_addr : ProcId → S SocketAddr
  proc_id_to_addr proc_id s = ok_or (s.token_addr_map proc_id) (unknown_holder proc_id) s

  unfoldable pub remove_client : Token → S (Unit {0})
  remove_client token = modify λ s. record s {
    token_stream_map = HashMap.remove token s.token_stream_map;
    token_addr_map = HashMap.remove token s.token_addr_map;
  }

  unfoldable pub handle_response : Token → RegistryResponse → S (Unit {0})
  handle_response token response = do
    stream ← (λ s. ok_or (s.token_stream_map token) (invalid_token token) s)
    text ← try_or serialization_error (to_vec serde (registry_response response))
    write_all stream text

  unfoldable pub handle_error : Token → RegistryServerError → S (Unit {0})
  handle_error token e = handle_response token (RegistryResponse.error (to_string e))

  unfoldable pub forward_request : Bytes → S (Unit {0})
  forward_request text s = elim s.backup_stream [
    | none ↦ (ok tt, s)
    | some backup_stream ↦ write_all backup_stream text s
  ]

  -- `.map(|_| Success(key_id)).map_err(RegistryServerError::AccessManager)`
  abbrev success_or_error : KeyId → AccessManagerError ⊎ Unit {0} → S RegistryResponse
  success_or_error key_id (inr _) = pure (RegistryResponse.success key_id)
  success_or_error key_id (inl e) = throw (access_manager e)

  abbrev holder_or_wait : KeyId → AccessManagerError ⊎ ProcId → S RegistryResponse
  holder_or_wait key_id (inr holder_id) = do
    addr ← proc_id_to_addr holder_id
    pure (RegistryResponse.holder key_id addr)
  holder_or_wait key_id (inl (AccessManagerError.request_access p k)) =
      pure (RegistryResponse.wait k)
  holder_or_wait key_id (inl e) = throw (access_manager e)

  abbrev success_or_wait : KeyId → AccessManagerError ⊎ Unit {0} → S RegistryResponse
  success_or_wait key_id (inr _) = pure (RegistryResponse.success key_id)
  success_or_wait key_id (inl (AccessManagerError.request_access p k)) =
      pure (RegistryResponse.wait key_id)
  success_or_wait key_id (inl e) = throw (access_manager e)

  -- The arm of `handle_message` on `RegistryMessage::Request`.
  unfoldable pub answer_request : ProcId → RequestType → KeyId → S RegistryResponse
  answer_request proc_id RequestType.create key_id =
      manage (AccessManager.create proc_id key_id) >>= success_or_error key_id
  answer_request proc_id RequestType.delete key_id =
      manage (AccessManager.delete key_id) >>= success_or_error key_id
  answer_request proc_id RequestType.read key_id =
      manage (AccessManager.read order proc_id key_id) >>= holder_or_wait key_id
  answer_request proc_id RequestType.write key_id =
      manage (AccessManager.write proc_id key_id) >>= success_or_wait key_id
  answer_request proc_id RequestType.release key_id =
      manage (AccessManager.release order proc_id key_id) >>= success_or_error key_id

  unfoldable pub handle_message : Message → S RegistryResponse
  handle_message (Message.registry RegistryMessage.stop_request) = throw stop_request
  handle_message (Message.registry (RegistryMessage.connection_established id_counter)) =
      pure RegistryResponse.ack
  handle_message (Message.registry (RegistryMessage.request proc_id request_type key_id)) =
      answer_request proc_id request_type key_id
  handle_message (Message.registry (RegistryMessage.connection p)) = throw unexpected_request
  handle_message (Message.registry (RegistryMessage.response r)) = throw unexpected_request
  handle_message (Message.data_message d) = throw unexpected_request
