-- ===== src/Session/Tests.antt =====
-- A client, process 1, creates key 7. A world is what the next read gives and what was last written.
use soros.Base.{◌≡◌, refl, true, [], ◌∷◌, none, some, ◌⊎◌, inl, inr, ok, arith, false}
use soros.Base.HashMap
use soros.Protocol.{
  Bytes, SerdeError, Message, RegistryMessage, RegistryResponse, RequestType, newline,
  registry_request, registry_response, to_vec, from_slice,
}
use soros.Network.{Network}
use soros.AccessManager
use soros.AccessManager.{new_key_state}
use soros.AccessManager.Calls.{Call, perform, answer, lock_after}
use soros.AccessManager.Invariant.{new-IsSound}
use soros.RegistryServer.{Platform, Server}
use soros.RegistryServer.Requests.{handle_data}
use soros.RegistryServer.Replies.{afterwards}
use soros.AccessManager.Orders.{insertion_order}
use soros.RegistryServer.Fixtures.{type_of_code}
use soros.ProtocolClient.{Client}
use soros.ProtocolClient.Answers.{ask, received}
use soros.Session.{ask-handle_data}

abbrev wires : Network
wires = record {
  World = Bytes × Bytes;
  connect = λ addr w. (inr 1, w);
  new_poll = λ w. (inr tt, w);
  listen = λ addr w. (inr tt, w);
  register = λ stream token w. (inr tt, w);
  read = λ stream n w. (inr w.0, w);
  peek = λ stream w. (inr w.0, w);
  write_all = λ stream text w. (inr tt, (w.0, text));
  set_timeouts = λ stream n w. (inr tt, w);
}

-- Three bytes or more are a request, two a success, one an error.
abbrev decode : Bytes → SerdeError ⊎ Message
decode (t ∷ p ∷ k ∷ rest) = inr (registry_request k p (type_of_code t))
decode (c ∷ k ∷ []) = inr (registry_response (RegistryResponse.success k))
decode (c ∷ []) = inr (registry_response (RegistryResponse.error "error"))
decode [] = inl "EOF"

abbrev encode : Message → SerdeError ⊎ Bytes
encode (Message.registry (RegistryMessage.response (RegistryResponse.success k))) = inr (9 ∷ k ∷ [])
encode (Message.registry (RegistryMessage.response r)) = inr (4 ∷ [])
encode (Message.registry (RegistryMessage.request p t k)) = inr (0 ∷ p ∷ k ∷ [])
encode other = inl "not here"

abbrev platform : Platform
platform = record {
  network = wires;
  serde = record { serialize = encode; deserialize = decode };
  order = insertion_order;
  to_string = λ e. "error";
}

abbrev request_text : Bytes
request_text = 0 ∷ 1 ∷ 7 ∷ newline ∷ []

abbrev reply_text : Bytes
reply_text = 9 ∷ 7 ∷ newline ∷ []

abbrev server : Server platform
server = record {
  addr = record { ip = 0; port = 8888 };
  backup_addr = none;
  backup_stream = none;
  backup_token = 999;
  primary_token = 1000;
  first_connection = false;
  access_manager = AccessManager.new;
  token_stream_map = HashMap.insert 1 11 HashMap.empty;
  token_addr_map = HashMap.empty;
  id_counter = 1;
  request_counter = 0;
  world = (request_text, []);
}

abbrev client : Client wires platform.serde
client = record {
  is_primary = true;
  logging = true;
  primary_server = record { ip = 0; port = 1 };
  secondary_server = record { ip = 0; port = 2 };
  proc_id = 1;
  registry_stream = 3;
  curr_data = [];
  world = (reply_text, []);
}

ask-handle_data_example :
    let m' = (perform insertion_order (Call.create 1 7) AccessManager.new).1 in
    (ask wires platform.serde RequestType.create 1 7 client
      ≡ (ok tt, received wires platform.serde client ([], (reply_text, request_text))))
    × (handle_data platform 1 server
        ≡ afterwards platform 1 request_text
            (ok (RegistryResponse.success 7))
            (record server { world = (request_text, reply_text); access_manager = m' }))
    × (m'.key_states 7 ≡ some (new_key_state 1))
unfolding to_vec from_slice answer lock_after
ask-handle_data_example =
    ask-handle_data platform wires RequestType.create 7 1 11 0 (1 ∷ 7 ∷ newline ∷ []) (9 ∷ 7 ∷ [])
      server (request_text, []) (request_text, reply_text) client reply_text
      (reply_text, request_text) (reply_text, request_text) (reply_text, request_text)
      (reply_text, request_text) [] reply_text 1 tt (new-IsSound insertion_order) refl refl refl
      refl refl refl refl refl refl refl refl refl tt refl refl (omega arith) refl refl
