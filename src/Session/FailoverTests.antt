-- ===== src/Session/FailoverTests.antt =====
-- Process 3 creates key 5 at the primary, which forwards this and exits; process 4 asks to create it,
-- too.
use soros.Base.{
  ◌≡◌, refl, [], ◌∷◌, none, some, ◌⊎◌, inl, inr, err, exit, arith, ◌==◌, if◌then◌else◌,
}
use soros.Protocol.{
  Bytes, SerdeError, Message, RegistryMessage, RegistryResponse, RequestType, newline,
  registry_request, registry_response, registry_connection, to_vec, from_slice,
}
use soros.Network.{Network, IoError}
use soros.AccessManager
use soros.AccessManager.{key_exists, new_key_state}
use soros.AccessManager.Calls.{Call, perform, answer, lock_after}
use soros.AccessManager.Invariant.{new-IsSound}
use soros.AccessManager.Orders.{insertion_order}
use soros.RegistryServer.{
  forward_request, handle_message, answer_request, handle_response, Platform, Server,
  access_manager,
}
use soros.RegistryServer.Requests.{
  after_response, notify_all, count_request, handle_data, handle_request,
}
use soros.RegistryServer.Replies.{afterwards}
use soros.RegistryServer.Fixtures
use soros.RegistryServer.Fixtures.{mirror, type_of_code}
use soros.ProtocolClient.{Client, registry_error, receive_message, fill, take_line, parse_line}
use soros.ProtocolClient.Fixtures as Answers
use soros.ProtocolClient.Answers.{ask, received}
use soros.Session.Lines.{line-Brings}
use soros.Session.Failover.{switched, ask-failover}

-- Three bytes or more are a request, a 4 an error, another byte the id of a connection.
abbrev decode : Bytes → SerdeError ⊎ Message
decode (t ∷ p ∷ k ∷ rest) = inr (registry_request k p (type_of_code t))
decode (c ∷ []) =
    inr
      (if c == 4 then registry_response (RegistryResponse.error "error") else registry_connection c)
decode other = inl "EOF"

abbrev encode : Message → SerdeError ⊎ Bytes
encode (Message.registry (RegistryMessage.request p t k)) = inr (0 ∷ p ∷ k ∷ [])
encode (Message.registry (RegistryMessage.response r)) = inr (4 ∷ [])
encode other = inl "not here"

abbrev primary : Platform
primary = record Fixtures.platform { serde = record { serialize = encode; deserialize = decode } }

abbrev secondary : Platform
secondary = record mirror { serde = record { serialize = encode; deserialize = decode } }

abbrev request_text : Bytes
request_text = 0 ∷ 4 ∷ 5 ∷ newline ∷ []

abbrev first_text : Bytes
first_text = 0 ∷ 3 ∷ 5 ∷ newline ∷ []

abbrev at_primary : Server primary
at_primary = Fixtures.server (some 9) AccessManager.new

abbrev at_secondary : Server secondary
at_secondary = record (Fixtures.server none AccessManager.new) {
  world = record { inbox = request_text; outbox = [] };
}

abbrev after_first : Server secondary
after_first = (handle_request secondary 1000 first_text at_secondary).1

-- The primary's stream, 1, takes nothing.
abbrev wires : Network
wires = record Answers.wires {
  write_all =
      λ stream text w. if stream == 1 then (inl IoError.connection_reset, w) else (inr tt, w);
}

abbrev client : Client wires secondary.serde
client = Answers.client ((8 ∷ newline ∷ []) ∷ (4 ∷ newline ∷ []) ∷ [])

ask-failover_example :
    let m' = (perform secondary.order (Call.create 4 5) after_first.access_manager).1 in
    let (end, held) = handle_request primary 1 first_text at_primary in
    (end ≡ exit)
    × (held.world
        ≡ record at_primary.world { outbox = (11, 4 ∷ newline ∷ []) ∷ (9, first_text) ∷ [] })
    × (ask wires secondary.serde RequestType.create 1 5 client ≡ (
      err (registry_error "error"),
      received wires secondary.serde
          (switched wires secondary.serde client 2 [] ((4 ∷ newline ∷ []) ∷ []))
          ([], []),
    ))
    × (handle_data secondary 1 after_first
        ≡ afterwards secondary 1 request_text
            (err (access_manager (key_exists 5)))
            (record after_first {
              world = (secondary.network.write_all 11 (4 ∷ newline ∷ []) after_first.world).1;
              access_manager = m';
            }))
    × (m'.key_states 5 ≡ some (new_key_state 3))
unfolding to_vec from_slice answer lock_after receive_message fill take_line parse_line
    handle_request handle_message answer_request AccessManager.create handle_response after_response
    notify_all forward_request count_request
ask-failover_example =
    ask-failover primary secondary (λ text. refl) wires 1 1000 1 at_primary at_secondary first_text
      (4 ∷ newline ∷ []) 3 5 11 9 _ _ RequestType.create 5 client 1 0 (4 ∷ 5 ∷ newline ∷ [])
      (4 ∷ []) [] IoError.connection_reset 2 11 8 _ _ ((4 ∷ newline ∷ []) ∷ [])
      ((4 ∷ newline ∷ []) ∷ []) ((4 ∷ newline ∷ []) ∷ []) _ _ ([], []) (new-IsSound insertion_order)
      (new-IsSound insertion_order) refl refl refl refl refl refl refl refl refl refl tt refl refl
      refl refl refl refl refl refl refl refl refl refl refl refl refl
      (line-Brings wires secondary.serde 1 2 [] (4 ∷ newline ∷ []) (4 ∷ newline ∷ [])
        ((4 ∷ newline ∷ []) ∷ []) ((4 ∷ newline ∷ []) ∷ []) [] refl tt refl refl (omega arith) refl)
