-- ===== src/ClientBinary/Tests.antt =====
-- The two peers' programs with a registry and a peer that grant all.
use soros.Base.{String, ◌≡◌, refl, List, [], ◌∷◌, Option, none, ok}
use soros.Protocol.{Bytes, SocketAddr, to_vec, from_slice}
use soros.DataStore
use soros.DataStore.History.{create, after, apply}
use soros.ProtocolClient.{
  registry_handle_response, registry_send_request, receive_message, fill, take_line, parse_line,
}
use soros.ProtocolClient.Requests.{
  registry_create, registry_delete, registry_release, registry_read_sync, registry_read,
  registry_await_read, registry_expect_success, p2p_read, registry_write_sync, registry_write,
  registry_await_write, registry_write, registry_await_write,
}
use soros.ProtocolClient.Fixtures.{wires, serde, client, granted, held, five}
use soros.ClientBinary.{local, p2p_steps1, p2p_steps2, registry_write_sync}
use soros.ClientBinary.Stores.{
  Follows, calls1, calls2, history1, first_text, store1, store_by, copy_by, at, p2p_steps-stores,
}

abbrev parse_addr : String → Option SocketAddr
parse_addr text = none

abbrev answers1 : List Bytes
answers1 = granted ∷ granted ∷ granted ∷ granted ∷ []

abbrev answers2 : List Bytes
answers2 = granted ∷ held ∷ five ∷ granted ∷ granted ∷ []

p2p_steps-stores_example :
    Follows
      (after history1)
      (local 6001 ∷ [])
      (p2p_steps1 wires serde parse_addr 1 (at DataStore.new [] (client answers1)))
      (calls1 wires serde 1 (client answers1))
    × Follows
        (after (create 1 "five" ∷ []))
        (local 6002 ∷ [])
        (p2p_steps2 wires serde parse_addr 1 (at DataStore.new [] (client answers2)))
        (calls2 wires serde 1 (client answers2))
unfolding store_by copy_by registry_create registry_read_sync registry_read registry_await_read
    registry_handle_response registry_send_request registry_expect_success p2p_read receive_message
    fill take_line parse_line to_vec from_slice after registry_write_sync apply registry_write
    DataStore.write DataStore.create registry_await_write
p2p_steps-stores_example =
    p2p_steps-stores wires serde parse_addr 1 (client answers1) (client answers2)

-- The write is not granted in time: the first text stays.
not_granted : store1 wires serde parse_addr 1 (client (granted ∷ granted ∷ [])) ≡ after first_text
unfolding store_by registry_create registry_read_sync registry_read registry_await_read
    registry_handle_response registry_send_request registry_expect_success receive_message fill
    take_line parse_line to_vec from_slice after apply registry_write_sync registry_write
    registry_await_write DataStore.create
not_granted = refl

-- The calls do end well here.
reads_five : (calls2 wires serde 1 (client answers2)).0 ≡ ok "five"
unfolding calls2 registry_create registry_read_sync registry_read registry_await_read
    registry_handle_response registry_send_request registry_expect_success registry_release
    registry_delete p2p_read receive_message fill take_line parse_line to_vec from_slice
reads_five = refl
