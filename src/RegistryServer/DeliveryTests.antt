-- ===== src/RegistryServer/DeliveryTests.antt =====
-- A release, and who is told.
use soros.Base.{◌+◌, ◌≡◌, refl, [], ◌∷◌, ◌++◌, none, some, ok, inr}
use soros.Base.HashMap
use soros.Protocol.{newline, RequestType, RegistryResponse, registry_response, to_vec, from_slice}
use soros.AccessManager
use soros.AccessManager.Orders.{insertion_order}
use soros.AccessManager.Lock.{next_served}
use soros.AccessManager.Release.{after_release, let_in}
use soros.AccessManager.Calls.{Call, run, perform}
use soros.RegistryServer.{Server}
use soros.RegistryServer.Requests.{handle_data}
use soros.RegistryServer.Delivery.{Clients, delivered, handle_data-release}
use soros.RegistryServer.Fixtures.{
  platform, server, manager, manager-IsSound, key_zero, release_text, encode_response,
}

line :
    (r : RegistryResponse)
    → to_vec platform.serde (registry_response r) ≡ inr (encode_response r ++ newline ∷ [])
unfolding to_vec
line r = refl

abbrev clients : Clients platform
clients = record {
  stream_of = λ p. 10 + p;
  addr_of = λ h. record { ip = 1; port = 2 };
  line_of = λ r. encode_response r ++ newline ∷ [];
  to_vec-line_of = line;
  write_all-ok = λ stream text w. refl;
}

-- Process 1 writes key 0, which process 3 created; 2 waits to read.
abbrev releasing : Server platform
releasing = record (server none manager) {
  token_addr_map = HashMap.insert 3 (record { ip = 1; port = 2 }) HashMap.empty;
  world = record { inbox = release_text; outbox = [] };
}

handle_data-release_example :
    let m' = (perform insertion_order (Call.release 1 0) manager).1 in
    (handle_data platform 1 releasing ≡ (
      ok tt,
      delivered platform clients ((2, 0, RequestType.read, 3) ∷ []) (record releasing {
        world = record { inbox = release_text; outbox = (11, 1 ∷ 0 ∷ newline ∷ []) ∷ [] };
        access_manager = m';
      }),
    ))
    × (m'.key_states 0 ≡ some (after_release 1 key_zero))
unfolding from_slice run perform AccessManager.create AccessManager.write AccessManager.read let_in
    next_served
handle_data-release_example =
    handle_data-release platform clients 1 11 4 (1 ∷ 0 ∷ []) 1 0 key_zero releasing.world releasing
      manager-IsSound refl refl refl refl refl refl refl refl ((refl, refl), tt)
