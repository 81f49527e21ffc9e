-- ===== src/ClientBinary.antt =====
-- bin/client.rs: the demonstration of two peers, and the two that are not run. What is only logged is
-- left out, and so are the pauses.
pub mod Stores
pub mod Threads
mod Tests
use soros.Base.{
  ℕ, String, false, List, [], ◌∷◌, Option, Outcome, ok, err, panic, exit, no_fuel, Action, pure,
  modify, crash, unwrap, ◌>>=◌, ◌>>◌,
}
use soros.Protocol.{SocketAddr, Serde}
use soros.Network.{Network}
use soros.DataStore
use soros.DataStore.{DataStore, DataStoreError, D}
use soros.P2pServer.{P2pServerError}
use soros.ProtocolClient.{ProtocolClient, ProtocolClientError, handle_wait_error, Client, C}
use soros.ProtocolClient.Requests
use soros.ProtocolClient.Requests.{
  registry_create, registry_delete, registry_read, registry_release, registry_read_sync,
  registry_write_sync, registry_await_read, p2p_read,
}

pub data ClientError : Type 0 where
  protocol_client_error : ProtocolClientError → ClientError
  p2p_server_error : P2pServerError → ClientError
  data_store_error : DataStoreError → ClientError

-- One of the two peers: its client, the store that it shares with its server, and the addresses of
-- the servers that it has started (each runs `P2pServer.bind` on a thread of its own, whose result
-- nobody looks at).
pub record Peer (World : Type 0) : Type 0 where
  pub client : ProtocolClient World
  pub data_store : DataStore
  pub servers : List SocketAddr

abbrev pub local : ℕ → SocketAddr
local port = record { ip = 0; port = port }

-- `inner?`, with the error converted by `from`
abbrev pub convert : {E A : Type 0} → (E → ClientError) → Outcome E A → Outcome ClientError A
convert from (ok a) = ok a
convert from (err e) = err (from e)
convert from panic = panic
convert from exit = exit
convert from no_fuel = no_fuel

-- `let _ = call`
abbrev pub ignore : {S E A : Type 0} → Action S E A → Action S E (Unit {0})
ignore call s =
    let (r, s') = call s in
    (elim r [ ok a ↦ ok tt | err e ↦ ok tt | panic ↦ panic | exit ↦ exit | no_fuel ↦ no_fuel ], s')

module _ (network : Network) (serde : Serde) (parse_addr : String → Option SocketAddr) where
  open network use {World}

  abbrev pub W : Type 0 → Type 0
  W = Action World ClientError

  abbrev pub P : Type 0 → Type 0
  P = Action (Peer World) ClientError

  abbrev pub on_client : {A : Type 0} → C network serde A → P A
  on_client call p =
      let (r, c) = call p.client in (convert protocol_client_error r, record p { client = c })

  -- The same, with the call's own error.
  abbrev of_client : {A : Type 0} → C network serde A → Action (Peer World) ProtocolClientError A
  of_client call p = let (r, c) = call p.client in (r, record p { client = c })

  abbrev pub on_store : {A : Type 0} → D A → P A
  on_store call p =
      let (r, d) = call p.data_store in (convert data_store_error r, record p { data_store = d })

  -- `thread::spawn` of a server on the shared store
  abbrev pub spawn_server : ℕ → P (Unit {0})
  spawn_server port = modify (λ p. record p { servers = local port ∷ p.servers })

  abbrev connect_to : ℕ → String → String → W (Client network serde)
  connect_to fuel primary backup = do
    primary_server ← unwrap (parse_addr primary)
    secondary_server ← unwrap (parse_addr backup)
    (λ w.
        let (r, w') = Requests.new network serde fuel primary_server secondary_server w in
        (convert protocol_client_error r, w'))

  unfoldable pub create_protocol_client : ℕ → List String → W (Client network serde)
  create_protocol_client fuel (program ∷ primary ∷ backup ∷ []) = connect_to fuel primary backup
  create_protocol_client fuel args = crash

  -- The part of `p2p_client1` that follows the creation of the client and the store.
  unfoldable pub p2p_steps1 : ℕ → P (Unit {0})
  p2p_steps1 fuel = do
    spawn_server 6001
    on_client (registry_create network serde fuel 1)
    on_store (DataStore.create 1 "inital data fom client 1")
    ignore (on_client (registry_create network serde fuel 1))
    on_client (registry_write_sync network serde fuel 1)
    on_store (DataStore.write 1 "new data from client 1")
    on_client (registry_release network serde fuel 1)

  -- And of `p2p_client2`. The address that the registry gives is not used.
  unfoldable pub p2p_steps2 : ℕ → P (Unit {0})
  p2p_steps2 fuel = do
    spawn_server 6002
    ignore (on_client (registry_create network serde fuel 1))
    owner_addr ← on_client (registry_read_sync network serde fuel 1)
    text ← on_client (p2p_read network serde 1 (local 6001))
    on_store (DataStore.create 1 text)
    on_client (registry_release network serde fuel 1)
    on_client (registry_delete network serde fuel 1)

  -- The steps from a peer with this client and an empty store, which the end of the thread drops.
  unfoldable pub as_peer : P (Unit {0}) → Client network serde → W (Unit {0})
  as_peer steps c w =
      let (r, p) =
        steps
          (record { client = record c { world = w }; data_store = DataStore.new; servers = [] }) in
      (r, p.client.world)

  -- `client.logging = false`
  abbrev pub quiet : Client network serde → Client network serde
  quiet c = record c { logging = false }

  unfoldable pub p2p_client1 : ℕ → List String → W (Unit {0})
  p2p_client1 fuel args = do
    client ← create_protocol_client fuel args
    as_peer (p2p_steps1 fuel) (quiet client)

  unfoldable pub p2p_client2 : ℕ → List String → W (Unit {0})
  p2p_client2 fuel args = do
    client ← create_protocol_client fuel args
    as_peer (p2p_steps2 fuel) (quiet client)

  unfoldable pub basic_steps : ℕ → P (Unit {0})
  basic_steps fuel = do
    on_client (registry_create network serde fuel 1)
    ignore (on_client (registry_create network serde fuel 1))
    on_client (registry_write_sync network serde fuel 1)
    on_client (registry_release network serde fuel 1)
    holder ← on_client (registry_read_sync network serde fuel 1)
    on_client (registry_release network serde fuel 1)
    on_client (registry_delete network serde fuel 1)
    on_client (registry_create network serde fuel 2)
    on_client (registry_write_sync network serde fuel 2)
    on_client (registry_release network serde fuel 2)

  unfoldable pub basic_usage : ℕ → List String → W (Unit {0})
  basic_usage fuel args = create_protocol_client fuel args >>= as_peer (basic_steps fuel)

  -- What `advanced_usage` does when its read has to wait for its own write.
  abbrev release_and_read : ℕ → P (Unit {0})
  release_and_read fuel = do
    on_client (registry_release network serde fuel 2)
    holder ← on_client (registry_await_read network serde fuel)
    pure tt

  unfoldable pub advanced_steps : ℕ → P (Unit {0})
  advanced_steps fuel = do
    ignore (on_client (registry_create network serde fuel 2))
    on_client (registry_write_sync network serde fuel 2)
    on_client (registry_read network serde fuel 2)
    handle_wait_error (of_client (registry_await_read network serde fuel)) (release_and_read fuel)
    on_client (registry_release network serde fuel 2)
    holder ← on_client (registry_read_sync network serde fuel 2)
    on_client (registry_release network serde fuel 2)
    on_client (registry_delete network serde fuel 2)

  unfoldable pub advanced_usage : ℕ → List String → W (Unit {0})
  advanced_usage fuel args = create_protocol_client fuel args >>= as_peer (advanced_steps fuel)

-- How a thread's end shows to the one that joins it and only logs its error.
abbrev pub joined : {E : Type 0} → Outcome E (Unit {0}) → Outcome ClientError (Unit {0})
joined (ok a) = ok tt
joined (err e) = ok tt
joined panic = panic
joined exit = exit
joined no_fuel = no_fuel

-- `p2p`, by the ends of the threads of the two clients, and `main`, by that of `p2p`.
unfoldable pub p2p :
    Outcome ClientError (Unit {0}) → Outcome ClientError (Unit {0}) → Outcome ClientError (Unit {0})
p2p client1 client2 = elim (joined client1) [ ok a ↦ joined client2 | other ↦ other ]

unfoldable pub main : Outcome ClientError (Unit {0}) → Outcome ClientError (Unit {0})
main handle = joined handle
