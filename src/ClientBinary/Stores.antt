-- ===== src/ClientBinary/Stores.antt =====
-- What the two peers of the demonstration do to their stores, beside their calls to the registry and to
-- each other.
use soros.Base.{
  arith, ℕ, ◌≡◌, String, List, [], ◌∷◌, Option, Outcome, ok, err, panic, exit, no_fuel, pure, ◌>>=◌,
  ◌>>◌,
}
use soros.Protocol.{SocketAddr, Serde}
use soros.Network.{Network}
use soros.DataStore
use soros.DataStore.{DataStore}
use soros.DataStore.History.{Operation, create, write, after, apply}
use soros.ProtocolClient.{ProtocolClient, ProtocolClientError, Client, C}
use soros.ProtocolClient.Requests.{
  registry_create, registry_delete, registry_release, registry_read_sync, registry_write_sync,
  p2p_read,
}
use soros.ClientBinary.{
  ClientError, protocol_client_error, Peer, local, ignore, p2p_steps1, p2p_steps2,
}

-- How a program ends whose last call ends so.
unfoldable pub ended : {A : Type 0} → Outcome ProtocolClientError A → Outcome ClientError (Unit {0})
ended (ok a) = ok tt
ended (err e) = err (protocol_client_error e)
ended panic = panic
ended exit = exit
ended no_fuel = no_fuel

-- What the first peer does to its store before it asks to write.
abbrev pub first_text : List Operation
first_text = create 1 "inital data fom client 1" ∷ []

-- What it does to it in all, the newest first.
abbrev pub history1 : List Operation
history1 = write 1 "new data from client 1" ∷ first_text

-- How far the first peer's store has come, by its creation of the key, the second one, of which only
-- that it comes back counts, and the grant of its write.
unfoldable pub store_by : {A B E F : Type 0} → Outcome E A → Outcome F B → Outcome E A → DataStore
store_by (ok a) (ok b) (ok c) = after history1
store_by (ok a) r s = after first_text
store_by other r s = DataStore.new

-- And the second's, by the end of its creation, by the grant of its read, and by what it has read.
unfoldable pub copy_by :
    {A B E F : Type 0} → Outcome F A → Outcome E B → Outcome E String → DataStore
copy_by (ok a) (ok b) (ok text) = after (create 1 text ∷ [])
copy_by a b r = DataStore.new

module _ {World : Type 0} where
  -- The peer with this client, store and started servers.
  abbrev pub at : DataStore → List SocketAddr → ProtocolClient World → Peer World
  at d servers c = record { client = c; data_store = d; servers = servers }

  -- The program `x` ends as the calls `y` do, with the client that they leave, the servers `servers`
  -- and the store `d`.
  unfoldable pub Follows :
      {A : Type 0}
      → DataStore
      → List SocketAddr
      → Outcome ClientError (Unit {0}) × Peer World
      → Outcome ProtocolClientError A × ProtocolClient World
      → Type 0
  Follows d servers x y =
      (x.0 ≡ ended y.0) × (x.1.client ≡ y.1) × (x.1.servers ≡ servers) × (x.1.data_store ≡ d)

module _ (network : Network) (serde : Serde) where
  -- The calls of `p2p_client1` to the registry alone.
  unfoldable pub calls1 : ℕ → C network serde (Unit {0})
  calls1 fuel = do
    registry_create network serde fuel 1
    ignore (registry_create network serde fuel 1)
    registry_write_sync network serde fuel 1
    registry_release network serde fuel 1
    pure tt

  -- Those of `p2p_client2`, and its read from the other peer; its text is what they come to.
  unfoldable pub calls2 : ℕ → C network serde String
  calls2 fuel = do
    ignore (registry_create network serde fuel 1)
    owner_addr ← registry_read_sync network serde fuel 1
    text ← p2p_read network serde 1 (local 6001)
    registry_release network serde fuel 1
    registry_delete network serde fuel 1
    pure text

module _ (network : Network) (serde : Serde) (parse_addr : String → Option SocketAddr) where
  -- The store of the first peer, by how its calls end: its text changes only once its write has been
  -- granted.
  abbrev pub store1 : ℕ → Client network serde → DataStore
  store1 fuel c =
      let (created, c1) = registry_create network serde fuel 1 c in
      let (again, c2) = ignore (registry_create network serde fuel 1) c1 in
      let (granted, c3) = registry_write_sync network serde fuel 1 c2 in
      store_by created again granted

  abbrev pub store2 : ℕ → Client network serde → DataStore
  store2 fuel c =
      let (tried, c1) = ignore (registry_create network serde fuel 1) c in
      let (granted, c2) = registry_read_sync network serde fuel 1 c1 in
      let (read, c3) = p2p_read network serde 1 (local 6001) c2 in copy_by tried granted read

  p2p_steps1-stores :
      (fuel : ℕ) (c : Client network serde)
      → Follows
          (store1 fuel c)
          (local 6001 ∷ [])
          (p2p_steps1 network serde parse_addr fuel (at DataStore.new [] c))
          (calls1 network serde fuel c)
  unfolding p2p_steps1 calls1 DataStore.create DataStore.write after apply Follows ended store_by
  p2p_steps1-stores fuel c = ground arith

  p2p_steps2-stores :
      (fuel : ℕ) (c : Client network serde)
      → Follows
          (store2 fuel c)
          (local 6002 ∷ [])
          (p2p_steps2 network serde parse_addr fuel (at DataStore.new [] c))
          (calls2 network serde fuel c)
  unfolding p2p_steps2 calls2 DataStore.create after apply Follows ended copy_by
  p2p_steps2-stores fuel c = ground arith

  -- The programs of the two peers, each from its client and an empty store, for every network. The
  -- first ends as its calls to the registry alone do, in the same way and with the same client; the
  -- second as its calls to the registry and its read from the first peer do: no error of a store ends
  -- them. Each has started its own server. Whatever call ends a program, its store is known: the
  -- first's is empty until the key has been created, has the first text until the write is granted, and
  -- then the second; the second's is empty until it has been granted its read and has read a text,
  -- which it then holds.
  pub p2p_steps-stores :
      (fuel : ℕ) (c1 c2 : Client network serde)
      → Follows
          (store1 fuel c1)
          (local 6001 ∷ [])
          (p2p_steps1 network serde parse_addr fuel (at DataStore.new [] c1))
          (calls1 network serde fuel c1)
        × Follows
            (store2 fuel c2)
            (local 6002 ∷ [])
            (p2p_steps2 network serde parse_addr fuel (at DataStore.new [] c2))
            (calls2 network serde fuel c2)
  p2p_steps-stores fuel c1 c2 = (p2p_steps1-stores fuel c1, p2p_steps2-stores fuel c2)
