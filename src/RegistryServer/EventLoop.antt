-- ===== src/RegistryServer/EventLoop.antt =====
-- registry_server.rs: `new`, `handle_connection` and the event loop of `bind`.
use soros.Base.{
  ℕ, ◌+◌, ◌%◌, Bool, true, false, List, [], ◌∷◌, Option, none, some, ◌⊎◌, ◌&&◌, if◌then◌else◌,
  is_some, not, ok, err, panic, exit, no_fuel, Action, pure, gets, modify, crash, try_or, ◌>>=◌,
  ◌>>◌,
}
use soros.Base.HashMap
use soros.Protocol.{
  SocketAddr, usize_mod, to_vec, registry_connection, registry_connection_established,
}
use soros.AccessManager
use soros.Network.{Event, incoming, event, IoError, TcpStream}
use soros.RegistryServer.{
  RegistryServerError, io_error, serialization_error, stop_request, Platform, Server, S, write_all,
  register, forward_request,
}
use soros.RegistryServer.Requests.{handle_data}

module _ (platform : Platform) where
  open platform use {network, serde}
  open network use {World}

  abbrev lift_io :
      {A : Type 0} → (World → (IoError ⊎ A) × World) → Action World RegistryServerError A
  lift_io call w = let (r, w') = call w in try_or io_error r w'

  abbrev connect_backup : Option SocketAddr → Action World RegistryServerError (Option TcpStream)
  connect_backup none = pure none
  connect_backup (some server) = do stream ← lift_io (network.connect server); pure (some stream)

  abbrev initial : ℕ → Option SocketAddr → Option TcpStream → World → Server platform
  initial primary_port secondary_server backup_stream w = record {
    addr = record { ip = 0; port = primary_port };
    backup_addr = secondary_server;
    backup_stream = backup_stream;
    backup_token = 999;
    primary_token = 1000;
    first_connection = true;
    access_manager = AccessManager.new;
    token_stream_map = HashMap.empty;
    token_addr_map = HashMap.empty;
    id_counter = 0;
    request_counter = 0;
    world = w;
  }

  -- `RegistryServer::new`
  unfoldable pub new : ℕ → Option SocketAddr → Action World RegistryServerError (Server platform)
  new primary_port secondary_server = do
    backup_stream ← connect_backup secondary_server
    lift_io network.new_poll
    gets (initial primary_port secondary_server backup_stream)

  -- The primary registry, on the first connection of a registry that has no secondary.
  unfoldable pub connect_primary : TcpStream → S platform (Unit {0})
  connect_primary stream = do
    modify (λ s. record s { first_connection = false })
    token ← gets (λ s. s.primary_token)
    register platform stream token
    modify (λ s. record s { token_stream_map = HashMap.insert token stream s.token_stream_map })

  -- A client: it gets the next id, and the secondary hears of it.
  unfoldable pub connect_client : TcpStream → SocketAddr → S platform (Unit {0})
  connect_client stream addr = do
    modify (λ s. record s { id_counter = (s.id_counter + 1) % usize_mod })
    token ← gets (λ s. s.id_counter)
    register platform stream token
    text ← try_or serialization_error (to_vec serde (registry_connection token))
    write_all platform stream text
    modify (λ s. record s {
      token_stream_map = HashMap.insert token stream s.token_stream_map;
      token_addr_map = HashMap.insert token addr s.token_addr_map;
    })
    id_counter ← gets (λ s. s.id_counter)
    notice ← try_or serialization_error (to_vec serde (registry_connection_established id_counter))
    forward_request platform notice

  unfoldable pub handle_connection : TcpStream → SocketAddr → S platform (Unit {0})
  handle_connection stream addr = do
    is_primary ← gets (λ s. not (is_some s.backup_addr) && s.first_connection)
    if is_primary then connect_primary stream else connect_client stream addr

  -- The loop on `listener.accept()`
  unfoldable pub accept_all : List (TcpStream × SocketAddr) → IoError → S platform (Unit {0})
  accept_all [] IoError.would_block = pure tt
  accept_all [] e = crash
  accept_all ((stream, addr) ∷ rest) e = handle_connection stream addr >> accept_all rest e

  -- `StopRequest` ends the loop; any other error of `handle_data` is only logged.
  abbrev pub log_error : S platform (Unit {0}) → S platform Bool
  log_error action s =
      let (r, s') = action s in
      (
        elim r [
          | ok _ ↦ ok false
          | err e ↦ elim e [ stop_request ↦ ok true | other ↦ ok false ]
          | panic ↦ panic
          | exit ↦ exit
          | no_fuel ↦ no_fuel
        ],
        s',
      )

  -- The match of `bind` on an event; `true` says that the loop ends.
  unfoldable pub handle_event : Event → S platform Bool
  handle_event (incoming connections e) = do accept_all connections e; pure false
  handle_event (event token true) = log_error (handle_data platform token)
  handle_event (event token false) = pure false

  -- The loop of `bind` over the events that `poll` gives.
  unfoldable pub handle_events : List Event → S platform (Unit {0})
  handle_events [] = pure tt
  handle_events (e ∷ events) = do
    stop ← handle_event e
    elim stop [ true ↦ pure tt | false ↦ handle_events events ]

  abbrev pub register_backup : S platform (Unit {0})
  register_backup s = elim s.backup_stream [
    | none ↦ (ok tt, s)
    | some backup_stream ↦ register platform backup_stream s.backup_token s
  ]

  abbrev pub listen : S platform (Unit {0})
  listen s =
      let (r, w) = network.listen s.addr s.world in try_or io_error r (record s { world = w })

  -- `bind` returns when it is told to stop; the list is what happens up to then.
  unfoldable pub bind : List Event → S platform (Unit {0})
  bind events = do listen; register_backup; handle_events events
