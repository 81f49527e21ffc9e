-- ===== src/ServerBinary.antt =====
-- bin/server.rs: the registry's program, as a function of its arguments. The usage that it prints is
-- left out.
mod Tests
use soros.Base.{
  NoPanic, subst, sym, ℕ, ◌≡◌, refl, String, List, [], ◌∷◌, Option, none, some, ◌⊎◌, inl, inr,
  Outcome, ok, err, panic, exit, no_fuel, Action, pure, crash, unwrap, ◌>>=◌, ◌>>◌, arith,
}
use soros.Protocol.{SocketAddr}
use soros.Network.{Event, incoming, IoError, TcpStream}
use soros.RegistryServer.{Platform, RegistryServerError, Server}
use soros.AccessManager
use soros.RegistryServer.Grants.{IsSafe}
use soros.RegistryServer.Events.{AllFit}
use soros.RegistryServer.Startup.{ready, new-manager, new-NoPanic, new-IsSafe, bind-EndsSafe}
use soros.RegistryServer.EventLoop.{
  new, bind, handle_events, handle_event, accept_all, handle_connection, connect_primary,
}

-- `str::parse`, at a port and at an address.
pub record Parsers : Type 0 where
  pub parse_port : String → Option ℕ
  pub parse_addr : String → Option SocketAddr

module _ (platform : Platform) (parsers : Parsers) where
  open platform use {network}
  open network use {World}

  -- `args.get(2).and_then(|s| s.parse().ok())`
  abbrev pub secondary : List String → Option SocketAddr
  secondary [] = none
  secondary (a ∷ rest) = parsers.parse_addr a

  -- A call on the server, of which the program keeps the world.
  abbrev pub on_server :
      (Server platform → Outcome RegistryServerError (Unit {0}) × Server platform)
      → Server platform
      → Action World RegistryServerError (Unit {0})
  on_server call s w = let (r, s') = call (record s { world = w }) in (r, s'.world)

  -- `main`; the list is what happens to the registry once it listens. With no argument at all, the name
  -- of the program for the usage is out of range.
  unfoldable pub main : List String → List Event → Action World RegistryServerError (Unit {0})
  main [] events = crash
  main (program ∷ []) events = pure tt
  main (program ∷ port ∷ rest) events = do
    primary_port ← unwrap (parsers.parse_port port)
    registry_server ← new platform primary_port (secondary rest)
    on_server (bind platform events) registry_server

  -- A secondary whose text is no socket address (a host name, say) is passed over. The program then
  -- takes its first client for the primary registry: it only registers the client's stream, so the
  -- client is sent no id.
  pub main_unreadable :
      (program port host : String) (rest : List String) (n : ℕ) (stream : TcpStream)
      (client : SocketAddr) (w w1 w2 w3 : World)
      → parsers.parse_port port ≡ some n
      → parsers.parse_addr host ≡ none
      → network.new_poll w ≡ (inr tt, w1)
      → network.listen (record { ip = 0; port = n }) w1 ≡ (inr tt, w2)
      → network.register stream 1000 w2 ≡ (inr tt, w3)
      → main
          (program ∷ port ∷ host ∷ rest)
          (incoming ((stream, client) ∷ []) IoError.would_block ∷ [])
          w
        ≡ (ok tt, w3)
  unfolding main new bind handle_events handle_event accept_all handle_connection connect_primary
  main_unreadable program port host rest n stream client w w1 w2 w3 p h e l r = ground arith

  on_server-NoPanic :
      (events : List Event) (s : Server platform) (w : World)
      → s.access_manager ≡ AccessManager.new
      → AllFit platform events (ready platform (record s { world = w }))
      → NoPanic (on_server (bind platform events) s w).0
  on_server-NoPanic events s w e f =
      (bind-EndsSafe platform events (record s { world = w })
        (subst IsSafe (sym e) (new-IsSafe platform)) f).0

  -- What `main` makes of how `new` ends.
  started-NoPanic :
      (program port : String) (rest : List String) (events : List Event) (n : ℕ) (w : World)
      (x : Outcome RegistryServerError (Server platform) × World)
      → parsers.parse_port port ≡ some n
      → new platform n (secondary rest) w ≡ x
      → ((s : Server platform)
          → x.0 ≡ ok s
          → AllFit platform events (ready platform (record s { world = x.1 })))
      → NoPanic (main (program ∷ port ∷ rest) events w).0
  unfolding main
  started-NoPanic program port rest events n w (ok s, w') p e f = ground (
    arith,
    p,
    e,
    on_server-NoPanic events s w' (new-manager platform n (secondary rest) w w' s e) (f s refl),
  )
  started-NoPanic program port rest events n w (err x, w') p e f = ground (arith, p, e)
  started-NoPanic program port rest events n w (panic, w') p e f =
      absurd (subst (λ x. NoPanic x.0) e (new-NoPanic platform n (secondary rest) w))
  started-NoPanic program port rest events n w (exit, w') p e f = ground (arith, p, e)
  started-NoPanic program port rest events n w (no_fuel, w') p e f =
      absurd (subst (λ x. NoPanic x.0) e (new-NoPanic platform n (secondary rest) w))

  -- The whole program, on a port that can be read: it does not panic while it sets up its server,
  -- however this ends, nor afterwards if each event fits the state that the events before it have left
  -- (UTF-8 text, on streams that the registry has; connections until there are none left, without an
  -- error of accept), whatever messages or other texts these are and however the writes to the network
  -- end.
  pub main-NoPanic :
      (program port : String) (rest : List String) (events : List Event) (n : ℕ) (w : World)
      → parsers.parse_port port ≡ some n
      → ((s : Server platform)
          → (new platform n (secondary rest) w).0 ≡ ok s
          → AllFit platform events
              (ready platform (record s { world = (new platform n (secondary rest) w).1 })))
      → NoPanic (main (program ∷ port ∷ rest) events w).0
  main-NoPanic program port rest events n w p f =
      started-NoPanic program port rest events n w (new platform n (secondary rest) w) p refl f
