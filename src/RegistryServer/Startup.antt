-- ===== src/RegistryServer/Startup.antt =====
-- The registry from its start.
use soros.Base.{ℕ, ◌≡◌, sym, subst, List, Option, none, some, ok, arith, NoPanic, >>=-Ends, ◌>>◌}
use soros.Protocol.{SocketAddr}
use soros.AccessManager
use soros.AccessManager.Invariant.{new-IsSound}
use soros.Network.{Event}
use soros.RegistryServer.{Platform, Server}
use soros.RegistryServer.EventLoop.{new, bind, listen, register_backup, handle_events}
use soros.RegistryServer.Grants.{IsSafe}
use soros.RegistryServer.Panics.{IsSafeServer, EndsSafe}
use soros.RegistryServer.Events.{AllFit, handle_events-EndsSafe}

module _ (platform : Platform) where
  open platform use {network}

  pub new-manager :
      (port : ℕ) (secondary : Option SocketAddr) (w w1 : network.World) (s : Server platform)
      → new platform port secondary w ≡ (ok s, w1)
      → s.access_manager ≡ AccessManager.new
  unfolding new
  new-manager port none w w1 s e = ground arith
  new-manager port (some backup) w w1 s e = ground arith

  pub new-NoPanic :
      (port : ℕ) (secondary : Option SocketAddr) (w : network.World)
      → NoPanic (new platform port secondary w).0
  unfolding new
  new-NoPanic port none w = ground arith
  new-NoPanic port (some backup) w = ground arith

  pub new-IsSafe : IsSafe AccessManager.new
  new-IsSafe = record { sound = new-IsSound platform.order; grants_only = tt }

  listen-NoPanic : (s : Server platform) → NoPanic (listen platform s).0
  listen-NoPanic s = ground arith

  listen-manager : (s : Server platform) → (listen platform s).1.access_manager ≡ s.access_manager
  listen-manager s = ground arith

  register_backup-NoPanic : (s : Server platform) → NoPanic (register_backup platform s).0
  register_backup-NoPanic s = ground arith

  register_backup-manager :
      (s : Server platform) → (register_backup platform s).1.access_manager ≡ s.access_manager
  register_backup-manager s = ground arith

  -- The server once it listens and waits for its secondary.
  abbrev pub ready : Server platform → Server platform
  ready s = (register_backup platform (listen platform s).1).1

  pub bind-EndsSafe :
      (events : List Event) (s : Server platform)
      → IsSafeServer platform s
      → AllFit platform events (ready s)
      → EndsSafe platform (bind platform events s)
  unfolding bind
  bind-EndsSafe events s h f =
      >>=-Ends
        (λ s1. AllFit platform events (register_backup platform s1).1 × IsSafeServer platform s1)
        (IsSafeServer platform) (listen platform)
        (λ _. register_backup platform >> handle_events platform events) (λ s1 h1. h1.1)
        (λ _ s1 (f1, h1).
          >>=-Ends (λ s2. AllFit platform events s2 × IsSafeServer platform s2)
            (IsSafeServer platform) (register_backup platform) (λ _. handle_events platform events)
            (λ s2 h2. h2.1) (λ _ s2 (f2, h2). handle_events-EndsSafe platform events s2 f2 h2) s1
            (register_backup-NoPanic s1, (f1, subst IsSafe (sym (register_backup-manager s1)) h1)))
        s (listen-NoPanic s, (f, subst IsSafe (sym (listen-manager s)) h))
