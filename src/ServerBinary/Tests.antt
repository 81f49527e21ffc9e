-- ===== src/ServerBinary/Tests.antt =====
-- The registry's program at concrete arguments.
use soros.Base.{NoPanic, Outcome, ap, subst, ◌≡◌, refl, [], ◌∷◌, none, some, ok, List, true, subst}
use soros.RegistryServer.Fixtures.{create_text, Wires, platform, server}
use soros.Network.{is_utf8, Event, event, incoming, IoError}
use soros.RegistryServer.EventLoop.{
  new, handle_event, accept_all, handle_connection, connect_primary,
}
use soros.AccessManager
use soros.RegistryServer.{RegistryServerError, Server}
use soros.RegistryServer.Events.{AllFit}
use soros.RegistryServer.Startup.{ready}
use soros.ServerBinary.{Parsers, main, main_unreadable, main-NoPanic, AllFit, ready}

abbrev parsers : Parsers
parsers = record { parse_port = λ s. some 8888; parse_addr = λ s. none }

abbrev quiet : Wires
quiet = record { inbox = []; outbox = [] }

main_unreadable_example :
    main platform parsers
      ("server" ∷ "8888" ∷ "backup:8889" ∷ [])
      (incoming ((15, record { ip = 1; port = 2 }) ∷ []) IoError.would_block ∷ [])
      quiet
    ≡ (ok tt, quiet)
main_unreadable_example =
    main_unreadable platform parsers "server" "8888" "backup:8889" [] 8888 15
      (record { ip = 1; port = 2 }) quiet quiet quiet quiet refl refl refl refl refl

-- The first connection is the primary's, which then sends a request.
abbrev copied : List Event
copied =
    incoming ((15, record { ip = 1; port = 2 }) ∷ []) IoError.would_block ∷ event 1000 true ∷ []

abbrev asking : Wires
asking = record { inbox = create_text; outbox = [] }

-- The server that `new` gives, if it gives one.
abbrev server_or_default : Outcome RegistryServerError (Server platform) → Server platform
server_or_default (ok s) = s
server_or_default other = server none AccessManager.new

copied-AllFit :
    (s : Server platform)
    → (new platform 8888 none asking).0 ≡ ok s
    → AllFit platform copied (ready platform (record s { world = asking }))
unfolding new handle_event accept_all handle_connection connect_primary is_utf8
copied-AllFit s e =
    subst (λ s. AllFit platform copied (ready platform (record s { world = asking })))
      (ap server_or_default e) (tt, ((15, refl, refl), tt))

main-NoPanic_example : NoPanic (main platform parsers ("server" ∷ "8888" ∷ []) copied asking).0
unfolding new
main-NoPanic_example =
    main-NoPanic platform parsers "server" "8888" [] copied 8888 asking refl copied-AllFit
