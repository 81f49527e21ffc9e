-- ===== src/RegistryServer/EventTests.antt =====
-- The registry's theorems at concrete events.
use soros.Base.{err, inr, some, ok, arith, ◌<◌, ◌≡◌, refl, true, List, [], ◌∷◌, none, false}
use soros.AccessManager
use soros.AccessManager.Invariant.{run-new-IsSound, new-IsSound}
use soros.Network.{Event, incoming, event, IoError, is_utf8}
use soros.RegistryServer.{Server}
use soros.RegistryServer.EventLoop.{handle_events, accept_all}
use soros.RegistryServer.Panics.{EndsSafe}
use soros.RegistryServer.Events.{handle_events-EndsSafe}
use soros.Protocol.{Bytes, newline, RequestType, to_vec, from_slice}
use soros.AccessManager.Calls.{run, lock_after, Call, perform, answer}
use soros.RegistryServer.Requests.{handle_data}
use soros.RegistryServer.Replies.{handle_data-reply}
use soros.AccessManager.{request_access, key_accessed, AccessManager, holder}
use soros.AccessManager.Orders.{insertion_order}
use soros.RegistryServer.ReadReplies.{handle_data-read}
use soros.RegistryServer.Disconnect.{handle_data-gone}
use soros.RegistryServer.Tokens.{Admits, accept_all-Admits}
use soros.RegistryServer.Fixtures.{manager, manager-IsSound, platform, server, create_text}

abbrev readable : Server platform
readable = record (server none AccessManager.new) {
  world = record { inbox = create_text; outbox = [] };
}

-- Client 1 sends a request, a client connects, and a connection is writable.
abbrev events : List Event
events =
    event 1 true
    ∷ incoming ((15, record { ip = 1; port = 2 }) ∷ []) IoError.would_block
    ∷ event 2 false
    ∷ []

handle_events-EndsSafe_example : EndsSafe platform (handle_events platform events readable)
unfolding is_utf8
handle_events-EndsSafe_example =
    handle_events-EndsSafe platform events readable ((11, refl, refl), (tt, (tt, tt)))
      (record { sound = new-IsSound platform.order; grants_only = tt })

abbrev fresh : Server platform
fresh = record (server none AccessManager.new) { id_counter = 2 }

accept_all-Admits_example :
    let s' =
      (accept_all platform ((15, record { ip = 1; port = 2 }) ∷ []) IoError.would_block fresh).1 in
    Admits platform 1 fresh s' × (s'.id_counter < 999) × (s'.token_stream_map 999 ≡ none)
accept_all-Admits_example =
    accept_all-Admits platform ((15, record { ip = 1; port = 2 }) ∷ []) IoError.would_block fresh
      (λ t h ne. ground arith) (omega arith) (omega arith) (omega arith)

-- Client 1 wants to write a key that nobody has created.
abbrev write_text : Bytes
write_text = 3 ∷ 1 ∷ 7 ∷ []

abbrev asked : Server platform
asked = record (server none AccessManager.new) {
  world = record { inbox = write_text; outbox = [] };
}

handle_data-reply_example : handle_data platform 1 asked ≡ (
  ok tt,
  record asked {
    world = record { inbox = write_text; outbox = (11, 4 ∷ newline ∷ []) ∷ [] };
    access_manager = (perform platform.order (Call.write 1 7) AccessManager.new).1;
  },
)
unfolding to_vec from_slice answer
handle_data-reply_example =
    handle_data-reply platform 1 11 3 (1 ∷ 7 ∷ []) (4 ∷ newline ∷ []) 1 RequestType.write 7
      asked.world (record { inbox = write_text; outbox = (11, 4 ∷ newline ∷ []) ∷ [] }) asked
      (new-IsSound platform.order) refl refl refl refl refl refl refl

-- Client 1, whose address is not known, reads key 0, which process 3 created: it is sent an error,
-- and counts as a reader.
abbrev created : AccessManager
created = run insertion_order (Call.create 3 0 ∷ []) AccessManager.new

abbrev read_text : Bytes
read_text = 2 ∷ 1 ∷ 0 ∷ []

abbrev reading : Server platform
reading = record (server none created) { world = record { inbox = read_text; outbox = [] } }

handle_data-read_example :
    let m' = (perform insertion_order (Call.read 1 0) created).1 in
    (handle_data platform 1 reading ≡ (
      ok tt,
      record reading {
        world = record { inbox = read_text; outbox = (11, 4 ∷ newline ∷ []) ∷ [] };
        access_manager = m';
      },
    ))
    × (m'.key_states 0
        ≡ some (record { pending_request = []; readers = 1 ∷ []; writer = none; creator = 3 }))
unfolding to_vec from_slice lock_after run perform AccessManager.create AccessManager.read holder
handle_data-read_example =
    handle_data-read platform 1 11 2 (1 ∷ 0 ∷ []) (4 ∷ newline ∷ []) 1 0 reading.world
      (record { inbox = read_text; outbox = (11, 4 ∷ newline ∷ []) ∷ [] }) reading
      (run-new-IsSound insertion_order (Call.create 3 0 ∷ [])) refl refl refl refl refl refl

-- Client 1 writes key 0, and its stream ends; 2 waits, 5 asks to write.
abbrev ended : Server platform
ended = record (server none manager) { world = record { inbox = []; outbox = [] } }

handle_data-gone_example :
    let s' = (handle_data platform 1 ended).1 in
    let m' = run insertion_order (Call.release 2 0 ∷ Call.read 4 0 ∷ []) s'.access_manager in
    (s'.token_stream_map 1 ≡ none)
    × (s'.token_addr_map 1 ≡ none)
    × ((perform insertion_order (Call.write 5 0) m').0 ≡ err (request_access 5 0))
    × ((perform insertion_order (Call.delete 0) m').0 ≡ err key_accessed)
unfolding run perform AccessManager.create AccessManager.write AccessManager.read
handle_data-gone_example =
    handle_data-gone platform 1 11 (inr []) ended.world ended 0
      (Call.release 2 0 ∷ Call.read 4 0 ∷ []) 5 refl refl refl tt manager-IsSound refl
      (refl, (refl, tt))
