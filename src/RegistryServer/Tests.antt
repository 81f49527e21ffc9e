-- ===== src/RegistryServer/Tests.antt =====
-- The registry's theorems at concrete requests.
use soros.Base.{◌≡◌, ◌≢◌, refl, true, [], ◌∷◌, none, some, ok, err, panic, exit, inr}
use soros.Protocol.{from_slice, to_vec, newline}
use soros.AccessManager
use soros.AccessManager.{AccessManager, KeyState}
use soros.AccessManager.Release.{holds, after_release}
use soros.AccessManager.Calls.{perform, run}
use soros.Network.{is_utf8}
use soros.RegistryServer.{
  unknown_holder, handle_response, handle_message, forward_request, answer_request, Server,
}
use soros.RegistryServer.Requests.{
  handle_data, handle_request, after_response, notify_all, count_request, handle_read,
}
use soros.RegistryServer.EventLoop.{handle_connection, connect_client}
use soros.RegistryServer.LostGrants.{handle_request-lost}
use soros.RegistryServer.FirstRequest.{handle_request-ne-ok}
use soros.RegistryServer.Limits.{handle_data-malformed, reserved_token}
use soros.RegistryServer.Fixtures.{
  platform, server, manager, key_zero, manager-IsSound, release_text, create_text,
}

-- A primary answers its first request, copies it to the secondary and exits.
first_request :
    let (r, s) = handle_request platform 1 create_text (server (some 9) AccessManager.new) in
    (r ≡ exit) × (s.world.outbox ≡ (11, 1 ∷ 7 ∷ b'\n' ∷ []) ∷ (9, create_text) ∷ [])
unfolding handle_request handle_message answer_request AccessManager.create handle_response to_vec
    from_slice after_response notify_all forward_request count_request
first_request = (refl, refl)

handle_request-ne-ok_example :
    (handle_request platform 1 create_text (server (some 9) AccessManager.new)).0 ≢ ok tt
handle_request-ne-ok_example =
    handle_request-ne-ok platform 1 create_text (server (some 9) AccessManager.new) (refl, refl)

handle_request-lost_example :
    let (r, s) = handle_request platform 1 release_text (server none manager) in
    (r ≡ err (unknown_holder 3))
    × (s.access_manager.key_states 0 ≡ some (after_release 1 key_zero))
    × (holds 2 (after_release 1 key_zero) ≡ true)
    × (s.access_manager.access_granted.sent ≡ [])
    × (s.world ≡ record { inbox = 0x80 ∷ []; outbox = (11, 1 ∷ 0 ∷ b'\n' ∷ []) ∷ [] })
unfolding from_slice to_vec handle_response run perform AccessManager.create AccessManager.write
    AccessManager.read
handle_request-lost_example =
    handle_request-lost platform (server none manager) 1 0 key_zero 2 [] manager-IsSound refl refl
      refl refl refl refl 1 release_text _ refl refl

-- The client sends an A, and is answered.
abbrev with_letter : Server platform
with_letter = record (server none manager) { world = record { inbox = 65 ∷ []; outbox = [] } }

handle_data-malformed_example : handle_data platform 1 with_letter ≡ (
  ok tt,
  record with_letter { world = record { inbox = 65 ∷ []; outbox = (11, 4 ∷ newline ∷ []) ∷ [] } },
)
unfolding from_slice is_utf8 to_vec
handle_data-malformed_example =
    handle_data-malformed platform 1 11 65 [] (4 ∷ newline ∷ []) "EOF" (inr tt) _ _ with_letter refl
      refl refl refl refl refl

-- It sends a byte that is no text.
no_text : (handle_data platform 1 (server none manager)).0 ≡ panic
unfolding handle_data handle_read handle_request from_slice is_utf8
no_text = refl

reserved_token_example :
    let s = (handle_connection platform 15 (record { ip = 1; port = 2 }) (server none manager)).1 in
    (s.token_stream_map 999 ≡ some 15) × ((handle_data platform 999 s).0 ≡ panic)
unfolding handle_connection connect_client to_vec forward_request
reserved_token_example =
    reserved_token platform 15 (record { ip = 1; port = 2 }) (server none manager) refl refl refl
      refl refl
