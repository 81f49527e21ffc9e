-- ===== src/ProtocolClient/Answers.antt =====
-- What the client makes of the registry's answer to a request to create, delete or release a key.
use soros.Base.{
  ℕ, ◌≡◌, refl, inr, Outcome, ok, err, arith, ◌==◌, if◌then◌else◌, ◌>>◌, >>=-ok, ◌∙◌, ap,
}
use soros.Protocol.{
  KeyId, Bytes, Serde, RegistryResponse, RequestType, registry_request, registry_response, to_vec,
}
use soros.Network.{Network}
use soros.ProtocolClient.{
  ProtocolClientError, registry_error, unexpected_response, wait_error, Client, C, receive_message,
  registry_handle_response, registry_send_request,
}
use soros.ProtocolClient.Requests.{
  registry_expect_success, registry_create, registry_delete, registry_release,
}

-- How the call for `k` ends on a response.
abbrev pub concluded : KeyId → RegistryResponse → Outcome ProtocolClientError (Unit {0})
concluded k (RegistryResponse.success j) = if k == j then ok tt else err unexpected_response
concluded k (RegistryResponse.wait j) = err (wait_error j)
concluded k (RegistryResponse.error e) = err (registry_error e)
concluded k other = err unexpected_response

-- The requests that are not to wait.
abbrev pub IsAsked : RequestType → Type 0
IsAsked RequestType.create = Unit
IsAsked RequestType.delete = Unit
IsAsked RequestType.release = Unit
IsAsked RequestType.read = ⊥
IsAsked RequestType.write = ⊥

module _ (network : Network) (serde : Serde) where
  pub registry_send_request-sent :
      (fuel : ℕ) (k : KeyId) (t : RequestType) (s : Client network serde) (text seen : Bytes)
      (w1 w2 : network.World)
      → to_vec serde (registry_request k s.proc_id t) ≡ inr text
      → network.write_all s.registry_stream text s.world ≡ (inr tt, w1)
      → network.peek s.registry_stream w1 ≡ (inr seen, w2)
      → registry_send_request network serde fuel k t s ≡ (ok tt, record s { world = w2 })
  unfolding registry_send_request
  registry_send_request-sent fuel k t s text seen w1 w2 e sent p = ground arith

  -- The client after it has received from its registry.
  abbrev pub received : Client network serde → Bytes × network.World → Client network serde
  received s st = record s { curr_data = st.0; world = st.1 }

  registry_expect_success-concluded :
      (fuel : ℕ) (k : KeyId) (s : Client network serde) (r : RegistryResponse)
      (st : Bytes × network.World)
      → receive_message network serde fuel s.registry_stream (s.curr_data, s.world)
        ≡ (ok (registry_response r), st)
      → registry_expect_success network serde fuel k s ≡ (concluded k r, received s st)
  unfolding registry_expect_success registry_handle_response
  registry_expect_success-concluded fuel k s RegistryResponse.ack st e = ground arith
  registry_expect_success-concluded fuel k s (RegistryResponse.success j) st e = ground arith
  registry_expect_success-concluded fuel k s (RegistryResponse.wait j) st e = ground arith
  registry_expect_success-concluded fuel k s (RegistryResponse.holder j a) st e = ground arith
  registry_expect_success-concluded fuel k s (RegistryResponse.error m) st e = ground arith

  -- `registry_create`, `registry_delete` and `registry_release`
  abbrev pub ask : RequestType → ℕ → KeyId → C network serde (Unit {0})
  ask RequestType.create fuel k = registry_create network serde fuel k
  ask RequestType.delete fuel k = registry_delete network serde fuel k
  ask other fuel k = registry_release network serde fuel k

  ask-steps :
      (t : RequestType) (fuel : ℕ) (k : KeyId)
      → IsAsked t
      → ask t fuel k ≡ (
          registry_send_request network serde fuel k t
          >> registry_expect_success network serde fuel k)
  unfolding registry_create registry_delete registry_release
  ask-steps RequestType.create fuel k h = refl
  ask-steps RequestType.delete fuel k h = refl
  ask-steps RequestType.release fuel k h = refl
  ask-steps RequestType.read fuel k h = elim h [ ]
  ask-steps RequestType.write fuel k h = elim h [ ]

  -- A request that goes out, on whatever stream, and the response that comes there.
  pub ask-answered :
      (t : RequestType) (fuel : ℕ) (k : KeyId) (s s' : Client network serde) (r : RegistryResponse)
      (st : Bytes × network.World)
      → IsAsked t
      → registry_send_request network serde fuel k t s ≡ (ok tt, s')
      → receive_message network serde fuel s'.registry_stream (s'.curr_data, s'.world)
        ≡ (ok (registry_response r), st)
      → ask t fuel k s ≡ (concluded k r, received s' st)
  ask-answered t fuel k s s' r st h sent got =
      ap (λ call. call s) (ask-steps t fuel k h)
      ∙ >>=-ok (registry_send_request network serde fuel k t)
          (λ _. registry_expect_success network serde fuel k) s s' tt sent
      ∙ registry_expect_success-concluded fuel k s' r st got

  -- A request that is sent, and answered by a response, ends as the response says.
  pub ask-concluded :
      (t : RequestType) (fuel : ℕ) (k : KeyId) (s : Client network serde) (text seen : Bytes)
      (w1 w2 : network.World) (r : RegistryResponse) (st : Bytes × network.World)
      → IsAsked t
      → to_vec serde (registry_request k s.proc_id t) ≡ inr text
      → network.write_all s.registry_stream text s.world ≡ (inr tt, w1)
      → network.peek s.registry_stream w1 ≡ (inr seen, w2)
      → receive_message network serde fuel s.registry_stream (s.curr_data, w2)
        ≡ (ok (registry_response r), st)
      → ask t fuel k s ≡ (concluded k r, received s st)
  ask-concluded t fuel k s text seen w1 w2 r st h e sent p =
      ask-answered t fuel k s (record s { world = w2 }) r st h
        (registry_send_request-sent fuel k t s text seen w1 w2 e sent p)
