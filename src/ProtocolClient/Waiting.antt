-- ===== src/ProtocolClient/Waiting.antt =====
-- What a write that has to wait comes to.
use soros.Base.{
  ℕ, ◌≡◌, inr, Outcome, ok, err, panic, exit, no_fuel, arith, ◌==◌, if◌then◌else◌, ◌>>=◌, >>=-ok,
  ◌∙◌, pure,
}
use soros.Protocol.{
  SocketAddr, KeyId, Bytes, Serde, Message, RegistryMessage, RegistryResponse, RequestType,
  registry_request, registry_response, to_vec,
}
use soros.Network.{Network}
use soros.ProtocolClient.{
  ProtocolClientError, registry_error, unexpected_response, wait_error, Client, C, receive_message,
  registry_handle_response, registry_send_request,
}
use soros.ProtocolClient.Answers.{registry_send_request-sent, received}
use soros.ProtocolClient.Requests.{
  registry_await_read, registry_read, registry_read_sync, registry_await_write, registry_write,
  or_wait, registry_write_sync,
}

-- The response in what was received, as `registry_handle_response` gives it.
abbrev pub responded :
    Outcome ProtocolClientError Message → Outcome ProtocolClientError RegistryResponse
responded (ok (Message.registry (RegistryMessage.response (RegistryResponse.wait i)))) =
    err (wait_error i)
responded (ok (Message.registry (RegistryMessage.response (RegistryResponse.error e)))) =
    err (registry_error e)
responded (ok (Message.registry (RegistryMessage.response r))) = ok r
responded (ok other) = err unexpected_response
responded (err e) = err unexpected_response
responded panic = panic
responded exit = exit
responded no_fuel = no_fuel

-- The key of a success, and a holder.
abbrev pub given_key :
    Outcome ProtocolClientError RegistryResponse → Outcome ProtocolClientError KeyId
given_key (ok (RegistryResponse.success i)) = ok i
given_key (ok r) = err unexpected_response
given_key (err e) = err e
given_key panic = panic
given_key exit = exit
given_key no_fuel = no_fuel

abbrev pub given_holder :
    Outcome ProtocolClientError RegistryResponse → Outcome ProtocolClientError (KeyId × SocketAddr)
given_holder (ok (RegistryResponse.holder i a)) = ok (i, a)
given_holder (ok r) = err unexpected_response
given_holder (err e) = err e
given_holder panic = panic
given_holder exit = exit
given_holder no_fuel = no_fuel

-- How a call ends that was told to wait for `j`, by what it was given then.
abbrev pub after_wait :
    {A B : Type 0}
    → (A → KeyId)
    → (A → B)
    → KeyId
    → Outcome ProtocolClientError A
    → Outcome ProtocolClientError B
after_wait key_of f j (ok a) = if j == key_of a then ok (f a) else err unexpected_response
after_wait key_of f j (err e) = err e
after_wait key_of f j panic = panic
after_wait key_of f j exit = exit
after_wait key_of f j no_fuel = no_fuel

module _ (network : Network) (serde : Serde) where
  registry_handle_response-responded :
      (fuel : ℕ) (s : Client network serde) (r : Outcome ProtocolClientError Message)
      (st : Bytes × network.World)
      → receive_message network serde fuel s.registry_stream (s.curr_data, s.world) ≡ (r, st)
      → registry_handle_response network serde fuel s ≡ (responded r, received network serde s st)
  unfolding registry_handle_response
  registry_handle_response-responded fuel s
        (ok (Message.registry (RegistryMessage.response RegistryResponse.ack))) st e =
      ground arith
  registry_handle_response-responded fuel s
        (ok (Message.registry (RegistryMessage.response (RegistryResponse.success i)))) st e =
      ground arith
  registry_handle_response-responded fuel s
        (ok (Message.registry (RegistryMessage.response (RegistryResponse.wait i)))) st e =
      ground arith
  registry_handle_response-responded fuel s
        (ok (Message.registry (RegistryMessage.response (RegistryResponse.holder i a)))) st e =
      ground arith
  registry_handle_response-responded fuel s
        (ok (Message.registry (RegistryMessage.response (RegistryResponse.error m)))) st e =
      ground arith
  registry_handle_response-responded fuel s (ok other) st e = ground arith
  registry_handle_response-responded fuel s r st e = ground arith

  registry_await_write-given_key :
      (fuel : ℕ) (s s' : Client network serde) (r : Outcome ProtocolClientError RegistryResponse)
      → registry_handle_response network serde fuel s ≡ (r, s')
      → registry_await_write network serde fuel s ≡ (given_key r, s')
  unfolding registry_await_write
  registry_await_write-given_key fuel s s' (ok RegistryResponse.ack) e = ground arith
  registry_await_write-given_key fuel s s' (ok (RegistryResponse.success i)) e = ground arith
  registry_await_write-given_key fuel s s' (ok (RegistryResponse.wait i)) e = ground arith
  registry_await_write-given_key fuel s s' (ok (RegistryResponse.holder i a)) e = ground arith
  registry_await_write-given_key fuel s s' (ok (RegistryResponse.error m)) e = ground arith
  registry_await_write-given_key fuel s s' r e = ground arith

  registry_await_read-given_holder :
      (fuel : ℕ) (s s' : Client network serde) (r : Outcome ProtocolClientError RegistryResponse)
      → registry_handle_response network serde fuel s ≡ (r, s')
      → registry_await_read network serde fuel s ≡ (given_holder r, s')
  unfolding registry_await_read
  registry_await_read-given_holder fuel s s' (ok RegistryResponse.ack) e = ground arith
  registry_await_read-given_holder fuel s s' (ok (RegistryResponse.success i)) e = ground arith
  registry_await_read-given_holder fuel s s' (ok (RegistryResponse.wait i)) e = ground arith
  registry_await_read-given_holder fuel s s' (ok (RegistryResponse.holder i a)) e = ground arith
  registry_await_read-given_holder fuel s s' (ok (RegistryResponse.error m)) e = ground arith
  registry_await_read-given_holder fuel s s' r e = ground arith

  or_wait-after :
      {A B : Type 0} (key_of : A → KeyId) (f : A → B) (await : C network serde A) (j : KeyId)
      (s s1 s2 : Client network serde) (r : Outcome ProtocolClientError A)
      → await s ≡ (err (wait_error j), s1)
      → await s1 ≡ (r, s2)
      → (or_wait network serde await key_of >>= λ a. pure (f a)) s ≡ (after_wait key_of f j r, s2)
  or_wait-after key_of f await j s s1 s2 (ok a) first second = ground arith
  or_wait-after key_of f await j s s1 s2 (err e) first second = ground arith
  or_wait-after key_of f await j s s1 s2 panic first second = ground arith
  or_wait-after key_of f await j s s1 s2 exit first second = ground arith
  or_wait-after key_of f await j s s1 s2 no_fuel first second = ground arith

  -- A request to write that was sent and answered by the order to wait for a key, and what is received
  -- next: the write succeeds exactly if that is a success for the key to wait for, whichever key the
  -- client asked for; an error in receiving, as when the five seconds are over, is unexpected.
  pub registry_write_sync-wait :
      (fuel : ℕ) (k j : KeyId) (s : Client network serde) (text seen : Bytes)
      (w1 w2 : network.World) (st st' : Bytes × network.World)
      (r : Outcome ProtocolClientError Message)
      → to_vec serde (registry_request k s.proc_id RequestType.write) ≡ inr text
      → network.write_all s.registry_stream text s.world ≡ (inr tt, w1)
      → network.peek s.registry_stream w1 ≡ (inr seen, w2)
      → receive_message network serde fuel s.registry_stream (s.curr_data, w2)
        ≡ (ok (registry_response (RegistryResponse.wait j)), st)
      → receive_message network serde fuel s.registry_stream st ≡ (r, st')
      → registry_write_sync network serde fuel k s ≡ (
        after_wait (λ key. key) (λ key. tt) j (given_key (responded r)),
        received network serde s st',
      )
  unfolding registry_write_sync registry_write
  registry_write_sync-wait fuel k j s text seen w1 w2 st st' r e sent p first second =
      let s1 : Client network serde = record s { world = w2 } in
      let s2 : Client network serde = received network serde s st in
      let s3 : Client network serde = received network serde s st' in
      >>=-ok (registry_send_request network serde fuel k RequestType.write)
        (λ _. or_wait network serde (registry_await_write network serde fuel) (λ key. key) >>= λ a.
          pure tt)
        s s1 tt
        (registry_send_request-sent network serde fuel k RequestType.write s text seen w1 w2 e sent
          p)
      ∙ or_wait-after (λ key. key) (λ key. tt) (registry_await_write network serde fuel) j s1 s2 s3
          (given_key (responded r))
          (registry_await_write-given_key fuel s1 s2 _
            (registry_handle_response-responded fuel s1 _ st first))
          (registry_await_write-given_key fuel s2 s3 (responded r)
            (registry_handle_response-responded fuel s2 r st' second))

  -- So for a request to read: it gives the holder's address exactly if a holder of the key to wait for
  -- is received next.
  pub registry_read_sync-wait :
      (fuel : ℕ) (k j : KeyId) (s : Client network serde) (text seen : Bytes)
      (w1 w2 : network.World) (st st' : Bytes × network.World)
      (r : Outcome ProtocolClientError Message)
      → to_vec serde (registry_request k s.proc_id RequestType.read) ≡ inr text
      → network.write_all s.registry_stream text s.world ≡ (inr tt, w1)
      → network.peek s.registry_stream w1 ≡ (inr seen, w2)
      → receive_message network serde fuel s.registry_stream (s.curr_data, w2)
        ≡ (ok (registry_response (RegistryResponse.wait j)), st)
      → receive_message network serde fuel s.registry_stream st ≡ (r, st')
      → registry_read_sync network serde fuel k s ≡ (
        after_wait (λ res. res.0) (λ res. res.1) j (given_holder (responded r)),
        received network serde s st',
      )
  unfolding registry_read_sync registry_read
  registry_read_sync-wait fuel k j s text seen w1 w2 st st' r e sent p first second =
      let s1 : Client network serde = record s { world = w2 } in
      let s2 : Client network serde = received network serde s st in
      let s3 : Client network serde = received network serde s st' in
      >>=-ok (registry_send_request network serde fuel k RequestType.read)
        (λ _. or_wait network serde (registry_await_read network serde fuel) (λ res. res.0) >>= λ a.
          pure a.1)
        s s1 tt
        (registry_send_request-sent network serde fuel k RequestType.read s text seen w1 w2 e sent
          p)
      ∙ or_wait-after (λ res. res.0) (λ res. res.1) (registry_await_read network serde fuel) j s1 s2
          s3 (given_holder (responded r))
          (registry_await_read-given_holder fuel s1 s2 _
            (registry_handle_response-responded fuel s1 _ st first))
          (registry_await_read-given_holder fuel s2 s3 (responded r)
            (registry_handle_response-responded fuel s2 r st' second))
