-- ===== src/ProtocolClient/Requests.antt =====
-- protocol_client.rs: the calls that a program makes, and the connection to a registry.
use soros.Base.{
  ℕ, Bool, true, false, ◌==◌, if◌then◌else◌, ◌⊎◌, inl, inr, [], String, ok, err, panic, exit,
  no_fuel, Action, pure, throw, try_or, ◌>>=◌, ◌>>◌,
}
use soros.Protocol.{
  KeyId, SocketAddr, Serde, Message, DataMessage, RegistryResponse, RequestType, registry_stop,
  to_vec, from_slice,
}
use soros.Network.{Network, IoError, TcpStream}
use soros.ProtocolClient.{
  ProtocolClientError, io_error, serialization_error, unexpected_response, wait_error, Client, C,
  with_world, send, registry_handle_connection, registry_handle_response, registry_send_request,
}

module _ (network : Network) (serde : Serde) where
  open network use {World}

  abbrev W : Type 0 → Type 0
  W = Action World ProtocolClientError

  abbrev lift_io : {A : Type 0} → (World → (IoError ⊎ A) × World) → W A
  lift_io call w = let (r, w') = call w in try_or io_error r w'

  -- The connections that count as a primary that is down.
  abbrev is_down : IoError → Bool
  is_down IoError.connection_refused = true
  is_down IoError.connection_reset = true
  is_down IoError.timed_out = true
  is_down IoError.would_block = false
  is_down IoError.other = false

  -- The stream, and whether it is the primary's.
  unfoldable pub connect_any : SocketAddr → SocketAddr → W (TcpStream × Bool)
  connect_any primary secondary w =
      let (r, w') = network.connect primary w in
      elim r [
        | inr stream ↦ (ok (stream, true), w')
        | inl e ↦
            if is_down e
            then (do stream ← lift_io (network.connect secondary); pure (stream, false)) w'
            else (err (io_error e), w')
      ]

  -- The end of `ProtocolClient::new`, on a connected stream.
  unfoldable pub start_client :
      ℕ → SocketAddr → SocketAddr → TcpStream × Bool → W (Client network serde)
  start_client fuel primary secondary (stream, is_primary) w =
      let (r, st) = registry_handle_connection network serde fuel stream ([], w) in
      elim r [
        | ok proc_id ↦ (
          ok (record {
            is_primary = is_primary;
            logging = true;
            primary_server = primary;
            secondary_server = secondary;
            proc_id = proc_id;
            registry_stream = stream;
            curr_data = st.0;
            world = st.1;
          }),
          st.1,
        )
        | err e ↦ (err e, st.1)
        | panic ↦ (panic, st.1)
        | exit ↦ (exit, st.1)
        | no_fuel ↦ (no_fuel, st.1)
      ]

  -- `ProtocolClient::new`
  unfoldable pub new : ℕ → SocketAddr → SocketAddr → W (Client network serde)
  new fuel primary secondary = do
    connected ← connect_any primary secondary
    lift_io (network.set_timeouts connected.0 5)
    start_client fuel primary secondary connected

  abbrev holder_only : RegistryResponse → C network serde (KeyId × SocketAddr)
  holder_only (RegistryResponse.holder key_id addr) = pure (key_id, addr)
  holder_only r = throw unexpected_response

  unfoldable pub registry_await_read : ℕ → C network serde (KeyId × SocketAddr)
  registry_await_read fuel = registry_handle_response network serde fuel >>= holder_only

  abbrev success_only : RegistryResponse → C network serde KeyId
  success_only (RegistryResponse.success key_id) = pure key_id
  success_only r = throw unexpected_response

  unfoldable pub registry_await_write : ℕ → C network serde KeyId
  registry_await_write fuel = registry_handle_response network serde fuel >>= success_only

  abbrev success_of : KeyId → RegistryResponse → C network serde (Unit {0})
  success_of key_id (RegistryResponse.success resp_key_id) =
      if key_id == resp_key_id then pure tt else throw unexpected_response
  success_of key_id r = throw unexpected_response

  unfoldable pub registry_expect_success : ℕ → KeyId → C network serde (Unit {0})
  registry_expect_success fuel key_id =
      registry_handle_response network serde fuel >>= success_of key_id

  unfoldable pub registry_create : ℕ → KeyId → C network serde (Unit {0})
  registry_create fuel key_id =
      registry_send_request network serde fuel key_id RequestType.create
      >> registry_expect_success fuel key_id

  unfoldable pub registry_delete : ℕ → KeyId → C network serde (Unit {0})
  registry_delete fuel key_id =
      registry_send_request network serde fuel key_id RequestType.delete
      >> registry_expect_success fuel key_id

  unfoldable pub registry_release : ℕ → KeyId → C network serde (Unit {0})
  registry_release fuel key_id =
      registry_send_request network serde fuel key_id RequestType.release
      >> registry_expect_success fuel key_id

  unfoldable pub registry_read : ℕ → KeyId → C network serde (Unit {0})
  registry_read fuel key_id = registry_send_request network serde fuel key_id RequestType.read

  unfoldable pub registry_write : ℕ → KeyId → C network serde (Unit {0})
  registry_write fuel key_id = registry_send_request network serde fuel key_id RequestType.write

  -- A first answer that says to wait is followed by a second, whose key must be the one to wait for.
  abbrev pub or_wait : {A : Type 0} → C network serde A → (A → KeyId) → C network serde A
  or_wait await key_of s =
      let (r, s') = await s in
      elim r [
        | ok a ↦ (ok a, s')
        | err e ↦ elim e [
          | wait_error key_id ↦
              (do res ← await; if key_id == key_of res then pure res else throw unexpected_response)
                s'
          | other ↦ (err other, s')
        ]
        | panic ↦ (panic, s')
        | exit ↦ (exit, s')
        | no_fuel ↦ (no_fuel, s')
      ]

  unfoldable pub registry_read_sync : ℕ → KeyId → C network serde SocketAddr
  registry_read_sync fuel key_id = do
    registry_read fuel key_id
    res ← or_wait (registry_await_read fuel) (λ res. res.0)
    pure res.1

  unfoldable pub registry_write_sync : ℕ → KeyId → C network serde (Unit {0})
  registry_write_sync fuel key_id = do
    registry_write fuel key_id
    res ← or_wait (registry_await_write fuel) (λ key. key)
    pure tt

  unfoldable pub do_registry_stop : C network serde (Unit {0})
  do_registry_stop = do
    text ← try_or serialization_error (to_vec serde registry_stop)
    send network serde text

  abbrev data_of : Message → C network serde String
  data_of (Message.data_message (DataMessage.response content)) = pure content
  data_of message = throw unexpected_response

  unfoldable pub p2p_read : KeyId → SocketAddr → C network serde String
  p2p_read key_id peer_addr = do
    stream ← with_world network serde (network.connect peer_addr)
    text ←
        try_or serialization_error
          (to_vec serde (Message.data_message (DataMessage.request key_id)))
    with_world network serde (network.write_all stream text)
    answer ← with_world network serde (network.read stream 256)
    message ← try_or serialization_error (from_slice serde answer)
    data_of message
