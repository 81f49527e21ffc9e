-- ===== src/ProtocolClient.antt =====
-- protocol_client.rs: the client's state, how it receives messages, and how it sends requests.
pub mod Requests
pub mod Framing
pub mod Failover
pub mod Answers
pub mod Waiting
pub mod Fixtures
mod Tests
use soros.Base.{
  ℕ, zero, suc, Bool, true, false, not, ◌||◌, List, [], ◌∷◌, ◌++◌, Option, none, some, ◌⊎◌, inl,
  inr, ◌==◌, if◌then◌else◌, String, Outcome, ok, err, panic, exit, no_fuel, Action, pure, throw,
  gets, modify, try_or, ◌>>=◌, ◌>>◌,
}
use soros.Protocol.{
  ProcId, KeyId, SocketAddr, Bytes, SerdeError, Serde, Message, RegistryMessage, RegistryResponse,
  RequestType, newline, to_vec, from_slice, registry_request,
}
use soros.Network.{Network, IoError, TcpStream, is_utf8}

pub data ProtocolClientError : Type 0 where
  io_error : IoError → ProtocolClientError
  serialization_error : SerdeError → ProtocolClientError
  registry_error : String → ProtocolClientError
  unexpected_response : ProtocolClientError
  wait_error : KeyId → ProtocolClientError
  no_backup_server : ProtocolClientError

pub record ProtocolClient (World : Type 0) : Type 0 where
  pub is_primary : Bool
  pub logging : Bool
  pub primary_server : SocketAddr
  pub secondary_server : SocketAddr
  pub proc_id : ProcId
  pub registry_stream : TcpStream
  pub curr_data : Bytes
  pub world : World

-- `handle_wait_error!`: any error but the one that says to wait is passed over.
abbrev pub handle_wait_error :
    {S E A : Type 0}
    → Action S ProtocolClientError A
    → Action S E (Unit {0})
    → Action S E (Unit {0})
handle_wait_error res logic s =
    let (r, s') = res s in
    elim r [
      | ok a ↦ (ok tt, s')
      | err e ↦ elim e [ wait_error k ↦ logic s' | other ↦ (ok tt, s') ]
      | panic ↦ (panic, s')
      | exit ↦ (exit, s')
      | no_fuel ↦ (no_fuel, s')
    ]

-- `buffer.contains(&b'\n')`: what is not read of the buffer is zero.
abbrev pub has_newline : Bytes → Bool
has_newline [] = false
has_newline (c ∷ cs) = c == newline || has_newline cs

abbrev pub before_newline : ℕ → Option (Bytes × Bytes) → Option (Bytes × Bytes)
before_newline c none = none
before_newline c (some (line, rest)) = some (c ∷ line, rest)

-- `position` of the first newline, the bytes before it, and what `drain` leaves.
abbrev pub split_line : Bytes → Option (Bytes × Bytes)
split_line [] = none
split_line (c ∷ cs) = if c == newline then some ([], cs) else before_newline c (split_line cs)

module _ (network : Network) (serde : Serde) where
  open network use {World}

  -- `curr_data` and the world, which `receive_message` works on.
  abbrev pub F : Type 0 → Type 0
  F = Action (Bytes × World) ProtocolClientError

  -- The loop of `receive_message`, on fuel: it ends when a read has brought a newline.
  unfoldable pub fill : ℕ → TcpStream → F (Unit {0})
  fill zero stream s = (no_fuel, s)
  fill (suc fuel) stream (curr_data, w) =
      let (r, w') = network.read stream 32 w in
      elim r [
        | inl e ↦ (err (io_error e), (curr_data, w'))
        | inr buffer ↦
            let again = fill fuel stream (curr_data ++ buffer, w') in
            if has_newline buffer then (ok tt, (curr_data ++ buffer, w')) else again
      ]

  unfoldable pub take_line : F Bytes
  take_line (curr_data, w) = elim (split_line curr_data) [
    | none ↦ (err unexpected_response, (curr_data, w))
    | some (line, rest) ↦ (ok line, (rest, w))
  ]

  -- `Message::from_slice` with the log of what cannot be read, which wants it to be text.
  unfoldable pub parse_line : Bytes → F Message
  parse_line line s = elim (from_slice serde line) [
    | inl e ↦ if is_utf8 line then (err (serialization_error e), s) else (panic, s)
    | inr message ↦ (ok message, s)
  ]

  unfoldable pub receive_message : ℕ → TcpStream → F Message
  receive_message fuel stream = do fill fuel stream; line ← take_line; parse_line line

  abbrev connection_id : Message → F ProcId
  connection_id (Message.registry (RegistryMessage.connection proc_id)) = pure proc_id
  connection_id message = throw unexpected_response

  unfoldable pub registry_handle_connection : ℕ → TcpStream → F ProcId
  registry_handle_connection fuel stream = receive_message fuel stream >>= connection_id

  abbrev pub Client : Type 0
  Client = ProtocolClient World

  abbrev pub C : Type 0 → Type 0
  C = Action Client ProtocolClientError

  -- A call on the fields `registry_stream` and `curr_data`.
  abbrev pub on_stream : {A : Type 0} → (TcpStream → F A) → C A
  on_stream call s =
      let (r, st) = call s.registry_stream (s.curr_data, s.world) in
      (r, record s { curr_data = st.0; world = st.1 })

  abbrev pub with_world : {A : Type 0} → (World → (IoError ⊎ A) × World) → C A
  with_world call s = let (r, w) = call s.world in try_or io_error r (record s { world = w })

  abbrev response_of : Message → C RegistryResponse
  response_of (Message.registry (RegistryMessage.response (RegistryResponse.error e))) =
      throw (registry_error e)
  response_of (Message.registry (RegistryMessage.response (RegistryResponse.wait key_id))) =
      throw (wait_error key_id)
  response_of (Message.registry (RegistryMessage.response r)) = pure r
  response_of message = throw unexpected_response

  -- The `_` arm of `registry_handle_response` takes the errors of `receive_message` too.
  abbrev pub unexpected_error : {A : Type 0} → C A → C A
  unexpected_error call s =
      let (r, s') = call s in
      (
        elim r [
          | ok a ↦ ok a
          | err e ↦ err unexpected_response
          | panic ↦ panic
          | exit ↦ exit
          | no_fuel ↦ no_fuel
        ],
        s',
      )

  unfoldable pub registry_handle_response : ℕ → C RegistryResponse
  registry_handle_response fuel =
      unexpected_error (on_stream (receive_message fuel)) >>= response_of

  -- The id that the secondary gives is only logged, and so is the error in its place.
  abbrev pub only_logged : {A : Type 0} → C A → C (Unit {0})
  only_logged call s =
      let (r, s') = call s in
      (
        elim r [ ok a ↦ ok tt | err e ↦ ok tt | panic ↦ panic | exit ↦ exit | no_fuel ↦ no_fuel ],
        s',
      )

  unfoldable pub switch_to_secondary : ℕ → C (Unit {0})
  switch_to_secondary fuel = do
    secondary ← gets (λ s. s.secondary_server)
    stream ← with_world (network.connect secondary)
    modify (λ s. record s { registry_stream = stream })
    only_logged (on_stream (registry_handle_connection fuel))
    with_world (network.set_timeouts stream 5)

  -- `self.registry_stream.write_all(&data)?`
  abbrev pub send : Bytes → C (Unit {0})
  send text s = with_world (network.write_all s.registry_stream text) s

  -- Whether a call on the stream fails; the error itself is not looked at.
  abbrev pub fails : {A : Type 0} → (TcpStream → World → (IoError ⊎ A) × World) → C Bool
  fails call s =
      let (r, w) = call s.registry_stream s.world in
      (elim r [ inl e ↦ ok true | inr a ↦ ok false ], record s { world = w })

  -- The primary does not respond: the request goes to the secondary, if there is another.
  unfoldable pub send_to_secondary : ℕ → Bytes → C (Unit {0})
  send_to_secondary fuel text = do
    is_primary ← gets (λ s. s.is_primary)
    if not is_primary then throw no_backup_server else (switch_to_secondary fuel >> send text)

  unfoldable pub registry_send_request : ℕ → KeyId → RequestType → C (Unit {0})
  registry_send_request fuel key_id request_type = do
    proc_id ← gets (λ s. s.proc_id)
    text ← try_or serialization_error (to_vec serde (registry_request key_id proc_id request_type))
    write_failed ← fails (λ stream. network.write_all stream text)
    if write_failed then send_to_secondary fuel text else do
      peek_failed ← fails network.peek
      if peek_failed then send_to_secondary fuel text else pure tt
