-- ===== src/RegistryServer/Events.antt =====
-- The event loop of the registry, from one event to the next.
use soros.Base.{
  pure, ◌≡◌, Bool, true, false, List, [], ◌∷◌, Option, some, inl, inr, ◌⊎◌, ok, err, panic, exit,
  no_fuel, arith, NoPanic, >>=-Ends, Outcome, ◌>>=◌, subst, sym, if◌then◌else◌, ◌==◌, >>=-ok,
  unwrap,
}
use soros.Protocol.{Bytes, SocketAddr}
use soros.Network.{Token, TcpStream, IoError, IsText, Event, incoming, event}
use soros.RegistryServer.{
  io_error, serialization_error, unexpected_request, access_manager, invalid_token, unknown_holder,
  remove_client, Platform, Server, S, RegistryServerError, stop_request, handle_error,
  forward_request, io_error, remove_client, serialization_error, access_manager, invalid_token,
  unknown_holder,
}
use soros.RegistryServer.Requests.{
  handle_request, handle_read, handle_data, report_error, read_stream,
}
use soros.RegistryServer.EventLoop.{
  connect_primary, connect_client, handle_connection, accept_all, handle_event, handle_events,
  log_error,
}
use soros.RegistryServer.Grants.{IsSafe}
use soros.RegistryServer.Panics.{
  IsSafeServer, EndsSafe, handle_request-EndsSafe, handle_response-EndsSafe,
}

module _ (platform : Platform) where
  open platform use {network}

  reported :
      (token : Token) (r : Outcome RegistryServerError (Unit {0})) (s : Server platform)
      → EndsSafe platform (r, s)
      → EndsSafe platform (report_error platform token (λ _. (r, s)) s)
  unfolding handle_error
  reported token (err stop_request) s h = h
  reported token (err (io_error x)) s h = handle_response-EndsSafe platform token _ s h.1
  reported token (err (serialization_error x)) s h = handle_response-EndsSafe platform token _ s h.1
  reported token (err unexpected_request) s h = handle_response-EndsSafe platform token _ s h.1
  reported token (err (access_manager x)) s h = handle_response-EndsSafe platform token _ s h.1
  reported token (err (invalid_token x)) s h = handle_response-EndsSafe platform token _ s h.1
  reported token (err (unknown_holder x)) s h = handle_response-EndsSafe platform token _ s h.1
  reported token (ok a) s h = h
  reported token panic s h = h
  reported token exit s h = h
  reported token no_fuel s h = h

  handle_read-EndsSafe :
      (token : Token) (is_backup : Bool) (r : IoError ⊎ Bytes) (s : Server platform)
      → IsText r
      → IsSafeServer platform s
      → EndsSafe platform (handle_read platform token is_backup r s)
  unfolding handle_read remove_client
  handle_read-EndsSafe token true (inr []) s t h = (tt, h)
  handle_read-EndsSafe token false (inr []) s t h = (tt, h)
  handle_read-EndsSafe token true (inr (b ∷ bs)) s t h = (tt, h)
  handle_read-EndsSafe token false (inr (b ∷ bs)) s t h =
      let (r, s') = handle_request platform token (b ∷ bs) s in
      reported token r s' (handle_request-EndsSafe platform token (b ∷ bs) s t h)
  handle_read-EndsSafe token is_backup (inl IoError.connection_reset) s t h = (tt, h)
  handle_read-EndsSafe token is_backup (inl IoError.would_block) s t h = (tt, h)
  handle_read-EndsSafe token is_backup (inl IoError.connection_refused) s t h = (tt, h)
  handle_read-EndsSafe token is_backup (inl IoError.timed_out) s t h = (tt, h)
  handle_read-EndsSafe token is_backup (inl IoError.other) s t h = (tt, h)

  -- The stream that `handle_data` reads for the token.
  abbrev pub stream_of : Token → Server platform → Option TcpStream
  stream_of token s = if token == s.backup_token then s.backup_stream else s.token_stream_map token

  handle_data-EndsSafe :
      (token : Token) (stream : TcpStream) (s : Server platform)
      → stream_of token s ≡ some stream
      → IsText (network.read stream 256 s.world).0
      → IsSafeServer platform s
      → EndsSafe platform (handle_data platform token s)
  unfolding handle_data
  handle_data-EndsSafe token stream s found t h =
      subst (EndsSafe platform)
        (sym (
          >>=-ok (λ s'. unwrap (stream_of token s') s')
            (λ stream.
              read_stream platform stream >>= handle_read platform token (token == s.backup_token))
            s s stream (ground (arith, found))))
        (handle_read-EndsSafe token (token == s.backup_token) (network.read stream 256 s.world).0
          (record s { world = (network.read stream 256 s.world).1 }) t h)

  -- A new connection does not reach the access manager.
  handle_connection-manager :
      (stream : TcpStream) (addr : SocketAddr) (s : Server platform)
      → (handle_connection platform stream addr s).1.access_manager ≡ s.access_manager
  unfolding handle_connection connect_primary connect_client forward_request
  handle_connection-manager stream addr s = ground arith

  handle_connection-NoPanic :
      (stream : TcpStream) (addr : SocketAddr) (s : Server platform)
      → NoPanic (handle_connection platform stream addr s).0
  unfolding handle_connection connect_primary connect_client forward_request
  handle_connection-NoPanic stream addr s = ground arith

  handle_connection-EndsSafe :
      (stream : TcpStream) (addr : SocketAddr) (s : Server platform)
      → IsSafeServer platform s
      → EndsSafe platform (handle_connection platform stream addr s)
  handle_connection-EndsSafe stream addr s h = (
    handle_connection-NoPanic stream addr s,
    subst IsSafe (sym (handle_connection-manager stream addr s)) h,
  )

  accept_all-EndsSafe :
      (cs : List (TcpStream × SocketAddr)) (s : Server platform)
      → IsSafeServer platform s
      → EndsSafe platform (accept_all platform cs IoError.would_block s)
  unfolding accept_all
  accept_all-EndsSafe [] s h = (tt, h)
  accept_all-EndsSafe ((stream, addr) ∷ cs) s h =
      >>=-Ends (IsSafeServer platform) (IsSafeServer platform)
        (handle_connection platform stream addr) (λ _. accept_all platform cs IoError.would_block)
        (λ s1 h1. h1) (λ _. accept_all-EndsSafe cs) s (handle_connection-EndsSafe stream addr s h)

  -- The events that the registry is ready for in the state `s`: connections, until there is none
  -- left; and data that is text, or an error of reading, on a stream that it has.
  abbrev pub Fits : Event → Server platform → Type 0
  Fits (incoming cs IoError.would_block) s = Unit
  Fits (incoming cs IoError.connection_reset) s = ⊥
  Fits (incoming cs IoError.connection_refused) s = ⊥
  Fits (incoming cs IoError.timed_out) s = ⊥
  Fits (incoming cs IoError.other) s = ⊥
  Fits (event token true) s =
      (stream : TcpStream) × (stream_of token s ≡ some stream)
      × IsText (network.read stream 256 s.world).0
  Fits (event token false) s = Unit

  -- Each event fits the state that the events before it have left.
  abbrev pub AllFit : List Event → Server platform → Type 0
  AllFit [] s = Unit
  AllFit (e ∷ es) s = Fits e s × AllFit es (handle_event platform e s).1

  logged :
      (r : Outcome RegistryServerError (Unit {0})) (s : Server platform)
      → EndsSafe platform (r, s)
      → EndsSafe platform (log_error platform (λ _. (r, s)) s)
  logged (ok a) s h = h
  logged (err e) s h = ground (arith, h.0, h.1)
  logged panic s h = h
  logged exit s h = h
  logged no_fuel s h = h

  handle_event-EndsSafe :
      (e : Event) (s : Server platform)
      → Fits e s
      → IsSafeServer platform s
      → EndsSafe platform (handle_event platform e s)
  unfolding handle_event
  handle_event-EndsSafe (incoming cs IoError.would_block) s f h =
      >>=-Ends (IsSafeServer platform) (IsSafeServer platform)
        (accept_all platform cs IoError.would_block) (λ _. pure false) (λ s1 h1. h1)
        (λ _ s1 h1. (tt, h1)) s (accept_all-EndsSafe cs s h)
  handle_event-EndsSafe (incoming cs IoError.connection_reset) s f h = elim f [ ]
  handle_event-EndsSafe (incoming cs IoError.connection_refused) s f h = elim f [ ]
  handle_event-EndsSafe (incoming cs IoError.timed_out) s f h = elim f [ ]
  handle_event-EndsSafe (incoming cs IoError.other) s f h = elim f [ ]
  handle_event-EndsSafe (event token true) s (stream, found, t) h =
      let (r, s') = handle_data platform token s in
      logged r s' (handle_data-EndsSafe token stream s found t h)
  handle_event-EndsSafe (event token false) s f h = (tt, h)

  goes_on :
      (rest : S platform (Unit {0})) (stop : Bool) (s : Server platform)
      → IsSafeServer platform s
      → EndsSafe platform (rest s)
      → EndsSafe platform
          ((elim stop as (λ _. S platform (Unit {0})) [ true ↦ pure tt | false ↦ rest ]) s)
  goes_on rest true s h e = (tt, h)
  goes_on rest false s h e = e

  -- From a state in which every lock is well formed and only reads and writes wait to be told, and by
  -- events that fit it (clients connect until `accept` would block, and data on a stream that the
  -- registry has is UTF-8 text or an error of reading), the loop handles all events up to a stop, an
  -- error of a connection or the exit of a primary, in such states and without a panic.
  pub handle_events-EndsSafe :
      (es : List Event) (s : Server platform)
      → AllFit es s
      → IsSafeServer platform s
      → EndsSafe platform (handle_events platform es s)
  unfolding handle_events
  handle_events-EndsSafe [] s f h = (tt, h)
  handle_events-EndsSafe (e ∷ es) s (f, fs) h =
      >>=-Ends (λ s1. AllFit es s1 × IsSafeServer platform s1) (IsSafeServer platform)
        (handle_event platform e)
        (λ stop. elim stop [ true ↦ pure tt | false ↦ handle_events platform es ]) (λ s1 h1. h1.1)
        (λ stop s1 (f1, h1).
          goes_on (handle_events platform es) stop s1 h1 (handle_events-EndsSafe es s1 f1 h1))
        s (let (n, h1) = handle_event-EndsSafe e s f h in (n, (fs, h1)))
