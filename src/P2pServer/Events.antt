-- ===== src/P2pServer/Events.antt =====
-- The event loop of a peer's server, over events of which each fits the state that it meets.
use soros.Base.{
  ◌+◌, ◌<◌, ◌≡◌, true, false, List, [], ◌∷◌, some, arith, length, NoPanic, Ends, >>=-Ends,
}
use soros.Protocol.{Serde, SocketAddr, usize_mod}
use soros.Network.{Network, IoError, TcpStream, Token, Event, incoming, event, IsText}
use soros.DataStore.{DataStore}
use soros.P2pServer.{
  Server, handle_connection, accept_all, handle_data, handle_event, handle_events,
}
use soros.P2pServer.Preserve.{handle_data-preserves}
use soros.P2pServer.Panics.{handle_data-Returned}
use soros.P2pServer.Tokens.{IsFresh, accept_all-Accepts}
use soros.P2pServer.Handlers.{accept_all-Keeps}

module _ (network : Network) (serde : Serde) where
  -- The server has the data store `d`, and no token above its counter stands for a connection.
  abbrev pub IsServing : DataStore → Server network serde → Type 0
  IsServing d s = (s.data_store ≡ d) × IsFresh network serde s

  handle_data-IsServing :
      (d : DataStore) (token : Token) (s : Server network serde)
      → IsServing d s
      → IsServing d (handle_data network serde token s).1
  handle_data-IsServing d =
      handle_data-preserves network serde (IsServing d) (λ w s h. h)
        (λ token s h. (h.0, λ t l. ground (arith, h.1 t l)))

  -- The events that the server is ready for in the state `s`: connections for which its counter has
  -- room, until there is none left; and text, or an error of reading, on a connection that it has.
  abbrev pub Fits : Event → Server network serde → Type 0
  Fits (incoming cs e) s = (e ≡ IoError.would_block) × (s.token_counter + length cs < usize_mod)
  Fits (event token true) s =
      (stream : TcpStream) × (s.token_stream_map token ≡ some stream)
      × IsText (network.read stream 256 s.world).0
  Fits (event token false) s = Unit

  -- Each event fits the state that the events before it have left.
  abbrev pub AllFit : List Event → Server network serde → Type 0
  AllFit [] s = Unit
  AllFit (e ∷ es) s = Fits e s × AllFit es (handle_event network serde e s).1

  handle_connection-NoPanic :
      (stream : TcpStream) (s : Server network serde)
      → NoPanic (handle_connection network serde stream s).0
  unfolding handle_connection
  handle_connection-NoPanic stream s = ground arith

  accept_all-NoPanic :
      (cs : List (TcpStream × SocketAddr)) (s : Server network serde)
      → Ends (λ _. Unit) (accept_all network serde cs IoError.would_block s)
  unfolding accept_all
  accept_all-NoPanic [] s = (tt, tt)
  accept_all-NoPanic ((stream, addr) ∷ cs) s =
      >>=-Ends (λ _. Unit) (λ _. Unit) (handle_connection network serde stream)
        (λ _. accept_all network serde cs IoError.would_block) (λ s1 h1. h1)
        (λ _ s1 h1. accept_all-NoPanic cs s1) s (handle_connection-NoPanic stream s, tt)

  handle_event-Ends :
      (d : DataStore) (e : Event) (s : Server network serde)
      → Fits e s
      → IsServing d s
      → Ends (IsServing d) (handle_event network serde e s)
  unfolding handle_event
  handle_event-Ends d (incoming cs e) s (b, room) (k, f) = (
    rw b (accept_all-NoPanic cs s).0,
    (accept_all-Keeps network serde d cs e s k, (accept_all-Accepts network serde cs e s f room).0),
  )
  handle_event-Ends d (event token true) s (stream, found, t) h = (
    ground (arith, handle_data-Returned network serde token stream s found t),
    handle_data-IsServing d token s h,
  )
  handle_event-Ends d (event token false) s f h = (tt, h)

  -- From a state in which no token above the counter stands for a connection, and by events that fit
  -- it (connections for which the counter has room, until `accept` would block; and, on a connection
  -- that the server has, UTF-8 text or an error of reading), the loop handles the events without a
  -- panic, changes nothing in the data store, and leaves such a state.
  pub handle_events-Ends :
      (d : DataStore) (es : List Event) (s : Server network serde)
      → AllFit es s
      → IsServing d s
      → Ends (IsServing d) (handle_events network serde es s)
  unfolding handle_events
  handle_events-Ends d [] s f h = (tt, h)
  handle_events-Ends d (e ∷ es) s (f, fs) h =
      >>=-Ends (λ s1. AllFit es s1 × IsServing d s1) (IsServing d) (handle_event network serde e)
        (λ _. handle_events network serde es) (λ s1 h1. h1.1)
        (λ _ s1 (f1, h1). handle_events-Ends d es s1 f1 h1) s
        (let (n, h1) = handle_event-Ends d e s f h in (n, (fs, h1)))
