-- ===== src/P2pServer/Tokens.antt =====
-- The tokens that a peer's server gives to its connections.
use soros.Base.{
  ℕ, ◌+◌, ◌%◌, ◌<◌, ◌≤◌, ◌≡◌, refl, List, [], ◌∷◌, none, arith, length, suc, >>=-reaches, ◌∙◌,
}
use soros.Protocol.{Serde, SocketAddr, usize_mod}
use soros.Network.{Network, IoError, TcpStream, Token}
use soros.P2pServer.{Server, handle_connection, accept_all}

no_wrap : (c : ℕ) → c + 1 < usize_mod → (c + 1) % usize_mod ≡ c + 1
no_wrap c h = omega (arith, h)

module _ (network : Network) (serde : Serde) where
  -- No token above the counter stands for a connection.
  abbrev pub IsFresh : Server network serde → Type 0
  IsFresh s = (t : Token) → s.token_counter < t → s.token_stream_map t ≡ none

  -- From the first state to the second the counter goes up by at most `n`, each token up to the first
  -- counter stands for what it stood for, and none above the second stands for a connection.
  abbrev pub Accepts : ℕ → Server network serde → Server network serde → Type 0
  Accepts n s s' =
      IsFresh s'
      × (s'.token_counter ≤ s.token_counter + n)
      × (s.token_counter ≤ s'.token_counter)
      × ((t : Token) → t ≤ s.token_counter → s'.token_stream_map t ≡ s.token_stream_map t)

  handle_connection-Accepts :
      (stream : TcpStream) (s : Server network serde)
      → IsFresh s
      → s.token_counter + 1 < usize_mod
      → Accepts 1 s (handle_connection network serde stream s).1
  unfolding handle_connection
  handle_connection-Accepts stream s f b = (
    (λ t h. ground (arith, no_wrap s.token_counter b, f t)),
    ground (arith, no_wrap s.token_counter b),
    ground (arith, no_wrap s.token_counter b),
    (λ t h. ground (arith, no_wrap s.token_counter b)),
  )

  Accepts-weaken : (n : ℕ) (s s' : Server network serde) → Accepts 1 s s' → Accepts (suc n) s s'
  Accepts-weaken n s s' (f, u, l, k) = (f, omega (arith, u), l, k)

  Accepts-trans :
      (n : ℕ) (s s1 s2 : Server network serde)
      → Accepts 1 s s1
      → Accepts n s1 s2
      → Accepts (suc n) s s2
  Accepts-trans n s s1 s2 (f, u, l, k) (f', u', l', k') =
      (f', omega (arith, u, u'), omega (arith, l, l'), (λ t h. k' t (omega (arith, h, l)) ∙ k t h))

  -- From a state in which no token above the counter stands for a connection, and with a counter that
  -- has room for them, accepting any connections keeps each connection that the server has under its
  -- token, whether or not the new ones can be registered, and leaves such a state.
  pub accept_all-Accepts :
      (cs : List (TcpStream × SocketAddr)) (e : IoError) (s : Server network serde)
      → IsFresh s
      → s.token_counter + length cs < usize_mod
      → Accepts (length cs) s (accept_all network serde cs e s).1
  unfolding accept_all
  accept_all-Accepts [] IoError.would_block s f b = (f, omega arith, omega arith, λ t h. refl)
  accept_all-Accepts [] e s f b = (f, omega arith, omega arith, λ t h. refl)
  accept_all-Accepts ((stream, addr) ∷ cs) e s f b =
      >>=-reaches (Accepts 1 s) (Accepts (suc (length cs)) s)
        (handle_connection network serde stream) (λ _. accept_all network serde cs e)
        (Accepts-weaken (length cs) s)
        (λ _ s1 a.
          Accepts-trans (length cs) s s1 (accept_all network serde cs e s1).1 a
            (accept_all-Accepts cs e s1 a.0 (omega (arith, b, a.1))))
        s (handle_connection-Accepts stream s f (omega (arith, b)))
