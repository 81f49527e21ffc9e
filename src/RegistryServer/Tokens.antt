-- ===== src/RegistryServer/Tokens.antt =====
-- The tokens that the registry gives to its clients, and the two that it keeps for itself.
use soros.Base.{
  subst, sym, ◌⊎◌, ℕ, suc, ◌+◌, ◌%◌, ◌<◌, ◌≤◌, ◌≡◌, ◌≢◌, refl, ◌∙◌, List, [], ◌∷◌, none, inl, inr,
  arith, length, >>=-reaches, Bool-cases, not, is_some, ◌&&◌,
}
use soros.Protocol.{SocketAddr, usize_mod}
use soros.Network.{IoError, TcpStream, Token}
use soros.RegistryServer.{Platform, Server, forward_request}
use soros.RegistryServer.EventLoop.{connect_primary, connect_client, handle_connection, accept_all}

no_wrap : (c : ℕ) → c + 1 < usize_mod → (c + 1) % usize_mod ≡ c + 1
no_wrap c h = omega (arith, h)

module _ (platform : Platform) where
  -- No token above the counter but the primary's stands for a connection.
  abbrev pub IsFresh : Server platform → Type 0
  IsFresh s =
      (t : Token)
      → s.id_counter < t
      → t ≢ s.primary_token
      → (s.token_stream_map t ≡ none) × (s.token_addr_map t ≡ none)

  -- From `s` to `s'` the counter goes up by at most `n`, and no client's entry changes.
  pub record Admits (n : ℕ) (s s' : Server platform) : Type 0 where
    pub fresh : IsFresh s'
    pub at_most : s'.id_counter ≤ s.id_counter + n
    pub at_least : s.id_counter ≤ s'.id_counter
    pub backup : s'.backup_token ≡ s.backup_token
    pub primary : s'.primary_token ≡ s.primary_token
    pub clients :
        (t : Token)
        → t ≤ s.id_counter
        → (s'.token_stream_map t ≡ s.token_stream_map t)
          × (s'.token_addr_map t ≡ s.token_addr_map t)

  connect_primary-Admits :
      (stream : TcpStream) (s : Server platform)
      → IsFresh s
      → s.id_counter < s.primary_token
      → Admits 1 s (connect_primary platform stream s).1
  unfolding connect_primary
  connect_primary-Admits stream s f b = record {
    fresh = λ t h ne. ground (arith, f t);
    at_most = ground arith;
    at_least = ground arith;
    backup = ground arith;
    primary = ground arith;
    clients = λ t h. ground (arith);
  }

  connect_client-Admits :
      (stream : TcpStream) (addr : SocketAddr) (s : Server platform)
      → IsFresh s
      → s.id_counter + 1 < usize_mod
      → Admits 1 s (connect_client platform stream addr s).1
  unfolding connect_client forward_request
  connect_client-Admits stream addr s f b = record {
    fresh = λ t h ne. ground (arith, no_wrap s.id_counter b, f t);
    at_most = ground (arith, no_wrap s.id_counter b);
    at_least = ground (arith, no_wrap s.id_counter b);
    backup = ground arith;
    primary = ground arith;
    clients = λ t h. ground (arith, no_wrap s.id_counter b);
  }

  handle_connection-cases :
      (stream : TcpStream) (addr : SocketAddr) (s : Server platform)
      → (handle_connection platform stream addr s ≡ connect_primary platform stream s)
        ⊎ (handle_connection platform stream addr s ≡ connect_client platform stream addr s)
  unfolding handle_connection
  handle_connection-cases stream addr s =
      elim (Bool-cases (not (is_some s.backup_addr) && s.first_connection)) [
        | inl e ↦ inl (ground arith)
        | inr e ↦ inr (ground arith)
      ]

  handle_connection-Admits :
      (stream : TcpStream) (addr : SocketAddr) (s : Server platform)
      → IsFresh s
      → s.id_counter < s.primary_token
      → s.id_counter + 1 < usize_mod
      → Admits 1 s (handle_connection platform stream addr s).1
  handle_connection-Admits stream addr s f p b = elim (handle_connection-cases stream addr s) [
    | inl e ↦ subst (λ x. Admits 1 s x.1) (sym e) (connect_primary-Admits stream s f p)
    | inr e ↦ subst (λ x. Admits 1 s x.1) (sym e) (connect_client-Admits stream addr s f b)
  ]

  Admits-weaken : (n : ℕ) (s s' : Server platform) → Admits 1 s s' → Admits (suc n) s s'
  Admits-weaken n s s' a = record {
    fresh = a.fresh;
    at_most = omega (arith, a.at_most);
    at_least = a.at_least;
    backup = a.backup;
    primary = a.primary;
    clients = a.clients;
  }

  Admits-trans :
      (n : ℕ) (s s1 s2 : Server platform) → Admits 1 s s1 → Admits n s1 s2 → Admits (suc n) s s2
  Admits-trans n s s1 s2 a b = record {
    fresh = b.fresh;
    at_most = omega (arith, a.at_most, b.at_most);
    at_least = omega (arith, a.at_least, b.at_least);
    backup = b.backup ∙ a.backup;
    primary = b.primary ∙ a.primary;
    clients = λ t h.
        let (x, y) = a.clients t h in
        let (x', y') = b.clients t (omega (arith, h, a.at_least)) in (x' ∙ x, y' ∙ y);
  }

  unchanged : (s : Server platform) → IsFresh s → Admits 0 s s
  unchanged s f = record {
    fresh = f;
    at_most = omega arith;
    at_least = omega arith;
    backup = refl;
    primary = refl;
    clients = λ t h. (refl, refl);
  }

  accepted :
      (cs : List (TcpStream × SocketAddr)) (e : IoError) (s : Server platform)
      → IsFresh s
      → s.backup_token < s.primary_token
      → s.primary_token < usize_mod
      → s.id_counter + length cs < s.backup_token
      → Admits (length cs) s (accept_all platform cs e s).1
  unfolding accept_all
  accepted [] IoError.would_block s f r u b = unchanged s f
  accepted [] e s f r u b = unchanged s f
  accepted ((stream, addr) ∷ cs) e s f r u b =
      >>=-reaches (Admits 1 s) (Admits (suc (length cs)) s) (handle_connection platform stream addr)
        (λ _. accept_all platform cs e) (Admits-weaken (length cs) s)
        (λ _ s1 a. Admits-trans (length cs) s s1 (accept_all platform cs e s1).1 a (
          accepted cs e s1 a.fresh (omega (arith, r, a.backup, a.primary))
            (omega (arith, u, a.primary)) (omega (arith, b, a.at_most, a.backup))))
        s (handle_connection-Admits stream addr s f (omega (arith, r, b)) (omega (arith, r, u, b)))

  -- While fewer clients have come than the reserved tokens start at, any connections leave the clients
  -- that the registry has under their tokens and addresses, whether or not the new ones can be
  -- registered and written to; the ids that are given stay below the reserved tokens, and the
  -- secondary's token and those above the counter, but for the primary's, are nobody's.
  pub accept_all-Admits :
      (cs : List (TcpStream × SocketAddr)) (e : IoError) (s : Server platform)
      → IsFresh s
      → s.backup_token < s.primary_token
      → s.primary_token < usize_mod
      → s.id_counter + length cs < s.backup_token
      → let s' = (accept_all platform cs e s).1 in
        Admits (length cs) s s'
        × (s'.id_counter < s.backup_token)
        × (s'.token_stream_map s.backup_token ≡ none)
  accept_all-Admits cs e s f r u b =
      let a = accepted cs e s f r u b in
      let below : (accept_all platform cs e s).1.id_counter < s.backup_token =
        omega (arith, a.at_most, b) in
      let other : s.backup_token ≢ (accept_all platform cs e s).1.primary_token =
        omega (arith, r, a.primary) in
      (a, below, (a.fresh s.backup_token below other).0)
