-- ===== src/RegistryServer/Disconnect.antt =====
-- What the registry does when a client goes.
use soros.Base.{All, ◌≡◌, refl, false, List, [], ◌∷◌, none, some, inl, inr, ◌⊎◌, err, arith, ◌==◌}
use soros.Base.HashMap
use soros.Protocol.{KeyId, ProcId, Bytes}
use soros.AccessManager.Calls.{delete, Call, perform, run, write}
use soros.AccessManager.{request_access, key_accessed}
use soros.AccessManager.Holding.{IsHeld, is_release_by, run-holds}
use soros.AccessManager.Refinement.{IsSound}
use soros.Network.{Token, TcpStream, IoError}
use soros.RegistryServer.{Platform, Server, remove_client}
use soros.RegistryServer.Requests.{handle_data, handle_read}

-- The stream has ended, or the other side has reset it.
abbrev pub IsGone : IoError ⊎ Bytes → Type 0
IsGone (inr []) = Unit
IsGone (inr (b ∷ bs)) = ⊥
IsGone (inl IoError.connection_reset) = Unit
IsGone (inl IoError.would_block) = ⊥
IsGone (inl IoError.connection_refused) = ⊥
IsGone (inl IoError.timed_out) = ⊥
IsGone (inl IoError.other) = ⊥

module _ (platform : Platform) where
  open platform use {network}

  removed :
      (token : Token) (r : IoError ⊎ Bytes) (s : Server platform)
      → IsGone r
      → (handle_read platform token false r s).1 ≡ record s {
        token_stream_map = HashMap.remove token s.token_stream_map;
        token_addr_map = HashMap.remove token s.token_addr_map;
      }
  unfolding handle_read remove_client
  removed token (inr []) s g = refl
  removed token (inr (b ∷ bs)) s g = absurd g
  removed token (inl IoError.connection_reset) s g = refl
  removed token (inl IoError.would_block) s g = absurd g
  removed token (inl IoError.connection_refused) s g = absurd g
  removed token (inl IoError.timed_out) s g = absurd g
  removed token (inl IoError.other) s g = absurd g

  gone :
      (token : Token) (stream : TcpStream) (r : IoError ⊎ Bytes) (w : network.World)
      (s : Server platform)
      → (token == s.backup_token) ≡ false
      → s.token_stream_map token ≡ some stream
      → network.read stream 256 s.world ≡ (r, w)
      → IsGone r
      → (handle_data platform token s).1 ≡ record s {
        world = w;
        token_stream_map = HashMap.remove token s.token_stream_map;
        token_addr_map = HashMap.remove token s.token_addr_map;
      }
  unfolding handle_data
  gone token stream r w s client found received g =
      ground (arith, removed token r (record s { world = w }) g)

  -- A client that goes while it has access to a key is forgotten by the server, but not by the lock:
  -- until somebody releases the key in its name, whatever is called then, each write of the key has
  -- to wait and the key cannot be deleted.
  pub handle_data-gone :
      (token : Token) (stream : TcpStream) (r : IoError ⊎ Bytes) (w : network.World)
      (s : Server platform) (k : KeyId) (cs : List Call) (q : ProcId)
      → (token == s.backup_token) ≡ false
      → s.token_stream_map token ≡ some stream
      → network.read stream 256 s.world ≡ (r, w)
      → IsGone r
      → IsSound s.access_manager
      → IsHeld token (s.access_manager.key_states k)
      → All (λ c. is_release_by token k c ≡ false) cs
      → let s' = (handle_data platform token s).1 in
        let m' = run platform.order cs s'.access_manager in
        (s'.token_stream_map token ≡ none)
        × (s'.token_addr_map token ≡ none)
        × ((perform platform.order (write q k) m').0 ≡ err (request_access q k))
        × ((perform platform.order (delete k) m').0 ≡ err key_accessed)
  handle_data-gone token stream r w s k cs q client found received g sound held others =
      let e = gone token stream r w s client found received g in
      let (still, waits, stays) =
        run-holds platform.order token k cs s.access_manager q sound others held in
      rw e (ground arith, ground arith, waits, stays)
