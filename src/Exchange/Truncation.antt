-- ===== src/Exchange/Truncation.antt =====
-- A read between two peers of a text that is too long for it.
use soros.Base.{◌≡◌, ◌≤◌, ◌<◌, ◌++◌, [], String, inr, ◌∷◌, length, err, inl, arith}
use soros.Protocol.{
  Bytes, KeyId, SerdeError, Serde, SocketAddr, Message, newline, to_vec, from_slice,
}
use soros.Network.{Network, TcpStream}
use soros.ProtocolClient.{Client, serialization_error}
use soros.ProtocolClient.Requests.{p2p_read}
use soros.Exchange.{request_for, response_with}

-- What serde_json documents of an object: its text is read only when it has come to its end.
abbrev pub NeedsEnd : Serde → Message → Type 0
NeedsEnd serde m =
    (json part rest : Bytes)
    → serde.serialize m ≡ inr json
    → part ++ rest ≡ json ++ newline ∷ []
    → length part < length json
    → (e : SerdeError) × (from_slice serde part ≡ inl e)

module _ (ours : Network) (serde : Serde) where
  -- A peer answers a read with a text whose message has more than 256 bytes. However much of it has
  -- come (`part`), the reader asks for 256 bytes at most, once: if the connection bears the request and
  -- that read, `p2p_read` ends with the error of serde_json, and the rest of the answer is left.
  pub p2p_read-long :
      (k : KeyId) (content : String) (peer_addr : SocketAddr) (c : Client ours serde)
      (link : TcpStream) (u1 u2 u3 : ours.World) (request json answer part rest : Bytes)
      → NeedsEnd serde (response_with content)
      → serde.serialize (response_with content) ≡ inr json
      → 256 < length json
      → to_vec serde (response_with content) ≡ inr answer
      → part ++ rest ≡ answer
      → length part ≤ 256
      → to_vec serde (request_for k) ≡ inr request
      → ours.connect peer_addr c.world ≡ (inr link, u1)
      → ours.write_all link request u1 ≡ (inr tt, u2)
      → ours.read link 256 u2 ≡ (inr part, u3)
      → (e : SerdeError) × (p2p_read ours serde k peer_addr c
          ≡ (err (serialization_error e), record c { world = u3 }))
  unfolding p2p_read to_vec
  p2p_read-long k content peer_addr c link u1 u2 u3 request json answer part rest ends written long
        answered split short asked connected sent r =
      let (e, refused) = ends json part rest written (ground arith) (omega arith) in
      (e, ground (arith, refused))
