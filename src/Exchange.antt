-- ===== src/Exchange.antt =====
-- A read between two peers: p2p_read of protocol_client.rs on one side, the server of p2p_server.rs
-- on the other, each on its own network, with the bytes that one writes read by the other.
pub mod Truncation
mod Tests
use soros.Base.{ℕ, ◌≡◌, List, [], ◌∷◌, some, inr, ok, String, arith, ap, ◌∙◌}
use soros.Protocol.{Bytes, KeyId, Serde, SocketAddr, Message, DataMessage, to_vec, from_slice}
use soros.Network.{Network, TcpStream, Token}
use soros.DataStore
use soros.DataStore.History.{Operation, after, latest, after-latest}
use soros.P2pServer
use soros.P2pServer.{handle_data, handle_read, handle_request, handle_message, reply, Server}
use soros.ProtocolClient.{Client}
use soros.ProtocolClient.Requests.{p2p_read}

-- What serde_json documents: the text that it wrote, with the white space after it, it reads back.
abbrev pub ReadsBack : Serde → Message → Type 0
ReadsBack serde m = (text : Bytes) → to_vec serde m ≡ inr text → from_slice serde text ≡ inr m

abbrev pub request_for : KeyId → Message
request_for k = Message.data_message (DataMessage.request k)

abbrev pub response_with : String → Message
response_with content = Message.data_message (DataMessage.response content)

module _ (theirs ours : Network) (serde : Serde) where
  -- The server's side.
  served :
      (token : Token) (stream : TcpStream) (k : KeyId) (content : String) (b : ℕ)
      (bs answer : Bytes) (s : Server theirs serde) (w v : theirs.World)
      → ReadsBack serde (request_for k)
      → s.data_store.data_map k ≡ some content
      → s.token_stream_map token ≡ some stream
      → to_vec serde (request_for k) ≡ inr (b ∷ bs)
      → to_vec serde (response_with content) ≡ inr answer
      → theirs.read stream 256 s.world ≡ (inr (b ∷ bs), w)
      → theirs.write_all stream answer w ≡ (inr tt, v)
      → handle_data theirs serde token s ≡ (ok tt, record s { world = v })
  unfolding handle_data handle_read handle_request handle_message reply DataStore.get
  served token stream k content b bs answer s w v back has found asked answered r o =
      ground (arith, back _ asked)

  -- The reader's side.
  received :
      (k : KeyId) (peer_addr : SocketAddr) (content : String) (request answer : Bytes)
      (c : Client ours serde) (stream : TcpStream) (u1 u2 u3 : ours.World)
      → ReadsBack serde (response_with content)
      → to_vec serde (request_for k) ≡ inr request
      → to_vec serde (response_with content) ≡ inr answer
      → ours.connect peer_addr c.world ≡ (inr stream, u1)
      → ours.write_all stream request u1 ≡ (inr tt, u2)
      → ours.read stream 256 u2 ≡ (inr answer, u3)
      → p2p_read ours serde k peer_addr c ≡ (ok content, record c { world = u3 })
  unfolding p2p_read
  received k peer_addr content request answer c stream u1 u2 u3 back asked answered connected sent
        r =
      ground (arith, back _ answered)

  -- A peer's store has had some operations, which leave `content` at the key, and another
  -- peer reads the key. If the connection bears what each side writes to the other in one read of at
  -- most 256 bytes, and the two messages are read back from what is written of them, then the server's
  -- handler succeeds and has changed nothing but the network, and `p2p_read` gives `content`.
  pub p2p_read-store :
      (ops : List Operation) (k : KeyId) (content : String) (token : Token)
      (s : Server theirs serde) (stream : TcpStream) (w v : theirs.World) (peer_addr : SocketAddr)
      (c : Client ours serde) (link : TcpStream) (u1 u2 u3 : ours.World) (b : ℕ) (bs answer : Bytes)
      → ReadsBack serde (request_for k)
      → ReadsBack serde (response_with content)
      → s.data_store ≡ after ops
      → latest k ops ≡ some content
      → s.token_stream_map token ≡ some stream
      → to_vec serde (request_for k) ≡ inr (b ∷ bs)
      → to_vec serde (response_with content) ≡ inr answer
      → ours.connect peer_addr c.world ≡ (inr link, u1)
      → ours.write_all link (b ∷ bs) u1 ≡ (inr tt, u2)
      → theirs.read stream 256 s.world ≡ (inr (b ∷ bs), w)
      → theirs.write_all stream answer w ≡ (inr tt, v)
      → ours.read link 256 u2 ≡ (inr answer, u3)
      → (handle_data theirs serde token s ≡ (ok tt, record s { world = v }))
        × (p2p_read ours serde k peer_addr c ≡ (ok content, record c { world = u3 }))
  p2p_read-store ops k content token s stream w v peer_addr c link u1 u2 u3 b bs answer back_q
        back_a store left found asked answered connected sent r o r' =
      (
        served token stream k content b bs answer s w v back_q
            (ap (λ d. d.data_map k) store ∙ after-latest k ops ∙ left) found asked answered r o,
        received k peer_addr content (b ∷ bs) answer c link u1 u2 u3 back_a asked answered connected
            sent r',
      )
