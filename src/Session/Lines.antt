-- ===== src/Session/Lines.antt =====
-- How the lines that a registry writes come to its client.
use soros.Base.{ℕ, ◌≡◌, true, false, [], ◌∷◌, ◌++◌, inr, ok, ◌∙◌, List, All, length, ◌<◌}
use soros.Protocol.{Bytes, Message, newline, from_slice, Serde}
use soros.Network.{Network, TcpStream}
use soros.ProtocolClient.{receive_message, has_newline}
use soros.ProtocolClient.Framing.{joined, Gives, NoNewline, receive_message-line}

module _ (ours : Network) (serde : Serde) where
  -- The stream brings a line to the client: what is received is the message that the line, without
  -- its end, is read back as.
  abbrev pub Brings : ℕ → TcpStream → Bytes → Bytes × ours.World → Bytes × ours.World → Type 0
  Brings fuel stream line st st' =
      (body : Bytes) (m : Message)
      → line ≡ body ++ newline ∷ []
      → has_newline body ≡ false
      → from_slice serde body ≡ inr m
      → receive_message ours serde fuel stream st ≡ (ok m, st')

  -- However the line is cut into reads, it is brought.
  pub line-Brings :
      (fuel : ℕ) (stream : TcpStream) (chunks : List Bytes) (last line : Bytes)
      (u1 u2 u3 : ours.World)
      → Gives ours serde stream chunks u1 u2
      → All (NoNewline ours serde stream) chunks
      → ours.read stream 32 u2 ≡ (inr last, u3)
      → has_newline last ≡ true
      → length chunks < fuel
      → joined chunks ++ last ≡ line
      → Brings fuel stream line ([], u1) ([], u3)
  line-Brings fuel stream chunks last line u1 u2 u3 g n r h l pieces body m e one parsed =
      receive_message-line ours serde stream chunks last fuel [] body [] u1 u2 u3 m g n r h l
        (pieces ∙ e) one parsed
