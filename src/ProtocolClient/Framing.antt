-- ===== src/ProtocolClient/Framing.antt =====
-- How `receive_message` cuts a stream of bytes into lines.
use soros.Base.{
  ℕ, zero, suc, ◌<◌, ◌≡◌, refl, sym, ap, ◌∙◌, true, false, List, [], ◌∷◌, ◌++◌, append_assoc, some,
  inl, inr, ok, err, no_fuel, All, length, arith, ◌>>=◌, >>=-ok,
}
use soros.Protocol.{Bytes, Serde, Message, newline, from_slice}
use soros.Network.{Network, IoError, TcpStream}
use soros.ProtocolClient.{
  io_error, has_newline, split_line, fill, take_line, parse_line, receive_message,
}

-- The first line is what stands before the first newline.
split_line-append :
    (line rest : Bytes)
    → has_newline line ≡ false
    → split_line (line ++ newline ∷ rest) ≡ some (line, rest)
split_line-append [] rest h = refl
split_line-append (c ∷ line) rest h = ground (arith, split_line-append line rest)

-- The bytes of several reads in a row.
abbrev pub joined : List Bytes → Bytes
joined [] = []
joined (c ∷ cs) = c ++ joined cs

module _ (network : Network) (serde : Serde) (stream : TcpStream) where
  open network use {World}

  -- The next reads on the stream give these bytes.
  abbrev pub Gives : List Bytes → World → World → Type 0
  Gives [] w v = w ≡ v
  Gives (c ∷ cs) w v = (u : World) × (network.read stream 32 w ≡ (inr c, u)) × Gives cs u v

  abbrev pub NoNewline : Bytes → Type 0
  NoNewline c = has_newline c ≡ false

  fill-stop :
      (fuel : ℕ) (cur last : Bytes) (w v : World)
      → network.read stream 32 w ≡ (inr last, v)
      → has_newline last ≡ true
      → fill network serde (suc fuel) stream (cur, w) ≡ (ok tt, (cur ++ last, v))
  unfolding fill
  fill-stop fuel cur last w v r h = ground arith

  fill-again :
      (fuel : ℕ) (cur c : Bytes) (w v : World)
      → network.read stream 32 w ≡ (inr c, v)
      → has_newline c ≡ false
      → fill network serde (suc fuel) stream (cur, w) ≡ fill network serde fuel stream (cur ++ c, v)
  unfolding fill
  fill-again fuel cur c w v r h = ground arith

  -- The loop reads until a newline has come.
  fill-Gives :
      (chunks : List Bytes) (last : Bytes) (fuel : ℕ) (cur : Bytes) (w u v : World)
      → Gives chunks w u
      → All NoNewline chunks
      → network.read stream 32 u ≡ (inr last, v)
      → has_newline last ≡ true
      → length chunks < fuel
      → fill network serde fuel stream (cur, w) ≡ (ok tt, (cur ++ (joined chunks ++ last), v))
  fill-Gives chunks last zero cur w u v g n r h l = ground arith
  fill-Gives [] last (suc fuel) cur w u v g n r h l =
      fill-stop fuel cur last w v (ap (network.read stream 32) g ∙ r) h
  fill-Gives (c ∷ chunks) last (suc fuel) cur w u v (w1, r1, g) (n1, n) r h l =
      fill-again fuel cur c w w1 r1 n1
      ∙ fill-Gives chunks last fuel (cur ++ c) w1 u v g n r h (omega (arith, l))
      ∙ ap (λ x. (ok tt, (x, v)))
          (append_assoc cur c (joined chunks ++ last)
            ∙ ap (λ x. cur ++ x) (sym (append_assoc c (joined chunks) last)))

  -- The steps after the loop, on data that starts with a line.
  line_of :
      (cur line rest : Bytes) (v : World) (m : Message)
      → cur ≡ line ++ newline ∷ rest
      → has_newline line ≡ false
      → from_slice serde line ≡ inr m
      → (take_line network serde >>= parse_line network serde) (cur, v) ≡ (ok m, (rest, v))
  unfolding take_line parse_line
  line_of cur line rest v m e n p = rw e (ground (arith, split_line-append line rest n, p))

  -- If the next reads give pieces of which only the last has a newline, then, with fuel for each of
  -- them, the call takes the first line of what it had and of what came, and keeps what follows that
  -- line for the next call, if the line is a message. It reads all the pieces, also where the data
  -- that it had already held a line.
  pub receive_message-line :
      (chunks : List Bytes) (last : Bytes) (fuel : ℕ) (cur line rest : Bytes) (w u v : World)
      (m : Message)
      → Gives chunks w u
      → All NoNewline chunks
      → network.read stream 32 u ≡ (inr last, v)
      → has_newline last ≡ true
      → length chunks < fuel
      → cur ++ (joined chunks ++ last) ≡ line ++ newline ∷ rest
      → has_newline line ≡ false
      → from_slice serde line ≡ inr m
      → receive_message network serde fuel stream (cur, w) ≡ (ok m, (rest, v))
  unfolding receive_message
  receive_message-line chunks last fuel cur line rest w u v m g n r h l e k p =
      >>=-ok (fill network serde fuel stream)
        (λ _. take_line network serde >>= parse_line network serde) (cur, w)
        (cur ++ (joined chunks ++ last), v) tt (fill-Gives chunks last fuel cur w u v g n r h l)
      ∙ line_of (cur ++ (joined chunks ++ last)) line rest v m e k p

  -- A message that an earlier call left in the buffer is not given by the next call if no more bytes
  -- come: the read that it does first fails, and so does the call, which leaves the buffer as it is,
  -- though what follows the loop would give the message.
  pub receive_message-stuck :
      (fuel : ℕ) (cur line rest : Bytes) (w v : World) (m : Message) (e : IoError)
      → network.read stream 32 w ≡ (inl e, v)
      → cur ≡ line ++ newline ∷ rest
      → has_newline line ≡ false
      → from_slice serde line ≡ inr m
      → (receive_message network serde (suc fuel) stream (cur, w) ≡ (err (io_error e), (cur, v)))
        × ((take_line network serde >>= parse_line network serde) (cur, v) ≡ (ok m, (rest, v)))
  unfolding receive_message fill
  receive_message-stuck fuel cur line rest w v m e r q n p =
      (ground arith, line_of cur line rest v m q n p)

  fill-endless :
      (Ended : World → Type 0)
      → ((w : World)
          → Ended w
          → ((network.read stream 32 w).0 ≡ inr []) × Ended (network.read stream 32 w).1)
      → (fuel : ℕ) (cur : Bytes) (w : World) → Ended w
      → (fill network serde fuel stream (cur, w)).0 ≡ no_fuel
  unfolding fill
  fill-endless Ended step zero cur w h = refl
  fill-endless Ended step (suc fuel) cur w h = ground (
    arith,
    step w h,
    fill-endless Ended step fuel (cur ++ []) (network.read stream 32 w).1 (step w h).1,
  )

  -- Once the registry has closed the stream, so that each read gives no bytes and no error, the call
  -- does not end within any fuel: it reads for ever.
  pub receive_message-endless :
      (Ended : World → Type 0)
      → ((w : World)
          → Ended w
          → ((network.read stream 32 w).0 ≡ inr []) × Ended (network.read stream 32 w).1)
      → (fuel : ℕ) (cur : Bytes) (w : World) → Ended w
      → (receive_message network serde fuel stream (cur, w)).0 ≡ no_fuel
  unfolding receive_message
  receive_message-endless Ended step fuel cur w h =
      ground (arith, fill-endless Ended step fuel cur w h)
