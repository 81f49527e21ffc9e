-- ===== src/Network.antt =====
-- The operating system's side: sockets and polling (`std::net` and the crate `mio`), as a world that
-- answers each call. Nothing is assumed of the answers.
use soros.Base.{
  ℕ, Bool, true, false, [], ◌∷◌, ◌⊎◌, ◌==◌, if◌then◌else◌, ◌-◌, ◌≡◌, Option, refl, some, none, List,
  inl, inr,
}
use Prim.Native.Nat.{compare, Ordering}
use soros.Protocol.{SocketAddr, Bytes}

-- The `io::ErrorKind`s that the code tells apart.
pub data IoError : Type 0 where
  would_block connection_reset connection_refused timed_out other : IoError

-- A `TcpStream` is known by its descriptor, and a `mio::Token` by its number.
abbrev pub TcpStream : Type 0
TcpStream = ℕ

abbrev pub Token : Type 0
Token = ℕ

-- The left side of each answer is `Err`. `read s n` gives at most `n` bytes, and none at the end of
-- the stream; `peek` waits for a byte and leaves it there.
pub record Network : Type 1 where
  pub World : Type 0
  pub connect : SocketAddr → World → (IoError ⊎ TcpStream) × World
  pub new_poll : World → (IoError ⊎ Unit {0}) × World
  -- binds the listener and registers it with the poll
  pub listen : SocketAddr → World → (IoError ⊎ Unit {0}) × World
  pub register : TcpStream → Token → World → (IoError ⊎ Unit {0}) × World
  pub read : TcpStream → ℕ → World → (IoError ⊎ Bytes) × World
  pub peek : TcpStream → World → (IoError ⊎ Bytes) × World
  pub write_all : TcpStream → Bytes → World → (IoError ⊎ Unit {0}) × World
  pub set_timeouts : TcpStream → ℕ → World → (IoError ⊎ Unit {0}) × World

-- What one readiness event brings: on the listener, the connections that `accept` gives and the
-- error that ends them; on another token, data if it is readable.
pub data Event : Type 0 where
  incoming : List (TcpStream × SocketAddr) → IoError → Event
  event : Token → Bool → Event

-- `std::str::from_utf8`: RFC 3629. The state is the number of bytes that a character still wants, with
-- the range of the next one, which rules out overlong forms, surrogates and what is above U+10FFFF.
abbrev pub within : ℕ → ℕ → ℕ → Bool
within lo hi b = elim (compare b lo) [
  | Ordering.lt ↦ false
  | _ ↦ elim (compare b hi) [ Ordering.gt ↦ false | _ ↦ true ]
]

lead_byte : ℕ → Option (ℕ × ℕ × ℕ)
lead_byte b =
    if within 0 0x7f b
    then some (0, 0x80, 0xbf)
    else if within 0xc2 0xdf b
    then some (1, 0x80, 0xbf)
    else if within 0xe0 0xe0 b
    then some (2, 0xa0, 0xbf)
    else if within 0xed 0xed b
    then some (2, 0x80, 0x9f)
    else if within 0xe1 0xef b
    then some (2, 0x80, 0xbf)
    else if within 0xf0 0xf0 b
    then some (3, 0x90, 0xbf)
    else if within 0xf1 0xf3 b
    then some (3, 0x80, 0xbf)
    else if within 0xf4 0xf4 b
    then some (3, 0x80, 0x8f)
    else none

next_byte : ℕ × ℕ × ℕ → ℕ → Option (ℕ × ℕ × ℕ)
unfolding lead_byte
next_byte (n, lo, hi) b =
    if n == 0 then lead_byte b else if within lo hi b then some (n - 1, 0x80, 0xbf) else none

utf8_from : ℕ × ℕ × ℕ → Bytes → Bool
unfolding next_byte
utf8_from (n, lo, hi) [] = n == 0
utf8_from st (b ∷ bs) = elim (next_byte st b) [ none ↦ false | some st' ↦ utf8_from st' bs ]

unfoldable pub is_utf8 : Bytes → Bool
unfolding utf8_from
is_utf8 = utf8_from (0, 0x80, 0xbf)

-- Bytes that were read are text.
abbrev pub IsText : IoError ⊎ Bytes → Type 0
IsText (inl e) = Unit
IsText (inr text) = is_utf8 text ≡ true

-- "aé" is text; a lone continuation byte is not, nor is the overlong form of `/`.
utf8_examples :
    (is_utf8 (0x61 ∷ 0xc3 ∷ 0xa9 ∷ []) ≡ true)
    × (is_utf8 (0x61 ∷ 0xa9 ∷ []) ≡ false)
    × (is_utf8 (0xc0 ∷ 0xaf ∷ []) ≡ false)
unfolding is_utf8
utf8_examples = (refl, refl, refl)
