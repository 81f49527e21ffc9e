-- ===== src/Channel.antt =====
-- `std::sync::mpsc::channel`: what has been sent and not yet received, oldest first, and whether
-- the receiver still lives. A send fails only once the receiver is gone.
use soros.Base.{Bool, true, List, [], ◌∷◌, ◌++◌, Option, none, some, if◌then◌else◌}

pub record Channel (A : Type 0) : Type 0 where
  pub sent : List A
  pub connected : Bool

module _ {A : Type 0} where
  abbrev pub channel : Channel A
  channel = record { sent = []; connected = true }

  -- `Sender::send`; `none` is `SendError`, which gives the value back.
  abbrev pub send : A → Channel A → Option (Channel A)
  send a ch = if ch.connected then some (record ch { sent = ch.sent ++ a ∷ [] }) else none

  -- `Receiver::try_iter().collect()`
  abbrev pub try_iter : Channel A → List A × Channel A
  try_iter ch = (ch.sent, record ch { sent = [] })
