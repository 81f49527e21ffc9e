-- ===== src/Benchmark/Rounds.antt =====
-- What a client of the benchmark measures, by what its calls come to.
use soros.Base.{
  Outcome, ℕ, zero, suc, ◌+◌, ◌-◌, ◌/◌, ◌≤◌, ◌<◌, ◌≡◌, refl, ok, err, panic, Action, arith, >>=-ok,
  ◌∙◌, ap₂,
}
use soros.Protocol.{KeyId, Serde}
use soros.Network.{Network}
use soros.ProtocolClient.{ProtocolClientError, wait_error, Client, C}
use soros.ProtocolClient.Requests.{
  registry_release, registry_read, registry_write, registry_await_read, registry_await_write,
}
use soros.Benchmark.{
  from_new, AccessType, readers, writers, read_client, write_client, Worker, u32_mod, duration_mod,
  B, access, repeat, measure,
}

module _ (network : Network) (serde : Serde) (now : network.World → ℕ) where
  abbrev pub time_between : Client network serde → Client network serde → ℕ
  time_between c c' = now c'.world - now c.world

  module _ {A : Type 0} (fuel : ℕ) (request : C network serde (Unit {0}))
      (await : C network serde A) where
    -- One turn of the loop from `c` to `c'`, in which the client is told to wait as often as `b` says.
    pub data Turn (b : ℕ) (c c' : Client network serde) : Type 0 where
      at_once :
          (c1 c2 : Client network serde) (a : A)
          → request c ≡ (ok tt, c1)
          → await c1 ≡ (ok a, c2)
          → registry_release network serde fuel 1 c2 ≡ (ok tt, c')
          → b ≡ 0
          → Turn b c c'
      after_wait :
          (c1 c2 c3 : Client network serde) (k : KeyId) (a : A)
          → request c ≡ (ok tt, c1)
          → await c1 ≡ (err (wait_error k), c2)
          → await c2 ≡ (ok a, c3)
          → registry_release network serde fuel 1 c3 ≡ (ok tt, c')
          → b ≡ 1
          → Turn b c c'

    -- `n` turns from `c` to `c'`, in which the client is told to wait `b` times, and that take `t`.
    pub data Turns : ℕ → ℕ → ℕ → Client network serde → Client network serde → Type 0 where
      finished : {c : Client network serde} → Turns zero 0 0 c c
      more :
          {n b b' t : ℕ} {c c1 c' : Client network serde}
          → Turn b c c1
          → Turns n b' t c1 c'
          → Turns (suc n) (b + b') (time_between c c1 + t) c c'

    Turn-le : (b : ℕ) (c c' : Client network serde) → Turn b c c' → b ≤ 1
    Turn-le b c c' (at_once c1 c2 a p q r e) = omega (arith, e)
    Turn-le b c c' (after_wait c1 c2 c3 k a p q q' r e) = omega (arith, e)

    pub Turns-le : {n b t : ℕ} {c c' : Client network serde} → Turns n b t c c' → b ≤ n
    Turns-le finished = omega arith
    Turns-le (more {b = b} {c = c} {c1 = c1} turn rest) =
        omega (arith, Turn-le b c c1 turn, Turns-le rest)

    abbrev pub worker : Client network serde → ℕ → ℕ → Worker network.World
    worker c mean blocks = record { client = c; mean_access_time = mean; nb_blocks = blocks }

    access-Turn :
        (b mean blocks : ℕ) (c c' : Client network serde)
        → Turn b c c'
        → mean + time_between c c' < duration_mod
        → blocks + b < u32_mod
        → access network serde now fuel request await (worker c mean blocks)
          ≡ (ok tt, worker c' (mean + time_between c c') (blocks + b))
    access-Turn b mean blocks c c' (at_once c1 c2 a p q r e) h l = ground (arith, p, q, r, e)
    access-Turn b mean blocks c c' (after_wait c1 c2 c3 k a p q q' r e) h l =
        ground (arith, p, q, q', r, e)

    repeat-Turns :
        {n b t : ℕ} {c c' : Client network serde} (mean blocks : ℕ)
        → Turns n b t c c'
        → mean + t < duration_mod
        → blocks + n < u32_mod
        → repeat network serde now n
            (access network serde now fuel request await)
            (worker c mean blocks)
          ≡ (ok tt, worker c' (mean + t) (blocks + b))
    unfolding repeat
    repeat-Turns mean blocks finished h l = ground arith
    repeat-Turns mean blocks
          (more {n = n} {b = b} {b' = b'} {t = t} {c = c} {c1 = c1} {c' = c'} turn rest) h l =
        let body = access network serde now fuel request await in
        >>=-ok body (λ _. repeat network serde now n body) (worker c mean blocks)
          (worker c1 (mean + time_between c c1) (blocks + b)) tt
          (access-Turn b mean blocks c c1 turn (omega (arith, h))
            (omega (arith, l, Turn-le b c c1 turn)))
        ∙ (repeat-Turns (mean + time_between c c1) (blocks + b) rest (omega (arith, h))
              (omega (arith, l, Turn-le b c c1 turn))
            ∙ ap₂ (λ m k. (ok tt, worker c' m k)) (omega arith) (omega arith))

    measure-Turns :
        {n b t : ℕ} {c c' : Client network serde}
        → Turns (suc n) b t c c'
        → t < duration_mod
        → suc n < u32_mod
        → measure network serde now
            (access network serde now fuel request await)
            (suc n)
            (worker c 0 0)
          ≡ (ok (t / suc n, b), worker c' t b)
    measure-Turns {n} {b} {t} {c} {c'} turns h l =
        ground (arith, repeat-Turns 0 0 turns (omega (arith, h)) (omega (arith, l)))

  from_new-ok :
      (create_client : Action network.World ProtocolClientError (Client network serde))
      (w w1 : network.World) (c : Client network serde)
      → create_client w ≡ (ok c, w1)
      → (call : B network serde now (ℕ × ℕ)) (r : Outcome ProtocolClientError (ℕ × ℕ))
        (s : Worker network.World)
      → call (record { client = record c { world = w1 }; mean_access_time = 0; nb_blocks = 0 })
        ≡ (r, s)
      → from_new network serde now create_client call w ≡ (r, s.client.world)
  from_new-ok create_client w w1 c created call r s e = ground (arith, created, e)

  created-Turns :
      {A : Type 0} (fuel : ℕ) (request : C network serde (Unit {0})) (await : C network serde A)
      (create_client : Action network.World ProtocolClientError (Client network serde)) (n b t : ℕ)
      (w w1 : network.World) (c c' : Client network serde)
      → create_client w ≡ (ok c, w1)
      → Turns fuel request await (suc n) b t (record c { world = w1 }) c'
      → t < duration_mod
      → suc n < u32_mod
      → let measured = measure network serde now (access network serde now fuel request await) in
        (from_new network serde now create_client (measured (suc n)) w
          ≡ (ok (t / suc n, b), c'.world))
        × (b ≤ suc n)
        × (from_new network serde now create_client (measured 0) w ≡ (panic, w1))
  unfolding repeat
  created-Turns fuel request await create_client n b t w w1 c c' created turns h l =
      let measured = measure network serde now (access network serde now fuel request await) in
      (
        from_new-ok create_client w w1 c created (measured (suc n)) (ok (t / suc n, b))
            (worker fuel request await c' t b) (measure-Turns fuel request await turns h l),
        Turns-le fuel request await turns,
        from_new-ok create_client w w1 c created (measured 0) panic
            (worker fuel request await (record c { world = w1 }) 0 0) refl,
      )

  abbrev pub client_of :
      AccessType
      → Action network.World ProtocolClientError (Client network serde)
      → ℕ
      → ℕ
      → Action network.World ProtocolClientError (ℕ × ℕ)
  client_of readers = read_client network serde now
  client_of writers = write_client network serde now

  -- The turns of a client of either kind.
  abbrev pub TurnsOf :
      AccessType → ℕ → ℕ → ℕ → ℕ → Client network serde → Client network serde → Type 0
  TurnsOf readers fuel =
      Turns fuel (registry_read network serde fuel 1) (registry_await_read network serde fuel)
  TurnsOf writers fuel =
      Turns fuel (registry_write network serde fuel 1) (registry_await_write network serde fuel)

  -- A client of the benchmark, of either kind, that is created and whose calls come to `suc n` turns,
  -- of which each is granted at once or after one answer to wait, ends well: with the mean of the time
  -- that they take, rounded down, and the number of those that had to wait, which is at most that of
  -- the turns. This is so if the time fits a Duration and the number of turns a u32. Without any turn
  -- the client panics, by the division of the time.
  pub client_of-Turns :
      (a : AccessType)
      (create_client : Action network.World ProtocolClientError (Client network serde))
      (fuel n b t : ℕ) (w w1 : network.World) (c c' : Client network serde)
      → create_client w ≡ (ok c, w1)
      → TurnsOf a fuel (suc n) b t (record c { world = w1 }) c'
      → t < duration_mod
      → suc n < u32_mod
      → (client_of a create_client fuel (suc n) w ≡ (ok (t / suc n, b), c'.world))
        × (b ≤ suc n)
        × (client_of a create_client fuel 0 w ≡ (panic, w1))
  unfolding read_client write_client
  client_of-Turns readers create_client fuel n b t w w1 c c' =
      created-Turns fuel (registry_read network serde fuel 1)
        (registry_await_read network serde fuel) create_client n b t w w1 c c'
  client_of-Turns writers create_client fuel n b t w w1 c c' =
      created-Turns fuel (registry_write network serde fuel 1)
        (registry_await_write network serde fuel) create_client n b t w w1 c c'
