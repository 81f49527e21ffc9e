-- ===== src/Benchmark.antt =====
-- bin/registry_benchmark.rs: clients that read or write one key many times, and what is measured of
-- them. It creates its clients and its server by calls that do not fit the library's interface; they
-- are parameters here. A time is a number of nanoseconds.
pub mod Rounds
pub mod Report
pub mod Counts
mod Tests
use soros.Base.{
  ℕ, zero, suc, ◌+◌, ◌-◌, ◌*◌, ◌/◌, ◌%◌, ◌^◌, String, Bool, List, [], ◌∷◌, Outcome, ok, err, panic,
  Action, pure, gets, modify, crash, ◌==◌, if◌then◌else◌, ltb, ◌>>=◌, ◌>>◌,
}
use soros.Protocol.{KeyId, SocketAddr, Serde}
use soros.Network.{Network}
use soros.ProtocolClient.{ProtocolClient, ProtocolClientError, handle_wait_error, Client, C}
use soros.ProtocolClient.Requests.{
  registry_read, registry_write, registry_await_read, registry_await_write, registry_release,
}

abbrev pub u32_mod : ℕ
u32_mod = 2 ^ 32

-- `Duration`: seconds below 2^64, and nanoseconds.
abbrev pub duration_mod : ℕ
duration_mod = 2 ^ 64 * 1000000000

module _ {S E : Type 0} where
  -- `+=` on a `Duration`
  abbrev pub add_duration : ℕ → ℕ → Action S E ℕ
  add_duration a b = if ltb (a + b) duration_mod then pure (a + b) else crash

  -- `/` of a `Duration` by a number
  abbrev pub div_duration : ℕ → ℕ → Action S E ℕ
  div_duration a n = if n == 0 then crash else pure (a / n)

-- The two kinds of access, as the table of results names them.
pub data AccessType : Type 0 where
  readers writers : AccessType

-- A client, and the two that `read_client` and `write_client` count.
pub record Worker (World : Type 0) : Type 0 where
  pub client : ProtocolClient World
  pub mean_access_time : ℕ
  pub nb_blocks : ℕ

module _ (network : Network) (serde : Serde) (now : network.World → ℕ) where
  open network use {World}

  abbrev pub B : Type 0 → Type 0
  B = Action (Worker World) ProtocolClientError

  abbrev pub on_client : {A : Type 0} → C network serde A → B A
  on_client call s = let (r, c) = call s.client in (r, record s { client = c })

  -- `Instant::now()`, and `elapsed()` of it
  abbrev clock : B ℕ
  clock = gets (λ s. now s.client.world)

  abbrev add_elapsed : ℕ → B (Unit {0})
  add_elapsed start_time = do
    end_time ← clock
    total ← (λ s. add_duration s.mean_access_time (end_time - start_time) s)
    modify (λ s. record s { mean_access_time = total })

  -- The body of the loop of `read_client` or `write_client`, by the two calls in which they differ.
  abbrev pub access :
      {A : Type 0} → ℕ → C network serde (Unit {0}) → C network serde A → B (Unit {0})
  access fuel request await = do
    start_time ← clock
    on_client request
    handle_wait_error (on_client await) (do
      modify (λ s. record s { nb_blocks = (s.nb_blocks + 1) % u32_mod })
      res ← on_client await
      pure tt)
    on_client (registry_release network serde fuel 1)
    add_elapsed start_time

  -- `for _ in 0..nb_requests`
  unfoldable pub repeat : ℕ → B (Unit {0}) → B (Unit {0})
  repeat zero body = pure tt
  repeat (suc n) body = body >> repeat n body

  -- The whole of `read_client` or `write_client`, by the client and the body of its loop.
  abbrev pub measure : B (Unit {0}) → ℕ → B (ℕ × ℕ)
  measure body nb_requests = do
    repeat nb_requests body
    mean ← (λ s. div_duration s.mean_access_time nb_requests s)
    gets (λ s. (mean, s.nb_blocks))

  abbrev pub from_new :
      Action World ProtocolClientError (Client network serde)
      → B (ℕ × ℕ)
      → Action World ProtocolClientError (ℕ × ℕ)
  from_new create_client call = do
    client ← create_client
    (λ w.
        let (r, s) =
          call (record {
            client = record client { world = w };
            mean_access_time = 0;
            nb_blocks = 0;
          }) in
        (r, s.client.world))

  unfoldable pub read_client :
      Action World ProtocolClientError (Client network serde)
      → ℕ
      → ℕ
      → Action World ProtocolClientError (ℕ × ℕ)
  read_client create_client fuel nb_requests = from_new create_client (
      measure
        (access fuel (registry_read network serde fuel 1) (registry_await_read network serde fuel))
        nb_requests)

  unfoldable pub write_client :
      Action World ProtocolClientError (Client network serde)
      → ℕ
      → ℕ
      → Action World ProtocolClientError (ℕ × ℕ)
  write_client create_client fuel nb_requests = from_new create_client (
      measure
        (access fuel (registry_write network serde fuel 1)
          (registry_await_write network serde fuel))
        nb_requests)
