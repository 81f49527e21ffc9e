-- ===== src/Benchmark/Report.antt =====
-- bin/registry_benchmark.rs: `bench_readers_writers` and `main`. What is only printed is left out. The
-- threads are given by how they end; f32 and the crate csv are parameters.
use soros.Base.{
  ℕ, zero, suc, ◌+◌, ◌*◌, ◌/◌, ◌%◌, Bool, Option, Outcome, ok, err, panic, exit, no_fuel, Action,
  pure, unwrap, ◌==◌, if◌then◌else◌, ◌>>=◌, ◌>>◌,
}
use soros.Protocol.{Serde}
use soros.Network.{Network}
use soros.RegistryServer.{RegistryServerError}
use soros.ProtocolClient.{ProtocolClientError, Client, C}
use soros.ProtocolClient.Requests.{registry_create, registry_delete, do_registry_stop}
use soros.Benchmark.{AccessType, readers, writers, u32_mod, add_duration, div_duration}

pub record Floats : Type 1 where
  pub F32 : Type 0
  pub from_u32 : ℕ → F32
  pub nought : F32
  pub divide : F32 → F32 → F32
  pub is_nan : F32 → Bool

-- One line of the table: `nb_readers/nb_writers`, the kind, the mean in microseconds, the ratio.
pub record Row (F32 : Type 0) : Type 0 where
  pub nb_readers : ℕ
  pub nb_writers : ℕ
  pub access_type : AccessType
  pub access_time : ℕ
  pub block_ratio : F32

-- The table that is written. `from_file` is none if the directory or the file cannot be made.
pub record Csv (F32 : Type 0) : Type 1 where
  pub Writer : Type 0
  pub from_file : Option Writer
  pub write_titles : Writer → Option (Unit {0}) × Writer
  pub write_record : Row F32 → Writer → Option (Unit {0}) × Writer

-- `join().unwrap().expect(...)`
abbrev pub join : {S E D A : Type 0} → Outcome D A → Action S E A
join (ok a) s = (ok a, s)
join (err e) s = (panic, s)
join panic s = (panic, s)
join exit s = (exit, s)
join no_fuel s = (no_fuel, s)

abbrev pub Threads : Type 0
Threads = AccessType → ℕ → Outcome ProtocolClientError (ℕ × ℕ)

-- The loop over the handles of one kind, of which `n` are left from the one at `i`.
unfoldable pub join_all :
    {S E : Type 0} → (ℕ → Outcome ProtocolClientError (ℕ × ℕ)) → ℕ → ℕ → ℕ → ℕ → Action S E (ℕ × ℕ)
join_all handles i zero access_time nb_blocks = pure (access_time, nb_blocks)
join_all handles i (suc n) access_time nb_blocks = do
  res ← join (handles i)
  total ← add_duration access_time res.0
  join_all handles (suc i) n total ((nb_blocks + res.1) % u32_mod)

module _ (floats : Floats) (csv : Csv floats.F32) where
  open floats use {F32, from_u32, nought, divide, is_nan}
  open csv use {Writer}

  abbrev pub block_ratio_of : ℕ → ℕ → F32
  block_ratio_of nb_blocks nb_access =
      let ratio = divide (from_u32 nb_blocks) (from_u32 nb_access) in
      if is_nan ratio then nought else ratio

  abbrev pub mean_of : {S E : Type 0} → ℕ → ℕ → Action S E ℕ
  mean_of access_time n = if n == 0 then pure 0 else div_duration access_time n

  -- `write_record(...).unwrap()`
  abbrev pub add_row : {E : Type 0} → Row F32 → Action Writer E (Unit {0})
  add_row row wtr = let (r, wtr') = csv.write_record row wtr in unwrap r wtr'

  unfoldable pub bench_readers_writers :
      {E : Type 0} → Threads → ℕ → ℕ → ℕ → Action Writer E (Unit {0})
  bench_readers_writers threads nb_readers nb_writers nb_requests = do
    read ← join_all (threads readers) 0 nb_readers 0 0
    write ← join_all (threads writers) 0 nb_writers 0 0
    read_mean ← mean_of read.0 nb_readers
    write_mean ← mean_of write.0 nb_writers
    add_row (record {
      nb_readers = nb_readers;
      nb_writers = nb_writers;
      access_type = readers;
      access_time = read_mean / 1000;
      block_ratio = block_ratio_of read.1 ((nb_requests * nb_readers) % u32_mod);
    })
    add_row (record {
      nb_readers = nb_readers;
      nb_writers = nb_writers;
      access_type = writers;
      access_time = write_mean / 1000;
      block_ratio = block_ratio_of write.1 ((nb_requests * nb_writers) % u32_mod);
    })

  -- The titles and the five runs, of which the threads of each are given.
  unfoldable pub write_table : {E : Type 0} → (ℕ → Threads) → Action Writer E (Unit {0})
  write_table runs = do
    (λ wtr. let (r, wtr') = csv.write_titles wtr in unwrap r wtr')
    bench_readers_writers (runs 0) 100 0 1000
    bench_readers_writers (runs 1) 0 100 1000
    bench_readers_writers (runs 2) 80 20 1000
    bench_readers_writers (runs 3) 20 80 1000
    bench_readers_writers (runs 4) 50 50 1000

  -- An action on the table, whose end is part of a program that has another state.
  abbrev on_table : {S E : Type 0} → Action Writer E (Unit {0}) → Writer → Action S E Writer
  on_table write wtr s =
      let (r, wtr') = write wtr in
      (
        elim r [ ok a ↦ ok wtr' | err e ↦ err e | panic ↦ panic | exit ↦ exit | no_fuel ↦ no_fuel ],
        s,
      )

  module _ (network : Network) (serde : Serde) where
    -- `main` from where it has its client, and what it comes to: the table. `server` is how the
    -- thread of its server ends.
    unfoldable pub main_steps :
        ℕ → (ℕ → Threads) → Outcome RegistryServerError (Unit {0}) → C network serde Writer
    main_steps fuel runs server = do
      registry_create network serde fuel 1
      wtr ← unwrap csv.from_file
      table ← on_table (write_table runs) wtr
      registry_delete network serde fuel 1
      do_registry_stop network serde
      join server
      pure table

    unfoldable pub main :
        Action network.World ProtocolClientError (Client network serde)
        → ℕ
        → (ℕ → Threads)
        → Outcome RegistryServerError (Unit {0})
        → Action network.World ProtocolClientError Writer
    main create_client fuel runs server = do
      client ← create_client
      (λ w. let (r, c) = main_steps fuel runs server (record client { world = w }) in (r, c.world))
