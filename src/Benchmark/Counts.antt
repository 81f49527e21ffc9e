-- ===== src/Benchmark/Counts.antt =====
-- The table of the benchmark, by what its threads have measured.
use soros.Base.{
  ℕ, zero, suc, ◌+◌, ◌*◌, ◌/◌, ◌%◌, ◌≤◌, ◌<◌, ◌≡◌, ok, some, ◌==◌, if◌then◌else◌, arith, Outcome,
}
use soros.ProtocolClient.{ProtocolClientError}
use soros.Benchmark.{AccessType, readers, writers, u32_mod, duration_mod}
use soros.Benchmark.Report.{
  Floats, Row, Csv, Threads, join_all, bench_readers_writers, block_ratio_of, mean_of,
}

-- What a thread has measured: its mean time, and how often it had to wait.
abbrev pub Measured : Type 0
Measured = ℕ → ℕ × ℕ

-- The sums over the `n` threads from the one at `i`.
unfoldable pub time_of : Measured → ℕ → ℕ → ℕ
time_of f i zero = 0
time_of f i (suc n) = (f i).0 + time_of f (suc i) n

unfoldable pub blocks_of : Measured → ℕ → ℕ → ℕ
blocks_of f i zero = 0
blocks_of f i (suc n) = (f i).1 + blocks_of f (suc i) n

blocks_of-le : (f : Measured) (m i n : ℕ) → ((i : ℕ) → (f i).1 ≤ m) → blocks_of f i n ≤ m * n
unfolding blocks_of
blocks_of-le f m i zero h = omega arith
blocks_of-le f m i (suc n) h =
    let first : (f i).1 ≤ m = h i in
    let rest = blocks_of-le f m (suc i) n h in grind (arith, first, rest)

join_all-ok :
    (S E : Type 0) (handles : ℕ → Outcome ProtocolClientError (ℕ × ℕ)) (f : Measured)
    (i n time blocks : ℕ) (s : S)
    → ((i : ℕ) → handles i ≡ ok (f i))
    → time + time_of f i n < duration_mod
    → blocks + blocks_of f i n < u32_mod
    → join_all {S = S} {E = E} handles i n time blocks s
      ≡ (ok (time + time_of f i n, blocks + blocks_of f i n), s)
unfolding join_all time_of blocks_of
join_all-ok S E handles f i zero time blocks s e h l = ground arith
join_all-ok S E handles f i (suc n) time blocks s e h l =
    let rest =
      join_all-ok S E handles f (suc i) n (time + (f i).0) (blocks + (f i).1) s e (omega (arith, h))
        (omega (arith, l)) in
    ground (arith, e i, rest)

fits : (n : ℕ) → n < u32_mod → n % u32_mod ≡ n
fits n h = omega (arith, h)

module _ (floats : Floats) (csv : Csv floats.F32) where
  -- The line of `n` threads of one kind that have measured `f`: the mean of their times, rounded
  -- down, or 0 without any thread; and all their waits, by all their requests.
  abbrev pub row_of : AccessType → Measured → ℕ → ℕ → ℕ → ℕ → Row floats.F32
  row_of a f n nb_readers nb_writers nb_requests = record {
    nb_readers = nb_readers;
    nb_writers = nb_writers;
    access_type = a;
    access_time = (if n == 0 then 0 else time_of f 0 n / n) / 1000;
    block_ratio = block_ratio_of floats csv (blocks_of f 0 n) (nb_requests * n);
  }

  -- The threads of the kind `a` have all ended well, have measured `f`, and were not told to wait more
  -- often than they have asked; and the sums fit.
  abbrev pub HasMeasured : Threads → AccessType → Measured → ℕ → ℕ → Type 0
  HasMeasured threads a f n nb_requests =
      ((i : ℕ) → threads a i ≡ ok (f i))
      × ((i : ℕ) → (f i).1 ≤ nb_requests)
      × (time_of f 0 n < duration_mod)
      × (nb_requests * n < u32_mod)

  mean_of-ok :
      (S E : Type 0) (time n : ℕ) (s : S)
      → mean_of floats csv {S = S} {E = E} time n s ≡ (ok (if n == 0 then 0 else time / n), s)
  mean_of-ok S E time n s = ground arith

  joined-ok :
      (S E : Type 0) (threads : Threads) (a : AccessType) (f : Measured) (n nb_requests : ℕ) (s : S)
      → HasMeasured threads a f n nb_requests
      → join_all {S = S} {E = E} (threads a) 0 n 0 0 s ≡ (ok (time_of f 0 n, blocks_of f 0 n), s)
  joined-ok S E threads a f n nb_requests s (e, l, t, b) =
      let all =
        join_all-ok S E (threads a) f 0 n 0 0 s e (omega (arith, t))
          (omega (arith, b, blocks_of-le f nb_requests 0 n l)) in
      ground (arith, all)

  -- If all threads of a run have ended well, none was told to wait more often than it has asked, the
  -- times fit a Duration and the requests a u32, and the table takes both lines, then the run ends well,
  -- with the two lines that the sums of the measures give, and no sum has wrapped: the waits are at
  -- most the requests.
  pub bench_readers_writers-rows :
      (E : Type 0) (threads : Threads) (f g : Measured) (nb_readers nb_writers nb_requests : ℕ)
      (wtr wtr1 wtr2 : csv.Writer)
      → HasMeasured threads readers f nb_readers nb_requests
      → HasMeasured threads writers g nb_writers nb_requests
      → csv.write_record (row_of readers f nb_readers nb_readers nb_writers nb_requests) wtr
        ≡ (some tt, wtr1)
      → csv.write_record (row_of writers g nb_writers nb_readers nb_writers nb_requests) wtr1
        ≡ (some tt, wtr2)
      → (bench_readers_writers floats csv {E = E} threads nb_readers nb_writers nb_requests wtr
          ≡ (ok tt, wtr2))
        × (blocks_of f 0 nb_readers ≤ nb_requests * nb_readers)
        × (blocks_of g 0 nb_writers ≤ nb_requests * nb_writers)
  unfolding bench_readers_writers
  bench_readers_writers-rows E threads f g nb_readers nb_writers nb_requests wtr wtr1 wtr2 hr hw one
        two =
      (
        ground (
          arith,
          joined-ok csv.Writer E threads readers f nb_readers nb_requests wtr hr,
          joined-ok csv.Writer E threads writers g nb_writers nb_requests wtr hw,
          fits (nb_requests * nb_readers) hr.3,
          fits (nb_requests * nb_writers) hw.3,
        ),
        blocks_of-le f nb_requests 0 nb_readers hr.1,
        blocks_of-le g nb_requests 0 nb_writers hw.1,
      )
