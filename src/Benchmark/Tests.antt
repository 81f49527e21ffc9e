-- ===== src/Benchmark/Tests.antt =====
-- The theorems of the benchmark at concrete clients and threads. The time is that of the answers that have
-- come.
use soros.Base.{
  none, ◌*◌, ◌/◌, Option, is_some, not, ℕ, zero, suc, ◌-◌, ◌≤◌, ◌≡◌, refl, List, [], ◌∷◌, some, ok,
  panic, Action, arith, length,
}
use soros.Protocol.{Bytes, to_vec, from_slice}
use soros.ProtocolClient.{
  ProtocolClientError, Client, registry_handle_response, registry_send_request, receive_message,
  fill, take_line, parse_line,
}
use soros.ProtocolClient.Requests.{
  registry_release, registry_read, registry_await_read, registry_expect_success,
}
use soros.ProtocolClient.Fixtures.{wires, serde, client, granted, held, waiting}
use soros.Benchmark.{readers, writers}
use soros.Benchmark.Report.{Floats, Row, Csv, Threads, bench_readers_writers}
use soros.Benchmark.Counts.{Measured, time_of, blocks_of, bench_readers_writers-rows}
use soros.Benchmark.Rounds.{
  finished, more, at_once, after_wait, TurnsOf, client_of, client_of-Turns,
}

abbrev now : List Bytes → ℕ
now w = 100 - length w

abbrev answers : List Bytes
answers = held ∷ granted ∷ waiting ∷ held ∷ granted ∷ []

abbrev create_client : Action (List Bytes) ProtocolClientError (Client wires serde)
create_client w = (ok (client []), w)

-- The first read is granted at once, the second after an answer to wait.
two_turns : TurnsOf wires serde now readers 1 2 1 5 (client answers) (client [])
unfolding registry_read registry_await_read registry_release registry_handle_response
    registry_send_request registry_expect_success receive_message fill take_line parse_line to_vec
    from_slice
two_turns =
    more {n = 1} {b = 0} {b' = 1} {t = 3} {c1 = client (waiting ∷ held ∷ granted ∷ [])}
      (at_once _ _ _ refl refl refl refl)
      (more {n = 0} {b = 1} {b' = 0} {t = 0} {c1 = client []}
        (after_wait _ _ _ _ _ refl refl refl refl refl) finished)

client_of-Turns_example :
    (client_of wires serde now readers create_client 1 2 answers ≡ (ok (2, 1), []))
    × (1 ≤ 2)
    × (client_of wires serde now readers create_client 1 0 answers ≡ (panic, answers))
client_of-Turns_example =
    client_of-Turns wires serde now readers create_client 1 1 1 5 answers answers (client [])
      (client []) refl two_turns (omega arith) (omega arith)

-- Numbers instead of floats: a ratio is given in thousandths, and by 0 it is none.
abbrev thousandths : ℕ → ℕ → Option ℕ
thousandths a zero = none
thousandths a (suc n) = some (1000 * a / suc n)

abbrev floats : Floats
floats = record {
  F32 = Option ℕ;
  from_u32 = some;
  nought = some 0;
  divide =
      λ x y. elim x [ none ↦ none | some a ↦ elim y [ none ↦ none | some b ↦ thousandths a b ] ];
  is_nan = λ x. not (is_some x);
}

abbrev csv : Csv (Option ℕ)
csv = record {
  Writer = List (Row (Option ℕ));
  from_file = some [];
  write_titles = λ wtr. (some tt, wtr);
  write_record = λ row wtr. (some tt, row ∷ wtr);
}

abbrev reading : Measured
reading i = (4000, 1)

abbrev writing : Measured
writing i = (9000, 0)

abbrev threads : Threads
threads readers i = ok (reading i)
threads writers i = ok (writing i)

-- Three readers of two requests each, of which one waits, and no writer.
bench_readers_writers-rows_example :
    (bench_readers_writers floats csv {E = Unit {0}} threads 3 0 2 [] ≡ (
      ok tt,
      record {
        nb_readers = 3;
        nb_writers = 0;
        access_type = writers;
        access_time = 0;
        block_ratio = some 0;
      }
          ∷ record {
            nb_readers = 3;
            nb_writers = 0;
            access_type = readers;
            access_time = 4;
            block_ratio = some 500;
          }
          ∷ [],
    ))
    × (3 ≤ 2 * 3)
    × (0 ≤ 2 * 0)
unfolding time_of blocks_of
bench_readers_writers-rows_example =
    bench_readers_writers-rows floats csv (Unit {0}) threads reading writing 3 0 2 [] _ _
      ((λ i. refl), (λ i. omega arith), omega arith, omega arith)
      ((λ i. refl), (λ i. omega arith), omega arith, omega arith) refl refl
