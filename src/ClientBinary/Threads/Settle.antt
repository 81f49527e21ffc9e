-- ===== src/ClientBinary/Threads/Settle.antt =====
-- The two threads of bin/client.rs taking turns, and that each turn moves one of them on, or finds it
-- at its end or at something that only the other can bring.
use soros.Base.{
  Bool, true, false, not, String, ℕ, ◌≤◌, ◌<◌, ◌≡◌, refl, ◌⊎◌, inl, inr, arith, Bool-cases,
  Option-cases,
}
use soros.DataStore
use soros.AccessManager.Calls.{Call}
use soros.ClientBinary.Threads.{
  Registry, System, WriterAt, ReaderAt, Reply, reply_of, writer_step, reader_step, or_end,
  after_write, after_read, or_stop, data_key, writer_id, reader_id,
}

-- How far a thread has come.
abbrev pub writer_place : WriterAt → ℕ
writer_place WriterAt.started = 0
writer_place WriterAt.created = 1
writer_place WriterAt.stored = 2
writer_place WriterAt.recreated = 3
writer_place WriterAt.waiting = 4
writer_place WriterAt.granted = 5
writer_place WriterAt.written = 6
writer_place WriterAt.ended = 7
writer_place WriterAt.failed = 7

abbrev pub reader_place : ReaderAt → ℕ
reader_place ReaderAt.started = 0
reader_place ReaderAt.tried = 1
reader_place ReaderAt.waiting = 2
reader_place ReaderAt.granted = 3
reader_place (ReaderAt.received t) = 4
reader_place (ReaderAt.copied t) = 5
reader_place (ReaderAt.released t) = 6
reader_place ReaderAt.unanswered = 7
reader_place ReaderAt.ended = 7
reader_place ReaderAt.failed = 7

-- The first thread has ended or failed, or waits and has not been told.
abbrev pub writer_stops : WriterAt → Bool → Bool
writer_stops WriterAt.waiting told = not told
writer_stops WriterAt.ended told = true
writer_stops WriterAt.failed told = true
writer_stops other told = false

-- The second thread has ended or failed, waits and has not been told, or gets no answer to its read.
abbrev pub reader_stops : ReaderAt → Bool → Bool
reader_stops ReaderAt.waiting told = not told
reader_stops ReaderAt.unanswered told = true
reader_stops ReaderAt.ended told = true
reader_stops ReaderAt.failed told = true
reader_stops other told = false

or_end-place :
    (registry : Registry) (reply : Reply)
    → 0 < writer_place (or_end registry WriterAt.created reply)
or_end-place registry Reply.success = omega arith
or_end-place registry Reply.wait = omega arith
or_end-place registry Reply.failure = omega arith

after_write-place :
    (registry : Registry) (reply : Reply) → 3 < writer_place (after_write registry reply)
after_write-place registry Reply.success = omega arith
after_write-place registry Reply.wait = omega arith
after_write-place registry Reply.failure = omega arith

after_read-place :
    (registry : Registry) (reply : Reply) → 1 < reader_place (after_read registry reply)
after_read-place registry Reply.success = omega arith
after_read-place registry Reply.wait = omega arith
after_read-place registry Reply.failure = omega arith

or_stop-place :
    (registry : Registry) (t : String) (reply : Reply)
    → 5 < reader_place (or_stop registry (ReaderAt.released t) reply)
or_stop-place registry t Reply.success = omega arith
or_stop-place registry t Reply.wait = omega arith
or_stop-place registry t Reply.failure = omega arith

pub writer_place-bound : (w : WriterAt) → writer_place w ≤ 7
writer_place-bound WriterAt.started = omega arith
writer_place-bound WriterAt.created = omega arith
writer_place-bound WriterAt.stored = omega arith
writer_place-bound WriterAt.recreated = omega arith
writer_place-bound WriterAt.waiting = omega arith
writer_place-bound WriterAt.granted = omega arith
writer_place-bound WriterAt.written = omega arith
writer_place-bound WriterAt.ended = omega arith
writer_place-bound WriterAt.failed = omega arith

pub reader_place-bound : (at : ReaderAt) → reader_place at ≤ 7
reader_place-bound ReaderAt.started = omega arith
reader_place-bound ReaderAt.tried = omega arith
reader_place-bound ReaderAt.waiting = omega arith
reader_place-bound ReaderAt.granted = omega arith
reader_place-bound (ReaderAt.received t) = omega arith
reader_place-bound (ReaderAt.copied t) = omega arith
reader_place-bound (ReaderAt.released t) = omega arith
reader_place-bound ReaderAt.unanswered = omega arith
reader_place-bound ReaderAt.ended = omega arith
reader_place-bound ReaderAt.failed = omega arith

module _ (registry : Registry) where
  -- What stops a thread in this system.
  abbrev pub WriterStops : System registry → Type 0
  WriterStops s = writer_stops s.writer (registry.has_told writer_id s.state) ≡ true

  abbrev pub ReaderStops : System registry → Type 0
  ReaderStops s = reader_stops s.reader (registry.has_told reader_id s.state) ≡ true

  abbrev pub WriterTurn : WriterAt → System registry → Type 0
  WriterTurn w s =
      let t = writer_step registry w s in
      ((writer_stops w (registry.has_told writer_id s.state) ≡ true) × (t ≡ s))
      ⊎ ((writer_place w < writer_place t.writer) × (t.reader ≡ s.reader))

  pub writer_turn : (w : WriterAt) (s : System registry) → s.writer ≡ w → WriterTurn w s
  unfolding writer_step DataStore.create DataStore.write
  writer_turn WriterAt.started s e =
      let (reply, s') = registry.ask (Call.create writer_id data_key) s.state in
      inr (or_end-place registry (reply_of reply), refl)
  writer_turn WriterAt.created s e = inr (omega arith, refl)
  writer_turn WriterAt.stored s e = inr (omega arith, refl)
  writer_turn WriterAt.recreated s e =
      let (reply, s') = registry.ask (Call.write writer_id data_key) s.state in
      inr (after_write-place registry (reply_of reply), refl)
  writer_turn WriterAt.waiting s e = elim (Bool-cases (registry.has_told writer_id s.state)) [
    | inl b ↦ rw b (inr (omega arith, refl))
    | inr b ↦ rw b (inl (refl, refl))
  ]
  writer_turn WriterAt.granted s e = elim (Option-cases (s.store.data_map data_key)) [
    | inl b ↦ inr (ground (arith, b))
    | inr (text, b) ↦ inr (ground (arith, b))
  ]
  writer_turn WriterAt.written s e = inr (omega arith, refl)
  writer_turn WriterAt.ended s e = inl (refl, refl)
  writer_turn WriterAt.failed s e = inl (refl, refl)

  abbrev pub ReaderTurn : ReaderAt → System registry → Type 0
  ReaderTurn at s =
      let t = reader_step registry at s in
      ((reader_stops at (registry.has_told reader_id s.state) ≡ true) × (t ≡ s))
      ⊎ ((reader_place at < reader_place t.reader) × (t.writer ≡ s.writer))

  pub reader_turn : (at : ReaderAt) (s : System registry) → s.reader ≡ at → ReaderTurn at s
  unfolding reader_step DataStore.create DataStore.get
  reader_turn ReaderAt.started s e = inr (omega arith, refl)
  reader_turn ReaderAt.tried s e =
      let (reply, s') = registry.ask (Call.read reader_id data_key) s.state in
      inr (after_read-place registry (reply_of reply), refl)
  reader_turn ReaderAt.waiting s e = elim (Bool-cases (registry.has_told reader_id s.state)) [
    | inl b ↦ rw b (inr (omega arith, refl))
    | inr b ↦ rw b (inl (refl, refl))
  ]
  reader_turn ReaderAt.granted s e = elim (Option-cases (s.store.data_map data_key)) [
    | inl b ↦ inr (ground (arith, b))
    | inr (text, b) ↦ inr (ground (arith, b))
  ]
  reader_turn (ReaderAt.received t) s e = inr (omega arith, refl)
  reader_turn (ReaderAt.copied t) s e =
      let (reply, s') = registry.ask (Call.release reader_id data_key) s.state in
      inr (or_stop-place registry t (reply_of reply), refl)
  reader_turn (ReaderAt.released t) s e = inr (omega arith, refl)
  reader_turn ReaderAt.unanswered s e = inl (refl, refl)
  reader_turn ReaderAt.ended s e = inl (refl, refl)
  reader_turn ReaderAt.failed s e = inl (refl, refl)
