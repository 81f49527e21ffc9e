-- ===== src/ClientBinary/Threads/Turns.antt =====
-- The two threads of bin/client.rs in rounds, a step of each in turn: where they come to rest.
use soros.Base.{ℕ, zero, suc, ◌+◌, ◌≤◌, ◌<◌, ◌≡◌, refl, ◌⊎◌, inl, inr, arith, subst, sym, ap}
use soros.ClientBinary.Threads.{
  Registry, System, Reach, of_writer, of_reader, next, writer_step, reader_step,
}
use soros.ClientBinary.Threads.Settle.{
  writer_place, reader_place, writer_place-bound, reader_place-bound, WriterStops, ReaderStops,
  writer_turn, reader_turn,
}

module _ (registry : Registry) where
  abbrev pub S : Type 0
  S = System registry

  -- A step of the first thread, and then one of the second.
  abbrev pub round : S → S
  round s = let t = writer_step registry s.writer s in reader_step registry t.reader t

  unfoldable pub rounds : ℕ → S → S
  rounds zero s = s
  rounds (suc n) s = rounds n (round s)

  abbrev places : S → ℕ
  places s = writer_place s.writer + reader_place s.reader

  places-bound : (s : S) → places s ≤ 14
  places-bound s = omega (arith, writer_place-bound s.writer, reader_place-bound s.reader)

  -- The second thread's turn, after the first has not moved.
  reader-round :
      (s : S)
      → WriterStops registry s
      → (WriterStops registry s × ReaderStops registry s × (reader_step registry s.reader s ≡ s))
        ⊎ (places s < places (reader_step registry s.reader s))
  reader-round s stops = elim (reader_turn registry s.reader s refl) [
    | inl (stops', e) ↦ inl (stops, stops', e)
    | inr (further, e) ↦ inr (omega (arith, further, ap writer_place e))
  ]

  abbrev pub Rests : S → Type 0
  Rests s = WriterStops registry s × ReaderStops registry s × (round s ≡ s)

  places-round : (s : S) → Rests s ⊎ (places s < places (round s))
  places-round s =
      let t = writer_step registry s.writer s in
      elim (writer_turn registry s.writer s refl) [
        | inl (stops, e) ↦
            subst
              (λ u.
                (WriterStops registry s
                  × ReaderStops registry s
                  × (reader_step registry u.reader u ≡ s))
                ⊎ (places s < places (reader_step registry u.reader u)))
              (sym e) (reader-round s stops)
        | inr (further, e) ↦ elim (reader_turn registry t.reader t refl) [
          | inl (stops, e') ↦ inr (omega (arith, further, ap reader_place e, ap places e'))
          | inr (further', e') ↦
              inr (omega (arith, further, further', ap reader_place e, ap writer_place e'))
        ]
      ]

  rounds-rest : (n : ℕ) (s : S) → Rests s → Rests (rounds n s)
  unfolding rounds
  rounds-rest zero s h = h
  rounds-rest (suc n) s h = rounds-rest n (round s) (subst Rests (sym h.2) h)

  -- As many rounds as there are places left, whatever the registry does.
  pub rounds-Rests : (n : ℕ) (s : S) → 14 ≤ n + places s → Rests (rounds n s)
  unfolding rounds
  rounds-Rests zero s h = elim (places-round s) [
    | inl rests ↦ rests
    | inr further ↦ absurd (omega (arith, h, further, places-bound (round s)))
  ]
  rounds-Rests (suc n) s h = elim (places-round s) [
    | inl rests ↦ rounds-rest (suc n) s rests
    | inr further ↦ rounds-Rests n (round s) (omega (arith, h, further))
  ]

  pub rounds-Reach : (n : ℕ) {s t : S} → Reach registry s t → Reach registry s (rounds n t)
  unfolding rounds
  rounds-Reach zero r = r
  rounds-Reach (suc n) {t} r = rounds-Reach n (next (next r (of_writer refl)) (of_reader refl))
