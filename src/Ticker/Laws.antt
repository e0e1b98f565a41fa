-- ===== src/Ticker/Laws.antt =====
-- src/snmalloc/mem/ticker.h: when the clock is read.
use snmalloc.Base.{
  ℕ, zero, suc, ◌+◌, ◌-◌, ◌*◌, ◌/◌, ◌%◌, ◌≤◌, ◌<◌, ◌≡◌, ◌≢◌, refl, ap, arith, false,
}
use snmalloc.Base.{◌==◌}
use snmalloc.Bits.{word, sub_word}
use snmalloc.Ticker.{Ticker, deadline_in_ms, check_tick_slow, check_tick, check_ticks}
use native.Mathlib.Nat.{div-eq_of_lt}

module _ {S : Type 0} (time_in_ms : S → ℕ × S) where
  -- While the counter has not come down to 1 the state of the clock stays as it was.
  quiet :
      (n : ℕ) (t : Ticker) (s : S)
      → t.count_down < word
      → n ≤ sub_word t.count_down 1
      → check_ticks time_in_ms n (t, s) ≡ (record t { count_down = sub_word t.count_down n }, s)
  unfolding check_ticks check_tick
  quiet zero t s fits le =
      let same : sub_word t.count_down 0 ≡ t.count_down = omega arith in rw same refl
  quiet (suc n) t s fits le =
      let step : sub_word (sub_word t.count_down n) 1 ≡ sub_word t.count_down (suc n) =
        omega arith in
      let more : (sub_word t.count_down (suc n) == 0) ≡ false = ground arith in
      rw (quiet n t s fits (omega arith), step, more) refl

  -- The calls until the next reading of the clock, counted modulo 2 ^ 64: of a ticker whose 64-bit
  -- counter is `c`, the next `c - 1` calls leave the clock alone, and the one after them reads it and
  -- takes the slow path with what it gives.
  pub next_query :
      (n : ℕ) (t : Ticker) (s : S)
      → t.count_down < word
      → n ≤ sub_word t.count_down 1
      → ((check_ticks time_in_ms n (t, s)).1 ≡ s)
        × (check_ticks time_in_ms (suc (sub_word t.count_down 1)) (t, s)
            ≡ (check_tick_slow ((time_in_ms s).0) (record t { count_down = 0 }), (time_in_ms s).1))
  unfolding check_ticks check_tick
  next_query n t s fits le =
      (ap (λ (p : Ticker × S). p.1) (quiet n t s fits le), rw (waited, down) refl)
    where
      waited :
          check_ticks time_in_ms (sub_word t.count_down 1) (t, s)
          ≡ (record t { count_down = sub_word t.count_down (sub_word t.count_down 1) }, s)
      waited = quiet (sub_word t.count_down 1) t s fits (omega arith)

      down : sub_word (sub_word t.count_down (sub_word t.count_down 1)) 1 ≡ 0
      down = omega arith

  -- When a reading of a running ticker, no earlier than the last one, comes so late that less than one
  -- call fits into 50 ms at the rate of the calls since the last one, that is, after more than `50 * (1
  -- + counted)` ms, none of the next `2 ^ 64 - 1` calls reads the clock.
  pub late_query_stops :
      (n now_ms : ℕ) (t : Ticker) (s : S)
      → t.last_query_ms ≢ 0
      → t.last_query_ms ≤ now_ms
      → now_ms < word
      → (1 + t.counted) * deadline_in_ms < now_ms - t.last_query_ms
      → n ≤ word - 1
      → (check_ticks time_in_ms n (check_tick_slow now_ms t, s)).1 ≡ s
  unfolding check_tick_slow
  late_query_stops n now_ms t s started later fits late le =
      let running : (t.last_query_ms == 0) ≡ false = ground (arith, started) in
      let gap : sub_word now_ms t.last_query_ms ≡ now_ms - t.last_query_ms = omega arith in
      let apart : (now_ms - t.last_query_ms == 0) ≡ false = ground arith in
      let none_left : (1 + t.counted) * deadline_in_ms % word / (now_ms - t.last_query_ms) ≡ 0 =
        div-eq_of_lt (omega (arith, late)) in
      rw (running, gap, apart, none_left)
        (ap (λ (p : Ticker × S). p.1) (quiet n _ s (omega arith) (omega arith)))
