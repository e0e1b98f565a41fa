-- ===== src/Ticker/Tests.antt =====
-- The clock of the tests counts how often it is read, and runs 20 ms per reading.
use snmalloc.Base.{ℕ, suc, ◌+◌, ◌*◌, ◌≡◌, refl, arith}
use snmalloc.Bits.{sub_word}
use snmalloc.Ticker.{Ticker, fresh, check_tick_slow, check_tick, check_ticks}
use snmalloc.Ticker.Laws.{next_query, late_query_stops}

abbrev counting : ℕ → ℕ × ℕ
counting s = (20 * (s + 1), s + 1)

-- The first call asks at once; after the second the estimate is 5 calls.
two_calls :
    check_ticks counting 2 (fresh, 0)
    ≡ (record { count_down = 5; counted = 5; last_query_ms = 40 }, 2)
unfolding check_ticks check_tick check_tick_slow
two_calls = refl

abbrev five_left : Ticker
five_left = record { count_down = 5; counted = 5; last_query_ms = 40 }

next_query_example :
    ((check_ticks counting 3 (five_left, 2)).1 ≡ 2)
    × (check_ticks counting (suc (sub_word 5 1)) (five_left, 2)
        ≡ (check_tick_slow 60 (record five_left { count_down = 0 }), 3))
next_query_example = next_query counting 3 five_left 2 (omega arith) (omega arith)

late_query_stops_example : (check_ticks counting 1000 (check_tick_slow 500 five_left, 7)).1 ≡ 7
late_query_stops_example =
    late_query_stops counting 1000 500 five_left 7 (λ h. absurd (omega arith)) (omega arith)
      (omega arith) (omega arith) (omega arith)
