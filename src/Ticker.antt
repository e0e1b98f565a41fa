-- ===== src/Ticker.antt =====
-- src/snmalloc/mem/ticker.h: `Ticker`, which asks the platform for the time every so many calls, on
-- a platform with a clock. The clock's reading, which may change its state, is an argument.
pub mod Laws
mod Tests
use snmalloc.Base.{ℕ, zero, suc, ◌+◌, ◌*◌, ◌/◌, ◌%◌, ◌==◌, if◌then◌else◌}
use snmalloc.Bits.{word, sub_word}

pub record Ticker : Type 0 where
  pub count_down : ℕ
  pub counted : ℕ
  pub last_query_ms : ℕ

abbrev pub fresh : Ticker
fresh = record { count_down = 1; counted = 1; last_query_ms = 0 }

abbrev pub deadline_in_ms : ℕ
deadline_in_ms = 50

-- The slow path, at the time that the clock gave.
unfoldable pub check_tick_slow : (now_ms : ℕ) → Ticker → Ticker
check_tick_slow now_ms t =
    let duration_ms = sub_word now_ms t.last_query_ms in
    let new_deadline_in_ticks = (1 + t.counted) * deadline_in_ms % word / duration_ms in
    if t.last_query_ms == 0
    then record { count_down = 1; counted = 1; last_query_ms = now_ms }
    else if duration_ms == 0
    then record { count_down = t.counted; counted = t.counted * 2 % word; last_query_ms = now_ms }
    else record {
      count_down = new_deadline_in_ticks;
      counted = new_deadline_in_ticks;
      last_query_ms = now_ms;
    }

module _ {S : Type 0} (time_in_ms : S → ℕ × S) where
  unfoldable pub check_tick : Ticker × S → Ticker × S
  check_tick (t, s) =
      let left = sub_word t.count_down 1 in
      let now = time_in_ms s in
      let t' : Ticker = record t { count_down = left } in
      if left == 0 then (check_tick_slow (now.0) t', now.1) else (t', s)

  -- So many calls.
  unfoldable pub check_ticks : ℕ → Ticker × S → Ticker × S
  check_ticks zero ts = ts
  check_ticks (suc n) ts = check_tick (check_ticks n ts)
