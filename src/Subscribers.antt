-- ===== src/Subscribers.antt =====
-- src/snmalloc/profile/allocation_sample_list.h: `AllocationSampleList`, the fixed array of
-- handlers of sampled allocations, with one call running at a time. A handler is the address of
-- its function; an empty slot holds 0.
pub mod Laws
mod Tests
use snmalloc.Base.{
  ℕ, zero, suc, ◌+◌, Bool, true, false, ◌==◌, if◌then◌else◌, not, List, [], ◌∷◌, replicate, map,
}

abbrev pub max_subscribers : ℕ
max_subscribers = 4

-- The result codes; the source gives the two failures the same number.
pub data Code : Type 0 where
  ok no_free_slot not_registered : Code

-- The loop of compare-and-exchange: the first slot that holds `expected` takes `desired`. The
-- result says whether there is one.
unfoldable pub exchange_first : (expected desired : ℕ) → List ℕ → List ℕ × Bool
exchange_first expected desired [] = ([], false)
exchange_first expected desired (s ∷ slots) =
    let rest = exchange_first expected desired slots in
    if s == expected then (desired ∷ slots, true) else (s ∷ rest.0, rest.1)

unfoldable pub register_handler : ℕ → List ℕ → List ℕ × Code
register_handler cb slots =
    let r = exchange_first 0 cb slots in
    if cb == 0 then (slots, no_free_slot) else (r.0, if r.1 then ok else no_free_slot)

unfoldable pub unregister_handler : ℕ → List ℕ → List ℕ × Code
unregister_handler cb slots =
    let r = exchange_first cb 0 slots in
    if cb == 0 then (slots, not_registered) else (r.0, if r.1 then ok else not_registered)

-- The handlers that are called, in order.
unfoldable pub broadcast : List ℕ → List ℕ
broadcast [] = []
broadcast (cb ∷ slots) = let rest = broadcast slots in if not (cb == 0) then cb ∷ rest else rest

unfoldable pub subscriber_count : List ℕ → ℕ
subscriber_count [] = 0
subscriber_count (cb ∷ slots) = let n = subscriber_count slots in if not (cb == 0) then n + 1 else n

unfoldable pub clear_all : List ℕ → List ℕ
clear_all slots = map (λ s. 0) slots
