-- ===== src/Subscribers/Tests.antt =====
-- Two subscribers in four slots.
use snmalloc.Base.{ℕ, ◌+◌, ◌≡◌, ◌⊎◌, refl, arith, List, [], ◌∷◌}
use snmalloc.Subscribers.{register_handler, unregister_handler, broadcast, ok}
use snmalloc.Subscribers.{not_registered, exchange_first}
use snmalloc.Subscribers.Laws.{count_of, unregister_handler_lem, one_if}

abbrev two_handlers : List ℕ
two_handlers = 64 ∷ 0 ∷ 128 ∷ 0 ∷ []

registered : broadcast (register_handler 192 two_handlers).0 ≡ 64 ∷ 192 ∷ 128 ∷ []
unfolding register_handler broadcast exchange_first
registered = refl

unregister_handler_lem_example :
    let r = unregister_handler 128 two_handlers in
    ((r.1 ≡ ok)
      × (count_of 64 (broadcast r.0) + one_if 128 64 ≡ count_of 64 (broadcast two_handlers)))
    ⊎ ((r.1 ≡ not_registered) × (r.0 ≡ two_handlers) × (count_of 128 (broadcast two_handlers) ≡ 0))
unregister_handler_lem_example =
    unregister_handler_lem 128 64 two_handlers (omega arith) (omega arith)
