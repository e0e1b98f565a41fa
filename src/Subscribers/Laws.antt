-- ===== src/Subscribers/Laws.antt =====
-- Registering and unregistering change the calls of one handler.
use snmalloc.Base.{ℕ, suc, ◌+◌, ◌<◌, ◌≡◌, ◌⊎◌, refl, ap, arith, true, false, ◌==◌, if◌then◌else◌}
use snmalloc.Base.{List, [], ◌∷◌, length, Bool-cases, inl, inr}
use snmalloc.Subscribers.{exchange_first, register_handler, unregister_handler, broadcast}
use snmalloc.Subscribers.{subscriber_count, ok, no_free_slot, not_registered}

-- How many times a handler is in a list.
unfoldable pub count_of : ℕ → List ℕ → ℕ
count_of h [] = 0
count_of h (x ∷ xs) = let n = count_of h xs in if x == h then n + 1 else n

abbrev pub one_if : ℕ → ℕ → ℕ
one_if a b = if a == b then 1 else 0

exchange_first_lem :
    (e d : ℕ) (slots : List ℕ)
    → let r = exchange_first e d slots in
      ((r.1 ≡ true)
        × (length r.0 ≡ length slots)
        × ((h : ℕ) → count_of h r.0 + one_if e h ≡ count_of h slots + one_if d h))
      ⊎ ((r.1 ≡ false) × (r.0 ≡ slots) × (count_of e slots ≡ 0))
unfolding exchange_first count_of
exchange_first_lem e d [] = inr (refl, refl, refl)
exchange_first_lem e d (s ∷ slots) = elim (Bool-cases (s == e)) [
  | inl same ↦
      let eq : s ≡ e = ground (arith, same) in rw same (inl (refl, refl, λ h. ground (arith, eq)))
  | inr other ↦ elim (exchange_first_lem e d slots) [
    | inl found ↦ rw other (inl (found.0, ap suc found.1, λ h. ground (arith, found.2 h)))
    | inr none_found ↦ rw (other, none_found.0, none_found.1) (inr (refl, refl, none_found.2))
  ]
]

broadcast-count_of :
    (h : ℕ) (slots : List ℕ) → 0 < h → count_of h (broadcast slots) ≡ count_of h slots
unfolding broadcast count_of
broadcast-count_of h [] pos = refl
broadcast-count_of h (s ∷ slots) pos =
    let rest = broadcast-count_of h slots pos in
    elim (Bool-cases (s == 0)) [
      | inl e ↦ rw e (ground (arith, rest, e))
      | inr e ↦ rw e (ground (arith, rest))
    ]

subscriber_count-full : (slots : List ℕ) → subscriber_count slots + count_of 0 slots ≡ length slots
unfolding subscriber_count count_of
subscriber_count-full [] = refl
subscriber_count-full (s ∷ slots) = ground (arith, subscriber_count-full slots)

module _ (cb h : ℕ) (slots : List ℕ) (some_cb : 0 < cb) (some_h : 0 < h) where
  -- After a handler is registered a broadcast calls it once more and all others as before; or there
  -- is no free slot, nothing changes and every slot has a subscriber.
  register_handler_lem :
      let r = register_handler cb slots in
      ((r.1 ≡ ok) × (count_of h (broadcast r.0) ≡ count_of h (broadcast slots) + one_if cb h))
      ⊎ ((r.1 ≡ no_free_slot) × (r.0 ≡ slots) × (subscriber_count slots ≡ length slots))
  unfolding register_handler
  register_handler_lem =
      let test : (cb == 0) ≡ false = ground arith in
      let before = broadcast-count_of h slots some_h in
      let after = broadcast-count_of h (exchange_first 0 cb slots).0 some_h in
      elim (exchange_first_lem 0 cb slots) [
        | inl found ↦ rw (test, found.0) (inl (refl, ground (arith, before, after, found.2 h)))
        | inr none_found ↦
            rw (test, none_found.0, none_found.1)
              (inr (refl, refl, omega (arith, none_found.2, subscriber_count-full slots)))
      ]

  -- After a handler is unregistered a broadcast calls it once less and all others as before; or it
  -- was not called at all, and nothing changes.
  pub unregister_handler_lem :
      let r = unregister_handler cb slots in
      ((r.1 ≡ ok) × (count_of h (broadcast r.0) + one_if cb h ≡ count_of h (broadcast slots)))
      ⊎ ((r.1 ≡ not_registered) × (r.0 ≡ slots) × (count_of cb (broadcast slots) ≡ 0))
  unfolding unregister_handler
  unregister_handler_lem =
      let test : (cb == 0) ≡ false = ground arith in
      let before = broadcast-count_of h slots some_h in
      let after = broadcast-count_of h (exchange_first cb 0 slots).0 some_h in
      elim (exchange_first_lem cb 0 slots) [
        | inl found ↦ rw (test, found.0) (inl (refl, ground (arith, before, after, found.2 h)))
        | inr none_found ↦
            rw (test, none_found.0, none_found.1)
              (inr (refl, refl, omega (arith, none_found.2, broadcast-count_of cb slots some_cb)))
      ]

-- The number of subscribers is the number of calls of a broadcast.
pub length-broadcast : (slots : List ℕ) → length (broadcast slots) ≡ subscriber_count slots
unfolding broadcast subscriber_count
length-broadcast [] = refl
length-broadcast (s ∷ slots) = ground (arith, length-broadcast slots)
