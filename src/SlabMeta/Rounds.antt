-- ===== src/SlabMeta/Rounds.antt =====
-- Single deallocations and single rounds of the batch loop.
use snmalloc.Base.{
  ℕ, zero, suc, ◌+◌, ◌-◌, ◌%◌, ◌^◌, ◌≤◌, ◌<◌, ◌≡◌, refl, ap, ◌∙◌, arith, Bool, true, false,
}
use snmalloc.Base.{ltb, ◌==◌}
use snmalloc.SlabMeta.{Slab, step, return_object, wake, return_objects}
use snmalloc.SlabMeta.{return_each}

module _ (strict : Bool) (sc : ℕ) where
  -- Fewer than the slab waits for.
  pub each_below :
      (n : ℕ) (m : Slab)
      → n < m.needed
      → m.needed < 2 ^ 16
      → return_each strict sc n m ≡ record m { needed = m.needed - n }
  unfolding return_each return_object
  each_below zero m lt fits = ap (λ (t : ℕ). record m { needed = t }) (omega arith)
  each_below (suc n) m lt fits =
      let less : (m.needed + 2 ^ 16 - 1) % 2 ^ 16 ≡ m.needed - 1 = omega arith in
      let test : (m.needed - 1 == 0) ≡ false = ground arith in
      let shape : m.needed - 1 - n ≡ m.needed - suc n = omega arith in
      rw (less, test)
        (each_below n (record m { needed = m.needed - 1 }) (omega arith) (omega arith)
          ∙ ap (λ (t : ℕ). record m { needed = t }) shape)

  each_last :
      (n : ℕ) (m : Slab)
      → m.needed ≡ 1
      → return_each strict sc (suc n) m
        ≡ return_each strict sc n (wake strict sc (record m { needed = 0 }))
  unfolding return_each return_object
  each_last n m e = let less : (m.needed + 2 ^ 16 - 1) % 2 ^ 16 ≡ 0 = omega arith in rw less refl

  each_more :
      (n v : ℕ) (m : Slab)
      → m.needed ≡ suc (suc v)
      → suc v < 2 ^ 16 - 1
      → return_each strict sc (suc n) m ≡ return_each strict sc n (record m { needed = suc v })
  unfolding return_each return_object
  each_more n v m e fits =
      let less : (m.needed + 2 ^ 16 - 1) % 2 ^ 16 ≡ suc v = omega arith in
      let test : (suc v == 0) ≡ false = ground arith in rw (less, test) refl

  -- As many, and then some.
  each_past :
      (k n : ℕ) (m : Slab)
      → m.needed ≡ suc n
      → n < 2 ^ 16 - 1
      → return_each strict sc (suc (n + k)) m
        ≡ return_each strict sc k (wake strict sc (record m { needed = 0 }))
  each_past k zero m e fits = let none : 0 + k ≡ k = omega arith in rw none (each_last k m e)
  each_past k (suc n) m e fits =
      let shape : suc n + k ≡ suc (n + k) = omega arith in
      each_more (suc n + k) n m e fits
      ∙ rw shape (each_past k n (record m { needed = suc n }) refl (omega arith))

  -- One round of the loop, when it stops and when it goes on.
  module _ (fuel n : ℕ) (m : Slab) (some : 0 < n) (fits : m.needed < 2 ^ 16) where
    pub batch_below :
        (first : Bool)
        → n < m.needed
        → return_objects strict sc (suc fuel) first (record { batch = n; meta = m })
          ≡ record m { needed = m.needed - n }
    unfolding return_objects step
    batch_below true lt =
        let below : ltb n m.needed ≡ true = ground arith in
        let less : (m.needed + 2 ^ 16 - n) % 2 ^ 16 ≡ m.needed - n = omega arith in
        rw (below, less) refl
    batch_below false lt =
        let some_left : (n == 0) ≡ false = ground arith in
        let below : ltb n m.needed ≡ true = ground arith in
        let less : (m.needed + 2 ^ 16 - n) % 2 ^ 16 ≡ m.needed - n = omega arith in
        rw (some_left, below, less) refl

    batch_past :
        (first : Bool)
        → m.needed ≤ n
        → n < 2 ^ 16
        → return_objects strict sc (suc fuel) first (record { batch = n; meta = m })
          ≡ return_objects strict sc fuel false
              (record { batch = n - m.needed; meta = wake strict sc (record m { needed = 0 }) })
    unfolding return_objects step
    batch_past true le lt =
        let below : ltb n m.needed ≡ false = ground arith in
        let less : (n + 2 ^ 16 - m.needed) % 2 ^ 16 ≡ n - m.needed = omega arith in
        rw (below, less) refl
    batch_past false le lt =
        let some_left : (n == 0) ≡ false = ground arith in
        let below : ltb n m.needed ≡ false = ground arith in
        let less : (n + 2 ^ 16 - m.needed) % 2 ^ 16 ≡ n - m.needed = omega arith in
        rw (some_left, below, less) refl

  pub batch_none :
      (fuel : ℕ) (m : Slab)
      → return_objects strict sc (suc fuel) false (record { batch = 0; meta = m }) ≡ m
  unfolding return_objects step
  batch_none fuel m = refl

  -- The counter of a slab comes down to 0 with `k` more to return.
  pub batch_each :
      (fuel k : ℕ) (first : Bool) (m : Slab)
      → 0 < m.needed
      → m.needed + k < 2 ^ 16
      → let woken = wake strict sc (record m { needed = 0 }) in
        (return_objects strict sc (suc fuel) first (record { batch = m.needed + k; meta = m })
          ≡ return_objects strict sc fuel false (record { batch = k; meta = woken }))
        × (return_each strict sc (m.needed + k) m ≡ return_each strict sc k woken)
  batch_each fuel k first m some fits =
      let left : m.needed + k - m.needed ≡ k = omega arith in
      let count : suc (m.needed - 1 + k) ≡ m.needed + k = omega arith in
      let each = each_past k (m.needed - 1) m (omega arith) (omega arith) in
      let past =
        batch_past fuel (m.needed + k) m (omega arith) (omega arith) first (omega arith) fits in
      (rw left at past, rw count at each)
