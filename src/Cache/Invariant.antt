-- ===== src/Cache/Invariant.antt =====
-- What the sets and the counters of a size class keep.
use snmalloc.Base.{ℕ, ◌+◌, ◌^◌, ◌≤◌, ◌<◌, ◌≡◌, ◌⊎◌, arith, Bool, true, ◌==◌, if◌then◌else◌}
use snmalloc.Base.{List, [], ◌∷◌, All, sum, length}
use snmalloc.SlabMeta.{Slab}
use snmalloc.SlabMeta.Counters.{IsAwake, IsAsleep}
use snmalloc.Cache.{Cache}

-- A large allocation waits for one deallocation.
pub record IsLarge (m : Slab) : Type 0 where
  pub of_large : m.large ≡ true
  pub waits : m.needed ≡ 1

abbrev pub IsLaden : Bool → ℕ → Slab → Type 0
IsLaden strict sc m = IsAsleep strict sc m ⊎ IsLarge m

-- 1 for a slab of which no object is out.
unfoldable pub unused_count : Slab → ℕ
unused_count m = if m.needed == 0 then 1 else 0

-- The sets hold slabs in the right states, `length` and `unused` count the available slabs and
-- those that are unused, and there are fewer slabs than a `uint16_t` counts.
pub record IsCache (strict : Bool) (sc : ℕ) (c : Cache) : Type 0 where
  pub awake : All (IsAwake strict sc) c.available
  pub aside : All (IsLaden strict sc) c.laden
  pub length_eq : c.length ≡ length c.available
  pub unused_eq : c.unused ≡ sum unused_count c.available
  pub room : length c.available + length c.laden < 2 ^ 16

pub sum-unused_count-le : (xs : List Slab) → sum unused_count xs ≤ length xs
unfolding sum unused_count
sum-unused_count-le [] = omega arith
sum-unused_count-le (m ∷ ms) = ground (arith, sum-unused_count-le ms)

pub unused_count-le : (m : Slab) → unused_count m ≤ 1
unfolding unused_count
unused_count-le m = ground arith
