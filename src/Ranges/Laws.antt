-- ===== src/Ranges/Laws.antt =====
-- What a range promises, byte by byte, whatever it does with the memory in between.
use snmalloc.Base.{ℕ, ◌+◌, ◌-◌, ◌%◌, ◌^◌, ◌≤◌, ◌<◌, ◌≡◌, ◌≢◌, refl, inl, inr, arith, ltb}
use snmalloc.Base.{List, if◌then◌else◌, pow_pos, pow_mono, lt-or-le}
use native.Mathlib.Nat.{le_of_dvd, dvd_of_mod-eq-zero, mod-eq-zero_of_dvd, dvd_trans}
use snmalloc.Bits.ExpMant.Aligned.{pow_dvd}
use snmalloc.Bits.{word}
use snmalloc.Buddy.{null}
use snmalloc.Buddy.Address.{IsBlock}
use snmalloc.Buddy.Measure.{covers, covers_self}
use snmalloc.Blocks.Tiling.{IsTiled, tiled_nil, tiled_cons}
use snmalloc.Ranges.{Range}

-- 1 for the bytes that a range may have: none of the first `2 ^ floor`, and not the last of the
-- address space.
unfoldable pub room : (floor x : ℕ) → ℕ
room floor x = if ltb x (2 ^ floor) then 0 else if ltb (x + 1) word then 1 else 0

pub room_le : (floor x : ℕ) → room floor x ≤ 1
unfolding room
room_le floor x = ground arith

module _ {S : Type 0} (floor : ℕ) (owned : S → ℕ → ℕ) where
  -- Memory that may be given to the range: none of it is the range's.
  pub record MayTake (bits base : ℕ) (s : S) : Type 0 where
    pub some_base : base ≢ null
    pub aligned : base % 2 ^ bits ≡ 0
    pub new : (x : ℕ) → owned s x + covers x bits base ≤ room floor x

  module _ (IsRange : S → Type 0) where
    -- After an allocation from the state `s`: an aligned block that was the range's, or null.
    pub record IsAllocated (bits : ℕ) (s : S) (base : ℕ) (left : S) : Type 0 where
      pub left-IsRange : IsRange left
      pub base_aligned : base % 2 ^ bits ≡ 0
      pub shared : (x : ℕ) → owned left x + covers x bits base ≡ owned s x

    pub record IsTaken (bits base : ℕ) (s left : S) : Type 0 where
      pub taken-IsRange : IsRange left
      pub joined : (x : ℕ) → owned left x ≡ owned s x + covers x bits base

    -- Of sizes that are powers of two from `2 ^ min_bits` on. `owned` says how often a byte is in
    -- the range.
    pub record RangeLaws (range : Range S) (min_bits : ℕ) : Type 0 where
      pub owned_le : (s : S) (x : ℕ) → IsRange s → owned s x ≤ room floor x
      pub alloc_range_lem :
          (bits : ℕ) (s : S)
          → min_bits ≤ bits
          → bits < 63
          → IsRange s
          → let r = range.alloc_range (2 ^ bits) s in IsAllocated bits s (r.0) (r.1)
      pub dealloc_range_lem :
          (bits base : ℕ) (s : S)
          → min_bits ≤ bits
          → bits < 63
          → IsRange s
          → MayTake bits base s
          → IsTaken bits base s (range.dealloc_range base (2 ^ bits) s)

covers_last : (bits a : ℕ) → a ≢ null → covers (a + 2 ^ bits - 1) bits a ≡ 1
unfolding covers
covers_last bits a h = ground (arith, pow_pos bits, h)

-- A block within the room, as the buddy allocator sees it.
pub room_bounds :
    (floor bits base : ℕ)
    → base ≢ null
    → ((x : ℕ) → covers x bits base ≤ room floor x)
    → (2 ^ floor ≤ base) × (base + 2 ^ bits < word)
unfolding room
room_bounds floor bits base h le = (
  ground (arith, le base, covers_self bits base h),
  ground (arith, le (base + 2 ^ bits - 1), covers_last bits base h, pow_pos bits),
)

pub room-IsBlock :
    (floor limit bits base : ℕ)
    → limit ≤ floor
    → base ≢ null
    → base % 2 ^ bits ≡ 0
    → ((x : ℕ) → covers x bits base ≤ room floor x)
    → IsBlock limit bits base
unfolding IsBlock
room-IsBlock floor limit bits base small h aligned le =
    let bounds = room_bounds floor bits base h le in
    (aligned, inr (omega (arith, bounds.0, pow_mono limit floor small)), omega (arith, bounds.1))

-- 1 for the bytes from one address up to another.
unfoldable pub inside : (from to x : ℕ) → ℕ
inside from to x = if ltb x from then 0 else if ltb x to then 1 else 0

pub inside_none : (from x : ℕ) → inside from from x ≡ 0
unfolding inside
inside_none from x = ground arith

pub inside_parts :
    (from to k x : ℕ)
    → from ≢ null
    → from + 2 ^ k ≤ to
    → inside from to x ≡ covers x k from + inside (from + 2 ^ k) to x
unfolding inside covers
inside_parts from to k x h le = ground (arith, h, le, pow_pos k)

pub inside-covers : (a k x : ℕ) → a ≢ null → inside a (a + 2 ^ k) x ≡ covers x k a
unfolding inside covers
inside-covers a k x h = ground (arith, h)

pub inside_split :
    (from mid to x : ℕ)
    → from ≤ mid
    → mid ≤ to
    → inside from to x ≡ inside from mid x + inside mid to x
unfolding inside
inside_split from mid to x h k = ground arith

-- After the bytes from one address up to another were added.
pub record AddsBetween {S : Type 0} (owned : S → ℕ → ℕ) (IsRange : S → Type 0) (from to : ℕ)
    (s left : S) : Type 0 where
  pub added-IsRange : IsRange left
  pub added_between : (x : ℕ) → owned left x ≡ owned s x + inside from to x

pub IsTiled-le : {m from to : ℕ} {blocks : List (ℕ × ℕ)} → IsTiled m from to blocks → from ≤ to
IsTiled-le tiled_nil = omega arith
IsTiled-le (tiled_cons k least aligned rest) = omega (arith, IsTiled-le rest)

-- The first block of a range within the room is not at null, and is less than half of the word.
pub tile_bounds :
    (floor from to k : ℕ)
    → from % 2 ^ k ≡ 0
    → from + 2 ^ k ≤ to
    → ((x : ℕ) → inside from to x ≤ room floor x)
    → (from ≢ null) × (k < 63)
unfolding inside room
tile_bounds floor from to k aligned le may =
    let low : 2 ^ floor ≤ from = ground (arith, may from, pow_pos k) in
    let high : to < word = ground (arith, may (to - 1), pow_pos k) in
    let positive : 0 < from = omega (arith, low, pow_pos floor) in
    let whole : 2 ^ k ≤ from = le_of_dvd positive (dvd_of_mod-eq-zero (2 ^ k) aligned) in
    (
      λ e. absurd (omega arith),
      elim (lt-or-le k 63) [
        | inl less ↦ less
        | inr more ↦ absurd (omega (arith, pow_mono 63 k more))
      ],
    )

pub covers-null : (x bits a : ℕ) → a ≡ null → covers x bits a ≡ 0
unfolding covers
covers-null x bits a e = rw e refl

-- Alignment to a power of two is alignment to the smaller ones.
pub aligned_less : (k bits a : ℕ) → k ≤ bits → a % 2 ^ bits ≡ 0 → a % 2 ^ k ≡ 0
aligned_less k bits a le aligned =
    mod-eq-zero_of_dvd (2 ^ k)
      (dvd_trans (2 ^ k) (pow_dvd k bits le) (dvd_of_mod-eq-zero (2 ^ bits) aligned))
