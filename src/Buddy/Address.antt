-- ===== src/Buddy/Address.antt =====
-- src/snmalloc/backend_helpers/largebuddyrange.h: the addresses of a block, of its buddy and of
-- the block the two make.
use snmalloc.Base.{ℕ, zero, suc, ◌+◌, ◌-◌, ◌*◌, ◌/◌, ◌%◌, ◌^◌, ◌≤◌, ◌<◌, bit_xor, ap, ◌∙◌}
use snmalloc.Base.{◌≡◌, ◌≢◌, ◌⊎◌, inl, inr, refl, arith, bit_xor_step}
use snmalloc.Base.{pow_pos, pow_suc, pow_split, div_pow_lt, mul-pow_suc, lt-or-le}
use snmalloc.Bits.{word, align_down}
use snmalloc.Bits.Align.{align_down_lem}
use snmalloc.Buddy.{null, buddy, rep_align_down, offset}
use native.Mathlib.Nat.{
  mul-mod_left, div-add-mod', le-div_iff_mul-le, mul-le-mul_right, div-div-eq-div-mul, mul_comm,
  zero-mod,
}

pub xor_scaled : (k a b : ℕ) → bit_xor (a * 2 ^ k) (b * 2 ^ k) ≡ bit_xor a b * 2 ^ k
xor_scaled zero a b =
    let ea : a * 2 ^ 0 ≡ a = omega arith in
    let eb : b * 2 ^ 0 ≡ b = omega arith in rw (ea, eb) (omega arith)
xor_scaled (suc k) a b =
    let ha : a * 2 ^ suc k / 2 ≡ a * 2 ^ k = omega (arith, mul-pow_suc a k) in
    let hb : b * 2 ^ suc k / 2 ≡ b * 2 ^ k = omega (arith, mul-pow_suc b k) in
    let step = bit_xor_step (a * 2 ^ suc k) (b * 2 ^ suc k) in
    rw step (
      rw (ha, hb, xor_scaled k a b)
        (omega (arith, mul-pow_suc a k, mul-pow_suc b k, mul-pow_suc (bit_xor a b) k)))

xor_zero : (n a : ℕ) → a ≤ n → bit_xor a 0 ≡ a
xor_zero n zero h = refl
xor_zero zero (suc a) h = absurd (omega arith)
xor_zero (suc n) (suc a) h =
    omega (arith, bit_xor_step (suc a) 0, xor_zero n (suc a / 2) (omega arith))

pub xor_one : (a : ℕ) → bit_xor a 1 ≡ a / 2 * 2 + (1 - a % 2)
xor_one a = omega (arith, bit_xor_step a 1, xor_zero (a / 2) (a / 2) (omega arith))

-- Of a multiple of the size, the buddy is the neighbour that it makes a bigger block with.
pub buddy_lem : (q k : ℕ) → buddy (q * 2 ^ k) (2 ^ k) ≡ (q / 2 * 2 + (1 - q % 2)) * 2 ^ k
unfolding buddy
buddy_lem q k =
    let e : 2 ^ k ≡ 1 * 2 ^ k = omega arith in
    ap (λ (t : ℕ). bit_xor (q * 2 ^ k) t) e
    ∙ xor_scaled k q 1
    ∙ ap (λ (t : ℕ). t * 2 ^ k) (xor_one q)

pub rep_align_down_lem : (a k : ℕ) → a < word → k < 64 → rep_align_down a (2 ^ k) ≡ a - a % 2 ^ k
unfolding rep_align_down align_down
rep_align_down_lem a k lt h = align_down_lem a k lt h

aligned_digit : (a k : ℕ) → a % 2 ^ k ≡ 0 → a ≡ a / 2 ^ k * 2 ^ k
aligned_digit a k e = omega (arith, div-add-mod' a (2 ^ k))

-- A block of `2 ^ bits` bytes, or null: aligned, in the word, and not in the first `2 ^ limit`
-- bytes.
unfoldable pub IsBlock : ℕ → ℕ → ℕ → Type 0
IsBlock limit bits a = (a % 2 ^ bits ≡ 0) × ((a ≡ null) ⊎ (2 ^ limit ≤ a)) × (a < word)

down_keeps : (limit k a : ℕ) → k ≤ limit → 2 ^ limit ≤ a → 2 ^ limit ≤ a / 2 ^ k * 2 ^ k
down_keeps limit k a h le =
    let digits : 2 ^ (limit - k) ≤ a / 2 ^ k =
      (le-div_iff_mul-le (pow_pos k)).1 (rw (← pow_split k limit h) le) in
    omega (arith, mul-le-mul_right (2 ^ k) digits, pow_split k limit h)

pub data Merge (limit bits a b m : ℕ) : Type 0 where
  lower :
      m ≡ a
      → b ≡ a + 2 ^ bits
      → b ≢ null
      → m ≢ null
      → IsBlock limit (suc bits) m
      → Merge limit bits a b m
  upper :
      m ≡ b
      → a ≡ b + 2 ^ bits
      → b ≢ null
      → m ≢ null
      → IsBlock limit (suc bits) m
      → Merge limit bits a b m

pub merge :
    (limit bits a : ℕ)
    → suc bits ≤ limit
    → limit < 64
    → a ≢ null
    → IsBlock limit bits a
    → Merge limit bits a (buddy a (2 ^ bits)) (rep_align_down a (2 ^ suc bits))
unfolding IsBlock
merge limit bits a small word_size nonnull (aligned, high, fits) = elim (lt-or-le (q % 2) 1) [
  | inl even ↦
      lower (omega (arith, down, twice, digit, mul_even even))
        (omega (arith, digit, up, mul_even even))
        (omega (arith, up, pow_pos bits, digit, mul_even even, large, pow_pos limit)) down_nonnull
        down_block
  | inr odd ↦
      upper (omega (arith, down, twice, digit, up, mul_odd odd))
        (omega (arith, digit, up, mul_odd odd))
        (omega (arith, up, down, down_nonnull, mul_odd odd, twice)) down_nonnull down_block
]
  where
    q : ℕ
    q = a / 2 ^ bits

    large : 2 ^ limit ≤ a
    large = elim high [ inl e ↦ absurd (nonnull e) | inr le ↦ le ]

    digit : a ≡ q * 2 ^ bits
    digit = aligned_digit a bits aligned

    up : buddy a (2 ^ bits) ≡ (q / 2 * 2 + (1 - q % 2)) * 2 ^ bits
    up = ap (λ (t : ℕ). buddy t (2 ^ bits)) digit ∙ buddy_lem q bits

    down : rep_align_down a (2 ^ suc bits) ≡ a / 2 ^ suc bits * 2 ^ suc bits
    down =
        omega
          (arith, rep_align_down_lem a (suc bits) fits (omega arith), div-add-mod' a (2 ^ suc bits))

    half : a / 2 ^ suc bits ≡ q / 2
    half = omega (
      arith,
      div-div-eq-div-mul a (2 ^ bits) 2,
      ap (λ (t : ℕ). a / t) (pow_suc bits),
      ap (λ (t : ℕ). a / t) (mul_comm 2 (2 ^ bits)),
    )

    twice : a / 2 ^ suc bits * 2 ^ suc bits ≡ (q / 2 * 2) * 2 ^ bits
    twice = omega (arith, ap (λ (t : ℕ). t * 2 ^ suc bits) half, mul-pow_suc (q / 2) bits)

    mul_even :
        q % 2 < 1
        → (q * 2 ^ bits ≡ (q / 2 * 2) * 2 ^ bits)
          × ((q / 2 * 2 + (1 - q % 2)) * 2 ^ bits ≡ (q / 2 * 2) * 2 ^ bits + 2 ^ bits)
    mul_even even =
        let e : q ≡ q / 2 * 2 = omega arith in
        let f : q / 2 * 2 + (1 - q % 2) ≡ q / 2 * 2 + 1 = omega arith in
        (ap (λ (t : ℕ). t * 2 ^ bits) e, ap (λ (t : ℕ). t * 2 ^ bits) f ∙ omega arith)

    mul_odd :
        1 ≤ q % 2
        → (q * 2 ^ bits ≡ (q / 2 * 2) * 2 ^ bits + 2 ^ bits)
          × ((q / 2 * 2 + (1 - q % 2)) * 2 ^ bits ≡ (q / 2 * 2) * 2 ^ bits)
    mul_odd odd =
        let e : q ≡ q / 2 * 2 + 1 = omega arith in
        let f : q / 2 * 2 + (1 - q % 2) ≡ q / 2 * 2 = omega arith in
        (ap (λ (t : ℕ). t * 2 ^ bits) e ∙ omega arith, ap (λ (t : ℕ). t * 2 ^ bits) f)

    down_large : 2 ^ limit ≤ rep_align_down a (2 ^ suc bits)
    down_large = omega (arith, down, down_keeps limit (suc bits) a small large)

    down_nonnull : rep_align_down a (2 ^ suc bits) ≢ null
    down_nonnull e = absurd (omega (arith, down_large, pow_pos limit))

    down_block : IsBlock limit (suc bits) (rep_align_down a (2 ^ suc bits))
    down_block = (
      ap (λ (t : ℕ). t % 2 ^ suc bits) down ∙ mul-mod_left (a / 2 ^ suc bits) (2 ^ suc bits),
      inr down_large,
      omega (arith, down, div-add-mod' a (2 ^ suc bits)),
    )

-- The second half of a block.
pub second_half :
    (limit bits a : ℕ)
    → suc bits ≤ 64
    → a ≢ null
    → IsBlock limit (suc bits) a
    → IsBlock limit bits (offset a (2 ^ bits))
unfolding IsBlock offset
second_half limit bits a small nonnull (aligned, high, fits) = (
  ap (λ (t : ℕ). t % 2 ^ bits) whole ∙ mul-mod_left (2 * digit + 1) (2 ^ bits),
  inr (elim high [ inl e ↦ absurd (nonnull e) | inr le ↦ omega (arith, le) ]),
  omega (arith, below, pow_split (suc bits) 64 small, a_digit, pow_suc bits, pow_pos bits),
)
  where
    digit : ℕ
    digit = a / 2 ^ suc bits

    a_digit : a ≡ digit * 2 ^ suc bits
    a_digit = aligned_digit a (suc bits) aligned

    whole : a + 2 ^ bits ≡ (2 * digit + 1) * 2 ^ bits
    whole = omega (arith, a_digit, mul-pow_suc digit bits)

    below : suc digit * 2 ^ suc bits ≤ 2 ^ (64 - suc bits) * 2 ^ suc bits
    below = mul-le-mul_right (2 ^ suc bits) (div_pow_lt a (suc bits) 64 small fits)

pub IsBlock-weaken : (limit bits a : ℕ) → IsBlock limit (suc bits) a → IsBlock limit bits a
unfolding IsBlock
IsBlock-weaken limit bits a (aligned, high, fits) =
    let e : a ≡ (2 * (a / 2 ^ suc bits)) * 2 ^ bits =
      omega (arith, aligned_digit a (suc bits) aligned, mul-pow_suc (a / 2 ^ suc bits) bits) in
    (ap (λ (t : ℕ). t % 2 ^ bits) e ∙ mul-mod_left (2 * (a / 2 ^ suc bits)) (2 ^ bits), high, fits)

pub null-IsBlock : (limit bits : ℕ) → IsBlock limit bits null
unfolding IsBlock
null-IsBlock limit bits = (omega (arith, zero-mod (2 ^ bits)), inl refl, omega arith)
