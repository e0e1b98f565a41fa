-- ===== src/Ranges/SmallBuddy/Inplace.antt =====
-- src/snmalloc/backend_helpers/smallbuddyrange.h: the buddy of a block, in terms of pointers.
use snmalloc.Base.{ℕ, suc, ◌+◌, ◌-◌, ◌*◌, ◌/◌, ◌%◌, ◌^◌, ◌<◌, ◌≡◌, bit_and, bit_xor, ap, ◌∙◌, arith}
use snmalloc.Base.{bit_and_bit, mul-pow_suc, pow_suc}
use snmalloc.Bits.{word, align_down}
use snmalloc.Bits.Align.{align_down_lem}
use snmalloc.Buddy.{buddy}
use snmalloc.Buddy.Address.{buddy_lem, xor_scaled, xor_one}
use snmalloc.Ranges.SmallBuddy.{inplace_buddy}
use native.Mathlib.Nat.{div-add-mod', div-div-eq-div-mul, add-mul}

-- Of an address that is a multiple of the size, `BuddyInplaceRep::buddy`, which rounds down and adds,
-- is the exclusive or with the size.
pub inplace_buddy-eq-buddy :
    (a k : ℕ) → k < 63 → a < word → a % 2 ^ k ≡ 0 → inplace_buddy a (2 ^ k) ≡ buddy a (2 ^ k)
unfolding inplace_buddy
inplace_buddy-eq-buddy a k small fits aligned =
    let q = a / 2 ^ k in
    let digit : a ≡ q * 2 ^ k = omega (arith, div-add-mod' a (2 ^ k)) in
    let twice : 2 ^ k * 2 ≡ 2 ^ suc k = omega (arith, pow_suc k) in
    let half : a / 2 ^ suc k ≡ q / 2 =
      omega (arith, div-div-eq-div-mul a (2 ^ k) 2, ap (λ (t : ℕ). a / t) twice) in
    let down : align_down a (2 ^ suc k) ≡ q / 2 * 2 * 2 ^ k = omega (
      arith,
      align_down_lem a (suc k) fits (omega arith),
      div-add-mod' a (2 ^ suc k),
      ap (λ (t : ℕ). t * 2 ^ suc k) half,
      mul-pow_suc (q / 2) k,
    ) in
    let bit : bit_xor (bit_and a (2 ^ k)) (2 ^ k) ≡ (1 - q % 2) * 2 ^ k =
      ap (λ (t : ℕ). bit_xor t (2 ^ k)) (bit_and_bit k a)
      ∙ ap (λ (t : ℕ). bit_xor (q % 2 * 2 ^ k) t) (let e : 2 ^ k ≡ 1 * 2 ^ k = omega arith in e)
      ∙ xor_scaled k (q % 2) 1
      ∙ ap (λ (t : ℕ). t * 2 ^ k) (omega (arith, xor_one (q % 2))) in
    let other : buddy a (2 ^ k) ≡ (q / 2 * 2 + (1 - q % 2)) * 2 ^ k =
      ap (λ (t : ℕ). buddy t (2 ^ k)) digit ∙ buddy_lem q k in
    rw (twice, down, bit, other) (omega (arith, add-mul (q / 2 * 2) (1 - q % 2) (2 ^ k)))
