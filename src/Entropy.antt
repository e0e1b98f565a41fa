-- ===== src/Entropy.antt =====
-- src/snmalloc/mem/entropy.h: `LocalEntropy`, the source of random bits of a thread. The fields
-- are `uint64_t`s. The two numbers that `init` takes from the platform are arguments.
pub mod Sample
pub mod Cycle
mod Tests
use snmalloc.Base.{
  ℕ, zero, suc, ◌+◌, ◌-◌, ◌*◌, ◌/◌, ◌%◌, ◌^◌, bit_and, bit_or, bit_xor, leb, if◌then◌else◌,
}
use snmalloc.Bits.{word, sub_word, mask_bits, next_pow2_bits}

pub record LocalEntropy : Type 0 where
  pub bit_source : ℕ
  pub local_key : ℕ
  pub local_counter : ℕ
  pub fresh_bits : ℕ
  pub count : ℕ

-- The keys of the free lists.
pub record FreeListKey : Type 0 where
  pub key1 : ℕ
  pub key2 : ℕ
  pub key_next : ℕ

-- One round of the loop of `get_next`; the mask is that of the source, 36 ones.
unfoldable pub feistel : (local_key c : ℕ) → ℕ
feistel local_key c =
    let bottom = bit_and c 0xfffffffff in
    bit_or ((c * 2 ^ 32) % word) (bit_xor ((bottom * local_key) % word) c / 2 ^ 32)

-- Each function returns its result and the new state.
unfoldable pub get_next : LocalEntropy → ℕ × LocalEntropy
get_next e =
    let counter = (e.local_counter + 1) % word in
    (feistel e.local_key (feistel e.local_key counter), record e { local_counter = counter })

unfoldable pub refresh_bits : LocalEntropy → LocalEntropy
refresh_bits e = let r = get_next e in record r.1 { bit_source = r.0 }

-- `init`, with the two draws from the platform.
unfoldable pub init : (key counter : ℕ) → LocalEntropy → LocalEntropy
init key counter e = refresh_bits (record e { local_key = key; local_counter = counter })

unfoldable pub next_bit : LocalEntropy → ℕ × LocalEntropy
next_bit e =
    let bottom_bit = bit_and e.bit_source 1 in
    let source = bit_or ((bottom_bit * 2 ^ 63) % word) (e.bit_source / 2) in
    (bit_and source 1, record e { bit_source = source })

unfoldable pub make_free_list_key : LocalEntropy → FreeListKey × LocalEntropy
make_free_list_key e =
    let first = get_next e in
    let second = get_next first.1 in
    let third = get_next second.1 in
    (record { key1 = first.0; key2 = second.0; key_next = third.0 }, third.1)

-- The bits to draw from: new ones if no more than `n` are left.
unfoldable pub refill_bits : (n : ℕ) → LocalEntropy → LocalEntropy
refill_bits n e =
    let r = get_next e in if leb e.count n then record r.1 { fresh_bits = r.0; count = 64 } else e

unfoldable pub next_fresh_bits : (n : ℕ) → LocalEntropy → ℕ × LocalEntropy
next_fresh_bits n e =
    let filled = refill_bits n e in
    (
      bit_and filled.fresh_bits (mask_bits n) % 2 ^ 16,
      record filled { fresh_bits = filled.fresh_bits / 2 ^ n; count = sub_word filled.count n },
    )

-- `n` is a `uint16_t`; the sum is an `int`, which is cut back to 16 bits.
unfoldable pub sample : (n : ℕ) → LocalEntropy → ℕ × LocalEntropy
sample n e =
    let r = next_fresh_bits (next_pow2_bits n) e in
    (if leb n r.0 then (n + 2 ^ 16 - (1 + r.0 - n)) % 2 ^ 16 else r.0, r.1)
