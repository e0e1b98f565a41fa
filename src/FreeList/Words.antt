-- ===== src/FreeList/Words.antt =====
-- src/snmalloc/mem/freelist.h: the encoding of next pointers, and reading what was stored.
use snmalloc.Base.{ℕ, zero, suc, ◌+◌, ◌/◌, ◌≤◌, ◌≡◌, ◌≢◌, bit_xor, refl, ap, ◌∙◌, arith}
use snmalloc.Base.{true, false, ◌==◌, Bool-cases, bit_xor_step, bit_xor_inverse}
use snmalloc.Base.{inl, inr}
use snmalloc.FreeList.{Memory, store, Mitigations, FreeListKey, code_next}

xor_swap_below :
    (n a b c : ℕ) → a ≤ n → b ≤ n → c ≤ n → bit_xor (bit_xor a b) c ≡ bit_xor (bit_xor a c) b
xor_swap_below zero zero zero zero p q r = refl
xor_swap_below zero (suc a) b c p q r = absurd (omega arith)
xor_swap_below zero zero (suc b) c p q r = absurd (omega arith)
xor_swap_below zero zero zero (suc c) p q r = absurd (omega arith)
xor_swap_below (suc n) a b c p q r = omega (
  arith,
  bit_xor_step (bit_xor a b) c,
  bit_xor_step (bit_xor a c) b,
  bit_xor_step a b,
  bit_xor_step a c,
  ap (λ (t : ℕ). bit_xor t (c / 2)) (half a b),
  ap (λ (t : ℕ). bit_xor t (b / 2)) (half a c),
  xor_swap_below n (a / 2) (b / 2) (c / 2) (omega arith) (omega arith) (omega arith),
)
  where
    half : (x y : ℕ) → bit_xor x y / 2 ≡ bit_xor (x / 2) (y / 2)
    half x y = omega (arith, bit_xor_step x y)

pub bit_xor_swap : (a b c : ℕ) → bit_xor (bit_xor a b) c ≡ bit_xor (bit_xor a c) b
bit_xor_swap a b c = xor_swap_below (a + b + c) a b c (omega arith) (omega arith) (omega arith)

pub store_same : (m : Memory) (a v : ℕ) → store m a v a ≡ v
unfolding store
store_same m a v = let e : (a == a) ≡ true = ground arith in rw e refl

pub store_other : (m : Memory) (a v b : ℕ) → b ≢ a → store m a v b ≡ m b
unfolding store
store_other m a v b h = let e : (b == a) ≡ false = ground (arith, h) in rw e refl

module _ (mitigations : Mitigations) (key : FreeListKey) (key_tweak : ℕ) where
  -- Decoding a next pointer, which is the same function, gives the pointer encoded.
  pub code_next_inverse :
      (next : ℕ)
      → code_next mitigations key key_tweak (code_next mitigations key key_tweak next) ≡ next
  unfolding code_next
  code_next_inverse next = elim (Bool-cases mitigations.freelist_forward_edge) [
    | inr off ↦ rw off refl
    | inl on ↦ rw on (
        ap (λ (t : ℕ). bit_xor t key_tweak)
          (bit_xor_swap (bit_xor next key.key_next) key_tweak key.key_next)
        ∙ bit_xor_inverse _ key_tweak
        ∙ bit_xor_inverse next key.key_next)
  ]
