-- ===== src/Blocks/Tests.antt =====
-- The range of 100 bytes at address 20, in blocks of at least 16 bytes.
use snmalloc.Base.{◌+◌, ◌^◌, ◌≤◌, ◌≡◌, refl, arith, [], ◌∷◌}
use snmalloc.Bits.{align_up, align_down, clz, ctz}
use snmalloc.Blocks.{block_bits, blocks_loop, range_to_pow_2_blocks}
use snmalloc.Blocks.Tiling.{IsTiled, range_to_pow_2_blocks-IsTiled}

three_blocks : range_to_pow_2_blocks 4 20 100 ≡ (32, 32) ∷ (64, 32) ∷ (96, 16) ∷ []
unfolding range_to_pow_2_blocks blocks_loop block_bits align_up align_down clz ctz
three_blocks = refl

rounded : align_up 20 (2 ^ 4) ≤ align_down (20 + 100) (2 ^ 4)
unfolding align_up align_down
rounded = omega arith

range_to_pow_2_blocks-IsTiled_example :
    IsTiled 4 (align_up 20 (2 ^ 4)) (align_down (20 + 100) (2 ^ 4)) (range_to_pow_2_blocks 4 20 100)
range_to_pow_2_blocks-IsTiled_example =
    range_to_pow_2_blocks-IsTiled 4 20 100 (omega arith) (omega arith) (omega arith) (omega arith)
      rounded
