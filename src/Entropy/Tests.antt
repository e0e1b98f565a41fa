-- ===== src/Entropy/Tests.antt =====
-- Draws from a source whose counter is 0.
use snmalloc.Base.{◌<◌, ◌≡◌, refl, arith}
use snmalloc.Entropy.{LocalEntropy, sample, next_bit}
use snmalloc.Entropy.Sample.{IsFresh, sample-lt}

abbrev source : LocalEntropy
source = record {
  bit_source = 6;
  local_key = 77;
  local_counter = 0;
  fresh_bits = 0xabc;
  count = 12;
}

source-IsFresh : IsFresh source
source-IsFresh = record { count_le = omega arith; bits_left = omega arith }

second_bit : (next_bit source).0 ≡ 1
unfolding next_bit
second_bit = refl

sample-lt_example : let r = sample 13 source in (r.0 < 13) × IsFresh r.1
sample-lt_example = sample-lt 13 source (omega arith) (omega arith) source-IsFresh
