-- ===== src/Sizeclass/Lookup.antt =====
-- The lookup table from sizes to small classes, and `size_to_sizeclass`.
use snmalloc.Base.{ℕ, zero, suc, ◌+◌, ◌-◌, ◌*◌, ◌/◌, ◌%◌, ◌^◌, ◌≤◌, ◌<◌, ◌≡◌, refl, Bool, true}
use snmalloc.Base.{arith, ltb, leb, ◌==◌, ◌&&◌, ◌||◌, not, if◌then◌else◌, List, [], ◌∷◌, get_or}
use snmalloc.Bits.{sub_word, to_exp_mant_const, from_exp_mant, clz_const}
use snmalloc.Base.{◌⊎◌, inl, inr, lt-or-le}
use snmalloc.Bits.ExpMant.{to_exp_mant_least, from_mono}
use snmalloc.Sizeclass.Table.{is_small_sizeclass_iff}
use snmalloc.Sizeclass.{num_small_sizeclasses, sizeclass_to_size_const, size_to_sizeclass_const}
use snmalloc.Sizeclass.{min_alloc_step_bits, min_alloc_step_size, min_alloc_size}
use snmalloc.Sizeclass.{max_small_sizeclass_size, is_small_sizeclass}

unfoldable pub sizeclass_lookup_index : ℕ → ℕ
sizeclass_lookup_index s = sub_word s 1 / 2 ^ min_alloc_step_bits

abbrev pub sizeclass_lookup_size : ℕ
sizeclass_lookup_size = 4096

-- The loops of the constructor of `SizeClassLookup`, as the entries that they write: `curr` goes
-- up by one step with each write, so the writes fill the table from the front. A class below
-- that of `min_alloc_size` is entered as that class, and the second loop leaves a
-- class at the end of the table. `fuel` bounds the rounds of both loops.
lookup_fill : ℕ → ℕ → ℕ → List ℕ
unfolding sizeclass_lookup_index
lookup_fill zero sizeclass curr = []
lookup_fill (suc fuel) sizeclass curr =
    let minimum_class = size_to_sizeclass_const min_alloc_size in
    let next_class = lookup_fill fuel (sizeclass + 1) curr in
    let next_size = lookup_fill fuel sizeclass (curr + min_alloc_step_size) in
    if leb num_small_sizeclasses sizeclass
    then []
    else if leb curr (sizeclass_to_size_const sizeclass)
        && (ltb sizeclass minimum_class
            || not (sizeclass_lookup_index curr == sizeclass_lookup_size))
    then (if ltb sizeclass minimum_class then minimum_class else sizeclass) ∷ next_size
    else next_class

pub sizeclass_lookup : List ℕ
unfolding lookup_fill
sizeclass_lookup = lookup_fill 5000 0 1

-- Size 0 goes to the first class; a size above the largest small class is not asked for.
unfoldable pub size_to_sizeclass : ℕ → ℕ
size_to_sizeclass size =
    if is_small_sizeclass size then get_or sizeclass_lookup (sizeclass_lookup_index size) 0 else 0

-- Every entry, from index `i` on, is the least class for the sizes of its step.
entries_ok : ℕ → List ℕ → Bool
entries_ok i [] = i == sizeclass_lookup_size
entries_ok i (c ∷ cs) =
    ltb c num_small_sizeclasses
    && leb (i * 16 + 16) (sizeclass_to_size_const c)
    && (c == 0 || leb (sizeclass_to_size_const (c - 1)) (i * 16))
    && entries_ok (i + 1) cs

lookup_ok : entries_ok 0 sizeclass_lookup ≡ true
unfolding entries_ok sizeclass_lookup to_exp_mant_const clz_const from_exp_mant
lookup_ok = refl

-- The least class whose size is not below that of a step.
record IsEntryAt (i c : ℕ) : Type 0 where
  within : c < num_small_sizeclasses
  enough : i * 16 + 16 ≤ sizeclass_to_size_const c
  needed : (c ≡ 0) ⊎ (sizeclass_to_size_const (c - 1) ≤ i * 16)

entries_sound :
    (i k : ℕ) (cs : List ℕ)
    → entries_ok i cs ≡ true
    → i + k < sizeclass_lookup_size
    → IsEntryAt (i + k) (get_or cs k 0)
unfolding entries_ok
entries_sound i k [] ok h = absurd (ground arith)
entries_sound i zero (c ∷ cs) ok h = let e : i + 0 ≡ i = omega arith in rw e (ground arith)
entries_sound i (suc k) (c ∷ cs) ok h =
    let e : i + suc k ≡ i + 1 + k = omega arith in
    rw e (entries_sound (i + 1) k cs (ground arith) (omega arith))

least_unique :
    (s c : ℕ)
    → 0 < s
    → s ≤ max_small_sizeclass_size
    → IsEntryAt ((s - 1) / 16) c
    → c ≡ size_to_sizeclass_const s
least_unique s c pos le at =
    let k = size_to_sizeclass_const s in
    let top : sizeclass_to_size_const k ≡ sizeclass_to_size_const k = refl in
    elim (lt-or-le c k) [
      | inl h ↦ absurd (omega (arith, (to_exp_mant_least s c pos (omega arith)).1 h, at.enough))
      | inr h ↦ elim (lt-or-le k c) [
        | inl above ↦
            let e : k + (c - 1 - k) ≡ c - 1 = omega arith in
            let grows = rw e at (from_mono k (c - 1 - k) (omega (arith, at.within))) in
            absurd (ground (arith, at.needed, grows, (to_exp_mant_least s 0 pos (omega arith)).0))
        | inr below ↦ omega arith
      ]
    ]

-- For every size of a small class, the table gives the class that the encoding computes.
pub size_to_sizeclass-eq :
    (s : ℕ) → 0 < s → s ≤ max_small_sizeclass_size → size_to_sizeclass s ≡ size_to_sizeclass_const s
unfolding size_to_sizeclass sizeclass_lookup_index
size_to_sizeclass-eq s pos le =
    let small = (is_small_sizeclass_iff s (omega arith)).1 (pos, le) in
    let index : (s + 2 ^ 64 - 1) % 2 ^ 64 / 2 ^ 4 ≡ (s - 1) / 16 = omega arith in
    let at = entries_sound 0 ((s - 1) / 16) sizeclass_lookup lookup_ok (omega arith) in
    let e : 0 + (s - 1) / 16 ≡ (s - 1) / 16 = omega arith in
    rw (small, index) (least_unique s _ pos le (rw e at at))

pub size_to_sizeclass-lt :
    (s : ℕ) → 0 < s → s ≤ max_small_sizeclass_size → size_to_sizeclass s < num_small_sizeclasses
unfolding size_to_sizeclass sizeclass_lookup_index
size_to_sizeclass-lt s pos le =
    let small = (is_small_sizeclass_iff s (omega arith)).1 (pos, le) in
    let index : (s + 2 ^ 64 - 1) % 2 ^ 64 / 2 ^ 4 ≡ (s - 1) / 16 = omega arith in
    let at = entries_sound 0 ((s - 1) / 16) sizeclass_lookup lookup_ok (omega arith) in
    rw (small, index) at.within

-- Size 0 is given the first class.
pub size_to_sizeclass_zero : size_to_sizeclass 0 ≡ 0
unfolding size_to_sizeclass is_small_sizeclass from_exp_mant
size_to_sizeclass_zero = refl
