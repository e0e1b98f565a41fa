-- ===== src/MetaEntry/Laws.antt =====
-- The two words keep what each side stores in them.
use snmalloc.Base.{ℕ, ◌+◌, ◌-◌, ◌*◌, ◌/◌, ◌%◌, ◌^◌, ◌<◌, ◌≡◌, refl, ap, arith, bit_and, bit_or}
use snmalloc.Base.{bit_and_mask, bit_and_bit, bit_and_high, bit_or_fields}
use snmalloc.Base.{true, false, ◌==◌, not}
use snmalloc.Bits.{word}
use snmalloc.Bits.Align.{align_down_lem}
use snmalloc.MetaEntry.{MetaEntry, Word, one, two, is_backend_owned, encode, is_boundary}
use snmalloc.MetaEntry.{assign, get_remote, get_sizeclass}
use snmalloc.MetaEntry.{get_slab_metadata, claim_for_backend, get_backend_word}
use snmalloc.MetaEntry.{word_get, word_set, frontend_entry, is_backend_allowed_value}

-- An entry of two machine words.
pub record IsWords (e : MetaEntry) : Type 0 where
  pub meta_fits : e.meta < word
  pub remote_fits : e.remote_and_sizeclass < word

marker_bit : (r : ℕ) → bit_and r 128 ≡ r / 128 % 2 * 128
marker_bit r = bit_and_bit 7 r

-- What the front end encodes is read back: the allocator, which is aligned to 256 bytes, the
-- size class, and that the back end does not own the entry.
pub encode_roundtrip :
    (meta remote sizeclass : ℕ)
    → remote % 256 ≡ 0
    → sizeclass < 128
    → remote + sizeclass < word
    → let e = frontend_entry meta (encode remote sizeclass) in
      (get_remote e ≡ remote) × (get_sizeclass e ≡ sizeclass) × (is_backend_owned e ≡ false)
unfolding encode get_remote get_sizeclass is_backend_owned frontend_entry
encode_roundtrip meta remote sizeclass aligned small fits =
    let ras : (remote + sizeclass) % word ≡ remote + sizeclass = omega arith in
    rw ras (
      omega (arith, align_down_lem (remote + sizeclass) 7 fits (omega arith)),
      omega (arith, bit_and_mask 7 (remote + sizeclass)),
      ground (arith, marker_bit (remote + sizeclass)),
    )

boundary_bit : (m : ℕ) → bit_and m 1 ≡ m % 2
boundary_bit m = bit_and_mask 1 m

cleared : (m : ℕ) → m < word → bit_and m (word - 2) ≡ m - m % 2
cleared m h = bit_and_high 64 1 m (omega arith) h

-- The copied word with the boundary bit of the target.
assigned : (m o : ℕ) → o < word → bit_or (bit_and o (word - 2)) (bit_and m 1) ≡ o / 2 * 2 + m % 2
assigned m o h =
    let shape : o - o % 2 ≡ o / 2 * 2 ^ 1 = omega arith in
    rw (cleared o h, boundary_bit m, shape) (bit_or_fields 1 (o / 2) (m % 2) (omega arith))

-- A word with its low eight bits kept and the rest replaced.
merged : (v x : ℕ) → v % 256 ≡ 0 → bit_or v (bit_and x 255) ≡ v + x % 256
merged v x h =
    let shape : v ≡ v / 256 * 2 ^ 8 = omega (arith, h) in
    let fields = bit_or_fields 8 (v / 256) (x % 256) (omega arith) in
    rw (bit_and_mask 8 x) (rw (← shape) at fields)

kept : (v x : ℕ) → v < word → v % 256 ≡ 0 → bit_and (v + x % 256) (word - 1 - 255) ≡ v
kept v x lt h = omega (arith, bit_and_high 64 8 (v + x % 256) (omega arith) (omega (arith, h)))

allowed : (v : ℕ) → (bit_and v 255 == 0) ≡ true → v % 256 ≡ 0
allowed v ok = ground (arith, bit_and_mask 8 v)

-- Copying an entry keeps the boundary mark of the target and takes all else from the source.
pub assign_lem :
    (e other : MetaEntry)
    → IsWords e
    → IsWords other
    → (is_boundary (assign e other) ≡ is_boundary e)
      × (get_slab_metadata (assign e other) ≡ get_slab_metadata other)
      × ((assign e other).remote_and_sizeclass ≡ other.remote_and_sizeclass)
unfolding assign is_boundary get_slab_metadata
assign_lem e other he ho = rw (assigned e.meta other.meta ho.meta_fits) (
  rw (boundary_bit (other.meta / 2 * 2 + e.meta % 2), boundary_bit e.meta)
      (ap (λ (t : ℕ). not (t == 0)) (omega arith)),
  rw
      (
        cleared other.meta ho.meta_fits,
        cleared (other.meta / 2 * 2 + e.meta % 2) (omega (arith, ho.meta_fits)),
      )
      (omega arith),
  refl,
)

-- The back end's writes to a word that it has claimed are read back, and leave the reserved bits
-- as they are: the owner and the boundary mark do not change.
pub word_set_roundtrip :
    (w : Word) (e : MetaEntry) (v : ℕ)
    → IsWords e
    → v < word
    → is_backend_allowed_value w v ≡ true
    → (word_get w (word_set w e v) ≡ v)
      × (is_backend_owned (word_set w e v) ≡ is_backend_owned e)
      × (is_boundary (word_set w e v) ≡ is_boundary e)
unfolding word_get word_set is_backend_allowed_value is_backend_owned is_boundary
word_set_roundtrip one e v he hv ok =
    let low = allowed v ok in
    rw (merged v e.meta low) (
      kept v e.meta hv low,
      refl,
      rw (boundary_bit (v + e.meta % 256), boundary_bit e.meta)
          (ap (λ (t : ℕ). not (t == 0)) (omega (arith, low))),
    )
word_set_roundtrip two e v he hv ok =
    let r = e.remote_and_sizeclass in
    let low = allowed v ok in
    let same : (v + r % 256) / 128 % 2 * 128 ≡ r / 128 % 2 * 128 = omega (arith, low) in
    rw (merged v r low)
      (kept v r hv low, rw (marker_bit (v + r % 256), marker_bit r, same) refl, refl)

-- The back end gets a word of an entry that it owns from then on, with the boundary mark kept.
get_backend_word_lem :
    (e : MetaEntry)
    → (is_backend_owned (get_backend_word e) ≡ true)
      × (is_boundary (get_backend_word e) ≡ is_boundary e)
unfolding get_backend_word claim_for_backend is_backend_owned is_boundary
get_backend_word_lem e = ground arith
