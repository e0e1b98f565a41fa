-- ===== src/Buddy/Measure.antt =====
-- src/snmalloc/backend_helpers/buddy.h: what a `Buddy` holds, measured block by block, and its
-- invariant; and what it relies on of its trees.
use snmalloc.Base.{ℕ, suc, ◌+◌, ◌-◌, ◌^◌, ◌≤◌, ◌≡◌, ◌≢◌, ◌⊎◌, refl}
use snmalloc.Base.{true, false, ltb, ◌==◌, if◌then◌else◌, List, [], ◌∷◌, ◌++◌}
use snmalloc.Base.{arith, pow_suc, pow_pos, All, Pick, sum}
use snmalloc.Buddy.{null, Tree, Entry}
use snmalloc.Buddy.Address.{IsBlock}

-- A quantity of a block that its two halves share out; null has none.
pub record Measure : Type 0 where
  pub of : ℕ → ℕ → ℕ
  pub of_null : (bits : ℕ) → of bits null ≡ 0
  pub of_halves : (bits a : ℕ) → a ≢ null → of (suc bits) a ≡ of bits a + of bits (a + 2 ^ bits)

unfoldable pub bytes_of : ℕ → ℕ → ℕ
bytes_of bits a = if a == null then 0 else 2 ^ bits

-- 1 when the block has the byte at `x`.
unfoldable pub covers : ℕ → ℕ → ℕ → ℕ
covers x bits a =
    if a == null then 0 else if ltb x a then 0 else if ltb x (a + 2 ^ bits) then 1 else 0

pub bytes_of-halves :
    (bits a : ℕ) → a ≢ null → bytes_of (suc bits) a ≡ bytes_of bits a + bytes_of bits (a + 2 ^ bits)
unfolding bytes_of
bytes_of-halves bits a h = ground (arith, pow_suc bits, h)

pub covers-halves :
    (x bits a : ℕ)
    → a ≢ null
    → covers x (suc bits) a ≡ covers x bits a + covers x bits (a + 2 ^ bits)
unfolding covers
covers-halves x bits a h = ground (arith, pow_suc bits, pow_pos bits, h)

unfoldable pub bytes : Measure
unfolding bytes_of
bytes = record { of = bytes_of; of_null = λ bits. refl; of_halves = bytes_of-halves }

unfoldable pub cover : ℕ → Measure
unfolding covers
cover x = record { of = covers x; of_null = λ bits. refl; of_halves = covers-halves x }

pub covers_self : (bits a : ℕ) → a ≢ null → covers a bits a ≡ 1
unfolding covers
covers_self bits a h = ground (arith, pow_pos bits, h)

-- What the allocator relies on of a tree: it keeps a set, and `remove_min` empties it one by one.
pub record TreeLaws {T : Type 0} (tree : Tree T) (IsTree : T → Type 0) : Type 0 where
  pub insert-IsTree :
      (t : T) (a : ℕ) → IsTree t → a ≢ null → tree.find t a ≡ false → IsTree (tree.insert a t)
  pub remove-IsTree : (t : T) (a : ℕ) → IsTree t → IsTree (tree.remove a t)
  pub remove_min-IsTree : (t : T) → IsTree t → IsTree ((tree.remove_min t).1)
  pub insert-Pick :
      (t : T) (a : ℕ)
      → IsTree t
      → a ≢ null
      → tree.find t a ≡ false
      → Pick a (tree.contents t) (tree.contents (tree.insert a t))
  pub remove-Pick :
      (t : T) (a : ℕ)
      → IsTree t
      → a ≢ null
      → tree.find t a ≡ true
      → Pick a (tree.contents (tree.remove a t)) (tree.contents t)
  pub remove_min-Pick :
      (t : T)
      → IsTree t
      → (tree.contents t ≡ []
          × ((tree.remove_min t).0 ≡ null)
          × (tree.contents ((tree.remove_min t).1) ≡ []))
        ⊎ ((tree.remove_min t).0 ≢ null
            × Pick
                ((tree.remove_min t).0)
                (tree.contents ((tree.remove_min t).1))
                (tree.contents t))

module _ {T : Type 0} (tree : Tree T) where
  abbrev pub slots : Entry T → List ℕ
  slots e = e.cache ++ tree.contents e.tree

  unfoldable pub total : (ℕ → ℕ → ℕ) → ℕ → List (Entry T) → ℕ
  total w bits [] = 0
  total w bits (e ∷ es) = sum (w bits) (slots e) + total w (suc bits) es

  -- The entries from a bucket on: every block is aligned to its size, and the buckets at and above
  -- `above` are empty.
  pub data Buckets (IsTree : T → Type 0) (limit min_size_bits above : ℕ)
      : ℕ → List (Entry T) → Type 0 where
    no_buckets : {bits : ℕ} → Buckets IsTree limit min_size_bits above bits []
    bucket :
        {bits : ℕ} {e : Entry T} {es : List (Entry T)}
        → IsTree e.tree
        → All (IsBlock limit bits) (slots e)
        → (above ≤ bits - min_size_bits → All (λ a. a ≡ null) (slots e))
        → Buckets IsTree limit min_size_bits above (suc bits) es
        → Buckets IsTree limit min_size_bits above bits (e ∷ es)
