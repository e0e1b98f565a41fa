-- ===== src/Buddy.antt =====
-- src/snmalloc/backend_helpers/buddy.h: `Buddy`, with the address arithmetic of `BuddyChunkRep`
-- (src/snmalloc/backend_helpers/largebuddyrange.h). A block of `2 ^ bits` bytes is given by its
-- address and `bits`. The recursion from a bucket to the next larger one is the recursion on the
-- list of the entries from that bucket on: no call touches a smaller bucket, and the list ends at
-- MAX_SIZE_BITS. The trees are an interface, `Tree`; what the representation keeps per node, and
-- the histogram's hooks, act on a state `S` through `Rep`.
pub mod Address
pub mod Measure
pub mod Slots
pub mod Bucket
pub mod Placing
pub mod Add
pub mod Splitting
pub mod Remove
pub mod Laws
pub mod RedBlackTrees
pub mod Hooks
pub mod Array
pub mod Landing
mod Tests
use Prim.Native.Nat.{max}
use snmalloc.Base.{ℕ, zero, suc, ◌+◌, ◌-◌, ◌*◌, ◌^◌, bit_and, bit_xor}
use snmalloc.Base.{Bool, true, false, ltb, leb, ◌==◌, ◌||◌, if◌then◌else◌, List, [], ◌∷◌, ◌++◌}
use snmalloc.Base.{Option, none, some}
use snmalloc.Bits.{complement, sub_word}

-- `BuddyChunkRep`.
abbrev pub null : ℕ
null = 0

unfoldable pub offset : ℕ → ℕ → ℕ
offset k size = k + size

unfoldable pub buddy : ℕ → ℕ → ℕ
buddy k size = bit_xor k size

unfoldable pub rep_align_down : ℕ → ℕ → ℕ
rep_align_down k size = bit_and k (complement (sub_word size 1))

abbrev pub rep_compare : ℕ → ℕ → Bool
rep_compare k1 k2 = ltb k2 k1

-- What else the allocator asks of the representation and tells it and the histogram.
pub record Rep (S : Type 0) : Type 0 where
  pub can_consolidate : S → ℕ → ℕ → Bool
  pub on_consolidate : ℕ → ℕ → S → S
  pub on_split : ℕ → ℕ → ℕ → S → S
  pub on_add : ℕ → S → S
  pub on_remove : ℕ → S → S

-- The operations of `RBTree` that the allocator calls; `remove_min` gives `null` on the empty tree.
pub record Tree (T : Type 0) : Type 0 where
  pub contents : T → List ℕ
  pub find : T → ℕ → Bool
  pub insert : ℕ → T → T
  pub remove : ℕ → T → T
  pub remove_min : T → ℕ × T

pub record Entry (T : Type 0) : Type 0 where
  pub cache : List ℕ
  pub tree : T

-- The result of `remove_buddy`, with the entry and the state it leaves.
pub record Removed (S T : Type 0) : Type 0 where
  pub found : Bool
  pub entry : Entry T
  pub rep : S

-- The result of a call at a bucket: the block returned, where an added block landed, and the
-- state left, with the entries from that bucket on.
pub record Outcome (S T : Type 0) : Type 0 where
  pub block : ℕ
  pub landed : Option ℕ
  pub above : ℕ
  pub entries : List (Entry T)
  pub rep : S

-- The loops over the three cache slots.
unfoldable pub has : ℕ → List ℕ → Bool
has a [] = false
has a (e ∷ es) = if a == e then true else has a es

-- The first slot that holds `a` is set to `b`.
unfoldable pub replace : ℕ → ℕ → List ℕ → List ℕ
replace a b [] = []
replace a b (e ∷ es) = let rest = replace a b es in if a == e then b ∷ es else e ∷ rest

unfoldable pub exchange : ℕ → List ℕ → ℕ × List ℕ
exchange addr [] = (addr, [])
exchange addr (e ∷ es) =
    let swap = (null == addr) || rep_compare e addr in
    let rest = exchange (if swap then e else addr) es in
    (rest.0, (if swap then addr else e) ∷ rest.1)

abbrev pub not_null : ℕ → Bool
not_null a = if a == null then false else true

unfoldable pub non_null : List ℕ → List ℕ
non_null [] = []
non_null (e ∷ es) = let rest = non_null es in if not_null e then e ∷ rest else rest

abbrev pub is_last {ℓ} : {A : Type ℓ} → List A → Bool
is_last [] = true
is_last (x ∷ xs) = false

module _ {S T : Type 0} (rep : Rep S) (tree : Tree T) (min_size_bits : ℕ) where
  -- Of a size given by its logarithm.
  abbrev pub to_index : ℕ → ℕ
  to_index bits = bits - min_size_bits

  -- On the free buddy of a block: it is taken out unless the representation forbids to merge.
  unfoldable pub take_buddy : ℕ → ℕ → Entry T → S → Entry T → Removed S T
  take_buddy addr bits e s e_without =
      if rep.can_consolidate s addr (2 ^ bits)
      then record {
        found = true;
        entry = e_without;
        rep = rep.on_remove bits (rep.on_consolidate (buddy addr (2 ^ bits)) (2 ^ bits) s);
      }
      else record { found = false; entry = e; rep = s }

  unfoldable pub remove_buddy : ℕ → ℕ → ℕ → Entry T → S → Removed S T
  remove_buddy above addr bits e s =
      let b = buddy addr (2 ^ bits) in
      let least = tree.remove_min e.tree in
      if leb above (to_index bits)
      then record { found = false; entry = e; rep = s }
      else if has b e.cache
      then take_buddy addr bits e s (record { cache = replace b (least.0) e.cache; tree = least.1 })
      else if tree.find e.tree b
      then take_buddy addr bits e s (record e { tree = tree.remove b e.tree })
      else record { found = false; entry = e; rep = s }

  -- Into the first empty slot, else into the tree.
  unfoldable pub put : ℕ → Entry T → Entry T
  put addr e =
      if has null e.cache
      then record e { cache = replace null addr e.cache }
      else record e { tree = tree.insert addr e.tree }

  -- The part of `add_block` after the buddy was not found.
  unfoldable pub land : ℕ → ℕ → ℕ → Entry T → List (Entry T) → S → Outcome S T
  land above addr bits e es s = record {
    block = null;
    landed = some bits;
    above = max above (to_index bits + 1);
    entries = put addr e ∷ es;
    rep = rep.on_add bits s;
  }

  abbrev pub keep : Entry T → Outcome S T → Outcome S T
  keep e o = record o { entries = e ∷ o.entries }

  -- With no bucket left, the size is `2 ^ MAX_SIZE_BITS` and the block is returned.
  unfoldable pub add_block : ℕ → ℕ → ℕ → List (Entry T) → S → Outcome S T
  add_block above addr bits [] s = record {
    block = addr;
    landed = none;
    above = above;
    entries = [];
    rep = s;
  }
  add_block above addr bits (e ∷ es) s =
      let r = remove_buddy above addr bits e s in
      let rest =
        add_block above (rep_align_down addr (2 ^ suc bits)) (suc bits) es
          (rep.on_consolidate addr (2 ^ bits) r.rep) in
      if r.found then keep r.entry rest else land above addr bits r.entry es r.rep

  -- The part of `remove_block` after the call for the bigger block.
  unfoldable pub split : ℕ → Entry T → Outcome S T → Outcome S T
  split bits e bigger =
      let second = offset bigger.block (2 ^ bits) in
      let added =
        add_block bigger.above second bits (e ∷ bigger.entries)
          (rep.on_split bigger.block second (2 ^ bits) bigger.rep) in
      if bigger.block == null
      then record bigger { above = to_index bits; entries = e ∷ bigger.entries }
      else record added { block = bigger.block; landed = none }

  -- The bucket's own block: the tree's least, passed through the cache.
  unfoldable pub take_block : Entry T → ℕ × Entry T
  take_block e =
      let least = tree.remove_min e.tree in
      let passed = exchange (least.0) e.cache in
      (passed.0, record { cache = passed.1; tree = least.1 })

  unfoldable pub remove_block : ℕ → ℕ → List (Entry T) → S → Outcome S T
  remove_block above bits [] s = record {
    block = null;
    landed = none;
    above = above;
    entries = [];
    rep = s;
  }
  remove_block above bits (e ∷ es) s =
      let taken = take_block e in
      let bigger = remove_block above (suc bits) es s in
      if leb above (to_index bits)
      then record { block = null; landed = none; above = above; entries = e ∷ es; rep = s }
      else if not_null (taken.0)
      then record {
        block = taken.0;
        landed = none;
        above = above;
        entries = taken.1 ∷ es;
        rep = rep.on_remove bits s;
      }
      else if is_last es
      then record { block = null; landed = none; above = above; entries = taken.1 ∷ es; rep = s }
      else split bits (taken.1) bigger

  -- What `for_each_in_bucket` calls its function on.
  unfoldable pub for_each_in_bucket : Entry T → List ℕ
  for_each_in_bucket e = non_null e.cache ++ tree.contents e.tree
