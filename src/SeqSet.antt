-- ===== src/SeqSet.antt =====
-- src/snmalloc/ds_aal/seqset.h: `SeqSet`, a doubly linked cyclic list. A node is its address, which
-- is also that of the object that holds it; `Links` is what the fields of all nodes hold. An
-- operation gives none where one of its assertions fails.
pub mod Linked
pub mod Taking
pub mod Laws
pub mod Iterating
mod Tests
use snmalloc.Base.{ℕ, zero, suc, Bool, true, false, not, ◌&&◌, ◌==◌, if◌then◌else◌, List, [], ◌∷◌}
use snmalloc.Base.{Option, none, some}

pub record Links : Type 0 where
  pub next : ℕ → ℕ
  pub prev : ℕ → ℕ

abbrev pub nullptr : ℕ
nullptr = 0

-- A field of one node is written.
unfoldable pub update : (ℕ → ℕ) → ℕ → ℕ → ℕ → ℕ
update f n v m = if m == n then v else f m

infixl 5 ◌>>=◌ ◌>>◌
abbrev pub ◌>>=◌ {ℓ κ} : {A : Type ℓ} {B : Type κ} → Option A → (A → Option B) → Option B
none >>= f = none
some a >>= f = f a

abbrev pub ◌>>◌ {ℓ} : {B : Type ℓ} → Option (Unit {0}) → Option B → Option B
m >> k = m >>= λ _. k

abbrev pub assert : Bool → Option (Unit {0})
assert true = some tt
assert false = none

-- `Node::invariant`.
unfoldable pub invariant : ℕ → Links → Bool
invariant n s =
    not (s.next n == nullptr)
    && (not (s.prev n == nullptr) && ((s.prev (s.next n) == n) && (s.next (s.prev n) == n)))

-- The two writes of `Node::remove`.
unfoldable pub unlink : ℕ → Links → Links
unlink n s = record {
  prev = update s.prev (s.next n) (s.prev n);
  next = update s.next (s.prev n) (s.next n);
}

unfoldable pub remove : ℕ → Links → Option Links
remove n s = do
  assert (invariant n s)
  assert (invariant (s.next n) s)
  assert (invariant (s.prev n) s)
  let s' = unlink n s
  assert (invariant (s'.next n) s')
  assert (invariant (s'.prev n) s')
  some s'

module _ (head : ℕ) where
  unfoldable pub is_empty : Links → Option Bool
  is_empty s = do assert (invariant head s); some (s.next head == head)

  unfoldable pub pop_front : Links → Option (ℕ × Links)
  pop_front s = do
    assert (invariant head s)
    empty ← is_empty s
    assert (not empty)
    let node = s.next head
    s' ← remove node s
    assert (invariant head s')
    some (node, s')

  unfoldable pub pop_back : Links → Option (ℕ × Links)
  pop_back s = do
    assert (invariant head s)
    empty ← is_empty s
    assert (not empty)
    let node = s.prev head
    s' ← remove node s
    assert (invariant head s')
    some (node, s')

  unfoldable pub pop : (is_fifo : Bool) → Links → Option (ℕ × Links)
  pop is_fifo s = do assert (invariant head s); if is_fifo then pop_front s else pop_back s

  -- The four writes of `insert`.
  unfoldable pub link : (n : ℕ) → Links → Links
  link n s =
      let first = s.next head in
      let next_written = update s.next n first in
      let prev_written = update s.prev first n in
      record { next = update next_written head n; prev = update prev_written n head }

  unfoldable pub insert : (item : ℕ) → Links → Option Links
  insert n s = do let s' = link n s; assert (invariant n s'); assert (invariant head s'); some s'

  abbrev pub peek : Links → ℕ
  peek s = s.next head

  -- The loop of `iterate`, whose function may change the links; `S` is what else it acts on. The
  -- check in the loop aborts.
  module _ {S : Type 0} (f : ℕ → S × Links → Option (S × Links)) where
    unfoldable pub iterate_from : (fuel : ℕ) → (curr : ℕ) → S × Links → Option (S × Links)
    iterate_from zero curr s = none
    iterate_from (suc fuel) curr s = elim (curr == head) [
      | true ↦ some s
      | false ↦
          assert (s.1.prev (s.1.next curr) == curr)
          >>= (λ u. f curr s >>= iterate_from fuel (s.1.next curr))
    ]

    unfoldable pub iterate : (fuel : ℕ) → S × Links → Option (S × Links)
    iterate fuel s = do
      assert (invariant (s.1.next head) (s.1))
      iterate_from fuel (s.1.next head) s
