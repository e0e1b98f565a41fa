-- ===== src/FreeList.antt =====
-- src/snmalloc/mem/freelist.h: free lists in object space, on the architectures without pointer
-- authentication and without strict provenance. Memory is a function from the addresses of words
-- to words: an object at `a` has `next_object` at `a` and `prev_encoded` at `a + 8`, and `head[i]`
-- of a builder is a word too, so `end[i]` is the address of a word wherever it points. A builder
-- has a queue for each of its two lists, as under RANDOM. A failed check is `none`. Domestication,
-- which leaves these pointers as they are, and prefetching are left out.
pub mod Words
pub mod Segment
pub mod Iterate
pub mod Building
pub mod Adding
pub mod Closing
pub mod Validate
pub mod Moving
mod Tests
use snmalloc.Base.{ℕ, zero, suc, ◌+◌, ◌-◌, ◌*◌, ◌%◌, ◌^◌, bit_xor, Bool, true, false, ltb, ◌==◌}
use snmalloc.Base.{if◌then◌else◌, not, ◌&&◌, ◌||◌, Option, none, some, List, [], ◌∷◌}
use mathlib.Core.Option
use snmalloc.Bits.{word}
pub use snmalloc.Entropy.{FreeListKey}

abbrev pub Memory : Type 0
Memory = ℕ → ℕ

unfoldable pub store : Memory → ℕ → ℕ → Memory
store m a v b = if b == a then v else m b

abbrev pub nullptr : ℕ
nullptr = 0

-- The mitigations that the lists depend on.
pub record Mitigations : Type 0 where
  pub freelist_forward_edge : Bool
  pub freelist_backward_edge : Bool
  pub freelist_teardown_validate : Bool
  pub clear_meta : Bool

-- `Object`: where its second field is.
abbrev pub prev_field : ℕ → ℕ
prev_field a = a + 8

pub record Iter : Type 0 where
  pub curr : ℕ
  pub prev : ℕ

-- One list of a `Builder`: the address of `head[i]`, `end[i]` and `length[i]`.
pub record Queue : Type 0 where
  pub head : ℕ
  pub last : ℕ
  pub length : ℕ

abbrev pub uint16 : ℕ
uint16 = 65536

abbrev pub take_rest :
    (Memory → Iter → Option (List ℕ × Memory))
    → Option (ℕ × Memory × Iter)
    → Option (List ℕ × Memory)
take_rest k none = none
take_rest k (some (a, m, it)) = Option.map (λ t. (a ∷ t.0, t.1)) (k m it)

-- The two lists of a builder.
pub record Builder : Type 0 where
  pub list_0 : Queue
  pub list_1 : Queue

abbrev pub empty : Builder → Bool
empty b = (b.list_0.last == b.list_0.head) && (b.list_1.last == b.list_1.head)

module _ (mitigations : Mitigations) (key : FreeListKey) (key_tweak : ℕ) where
  unfoldable pub signed_prev : ℕ → ℕ → ℕ
  signed_prev c n = (((c + key.key1) % word) * ((n + bit_xor key.key2 key_tweak) % word)) % word

  unfoldable pub code_next : ℕ → ℕ
  code_next next =
      if mitigations.freelist_forward_edge
      then bit_xor (bit_xor next key.key_next) key_tweak
      else next

  -- Stores at `curr` and returns the address of the next field to store to.
  unfoldable pub store_next : Memory → ℕ → ℕ → Memory
  store_next m curr next =
      store
        (if mitigations.freelist_backward_edge
          then store m (prev_field next) (signed_prev curr next)
          else m)
        curr (code_next next)

  unfoldable pub store_null : Memory → ℕ → Memory
  store_null m curr = store m curr (code_next nullptr)

  unfoldable pub read_next : Memory → ℕ → ℕ
  read_next m curr = code_next (m curr)

  unfoldable pub cleanup : Memory → ℕ → Memory
  cleanup m a =
      if mitigations.clear_meta
      then (if mitigations.freelist_backward_edge
          then store (store m a 0) (prev_field a) 0
          else store m a 0)
      else m

  -- `Iter::take`: the object, the memory and the iterator after it.
  unfoldable pub iter_take : Memory → Iter → Option (ℕ × Memory × Iter)
  iter_take m it =
      let c = it.curr in
      let next = read_next m c in
      let checked = not mitigations.freelist_backward_edge || (m (prev_field c) == it.prev) in
      let p = if mitigations.freelist_backward_edge then signed_prev c next else it.prev in
      if checked then some (c, cleanup m c, record { curr = next; prev = p }) else none

  -- `Builder::add` on the list that the entropy selects.
  unfoldable pub queue_add : Memory → Queue → ℕ → Memory × Queue
  queue_add m q n = (store_next m q.last n, record q { last = n; length = (q.length + 1) % uint16 })

  unfoldable pub queue_init : Memory → Queue → ℕ → Memory × Queue
  queue_init m q slab = (store m q.head (code_next slab), record q { last = q.head; length = 0 })

  unfoldable pub read_head : Memory → Queue → ℕ
  read_head m q = code_next (m q.head)

  unfoldable pub get_fake_signed_prev : Memory → Queue → ℕ
  get_fake_signed_prev m q = signed_prev q.head (read_head m q)

  -- `Builder::close` on the list selected: terminated, given to an iterator, and emptied.
  unfoldable pub queue_close : Memory → Queue → Memory × Iter × Queue
  queue_close m q =
      let t = store_null m q.last in
      (
        t,
        record { curr = read_head t q; prev = get_fake_signed_prev t q },
        record q { last = q.head; length = 0 },
      )

  -- `Builder::extract_segment`, of one list that is not empty: its first and last object. `init`
  -- is given the word in `head[0]` as it is stored.
  unfoldable pub extract_segment : Memory → Queue → ℕ × ℕ × Memory × Queue
  extract_segment m q =
      let fresh = queue_init m q (m q.head) in (read_head m q, q.last, fresh.0, fresh.1)

  -- `Builder::append_segment` on the list selected, with the number of objects.
  unfoldable pub append_segment : Memory → Queue → ℕ → ℕ → ℕ → Memory × Queue
  append_segment m q first end size =
      (store_next m q.last first, record q { last = end; length = (q.length + size) % uint16 })

  -- The loop of `Builder::validate`: `none` is a failed check, or a list longer than the fuel.
  unfoldable pub validate_from : ℕ → Memory → Queue → ℕ → ℕ → ℕ → Option ℕ
  validate_from zero m q curr prev count = none
  validate_from (suc fuel) m q curr prev count =
      let next = read_next m curr in
      let rest = validate_from fuel m q next (signed_prev curr next) (count + 1) in
      if not mitigations.freelist_backward_edge || (m (prev_field curr) == prev)
      then (if curr == q.last then some count else rest)
      else none

  -- One list's turn in `Builder::validate`, with the check of the length, both under the guard of
  -- the mitigation.
  unfoldable pub validate : ℕ → Memory → Queue → Bool
  validate fuel m q =
      if not mitigations.freelist_teardown_validate
      then true
      else if q.head == q.last
      then q.length == 0
      else elim (validate_from fuel m q (read_head m q) (get_fake_signed_prev m q) 1) [
        | none ↦ false
        | some count ↦ count == q.length
      ]

  -- Taking from an iterator until it is empty, in at most so many turns.
  unfoldable pub take_all : ℕ → Memory → Iter → Option (List ℕ × Memory)
  take_all zero m it = if it.curr == nullptr then some ([], m) else none
  take_all (suc turns) m it =
      let rest = take_rest (λ m2 it2. take_all turns m2 it2) (iter_take m it) in
      if it.curr == nullptr then some ([], m) else rest

  -- The list is selected by a bit of the entropy.
  unfoldable pub add : Memory → Builder → ℕ → ℕ → Memory × Builder
  add m b n index =
      let at_0 = queue_add m b.list_0 n in
      let at_1 = queue_add m b.list_1 n in
      if index == 0
      then (at_0.0, record b { list_0 = at_0.1 })
      else (at_1.0, record b { list_1 = at_1.1 })

  unfoldable pub builder_init : Memory → Builder → ℕ → Memory × Builder
  builder_init m b slab =
      let at_0 = queue_init m b.list_0 slab in
      let at_1 = queue_init (at_0.0) b.list_1 slab in
      (at_1.0, record { list_0 = at_0.1; list_1 = at_1.1 })

  -- The longer list is closed, and the other's length returned.
  unfoldable pub close : Memory → Builder → ℕ × Memory × Iter × Builder
  close m b =
      let at_0 = queue_close m b.list_0 in
      let at_1 = queue_close m b.list_1 in
      if ltb b.list_1.length b.list_0.length
      then (b.list_1.length, at_0.0, at_0.1, record b { list_0 = at_0.2 })
      else (b.list_0.length, at_1.0, at_1.1, record b { list_1 = at_1.2 })
