-- ===== src/Ranges.antt =====
-- The ranges of src/snmalloc/backend_helpers: each takes memory from a parent range and gives it
-- on. A range is a record of its two operations, which act on its state; the parent's state is a
-- part of that state, and what all ranges share, as the pagemap and the platform, is in the state
-- of the outermost parent.
pub mod Laws
pub mod SmallBuddy
pub mod ChunkRep
pub mod LargeBuddy
pub mod Passing
pub mod Held
mod Tests
use snmalloc.Base.{ℕ}

-- Memory is given by its address and its size; a null address is none.
pub record Range (S : Type 0) : Type 0 where
  pub alloc_range : (size : ℕ) → S → ℕ × S
  pub dealloc_range : (base size : ℕ) → S → S
