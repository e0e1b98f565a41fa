-- ===== src/FlagLock.antt =====
-- src/snmalloc/ds_aal/flaglock.h: `FlagLock` over a `DebugFlagWord`, taken by `with`. Each thread
-- is at a point of its call, and a step is one access to the word: the exchange, the load of the
-- waiting loop, the accesses to the owner with their assertions, and the store that frees the
-- word. A failed assertion is `none`. Thread `i` of the list has the identity `i + 1`; a thread
-- does not call `with` from the function that it passes to `with`. An assertion on the owner and the
-- write after it are one step. Memory is sequentially consistent, and the fork guard is left out.
pub mod Owner
pub mod Invariant
pub mod Moves
pub mod Progress
mod Tests
use snmalloc.Base.{ℕ, suc, ◌+◌, ◌≡◌, Bool, true, false, ◌==◌, if◌then◌else◌, Option, none, some}
use snmalloc.Base.{List, [], ◌∷◌, get_elem?, set}

-- `lost`: the exchange found the word taken; `won`: it took the word, with no owner yet;
-- `leaving`: the owner is cleared, the word not yet freed.
pub data Point : Type 0 where
  outside acquiring lost spinning won holding leaving : Point

pub record DebugFlagWord : Type 0 where
  pub flag : Bool
  pub owner : ℕ

pub record System : Type 0 where
  pub word : DebugFlagWord
  pub threads : List Point

-- `DebugFlagWord`; 0 is the identity of no thread.
abbrev pub set_owner : ℕ → DebugFlagWord → Option DebugFlagWord
set_owner tid w = if w.owner == 0 then some (record w { owner = tid }) else none

abbrev pub clear_owner : ℕ → DebugFlagWord → Option DebugFlagWord
clear_owner tid w = if w.owner == tid then some (record w { owner = 0 }) else none

abbrev pub assert_not_owned : ℕ → DebugFlagWord → Option DebugFlagWord
assert_not_owned tid w = if w.owner == tid then none else some w

abbrev pub at_point : Point → Option DebugFlagWord → Option (Point × DebugFlagWord)
at_point p none = none
at_point p (some w) = some (p, w)

-- The next access of a thread: the constructor's loops, then the destructor.
unfoldable pub move : ℕ → Point → DebugFlagWord → Option (Point × DebugFlagWord)
move tid outside w = some (acquiring, w)
move tid acquiring w = if w.flag then some (lost, w) else some (won, record w { flag = true })
move tid lost w = at_point spinning (assert_not_owned tid w)
move tid spinning w = if w.flag then some (spinning, w) else some (acquiring, w)
move tid won w = at_point holding (set_owner tid w)
move tid holding w = at_point leaving (clear_owner tid w)
move tid leaving w = some (outside, record w { flag = false })

abbrev pub moved : ℕ → System → Option (Point × DebugFlagWord) → Option System
moved i s none = none
moved i s (some (p, w)) = some (record { word = w; threads = set s.threads i p })

abbrev pub step_at : ℕ → System → Option Point → Option System
step_at i s none = some s
step_at i s (some p) = moved i s (move (i + 1) p s.word)

-- One step of thread `i`, when there is one.
unfoldable pub thread_step : ℕ → System → Option System
thread_step i s = step_at i s (get_elem? s.threads i)

-- A schedule is the sequence of the threads that take the steps.
abbrev pub and_then : Option System → (System → Option System) → Option System
and_then none k = none
and_then (some s) k = k s

unfoldable pub run : List ℕ → System → Option System
run [] s = some s
run (i ∷ is) s = and_then (thread_step i s) (λ t. run is t)
