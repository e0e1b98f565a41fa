-- ===== src/FlagLock/Progress.antt =====
-- src/snmalloc/ds_aal/flaglock.h: no state is a deadlock.
use snmalloc.Base.{ℕ, zero, suc, ◌≤◌, ◌<◌, ◌≡◌, inl, inr, refl, ap, sym, ◌∙◌, arith}
use snmalloc.Base.{false, some, Bool-cases}
use snmalloc.Base.{List, [], ◌∷◌, get_elem?, lt-or-le, sum, length}
use snmalloc.FlagLock.{Point, outside, acquiring, lost, spinning, won, holding, leaving}
use snmalloc.FlagLock.{System, thread_step, run}
use snmalloc.FlagLock.Invariant.{taken, IsLock, run-IsLock, start, start-IsLock}
use mathlib.Core.Option.{some-injective}
use snmalloc.FlagLock.Owner.{inside}
use snmalloc.FlagLock.Moves.{advance}

-- A schedule that leads thread `i` to the point `p`, with the invariant there.
record Reaches (s : System) (i : ℕ) (p : Point) : Type 0 where
  schedule : List ℕ
  state : System
  reached : run schedule s ≡ some state
  arrived : get_elem? state.threads i ≡ some p
  ok : IsLock state

extend :
    {s t : System} {i : ℕ} {p : Point} (k : ℕ)
    → thread_step k s ≡ some t
    → Reaches t i p
    → Reaches s i p
unfolding run
extend {s} {t} k e r = record {
  schedule = k ∷ r.schedule;
  state = r.state;
  reached = rw e r.reached;
  arrived = r.arrived;
  ok = r.ok;
}

from_won : (i : ℕ) (s : System) → IsLock s → get_elem? s.threads i ≡ some won → Reaches s i holding
unfolding run
from_won i s ok e =
    let (t, a) = advance i won s ok e in
    extend i a.stepped
      (record { schedule = []; state = t; reached = refl; arrived = a.moved_on; ok = a.still_ok })

-- With the flag clear, a waiting thread takes the word by its own steps.
from_acquiring :
    (i : ℕ) (s : System)
    → IsLock s
    → s.word.flag ≡ false
    → get_elem? s.threads i ≡ some acquiring
    → Reaches s i holding
from_acquiring i s ok free e =
    let (t, a) = advance i acquiring s ok e in
    extend i a.stepped (from_won i t a.still_ok (rw free at a.moved_on))

from_spinning :
    (i : ℕ) (s : System)
    → IsLock s
    → s.word.flag ≡ false
    → get_elem? s.threads i ≡ some spinning
    → Reaches s i holding
from_spinning i s ok free e =
    let (t, a) = advance i spinning s ok e in
    extend i a.stepped (from_acquiring i t a.still_ok (a.new_flag ∙ free) (rw free at a.moved_on))

from_outside :
    (i : ℕ) (s : System)
    → IsLock s
    → s.word.flag ≡ false
    → get_elem? s.threads i ≡ some outside
    → Reaches s i holding
from_outside i s ok free e =
    let (t, a) = advance i outside s ok e in
    extend i a.stepped (from_acquiring i t a.still_ok (a.new_flag ∙ free) a.moved_on)

from_free :
    (i : ℕ) (s : System) (p : Point)
    → IsLock s
    → s.word.flag ≡ false
    → get_elem? s.threads i ≡ some p
    → Reaches s i holding
unfolding run
from_free i s outside ok free e = from_outside i s ok free e
from_free i s acquiring ok free e = from_acquiring i s ok free e
from_free i s lost ok free e =
    let (t, a) = advance i lost s ok e in
    extend i a.stepped (from_spinning i t a.still_ok (a.new_flag ∙ free) a.moved_on)
from_free i s spinning ok free e = from_spinning i s ok free e
from_free i s won ok free e = from_won i s ok e
from_free i s holding ok free e = record {
  schedule = [];
  state = s;
  reached = refl;
  arrived = e;
  ok = ok;
}
from_free i s leaving ok free e =
    let (t, a) = advance i leaving s ok e in
    extend i a.stepped (from_outside i t a.still_ok a.new_flag a.moved_on)

point_below :
    {A : Type 0} (ps : List A) (i : ℕ) → i < length ps → (p : A) × (get_elem? ps i ≡ some p)
point_below [] i h = absurd (omega arith)
point_below (x ∷ ps) zero h = (x, refl)
point_below (x ∷ ps) (suc i) h = point_below ps i (omega arith)

-- With the flag set, the thread inside frees the word by its own steps.
after_leaving :
    (i h : ℕ) (s : System)
    → IsLock s
    → i < length s.threads
    → get_elem? s.threads h ≡ some leaving
    → Reaches s i holding
after_leaving i h s ok small e =
    let (t, a) = advance h leaving s ok e in
    let (p, at_p) = point_below t.threads i (omega (arith, a.same_length)) in
    extend h a.stepped (from_free i t p a.still_ok a.new_flag at_p)

after_holding :
    (i h : ℕ) (s : System)
    → IsLock s
    → i < length s.threads
    → get_elem? s.threads h ≡ some holding
    → Reaches s i holding
after_holding i h s ok small e =
    let (t, a) = advance h holding s ok e in
    extend h a.stepped (after_leaving i h t a.still_ok (omega (arith, a.same_length)) a.moved_on)

after_inside :
    (i h : ℕ) (s : System) (p : Point)
    → IsLock s
    → i < length s.threads
    → get_elem? s.threads h ≡ some p
    → inside p ≡ 1
    → Reaches s i holding
unfolding inside
after_inside i h s won ok small e one =
    let (t, a) = advance h won s ok e in
    extend h a.stepped (after_holding i h t a.still_ok (omega (arith, a.same_length)) a.moved_on)
after_inside i h s holding ok small e one = after_holding i h s ok small e
after_inside i h s leaving ok small e one = after_leaving i h s ok small e
after_inside i h s outside ok small e one = absurd (omega arith)
after_inside i h s acquiring ok small e one = absurd (omega arith)
after_inside i h s lost ok small e one = absurd (omega arith)
after_inside i h s spinning ok small e one = absurd (omega arith)

inside-le : (p : Point) → inside p ≤ 1
unfolding inside
inside-le won = omega arith
inside-le holding = omega arith
inside-le leaving = omega arith
inside-le outside = omega arith
inside-le acquiring = omega arith
inside-le lost = omega arith
inside-le spinning = omega arith

find_inside :
    (ps : List Point)
    → 1 ≤ sum inside ps
    → (h : ℕ) × (p : Point) × (get_elem? ps h ≡ some p) × (inside p ≡ 1)
unfolding sum
find_inside [] one = absurd (omega arith)
find_inside (x ∷ ps) one = elim (lt-or-le (inside x) 1) [
  | inl out ↦ let (h, p, e, ip) = find_inside ps (omega arith) in (suc h, p, e, ip)
  | inr in_ ↦ (0, x, refl, omega (arith, inside-le x))
]

Reaches-holding : (i : ℕ) (s : System) → IsLock s → i < length s.threads → Reaches s i holding
unfolding taken
Reaches-holding i s ok small = elim (Bool-cases s.word.flag) [
  | inl on ↦
      let (h, p, e, one) = find_inside s.threads (omega (arith, ok.one_inside, ap taken on)) in
      after_inside i h s p ok small e one
  | inr off ↦ let (p, e) = point_below s.threads i small in from_free i s p ok off e
]

-- From every state that a schedule of threads that start outside reaches, and for each of the
-- threads, some further schedule leads to a state in which that thread runs its function: no
-- state is a deadlock.
pub run_reaches_holding :
    (n : ℕ) (is : List ℕ) (i : ℕ) (t : System)
    → run is (start n) ≡ some t
    → i < length t.threads
    → (js : List ℕ) × (u : System) × (run js t ≡ some u) × (get_elem? u.threads i ≡ some holding)
run_reaches_holding n is i t reached small =
    let (v, e, ok) = run-IsLock is (start n) (start-IsLock n) in
    let same : v ≡ t = some-injective v t (sym e ∙ reached) in
    let r = Reaches-holding i t (rw same at ok) small in (r.schedule, r.state, r.reached, r.arrived)
