-- ===== src/FlagLock/Invariant.antt =====
-- src/snmalloc/ds_aal/flaglock.h: mutual exclusion, and the assertions of `DebugFlagWord`.
use snmalloc.Base.{ℕ, zero, suc, ◌+◌, ◌≤◌, ◌≡◌, inl, inr, refl, ap, sym, ◌∙◌, arith}
use snmalloc.Base.{Bool, true, false, ◌==◌, some, Bool-cases, Option-cases}
use snmalloc.Base.{List, [], ◌∷◌, get_elem?, replicate, sum, sum-set}
use snmalloc.FlagLock.{Point, outside, acquiring, lost, spinning, won, holding, leaving}
use snmalloc.FlagLock.{System, move, moved, thread_step, run}
use mathlib.Core.Option.{some-injective, none-ne-some}
use snmalloc.FlagLock.Owner.{
  inside, owns, owner_of, none_inside, owner_of-set, owner_inside, owner_elsewhere,
}

unfoldable pub taken : Bool → ℕ
taken true = 1
taken false = 0

pub record IsLock (s : System) : Type 0 where
  pub one_inside : sum inside s.threads ≡ taken s.word.flag
  pub owner_right : s.word.owner ≡ owner_of 0 s.threads

taken-le : (b : Bool) → taken b ≤ 1
unfolding taken
taken-le true = omega arith
taken-le false = omega arith

move-IsLock :
    (i : ℕ) (s : System) (p : Point)
    → get_elem? s.threads i ≡ some p
    → IsLock s
    → (t : System) × (moved i s (move (i + 1) p s.word) ≡ some t) × IsLock t
unfolding move inside owns taken
move-IsLock i s outside e ok = (
  _,
  refl,
  record {
    one_inside = omega (arith, ok.one_inside, sum-set inside s.threads i acquiring e);
    owner_right = omega (arith, ok.owner_right, owner_of-set 0 s.threads i outside acquiring e);
  },
)
move-IsLock i s acquiring e ok = elim (Bool-cases s.word.flag) [
  | inl on ↦ rw on (
    _,
    refl,
    record {
      one_inside = omega (arith, ok.one_inside, ap taken on, sum-set inside s.threads i lost e);
      owner_right = omega (arith, ok.owner_right, owner_of-set 0 s.threads i acquiring lost e);
    },
  )
  | inr off ↦ rw off (
    _,
    refl,
    record {
      one_inside = omega (arith, ok.one_inside, ap taken off, sum-set inside s.threads i won e);
      owner_right = omega (arith, ok.owner_right, owner_of-set 0 s.threads i acquiring won e);
    },
  )
]
move-IsLock i s lost e ok =
    let other : (s.word.owner == i + 1) ≡ false = ground (
      arith,
      ok.owner_right,
      owner_elsewhere 0 s.threads i lost e refl
          (omega (arith, ok.one_inside, taken-le s.word.flag)),
    ) in
    rw other (
      _,
      refl,
      record {
        one_inside = omega (arith, ok.one_inside, sum-set inside s.threads i spinning e);
        owner_right = omega (arith, ok.owner_right, owner_of-set 0 s.threads i lost spinning e);
      },
    )
move-IsLock i s spinning e ok = elim (Bool-cases s.word.flag) [
  | inl on ↦ rw on (
    _,
    refl,
    record {
      one_inside = omega (arith, ok.one_inside, ap taken on, sum-set inside s.threads i spinning e);
      owner_right = omega (arith, ok.owner_right, owner_of-set 0 s.threads i spinning spinning e);
    },
  )
  | inr off ↦ rw off (
    _,
    refl,
    record {
      one_inside =
          omega (arith, ok.one_inside, ap taken off, sum-set inside s.threads i acquiring e);
      owner_right = omega (arith, ok.owner_right, owner_of-set 0 s.threads i spinning acquiring e);
    },
  )
]
move-IsLock i s won e ok =
    let own =
      owner_inside 0 s.threads i won e refl (omega (arith, ok.one_inside, taken-le s.word.flag)) in
    let nobody : (s.word.owner == 0) ≡ true = ground (arith, ok.owner_right, own) in
    rw nobody (
      _,
      refl,
      record {
        one_inside = omega (arith, ok.one_inside, sum-set inside s.threads i holding e);
        owner_right = omega (arith, own, ok.owner_right, owner_of-set 0 s.threads i won holding e);
      },
    )
move-IsLock i s holding e ok =
    let own =
      owner_inside 0 s.threads i holding e refl
        (omega (arith, ok.one_inside, taken-le s.word.flag)) in
    let self : (s.word.owner == i + 1) ≡ true = ground (arith, ok.owner_right, own) in
    rw self (
      _,
      refl,
      record {
        one_inside = omega (arith, ok.one_inside, sum-set inside s.threads i leaving e);
        owner_right =
            omega (arith, own, ok.owner_right, owner_of-set 0 s.threads i holding leaving e);
      },
    )
move-IsLock i s leaving e ok = (
  _,
  refl,
  record {
    one_inside =
        omega (arith, ok.one_inside, taken-le s.word.flag, sum-set inside s.threads i outside e);
    owner_right = omega (arith, ok.owner_right, owner_of-set 0 s.threads i leaving outside e);
  },
)

pub thread_step-IsLock :
    (i : ℕ) (s : System) → IsLock s → (t : System) × (thread_step i s ≡ some t) × IsLock t
unfolding thread_step
thread_step-IsLock i s ok = elim (Option-cases (get_elem? s.threads i)) [
  | inl nobody ↦ rw nobody (s, refl, ok)
  | inr (p, e) ↦ rw e (move-IsLock i s p e ok)
]

-- From a state in which the flag is set exactly when one thread is between taking and freeing the
-- word, none otherwise, and the owner is the thread that runs its function, if any: no step of any
-- schedule fails an assertion, and the state reached is again such a state.
pub run-IsLock :
    (is : List ℕ) (s : System) → IsLock s → (t : System) × (run is s ≡ some t) × IsLock t
unfolding run
run-IsLock [] s ok = (s, refl, ok)
run-IsLock (i ∷ is) s ok =
    let (t, e, ok_t) = thread_step-IsLock i s ok in rw e (run-IsLock is t ok_t)

abbrev pub start : ℕ → System
start n = record { word = record { flag = false; owner = 0 }; threads = replicate n outside }

all_outside : (n : ℕ) → sum inside (replicate n outside) ≡ 0
unfolding sum inside
all_outside zero = refl
all_outside (suc n) = omega (arith, all_outside n)

pub start-IsLock : (n : ℕ) → IsLock (start n)
unfolding taken
start-IsLock n = record {
  one_inside = all_outside n;
  owner_right = sym (none_inside 0 (replicate n outside) (all_outside n));
}

inside_once :
    (ps : List Point) (i j : ℕ) (p q : Point)
    → sum inside ps ≤ 1
    → get_elem? ps i ≡ some p
    → get_elem? ps j ≡ some q
    → inside p ≡ 1
    → inside q ≡ 1
    → i ≡ j
unfolding sum inside
inside_once [] i j p q one ei ej hp hq = absurd (none-ne-some p ei)
inside_once (x ∷ ps) zero zero p q one ei ej hp hq = refl
inside_once (x ∷ ps) zero (suc j) p q one ei ej hp hq =
    absurd (omega (arith, ap inside (some-injective x p ei), sum-set inside ps j outside ej))
inside_once (x ∷ ps) (suc i) zero p q one ei ej hp hq =
    absurd (omega (arith, ap inside (some-injective x q ej), sum-set inside ps i outside ei))
inside_once (x ∷ ps) (suc i) (suc j) p q one ei ej hp hq =
    ap suc (inside_once ps i j p q (omega arith) ei ej hp hq)

-- Of any number of threads that start outside, in a state that a schedule reaches: two threads
-- that both are past the exchange that took the word and not yet past the store that frees it,
-- with the function passed to `with` between, are the same thread.
pub run-inside :
    (n : ℕ) (is : List ℕ) (i j : ℕ) (p q : Point) (t : System)
    → run is (start n) ≡ some t
    → get_elem? t.threads i ≡ some p
    → get_elem? t.threads j ≡ some q
    → inside p ≡ 1
    → inside q ≡ 1
    → i ≡ j
run-inside n is i j p q t reached ei ej hp hq =
    let (u, e, ok) = run-IsLock is (start n) (start-IsLock n) in
    let same : u ≡ t = some-injective u t (sym e ∙ reached) in
    inside_once t.threads i j p q
      (omega (
        arith,
        ok.one_inside,
        taken-le u.word.flag,
        ap (λ (v : System). sum inside v.threads) same,
      ))
      ei ej hp hq
