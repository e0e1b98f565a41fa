-- ===== src/FlagLock/Moves.antt =====
-- src/snmalloc/ds_aal/flaglock.h: what one step leaves of the points, the flag and the list.
use snmalloc.Base.{ℕ, zero, suc, ◌+◌, ◌≡◌, inl, inr, refl, ap, sym, ◌∙◌}
use snmalloc.Base.{Bool, true, false, ◌==◌, Option, none, some, Bool-cases}
use snmalloc.Base.{List, [], ◌∷◌, get_elem?, set, length-set, length}
use snmalloc.FlagLock.{Point, outside, acquiring, lost, spinning, won, holding, leaving}
use snmalloc.FlagLock.{DebugFlagWord, System, move, moved, thread_step, step_at}
use snmalloc.FlagLock.Invariant.{IsLock, thread_step-IsLock}
use mathlib.Core.Option.{some-injective, none-ne-some}

get_set :
    (ps : List Point) (i : ℕ) (p q : Point)
    → get_elem? ps i ≡ some p
    → get_elem? (set ps i q) i ≡ some q
get_set [] i p q e = absurd (none-ne-some p e)
get_set (x ∷ ps) zero p q e = refl
get_set (x ∷ ps) (suc i) p q e = get_set ps i p q e

abbrev pub next : Bool → Point → Point
next b outside = acquiring
next true acquiring = lost
next false acquiring = won
next b lost = spinning
next true spinning = spinning
next false spinning = acquiring
next b won = holding
next b holding = leaving
next b leaving = outside

abbrev pub next_flag : Bool → Point → Bool
next_flag b acquiring = true
next_flag b leaving = false
next_flag b outside = b
next_flag b lost = b
next_flag b spinning = b
next_flag b won = b
next_flag b holding = b

IsMove : Bool → Point → Option (Point × DebugFlagWord) → Type 0
IsMove b p none = Unit
IsMove b p (some (q, w)) = (q ≡ next b p) × (w.flag ≡ next_flag b p)

move-IsMove :
    (tid : ℕ) (p : Point) (b : Bool) (owner : ℕ)
    → IsMove b p (move tid p (record { flag = b; owner = owner }))
unfolding move IsMove
move-IsMove tid outside b owner = (refl, refl)
move-IsMove tid acquiring true owner = (refl, refl)
move-IsMove tid acquiring false owner = (refl, refl)
move-IsMove tid lost b owner = elim (Bool-cases (owner == tid)) [
  | inl own ↦ rw own tt
  | inr other ↦ rw other (refl, refl)
]
move-IsMove tid spinning true owner = (refl, refl)
move-IsMove tid spinning false owner = (refl, refl)
move-IsMove tid won b owner = elim (Bool-cases (owner == 0)) [
  | inl nobody ↦ rw nobody (refl, refl)
  | inr other ↦ rw other tt
]
move-IsMove tid holding b owner = elim (Bool-cases (owner == tid)) [
  | inl own ↦ rw own (refl, refl)
  | inr other ↦ rw other tt
]
move-IsMove tid leaving b owner = (refl, refl)

-- What a step of the thread at `i`, at the point `p`, leaves.
pub record Advance (i : ℕ) (p : Point) (s t : System) : Type 0 where
  pub stepped : thread_step i s ≡ some t
  pub still_ok : IsLock t
  pub moved_on : get_elem? t.threads i ≡ some (next s.word.flag p)
  pub new_flag : t.word.flag ≡ next_flag s.word.flag p
  pub same_length : length t.threads ≡ length s.threads

moved-shape :
    (i : ℕ) (p : Point) (s t : System) (o : Option (Point × DebugFlagWord))
    → get_elem? s.threads i ≡ some p
    → IsMove s.word.flag p o
    → moved i s o ≡ some t
    → (get_elem? t.threads i ≡ some (next s.word.flag p))
      × (t.word.flag ≡ next_flag s.word.flag p)
      × (length t.threads ≡ length s.threads)
unfolding IsMove
moved-shape i p s t none e m h = absurd (none-ne-some t h)
moved-shape i p s t (some (q, w)) e m h =
    let same : record { word = w; threads = set s.threads i q } ≡ t = some-injective _ t h in
    (
      ap (λ (u : System). get_elem? u.threads i) (sym same)
          ∙ get_set s.threads i p q e
          ∙ ap some (m.0),
      ap (λ (u : System). u.word.flag) (sym same) ∙ m.1,
      ap (λ (u : System). length u.threads) (sym same) ∙ length-set s.threads i q,
    )

step_moved :
    (i : ℕ) (p : Point) (s t : System)
    → get_elem? s.threads i ≡ some p
    → thread_step i s ≡ some t
    → moved i s (move (i + 1) p s.word) ≡ some t
unfolding thread_step
step_moved i p s t e h = ap (step_at i s) (sym e) ∙ h

pub advance :
    (i : ℕ) (p : Point) (s : System)
    → IsLock s
    → get_elem? s.threads i ≡ some p
    → (t : System) × Advance i p s t
advance i p s ok e =
    let (t, stepped, ok_t) = thread_step-IsLock i s ok in
    let shape =
      moved-shape i p s t (move (i + 1) p s.word) e (move-IsMove (i + 1) p s.word.flag s.word.owner)
        (step_moved i p s t e stepped) in
    (
      t,
      record {
        stepped = stepped;
        still_ok = ok_t;
        moved_on = shape.0;
        new_flag = shape.1;
        same_length = shape.2;
      },
    )
