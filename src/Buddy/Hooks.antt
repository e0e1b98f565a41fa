-- ===== src/Buddy/Hooks.antt =====
-- src/snmalloc/backend_helpers/buddy.h: the state of the representation and the histogram, which
-- only their hooks change.
use Prim.Native.Nat.{min}
use snmalloc.Base.{ℕ, suc, ◌-◌, ◌^◌, ◌≤◌, inl, inr, arith}
use snmalloc.Base.{leb, ◌==◌, List, [], ◌∷◌, Bool-cases}
use snmalloc.Buddy.{null, buddy, rep_align_down, offset, Tree, Rep, Entry, Outcome}
use snmalloc.Buddy.{to_index, take_buddy, remove_buddy, has, land, add_block}
use snmalloc.Buddy.{split, take_block, not_null, is_last, remove_block}

-- A property of the state that every hook keeps.
pub record KeptBy {S : Type 0} (rep : Rep S) (Kept : S → Type 0) : Type 0 where
  pub on_consolidate-Kept : (a size : ℕ) (s : S) → Kept s → Kept (rep.on_consolidate a size s)
  pub on_split-Kept : (a b size : ℕ) (s : S) → Kept s → Kept (rep.on_split a b size s)
  pub on_add-Kept : (bits : ℕ) (s : S) → Kept s → Kept (rep.on_add bits s)
  pub on_remove-Kept : (bits : ℕ) (s : S) → Kept s → Kept (rep.on_remove bits s)

module _ {S T : Type 0} (rep : Rep S) (tree : Tree T) (min_size_bits : ℕ) {Kept : S → Type 0}
    (hooks : KeptBy rep Kept) where
  take_buddy-Kept :
      (addr bits : ℕ) (e : Entry T) (s : S) (e_without : Entry T)
      → Kept s
      → Kept ((take_buddy rep tree min_size_bits addr bits e s e_without).rep)
  unfolding take_buddy
  take_buddy-Kept addr bits e s e_without k =
      elim (Bool-cases (rep.can_consolidate s addr (2 ^ bits))) [
        | inl allowed ↦
            rw allowed (hooks.on_remove-Kept bits _ (hooks.on_consolidate-Kept _ (2 ^ bits) s k))
        | inr kept ↦ rw kept k
      ]

  remove_buddy-Kept :
      (above addr bits : ℕ) (e : Entry T) (s : S)
      → Kept s
      → Kept ((remove_buddy rep tree min_size_bits above addr bits e s).rep)
  unfolding remove_buddy
  remove_buddy-Kept above addr bits e s k =
      elim (Bool-cases (leb above (to_index rep tree min_size_bits bits))) [
        | inl shut ↦ rw shut k
        | inr used ↦ elim (Bool-cases (has (buddy addr (2 ^ bits)) e.cache)) [
          | inl cached ↦ rw (used, cached) (take_buddy-Kept addr bits e s _ k)
          | inr not_cached ↦ elim (Bool-cases (tree.find e.tree (buddy addr (2 ^ bits)))) [
            | inl in_tree ↦ rw (used, not_cached, in_tree) (take_buddy-Kept addr bits e s _ k)
            | inr nowhere ↦ rw (used, not_cached, nowhere) k
          ]
        ]
      ]

  pub add_block-Kept :
      (above addr bits : ℕ) (es : List (Entry T)) (s : S)
      → Kept s
      → Kept ((add_block rep tree min_size_bits above addr bits es s).rep)
  unfolding add_block land
  add_block-Kept above addr bits [] s k = k
  add_block-Kept above addr bits (e ∷ es) s k =
      let r = remove_buddy rep tree min_size_bits above addr bits e s in
      elim (Bool-cases (r.found)) [
        | inl found ↦ rw found (
            add_block-Kept above (rep_align_down addr (2 ^ suc bits)) (suc bits) es _ (
              hooks.on_consolidate-Kept addr (2 ^ bits) _
                (remove_buddy-Kept above addr bits e s k)))
        | inr alone ↦ rw alone (hooks.on_add-Kept bits _ (remove_buddy-Kept above addr bits e s k))
      ]

  split-Kept :
      (bits : ℕ) (e : Entry T) (o : Outcome S T)
      → Kept o.rep
      → Kept ((split rep tree min_size_bits bits e o).rep)
  unfolding split
  split-Kept bits e o k = elim (Bool-cases (o.block == null)) [
    | inl none_bigger ↦ rw none_bigger k
    | inr halved ↦ rw halved (
        add_block-Kept o.above (offset o.block (2 ^ bits)) bits (e ∷ o.entries) _
          (hooks.on_split-Kept o.block _ (2 ^ bits) o.rep k))
  ]

  pub remove_block-Kept :
      (above bits : ℕ) (es : List (Entry T)) (s : S)
      → Kept s
      → Kept ((remove_block rep tree min_size_bits above bits es s).rep)
  unfolding remove_block
  remove_block-Kept above bits [] s k = k
  remove_block-Kept above bits (e ∷ es) s k =
      elim (Bool-cases (leb above (to_index rep tree min_size_bits bits))) [
        | inl shut ↦ rw shut k
        | inr used ↦ elim (Bool-cases (not_null ((take_block rep tree min_size_bits e).0))) [
          | inl own ↦ rw (used, own) (hooks.on_remove-Kept bits s k)
          | inr empty ↦ elim (Bool-cases (is_last es)) [
            | inl last ↦ rw (used, empty, last) k
            | inr more ↦
                rw (used, empty, more)
                  (split-Kept bits ((take_block rep tree min_size_bits e).1) _
                    (remove_block-Kept above (suc bits) es s k))
          ]
        ]
      ]

-- `empty_at_or_above` never falls below the index of the size that is asked for.
module _ {S T : Type 0} (rep : Rep S) (tree : Tree T) (min_size_bits : ℕ) where
  pub add_block-above :
      (above addr bits : ℕ) (es : List (Entry T)) (s : S)
      → above ≤ (add_block rep tree min_size_bits above addr bits es s).above
  unfolding add_block land
  add_block-above above addr bits [] s = omega arith
  add_block-above above addr bits (e ∷ es) s =
      let r = remove_buddy rep tree min_size_bits above addr bits e s in
      elim (Bool-cases (r.found)) [
        | inl found ↦
            rw found (add_block-above above (rep_align_down addr (2 ^ suc bits)) (suc bits) es _)
        | inr alone ↦ rw alone (omega arith)
      ]

  split-above :
      (bits : ℕ) (e : Entry T) (o : Outcome S T)
      → min o.above (bits - min_size_bits) ≤ (split rep tree min_size_bits bits e o).above
  unfolding split
  split-above bits e o = elim (Bool-cases (o.block == null)) [
    | inl none_bigger ↦ rw none_bigger (omega arith)
    | inr halved ↦ rw halved (
        omega (
          arith,
          add_block-above o.above (offset o.block (2 ^ bits)) bits (e ∷ o.entries)
              (rep.on_split o.block (offset o.block (2 ^ bits)) (2 ^ bits) o.rep),
        ))
  ]

  pub remove_block-above :
      (above bits : ℕ) (es : List (Entry T)) (s : S)
      → min above (bits - min_size_bits)
        ≤ (remove_block rep tree min_size_bits above bits es s).above
  unfolding remove_block
  remove_block-above above bits [] s = omega arith
  remove_block-above above bits (e ∷ es) s =
      elim (Bool-cases (leb above (to_index rep tree min_size_bits bits))) [
        | inl shut ↦ rw shut (omega arith)
        | inr used ↦ elim (Bool-cases (not_null ((take_block rep tree min_size_bits e).0))) [
          | inl own ↦ rw (used, own) (omega arith)
          | inr empty ↦ elim (Bool-cases (is_last es)) [
            | inl last ↦ rw (used, empty, last) (omega arith)
            | inr more ↦
                rw (used, empty, more)
                  (omega (
                    arith,
                    split-above bits ((take_block rep tree min_size_bits e).1)
                        (remove_block rep tree min_size_bits above (suc bits) es s),
                    remove_block-above above (suc bits) es s,
                  ))
          ]
        ]
      ]
