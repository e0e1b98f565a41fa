-- ===== src/Buddy/Array.antt =====
-- src/snmalloc/backend_helpers/buddy.h: the whole array of buckets, on which a call starts at the
-- bucket of its size.
use Prim.Native.Nat.{min}
use snmalloc.Base.{ℕ, suc, ◌+◌, ◌-◌, ◌≤◌, ◌≡◌, ◌≢◌, List, [], ◌∷◌, ◌++◌}
use snmalloc.Base.{arith, length, length-append, take, drop, length-take, length-drop}
use snmalloc.Base.{◌∙◌, take-append-drop, sym, ap}
use snmalloc.Buddy.{null, Tree, Rep, Entry, Outcome, add_block, remove_block}
use snmalloc.Buddy.Address.{IsBlock}
use snmalloc.Buddy.Measure.{covers, cover, TreeLaws, total, Buckets, no_buckets, bucket}
use snmalloc.Buddy.Add.{add_block-IsAdded}
use snmalloc.Buddy.Remove.{remove_block-IsTakenOut}
use snmalloc.Buddy.Landing.{HasLanded, HasLanded-widen, add_block-HasLanded}
use snmalloc.Buddy.Laws.{IsBuddy}
use snmalloc.Buddy.Hooks.{KeptBy, add_block-Kept, remove_block-Kept, remove_block-above}

-- The fields of `Buddy`; the state of the representation is kept apart.
pub record Buddy (T : Type 0) : Type 0 where
  pub entries : List (Entry T)
  pub empty_at_or_above : ℕ

module _ {S T : Type 0} (rep : Rep S) (tree : Tree T) (min_size_bits : ℕ) where
  -- `add_block` and `remove_block` of `2 ^ bits` bytes.
  unfoldable pub add_to : (addr bits : ℕ) → Buddy T → S → Outcome S T
  add_to addr bits b s =
      let o =
        add_block rep tree min_size_bits b.empty_at_or_above addr bits
          (drop (bits - min_size_bits) b.entries) s in
      record o { entries = take (bits - min_size_bits) b.entries ++ o.entries }

  unfoldable pub remove_from : (bits : ℕ) → Buddy T → S → Outcome S T
  remove_from bits b s =
      let o =
        remove_block rep tree min_size_bits b.empty_at_or_above bits
          (drop (bits - min_size_bits) b.entries) s in
      record o { entries = take (bits - min_size_bits) b.entries ++ o.entries }

  abbrev pub left_in : Outcome S T → Buddy T
  left_in o = record { entries = o.entries; empty_at_or_above = o.above }

module _ {S T : Type 0} (rep : Rep S) (tree : Tree T) (min_size_bits : ℕ) where
  pub add_to-Kept :
      (addr bits : ℕ) (b : Buddy T) {Kept : S → Type 0}
      → KeptBy rep Kept
      → (s : S) → Kept s
      → Kept ((add_to rep tree min_size_bits addr bits b s).rep)
  unfolding add_to
  add_to-Kept addr bits b hooks s k =
      add_block-Kept rep tree min_size_bits hooks b.empty_at_or_above addr bits
        (drop (bits - min_size_bits) b.entries) s k

  pub remove_from-Kept :
      (bits : ℕ) (b : Buddy T) {Kept : S → Type 0}
      → KeptBy rep Kept
      → (s : S) → Kept s
      → Kept ((remove_from rep tree min_size_bits bits b s).rep)
  unfolding remove_from
  remove_from-Kept bits b hooks s k =
      remove_block-Kept rep tree min_size_bits hooks b.empty_at_or_above bits
        (drop (bits - min_size_bits) b.entries) s k

module _ {T : Type 0} {tree : Tree T} {IsTree : T → Type 0} (laws : TreeLaws tree IsTree)
    (min_size_bits limit : ℕ) where
  total-append :
      (w : ℕ → ℕ → ℕ) (bits k : ℕ) (xs ys : List (Entry T))
      → bits + length xs ≡ k
      → total tree w bits (xs ++ ys) ≡ total tree w bits xs + total tree w k ys
  unfolding total
  total-append w bits k [] ys e = let same : bits ≡ k = omega arith in rw same (omega arith)
  total-append w bits k (x ∷ xs) ys e =
      omega (arith, total-append w (suc bits) k xs ys (omega arith))

  Buckets-append :
      {above : ℕ} (bits k : ℕ) (xs ys : List (Entry T))
      → bits + length xs ≡ k
      → Buckets tree IsTree limit min_size_bits above bits xs
      → Buckets tree IsTree limit min_size_bits above k ys
      → Buckets tree IsTree limit min_size_bits above bits (xs ++ ys)
  Buckets-append bits k [] ys e no_buckets q = let same : k ≡ bits = omega arith in rw same at q
  Buckets-append bits k (x ∷ xs) ys e (bucket ok blocks empty rest) q =
      bucket ok blocks empty (Buckets-append (suc bits) k xs ys (omega arith) rest q)

  Buckets-parts :
      {above : ℕ} (bits k : ℕ) (xs ys : List (Entry T))
      → bits + length xs ≡ k
      → Buckets tree IsTree limit min_size_bits above bits (xs ++ ys)
      → Buckets tree IsTree limit min_size_bits above bits xs
        × Buckets tree IsTree limit min_size_bits above k ys
  Buckets-parts bits k [] ys e q = let same : bits ≡ k = omega arith in (no_buckets, rw same at q)
  Buckets-parts bits k (x ∷ xs) ys e (bucket ok blocks empty rest) =
      let parts = Buckets-parts (suc bits) k xs ys (omega arith) rest in
      (bucket ok blocks empty (parts.0), parts.1)

  -- Another mark serves the smaller buckets too when it is not below both the old one and their end.
  Buckets-mark :
      {above above_2 : ℕ} (bits k : ℕ) (xs : List (Entry T))
      → bits + length xs ≡ k
      → min above (k - min_size_bits) ≤ above_2
      → min_size_bits ≤ bits
      → Buckets tree IsTree limit min_size_bits above bits xs
      → Buckets tree IsTree limit min_size_bits above_2 bits xs
  Buckets-mark bits k [] e le least no_buckets = no_buckets
  Buckets-mark bits k (x ∷ xs) e le least (bucket ok blocks empty rest) =
      bucket ok blocks (λ h. empty (omega arith))
        (Buckets-mark (suc bits) k xs (omega arith) le (omega arith) rest)

module _ {S T : Type 0} (rep : Rep S) {tree : Tree T} {IsTree : T → Type 0}
    (laws : TreeLaws tree IsTree) (min_size_bits limit : ℕ) where
  abbrev pub IsArray : Buddy T → Type 0
  IsArray b = IsBuddy rep tree laws min_size_bits limit b.empty_at_or_above min_size_bits b.entries

  -- The free blocks of the array in a measure.
  abbrev pub array_total : (ℕ → ℕ → ℕ) → Buddy T → ℕ
  array_total w b = total tree w min_size_bits b.entries

  module _ (bits : ℕ) (least : min_size_bits ≤ bits) (most : bits ≤ limit) (b : Buddy T)
      (ok : IsArray b) where
    abbrev lower_part : List (Entry T)
    lower_part = take (bits - min_size_bits) b.entries

    abbrev upper_part : List (Entry T)
    upper_part = drop (bits - min_size_bits) b.entries

    lower_length : min_size_bits + length lower_part ≡ bits
    lower_length = omega (arith, length-take (bits - min_size_bits) b.entries, ok.reaches)

    total-parts :
        (w : ℕ → ℕ → ℕ)
        → total tree w min_size_bits b.entries
          ≡ total tree w min_size_bits lower_part + total tree w bits upper_part
    total-parts w =
        ap (total tree w min_size_bits) (sym (take-append-drop (bits - min_size_bits) b.entries))
        ∙ total-append laws min_size_bits limit w min_size_bits bits lower_part upper_part
            lower_length

    parts :
        Buckets tree IsTree limit min_size_bits b.empty_at_or_above min_size_bits lower_part
        × Buckets tree IsTree limit min_size_bits b.empty_at_or_above bits upper_part
    parts =
        Buckets-parts laws min_size_bits limit min_size_bits bits lower_part upper_part lower_length
          (rw (sym (take-append-drop (bits - min_size_bits) b.entries)) at ok.buckets)

    upper_reaches : bits + length upper_part ≡ limit
    upper_reaches = omega (arith, length-drop (bits - min_size_bits) b.entries, ok.reaches)

    lower_total :
        (w : ℕ → ℕ → ℕ) (es : List (Entry T))
        → total tree w min_size_bits (lower_part ++ es)
          ≡ total tree w min_size_bits lower_part + total tree w bits es
    lower_total w es =
        total-append laws min_size_bits limit w min_size_bits bits lower_part es lower_length

    -- New upper buckets behind the old lower ones.
    rejoin :
        (above : ℕ) (es : List (Entry T))
        → Buckets tree IsTree limit min_size_bits above bits es
        → bits + length es ≡ limit
        → min b.empty_at_or_above (bits - min_size_bits) ≤ above
        → ((x : ℕ)
            → total tree (covers x) min_size_bits lower_part + total tree (covers x) bits es ≤ 1)
        → IsBuddy rep tree laws min_size_bits limit above min_size_bits (lower_part ++ es)
    rejoin above es blocks reaches mark apart = record {
      in_word = ok.in_word;
      reaches = omega (arith, reaches, lower_length, length-append lower_part es);
      buckets =
          Buckets-append laws min_size_bits limit min_size_bits bits lower_part es lower_length
            (Buckets-mark laws min_size_bits limit min_size_bits bits lower_part lower_length mark
              (omega arith) parts.0)
            blocks;
      apart = λ x. omega (arith, apart x, lower_total (covers x) es);
    }

    pub add_to_lem :
        (addr : ℕ) (s : S)
        → addr ≢ null
        → IsBlock limit bits addr
        → ((x : ℕ) → array_total (covers x) b + covers x bits addr ≤ 1)
        → let o = add_to rep tree min_size_bits addr bits b s in
          IsArray (left_in rep tree min_size_bits o)
          × IsBlock limit limit o.block
          × ((x : ℕ)
              → array_total (covers x) (left_in rep tree min_size_bits o) + covers x limit o.block
                ≡ array_total (covers x) b + covers x bits addr)
    unfolding add_to cover
    add_to_lem addr s nonnull block new =
        let added =
          add_block-IsAdded laws min_size_bits limit rep b.empty_at_or_above addr bits upper_part s
            ok.in_word upper_reaches parts.1 nonnull block
            (λ x. omega (arith, new x, total-parts (covers x))) in
        let kept : (x : ℕ) → total tree (covers x) bits _ + covers x limit _ ≡ _ =
          λ x. added.added-total (cover x) in
        (
          rejoin _ _ added.added-Buckets (omega (arith, added.added-length, upper_reaches))
              (omega (arith, added.added-above))
              (λ x. omega (arith, kept x, new x, total-parts (covers x))),
          added.added-block,
          λ x. omega (arith, kept x, total-parts (covers x), lower_total (covers x) _),
        )

    pub remove_from_lem :
        (s : S)
        → let o = remove_from rep tree min_size_bits bits b s in
          IsArray (left_in rep tree min_size_bits o)
          × IsBlock limit bits o.block
          × ((x : ℕ)
              → array_total (covers x) (left_in rep tree min_size_bits o) + covers x bits o.block
                ≡ array_total (covers x) b)
    unfolding remove_from cover
    remove_from_lem s =
        let out =
          remove_block-IsTakenOut laws min_size_bits limit rep b.empty_at_or_above bits upper_part s
            ok.in_word upper_reaches parts.1
            (λ x. omega (arith, ok.apart x, total-parts (covers x))) in
        let kept : (x : ℕ) → total tree (covers x) bits _ + covers x bits _ ≡ _ =
          λ x. out.left-total (cover x) in
        (
          rejoin _ _ out.left-Buckets (omega (arith, out.left-length, upper_reaches))
              (remove_block-above rep tree min_size_bits b.empty_at_or_above bits upper_part s)
              (λ x. omega (arith, kept x, ok.apart x, total-parts (covers x))),
          out.left-block,
          λ x. omega (arith, kept x, total-parts (covers x), lower_total (covers x) _),
        )

    -- Where the block lands, of the whole array.
    pub add_to-HasLanded :
        (addr : ℕ) (s : S)
        → addr ≢ null
        → IsBlock limit bits addr
        → ((x : ℕ) → array_total (covers x) b + covers x bits addr ≤ 1)
        → let o = add_to rep tree min_size_bits addr bits b s in
          HasLanded laws min_size_bits limit addr min_size_bits o.block o.entries o.landed
    unfolding add_to
    add_to-HasLanded addr s nonnull block new =
        HasLanded-widen laws min_size_bits limit addr min_size_bits bits _ _ _ _ least
          (λ x. omega (arith, lower_total (covers x) _))
          (add_block-HasLanded laws min_size_bits limit rep b.empty_at_or_above addr bits upper_part
            s ok.in_word upper_reaches parts.1 nonnull block
            (λ x. omega (arith, new x, total-parts (covers x))))
