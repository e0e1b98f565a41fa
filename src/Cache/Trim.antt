-- ===== src/Cache/Trim.antt =====
-- `dealloc_local_slabs`: the unused slabs go back, all others stay.
use snmalloc.Base.{
  ℕ, ◌+◌, ◌-◌, ◌%◌, ◌^◌, ◌≤◌, ◌<◌, ◌≡◌, refl, sym, ap, ◌∙◌, arith, Bool, true, false, ◌==◌,
  if◌then◌else◌,
}
use snmalloc.Base.{List, [], ◌∷◌, ◌++◌, All, all_cons, sum, length, Bool-cases, inl, inr}
use snmalloc.SlabMeta.{Slab, is_unused}
use snmalloc.SlabMeta.Counters.{IsAwake}
use snmalloc.Cache.{Cache, trim_slab, trim_slabs, dealloc_local_slabs}
use snmalloc.Cache.Invariant.{IsCache, unused_count, sum-unused_count-le}

-- The slabs of a list that are unused, or those that are not, in their order.
unfoldable pub slabs_with : (unused : Bool) → List Slab → List Slab
slabs_with unused [] = []
slabs_with true (m ∷ ms) = let rest = slabs_with true ms in if is_unused m then m ∷ rest else rest
slabs_with false (m ∷ ms) = let rest = slabs_with false ms in if is_unused m then rest else m ∷ rest

append_assoc : (xs ys zs : List Slab) → (xs ++ ys) ++ zs ≡ xs ++ (ys ++ zs)
append_assoc [] ys zs = refl
append_assoc (x ∷ xs) ys zs = ap (λ (t : List Slab). x ∷ t) (append_assoc xs ys zs)

append_nil : (xs : List Slab) → xs ++ [] ≡ xs
append_nil [] = refl
append_nil (x ∷ xs) = ap (λ (t : List Slab). x ∷ t) (append_nil xs)

append_mid : (xs : List Slab) (m : Slab) (ys : List Slab) → (xs ++ (m ∷ [])) ++ ys ≡ xs ++ (m ∷ ys)
append_mid xs m ys = append_assoc xs (m ∷ []) ys

-- Equal fields make equal states.
cache_eq :
    {a a' la r r' : List Slab} {l l' u u' : ℕ}
    → a ≡ a'
    → l ≡ l'
    → u ≡ u'
    → r ≡ r'
    → ◌≡◌ {A = Cache}
        (record { available = a; laden = la; length = l; unused = u; returned = r })
        (record { available = a'; laden = la; length = l'; unused = u'; returned = r' })
cache_eq ea el eu er = rw (ea, el, eu, er) refl

-- What the loop does to one slab.
module _ (m : Slab) (ms : List Slab) (c : Cache) where
  trim_used :
      (m.needed == 0) ≡ false
      → (trim_slab m c ≡ record c { available = c.available ++ (m ∷ []) })
        × (sum unused_count (m ∷ ms) ≡ sum unused_count ms)
        × (slabs_with false (m ∷ ms) ≡ m ∷ slabs_with false ms)
        × (slabs_with true (m ∷ ms) ≡ slabs_with true ms)
  unfolding trim_slab slabs_with sum unused_count is_unused
  trim_used e = rw e (refl, omega arith, refl, refl)

  trim_unused :
      (m.needed == 0) ≡ true
      → 0 < c.length
      → 0 < c.unused
      → c.length < 2 ^ 16
      → c.unused < 2 ^ 16
      → (trim_slab m c ≡ record c {
        length = c.length - 1;
        unused = c.unused - 1;
        returned = c.returned ++ (m ∷ []);
      })
        × (sum unused_count (m ∷ ms) ≡ 1 + sum unused_count ms)
        × (slabs_with false (m ∷ ms) ≡ slabs_with false ms)
        × (slabs_with true (m ∷ ms) ≡ m ∷ slabs_with true ms)
  unfolding trim_slab slabs_with sum unused_count is_unused
  trim_unused e pl pu fl fu =
      let l : (c.length + 2 ^ 16 - 1) % 2 ^ 16 ≡ c.length - 1 = omega arith in
      let u : (c.unused + 2 ^ 16 - 1) % 2 ^ 16 ≡ c.unused - 1 = omega arith in
      rw (e, l, u) (refl, refl, refl, refl)

trim_slabs-cons :
    (m : Slab) (ms : List Slab) (c : Cache) → trim_slabs (m ∷ ms) c ≡ trim_slabs ms (trim_slab m c)
unfolding trim_slabs
trim_slabs-cons m ms c = refl

sum-unused :
    (m : Slab) (ms : List Slab)
    → (m.needed == 0) ≡ true
    → sum unused_count (m ∷ ms) ≡ 1 + sum unused_count ms
unfolding sum unused_count
sum-unused m ms e = rw e refl

-- What the loop makes of a state.
abbrev trimmed : List Slab → Cache → Cache
trimmed ms c = record {
  available = c.available ++ slabs_with false ms;
  laden = c.laden;
  length = c.length - sum unused_count ms;
  unused = c.unused - sum unused_count ms;
  returned = c.returned ++ slabs_with true ms;
}

trim_none : (c : Cache) → trim_slabs [] c ≡ trimmed [] c
unfolding trim_slabs slabs_with sum
trim_none c =
    cache_eq (sym (append_nil c.available)) (omega arith) (omega arith)
      (sym (append_nil c.returned))

trim_slabs_lem :
    (ms : List Slab) (c : Cache)
    → sum unused_count ms ≤ c.length
    → sum unused_count ms ≤ c.unused
    → c.length < 2 ^ 16
    → c.unused < 2 ^ 16
    → trim_slabs ms c ≡ trimmed ms c
trim_slabs_lem [] c hl hu fl fu = trim_none c
trim_slabs_lem (m ∷ ms) c hl hu fl fu =
    let first_round : trim_slabs (m ∷ ms) c ≡ trim_slabs ms (trim_slab m c) =
      trim_slabs-cons m ms c in
    elim (Bool-cases (m.needed == 0)) [
      | inl e ↦
          let counts : sum unused_count (m ∷ ms) ≡ 1 + sum unused_count ms = sum-unused m ms e in
          let one = trim_unused m ms c e (omega arith) (omega arith) fl fu in
          let ih =
            trim_slabs_lem ms
              (record c {
                length = c.length - 1;
                unused = c.unused - 1;
                returned = c.returned ++ (m ∷ []);
              })
              (omega arith) (omega arith) (omega arith) (omega arith) in
          first_round
          ∙ ap (λ (t : Cache). trim_slabs ms t) one.0
          ∙ ih
          ∙ cache_eq (ap (λ (t : List Slab). c.available ++ t) (sym one.2)) (omega arith)
              (omega arith)
              (append_mid c.returned m (slabs_with true ms)
                ∙ ap (λ (t : List Slab). c.returned ++ t) (sym one.3))
      | inr e ↦
          let one = trim_used m ms c e in
          let ih =
            trim_slabs_lem ms (record c { available = c.available ++ (m ∷ []) })
              (omega (arith, one.1)) (omega (arith, one.1)) fl fu in
          first_round
          ∙ ap (λ (t : Cache). trim_slabs ms t) one.0
          ∙ ih
          ∙ cache_eq
              (append_mid c.available m (slabs_with false ms)
                ∙ ap (λ (t : List Slab). c.available ++ t) (sym one.2))
              (omega (arith, one.1)) (omega (arith, one.1))
              (ap (λ (t : List Slab). c.returned ++ t) (sym one.3))
    ]

module _ (strict : Bool) (sc : ℕ) where
  slabs_with-IsAwake :
      (unused : Bool) (ms : List Slab)
      → All (IsAwake strict sc) ms
      → All (IsAwake strict sc) (slabs_with unused ms)
  unfolding slabs_with
  slabs_with-IsAwake unused [] all = all
  slabs_with-IsAwake true (m ∷ ms) (all_cons p ps) = elim (Bool-cases (is_unused m)) [
    | inl e ↦ rw e (all_cons p (slabs_with-IsAwake true ms ps))
    | inr e ↦ rw e (slabs_with-IsAwake true ms ps)
  ]
  slabs_with-IsAwake false (m ∷ ms) (all_cons p ps) = elim (Bool-cases (is_unused m)) [
    | inl e ↦ rw e (slabs_with-IsAwake false ms ps)
    | inr e ↦ rw e (all_cons p (slabs_with-IsAwake false ms ps))
  ]

-- The slabs that stay, and their counts.
used_counts :
    (ms : List Slab)
    → (length (slabs_with false ms) + sum unused_count ms ≡ length ms)
      × (sum unused_count (slabs_with false ms) ≡ 0)
unfolding slabs_with sum unused_count is_unused
used_counts [] = (omega arith, refl)
used_counts (m ∷ ms) =
    let rest = used_counts ms in
    elim (Bool-cases (m.needed == 0)) [
      | inl e ↦ rw e (omega (arith, rest.0), rest.1)
      | inr e ↦ rw (e, e) (omega (arith, rest.0), omega (arith, rest.1))
    ]

-- With no unused slab, all stay.
all_used :
    (ms : List Slab)
    → sum unused_count ms ≡ 0
    → (slabs_with false ms ≡ ms) × (slabs_with true ms ≡ [])
unfolding slabs_with sum unused_count is_unused
all_used [] e = (refl, refl)
all_used (m ∷ ms) e = elim (Bool-cases (m.needed == 0)) [
  | inl u ↦ absurd (ground (arith, u))
  | inr u ↦
      let rest = all_used ms (omega arith) in rw u (ap (λ (t : List Slab). m ∷ t) rest.0, rest.1)
]

-- In a state that is in order, `dealloc_local_slabs` returns exactly the unused slabs, in their
-- order, keeps all others, sets the count of unused slabs to 0 and leaves the state in order.
pub dealloc_local_slabs_lem :
    (strict : Bool) (sc : ℕ) (c : Cache)
    → IsCache strict sc c
    → let d = dealloc_local_slabs c in
      (d.returned ≡ c.returned ++ slabs_with true c.available)
      × (d.available ≡ slabs_with false c.available)
      × (d.laden ≡ c.laden)
      × (d.unused ≡ 0)
      × IsCache strict sc d
unfolding dealloc_local_slabs
dealloc_local_slabs_lem strict sc c ok = elim (Bool-cases (c.unused == 0)) [
  | inl e ↦
      let none : sum unused_count c.available ≡ 0 = ground (arith, ok.unused_eq, e) in
      let used = all_used c.available none in
      rw e (
        rw used.1 (sym (append_nil c.returned)),
        sym used.0,
        refl,
        omega (arith, none, ok.unused_eq),
        ok,
      )
  | inr e ↦
      let le = sum-unused_count-le c.available in
      let counts = used_counts c.available in
      let done =
        trim_slabs_lem c.available (record c { available = [] }) (omega (arith, le, ok.length_eq))
          (omega (arith, ok.unused_eq)) (omega (arith, ok.length_eq, ok.room))
          (omega (arith, ok.unused_eq, le, ok.room)) in
      rw (e, done)
        (
          refl,
          refl,
          refl,
          omega (arith, ok.unused_eq),
          record {
            awake = slabs_with-IsAwake strict sc false c.available ok.awake;
            aside = ok.aside;
            length_eq = omega (arith, ok.length_eq, counts.0);
            unused_eq = omega (arith, ok.unused_eq, counts.1);
            room = omega (arith, ok.room, counts.0);
          },
        )
]
