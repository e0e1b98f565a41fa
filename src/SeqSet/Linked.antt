-- ===== src/SeqSet/Linked.antt =====
-- src/snmalloc/ds_aal/seqset.h: chains of nodes, linked both ways, and single writes beside them.
use snmalloc.Base.{ℕ, ◌≡◌, ◌≢◌, arith, List, [], ◌∷◌, ◌++◌, ◌∙◌, sym}
use snmalloc.Base.{All, all_nil, all_cons}
use snmalloc.Buddy.Slots.{All-append, All-append_parts}
use snmalloc.SeqSet.{Links, update}

abbrev pub Apart : ℕ → List ℕ → Type 0
Apart n xs = All (λ x. x ≢ n) xs

pub data Distinct : List ℕ → Type 0 where
  distinct_nil : Distinct []
  distinct_cons : {x : ℕ} {xs : List ℕ} → Apart x xs → Distinct xs → Distinct (x ∷ xs)

-- `first` is followed by `xs` and then `last`, and each is its follower's predecessor.
pub data Linked (s : Links) : ℕ → List ℕ → ℕ → Type 0 where
  ends : {first last : ℕ} → s.next first ≡ last → s.prev last ≡ first → Linked s first [] last
  follows :
      {first x last : ℕ} {xs : List ℕ}
      → s.next first ≡ x
      → s.prev x ≡ first
      → Linked s x xs last
      → Linked s first (x ∷ xs) last

pub update_same : (f : ℕ → ℕ) (n v m : ℕ) → m ≡ n → update f n v m ≡ v
unfolding update
update_same f n v m e = ground (arith, e)

pub update_other : (f : ℕ → ℕ) (n v m : ℕ) → m ≢ n → update f n v m ≡ f m
unfolding update
update_other f n v m h = ground (arith, h)

-- Chains in other links that agree where they are read.
pub Linked-agree :
    (s s' : Links) (first : ℕ) (xs : List ℕ) (last : ℕ)
    → Linked s first xs last
    → s'.next first ≡ s.next first
    → All (λ x. s'.next x ≡ s.next x) xs
    → All (λ x. s'.prev x ≡ s.prev x) xs
    → s'.prev last ≡ s.prev last
    → Linked s' first xs last
Linked-agree s s' first [] last (ends n p) nf ns ps pl = ends (nf ∙ n) (pl ∙ p)
Linked-agree s s' first (x ∷ xs) last (follows n p rest) nf (all_cons nx ns) (all_cons px ps) pl =
    follows (nf ∙ n) (px ∙ p) (Linked-agree s s' x xs last rest nx ns ps pl)

pub Linked-parts :
    {s : Links} {first last : ℕ} (xs : List ℕ) (x : ℕ) (ys : List ℕ)
    → Linked s first (xs ++ (x ∷ ys)) last
    → Linked s first xs x × Linked s x ys last
Linked-parts [] x ys (follows n p rest) = (ends n p, rest)
Linked-parts (z ∷ xs) x ys (follows n p rest) =
    let parts = Linked-parts xs x ys rest in (follows n p parts.0, parts.1)

pub Linked-join :
    {s : Links} {first last : ℕ} (xs : List ℕ) (x : ℕ) (ys : List ℕ)
    → Linked s first xs x
    → Linked s x ys last
    → Linked s first (xs ++ (x ∷ ys)) last
Linked-join [] x ys (ends n p) q = follows n p q
Linked-join (z ∷ xs) x ys (follows n p rest) q = follows n p (Linked-join xs x ys rest q)

-- The chain's own ends.
abbrev pub first_of : ℕ → List ℕ → ℕ
first_of last [] = last
first_of last (x ∷ xs) = x

pub Linked-next :
    {s : Links} {first last : ℕ} {xs : List ℕ}
    → Linked s first xs last
    → s.next first ≡ first_of last xs
Linked-next (ends n p) = n
Linked-next (follows n p rest) = n

pub Linked-first_prev :
    {s : Links} {first last : ℕ} {xs : List ℕ}
    → Linked s first xs last
    → s.prev (first_of last xs) ≡ first
Linked-first_prev (ends n p) = p
Linked-first_prev (follows n p rest) = p

abbrev pub last_of : ℕ → List ℕ → ℕ
last_of first [] = first
last_of first (x ∷ xs) = last_of x xs

pub Linked-prev :
    {s : Links} {first last : ℕ} {xs : List ℕ}
    → Linked s first xs last
    → s.prev last ≡ last_of first xs
Linked-prev (ends n p) = p
Linked-prev (follows n p rest) = Linked-prev rest

pub Linked-last_next :
    {s : Links} {first last : ℕ} {xs : List ℕ}
    → Linked s first xs last
    → s.next (last_of first xs) ≡ last
Linked-last_next (ends n p) = n
Linked-last_next (follows n p rest) = Linked-last_next rest

-- A property of the ends, from one of all nodes.
pub All-first_of :
    {P : ℕ → Type 0} (last : ℕ) (xs : List ℕ) → P last → All P xs → P (first_of last xs)
All-first_of last [] p q = p
All-first_of last (x ∷ xs) p (all_cons q qs) = q

pub All-last_of :
    {P : ℕ → Type 0} (first : ℕ) (xs : List ℕ) → P first → All P xs → P (last_of first xs)
All-last_of first [] p q = p
All-last_of first (x ∷ xs) p (all_cons q qs) = All-last_of x xs q qs

-- The end of a chain is another node: the last node's successor is written, and the new end's
-- predecessor.
pub Linked-replace_end :
    {s s' : Links} {first last : ℕ} (end : ℕ) (xs : List ℕ)
    → Linked s first xs last
    → Distinct (first ∷ xs)
    → s'.next (last_of first xs) ≡ end
    → s'.prev end ≡ last_of first xs
    → ((m : ℕ) → m ≢ last_of first xs → s'.next m ≡ s.next m)
    → All (λ x. s'.prev x ≡ s.prev x) xs
    → Linked s' first xs end
Linked-replace_end end [] (ends n p) d new_next new_prev nexts all_nil = ends new_next new_prev
Linked-replace_end {first = first} end (x ∷ xs) (follows n p rest)
      (distinct_cons (all_cons apart aparts) d) new_next new_prev nexts (all_cons px ps) =
    follows (nexts first (λ e. All-last_of {P = λ m. m ≢ first} x xs apart aparts (sym e)) ∙ n)
      (px ∙ p) (Linked-replace_end end xs rest d new_next new_prev nexts ps)

pub Distinct-parts :
    (xs ys : List ℕ) → Distinct (xs ++ ys) → Distinct xs × Distinct ys × All (λ a. Apart a ys) xs
Distinct-parts [] ys d = (distinct_nil, d, all_nil)
Distinct-parts (x ∷ xs) ys (distinct_cons a d) =
    let parts = Distinct-parts xs ys d in
    let aparts = All-append_parts xs ys a in
    (distinct_cons aparts.0 parts.0, parts.1, all_cons aparts.1 parts.2)

pub Distinct-join :
    (xs ys : List ℕ) → Distinct xs → Distinct ys → All (λ a. Apart a ys) xs → Distinct (xs ++ ys)
Distinct-join [] ys d e all_nil = e
Distinct-join (x ∷ xs) ys (distinct_cons a d) e (all_cons b bs) =
    distinct_cons (All-append xs ys a b) (Distinct-join xs ys d e bs)

pub All-map : {P Q : ℕ → Type 0} {xs : List ℕ} (f : (m : ℕ) → P m → Q m) → All P xs → All Q xs
All-map f all_nil = all_nil
All-map f (all_cons p ps) = all_cons (f _ p) (All-map f ps)
