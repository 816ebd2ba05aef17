-- ===== src/Dap/InitialStop/Resolve/Sorting.antt =====
-- Sorted lists of numbers, and what sorting keeps.
use ferretd.Prelude.{
  ℕ, ◌≤◌, ◌≡◌, ◌≢◌, sym, ◌⊎◌, inl, inr, List, [], ◌∷◌, leb, arith, All, Bool-cases,
}
use ferretd.Dap.InitialStop.{insert_sorted, sort}

abbrev pub Has : ℕ → List ℕ → Type 0
Has n [] = ⊥
Has n (m ∷ ms) = (m ≡ n) ⊎ Has n ms

-- Each element is at most every later one.
abbrev pub IsSorted : List ℕ → Type 0
IsSorted [] = Unit
IsSorted (n ∷ ns) = All (λ m. n ≤ m) ns × IsSorted ns

-- No two elements have the same value under `f`.
abbrev pub Apart : (ℕ → ℕ) → List ℕ → Type 0
Apart f [] = Unit
Apart f (n ∷ ns) = All (λ m. f m ≢ f n) ns × Apart f ns

All-insert_sorted :
    (P : ℕ → Type 0) (n : ℕ) (ns : List ℕ) → P n → All P ns → All P (insert_sorted n ns)
unfolding insert_sorted
All-insert_sorted P n [] p h = (p, tt)
All-insert_sorted P n (m ∷ ms) p h = elim (Bool-cases (leb n m)) [
  | inl e ↦ rw e (p, h)
  | inr e ↦ rw e (h.0, All-insert_sorted P n ms p h.1)
]

All-sort : (P : ℕ → Type 0) (ns : List ℕ) → All P ns → All P (sort ns)
unfolding sort
All-sort P [] h = tt
All-sort P (n ∷ ns) h = All-insert_sorted P n (sort ns) h.0 (All-sort P ns h.1)

All-le : (n m : ℕ) (ms : List ℕ) → n ≤ m → All (λ k. m ≤ k) ms → All (λ k. n ≤ k) ms
All-le n m [] h a = tt
All-le n m (k ∷ ks) h a = (omega arith, All-le n m ks h a.1)

insert_sorted-IsSorted : (n : ℕ) (ns : List ℕ) → IsSorted ns → IsSorted (insert_sorted n ns)
unfolding insert_sorted
insert_sorted-IsSorted n [] h = (tt, tt)
insert_sorted-IsSorted n (m ∷ ms) h = elim (Bool-cases (leb n m)) [
  | inl e ↦ let le : n ≤ m = ground arith in rw e ((le, All-le n m ms le h.0), h)
  | inr e ↦
      rw e (All-insert_sorted (λ k. m ≤ k) n ms (ground arith) h.0, insert_sorted-IsSorted n ms h.1)
]

pub sort-IsSorted : (ns : List ℕ) → IsSorted (sort ns)
unfolding sort
sort-IsSorted [] = tt
sort-IsSorted (n ∷ ns) = insert_sorted-IsSorted n (sort ns) (sort-IsSorted ns)

insert_sorted-Apart :
    (f : ℕ → ℕ) (n : ℕ) (ns : List ℕ)
    → All (λ m. f m ≢ f n) ns
    → Apart f ns
    → Apart f (insert_sorted n ns)
unfolding insert_sorted
insert_sorted-Apart f n [] h a = (tt, tt)
insert_sorted-Apart f n (m ∷ ms) h a = elim (Bool-cases (leb n m)) [
  | inl e ↦ rw e (h, a)
  | inr e ↦ rw e (
    All-insert_sorted (λ k. f k ≢ f m) n ms (λ p. h.0 (sym p)) a.0,
    insert_sorted-Apart f n ms h.1 a.1,
  )
]

pub sort-Apart : (f : ℕ → ℕ) (ns : List ℕ) → Apart f ns → Apart f (sort ns)
unfolding sort
sort-Apart f [] a = tt
sort-Apart f (n ∷ ns) a =
    insert_sorted-Apart f n (sort ns) (All-sort (λ m. f m ≢ f n) ns a.0) (sort-Apart f ns a.1)

Has-insert_sorted : (k n : ℕ) (ns : List ℕ) → Has k (insert_sorted n ns) → (n ≡ k) ⊎ Has k ns
unfolding insert_sorted
Has-insert_sorted k n [] h = h
Has-insert_sorted k n (m ∷ ms) h = ground (arith, Has-insert_sorted k n ms)

insert_sorted-Has : (k n : ℕ) (ns : List ℕ) → (n ≡ k) ⊎ Has k ns → Has k (insert_sorted n ns)
unfolding insert_sorted
insert_sorted-Has k n [] h = h
insert_sorted-Has k n (m ∷ ms) h = ground (arith, insert_sorted-Has k n ms)

-- Sorting neither adds nor drops an element.
pub Has-sort : (k : ℕ) (ns : List ℕ) → Has k (sort ns) → Has k ns
unfolding sort
Has-sort k [] h = h
Has-sort k (n ∷ ns) h = elim (Has-insert_sorted k n (sort ns) h) [
  | inl e ↦ inl e
  | inr r ↦ inr (Has-sort k ns r)
]

pub sort-Has : (k : ℕ) (ns : List ℕ) → Has k ns → Has k (sort ns)
unfolding sort
sort-Has k [] h = h
sort-Has k (n ∷ ns) (inl e) = insert_sorted-Has k n (sort ns) (inl e)
sort-Has k (n ∷ ns) (inr r) = insert_sorted-Has k n (sort ns) (inr (sort-Has k ns r))
