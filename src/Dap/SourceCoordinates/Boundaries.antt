-- ===== src/Dap/SourceCoordinates/Boundaries.antt =====
-- The boundaries of a line increase, in bytes and in units.
use ferretd.Prelude.{
  ℕ, zero, suc, ◌+◌, ◌-◌, ◌<◌, ◌≡◌, subst, inl, inr, Bool-cases, Bool, true, false, some, List, [],
  ◌∷◌, if◌then◌else◌, leb, ◌==◌, length, get_elem?, All, arith,
}
use ferretd.Source.Utf8.{decode, rune_len, decode-Decoded}
use ferretd.Dap.SourceCoordinates.{
  SourceColumnBoundary, SourceCoordinateLine, scan, new_line, split_lines, search, units_of,
  bytes_of, strip_cr, reverse_onto,
}

-- Both measures are larger at every later boundary.
abbrev pub Increases : List SourceColumnBoundary → Type 0
Increases [] = Unit
Increases (b ∷ bs) = All (λ c. (b.bytes < c.bytes) × (b.units < c.units)) bs × Increases bs

All-mono :
    (P Q : SourceColumnBoundary → Type 0) (bs : List SourceColumnBoundary)
    → ((b : SourceColumnBoundary) → P b → Q b)
    → All P bs
    → All Q bs
All-mono P Q [] f h = tt
All-mono P Q (b ∷ bs) f h = (f b h.0, All-mono P Q bs f h.1)

scan-beyond :
    (bytes units skip : ℕ) (bs : List ℕ)
    → All (λ c. (bytes < c.bytes) × (units < c.units)) (scan bytes units skip bs)
unfolding scan
scan-beyond bytes units skip [] = tt
scan-beyond bytes units (suc skip) (b ∷ bs) = scan-beyond bytes units skip bs
scan-beyond bytes units zero (b ∷ bs) =
    let (r, size) = decode (b ∷ bs) in
    let d = decode-Decoded b bs in
    (
      (omega (arith, d.wide), omega (arith, d.scalar)),
      All-mono _ _ (scan (bytes + size) (units + rune_len r) (size - 1) bs)
          (λ c h. (omega (arith, h.0), omega (arith, h.1)))
          (scan-beyond (bytes + size) (units + rune_len r) (size - 1) bs),
    )

scan-Increases : (bytes units skip : ℕ) (bs : List ℕ) → Increases (scan bytes units skip bs)
unfolding scan
scan-Increases bytes units skip [] = tt
scan-Increases bytes units (suc skip) (b ∷ bs) = scan-Increases bytes units skip bs
scan-Increases bytes units zero (b ∷ bs) =
    let (r, size) = decode (b ∷ bs) in
    (
      scan-beyond (bytes + size) (units + rune_len r) (size - 1) bs,
      scan-Increases (bytes + size) (units + rune_len r) (size - 1) bs,
    )

new_line-Increases : (start : ℕ) (bs : List ℕ) → Increases (new_line start bs).boundaries
unfolding new_line
new_line-Increases start bs = (scan-beyond 0 0 0 bs, scan-Increases 0 0 0 bs)

All-either :
    (P : SourceCoordinateLine → Type 0) (t : Bool) (ls ms : List SourceCoordinateLine)
    → All P ls
    → All P ms
    → All P (if t then ls else ms)
All-either P true ls ms h k = h
All-either P false ls ms h k = k

pub split_lines-Increases :
    (start : ℕ) (before bs : List ℕ)
    → All (λ l. Increases l.boundaries) (split_lines start before bs)
unfolding split_lines
split_lines-Increases start before [] = (new_line-Increases start (reverse_onto before []), tt)
split_lines-Increases start before (b ∷ bs) =
    let bytes = reverse_onto before [] in
    let later = split_lines-Increases (start + length bytes + 1) [] bs in
    All-either _ (b == 10) _ _ (new_line-Increases start (strip_cr bytes), later)
      (split_lines-Increases start (b ∷ before) bs)

pub All-get :
    (ls : List SourceCoordinateLine) (i : ℕ) (l : SourceCoordinateLine)
    → All (λ l. Increases l.boundaries) ls
    → get_elem? ls i ≡ some l
    → Increases l.boundaries
All-get [] i l h e = cc
All-get (m ∷ ls) zero l h e =
    subst (λ (m : SourceCoordinateLine). Increases m.boundaries) {x = m} {y = l} (ground arith) h.0
All-get (m ∷ ls) (suc i) l h e = All-get ls i l h.1 e

later_search :
    (f : SourceColumnBoundary → ℕ) (n : ℕ) (c : SourceColumnBoundary)
    (bs : List SourceColumnBoundary) (b : SourceColumnBoundary)
    → leb n (f c) ≡ false
    → search f n (c ∷ bs) ≡ some b
    → search f n bs ≡ some b
unfolding search
later_search f n c bs b later e = ground arith

search-All :
    (P : SourceColumnBoundary → Type 0) (f : SourceColumnBoundary → ℕ) (n : ℕ)
    (bs : List SourceColumnBoundary) (b : SourceColumnBoundary)
    → All P bs
    → search f n bs ≡ some b
    → P b
unfolding search
search-All P f n [] b h e = cc
search-All P f n (c ∷ bs) b h e = elim (Bool-cases (leb n (f c))) [
  | inl here ↦ subst P (ground arith) h.0
  | inr later ↦ search-All P f n bs b h.1 (ground arith)
]

search-exact :
    (f : SourceColumnBoundary → ℕ) (n : ℕ) (bs : List SourceColumnBoundary)
    (b : SourceColumnBoundary)
    → search f n bs ≡ some b
    → f b ≡ n
unfolding search
search-exact f n [] b e = cc
search-exact f n (c ∷ bs) b e = elim (Bool-cases (leb n (f c))) [
  | inl here ↦ subst (λ d. f d ≡ n) {x = c} (ground arith) (ground arith)
  | inr later ↦ search-exact f n bs b (ground arith)
]

search-search :
    (f g : SourceColumnBoundary → ℕ) (n : ℕ) (bs : List SourceColumnBoundary)
    (b : SourceColumnBoundary)
    → ((c d : SourceColumnBoundary) → (c.bytes < d.bytes) × (c.units < d.units) → g c < g d)
    → Increases bs
    → search f n bs ≡ some b
    → search g (g b) bs ≡ some b
unfolding search
search-search f g n [] b m i e = cc
search-search f g n (c ∷ bs) b m i e = elim (Bool-cases (leb n (f c))) [
  | inl here ↦ subst (λ d. search g (g d) (c ∷ bs) ≡ some d) {x = c} (ground arith) (ground arith)
  | inr later ↦
      let deeper = later_search f n c bs b later e in
      let further = m c b (search-All _ f n bs b i.0 deeper) in
      ground (arith, further, search-search f g n bs b m i.1 deeper)
]

-- Among increasing boundaries the one found by its units is the one found by its bytes, and back.
pub search-bytes :
    (n : ℕ) (bs : List SourceColumnBoundary) (b : SourceColumnBoundary)
    → Increases bs
    → search units_of n bs ≡ some b
    → (b.units ≡ n) × (search bytes_of b.bytes bs ≡ some b)
search-bytes n bs b i e =
    (search-exact units_of n bs b e, search-search units_of bytes_of n bs b (λ c d h. h.0) i e)

pub search-units :
    (n : ℕ) (bs : List SourceColumnBoundary) (b : SourceColumnBoundary)
    → Increases bs
    → search bytes_of n bs ≡ some b
    → (b.bytes ≡ n) × (search units_of b.units bs ≡ some b)
search-units n bs b i e =
    (search-exact bytes_of n bs b e, search-search bytes_of units_of n bs b (λ c d h. h.1) i e)
