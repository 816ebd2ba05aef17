-- ===== src/Source/Mapper/Bounds.antt =====
-- What the mapper gives lies in the text, and its two tables fit together.
use ferretd.Prelude.{
  ℕ, zero, suc, ◌+◌, ◌-◌, ◌≤◌, ◌≡◌, refl, sym, Bool, true, false, List, [], ◌∷◌, if◌then◌else◌, ltb,
  ◌==◌, length, All, arith, ◌%◌, ◌^◌,
}
use ferretd.Source.Positions.{Position, Range}
use ferretd.Source.Utf8.{decode, decode-Decoded}
use ferretd.Source.Mapper.{
  scan_lines, new_mapper, take, drop, at, seek, position_to_offset, range_to_span, add_line,
  starts_with_newline, is_separator,
}

-- One end more than starts are appended, and none of either is after `limit`.
abbrev Fits : ℕ → List ℕ × List ℕ → Type 0
Fits limit (starts, ends) =
    (length ends ≡ suc (length starts)) × (All (λ e. e ≤ limit) starts × All (λ e. e ≤ limit) ends)

pair_fits : (bs : List ℕ) → starts_with_newline bs ≡ true → 1 ≤ length bs
pair_fits [] e = cc
pair_fits (b ∷ bs) e = omega arith

Fits-add :
    (limit end start : ℕ) (p : List ℕ × List ℕ)
    → end ≤ limit
    → start ≤ limit
    → Fits limit p
    → Fits limit (add_line end start p)
Fits-add limit end start (starts, ends) he hs f = (omega (arith, f.0), ((hs, f.1.0), (he, f.1.1)))

Fits-if :
    (limit : ℕ) (t : Bool) (p q : List ℕ × List ℕ)
    → (t ≡ true → Fits limit p)
    → (t ≡ false → Fits limit q)
    → Fits limit (if t then p else q)
Fits-if limit true p q f g = f refl
Fits-if limit false p q f g = g refl

scan_lines-Fits :
    (offset skip limit : ℕ) (bs : List ℕ)
    → offset + length bs ≤ limit
    → Fits limit (scan_lines offset skip bs)
unfolding scan_lines
scan_lines-Fits offset skip limit [] h = (refl, (tt, (omega arith, tt)))
scan_lines-Fits offset (suc skip) limit (b ∷ bs) h =
    scan_lines-Fits (offset + 1) skip limit bs (omega arith)
scan_lines-Fits offset zero limit (b ∷ bs) h =
    let (r, size) = decode (b ∷ bs) in
    let after_pair = scan_lines-Fits (offset + 1) 1 limit bs (omega arith) in
    let after_rune = scan_lines-Fits (offset + 1) (size - 1) limit bs (omega arith) in
    let d = decode-Decoded b bs in
    Fits-if limit (r == 13) _ _
      (λ return.
        Fits-if limit (starts_with_newline bs) _ _
          (λ newline.
            let more = pair_fits bs newline in
            Fits-add limit offset (offset + 2) _ (omega arith) (omega arith) after_pair)
          (λ alone. Fits-add limit offset (offset + 1) _ (omega arith) (omega arith) after_rune))
      (λ other.
        Fits-if limit (is_separator r) _ _
          (λ separator.
            Fits-add limit offset (offset + size) _ (omega arith) (omega (arith, d.within))
              after_rune)
          (λ plain. after_rune))

at-bound : (limit : ℕ) (xs : List ℕ) (i : ℕ) → All (λ e. e ≤ limit) xs → at xs i ≤ limit
at-bound limit [] i h = omega arith
at-bound limit (x ∷ xs) zero h = h.0
at-bound limit (x ∷ xs) (suc i) h = at-bound limit xs i h.1

length-take : (n : ℕ) (bs : List ℕ) → length (take n bs) ≤ length bs
unfolding take
length-take zero bs = omega arith
length-take (suc n) [] = omega arith
length-take (suc n) (b ∷ bs) = omega (arith, length-take n bs)

length-drop : (n : ℕ) (bs : List ℕ) → length (drop n bs) ≡ length bs - n
unfolding drop
length-drop zero bs = omega arith
length-drop (suc n) [] = omega arith
length-drop (suc n) (b ∷ bs) = omega (arith, length-drop n bs)

seek-bound :
    (want character offset skip : ℕ) (bs : List ℕ)
    → (offset ≤ seek want character offset skip bs)
      × (seek want character offset skip bs ≤ offset + length bs)
unfolding seek
seek-bound want character offset skip [] = (omega arith, omega arith)
seek-bound want character offset (suc skip) (b ∷ bs) =
    let h = seek-bound want character (offset + 1) skip bs in
    (omega (arith, h.0), omega (arith, h.1))
seek-bound want character offset zero (b ∷ bs) =
    let (r, size) = decode (b ∷ bs) in
    let h =
      seek-bound want ((character + (if ltb 65535 r then 2 else 1)) % 2 ^ 32) (offset + 1)
        (size - 1) bs in
    ground (arith, h)

mapper-Fits : (text : List ℕ) → Fits (length text) (scan_lines 0 0 text)
mapper-Fits text = scan_lines-Fits 0 0 (length text) text (omega arith)

mapper_text : (text : List ℕ) → (new_mapper text).text ≡ text
unfolding new_mapper
mapper_text text = refl

mapper_starts : (text : List ℕ) → All (λ s. s ≤ length text) (new_mapper text).line_starts
unfolding new_mapper
mapper_starts text = (omega arith, (mapper-Fits text).1.0)

-- The tables of starts and ends have the same length, so no line index of the mapper is outside either,
-- and all they hold are offsets in the text.
pub new_mapper-tables :
    (text : List ℕ)
    → let m = new_mapper text in
      (length m.line_starts ≡ length m.line_ends)
      × All (λ s. s ≤ length text) m.line_starts
      × All (λ e. e ≤ length text) m.line_ends
unfolding new_mapper
new_mapper-tables text = (sym (mapper-Fits text).0, mapper_starts text, (mapper-Fits text).1.1)

position_to_offset-bound :
    (text : List ℕ) (p : Position) → position_to_offset (new_mapper text) p ≤ length text
unfolding position_to_offset
position_to_offset-bound text p =
    let m = new_mapper text in
    let start = at m.line_starts p.line in
    let bytes = take (at m.line_ends p.line - start) (drop start m.text) in
    let inside = at-bound (length text) m.line_starts p.line (mapper_starts text) in
    ground (
      arith,
      inside,
      seek-bound p.character 0 start 0 bytes,
      length-take (at m.line_ends p.line - start) (drop start m.text),
      length-drop start m.text,
      mapper_text text,
    )

-- For every text and every range, also one that lies outside the text or ends before it starts, the
-- span has its start at or before its end, and its end in the text.
pub range_to_span-bounds :
    (text : List ℕ) (value : Range)
    → let span = range_to_span (new_mapper text) value in
      (span.start ≤ span.end) × (span.end ≤ length text)
unfolding range_to_span
range_to_span-bounds text value =
    ground
      (arith, position_to_offset-bound text value.start, position_to_offset-bound text value.end)
