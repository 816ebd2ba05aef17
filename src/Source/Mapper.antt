-- ===== src/Source/Mapper.antt =====
-- The Mapper of internal/source/position.go and utf16.go: byte offsets against zero-based UTF-16
-- positions. A text is the list of its bytes; a uint32 wraps at 2 ^ 32. Go's `sort.Search` over the
-- increasing line starts counts those that the test leaves out.
pub mod Bounds
use ferretd.Prelude.{
  ℕ, zero, suc, ◌+◌, ◌-◌, ◌*◌, ◌%◌, ◌^◌, Bool, true, false, not, ◌&&◌, ◌||◌, Option, none, some,
  List, [], ◌∷◌, ◌++◌, if◌then◌else◌, ltb, leb, ◌==◌, length, get_elem?,
}
use ferretd.Source.Positions.{Position, Range}
use ferretd.Source.Utf8.{decode, rune_start}

pub record Mapper : Type 0 where
  pub text : List ℕ
  pub line_starts : List ℕ
  pub line_ends : List ℕ

-- A half-open span of byte offsets.
pub record Span : Type 0 where
  pub start : ℕ
  pub end : ℕ

-- A line end at this rune.
abbrev pub is_separator : ℕ → Bool
is_separator r = (r == 10) || ((r == 8232) || (r == 8233))

abbrev pub starts_with_newline : List ℕ → Bool
starts_with_newline [] = false
starts_with_newline (b ∷ bs) = b == 10

abbrev pub add_line : ℕ → ℕ → List ℕ × List ℕ → List ℕ × List ℕ
add_line end start (starts, ends) = (start ∷ starts, end ∷ ends)

-- The loop of NewMapper from an offset: the starts and the ends that it appends. `skip` bytes belong
-- to the rune, or to the line end, read last.
unfoldable pub scan_lines : ℕ → ℕ → List ℕ → List ℕ × List ℕ
unfolding decode
scan_lines offset skip [] = ([], offset ∷ [])
scan_lines offset (suc skip) (b ∷ bs) = scan_lines (offset + 1) skip bs
scan_lines offset zero (b ∷ bs) =
    let (r, size) = decode (b ∷ bs) in
    let after_pair = scan_lines (offset + 1) 1 bs in
    let after_rune = scan_lines (offset + 1) (size - 1) bs in
    if r == 13
    then (if starts_with_newline bs
        then add_line offset (offset + 2) after_pair
        else add_line offset (offset + 1) after_rune)
    else (if is_separator r then add_line offset (offset + size) after_rune else after_rune)

abbrev mapper_of : List ℕ → List ℕ × List ℕ → Mapper
mapper_of text (starts, ends) = record { text = text; line_starts = 0 ∷ starts; line_ends = ends }

unfoldable pub new_mapper : List ℕ → Mapper
unfolding scan_lines
new_mapper text = mapper_of text (scan_lines 0 0 text)

unfoldable pub take : ℕ → List ℕ → List ℕ
take zero bs = []
take (suc n) [] = []
take (suc n) (b ∷ bs) = b ∷ take n bs

unfoldable pub drop : ℕ → List ℕ → List ℕ
drop zero bs = bs
drop (suc n) [] = []
drop (suc n) (b ∷ bs) = drop n bs

abbrev pub at : List ℕ → ℕ → ℕ
at xs i = elim (get_elem? xs i) [ none ↦ 0 | some x ↦ x ]

-- `utf16Width`: the loop over the runes of a string, `skip` bytes of the last rune to go.
unfoldable pub width_from : ℕ → ℕ → List ℕ → ℕ
unfolding decode
width_from width skip [] = width
width_from width (suc skip) (b ∷ bs) = width_from width skip bs
width_from width zero (b ∷ bs) =
    let (r, size) = decode (b ∷ bs) in
    width_from ((width + (if ltb 65535 r then 2 else 1)) % 2 ^ 32) (size - 1) bs

unfoldable pub utf16_width : List ℕ → ℕ
unfolding width_from
utf16_width bs = width_from 0 0 bs

-- The loop of `clampOffset` back to the start of a rune.
unfoldable pub back_to_start : List ℕ → ℕ → ℕ
back_to_start text zero = zero
back_to_start text (suc offset) =
    let before = back_to_start text offset in
    elim (get_elem? text (suc offset)) [
      | none ↦ suc offset
      | some b ↦ if rune_start b then suc offset else before
    ]

-- Offsets are not negative here: the code takes a negative one for zero.
unfoldable pub clamp_offset : Mapper → ℕ → ℕ
unfolding back_to_start
clamp_offset m offset =
    back_to_start m.text (if ltb (length m.text) offset then length m.text else offset)

-- The number of leading starts at or before the offset.
unfoldable pub starts_before : ℕ → List ℕ → ℕ
starts_before offset [] = 0
starts_before offset (s ∷ starts) =
    let rest = starts_before offset starts in if leb s offset then suc rest else 0

unfoldable pub offset_to_position : Mapper → ℕ → Position
unfolding clamp_offset starts_before utf16_width take drop
offset_to_position m raw =
    let offset = clamp_offset m raw in
    let line = starts_before offset m.line_starts - 1 in
    let end = at m.line_ends line in
    let line_offset = if ltb end offset then end else offset in
    let start = at m.line_starts line in
    record {
      line = line % 2 ^ 32;
      character = utf16_width (take (line_offset - start) (drop start m.text));
    }

-- The loop of PositionToOffset over the bytes of a line.
unfoldable pub seek : ℕ → ℕ → ℕ → ℕ → List ℕ → ℕ
unfolding decode
seek want character offset skip [] = offset
seek want character offset (suc skip) (b ∷ bs) = seek want character (offset + 1) skip bs
seek want character offset zero (b ∷ bs) =
    let (r, size) = decode (b ∷ bs) in
    let width = if ltb 65535 r then 2 else 1 in
    let rest = seek want ((character + width) % 2 ^ 32) (offset + 1) (size - 1) bs in
    if leb want character || ltb want ((character + width) % 2 ^ 32) then offset else rest

unfoldable pub position_to_offset : Mapper → Position → ℕ
unfolding seek take drop
position_to_offset m p =
    if length m.line_starts == 0
    then 0
    else if leb (length m.line_starts) p.line
    then length m.text
    else (let start = at m.line_starts p.line in
        let end = at m.line_ends p.line in
        seek p.character 0 start 0 (take (end - start) (drop start m.text)))

unfoldable pub span_to_range : Mapper → Span → Range
unfolding clamp_offset offset_to_position
span_to_range m span =
    let start = clamp_offset m span.start in
    let raw_end = clamp_offset m span.end in
    let end = if ltb raw_end start then start else raw_end in
    record { start = offset_to_position m start; end = offset_to_position m end }

unfoldable pub range_to_span : Mapper → Range → Span
unfolding position_to_offset
range_to_span m value =
    let start = position_to_offset m value.start in
    let raw_end = position_to_offset m value.end in
    record { start = start; end = if ltb raw_end start then start else raw_end }
