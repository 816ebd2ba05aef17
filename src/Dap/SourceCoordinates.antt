-- ===== src/Dap/SourceCoordinates.antt =====
-- internal/dap/source_coordinates.go: the client's line and UTF-16 column against the debugger's line and
-- byte column. Go's `sort.Search` for the first index that passes a test is a search from the front;
-- the boundaries increase, so the two agree.
pub mod Boundaries
pub mod RoundTrip
use ferretd.Prelude.{
  ℕ, zero, suc, ◌+◌, ◌-◌, Bool, true, false, Option, none, some, List, [], ◌∷◌, if◌then◌else◌, ltb,
  leb, ◌==◌, length, get_elem?,
}
use ferretd.Dap.ClientOptions.{ClientOptions}
use ferretd.Source.Utf8.{decode, rune_len}

-- Go's `int`: `negsuc n` is -(n + 1).
pub data ℤ : Type 0 where
  pos negsuc : ℕ → ℤ

pub record SourceColumnBoundary : Type 0 where
  pub bytes : ℕ
  pub units : ℕ

pub record SourceCoordinateLine : Type 0 where
  pub start : ℕ
  pub end : ℕ
  pub boundaries : List SourceColumnBoundary

pub record SourceCoordinates : Type 0 where
  pub text : List ℕ
  pub lines : List SourceCoordinateLine
  pub line_base : ℕ
  pub column_base : ℕ

pub record ClientSourcePosition : Type 0 where
  pub line : ℤ
  pub column : Option ℤ

-- The debugger's position: both count from one, column zero for none.
pub record NativePosition : Type 0 where
  pub line : ℤ
  pub column : ℤ

pub data Converted (A : Type 0) : Type 0 where
  ok : A → Converted A
  invalid_source_position : Converted A

-- The loop that decodes a line: `skip` bytes belong to the rune decoded last.
unfoldable pub scan : ℕ → ℕ → ℕ → List ℕ → List SourceColumnBoundary
unfolding decode rune_len
scan bytes units skip [] = []
scan bytes units (suc skip) (b ∷ bs) = scan bytes units skip bs
scan bytes units zero (b ∷ bs) =
    let (r, size) = decode (b ∷ bs) in
    let bytes' = bytes + size in
    let units' = units + rune_len r in
    record { bytes = bytes'; units = units' } ∷ scan bytes' units' (size - 1) bs

abbrev pub origin : SourceColumnBoundary
origin = record { bytes = 0; units = 0 }

-- A line that a newline ends does not end in a carriage return.
unfoldable pub strip_cr : List ℕ → List ℕ
strip_cr [] = []
strip_cr (b ∷ []) = if b == 13 then [] else b ∷ []
strip_cr (b ∷ c ∷ bs) = b ∷ strip_cr (c ∷ bs)

unfoldable pub new_line : ℕ → List ℕ → SourceCoordinateLine
unfolding scan
new_line start bytes = record {
  start = start;
  end = start + length bytes;
  boundaries = origin ∷ scan 0 0 0 bytes;
}

-- The loop over the newlines: `before` holds the bytes of the current line, the last one first.
unfoldable pub reverse_onto : List ℕ → List ℕ → List ℕ
reverse_onto [] rest = rest
reverse_onto (b ∷ bs) rest = reverse_onto bs (b ∷ rest)

unfoldable pub split_lines : ℕ → List ℕ → List ℕ → List SourceCoordinateLine
unfolding new_line strip_cr reverse_onto
split_lines start before [] = new_line start (reverse_onto before []) ∷ []
split_lines start before (b ∷ bs) =
    let bytes = reverse_onto before [] in
    let ended = new_line start (strip_cr bytes) ∷ split_lines (start + length bytes + 1) [] bs in
    let continued = split_lines start (b ∷ before) bs in if b == 10 then ended else continued

unfoldable pub new_source_coordinates : List ℕ → ClientOptions → SourceCoordinates
unfolding split_lines
new_source_coordinates text client = record {
  text = text;
  lines = split_lines 0 [] text;
  line_base = if client.lines_start_at1 then 1 else 0;
  column_base = if client.columns_start_at1 then 1 else 0;
}

-- `n < base`, and `n - base` of one that is not.
abbrev pub below : ℤ → ℕ → Bool
below (pos n) base = ltb n base
below (negsuc n) base = true

abbrev pub above : ℤ → ℕ → ℕ
above (pos n) base = n - base
above (negsuc n) base = 0

-- The first boundary whose measure is at least `n`, if it is `n` exactly.
unfoldable pub search :
    (SourceColumnBoundary → ℕ) → ℕ → List SourceColumnBoundary → Option SourceColumnBoundary
search f n [] = none
search f n (b ∷ bs) =
    let rest = search f n bs in if leb n (f b) then (if f b == n then some b else none) else rest

abbrev pub units_of : SourceColumnBoundary → ℕ
units_of b = b.units

abbrev pub bytes_of : SourceColumnBoundary → ℕ
bytes_of b = b.bytes

abbrev pub from_boundary : ℕ → Option SourceColumnBoundary → Converted NativePosition
from_boundary index none = invalid_source_position
from_boundary index (some b) = ok (record { line = pos (index + 1); column = pos (b.bytes + 1) })

unfoldable pub from_column :
    SourceCoordinates → ℕ → SourceCoordinateLine → Option ℤ → Converted NativePosition
unfolding search
from_column c index l none = ok (record { line = pos (index + 1); column = pos 0 })
from_column c index l (some column) =
    if below column c.column_base
    then invalid_source_position
    else from_boundary index (search units_of (above column c.column_base) l.boundaries)

unfoldable pub from_client : SourceCoordinates → ClientSourcePosition → Converted NativePosition
unfolding from_column
from_client c p =
    let index = above p.line c.line_base in
    if below p.line c.line_base then invalid_source_position else elim (get_elem? c.lines index) [
      | none ↦ invalid_source_position
      | some l ↦ from_column c index l p.column
    ]

abbrev pub to_boundary :
    SourceCoordinates → ℕ → Option SourceColumnBoundary → Converted ClientSourcePosition
to_boundary c index none = invalid_source_position
to_boundary c index (some b) =
    ok (record { line = pos (index + c.line_base); column = some (pos (b.units + c.column_base)) })

unfoldable pub to_column :
    SourceCoordinates → ℕ → SourceCoordinateLine → ℤ → Converted ClientSourcePosition
unfolding search
to_column c index l column =
    if below column 0
    then invalid_source_position
    else if above column 0 == 0
    then ok (record { line = pos (index + c.line_base); column = none })
    else to_boundary c index (search bytes_of (above column 1) l.boundaries)

unfoldable pub to_client : SourceCoordinates → NativePosition → Converted ClientSourcePosition
unfolding to_column
to_client c p =
    let index = above p.line 1 in
    if below p.line 1 then invalid_source_position else elim (get_elem? c.lines index) [
      | none ↦ invalid_source_position
      | some l ↦ to_column c index l p.column
    ]
