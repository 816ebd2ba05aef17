-- ===== src/Dap/SourceCoordinates/RoundTrip.antt =====
-- The positions of the client and the debugger translate into each other.
use ferretd.Prelude.{
  ℕ, zero, suc, ◌+◌, ◌-◌, ◌≡◌, sym, ◌∙◌, inl, inr, Option, none, some, List, [], get_elem?, All,
  arith, Option-cases, ap,
}
use ferretd.Dap.ClientOptions.{ClientOptions}
use ferretd.Dap.SourceCoordinates.{
  ℤ, pos, negsuc, SourceCoordinateLine, SourceCoordinates, ClientSourcePosition, NativePosition, ok,
  new_source_coordinates, search, units_of, bytes_of, from_column, from_client, to_column,
  to_client,
}
use ferretd.Dap.SourceCoordinates.Boundaries.{
  Increases, split_lines-Increases, All-get, search-bytes, search-units,
}

lines-Increase :
    (text : List ℕ) (client : ClientOptions)
    → All (λ l. Increases l.boundaries) (new_source_coordinates text client).lines
unfolding new_source_coordinates
lines-Increase text client = split_lines-Increases 0 [] text

from_column-ok :
    (c : SourceCoordinates) (index : ℕ) (l : SourceCoordinateLine) (column : Option ℤ)
    (n : NativePosition)
    → Increases l.boundaries
    → from_column c index l column ≡ ok n
    → (n.line ≡ pos (index + 1))
      × (to_column c index l n.column
          ≡ ok (record { line = pos (index + c.line_base); column = column }))
unfolding from_column to_column
from_column-ok c index l none n i e = ground arith
from_column-ok c index l (some (negsuc m)) n i e = ground arith
from_column-ok c index l (some (pos m)) n i e =
    elim (Option-cases (search units_of (m - c.column_base) l.boundaries)) [
      | inl missing ↦ ground arith
      | inr (b, found) ↦
          let (exact, back) = search-bytes (m - c.column_base) l.boundaries b i found in
          ground (arith, exact, back, found)
    ]

to_column-ok :
    (c : SourceCoordinates) (index : ℕ) (l : SourceCoordinateLine) (column : ℤ)
    (p : ClientSourcePosition)
    → Increases l.boundaries
    → to_column c index l column ≡ ok p
    → (p.line ≡ pos (index + c.line_base))
      × (from_column c index l p.column ≡ ok (record { line = pos (index + 1); column = column }))
unfolding from_column to_column
to_column-ok c index l (negsuc m) p i e = ground arith
to_column-ok c index l (pos zero) p i e = ground arith
to_column-ok c index l (pos (suc m)) p i e = elim (Option-cases (search bytes_of m l.boundaries)) [
  | inl missing ↦ ground arith
  | inr (b, found) ↦
      let (exact, back) = search-units m l.boundaries b i found in
      ground (arith, exact, back, found)
]

-- An accepted client line is in range, and its column is accepted on that line.
from_client-accepts :
    (c : SourceCoordinates) (line : ℤ) (column : Option ℤ) (n : NativePosition)
    → from_client c (record { line = line; column = column }) ≡ ok n
    → (index : ℕ) × (l : SourceCoordinateLine) × (line ≡ pos (index + c.line_base))
      × (get_elem? c.lines index ≡ some l)
      × (from_column c index l column ≡ ok n)
unfolding from_client
from_client-accepts c (negsuc k) column n e = absurd (ground arith)
from_client-accepts c (pos k) column n e =
    elim (Option-cases (get_elem? c.lines (k - c.line_base))) [
      | inl outside ↦ absurd (ground arith)
      | inr (l, inside) ↦ (k - c.line_base, l, ap pos (ground arith), inside, ground arith)
    ]

to_client-accepts :
    (c : SourceCoordinates) (line column : ℤ) (p : ClientSourcePosition)
    → to_client c (record { line = line; column = column }) ≡ ok p
    → (index : ℕ) × (l : SourceCoordinateLine) × (line ≡ pos (index + 1))
      × (get_elem? c.lines index ≡ some l)
      × (to_column c index l column ≡ ok p)
unfolding to_client
to_client-accepts c (negsuc k) column p e = absurd (ground arith)
to_client-accepts c (pos k) column p e = elim (Option-cases (get_elem? c.lines (k - 1))) [
  | inl outside ↦ absurd (ground arith)
  | inr (l, inside) ↦ (k - 1, l, ap pos (ground arith), inside, ground arith)
]

above_plus : (index base : ℕ) → (index + base) - base ≡ index
above_plus index base = omega arith

from_line :
    (c : SourceCoordinates) (index : ℕ) (l : SourceCoordinateLine) (p : ClientSourcePosition)
    → p.line ≡ pos (index + c.line_base)
    → get_elem? c.lines index ≡ some l
    → from_client c p ≡ from_column c index l p.column
unfolding from_client
from_line c index l p e found = ground (arith, above_plus index c.line_base)

to_line :
    (c : SourceCoordinates) (index : ℕ) (l : SourceCoordinateLine) (n : NativePosition)
    → n.line ≡ pos (index + 1)
    → get_elem? c.lines index ≡ some l
    → to_client c n ≡ to_column c index l n.column
unfolding to_client
to_line c index l n e found = ground (arith, above_plus index 1)

-- For every text, well-formed UTF-8 or not, and every base of the client's lines and columns: a client
-- position that is accepted comes back from the debugger's position unchanged.
pub to_client-from_client :
    (text : List ℕ) (client : ClientOptions) (p : ClientSourcePosition) (n : NativePosition)
    → from_client (new_source_coordinates text client) p ≡ ok n
    → to_client (new_source_coordinates text client) n ≡ ok p
to_client-from_client text client p n e =
    let c = new_source_coordinates text client in
    let (index, l, line, found, column) = from_client-accepts c p.line p.column n e in
    let increases = All-get c.lines index l (lines-Increase text client) found in
    let (native_line, back) = from_column-ok c index l p.column n increases column in
    to_line c index l n native_line found
    ∙ (back ∙ ap (λ k. ok (record { line = k; column = p.column })) (sym line))

-- For every text, well-formed UTF-8 or not, and every base of the client's lines and columns: a
-- debugger position that is accepted comes back from the client's position unchanged.
pub from_client-to_client :
    (text : List ℕ) (client : ClientOptions) (n : NativePosition) (p : ClientSourcePosition)
    → to_client (new_source_coordinates text client) n ≡ ok p
    → from_client (new_source_coordinates text client) p ≡ ok n
from_client-to_client text client n p e =
    let c = new_source_coordinates text client in
    let (index, l, line, found, column) = to_client-accepts c n.line n.column p e in
    let increases = All-get c.lines index l (lines-Increase text client) found in
    let (client_line, back) = to_column-ok c index l n.column p increases column in
    from_line c index l p client_line found
    ∙ (back ∙ ap (λ k. ok (record { line = k; column = n.column })) (sym line))
