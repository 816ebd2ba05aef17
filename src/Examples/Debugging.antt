-- ===== src/Examples/Debugging.antt =====
-- internal/dap and internal/source at concrete inputs.
use ferretd.Prelude.{
  ◌≢◌, ◌↔◌, panic, Keeps, ℕ, ◌≡◌, ◌≢◌, refl, ◌≤◌, ◌<◌, subst, true, false, some, List, [], ◌∷◌,
  done, Ensures, length, lookup, All, nat_key, ℕ_discrete, arith,
}
use ferretd.Debug.Values.{reason_entry}
use ferretd.Dap.HandleTable.{
  handle_current, handle_stale, new_handle_table, frame, frame_index, variable, variable_reference,
  invalidate,
}
use ferretd.Dap.HandleTable.Lifetime.{
  Request, frames, scopes, variables, invalidates, run, frame_lifetime, variable_lifetime,
}
use ferretd.Dap.BreakpointIds
use ferretd.Dap.BreakpointIds.{
  BreakpointIds, BreakpointKey, breakpoint_key, new_breakpoint_ids, replace, id,
}
use ferretd.Dap.BreakpointIds.Identity.{Inv}
use ferretd.Dap.BreakpointIds.Replacement.{
  KeptIdentities, Identified, replace-Inv, replace-Identified,
}
use ferretd.Dap.BreakpointIds.Session
use ferretd.Dap.BreakpointIds.Session.{
  Answered, Command, starts, stops, replaces, new_breakpoint_ids-Inv, identities_unique,
}
use ferretd.Dap.InitialStop.{InitialStop, StopSnapshot, is_entry, hits, resolve}
use ferretd.Dap.InitialStop.Resolve.{Bound, hits-computed, resolve-suppressed}
use ferretd.Dap.InitialStop.Resolve.Sorting.{Has, IsSorted, Apart}
use ferretd.Dap.ClientOptions.{ClientOptions, path_format_path}
use ferretd.Dap.SourceCoordinates
use ferretd.Dap.SourceCoordinates.{
  ClientSourcePosition, ok, pos, new_source_coordinates, from_client, to_client,
}
use ferretd.Dap.SourceCoordinates.RoundTrip.{to_client-from_client, from_client-to_client}
use ferretd.Source.Positions.{Range}
use ferretd.Source.Mapper.{new_mapper, range_to_span}
use ferretd.Source.Mapper.Bounds.{new_mapper-tables, range_to_span-bounds}

abbrev before : List (Request ℕ)
before = frames 4 ∷ invalidates ∷ variables 8 ∷ []

abbrev between : List (Request ℕ)
between = scopes (5 ∷ []) ∷ variables 9 ∷ []

frame_lifetime_example :
    let given = frame (run new_handle_table before) 6 in
    let u = run given.0 between in
    (frame_index u given.1 ≡ (6, handle_current))
    × (frame_index (invalidate u).0 given.1 ≡ (0, handle_stale))
    × (given.1 < (frame (run given.0 (invalidates ∷ [])) 7).1)
frame_lifetime_example = frame_lifetime before between (invalidates ∷ []) 6 7 (refl, (refl, tt))

abbrev reference : ℕ
reference = 3

variable_lifetime_example :
    let t = run new_handle_table before in
    let given = variable t reference in
    let u = run given.0 between in
    (reference ≢ 0
      → (variable_reference u given.1 ≡ (reference, handle_current))
        × (variable_reference (invalidate u).0 given.1 ≡ (0, handle_stale)))
    × (reference ≡ 0 → given ≡ (t, 0))
variable_lifetime_example = variable_lifetime before between reference (refl, (refl, tt))

abbrev here : BreakpointIds.NativePosition
here = record { line = 2; column = 0 }

abbrev there : BreakpointIds.NativePosition
there = record { line = 5; column = 3 }

-- The identities after one breakpoint was set.
abbrev one_set : BreakpointIds
one_set = record {
  next = 2;
  pending = 0;
  stable = (record { source_name = "a.fql"; position = here }, 1) ∷ [];
  active = (7, 1) ∷ [];
  retired = [];
}

one_set_lem : replace "a.fql" (here ∷ []) (7 ∷ []) new_breakpoint_ids ≡ done one_set
unfolding replace new_breakpoint_ids
one_set_lem = refl

one_set-Inv : Inv one_set
one_set-Inv = subst (Ensures Inv) one_set_lem (
    replace-Inv "a.fql" (here ∷ []) (7 ∷ []) new_breakpoint_ids (omega arith)
      new_breakpoint_ids-Inv)

replace-Identified_example :
    Ensures
      (λ d. Identified "a.fql" (there ∷ here ∷ []) (8 ∷ 9 ∷ []) d × KeptIdentities one_set d)
      (replace "a.fql" (there ∷ here ∷ []) (8 ∷ 9 ∷ []) one_set)
replace-Identified_example =
    replace-Identified "a.fql" (there ∷ here ∷ []) (8 ∷ 9 ∷ []) one_set (omega arith) one_set-Inv
      (((λ e. absurd (omega arith)), tt), (tt, tt))

abbrev commands : List Command
commands =
    replaces "a.fql" (here ∷ []) (7 ∷ [])
    ∷ starts
    ∷ replaces "a.fql" (there ∷ []) (8 ∷ [])
    ∷ stops
    ∷ []

identities_unique_example :
    ((Session.run new_breakpoint_ids commands ≢ panic) ↔ Answered commands)
    × Keeps
        (λ b.
          ((k j : BreakpointKey) (n : ℕ)
            → lookup k b.stable ≡ some n
            → lookup j b.stable ≡ some n
            → k ≡ j)
          × ((k : BreakpointKey) (n : ℕ) → lookup k b.stable ≡ some n → (1 ≤ n) × (n < b.next))
          × (b.pending ≡ 0 → b.retired ≡ []))
        (Session.run new_breakpoint_ids commands)
identities_unique_example = identities_unique commands

abbrev stop : InitialStop ℕ
stop = record {
  bindings =
      record { id = 9; location = 4 }
      ∷ record { id = 7; location = 4 }
      ∷ record { id = 8; location = 5 }
      ∷ [];
  frozen = true;
}

abbrev at_entry : ℕ → StopSnapshot ℕ
at_entry location = record { reason = reason_entry; location = location; hit_breakpoint_ids = [] }

hits-computed_example :
    ((n : ℕ) → Has n (hits stop one_set (at_entry 4)) → Bound n 4 stop.bindings)
    × IsSorted (hits stop one_set (at_entry 4))
    × Apart (id one_set) (hits stop one_set (at_entry 4))
hits-computed_example = hits-computed stop one_set (at_entry 4) refl

suppressed_lem : (resolve stop (at_entry 6) false one_set).1 ≡ true
unfolding resolve ℕ_discrete
suppressed_lem = refl

resolve-suppressed_example :
    (is_entry (at_entry 6).reason ≡ true)
    × (false ≡ false)
    × ((at_entry 6).hit_breakpoint_ids ≡ [])
    × ((n : ℕ) → ¬ Bound n 6 stop.bindings)
resolve-suppressed_example = resolve-suppressed stop (at_entry 6) false one_set suppressed_lem

-- `a`, `é` in two bytes, a carriage return and a newline, then a malformed byte and a `b`.
abbrev text : List ℕ
text = 97 ∷ 195 ∷ 169 ∷ 13 ∷ 10 ∷ 255 ∷ 98 ∷ []

abbrev options : ClientOptions
options = record {
  path_format = path_format_path;
  lines_start_at1 = true;
  columns_start_at1 = false;
}

abbrev client_position : ClientSourcePosition
client_position = record { line = pos 1; column = some (pos 2) }

abbrev native_position : SourceCoordinates.NativePosition
native_position = record { line = pos 1; column = pos 4 }

converted : from_client (new_source_coordinates text options) client_position ≡ ok native_position
unfolding from_client new_source_coordinates
converted = refl

to_client-from_client_example :
    to_client (new_source_coordinates text options) native_position ≡ ok client_position
to_client-from_client_example =
    to_client-from_client text options client_position native_position converted

reported : to_client (new_source_coordinates text options) native_position ≡ ok client_position
unfolding to_client new_source_coordinates
reported = refl

from_client-to_client_example :
    from_client (new_source_coordinates text options) client_position ≡ ok native_position
from_client-to_client_example =
    from_client-to_client text options native_position client_position reported

new_mapper-tables_example :
    let m = new_mapper text in
    (length m.line_starts ≡ length m.line_ends)
    × All (λ s. s ≤ length text) m.line_starts
    × All (λ e. e ≤ length text) m.line_ends
new_mapper-tables_example = new_mapper-tables text

abbrev backwards : Range
backwards = record {
  start = record { line = 1; character = 1 };
  end = record { line = 0; character = 9 };
}

range_to_span-bounds_example :
    let span = range_to_span (new_mapper text) backwards in
    (span.start ≤ span.end) × (span.end ≤ length text)
range_to_span-bounds_example = range_to_span-bounds text backwards
