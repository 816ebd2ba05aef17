-- ===== src/Dap/InitialStop.antt =====
-- internal/dap/initial_stop.go: whether native entry is shown as a breakpoint stop. `L` is the
-- debugger's Location, of which the code needs equality only.
pub mod Resolve
use ferretd.Prelude.{
  ℕ, String, Bool, true, false, not, Option, none, some, List, [], ◌∷◌, if◌then◌else◌, ◌==◌, leb,
  Key, ite, ◌||◌,
}
use ferretd.Debug.Values.{Reason, reason_entry, reason_breakpoint}
use ferretd.Dap.BreakpointIds
use ferretd.Dap.BreakpointIds.{BreakpointIds}

-- What is read of an apidebugger.Breakpoint.
pub record Breakpoint (L : Type 0) : Type 0 where
  pub id : ℕ
  pub bound : Bool
  pub location : L

pub record EntryBinding (L : Type 0) : Type 0 where
  pub id : ℕ
  pub location : L

pub record InitialStop (L : Type 0) : Type 0 where
  pub bindings : List (EntryBinding L)
  pub frozen : Bool

-- What is read and written of a debug.SessionSnapshot.
pub record StopSnapshot (L : Type 0) : Type 0 where
  pub reason : Reason
  pub location : L
  pub hit_breakpoint_ids : List ℕ

unfoldable pub contains : ℕ → List ℕ → Bool
contains n [] = false
contains n (m ∷ ms) = (n == m) || contains n ms

-- `slices.Sort`
unfoldable pub insert_sorted : ℕ → List ℕ → List ℕ
insert_sorted n [] = n ∷ []
insert_sorted n (m ∷ ms) = if leb n m then n ∷ m ∷ ms else m ∷ insert_sorted n ms

unfoldable pub sort : List ℕ → List ℕ
unfolding insert_sorted
sort [] = []
sort (n ∷ ns) = insert_sorted n (sort ns)

abbrev pub is_entry : Reason → Bool
is_entry reason_entry = true
is_entry _ = false

abbrev pub is_empty : List ℕ → Bool
is_empty [] = true
is_empty (n ∷ ns) = false

module _ {L : Type 0} ⦃key : Key L⦄ where
  unfoldable pub bound_entries : List (Breakpoint L) → List (EntryBinding L)
  bound_entries [] = []
  bound_entries (b ∷ bs) =
      let rest = bound_entries bs in
      if b.bound then record { id = b.id; location = b.location } ∷ rest else rest

  unfoldable pub replace : InitialStop L → List (Breakpoint L) → InitialStop L
  unfolding bound_entries
  replace s breakpoints = if s.frozen then s else record s { bindings = bound_entries breakpoints }

  -- The loop over the bindings: one identifier for each identity that is bound at the location.
  unfoldable pub collect : BreakpointIds → L → List ℕ → List (EntryBinding L) → List ℕ
  unfolding contains BreakpointIds.id
  collect ids location seen [] = []
  collect ids location seen (b ∷ bs) =
      let identity = BreakpointIds.id ids b.id in
      let skip = collect ids location seen bs in
      let take = b.id ∷ collect ids location (identity ∷ seen) bs in
      ite (key.same b.location location) (if contains identity seen then skip else take) skip

  unfoldable pub hits : InitialStop L → BreakpointIds → StopSnapshot L → List ℕ
  unfolding sort collect
  hits s ids snapshot =
      if is_empty snapshot.hit_breakpoint_ids
      then sort (collect ids snapshot.location [] s.bindings)
      else snapshot.hit_breakpoint_ids

  -- The snapshot to report, and whether to suppress the stop.
  unfoldable pub resolve :
      InitialStop L → StopSnapshot L → Bool → BreakpointIds → StopSnapshot L × Bool
  unfolding hits
  resolve s snapshot stop_on_entry ids =
      if is_entry snapshot.reason
      then (let found = hits s ids snapshot in
          if is_empty found
          then (record snapshot { hit_breakpoint_ids = found }, not stop_on_entry)
          else (record snapshot { hit_breakpoint_ids = found; reason = reason_breakpoint }, false))
      else (snapshot, false)
