-- ===== src/Dap/BreakpointIds/Session.antt =====
-- The identities over a whole debug session: any sequence of replacements and commands.
use ferretd.Prelude.{
  ℕ, ◌≤◌, ◌≡◌, refl, String, some, List, [], ◌∷◌, lookup, nat_key, arith, ◌≢◌, ◌↔◌, Outcome, panic,
  Keeps, Keeps-mono, done, ◌>>=◌, length, Ensures, Ensures-bind, ◌<◌,
}
use ferretd.Dap.BreakpointIds.{
  BreakpointIds, BreakpointKey, NativePosition, breakpoint_key, new_breakpoint_ids, replace,
  command_started, command_stopped, finish, bind_all, bind, unbind,
}
use ferretd.Dap.BreakpointIds.Identity.{Inv}
use ferretd.Dap.BreakpointIds.Replacement.{replace-Inv}

pub data Command : Type 0 where
  starts stops finishes : Command
  replaces : String → List NativePosition → List ℕ → Command

unfoldable pub step : BreakpointIds → Command → Outcome BreakpointIds
step b starts = done (command_started b)
step b stops = done (command_stopped b)
step b finishes = done (finish b)
step b (replaces source requests results) = replace source requests results b

unfoldable pub run : BreakpointIds → List Command → Outcome BreakpointIds
run b [] = done b
run b (c ∷ rest) = do d ← step b c; run d rest

-- The debugger answers a replacement with no more results than there are requests.
abbrev pub Answered : List Command → Type 0
Answered [] = Unit
Answered (replaces source requests results ∷ rest) =
    (length results ≤ length requests) × Answered rest
Answered (starts ∷ rest) = Answered rest
Answered (stops ∷ rest) = Answered rest
Answered (finishes ∷ rest) = Answered rest

pub new_breakpoint_ids-Inv : Inv new_breakpoint_ids
unfolding new_breakpoint_ids lookup
new_breakpoint_ids-Inv = record {
  positive = omega arith;
  in_range = λ k n e. cc;
  unique = λ k j n p q. cc;
  active_range = λ m n e. cc;
  retired_range = λ m n e. cc;
  idle = λ z. refl;
}

command_started-Inv : (b : BreakpointIds) → Inv b → Inv (command_started b)
unfolding command_started
command_started-Inv b v = record {
  positive = v.positive;
  in_range = v.in_range;
  unique = v.unique;
  active_range = v.active_range;
  retired_range = v.retired_range;
  idle = λ z. absurd (omega arith);
}

command_stopped-Inv : (b : BreakpointIds) → Inv b → Inv (command_stopped b)
unfolding command_stopped lookup
command_stopped-Inv b v = record {
  positive = v.positive;
  in_range = v.in_range;
  unique = v.unique;
  active_range = v.active_range;
  retired_range = λ m n e. ground (arith, v.retired_range m n);
  idle = ground arith;
}

finish-Inv : (b : BreakpointIds) → Inv b → Inv (finish b)
unfolding finish lookup
finish-Inv b v = record {
  positive = v.positive;
  in_range = v.in_range;
  unique = v.unique;
  active_range = λ m n e. cc;
  retired_range = λ m n e. cc;
  idle = λ z. refl;
}

run-Inv : (b : BreakpointIds) (cs : List Command) → Answered cs → Inv b → Ensures Inv (run b cs)
unfolding run step
run-Inv b [] a v = v
run-Inv b (starts ∷ rest) a v = run-Inv (command_started b) rest a (command_started-Inv b v)
run-Inv b (stops ∷ rest) a v = run-Inv (command_stopped b) rest a (command_stopped-Inv b v)
run-Inv b (finishes ∷ rest) a v = run-Inv (finish b) rest a (finish-Inv b v)
run-Inv b (replaces source requests results ∷ rest) a v =
    Ensures-bind Inv Inv (replace source requests results b) (λ d. run d rest)
      (replace-Inv source requests results b a.0 v) (λ d i. run-Inv d rest a.1 i)

bind_all-length :
    (source : String) (ps : List NativePosition) (ns : List ℕ) (b : BreakpointIds)
    → bind_all source ps ns b ≢ panic
    → length ns ≤ length ps
unfolding bind_all
bind_all-length source ps [] b n = omega arith
bind_all-length source [] (m ∷ ns) b n = absurd (n refl)
bind_all-length source (p ∷ ps) (m ∷ ns) b n =
    let h = bind_all-length source ps ns (bind source p m b) n in omega (arith, h)

first_runs :
    (m : Outcome BreakpointIds) (rest : List Command)
    → (m >>= λ d. run d rest) ≢ panic
    → (m ≢ panic) × ((d : BreakpointIds) × (run d rest ≢ panic))
first_runs (done d) rest n = ((λ e. cc), (d, n))
first_runs panic rest n = absurd (n refl)

run-Answered : (b : BreakpointIds) (cs : List Command) → run b cs ≢ panic → Answered cs
unfolding run step
run-Answered b [] n = tt
run-Answered b (starts ∷ rest) n = run-Answered (command_started b) rest n
run-Answered b (stops ∷ rest) n = run-Answered (command_stopped b) rest n
run-Answered b (finishes ∷ rest) n = run-Answered (finish b) rest n
run-Answered b (replaces source requests results ∷ rest) n =
    let (m, (d, k)) = first_runs (replace source requests results b) rest n in
    (unfold replace in bind_all-length source requests results (unbind b) m, run-Answered d rest k)

answered_ends : (P : BreakpointIds → Type 0) (m : Outcome BreakpointIds) → Ensures P m → m ≢ panic
answered_ends P (done b) h e = cc
answered_ends P panic h e = h

ended_keeps :
    (P : BreakpointIds → Type 0) (m : Outcome BreakpointIds) → (m ≢ panic → Ensures P m) → Keeps P m
ended_keeps P (done b) f = f (λ e. cc)
ended_keeps P panic f = tt

-- A session panics exactly when some replacement is answered with more results than it has requests.
-- Otherwise, over the whole session each identity belongs to one source position only, and
-- is positive and below the next one; with no command pending no retired identity is left.
pub identities_unique :
    (cs : List Command)
    → ((run new_breakpoint_ids cs ≢ panic) ↔ Answered cs)
      × Keeps
          (λ b.
            ((k j : BreakpointKey) (n : ℕ)
              → lookup k b.stable ≡ some n
              → lookup j b.stable ≡ some n
              → k ≡ j)
            × ((k : BreakpointKey) (n : ℕ) → lookup k b.stable ≡ some n → (1 ≤ n) × (n < b.next))
            × (b.pending ≡ 0 → b.retired ≡ []))
          (run new_breakpoint_ids cs)
identities_unique cs =
    let m = run new_breakpoint_ids cs in
    let inv = λ (a : Answered cs). run-Inv new_breakpoint_ids cs a new_breakpoint_ids-Inv in
    (
      (run-Answered new_breakpoint_ids cs, λ a. answered_ends Inv m (inv a)),
      Keeps-mono Inv _ m (λ b v. (v.unique, v.in_range, v.idle))
          (ended_keeps Inv m (λ n. inv (run-Answered new_breakpoint_ids cs n))),
    )
