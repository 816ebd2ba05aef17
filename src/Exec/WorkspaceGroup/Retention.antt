-- ===== src/Exec/WorkspaceGroup/Retention.antt =====
-- What the close of a workspace finds: the Sessions are fixed from its commitment on.
use ferretd.Prelude.{
  ℕ, ◌-◌, ◌≡◌, refl, String, Bool, true, false, Option, none, List, [], ◌∷◌, Outcome, done, panic,
  ◌>>=◌, if◌then◌else◌, ◌==◌, Keeps, Keeps-bind, Keeps-mono, arith,
}
use ferretd.Errors.{Error}
use ferretd.Lifecycle.Channels.{close_channel}
use ferretd.Lifecycle.CloseOperation
use ferretd.Lifecycle.CloseOperation.{CloseOperation, started}
use ferretd.Lifecycle.Gate
use ferretd.Lifecycle.Gate.{Gate, accepting, end_create, ensure_channel}
use ferretd.Exec.WorkspaceGroup.{
  WorkspaceGroup, begin_create, finish_create, add, remove_completed, begin_close, finish_close,
  retained_sessions,
}

-- The calls on a group, by anybody.
pub data Call : Type 0 where
  begins_create finishes_create begins_close : Call
  adds removes : String → ℕ → Call
  finishes_close : Option Error → Call

unfoldable pub call : WorkspaceGroup → Call → Outcome WorkspaceGroup
call g begins_create = done (begin_create g).0
call g finishes_create = do r ← finish_create g; done r.0
call g begins_close = done (begin_close g).0
call g (adds id entry) = done (add g id entry).0
call g (removes id entry) = done (remove_completed g id entry).0
call g (finishes_close err) = finish_close g err

unfoldable pub calls : WorkspaceGroup → List Call → Outcome WorkspaceGroup
calls g [] = done g
calls g (c ∷ cs) = do h ← call g c; calls h cs

-- The close is committed and the Sessions are those of `g`.
abbrev pub Fixed : WorkspaceGroup → WorkspaceGroup → Type 0
Fixed g h = (started h.gate.close ≡ true) × (h.sessions ≡ g.sessions)

ended_close :
    (g : Gate) (o : Outcome (List Bool)) (t u : Bool)
    → Keeps {A = Gate × Bool}
        (λ r. r.0.close ≡ g.close)
        (if t
          then panic
          else if u
          then (do
            heap ← o
            done (
              record g { creating = g.creating - 1; creates_done = none; channels = heap },
              true,
            ))
          else done (record g { creating = g.creating - 1 }, false))
ended_close g o true u = tt
ended_close g (done heap) false true = refl
ended_close g panic false true = tt
ended_close g o false false = refl

-- Who leaves the gate does not touch the close.
pub end_create_close : (g : Gate) → Keeps (λ r. r.0.close ≡ g.close) (end_create g)
unfolding end_create
end_create_close g =
    ended_close g (close_channel g.channels g.creates_done) (g.creating == 0)
      ((g.creating - 1) == 0)

finish_create-Fixed :
    (g h : WorkspaceGroup) → Fixed g h → Keeps (Fixed g) (do r ← finish_create h; done r.0)
unfolding finish_create started
finish_create-Fixed g h f =
    Keeps-bind (λ r. Fixed g r.0) (Fixed g) (finish_create h) (λ r. done r.0)
      (Keeps-bind (λ r. r.0.close ≡ h.gate.close) (λ r. Fixed g r.0) (end_create h.gate) _
        (end_create_close h.gate) (λ r e. (ground (arith, f.0), f.1)))
      (λ r k. k)

call-Fixed : (g h : WorkspaceGroup) (c : Call) → Fixed g h → Keeps (Fixed g) (call h c)
unfolding call started accepting
call-Fixed g h begins_create f = unfold begin_create Gate.begin_create in ground arith
call-Fixed g h finishes_create f = finish_create-Fixed g h f
call-Fixed g h begins_close f =
    unfold begin_close Gate.begin_close CloseOperation.begin in ground arith
call-Fixed g h (adds id entry) f = unfold add in ground arith
call-Fixed g h (removes id entry) f = unfold remove_completed in ground arith
call-Fixed g h (finishes_close err) f =
    unfold finish_close Gate.finish_close CloseOperation.finish in ground arith

calls-Fixed : (g h : WorkspaceGroup) (cs : List Call) → Fixed g h → Keeps (Fixed g) (calls h cs)
unfolding calls
calls-Fixed g h [] f = f
calls-Fixed g h (c ∷ cs) f =
    Keeps-bind (Fixed g) (Fixed g) (call h c) (λ k. calls k cs) (call-Fixed g h c f)
      (λ k r. calls-Fixed g k cs r)

begin_close-Fixed : (g : WorkspaceGroup) → Fixed (begin_close g).0 (begin_close g).0
unfolding begin_close Gate.begin_close CloseOperation.begin started
begin_close-Fixed g = (ground arith, refl)

-- From the commitment of the close on, whatever is called, no Session is added or removed: the Sessions
-- that the teardown collects, before or after it waits, are those of the commitment.
pub calls-retained :
    (g : WorkspaceGroup) (cs : List Call)
    → Keeps
        (λ h. retained_sessions h ≡ retained_sessions (begin_close g).0)
        (calls (begin_close g).0 cs)
unfolding retained_sessions
calls-retained g cs =
    Keeps-mono (Fixed (begin_close g).0) _ (calls (begin_close g).0 cs) (λ h f. rw (f.1) refl)
      (calls-Fixed (begin_close g).0 (begin_close g).0 cs (begin_close-Fixed g))
