-- ===== src/Lifecycle/CloseOperation.antt =====
-- internal/lifecycle/close_operation.go. The channel `done` is made by `Begin` and closed by
-- `Finish`, so the field holds none for the nil channel and otherwise whether it is closed.
pub mod History
use ferretd.Prelude.{Bool, true, false, Option, none, some, Outcome, done, panic}
use ferretd.Errors.{Error}

pub data CloseState : Type 0 where
  close_idle close_started close_finished : CloseState

pub record CloseOperation : Type 0 where
  pub state : CloseState
  pub done_channel : Option Bool
  pub err : Option Error

-- What `Wait` does in its first critical section, other than a panic: return, or release the mutex
-- and select.
pub data WaitPoint : Type 0 where
  returned : Option Error → WaitPoint
  selecting : WaitPoint

-- The zero value.
unfoldable pub zero_value : CloseOperation
zero_value = record { state = close_idle; done_channel = none; err = none }

unfoldable pub begin : CloseOperation → CloseOperation × Bool
begin c = elim c.state [
  | close_idle ↦ (record c { state = close_started; done_channel = some false }, true)
  | close_started ↦ (c, false)
  | close_finished ↦ (c, false)
]

unfoldable pub started : CloseOperation → Bool
started c = elim c.state [ close_idle ↦ false | close_started ↦ true | close_finished ↦ true ]

unfoldable pub finished : CloseOperation → Bool
finished c = elim c.state [ close_idle ↦ false | close_started ↦ false | close_finished ↦ true ]

abbrev close_done : CloseOperation → Option Bool → Outcome CloseOperation
close_done c (some false) = done (record c { done_channel = some true })
close_done c (some true) = panic
close_done c none = panic

unfoldable pub finish : CloseOperation → Option Error → Outcome CloseOperation
finish c e = elim c.state [
  | close_idle ↦ panic
  | close_started ↦ close_done (record c { err = e; state = close_finished }) c.done_channel
  | close_finished ↦ panic
]

-- The flag is whether the context is not nil.
unfoldable pub wait : CloseOperation → Bool → Outcome WaitPoint
wait c false = panic
wait c true = elim c.state [
  | close_idle ↦ panic
  | close_started ↦ done selecting
  | close_finished ↦ done (returned c.err)
]

-- The `done` case of the select: `result` under the mutex.
unfoldable pub result : CloseOperation → Outcome (Option Error)
result c = elim c.state [ close_idle ↦ panic | close_started ↦ panic | close_finished ↦ done c.err ]

-- The `ctx.Done()` case: a published result is preferred to the context's error.
unfoldable pub wait_cancelled : CloseOperation → Error → Option Error
wait_cancelled c ctx_err = elim c.state [
  | close_idle ↦ some ctx_err
  | close_started ↦ some ctx_err
  | close_finished ↦ c.err
]
