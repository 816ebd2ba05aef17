-- ===== src/Errors.antt =====
-- The error values that the modelled packages make and compare: the sentinels of
-- internal/exec/errors.go, internal/debug/errors.go, internal/workspace/errors.go and Go's context package, and any other error
-- by its text. A nil error is none.
use ferretd.Prelude.{Bool, true, false, ◌||◌, Option, none, some, String}

pub data Error : Type 0 where
  err_closed err_session_not_found err_session_closed err_execution_not_found : Error
  err_execution_running err_execution_terminal err_invalid_execution_options : Error
  err_watcher_lagged err_execution_canceled : Error
  debug_closed debug_session_not_found debug_session_running : Error
  debug_session_not_running debug_session_not_stopped debug_session_terminal : Error
  debug_watcher_lagged : Error
  workspace_closed workspace_document_not_found : Error
  context_canceled context_deadline_exceeded : Error
  other : String → Error
  joined : Error → Error → Error
  wrapped : String → Error → Error

-- `errors.Join(a, b)`: nil arguments are dropped.
unfoldable pub join : Option Error → Option Error → Option Error
join none b = b
join (some a) none = some a
join (some a) (some b) = some (joined a b)

-- `errors.Is(err, context.Canceled)`: joined errors and those wrapped by `%w` are searched.
unfoldable pub is_canceled : Error → Bool
is_canceled (joined a b) = is_canceled a || is_canceled b
is_canceled (wrapped text a) = is_canceled a
is_canceled context_canceled = true
is_canceled _ = false

-- `errors.Is(err, context.DeadlineExceeded)`
unfoldable pub is_deadline_exceeded : Error → Bool
is_deadline_exceeded (joined a b) = is_deadline_exceeded a || is_deadline_exceeded b
is_deadline_exceeded (wrapped text a) = is_deadline_exceeded a
is_deadline_exceeded context_deadline_exceeded = true
is_deadline_exceeded _ = false
