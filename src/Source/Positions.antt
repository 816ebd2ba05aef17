-- ===== src/Source/Positions.antt =====
-- internal/source/position.go: positions count UTF-16 units; both fields are uint32.
use ferretd.Prelude.{ℕ}

pub record Position : Type 0 where
  pub line : ℕ
  pub character : ℕ

-- A half-open range.
pub record Range : Type 0 where
  pub start : Position
  pub end : Position
