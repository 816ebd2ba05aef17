-- ===== src/Prelude/Words.antt =====
-- Machine integers: a Go uint64 wraps where it is computed.
use Prim.Native.Nat.{ℕ, ◌%◌, ◌^◌}

abbrev pub u64 : ℕ → ℕ
u64 n = n % 2 ^ 64
