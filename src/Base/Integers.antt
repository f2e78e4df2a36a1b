-- ===== src/Base/Integers.antt =====
-- Differences of natural numbers, which may be negative.
use Prim.Native.Nat.{ℕ, ◌-◌}
use mr_enderson.Base.Tests.{if◌then◌else◌, leb}

pub data ℤ : Type 0 where
  pos : ℕ → ℤ
  negsuc : ℕ → ℤ

-- `m - n`, without the truncation at 0.
abbrev pub difference : ℕ → ℕ → ℤ
difference m n = if leb n m then pos (m - n) else negsuc (n - m - 1)
