-- ===== src/Base/Double.antt =====
-- The doubles of the program, which computes with few of them: a type with the operations used.
use Prim.Native.Nat.{ℕ}
use mathlib.Core.List.{List}

pub record Floats (D : Type 0) : Type 0 where
  -- the literal `digits` / 10 ^ `places`
  pub literal : ℕ → ℕ → D
  -- `atof` of the C library
  pub atof : List ℕ → D
  pub sub : D → D → D
  pub mul : D → D → D
  pub div : D → D → D
  -- the casts from and to `unsigned long long`
  pub of_u64 : ℕ → D
  pub to_u64 : D → ℕ
