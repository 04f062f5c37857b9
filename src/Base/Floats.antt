-- ===== src/Base/Floats.antt =====
-- What the program asks of IEEE 754 `f32`, which the language implements.
use Prim.Native.Nat.{ℕ, ◌≤◌}
use mathlib.Core.Path.{◌≡◌}
use mathlib.Core.Bool.{Bool, false}
use native.Mathlib.Omega.{arith}
use di_pecs.Base.Tests.{ltb}

-- `decimal n` is the literal n / 100. Rounding to the nearest float is monotone, so a literal is
-- never below a smaller one.
pub record Floats : Type 1 where
  pub F32 : Type 0
  pub lt : F32 → F32 → Bool
  pub decimal : ℕ → F32
  pub decimal_monotone : (m n : ℕ) → m ≤ n → lt (decimal n) (decimal m) ≡ false

pub hundredths_monotone : (m n : ℕ) → m ≤ n → ltb n m ≡ false
hundredths_monotone m n h = ground arith

-- Hundredths, exactly.
abbrev pub hundredths : Floats
hundredths = record { F32 = ℕ; lt = ltb; decimal = λ n. n; decimal_monotone = hundredths_monotone }
