-- ===== src/Base/Powers.antt =====
-- Powers of two, for delays that double.
use Prim.Native.Nat.{ℕ, zero, suc, ◌*◌, ◌^◌, ◌≤◌}
use native.Mathlib.Omega.{arith}
use native.Mathlib.Nat.{pow-suc}

pub pow_pos : (n : ℕ) → 1 ≤ 2 ^ n
pow_pos zero = omega arith
pow_pos (suc n) = rw pow-suc (omega (arith, pow_pos n))

pub le-mul_of_pos : (b t : ℕ) → 1 ≤ t → b ≤ b * t
le-mul_of_pos b t h = grind arith
