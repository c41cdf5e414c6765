-- ===== src/Prelude/Powers.antt =====
-- The powers of two grow.
use Prim.Native.Nat.{ℕ, zero, suc, ◌+◌, ◌^◌, ◌≤◌, ◌<◌}
use mathlib.Core.Logic.{inl, inr}
use native.Mathlib.Omega.{arith}
use folioharbor.Prelude.Tests.{◌==◌, ==_iff, Bool-cases}

pub pow_pos : (n : ℕ) → 1 ≤ 2 ^ n
pow_pos zero = omega arith
pow_pos (suc n) = let rest = pow_pos n in omega (arith, rest)

pub pow_grows : (m n : ℕ) → m < n → 2 ^ m + 1 ≤ 2 ^ n
pow_grows m zero h = absurd (omega arith)
pow_grows m (suc n) h = elim (Bool-cases (m == n)) [
  | inl last ↦ let same = (==_iff m n).0 last in let pos = pow_pos n in rw same (omega (arith, pos))
  | inr other ↦ let rest = pow_grows m n (ground (arith, ==_iff m n)) in omega (arith, rest)
]

pub pow_le : (m n : ℕ) → m ≤ n → 2 ^ m ≤ 2 ^ n
pow_le m n h = elim (Bool-cases (m == n)) [
  | inl equal ↦ rw ((==_iff m n).0 equal) (omega arith)
  | inr other ↦ let less = pow_grows m n (ground (arith, ==_iff m n)) in omega (arith, less)
]
