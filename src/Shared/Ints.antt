-- ===== src/Shared/Ints.antt =====
-- Go's signed integers (`int32`, `int64`) that the program stores and compares.
use Prim.Native.Nat.{ℕ, suc, ◌-◌, ◌%◌, ◌^◌, ◌<◌}
use mathlib.Core.Path.{◌≡◌, ap}
use mathlib.Core.Logic.{inl, inr}
use native.Mathlib.Omega.{arith}
use bpfman_operator.Shared.Tests.{Bool-cases, ltb, if◌then◌else◌, Eq, eq_of_discrete}
use native.Mathlib.Decide.{ℕ_discrete}

-- `negsuc n` is -(n + 1).
pub data ℤ : Type 0 where
  pos : ℕ → ℤ
  negsuc : ℕ → ℤ

pub ℤ-discrete : Discrete ℤ
ℤ-discrete = hlevel ℕ_discrete

instance abbrev pub int_eq : Eq ℤ
int_eq = eq_of_discrete ℤ-discrete

-- The conversion `uint64(n)` of an `int64`.
abbrev pub uint64_of : ℤ → ℕ
uint64_of (pos n) = n % 2 ^ 64
uint64_of (negsuc n) = 2 ^ 64 - suc (n % 2 ^ 64)

-- The bits of a number as an `int32`.
abbrev int32_of_bits : ℕ → ℤ
int32_of_bits w = if ltb w (2 ^ 31) then pos w else negsuc (2 ^ 32 - suc w)

-- The conversion `int32(n)` of an `int64`.
abbrev pub int32_of : ℤ → ℤ
int32_of (pos n) = int32_of_bits (n % 2 ^ 32)
int32_of (negsuc n) = int32_of_bits (2 ^ 32 - suc (n % 2 ^ 32))

-- The range of an `int32`.
abbrev pub IsInt32 : ℤ → Type 0
IsInt32 (pos n) = n < 2 ^ 31
IsInt32 (negsuc n) = n < 2 ^ 31

int32_of_bits-IsInt32 : (w : ℕ) → w < 2 ^ 32 → IsInt32 (int32_of_bits w)
int32_of_bits-IsInt32 w small = elim (Bool-cases (ltb w (2 ^ 31))) [
  | inl e ↦ rw e ground arith
  | inr e ↦ rw e ground arith
]

pub int32_of-IsInt32 : (n : ℤ) → IsInt32 (int32_of n)
int32_of-IsInt32 (pos n) = int32_of_bits-IsInt32 (n % 2 ^ 32) (omega arith)
int32_of-IsInt32 (negsuc n) = int32_of_bits-IsInt32 (2 ^ 32 - suc (n % 2 ^ 32)) (omega arith)

pub int32_of_same : (n : ℤ) → IsInt32 n → int32_of n ≡ n
int32_of_same (pos n) small = elim (Bool-cases (ltb (n % 2 ^ 32) (2 ^ 31))) [
  | inl e ↦ rw e (ap pos (omega arith))
  | inr e ↦ ground arith
]
int32_of_same (negsuc n) small = elim (Bool-cases (ltb (2 ^ 32 - suc (n % 2 ^ 32)) (2 ^ 31))) [
  | inl e ↦ ground arith
  | inr e ↦ rw e (ap negsuc (omega arith))
]
