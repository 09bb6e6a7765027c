-- ===== src/Base/Word.antt =====
-- The unsigned words of C: values are plain numbers, and each operation that can leave the range of
-- its type is reduced.
use Prim.Native.Nat.{ℕ, ◌+◌, ◌-◌, ◌%◌, ◌^◌, ◌<◌}
use mathlib.Core.Path.{◌≡◌}
use native.Mathlib.Omega.{arith}
use llvm_guard_handler.Base.Tests.{ltb, if◌then◌else◌}

-- uint64_t a + b, a - b and ~a.
abbrev pub add64 : ℕ → ℕ → ℕ
add64 a b = (a + b) % 2 ^ 64

abbrev pub sub64 : ℕ → ℕ → ℕ
sub64 a b = (a + 2 ^ 64 - b) % 2 ^ 64

abbrev pub not64 : ℕ → ℕ
not64 a = 2 ^ 64 - 1 - a

-- (uint32_t)(a + b).
abbrev pub add32 : ℕ → ℕ → ℕ
add32 a b = (a + b) % 2 ^ 32

-- (uint64_t)x for an int32_t x, which is kept as its bit pattern: the sign is extended.
abbrev pub sext32 : ℕ → ℕ
sext32 x = if ltb x (2 ^ 31) then x else x + (2 ^ 64 - 2 ^ 32)

pub add64-lt : (a b : ℕ) → add64 a b < 2 ^ 64
add64-lt a b = omega arith

pub not64-not64 : (a : ℕ) → a < 2 ^ 64 → not64 (not64 a) ≡ a
not64-not64 a h = omega arith
