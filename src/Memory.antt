-- ===== src/Memory.antt =====
-- Memory as the C code sees it through `memcpy` and through pointers to words: a byte at each
-- address, words little-endian (x86-64).
pub mod Copies
pub mod Laws
use llvm_guard_handler.Base.{
  ℕ, zero, suc, ◌+◌, ◌-◌, ◌*◌, ◌/◌, ◌%◌, List, [], ◌∷◌, ◌&&◌, leb, ltb, if◌then◌else◌, length,
  get_or,
}

abbrev pub Memory : Type 0
Memory = ℕ → ℕ

-- The `n` bytes of a word, the lowest first, and the word that bytes stand for.
unfoldable pub to_bytes : ℕ → ℕ → List ℕ
to_bytes zero v = []
to_bytes (suc n) v = (v % 256) ∷ to_bytes n (v / 256)

unfoldable pub of_bytes : List ℕ → ℕ
of_bytes [] = 0
of_bytes (b ∷ bs) = b + 256 * of_bytes bs

-- `memcpy` out of memory and into it.
unfoldable pub load : Memory → ℕ → ℕ → List ℕ
load m a zero = []
load m a (suc n) = m a ∷ load m (a + 1) n

unfoldable pub store : Memory → ℕ → List ℕ → Memory
store m a bs x = if leb a x && ltb x (a + length bs) then get_or bs (x - a) 0 else m x

-- `*(uint64_t *)a`, and the smaller widths.
unfoldable pub read : Memory → ℕ → ℕ → ℕ
read m a n = of_bytes (load m a n)

unfoldable pub read64 : Memory → ℕ → ℕ
read64 m a = read m a 8

-- `*(uint64_t *)a = v`.
unfoldable pub write64 : Memory → ℕ → ℕ → Memory
write64 m a v = store m a (to_bytes 8 v)
