-- ===== src/Memory/Copies.antt =====
-- `memcpy` from one place in memory to another.
use llvm_guard_handler.Base.{
  ℕ, zero, suc, ◌+◌, ◌-◌, ◌≤◌, ◌<◌, ◌≡◌, refl, ap, ap₂, ◌⊎◌, List, ◌∷◌, arith, length, get_or,
}
use llvm_guard_handler.Memory.{Memory, of_bytes, load, store, read, read64}
use llvm_guard_handler.Memory.Laws.{length-load, load-store_ne}

get_or-load : (m : Memory) (a n j : ℕ) → j < n → get_or (load m a n) j 0 ≡ m (a + j)
unfolding load
get_or-load m a zero j lt = absurd (omega arith)
get_or-load m a (suc n) zero lt = let e : a + zero ≡ a = omega arith in rw e
get_or-load m a (suc n) (suc j) lt =
    let e : a + suc j ≡ a + 1 + j = omega arith in rw e (get_or-load m (a + 1) n j (omega arith))

-- A byte of the copy.
store-load : (m : Memory) (a d n j : ℕ) → j < n → store m d (load m a n) (d + j) ≡ m (a + j)
unfolding store
store-load m a d n j lt =
    let len = length-load m a n in
    let at : d + j - d ≡ j = omega arith in ground (arith, len, at, get_or-load m a n j lt)

-- The bytes of the copy from offset `k` on.
pub load-copy :
    (m : Memory) (a d n k w : ℕ)
    → k + w ≤ n
    → load (store m d (load m a n)) (d + k) w ≡ load m (a + k) w
unfolding load
load-copy m a d n k zero le = refl
load-copy m a d n k (suc w) le =
    let e : d + k + 1 ≡ d + (k + 1) = omega arith in
    let e' : a + k + 1 ≡ a + (k + 1) = omega arith in
    ap₂ ◌∷◌ (store-load m a d n k (omega arith))
      (rw (e, e') (load-copy m a d n (k + 1) w (omega arith)))

-- A word within the copy is the word at the same offset of the original.
pub read64-copy :
    (m : Memory) (a d n k : ℕ)
    → k + 8 ≤ n
    → read64 (store m d (load m a n)) (d + k) ≡ read64 m (a + k)
unfolding read64 read
read64-copy m a d n k le = ap of_bytes (load-copy m a d n k 8 le)

-- A word outside the stored bytes.
pub read64-store_ne :
    (m : Memory) (a : ℕ) (bs : List ℕ) (b : ℕ)
    → (b + 8 ≤ a) ⊎ (a + length bs ≤ b)
    → read64 (store m a bs) b ≡ read64 m b
unfolding read64 read
read64-store_ne m a bs b out = ap of_bytes (load-store_ne m a bs b 8 out)
