-- ===== src/Memory/Laws.antt =====
-- Words and their bytes, and reads of words after a write.
use llvm_guard_handler.Base.{
  ℕ, zero, suc, ◌+◌, ◌-◌, ◌/◌, ◌^◌, ◌≤◌, ◌<◌, ◌≡◌, refl, ap, ap₂, ◌∙◌, ◌⊎◌, List, [], ◌∷◌, ◌++◌,
  arith, length, get_or,
}
use llvm_guard_handler.Memory.{Memory, to_bytes, of_bytes, load, store, read, read64, write64}

pub length-to_bytes : (n v : ℕ) → length (to_bytes n v) ≡ n
unfolding to_bytes
length-to_bytes zero v = refl
length-to_bytes (suc n) v = ap suc (length-to_bytes n (v / 256))

pub length-load : (m : Memory) (a n : ℕ) → length (load m a n) ≡ n
unfolding load
length-load m a zero = refl
length-load m a (suc n) = ap suc (length-load m (a + 1) n)

-- `v` has no more than `n` bytes.
abbrev pub Fits : ℕ → ℕ → Type 0
Fits zero v = v ≡ 0
Fits (suc n) v = Fits n (v / 256)

pub of_bytes-to_bytes : (n v : ℕ) → Fits n v → of_bytes (to_bytes n v) ≡ v
unfolding to_bytes of_bytes
of_bytes-to_bytes zero v h = omega arith
of_bytes-to_bytes (suc n) v h = omega (arith, of_bytes-to_bytes n (v / 256) h)

pub Fits-8 : (v : ℕ) → v < 2 ^ 64 → Fits 8 v
Fits-8 v h = omega arith

pub Fits-4 : (v : ℕ) → v < 2 ^ 32 → Fits 4 v
Fits-4 v h = omega arith

pub Fits-2 : (v : ℕ) → v < 2 ^ 16 → Fits 2 v
Fits-2 v h = omega arith

pub Fits-1 : (v : ℕ) → v < 2 ^ 8 → Fits 1 v
Fits-1 v h = omega arith

pub load-add : (m : Memory) (a n k : ℕ) → load m a (n + k) ≡ load m a n ++ load m (a + n) k
unfolding load
load-add m a zero k =
    let e : zero + k ≡ k = omega arith in let e' : a + zero ≡ a = omega arith in rw (e, e')
load-add m a (suc n) k =
    let e : suc n + k ≡ suc (n + k) = omega arith in
    let e' : a + suc n ≡ a + 1 + n = omega arith in
    rw (e, e', load) (ap (◌∷◌ (m a)) (load-add m (a + 1) n k))

-- Loading what was just stored: the loop stands at offset `i` of the stored bytes.
load-store_at :
    (m : Memory) (a : ℕ) (bs : List ℕ) (i : ℕ) (cs : List ℕ)
    → i + length cs ≡ length bs
    → ((j : ℕ) → j < length cs → get_or bs (i + j) 0 ≡ get_or cs j 0)
    → load (store m a bs) (a + i) (length cs) ≡ cs
unfolding load
load-store_at m a bs i [] e h = refl
load-store_at m a bs i (c ∷ cs) e h = ap₂ ◌∷◌ here (
    rw (← next) (
      load-store_at m a bs (i + 1) cs (omega arith)
        λ j lt. let e' : i + 1 + j ≡ i + suc j = omega arith in rw e' (h (suc j) (omega arith))))
  where
    here : store m a bs (a + i) ≡ c
    here = let at : a + i - a ≡ i + 0 = omega arith in unfold store in ground (arith, at, h 0)

    next : a + (i + 1) ≡ a + i + 1
    next = omega arith

pub load-store : (m : Memory) (a : ℕ) (bs : List ℕ) → load (store m a bs) a (length bs) ≡ bs
load-store m a bs =
    let e : a + 0 ≡ a = omega arith in
    rw e at
      (load-store_at m a bs 0 bs (omega arith) λ j lt. let e' : 0 + j ≡ j = omega arith in rw e')

pub load-store_ne :
    (m : Memory) (a : ℕ) (bs : List ℕ) (b n : ℕ)
    → (b + n ≤ a) ⊎ (a + length bs ≤ b)
    → load (store m a bs) b n ≡ load m b n
unfolding load
load-store_ne m a bs b zero h = refl
load-store_ne m a bs b (suc n) h =
    ap₂ ◌∷◌ (unfold store in ground arith) (load-store_ne m a bs (b + 1) n (omega arith))

pub read64-write64 : (m : Memory) (a v : ℕ) → v < 2 ^ 64 → read64 (write64 m a v) a ≡ v
unfolding read64 read write64
read64-write64 m a v h =
    ap of_bytes (rw (length-to_bytes 8 v) at (load-store m a (to_bytes 8 v)))
    ∙ of_bytes-to_bytes 8 v (Fits-8 v h)

pub read64-write64_ne :
    (m : Memory) (a v b : ℕ) → (b + 8 ≤ a) ⊎ (a + 8 ≤ b) → read64 (write64 m a v) b ≡ read64 m b
unfolding read64 read write64
read64-write64_ne m a v b h =
    ap of_bytes (load-store_ne m a (to_bytes 8 v) b 8 (rw (length-to_bytes 8 v) h))

-- From address `a` on, memory holds the bytes `bs`.
pub Holds : Memory → ℕ → List ℕ → Type 0
Holds m a [] = Unit
Holds m a (b ∷ bs) = (m a ≡ b) × Holds m (a + 1) bs

pub load-Holds : (m : Memory) (a : ℕ) (bs : List ℕ) → Holds m a bs → load m a (length bs) ≡ bs
unfolding Holds load
load-Holds m a [] h = refl
load-Holds m a (b ∷ bs) h = ap₂ ◌∷◌ h.0 (load-Holds m (a + 1) bs h.1)

pub Holds-append :
    (m : Memory) (a b : ℕ) (xs ys : List ℕ)
    → b ≡ a + length xs
    → Holds m a (xs ++ ys)
    → Holds m a xs × Holds m b ys
unfolding Holds
Holds-append m a b [] ys e h = (tt, let e' : b ≡ a = omega arith in rw e' h)
Holds-append m a b (x ∷ xs) ys e h =
    let (first, rest) = Holds-append m (a + 1) b xs ys (omega arith) h.1 in ((h.0, first), rest)

-- A word at `a`, and what stands behind it.
pub Holds-word :
    (m : Memory) (a b w v : ℕ) (rest : List ℕ)
    → b ≡ a + w
    → Fits w v
    → Holds m a (to_bytes w v ++ rest)
    → (read m a w ≡ v) × Holds m b rest
unfolding read
Holds-word m a b w v rest e fits h =
    let split = Holds-append m a b (to_bytes w v) rest (omega (arith, length-to_bytes w v)) h in
    (
      ap of_bytes (rw (length-to_bytes w v) at (load-Holds m a (to_bytes w v) split.0))
          ∙ of_bytes-to_bytes w v fits,
      split.1,
    )

-- A memory that is made of bytes holds them.
pub Holds-get_or :
    (bs : List ℕ) (i : ℕ) (cs : List ℕ)
    → ((j : ℕ) → get_or bs (i + j) 0 ≡ get_or cs j 0)
    → Holds (λ x. get_or bs x 0) i cs
unfolding Holds
Holds-get_or bs i [] at = tt
Holds-get_or bs i (c ∷ cs) at = (
  (let e : i ≡ i + 0 = omega arith in rw e (at 0)),
  Holds-get_or bs (i + 1) cs
      (λ j. let e : i + 1 + j ≡ i + suc j = omega arith in rw e (at (suc j))),
)
