-- ===== src/Heap.antt =====
-- The heap as an allocator of blocks: `malloc`, `calloc`, `realloc` and `free`, which C's standard
-- library documents. What blocks hold is in Memory; here a block is a name, and no name is given twice.
-- A file descriptor or a mapping is given and taken back the same way.
pub mod Owns
use mathlib.Core.Option
use llvm_guard_handler.Base.{
  ℕ, zero, suc, ◌+◌, Bool, true, false, Option, none, some, List, [], ◌∷◌, ◌==◌, if◌then◌else◌,
  Result, ok, err, ◌>>=◌, require, invalid_free, uninitialised,
}

pub record Heap : Type 0 where
  pub next : ℕ
  pub live : List ℕ

-- `malloc` and `calloc`.
unfoldable pub alloc : Heap → ℕ × Heap
alloc h = (h.next, record { next = h.next + 1; live = h.next ∷ h.live })

-- `n` blocks, one after the other.
unfoldable pub alloc_all : ℕ → Heap → List ℕ × Heap
unfolding alloc
alloc_all zero h = ([], h)
alloc_all (suc n) h = let (p, h') = alloc h in let (ps, h'') = alloc_all n h' in (p ∷ ps, h'')

unfoldable pub remove : ℕ → List ℕ → Option (List ℕ)
remove p [] = none
remove p (x ∷ xs) =
    let rest = remove p xs in if x == p then some xs else Option.map (λ (ys : List ℕ). x ∷ ys) rest

-- `free`, which does nothing at NULL.
unfoldable pub free : Option ℕ → Heap → Result Heap
unfolding remove
free none h = ok h
free (some p) h = do live ← require (remove p h.live) invalid_free; ok (record h { live = live })

-- A live block gets another place, or stays.
unfoldable pub resize : Bool → ℕ → Heap → Result (ℕ × Heap)
unfolding alloc free
resize true p h = do let (q, h') = alloc h; h'' ← free (some p) h'; ok (q, h'')
resize false p h = do live ← require (remove p h.live) invalid_free; ok (p, h)

-- `realloc` of an array to `n` elements: NULL gets a block, and no elements are left by `free`.
-- `moved n` says whether an array that grows to `n` elements gets another place.
unfoldable pub realloc : (ℕ → Bool) → ℕ → Option ℕ → Heap → Result (Option ℕ × Heap)
unfolding alloc free resize
realloc moved n none h = let (q, h') = alloc h in ok (some q, h')
realloc moved zero (some p) h = do h' ← free (some p) h; ok (none, h')
realloc moved (suc n) (some p) h = do (q, h') ← resize (moved (n + 1)) p h; ok (some q, h')

-- The blocks in the first `n` slots of an array whose first slots were set to `ps`.
unfoldable pub free_slots : ℕ → List ℕ → Heap → Result Heap
unfolding free
free_slots zero ps h = ok h
free_slots (suc n) [] h = err uninitialised
free_slots (suc n) (p ∷ ps) h = do h' ← free (some p) h; free_slots n ps h'
