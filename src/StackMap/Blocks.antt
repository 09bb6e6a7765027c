-- ===== src/StackMap/Blocks.antt =====
-- The heap blocks of a stack map: those that `stmap_create` of src/stackmap_checker/stmap.c allocates
-- and `stmap_free` frees.
pub mod Freed
use llvm_guard_handler.Base.{ℕ, zero, suc, some, List, [], ◌∷◌, Result, ok, ◌>>=◌}
use llvm_guard_handler.Heap.{Heap, alloc, free}

-- The structure, its three arrays, and for each map record the arrays of locations and live-outs.
pub record MapBlocks : Type 0 where
  pub self : ℕ
  pub stk_size_records : ℕ
  pub constants : ℕ
  pub stk_map_records : ℕ
  pub records : List (ℕ × ℕ)

-- The loop over the map records.
unfoldable pub record_blocks : ℕ → Heap → List (ℕ × ℕ) × Heap
unfolding alloc
record_blocks zero h = ([], h)
record_blocks (suc n) h =
    let (locations, h1) = alloc h in
    let (liveouts, h2) = alloc h1 in
    let (rest, h3) = record_blocks n h2 in ((locations, liveouts) ∷ rest, h3)

-- `stmap_create` of a stack map with `num_rec` map records.
unfoldable pub create : ℕ → Heap → MapBlocks × Heap
unfolding alloc record_blocks
create num_rec h =
    let (self, h1) = alloc h in
    let (stk_size_records, h2) = alloc h1 in
    let (constants, h3) = alloc h2 in
    let (stk_map_records, h4) = alloc h3 in
    let (records, h5) = record_blocks num_rec h4 in
    (
      record {
        self = self;
        stk_size_records = stk_size_records;
        constants = constants;
        stk_map_records = stk_map_records;
        records = records;
      },
      h5,
    )

unfoldable pub free_records : List (ℕ × ℕ) → Heap → Result Heap
unfolding free
free_records [] h = ok h
free_records ((locations, liveouts) ∷ rest) h = do
  h1 ← free (some locations) h
  h2 ← free (some liveouts) h1
  free_records rest h2

-- `stmap_free`.
unfoldable pub stmap_free : MapBlocks → Heap → Result Heap
unfolding free free_records
stmap_free sm h = do
  h1 ← free (some sm.stk_size_records) h
  h2 ← free (some sm.constants) h1
  h3 ← free_records sm.records h2
  h4 ← free (some sm.stk_map_records) h3
  free (some sm.self) h4
