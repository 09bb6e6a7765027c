-- ===== src/Guard/Blocks.antt =====
-- The heap blocks of a run of `__guard_failure` of src/stackmap_checker/guard.c that does not exit.
pub mod Freed
use llvm_guard_handler.Base.{
  zero, suc, ℕ, ◌-◌, Bool, true, false, Option, none, some, List, [], ◌∷◌, Result, ok, ◌>>=◌,
}
use llvm_guard_handler.Heap.{Heap, alloc, free}
use llvm_guard_handler.StackMap.Blocks.{MapBlocks, create, stmap_free}
use llvm_guard_handler.CallStack.Blocks.{
  StateBlocks, collect_map_records, free_call_stack_state, alloc_empty_frames, free_frames,
  get_call_stack_state, insert_frames, get_restored_state, collect_inlined_frames,
  restore_unopt_stack,
}

-- What the run finds: the number of map records, the depth of the stack, how many inlined calls each
-- round of `collect_inlined_frames` finds, if it finds any, the number of calls that were inlined around the
-- guard if it was inlined, and the numbers of locations of the records of all frames but the last.
pub record Findings : Type 0 where
  pub num_rec : ℕ
  pub depth : ℕ
  pub inlined : ℕ → Option ℕ
  pub restored : Option ℕ
  pub counts : List ℕ

-- Whether one of the first `n` rounds finds calls.
unfoldable pub any_inlined : (ℕ → Option ℕ) → ℕ → Bool
any_inlined inlined zero = false
any_inlined inlined (suc n) =
    let rest = any_inlined inlined n in elim (inlined n) [ some k ↦ true | none ↦ rest ]

-- Whether the segment is allocated.
unfoldable pub rebuilds : Findings → Bool
unfolding any_inlined
rebuilds found = elim found.restored [
  | some n ↦ true
  | none ↦ any_inlined found.inlined (found.depth - 1)
]

unfoldable pub alloc_segment : Bool → Heap → Option ℕ × Heap
unfolding alloc
alloc_segment true h = let (p, h') = alloc h in (some p, h')
alloc_segment false h = (none, h)

-- After the state is complete. The state is freed by the handler or by `jump_inlined`, and the segment
-- by `jump_inlined`.
unfoldable pub resume : (ℕ → Bool) → MapBlocks → StateBlocks → Findings → Heap → Result Heap
unfolding free alloc_segment rebuilds
resume moved sm state found h = do
  let (seg, h1) = alloc_segment (rebuilds found) h
  h2 ← restore_unopt_stack moved found.counts h1
  h3 ← stmap_free sm h2
  h4 ← free_call_stack_state state h3
  free seg h4

-- The frame of the failed guard and, if it was inlined, those of the calls around it.
unfoldable pub add_fail_frame :
    (ℕ → Bool) → StateBlocks → Option ℕ → Heap → Result (StateBlocks × Heap)
add_fail_frame moved state none h = insert_frames moved state 0 1 h
add_fail_frame moved state (some n) h = do
  (restored_state, h1) ← get_restored_state moved n h
  (state', h2) ← insert_frames moved state 0 n h1
  h3 ← free_call_stack_state restored_state h2
  insert_frames moved state' 0 1 h3

-- From the frame of the failed guard on.
unfoldable pub enter : (ℕ → Bool) → MapBlocks → StateBlocks → Findings → Heap → Result Heap
unfolding add_fail_frame resume
enter moved sm state found h = do
  let (fail_frame, h1) = alloc_empty_frames 1 h
  (state', h2) ← add_fail_frame moved state found.restored h1
  h3 ← free_frames fail_frame 1 h2
  resume moved sm state' found h3

-- `__guard_failure`.
unfoldable pub guard_failure : (ℕ → Bool) → Findings → Heap → Result Heap
unfolding alloc free enter
guard_failure moved found h = do
  let (binary_path, h1) = alloc h
  h2 ← free (some binary_path) h1
  let (sm, h3) = create found.num_rec h2
  (state, h4) ← get_call_stack_state moved found.depth h3
  h5 ← collect_map_records (found.depth - 1) h4
  (state', h6) ← collect_inlined_frames moved found.inlined state h5
  enter moved sm state' found h6
