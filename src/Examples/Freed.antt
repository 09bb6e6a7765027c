-- ===== src/Examples/Freed.antt =====
-- The theorems on heap blocks, at a run of the handler with inlined calls.
use llvm_guard_handler.Base.{
  none, if◌then◌else◌, ◌==◌, ℕ, ◌≤◌, ◌≡◌, ◌⊎◌, Bool, some, [], ◌∷◌, ltb, ok, err, uninitialised,
}
use llvm_guard_handler.Heap.{Heap}
use llvm_guard_handler.Heap.Owns.{occurrences}
use llvm_guard_handler.CallStack.Blocks.{restore_unopt_stack}
use llvm_guard_handler.CallStack.Blocks.Slots.{odd_counts, restore_unopt_stack-frees}
use llvm_guard_handler.Guard.Blocks.{Findings, guard_failure}
use llvm_guard_handler.Guard.Blocks.Freed.{Ends, guard_failure-frees}

-- Three blocks of the program itself.
abbrev heap : Heap
heap = record { next = 7; live = 6 ∷ 2 ∷ 1 ∷ [] }

-- `realloc` moves arrays of more than two elements.
abbrev moved : ℕ → Bool
moved n = ltb 2 n

-- `realloc` moves arrays of more than six elements.
abbrev roomy : ℕ → Bool
roomy n = ltb 6 n

-- Two calls were inlined in the second function, and one around the guard.
abbrev found : Findings
found = record {
  num_rec = 4;
  depth = 3;
  inlined = λ i. if i == 0 then some 2 else none;
  restored = some 1;
  counts = 2 ∷ 4 ∷ 0 ∷ 2 ∷ [];
}

guard_failure-frees_example : Ends roomy found heap (guard_failure roomy found heap)
guard_failure-frees_example = guard_failure-frees roomy found heap

-- The second record has three locations.
restore_unopt_stack-frees_example :
    ((odd_counts (2 ∷ 3 ∷ []) ≡ 0)
      × (h' : Heap) × (restore_unopt_stack moved (2 ∷ 3 ∷ []) heap ≡ ok h')
      × ((q : ℕ) → occurrences q h'.live ≡ occurrences q heap.live))
    ⊎ ((1 ≤ odd_counts (2 ∷ 3 ∷ []))
        × (restore_unopt_stack moved (2 ∷ 3 ∷ []) heap ≡ err uninitialised))
restore_unopt_stack-frees_example = restore_unopt_stack-frees moved (2 ∷ 3 ∷ []) heap
