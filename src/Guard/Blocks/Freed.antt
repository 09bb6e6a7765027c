-- ===== src/Guard/Blocks/Freed.antt =====
-- What `__guard_failure` of src/stackmap_checker/guard.c leaves on the heap.
use llvm_guard_handler.Base.{
  use_after_free, ℕ, ◌+◌, ◌-◌, ◌≤◌, ◌≡◌, refl, ◌⊎◌, inl, inr, ap, ◌∙◌, Bool, true, false, Option,
  none, some, List, [], ◌∷◌, ◌++◌, arith, ok, err, ◌>>=◌, follows, uninitialised, Result, subst,
  sym,
}
use llvm_guard_handler.Heap.{Heap, alloc, free}
use llvm_guard_handler.Heap.Owns.{
  occurrences, occurrences-append, block, Owns, alloc-Owns, free-Owns, free_pointer-Owns,
}
use llvm_guard_handler.StackMap.Blocks.{MapBlocks, create, stmap_free}
use llvm_guard_handler.StackMap.Blocks.Freed.{map_blocks, create-Owns, stmap_free-Owns}
use llvm_guard_handler.CallStack.Blocks.{
  StateBlocks, collect_map_records, free_call_stack_state, alloc_empty_frames, free_frames,
  get_call_stack_state, insert_frames, get_restored_state, collect_inlined_frames,
  restore_unopt_stack,
}
use llvm_guard_handler.CallStack.Blocks.Freed.{
  state_blocks, IsFull, collect_map_records-Owns, free_call_stack_state-Owns,
  alloc_empty_frames-Owns, free_frames-Owns, get_call_stack_state-Owns, insert_frames-Owns,
}
use llvm_guard_handler.CallStack.Blocks.Inlined.{get_restored_state-Owns}
use llvm_guard_handler.CallStack.Blocks.Rounds.{Moves, Stays, Collects, collect_inlined_frames-Owns}
use llvm_guard_handler.CallStack.Blocks.Slots.{odd_counts, restore_unopt_stack-frees}
use llvm_guard_handler.Guard.Blocks.{
  Findings, rebuilds, alloc_segment, resume, add_fail_frame, enter, guard_failure,
}

-- Two parts of what is owned change places.
swap :
    (q : ℕ) (xs ys ps : List ℕ)
    → occurrences q (xs ++ (ys ++ ps)) ≡ occurrences q (ys ++ (xs ++ ps))
swap q xs ys ps = omega (
  arith,
  occurrences-append q xs (ys ++ ps),
  occurrences-append q ys ps,
  occurrences-append q ys (xs ++ ps),
  occurrences-append q xs ps,
)

module _ (base : List ℕ) where
  Owns-swap :
      (h : Heap) (xs ys ps : List ℕ)
      → Owns base h (xs ++ (ys ++ ps))
      → Owns base h (ys ++ (xs ++ ps))
  Owns-swap h xs ys ps own = λ q. own q ∙ ap (λ (n : ℕ). n + occurrences q base) (swap q xs ys ps)

  module _ (moved : ℕ → Bool) where
    add_fail_frame-Owns :
        (s : StateBlocks) (restored : Option ℕ) (h : Heap) (ps : List ℕ)
        → IsFull s
        → Owns base h (state_blocks s ++ ps)
        → (s' : StateBlocks) × (h' : Heap) × (add_fail_frame moved s restored h ≡ ok (s', h'))
          × Owns base h' (state_blocks s' ++ ps)
          × IsFull s'
    unfolding add_fail_frame
    add_fail_frame-Owns s none h ps full own =
        let (s', h', e, own', full', deep) = insert_frames-Owns base moved s 0 1 h ps full own in
        (s', h', e, own', full')
    add_fail_frame-Owns s (some n) h ps full own =
        let (r, h1, e1, own1, full1, deep1) =
          get_restored_state-Owns base moved n h (state_blocks s ++ ps) own in
        let (s2, h2, e2, own2, full2, deep2) =
          insert_frames-Owns base moved s 0 n h1 (state_blocks r ++ ps) full
            (Owns-swap h1 (state_blocks r) (state_blocks s) ps own1) in
        let (h3, e3, own3) =
          free_call_stack_state-Owns base r h2 (state_blocks s2 ++ ps) full1
            (Owns-swap h2 (state_blocks s2) (state_blocks r) ps own2) in
        let (s4, h4, e4, own4, full4, deep4) =
          insert_frames-Owns base moved s2 0 1 h3 ps full2 own3 in
        (
          s4,
          h4,
          follows (get_restored_state moved n h) _ e1 (
              follows (insert_frames moved s 0 n h1) _ e2
                (follows (free_call_stack_state r h2) _ e3 e4)),
          own4,
          full4,
        )

    alloc_segment-Owns :
        (b : Bool) (h : Heap) (ps : List ℕ)
        → Owns base h ps
        → Owns base (alloc_segment b h).1 (block (alloc_segment b h).0 ++ ps)
    unfolding alloc_segment
    alloc_segment-Owns true h ps own = alloc-Owns base h ps own
    alloc_segment-Owns false h ps own = own

    resume-Owns :
        (sm : MapBlocks) (s : StateBlocks) (found : Findings) (h : Heap)
        → IsFull s
        → Owns base h (state_blocks s ++ map_blocks sm)
        → ((odd_counts found.counts ≡ 0)
            × (h' : Heap) × (resume moved sm s found h ≡ ok h')
            × Owns base h' [])
          ⊎ ((1 ≤ odd_counts found.counts) × (resume moved sm s found h ≡ err uninitialised))
    unfolding resume
    resume-Owns sm s found h full own =
        let seg = (alloc_segment (rebuilds found) h).0 in
        let h1 = (alloc_segment (rebuilds found) h).1 in
        let own1 = alloc_segment-Owns (rebuilds found) h (state_blocks s ++ map_blocks sm) own in
        elim (restore_unopt_stack-frees moved found.counts h1) [
          | inr (odd, e) ↦ inr (odd, rw e refl)
          | inl (even, h2, e2, same) ↦
              let (h3, e3, own3) = stmap_free-Owns base sm h2 (state_blocks s ++ block seg) (λ q.
                omega (
                  arith,
                  same q,
                  own1 q,
                  occurrences-append q (block seg) (state_blocks s ++ map_blocks sm),
                  occurrences-append q (state_blocks s) (map_blocks sm),
                  occurrences-append q (map_blocks sm) (state_blocks s ++ block seg),
                  occurrences-append q (state_blocks s) (block seg),
                )) in
              let (h4, e4, own4) = free_call_stack_state-Owns base s h3 (block seg) full own3 in
              let (h5, e5, own5) =
                free_pointer-Owns base seg h4 []
                  (λ q. omega (arith, own4 q, occurrences-append q (block seg) [])) in
              inl (
                even,
                h5,
                follows (restore_unopt_stack moved found.counts h1) _ e2 (
                    follows (stmap_free sm h2) _ e3 (follows (free_call_stack_state s h3) _ e4 e5)),
                own5,
              )
        ]

-- From the frame of the failed guard on, the run ends well, or frees a pointer that was never set.
abbrev Outcome : List ℕ → Findings → Result Heap → Type 0
Outcome base found result =
    ((odd_counts found.counts ≡ 0) × (h' : Heap) × (result ≡ ok h') × Owns base h' [])
    ⊎ ((1 ≤ odd_counts found.counts) × (result ≡ err uninitialised))

Outcome_follows :
    (base : List ℕ) (found : Findings) {A : Type 0} (r : Result A) (next : A → Result Heap) {x : A}
    → r ≡ ok x
    → Outcome base found (next x)
    → Outcome base found (r >>= next)
Outcome_follows base found r next e out =
    subst (Outcome base found) (sym (follows r next e refl)) out

enter-Owns :
    (base : List ℕ) (moved : ℕ → Bool) (sm : MapBlocks) (s : StateBlocks) (found : Findings)
    (h : Heap)
    → IsFull s
    → Owns base h (state_blocks s ++ map_blocks sm)
    → Outcome base found (enter moved sm s found h)
unfolding enter
enter-Owns base moved sm s found h full own =
    let fail = (alloc_empty_frames 1 h).0 in
    let h1 = (alloc_empty_frames 1 h).1 in
    let fail_blocks = fail.frames ∷ fail.registers in
    let (own1, count) = alloc_empty_frames-Owns base 1 h (state_blocks s ++ map_blocks sm) own in
    let (s2, h2, e2, own2, full2) =
      add_fail_frame-Owns base moved s found.restored h1 (fail_blocks ++ map_blocks sm) full
        (Owns-swap base h1 fail_blocks (state_blocks s) (map_blocks sm) own1) in
    let (h3, e3, own3) =
      free_frames-Owns base fail 1 h2 (state_blocks s2 ++ map_blocks sm) count
        (Owns-swap base h2 (state_blocks s2) fail_blocks (map_blocks sm) own2) in
    Outcome_follows base found (add_fail_frame moved s found.restored h1) _ e2 (
      Outcome_follows base found (free_frames fail 1 h2) _ e3
        (resume-Owns base moved sm s2 found h3 full2 own3))

-- No round of `collect_inlined_frames` but the last one moves the array; or one does.
abbrev pub NoneMoves : (ℕ → Bool) → Findings → Type 0
NoneMoves moved found = Stays moved found.inlined found.depth 0 (found.depth - 1)

abbrev pub OneMoves : (ℕ → Bool) → Findings → Type 0
OneMoves moved found = Moves moved found.inlined found.depth 0 (found.depth - 1)

-- How a run of `__guard_failure` ends.
abbrev pub Ends : (ℕ → Bool) → Findings → Heap → Result Heap → Type 0
Ends moved found h result =
    (NoneMoves moved found
      × (odd_counts found.counts ≡ 0)
      × (h' : Heap) × (result ≡ ok h')
      × ((q : ℕ) → occurrences q h'.live ≡ occurrences q h.live))
    ⊎ (NoneMoves moved found × (1 ≤ odd_counts found.counts) × (result ≡ err uninitialised))
    ⊎ (OneMoves moved found × (result ≡ err use_after_free))

Ends-follows :
    (moved : ℕ → Bool) (found : Findings) (h : Heap) {A : Type 0} (r : Result A)
    (next : A → Result Heap) {x : A}
    → r ≡ ok x
    → Ends moved found h (next x)
    → Ends moved found h (r >>= next)
Ends-follows moved found h r next e out =
    subst (Ends moved found h) (sym (follows r next e refl)) out

Outcome-Ends :
    (moved : ℕ → Bool) (h : Heap) (found : Findings) {result : Result Heap}
    → NoneMoves moved found
    → Outcome h.live found result
    → Ends moved found h result
Outcome-Ends moved h found stays (inl (even, h', e, own)) =
    inl (stays, even, h', e, λ q. omega (arith, own q))
Outcome-Ends moved h found stays (inr (odd, e)) = inr (inl (stays, odd, e))

-- From the inlined calls on.
collect-Ends :
    (moved : ℕ → Bool) (found : Findings) (sm : MapBlocks) (s : StateBlocks) (h h' : Heap)
    → IsFull s
    → s.depth ≡ found.depth
    → Owns h.live h' (state_blocks s ++ map_blocks sm)
    → Ends moved found h (
        collect_inlined_frames moved found.inlined s h' >>= λ (state, h6).
        enter moved sm state found h6)
collect-Ends moved found sm s h h' full deep own =
    let collected =
      collect_inlined_frames-Owns h.live moved found.inlined s h' (map_blocks sm) full own in
    elim (subst
      (λ (d : ℕ).
        Collects h.live moved found.inlined d 0 (d - 1)
          (collect_inlined_frames moved found.inlined s h') (map_blocks sm))
      deep collected) [
        | inr (moves, e) ↦ inr (inr (moves, rw e refl))
        | inl (stays, (s6, h6, e6, own6, full6, deep6)) ↦
            Ends-follows moved found h (collect_inlined_frames moved found.inlined s h') _ e6
              (Outcome-Ends moved h found stays (enter-Owns h.live moved sm s6 found h6 full6 own6))
      ]

-- A run of `__guard_failure` that finds all that it looks for ends in one of three ways. If a round
-- of `collect_inlined_frames`, which is not the last one, finds frames, and `realloc` moves the array for
-- them, the next round reads freed memory. Else, if a record has an odd number of locations, the run
-- frees a pointer that was never set. Else it frees each block that it allocates, once, and nothing
-- else.
pub guard_failure-frees :
    (moved : ℕ → Bool) (found : Findings) (h : Heap)
    → Ends moved found h (guard_failure moved found h)
unfolding guard_failure
guard_failure-frees moved found h =
    let base = h.live in
    let (p, h1) = alloc h in
    let (h2, e2, own2) = free-Owns base p h1 [] (alloc-Owns base h [] (λ q. omega arith)) in
    let (sm, h3) = create found.num_rec h2 in
    let own3 = create-Owns base found.num_rec h2 [] own2 in
    let (s, h4, e4, own4, full4, deep4) =
      get_call_stack_state-Owns base moved found.depth h3 (map_blocks sm)
        (λ q. omega (arith, own3 q, occurrences-append q (map_blocks sm) [])) in
    let (h5, e5, own5) =
      collect_map_records-Owns base (found.depth - 1) h4 (state_blocks s ++ map_blocks sm) own4 in
    Ends-follows moved found h (free (some p) h1) _ e2 (
      Ends-follows moved found h (get_call_stack_state moved found.depth h3) _ e4 (
        Ends-follows moved found h (collect_map_records (found.depth - 1) h4) _ e5
          (collect-Ends moved found sm s h h5 full4 deep4 own5)))
