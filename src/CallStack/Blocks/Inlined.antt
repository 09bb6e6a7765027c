-- ===== src/CallStack/Blocks/Inlined.antt =====
-- The blocks of the frames of inlined calls, in `get_restored_state` and in a round of
-- `collect_inlined_frames` of src/stackmap_checker/call_stack_state.c.
use llvm_guard_handler.Base.{
  not, some, ℕ, zero, suc, ◌+◌, ◌≡◌, refl, sym, ap, ◌∙◌, Bool, none, List, [], ◌∷◌, ◌++◌, arith, ok,
  follows,
}
use llvm_guard_handler.Heap.{Heap, alloc, alloc_all}
use llvm_guard_handler.Heap.Owns.{
  occurrences, occurrences-append, block, Owns, alloc-Owns, realloc-Owns, alloc_all-Owns,
}
use llvm_guard_handler.CallStack.Blocks.{
  StateBlocks, free_call_stack_state, insert_frames, restored_from, get_restored_state,
  collect_round,
}
use llvm_guard_handler.CallStack.Blocks.Freed.{
  state_blocks, array_first, IsFull, Gives, insert_frames-Owns, free_call_stack_state-Owns,
}

module _ (base : List ℕ) (moved : ℕ → Bool) where
  restored_from-Owns :
      (n : ℕ) (s : StateBlocks) (h : Heap) (ps : List ℕ)
      → Owns base h (state_blocks s ++ ps)
      → (s' : StateBlocks) × (h' : Heap) × (restored_from moved n s h ≡ ok (s', h'))
        × Owns base h' (state_blocks s' ++ ps)
        × (s'.registers ≡ s.registers)
        × (s'.depth ≡ s.depth + n)
  unfolding restored_from
  restored_from-Owns zero s h ps own = (s, h, refl, own, refl, omega arith)
  restored_from-Owns (suc n) s h ps own =
      let others = s.self ∷ (s.registers ++ ps) in
      let (f, h1, e1, own1) =
        realloc-Owns base moved (s.depth + 1) s.frames h others
          (λ q. own q ∙ ap (λ (x : ℕ). x + occurrences q base) (array_first q s ps)) in
      let s1 : StateBlocks = record s { frames = f; depth = s.depth + 1 } in
      let (s2, h2, e2, own2, same, deep) =
        restored_from-Owns n s1 h1 ps
          (λ q. own1 q ∙ ap (λ (x : ℕ). x + occurrences q base) (sym (array_first q s1 ps))) in
      (s2, h2, rw (e1, e2) refl, own2, same, omega arith)

  pub get_restored_state-Owns :
      (n : ℕ) (h : Heap) (ps : List ℕ)
      → Owns base h ps
      → Gives base moved (get_restored_state moved n) h ps n
  unfolding get_restored_state
  get_restored_state-Owns n h ps own =
      let (p, h1) = alloc h in
      let empty : StateBlocks = record { self = p; frames = none; registers = []; depth = 0 } in
      let (s, h2, e, own2, unset, deep) =
        restored_from-Owns n empty h1 ps (alloc-Owns base h ps own) in
      let (own3, count) = alloc_all-Owns base s.depth h2 (state_blocks s ++ ps) own2 in
      let new = (alloc_all s.depth h2).0 in
      (
        record s { registers = new },
        (alloc_all s.depth h2).1,
        rw e refl,
        λ q.
            let no_others : occurrences q s.registers ≡ 0 = rw unset refl in
            omega (
              arith,
              own3 q,
              occurrences-append q new (state_blocks s ++ ps),
              occurrences-append q (block s.frames ++ s.registers) ps,
              occurrences-append q (block s.frames) s.registers,
              occurrences-append q (block s.frames ++ new) ps,
              occurrences-append q (block s.frames) new,
            ),
        count,
        omega arith,
      )

  pub collect_round-Owns :
      (i n : ℕ) (s : StateBlocks) (h : Heap) (ps : List ℕ)
      → IsFull s
      → Owns base h (state_blocks s ++ ps)
      → (s' : StateBlocks) × (h' : Heap) × (collect_round moved (some n) i s h
          ≡ ok (not (moved (s.depth + n)), s', h'))
        × Owns base h' (state_blocks s' ++ ps)
        × IsFull s'
        × (s'.depth ≡ s.depth + n)
  unfolding collect_round
  collect_round-Owns i n s h ps full own =
      let (r, h1, e1, own1, full1, deep1) =
        get_restored_state-Owns n h (state_blocks s ++ ps) own in
      let (s', h2, e2, own2, full2, deep2) =
        insert_frames-Owns base moved s (i + 1) n h1 (state_blocks r ++ ps) full (λ q. omega (
          arith,
          own1 q,
          occurrences-append q (state_blocks r) (state_blocks s ++ ps),
          occurrences-append q (state_blocks s) ps,
          occurrences-append q (state_blocks s) (state_blocks r ++ ps),
          occurrences-append q (state_blocks r) ps,
        )) in
      let (h3, e3, own3) = free_call_stack_state-Owns base r h2 (state_blocks s' ++ ps) full1 (λ q.
        omega (
          arith,
          own2 q,
          occurrences-append q (state_blocks r) (state_blocks s' ++ ps),
          occurrences-append q (state_blocks s') ps,
          occurrences-append q (state_blocks s') (state_blocks r ++ ps),
          occurrences-append q (state_blocks r) ps,
        )) in
      (
        s',
        h3,
        follows (get_restored_state moved n h) _ e1 (
            follows (insert_frames moved s (i + 1) n h1) _ e2 (
              follows (free_call_stack_state r h2) _ e3
                (ap (λ (d : ℕ). ok (not (moved d), s', h3)) deep2))),
        own3,
        full2,
        deep2,
      )
