-- ===== src/CallStack/Blocks/Freed.antt =====
-- The blocks of call stack states, from `get_call_stack_state` to `free_call_stack_state` of
-- src/stackmap_checker/call_stack_state.c.
use llvm_guard_handler.Base.{
  ℕ, zero, suc, ◌+◌, ◌≡◌, refl, Bool, ap, ◌∙◌, Result, none, List, [], ◌∷◌, ◌++◌, arith, length,
  length-append, take, drop, ok,
}
use llvm_guard_handler.Heap.{Heap, alloc, alloc_all}
use llvm_guard_handler.Heap.Owns.{
  occurrences, occurrences-append, occurrences-split, block, Owns, alloc-Owns, free-Owns,
  free_pointer-Owns, realloc-Owns, alloc_all-Owns, free_slots-Owns,
}
use llvm_guard_handler.CallStack.Blocks.{
  StateBlocks, FrameBlocks, collect_map_records, free_call_stack_state, alloc_empty_frames,
  free_frames, unwind, get_call_stack_state, insert_frames,
}

-- The blocks of a state.
abbrev pub state_blocks : StateBlocks → List ℕ
state_blocks s = s.self ∷ (block s.frames ++ s.registers)

-- The registers of every frame were set.
abbrev pub IsFull : StateBlocks → Type 0
IsFull s = length s.registers ≡ s.depth

length-insert :
    (n : ℕ) (xs ys : List ℕ) → length (take n xs ++ (ys ++ drop n xs)) ≡ length xs + length ys
length-insert zero xs ys = omega (arith, length-append ys xs)
length-insert (suc n) [] ys = omega (arith, length-append ys [])
length-insert (suc n) (x ∷ xs) ys = omega (arith, length-insert n xs ys)

occurrences-insert :
    (q n : ℕ) (xs ys : List ℕ)
    → occurrences q (take n xs ++ (ys ++ drop n xs)) ≡ occurrences q xs + occurrences q ys
occurrences-insert q n xs ys = omega (
  arith,
  occurrences-append q (take n xs) (ys ++ drop n xs),
  occurrences-append q ys (drop n xs),
  occurrences-split q n xs,
)

-- The blocks of a state, with its array in front of the others.
pub array_first :
    (q : ℕ) (s : StateBlocks) (ps : List ℕ)
    → occurrences q (state_blocks s ++ ps)
      ≡ occurrences q (block s.frames ++ (s.self ∷ (s.registers ++ ps)))
array_first q s ps = omega (
  arith,
  occurrences-append q (block s.frames ++ s.registers) ps,
  occurrences-append q (block s.frames) s.registers,
  occurrences-append q (block s.frames) (s.self ∷ (s.registers ++ ps)),
  occurrences-append q s.registers ps,
)

module _ (base : List ℕ) where
  pub collect_map_records-Owns :
      (n : ℕ) (h : Heap) (ps : List ℕ)
      → Owns base h ps
      → (h' : Heap) × (collect_map_records n h ≡ ok h') × Owns base h' ps
  unfolding collect_map_records
  collect_map_records-Owns zero h ps own = (h, refl, own)
  collect_map_records-Owns (suc n) h ps own =
      let (p, h1) = alloc h in
      let (h2, e, own2) = free-Owns base p h1 ps (alloc-Owns base h ps own) in
      let (h3, e', own3) = collect_map_records-Owns n h2 ps own2 in (h3, rw (e, e') refl, own3)

  pub free_call_stack_state-Owns :
      (s : StateBlocks) (h : Heap) (ps : List ℕ)
      → IsFull s
      → Owns base h (state_blocks s ++ ps)
      → (h' : Heap) × (free_call_stack_state s h ≡ ok h') × Owns base h' ps
  unfolding free_call_stack_state
  free_call_stack_state-Owns s h ps full own =
      let rs = s.registers in
      let others = block s.frames ++ (s.self ∷ ps) in
      let (h1, e1, own1) = free_slots-Owns base s.depth rs h others full (λ q. omega (
        arith,
        own q,
        array_first q s ps,
        occurrences-append q rs others,
        occurrences-append q (block s.frames) (s.self ∷ ps),
        occurrences-append q (block s.frames) (s.self ∷ (rs ++ ps)),
        occurrences-append q rs ps,
      )) in
      let (h2, e2, own2) = free_pointer-Owns base s.frames h1 (s.self ∷ ps) own1 in
      let (h3, e3, own3) = free-Owns base s.self h2 ps own2 in (h3, rw (e1, e2, e3) refl, own3)

  pub alloc_empty_frames-Owns :
      (n : ℕ) (h : Heap) (ps : List ℕ)
      → Owns base h ps
      → let (fs, h') = alloc_empty_frames n h in
        Owns base h' (fs.frames ∷ fs.registers ++ ps) × (length fs.registers ≡ n)
  unfolding alloc_empty_frames
  alloc_empty_frames-Owns n h ps own =
      let (p, h1) = alloc h in
      let (own', count) = alloc_all-Owns base n h1 (p ∷ ps) (alloc-Owns base h ps own) in
      let rs = (alloc_all n h1).0 in
      (
        λ q. omega (arith, own' q, occurrences-append q rs (p ∷ ps), occurrences-append q rs ps),
        count,
      )

  pub free_frames-Owns :
      (fs : FrameBlocks) (n : ℕ) (h : Heap) (ps : List ℕ)
      → length fs.registers ≡ n
      → Owns base h (fs.frames ∷ fs.registers ++ ps)
      → (h' : Heap) × (free_frames fs n h ≡ ok h') × Owns base h' ps
  unfolding free_frames
  free_frames-Owns fs n h ps count own =
      let rs = fs.registers in
      let (h1, e1, own1) = free_slots-Owns base n rs h (fs.frames ∷ ps) count (λ q.
        omega
          (arith, own q, occurrences-append q rs (fs.frames ∷ ps), occurrences-append q rs ps)) in
      let (h2, e2, own2) = free-Owns base fs.frames h1 ps own1 in (h2, rw (e1, e2) refl, own2)

  module _ (moved : ℕ → Bool) where
    -- What an operation on a state gives: a state whose blocks are owned in place of those before.
    abbrev pub Gives : (Heap → Result (StateBlocks × Heap)) → Heap → List ℕ → ℕ → Type 0
    Gives op h ps depth =
        (s : StateBlocks) × (h' : Heap) × (op h ≡ ok (s, h'))
        × Owns base h' (state_blocks s ++ ps)
        × IsFull s
        × (s.depth ≡ depth)

    unwind-Owns :
        (n : ℕ) (s : StateBlocks) (h : Heap) (ps : List ℕ)
        → IsFull s
        → Owns base h (state_blocks s ++ ps)
        → Gives (unwind moved n s) h ps (s.depth + n)
    unfolding unwind
    unwind-Owns zero s h ps full own = (s, h, refl, own, full, omega arith)
    unwind-Owns (suc n) s h ps full own =
        let others = s.self ∷ (s.registers ++ ps) in
        let (f, h1, e1, own1) =
          realloc-Owns base moved (s.depth + 1) s.frames h others
            (λ q. own q ∙ ap (λ (x : ℕ). x + occurrences q base) (array_first q s ps)) in
        let (r, h2) = alloc h1 in
        let own2 = alloc-Owns base h1 (block f ++ others) own1 in
        let s' : StateBlocks = record s {
          frames = f;
          registers = s.registers ++ r ∷ [];
          depth = s.depth + 1;
        } in
        let (s'', h3, e3, own3, full3, deep) =
          unwind-Owns n s' h2 ps (omega (arith, length-append s.registers (r ∷ []))) (λ q. omega (
            arith,
            own2 q,
            array_first q s' ps,
            occurrences-append q (block f) others,
            occurrences-append q (block f) (s.self ∷ (s'.registers ++ ps)),
            occurrences-append q s.registers ps,
            occurrences-append q s'.registers ps,
            occurrences-append q s.registers (r ∷ []),
          )) in
        (s'', h3, rw (e1, e3) refl, own3, full3, omega arith)

    pub get_call_stack_state-Owns :
        (n : ℕ) (h : Heap) (ps : List ℕ)
        → Owns base h ps
        → Gives (get_call_stack_state moved n) h ps n
    unfolding get_call_stack_state
    get_call_stack_state-Owns n h ps own =
        let (p, h1) = alloc h in
        let empty : StateBlocks = record { self = p; frames = none; registers = []; depth = 0 } in
        let (s, h2, e, own2, full, deep) =
          unwind-Owns n empty h1 ps refl (alloc-Owns base h ps own) in
        (s, h2, e, own2, full, omega arith)

    pub insert_frames-Owns :
        (s : StateBlocks) (index n : ℕ) (h : Heap) (ps : List ℕ)
        → IsFull s
        → Owns base h (state_blocks s ++ ps)
        → Gives (insert_frames moved s index n) h ps (s.depth + n)
    unfolding insert_frames
    insert_frames-Owns s index n h ps full own =
        let rs = s.registers in
        let others = s.self ∷ (rs ++ ps) in
        let (f, h1, e1, own1) =
          realloc-Owns base moved (s.depth + n) s.frames h others
            (λ q. own q ∙ ap (λ (x : ℕ). x + occurrences q base) (array_first q s ps)) in
        let (own2, count) = alloc_all-Owns base n h1 (block f ++ others) own1 in
        let new = (alloc_all n h1).0 in
        let all = take index rs ++ (new ++ drop index rs) in
        let s' : StateBlocks = record s { frames = f; registers = all; depth = s.depth + n } in
        (
          s',
          (alloc_all n h1).1,
          rw e1 refl,
          λ q. omega (
            arith,
            own2 q,
            array_first q s' ps,
            occurrences-append q new (block f ++ others),
            occurrences-append q (block f) others,
            occurrences-append q (block f) (s.self ∷ (all ++ ps)),
            occurrences-append q rs ps,
            occurrences-append q all ps,
            occurrences-insert q index rs new,
          ),
          omega (arith, length-insert index rs new),
          refl,
        )
