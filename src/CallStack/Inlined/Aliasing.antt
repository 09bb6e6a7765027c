-- ===== src/CallStack/Inlined/Aliasing.antt =====
-- `collect_inlined_frames` in call_stack_state.c and the shallow copy of the state that it walks
-- over.
use llvm_guard_handler.Base.{
  ℕ, zero, suc, ◌+◌, ◌-◌, ◌≤◌, ◌<◌, ◌≡◌, refl, Bool, true, false, ◌&&◌, none, some, List, arith,
  leb, ltb, get_elem?, ok, err, use_after_free,
}
use llvm_guard_handler.Elf.{Elf, get_sym_end}
use llvm_guard_handler.StackMap.{StackSizeRecord, StackMap}
use llvm_guard_handler.StackMap.Query.{get_size_record}
use llvm_guard_handler.CallStack.{Frame, CallStackState}
use llvm_guard_handler.CallStack.Frames.{insert_frames}
use llvm_guard_handler.CallStack.Inlined.{
  inlined_frames, copy_after, collect_round, collect_rounds, collect_inlined_frames,
}

-- A frame returns into the function of its record.
pub record ReturnsInto (elf : Elf) (sm : StackMap) (frame : Frame) (size_rec : StackSizeRecord)
    : Type 0 where
  pub function : get_size_record sm frame.record_of.index ≡ some size_rec
  pub lo : size_rec.fun_addr ≤ frame.stored_ret_addr
  pub hi : frame.stored_ret_addr < get_sym_end elf size_rec.fun_addr

module _ (elf : Elf) (sm : StackMap) (fresh : Frame) (moved : ℕ → Bool) where
  stays :
      (state : CallStackState) (n i : ℕ)
      → ((k : ℕ)
          → k < i + n
          → (f : Frame) × (r : StackSizeRecord) × (get_elem? state.frames k ≡ some f)
            × ReturnsInto elf sm f r)
      → collect_rounds elf sm fresh moved n i state (some state.frames) false ≡ ok (state, false)
  unfolding collect_rounds
  stays state zero i all = refl
  stays state (suc n) i all =
      let (f, r, at, into) = all i (omega arith) in
      let rest = stays state n (i + 1) (λ k lt. all k (omega arith)) in
      let same : collect_round elf sm fresh moved i state state.frames
          ≡ ok (state, some state.frames, false) =
        unfold collect_round in ground (arith, at, into.function, into.lo, into.hi) in
      rw same rest

  -- If every frame but the last returns into the function of its record, `collect_inlined_frames`
  -- changes nothing and reports that nothing was inlined.
  pub collect_inlined_frames_none :
      (state : CallStackState)
      → ((k : ℕ)
          → k + 1 < state.depth
          → (f : Frame) × (r : StackSizeRecord) × (get_elem? state.frames k ≡ some f)
            × ReturnsInto elf sm f r)
      → collect_inlined_frames elf sm fresh moved state ≡ ok (state, false)
  collect_inlined_frames_none state all =
      unfold collect_inlined_frames in stays state (state.depth - 1) 0 (λ k lt. all k (omega arith))

  module _ (state : CallStackState) (f g : Frame) (frames : List Frame)
      (size_rec : StackSizeRecord) where
    first_round :
        get_elem? state.frames 0 ≡ some f
        → get_elem? state.frames 1 ≡ some g
        → get_size_record sm f.record_of.index ≡ some size_rec
        → (leb size_rec.fun_addr f.stored_ret_addr
            && ltb f.stored_ret_addr (get_sym_end elf size_rec.fun_addr))
          ≡ false
        → inlined_frames elf sm fresh f.record_of f.stored_ret_addr g ≡ ok frames
        → moved (insert_frames fresh state 1 frames).depth ≡ true
        → collect_round elf sm fresh moved 0 state state.frames
          ≡ ok (insert_frames fresh state 1 frames, none, true)
    unfolding collect_round
    first_round at next own elsewhere found gone =
        let e : 0 + 1 ≡ 1 = refl in rw (at, own, elsewhere, next, found, copy_after, gone)

    -- In a state of three frames or more whose first frame returns outside the function of its
    -- record, `collect_inlined_frames` reads freed memory whenever `realloc` moves the array that the
    -- frames found for it are inserted into: the loop goes on over the shallow copy of the state,
    -- whose array is gone.
    pub collect_inlined_frames-use_after_free :
        get_elem? state.frames 0 ≡ some f
        → get_elem? state.frames 1 ≡ some g
        → 3 ≤ state.depth
        → get_size_record sm f.record_of.index ≡ some size_rec
        → (leb size_rec.fun_addr f.stored_ret_addr
            && ltb f.stored_ret_addr (get_sym_end elf size_rec.fun_addr))
          ≡ false
        → inlined_frames elf sm fresh f.record_of f.stored_ret_addr g ≡ ok frames
        → moved (insert_frames fresh state 1 frames).depth ≡ true
        → collect_inlined_frames elf sm fresh moved state ≡ err use_after_free
    unfolding collect_inlined_frames collect_rounds
    collect_inlined_frames-use_after_free at next deep own elsewhere found gone =
        let rounds : state.depth - 1 ≡ suc (suc (state.depth - 3)) = omega arith in
        rw (rounds, first_round at next own elsewhere found gone)
