-- ===== src/CallStack/Inlined.antt =====
-- `get_next_patchpoint`, `get_restored_state` and `collect_inlined_frames`: the frames of inlined
-- calls are found by the records that the functions around them left in the stack map.
pub mod Aliasing
pub mod Next
pub mod Restored
pub mod Unset
use llvm_guard_handler.Base.{
  ℕ, zero, suc, ◌+◌, ◌-◌, Bool, true, false, ◌&&◌, Option, none, some, List, [], ◌∷◌, map, ltb, leb,
  ◌==◌, if◌then◌else◌, add64, sub64, not64, get_elem?, length, Result, ok, err, ◌>>=◌, require,
  out_of_bounds, null_pointer, out_of_fuel, use_after_free, size_record_not_found,
}
use llvm_guard_handler.Elf.{Elf, get_sym_end, get_sym_start}
use llvm_guard_handler.StackMap.{StackMapRecord, StackSizeRecord, StackMap, patchpoint_call_size}
use llvm_guard_handler.StackMap.Query.{
  call_addr, get_map_record, get_size_record, get_size_record_in_func, get_map_record_after_addr,
  get_map_record_in_func, get_last_record, first_rec_after_addr,
}
use llvm_guard_handler.CallStack.{Frame, CallStackState}
use llvm_guard_handler.CallStack.Frames.{insert_frames}

module _ (sm : StackMap) where
  -- The `while (rec)` loop of `get_next_patchpoint` at a record: the previous patchpoint of the
  -- function becomes the next record, unless its call stands below `addr`.
  unfoldable pub next_patchpoint_from : ℕ → ℕ → StackSizeRecord → StackMapRecord → Result ℕ
  next_patchpoint_from zero addr size_rec rec = err out_of_fuel
  next_patchpoint_from (suc fuel) addr size_rec rec = do
    found ← get_map_record_in_func sm (sub64 rec.patchpoint_id 1) size_rec.fun_addr
    elim found [
      | none ↦ ok rec.patchpoint_id
      | some prev ↦ require (get_size_record sm prev.index) null_pointer >>= λ prev_size.
          let rest = next_patchpoint_from fuel addr prev_size prev in
          if ltb (call_addr prev_size prev) addr then ok rec.patchpoint_id else rest
    ]

  -- Each round meets a record with another ID, so the number of records is enough.
  unfoldable pub get_next_patchpoint : ℕ → StackSizeRecord → Result ℕ
  unfolding next_patchpoint_from
  get_next_patchpoint addr size_rec = elim (get_last_record sm size_rec) [
    | none ↦ ok 0
    | some rec ↦ next_patchpoint_from (length sm.stk_map_records + 1) addr size_rec rec
  ]

module _ (elf : Elf) (sm : StackMap) (fresh : Frame) where
  -- The frame of an inlined call, and the address to look on from. The fields that are not set hold
  -- what `realloc` left there.
  unfoldable pub restored_frame : ℕ → StackMapRecord → Result (Frame × ℕ)
  restored_frame start_addr rec = do
    size_rec ← require (get_size_record sm rec.index) size_record_not_found
    unopt_rec ← require (get_map_record sm (not64 rec.patchpoint_id)) null_pointer
    unopt_size_rec ← require (get_size_record sm unopt_rec.index) null_pointer
    real_found ← get_map_record_after_addr (get_sym_end elf) sm rec.patchpoint_id start_addr
    real_rec ← require real_found null_pointer
    ok (
      record fresh {
        ret_addr = add64 (call_addr unopt_size_rec unopt_rec) 13;
        size = unopt_size_rec.stack_size;
        record_of = rec;
        real_record = real_rec;
        inlined = true;
      },
      add64 (call_addr size_rec rec) 1,
    )

  -- The `do` loop of `get_restored_state`, at `opt_ret_addr`.
  unfoldable pub restored_from : ℕ → ℕ → ℕ → ℕ → Result (List Frame)
  restored_from zero start_addr ppid opt_ret_addr = err out_of_fuel
  restored_from (suc fuel) start_addr ppid opt_ret_addr = do
    found ← first_rec_after_addr sm opt_ret_addr
    elim found [
      | none ↦ ok []
      | some rec ↦ restored_frame start_addr rec >>= λ (frame, next).
          let rest = restored_from fuel start_addr ppid next in
          if rec.patchpoint_id == ppid
          then ok (frame ∷ [])
          else (rest >>= λ frames. ok (frame ∷ frames))
    ]

  -- Each round meets a call at a higher address, so the number of records is enough.
  unfoldable pub get_restored_state : ℕ → ℕ → Result CallStackState
  unfolding restored_from restored_frame
  get_restored_state start_addr ppid = do
    frames ← restored_from (length sm.stk_map_records + 1) start_addr ppid start_addr
    ok (record { frames = frames; depth = length frames })

  -- A restored frame takes the base pointer and the registers of the frame it was inlined in.
  unfoldable pub adopt : Frame → Frame → Frame
  adopt outer frame = record frame { real_bp = outer.real_bp; registers = outer.registers }

  -- The frames that were inlined between the frame of `rec` and the frame `outer`.
  unfoldable pub inlined_frames : StackMapRecord → ℕ → Frame → Result (List Frame)
  unfolding adopt
  inlined_frames rec ret_addr outer = do
    let next_addr = add64 ret_addr (patchpoint_call_size + 1)
    real_size_record ←
        require (get_size_record_in_func sm (get_sym_start elf next_addr)) null_pointer
    last_ppid ← get_next_patchpoint sm (call_addr real_size_record rec) real_size_record
    res_state ← get_restored_state next_addr last_ppid
    ok (map (adopt outer) res_state.frames)

  -- `state_copy` is a shallow copy: it shares the array of `state` until `insert_frames` calls
  -- `realloc`. `moved n` says whether `realloc` to n frames gives another address; the copy's array
  -- is gone then, and otherwise it is the array that `insert_frames` changed.
  module _ (moved : ℕ → Bool) where
    -- The array that `state_copy->frames` points to, `none` once it was freed.
    unfoldable pub copy_after : CallStackState → Option (List Frame)
    copy_after state = if moved state.depth then none else some state.frames

    -- One round at `i`: the new state, the array of the copy, and whether anything was inlined.
    unfoldable pub collect_round :
        ℕ → CallStackState → List Frame → Result (CallStackState × Option (List Frame) × Bool)
    unfolding copy_after inlined_frames
    collect_round i state copy = do
      frame ← require (get_elem? copy i) out_of_bounds
      size_record ← require (get_size_record sm frame.record_of.index) null_pointer
      let ret_addr = frame.stored_ret_addr
      let end_addr = get_sym_end elf size_record.fun_addr
      if leb size_record.fun_addr ret_addr && ltb ret_addr end_addr
          then ok (state, some copy, false)
          else (do
            outer ← require (get_elem? copy (i + 1)) out_of_bounds
            frames ← inlined_frames frame.record_of ret_addr outer
            let state' = insert_frames fresh state (i + 1) frames
            ok (state', copy_after state', true))

    -- The loop at `i`, with `n` rounds left.
    unfoldable pub collect_rounds :
        ℕ → ℕ → CallStackState → Option (List Frame) → Bool → Result (CallStackState × Bool)
    collect_rounds zero i state copy inlined = ok (state, inlined)
    collect_rounds (suc n) i state copy inlined = do
      frames ← require copy use_after_free
      (state', copy', found) ← collect_round i state frames
      collect_rounds n (i + 1) state' copy' (if found then true else inlined)

    unfoldable pub collect_inlined_frames : CallStackState → Result (CallStackState × Bool)
    unfolding collect_rounds collect_round
    collect_inlined_frames state =
        collect_rounds (state.depth - 1) 0 state (some state.frames) false
