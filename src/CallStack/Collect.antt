-- ===== src/CallStack/Collect.antt =====
-- `collect_map_records`: the return addresses on the stack are redirected into the unoptimised
-- functions, and each frame gets its records.
pub mod Loop
pub mod Redirect
use llvm_guard_handler.Base.{
  List, [], ◌∷◌, add64, not64, get_elem?, Result, ok, ◌>>=◌, require, out_of_bounds, null_pointer,
}
use llvm_guard_handler.Memory.{Memory, read64, write64}
use llvm_guard_handler.Elf.{Elf, get_sym_end}
use llvm_guard_handler.StackMap.{StackMap, patchpoint_call_size}
use llvm_guard_handler.StackMap.Query.{
  call_addr, get_map_record, get_size_record, get_map_record_after_addr, get_unopt_return_addr,
}
use llvm_guard_handler.CallStack.{Frame, CallStackState}

module _ (elf : Elf) (sm : StackMap) where
  -- One round: the frame with its records, and memory with its return address overwritten. The
  -- start of the function that is returned into is computed and not used, so it is left out.
  unfoldable pub collect_frame : Frame → Memory → Result (Frame × Memory)
  collect_frame frame m = do
    found ← get_unopt_return_addr sm (read64 m frame.ret_addr)
    sm_pos ← require found null_pointer
    size_rec ← require (get_elem? sm.stk_size_records sm_pos.stk_size_record_index) out_of_bounds
    map_rec ← require (get_elem? sm.stk_map_records sm_pos.stk_map_record_index) out_of_bounds
    let unopt_ret_addr = add64 (call_addr size_rec map_rec) patchpoint_call_size
    let ppid = not64 map_rec.patchpoint_id
    real_found ← get_map_record_after_addr (get_sym_end elf) sm ppid frame.stored_ret_addr
    opt_rec ← require (get_map_record sm ppid) null_pointer
    real_rec ← require real_found null_pointer
    opt_size_rec ← require (get_size_record sm opt_rec.index) null_pointer
    ok (
      record frame { record_of = opt_rec; real_record = real_rec; size = opt_size_rec.stack_size },
      write64 m frame.ret_addr unopt_ret_addr,
    )

  -- The loop, over all frames but the last.
  unfoldable pub collect_from : List Frame → Memory → Result (List Frame × Memory)
  collect_from [] m = ok ([], m)
  collect_from (f ∷ []) m = ok (f ∷ [], m)
  collect_from (f ∷ g ∷ fs) m = do
    (f', m') ← collect_frame f m
    (rest, m'') ← collect_from (g ∷ fs) m'
    ok (f' ∷ rest, m'')

  unfoldable pub collect_map_records : CallStackState → Memory → Result (CallStackState × Memory)
  unfolding collect_from collect_frame
  collect_map_records state m = do
    (frames, m') ← collect_from state.frames m
    ok (record state { frames = frames }, m')
