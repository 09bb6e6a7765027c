-- ===== src/Guard.antt =====
-- src/stackmap_checker/guard.c: the guard failure handler `__guard_failure`, and `jump_inlined`.
pub mod Blocks
pub mod Machine
pub mod Registers
pub mod Grow
pub mod Inlined
pub mod Rebuilt
pub mod Relink
pub mod Resume
use mathlib.Core.List
use mathlib.Core.Option
use llvm_guard_handler.Base.{
  ℕ, zero, suc, ◌+◌, ◌-◌, Bool, true, false, not, ◌&&◌, Option, none, some, List, [], ◌∷◌, map, ltb,
  leb, ◌==◌, if◌then◌else◌, add64, sub64, not64, get_elem?, get_last?, length, replicate, Result,
  ok, err, ◌>>=◌, ◌>>◌, require, check, out_of_bounds, null_pointer, out_of_fuel, section_not_found,
  stack_map_record_not_found, record_not_found,
}
use llvm_guard_handler.Memory.{Memory, load, store, write64}
use llvm_guard_handler.Elf.{Elf, get_addr, get_sym_end, get_sym_start}
use llvm_guard_handler.StackMap.{StackMapRecord, StackSizeRecord, StackMap}
use llvm_guard_handler.StackMap.Create.{create}
use llvm_guard_handler.StackMap.Query.{
  call_addr, get_map_record, get_size_record, get_size_record_in_func,
}
use llvm_guard_handler.CallStack.{Frame, CallStackState, RestoredSegment, RegNum, addr_size}
use llvm_guard_handler.CallStack.Unwind.{Unwound, get_call_stack_state}
use llvm_guard_handler.CallStack.Frames.{
  insert_frames, zero_frame, get_total_stack_size, restore_register_state,
}
use llvm_guard_handler.CallStack.Collect.{collect_map_records}
use llvm_guard_handler.CallStack.Inlined.{
  get_next_patchpoint, get_restored_state, adopt, collect_inlined_frames,
}
use llvm_guard_handler.CallStack.Segment.{insert_real_addresses}
use llvm_guard_handler.CallStack.Locations.{restore_unopt_stack}

-- The globals that jump.s reads.
pub record Globals : Type 0 where
  pub addr : ℕ
  pub r : List ℕ
  pub restored_bp : ℕ
  pub restored_stack_size : ℕ
  pub restored_start_addr : ℕ
  pub restored_total_size : ℕ

-- The labels of jump.s.
pub data Label : Type 0 where
  jmp_to_addr restore_inlined : Label

-- How the handler leaves: the label it jumps to, the globals and memory.
pub record Exit : Type 0 where
  pub label : Label
  pub globals : Globals
  pub memory : Memory

-- The loop of `jump_inlined` over the frames between the first and the last: each saved base pointer
-- of the segment is set to where the next frame will lie. `prev` is `frames[i - 1]`.
unfoldable pub relink : Memory → Frame → ℕ → List Frame → Memory
relink m prev cur_bp [] = m
relink m prev cur_bp (f ∷ []) = m
relink m prev cur_bp (f ∷ g ∷ fs) =
    let next = add64 cur_bp (add64 f.size addr_size) in
    relink (write64 m prev.bp next) f next (g ∷ fs)

-- The second branch of `jump_inlined`, on a stack that is large enough.
unfoldable pub install : Globals → Frame → List Frame → ℕ → RestoredSegment → Memory → Exit
unfolding relink
install globals first rest main_bp seg m =
    let first_size = sub64 first.size addr_size in
    let restored_bp = add64 main_bp first_size in
    let m' = relink m first restored_bp rest in
    let m'' = store m' main_bp (load m' seg.start_addr seg.total_size) in
    record {
      label = restore_inlined;
      globals = record globals {
        restored_bp = restored_bp;
        restored_stack_size = first_size;
        restored_start_addr = seg.start_addr;
        restored_total_size = seg.total_size;
      };
      memory = store m'' seg.start_addr (replicate seg.total_size 0);
    }

-- `jump_inlined` calls itself, each time with a stack pointer that is `call_size` lower, until the
-- stack reaches below `main_bp - seg.total_size`.
unfoldable pub jump_inlined :
    RegNum → ℕ → ℕ → ℕ → Globals → CallStackState → RestoredSegment → Memory → Result Exit
jump_inlined u call_size zero rsp globals state seg m = err out_of_fuel
jump_inlined u call_size (suc fuel) rsp globals state seg m = do
  last ← require (get_last? state.frames) out_of_bounds
  main_bp ← require (get_elem? last.registers u.rbp) out_of_bounds
  first ← require (get_elem? state.frames 0) out_of_bounds
  let grown = jump_inlined u call_size fuel (sub64 rsp call_size) globals state seg m
  let done : Result Exit = ok (install globals first (List.tail state.frames) main_bp seg m)
  if ltb (sub64 main_bp seg.total_size) rsp then grown else done

-- What the handler gets from outside: its binary, the numbering of the registers, the frames that
-- libunwind finds and the address that `__guard_failure` returns to; what `realloc` leaves in fresh
-- memory and when it moves an array, what lies behind an object that is read past its end, and the
-- address that `malloc` gives for the segment; the stack pointer in `jump_inlined` and the size of a
-- call of it.
pub record Environment : Type 0 where
  pub elf : Elf
  pub unw : RegNum
  pub cursor : List Unwound
  pub callback_ret_addr : ℕ
  pub fresh : Frame
  pub moved : ℕ → Bool
  pub stray : ℕ → ℕ
  pub segment_addr : ℕ
  pub rsp : ℕ
  pub call_size : ℕ

-- ".llvm_stackmaps".
abbrev pub section_name : List ℕ
section_name =
    b'.' ∷ b'l' ∷ b'l' ∷ b'v' ∷ b'm' ∷ b'_' ∷ b's' ∷ b't' ∷ b'a' ∷ b'c' ∷ b'k' ∷ b'm' ∷ b'a' ∷ b'p'
    ∷ b's' ∷ []

-- The frame of the guard that failed, over the frame that called it.
unfoldable pub fail_frame : StackMapRecord → StackSizeRecord → StackSizeRecord → Frame → Frame
fail_frame opt_rec opt_size_rec unopt_size_rec caller = record zero_frame {
  record_of = opt_rec;
  real_record = opt_rec;
  size = unopt_size_rec.stack_size;
  real_bp = caller.real_bp;
  bp = caller.real_bp;
  registers = caller.registers;
  ret_addr = call_addr opt_size_rec opt_rec;
}

module _ (env : Environment) where
  open env use {elf, unw, cursor, callback_ret_addr, fresh, moved, stray, segment_addr}

  -- The frame of the failed guard goes in front, in an inlined function with the frames of the calls
  -- that were inlined around it. The flag says whether the stack must be rebuilt.
  unfoldable pub add_fail_frame :
      StackMap → StackSizeRecord → Frame → CallStackState → Bool → Result (CallStackState × Bool)
  add_fail_frame sm opt_size_rec fail state inlined =
      let end_addr = get_sym_end elf opt_size_rec.fun_addr in
      if leb opt_size_rec.fun_addr callback_ret_addr && ltb callback_ret_addr end_addr
      then ok (insert_frames fresh state 0 (fail ∷ []), inlined)
      else (do
        let start = get_sym_start elf callback_ret_addr
        real_size_rec ← require (get_size_record_in_func sm start) null_pointer
        next_ppid ← get_next_patchpoint sm callback_ret_addr real_size_rec
        restored ← get_restored_state elf sm fresh callback_ret_addr next_ppid
        let frames =
            map (λ (f : Frame). record f { real_bp = fail.bp; registers = fail.registers })
              restored.frames
        let state' = insert_frames fresh state 0 frames
        ok (insert_frames fresh state' 0 (record fail { inlined = true } ∷ []), true))

  -- The end of the handler: the segment is built if the stack must be rebuilt, the live values are
  -- restored, and control leaves.
  unfoldable pub resume : StackMap → ℕ → CallStackState → Bool → Globals → Memory → ℕ → Result Exit
  resume sm addr state inlined globals m fuel = do
    let seg : RestoredSegment = record {
      start_addr = segment_addr;
      total_size = get_total_stack_size state;
    }
    (state', m') ← (if inlined then insert_real_addresses unw state seg m else ok (state, m))
    (state'', m'') ← restore_unopt_stack unw sm stray state' m'
    r ← restore_register_state state''
    let globals' = record globals { r = r; addr = addr }
    let leave : Exit = record { label = jmp_to_addr; globals = globals'; memory = m'' }
    if inlined
        then jump_inlined unw env.call_size fuel env.rsp globals' state'' seg m''
        else ok leave

  -- `__guard_failure`; `fuel` bounds the calls of `jump_inlined`.
  unfoldable pub guard_failure : ℕ → ℕ → Globals → Memory → Result Exit
  guard_failure fuel sm_id globals m = do
    let stack_map_addr = Option.get_or (get_addr elf section_name) 0
    check (not (stack_map_addr == 0)) section_not_found
    let sm = create m stack_map_addr
    opt_rec ← require (get_map_record sm sm_id) stack_map_record_not_found
    unopt_rec ← require (get_map_record sm (not64 sm_id)) stack_map_record_not_found
    unopt_size_rec ← require (get_size_record sm unopt_rec.index) record_not_found
    opt_size_rec ← require (get_size_record sm opt_rec.index) record_not_found
    state ← get_call_stack_state unw m fresh cursor
    (collected, m') ← collect_map_records elf sm state m
    (state', inlined) ← collect_inlined_frames elf sm fresh moved collected
    caller ← require (get_elem? state'.frames 0) out_of_bounds
    let fail = fail_frame opt_rec opt_size_rec unopt_size_rec caller
    (state'', rebuilt) ← add_fail_frame sm opt_size_rec fail state' inlined
    resume sm (call_addr unopt_size_rec unopt_rec) state'' rebuilt globals m' fuel
