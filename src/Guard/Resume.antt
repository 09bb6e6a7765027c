-- ===== src/Guard/Resume.antt =====
-- `__guard_failure` of guard.c from its start to the jump, where no call was inlined.
use llvm_guard_handler.Base.{
  ℕ, ◌+◌, ◌^◌, ◌≤◌, ◌<◌, ◌≡◌, refl, ap, ◌∙◌, false, some, List, [], ◌∷◌, lt→ltb, le→leb, ◌==◌,
  not64, get_elem?, length, take, ok,
}
use llvm_guard_handler.Memory.{Memory, load}
use llvm_guard_handler.Elf.{get_addr, get_sym_end}
use llvm_guard_handler.StackMap.{StackMapRecord, StackSizeRecord, StackMap}
use llvm_guard_handler.StackMap.Create.{create}
use llvm_guard_handler.StackMap.Query.{call_addr, get_map_record, get_size_record}
use llvm_guard_handler.CallStack.{Frame, CallStackState, register_count}
use llvm_guard_handler.CallStack.Unwind.{get_call_stack_state}
use llvm_guard_handler.CallStack.Frames.{restore_register_state}
use llvm_guard_handler.CallStack.Frames.Insert.{insert_frames-front}
use llvm_guard_handler.CallStack.Collect.{collect_map_records}
use llvm_guard_handler.CallStack.Inlined.Aliasing.{ReturnsInto, collect_inlined_frames_none}
use llvm_guard_handler.CallStack.Locations.{restore_unopt_stack}
use llvm_guard_handler.CallStack.Locations.Pairs.{Job}
use llvm_guard_handler.CallStack.Locations.Stack.{
  Ready, Off, Transferred, restore_unopt_stack-Transferred,
}
use llvm_guard_handler.Guard.{
  Globals, jmp_to_addr, Environment, section_name, fail_frame, add_fail_frame, resume,
  guard_failure,
}

module _ (env : Environment) (m : Memory) (sm : StackMap) where
  open env use {elf, unw, cursor, callback_ret_addr, fresh, moved, stray}

  -- The stack map of the binary has the guard `sm_id` and its twin.
  pub record Found (sm_id : ℕ) (opt unopt : StackMapRecord) (opt_fun unopt_fun : StackSizeRecord)
      : Type 0 where
    pub section_addr : ℕ
    pub found : get_addr elf section_name ≡ some section_addr
    pub mapped : (section_addr == 0) ≡ false
    pub parsed : create m section_addr ≡ sm
    pub opt_found : get_map_record sm sm_id ≡ some opt
    pub unopt_found : get_map_record sm (not64 sm_id) ≡ some unopt
    pub opt_owner : get_size_record sm opt.index ≡ some opt_fun
    pub unopt_owner : get_size_record sm unopt.index ≡ some unopt_fun

  -- Besides, the handler was called from the function of the guard.
  pub record Known (sm_id : ℕ) (opt unopt : StackMapRecord) (opt_fun unopt_fun : StackSizeRecord)
      : Type 0 where
    pub records : Found sm_id opt unopt opt_fun unopt_fun
    pub lo : opt_fun.fun_addr ≤ callback_ret_addr
    pub hi : callback_ret_addr < get_sym_end elf opt_fun.fun_addr

  -- The frames that libunwind finds are `stack`, `collect_map_records` makes `frames` of them, and
  -- every frame but the last returns into the function of its record.
  pub record Stacked (stack frames : List Frame) (m' : Memory) : Type 0 where
    pub unwound :
        get_call_stack_state unw m fresh cursor
        ≡ ok (record { frames = stack; depth = length stack })
    pub collected :
        collect_map_records elf sm (record { frames = stack; depth = length stack }) m
        ≡ ok (record { frames = frames; depth = length frames }, m')
    pub own :
        (k : ℕ)
        → k + 1 < length frames
        → (f : Frame) × (r : StackSizeRecord) × (get_elem? frames k ≡ some f)
          × ReturnsInto elf sm f r
    pub small : length frames + 1 < 2 ^ 32

  resume_lem :
      (addr : ℕ) (state : CallStackState) (globals : Globals) (m₁ m₂ : Memory) (fuel : ℕ)
      (first : Frame) (rest : List Frame)
      → restore_unopt_stack unw sm stray state m₁ ≡ ok (record state { frames = first ∷ rest }, m₂)
      → resume env sm addr state false globals m₁ fuel
        ≡ ok (record {
          label = jmp_to_addr;
          globals = record globals { r = take register_count first.registers; addr = addr };
          memory = m₂;
        })
  unfolding resume restore_register_state
  resume_lem addr state globals m₁ m₂ fuel first rest e = rw e refl

  module _ (sm_id : ℕ) (opt unopt : StackMapRecord) (opt_fun unopt_fun : StackSizeRecord) where
    add_fail_frame_lem :
        (fail : Frame) (frames : List Frame)
        → Known sm_id opt unopt opt_fun unopt_fun
        → length frames + 1 < 2 ^ 32
        → add_fail_frame env sm opt_fun fail
            (record { frames = frames; depth = length frames })
            false
          ≡ ok (record { frames = fail ∷ frames; depth = length frames + 1 }, false)
    unfolding add_fail_frame
    add_fail_frame_lem fail frames k small =
        rw (le→leb _ _ k.lo, lt→ltb _ _ k.hi, insert_frames-front fresh frames (fail ∷ []) small)
          refl

    -- If the stack map has records of the guard and of its twin, the handler returns into the
    -- guard's own function, `collect_map_records` returns, every frame but the last returns into
    -- the function of its record, and the values can be moved as `restore_unopt_stack` needs it,
    -- then `__guard_failure` ends: it jumps to the address of the twin's record, with the
    -- registers of the first frame; all places of the failed guard's frame and of the frames
    -- around it have the values of the optimised locations, and memory off these places is as
    -- `collect_map_records` left it.
    pub guard_failure-Transferred :
        (stack : List Frame) (caller : Frame) (outer : List Frame) (m' : Memory) (js : List Job)
        (jss : List (List Job)) (fuel : ℕ) (globals : Globals)
        → Known sm_id opt unopt opt_fun unopt_fun
        → Stacked stack (caller ∷ outer) m'
        → Ready unw sm stray m'
            (fail_frame opt opt_fun unopt_fun caller ∷ caller ∷ outer)
            (js ∷ jss)
        → let frames : List Frame = fail_frame opt opt_fun unopt_fun caller ∷ caller ∷ outer in
          (first : Frame) × (rest : List Frame) × (m'' : Memory) × (guard_failure env fuel sm_id
              globals m
            ≡ ok (record {
              label = jmp_to_addr;
              globals = record globals {
                r = take register_count first.registers;
                addr = call_addr unopt_fun unopt;
              };
              memory = m'';
            }))
          × Transferred unw sm stray m'' frames (js ∷ jss) (first ∷ rest)
          × ((a n : ℕ) → Off unw sm stray a n frames (js ∷ jss) → load m'' a n ≡ load m' a n)
    unfolding guard_failure
    guard_failure-Transferred stack caller outer m' js jss fuel globals k s ready =
        let fail = fail_frame opt opt_fun unopt_fun caller in
        let state : CallStackState = record {
          frames = fail ∷ caller ∷ outer;
          depth = length (caller ∷ outer) + 1;
        } in
        let (fs, m'', e, moved_to, same) =
          restore_unopt_stack-Transferred unw sm stray state m' (js ∷ jss) ready in
        let (regs, rest, here, values, later) = moved_to in
        let none_inlined =
          collect_inlined_frames_none elf sm fresh moved
            (record { frames = caller ∷ outer; depth = length (caller ∷ outer) }) s.own in
        let resumed =
          resume_lem (call_addr unopt_fun unopt) state globals m' m'' fuel
            (record fail { registers = regs }) rest
            (e ∙ ap (λ (x : List Frame). ok (record state { frames = x }, m'')) here) in
        (
          record fail { registers = regs },
          rest,
          m'',
          rw
              (
                k.records.found,
                k.records.mapped,
                k.records.parsed,
                k.records.opt_found,
                k.records.unopt_found,
                k.records.unopt_owner,
                k.records.opt_owner,
                s.unwound,
                s.collected,
                none_inlined,
                add_fail_frame_lem fail (caller ∷ outer) k s.small,
              )
              resumed,
          (regs, rest, refl, values, later),
          same,
        )
