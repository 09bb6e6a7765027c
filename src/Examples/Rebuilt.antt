-- ===== src/Examples/Rebuilt.antt =====
-- The theorems on redirected and rebuilt stacks at small stacks.
use llvm_guard_handler.Base.{
  ◌≤◌, sub64, out_of_fuel, ℕ, length, ◌+◌, ◌≡◌, refl, ◌⊎◌, inr, ◌==◌, ◌<◌, ◌^◌, if◌then◌else◌, none,
  some, List, [], ◌∷◌, arith, not64, ok, err, null_pointer, unopt_map_record_not_found,
}
use llvm_guard_handler.Memory.{Memory, of_bytes, load, read, read64}
use llvm_guard_handler.StackMap.{StackMapRecord, StackMapPos}
use llvm_guard_handler.StackMap.Query.{get_unopt_return_addr}
use llvm_guard_handler.StackMap.Sites.{Site, sites, first_site}
use llvm_guard_handler.StackMap.Sites.First.{after}
use llvm_guard_handler.StackMap.Sites.Twin.{IsTwin, get_unopt_return_addr-IsTwin}
use llvm_guard_handler.CallStack.{Frame, CallStackState}
use llvm_guard_handler.CallStack.Collect.{collect_map_records}
use llvm_guard_handler.CallStack.Collect.Loop.{Clear, Redirected, collect_map_records-Redirected}
use llvm_guard_handler.CallStack.Segment.{insert_real_addresses}
use llvm_guard_handler.CallStack.Segment.Layout.{placed, Laid}
use llvm_guard_handler.CallStack.Segment.Main.{insert_real_addresses-main}
use llvm_guard_handler.Guard.{Globals, install, jump_inlined}
use llvm_guard_handler.Guard.Grow.{lowered, jump_inlined-install}
use llvm_guard_handler.Guard.Machine.{Cpu, run_jmp_to_addr, run_restore_inlined}
use llvm_guard_handler.Guard.Registers.{Restores, Confuses, jump-registers}
use llvm_guard_handler.CallStack.Unwind.{Unwound, main_name, get_registers, get_call_stack_state}
use llvm_guard_handler.CallStack.Unwind.Frames.{Unwinds, get_call_stack_state-Unwinds}
use llvm_guard_handler.CallStack.Frames.{zero_frame}
use llvm_guard_handler.Guard.Relink.{install-Laid}
use llvm_guard_handler.Examples.Binary.{binary}
use llvm_guard_handler.Examples.Maps.{sample}
use llvm_guard_handler.Examples.Queries.{sample-IsValid}
use llvm_guard_handler.Examples.Stacks.{
  dwarf, frame_at, main_frame, two_frames, new_frames, segment, three_frames,
}

get_unopt_return_addr-IsTwin_example :
    let next = first_site (after 4100) (sites sample) in
    ((next ≡ none) × (get_unopt_return_addr sample 4100 ≡ ok none))
    ⊎ ((call : StackMapRecord) × (next ≡ some call)
        × (((pos : StackMapPos) × (t : Site) × (get_unopt_return_addr sample 4100 ≡ ok (some pos))
              × IsTwin sample sample-IsValid (not64 call.patchpoint_id) pos t)
            ⊎ (first_site (λ s. s.rec.patchpoint_id == not64 call.patchpoint_id) (sites sample)
                ≡ none)
              × (get_unopt_return_addr sample 4100
                  ≡ err (unopt_map_record_not_found (not64 call.patchpoint_id)))))
get_unopt_return_addr-IsTwin_example =
    get_unopt_return_addr-IsTwin sample sample-IsValid 4100 (omega arith) (omega arith)

collect_map_records-Redirected_example :
    ((fs' : List Frame) × (m' : Memory) × (collect_map_records binary sample two_frames (λ a. 0)
        ≡ ok (record two_frames { frames = fs' }, m'))
      × Redirected binary sample (λ a. 0) m' two_frames.frames fs'
      × ((a : ℕ) → Clear a two_frames.frames → read64 m' a ≡ read64 (λ a. 0) a))
    ⊎ (collect_map_records binary sample two_frames (λ a. 0) ≡ err null_pointer)
    ⊎ (id : ℕ) × (collect_map_records binary sample two_frames (λ a. 0)
        ≡ err (unopt_map_record_not_found id))
collect_map_records-Redirected_example =
    collect_map_records-Redirected binary sample sample-IsValid (omega arith) (omega arith)
      two_frames (λ a. 0) (tt, tt)

main_return_is_word : read64 (λ a. 0) 900008 < 2 ^ 64
unfolding read64 read load of_bytes
main_return_is_word = omega arith

insert_real_addresses-main_example :
    (state' : CallStackState) × (m' : Memory) × (insert_real_addresses dwarf
        (record { frames = new_frames; depth = 3 })
        segment
        (λ a. 0)
      ≡ ok (state', m'))
    × (read64 m' 900000 ≡ 900000)
    × (read64 m' 900008 ≡ read64 (λ a. 0) 900008)
    × (read64 m' 500064 ≡ read64 (λ a. 0) 500064)
insert_real_addresses-main_example =
    insert_real_addresses-main dwarf segment (λ a. 0) (frame_at 1 24) (frame_at 2 40) main_frame
      (main_frame ∷ []) 3 900000 (omega arith) (omega arith, omega arith, omega arith) refl refl
      refl refl (omega arith) main_return_is_word (inr (omega arith))

abbrev pub no_globals : Globals
no_globals = record {
  addr = 8224;
  r = [];
  restored_bp = 0;
  restored_stack_size = 0;
  restored_start_addr = 0;
  restored_total_size = 0;
}

jump_inlined-install_example :
    (n : ℕ) × (n ≤ 899990)
    × (lowered 64 899990 n ≤ sub64 900000 segment.total_size)
    × ((k : ℕ) → k < n → sub64 900000 segment.total_size < lowered 64 899990 k)
    × ((fuel : ℕ)
        → fuel ≤ n
        → jump_inlined dwarf 64 fuel 899990 no_globals three_frames segment (λ a. 0)
          ≡ err out_of_fuel)
    × ((fuel : ℕ)
        → n < fuel
        → jump_inlined dwarf 64 fuel 899990 no_globals three_frames segment (λ a. 0)
          ≡ ok (
              install no_globals
                (frame_at 4087 24)
                (frame_at 4120 24 ∷ main_frame ∷ [])
                900000
                segment
                (λ a. 0)))
jump_inlined-install_example =
    jump_inlined-install dwarf 64 no_globals three_frames segment (λ a. 0) main_frame
      (frame_at 4087 24) 900000 899990 refl refl refl (omega arith) (omega arith)

-- Register number n holds 100 + n.
abbrev cursor : Unwound
cursor = record { reg = λ n. 100 + n; ip = 0; proc_name = [] }

abbrev pub cpu : Cpu
cpu = record {
  rax = 0;
  rbx = 0;
  rcx = 0;
  rdx = 0;
  rsi = 0;
  rdi = 0;
  rbp = 700;
  rsp = 600;
  r8 = 0;
  r9 = 0;
  r10 = 0;
  r11 = 0;
  r12 = 0;
  r13 = 0;
  r14 = 0;
  r15 = 0;
  rip = 0;
}

jump-registers_example :
    let direct = run_jmp_to_addr (get_registers dwarf cursor) 8224 (λ a. 0) cpu in
    let inlined = run_restore_inlined (get_registers dwarf cursor) 8224 900016 16 (λ a. 0) cpu in
    (direct.rip ≡ 8224)
    × Restores dwarf cursor direct
    × Confuses dwarf cursor direct
    × (inlined.rip ≡ 8224)
    × Restores dwarf cursor inlined
    × Confuses dwarf cursor inlined
jump-registers_example = jump-registers dwarf cursor 8224 900016 16 (λ a. 0) cpu

-- The segment that `insert_real_addresses` makes of `new_frames`: a return address and a link.
abbrev laid_memory : Memory
laid_memory a =
    if a == 500016
    then 96
    else if a == 500017
    then 161
    else if a == 500018
    then 7
    else if a == 500024
    then 2
    else 0

laid_memory-Laid : Laid (λ a. 0) laid_memory 500016 new_frames
unfolding read64 read load of_bytes
laid_memory-Laid = (refl, refl, refl)

install-Laid_example :
    let first = record (frame_at 1 24) { bp = 500016; ret_addr = 500024 } in
    let exit =
      install no_globals first
        (placed 500064 (frame_at 2 40 ∷ main_frame ∷ []))
        900000
        segment
        laid_memory in
    let gs = exit.globals in
    let after =
      run_restore_inlined [] gs.addr gs.restored_bp gs.restored_stack_size exit.memory cpu in
    Laid (λ a. 0) exit.memory 900016 new_frames × (after.rbp ≡ 900016) × (after.rsp ≡ 900000)
install-Laid_example =
    install-Laid no_globals segment (λ a. 0) laid_memory (frame_at 1 24) (frame_at 2 40)
      (main_frame ∷ []) 900000 [] cpu (omega arith) (omega arith, omega arith, omega arith)
      (omega arith, omega arith, omega arith) refl (inr (omega arith)) laid_memory-Laid

abbrev stack_of_two : List Unwound
stack_of_two = record cursor { ip = 4101 } ∷ record cursor { ip = 8200; proc_name = main_name } ∷ []

get_call_stack_state-Unwinds_example :
    (state : CallStackState) × (get_call_stack_state dwarf (λ a. 0) zero_frame stack_of_two
      ≡ ok state)
    × (state.depth ≡ length state.frames)
    × Unwinds dwarf (λ a. 0) stack_of_two state.frames
get_call_stack_state-Unwinds_example =
    get_call_stack_state-Unwinds dwarf (λ a. 0) zero_frame stack_of_two refl
