-- ===== src/Examples/Stacks.antt =====
-- The theorems on call stacks at small stacks.
use llvm_guard_handler.Base.{
  ℕ, zero, suc, ◌<◌, refl, inl, inr, ◌+◌, ◌≡◌, ◌⊎◌, true, false, none, some, List, [], ◌∷◌, arith,
  ok, err, length, replicate, get_elem?, leb, ltb, ◌&&◌, null_pointer, use_after_free,
}
use llvm_guard_handler.Memory.{Memory, read, load, of_bytes, read64}
use llvm_guard_handler.Elf.{get_sym_end, get_sym_start}
use llvm_guard_handler.StackMap.{StackSizeRecord}
use llvm_guard_handler.StackMap.Query.{
  get_size_record, get_size_record_in_func, get_last_record, get_map_record_in_func,
  first_rec_after_addr, get_map_record, get_map_record_after_addr,
}
use llvm_guard_handler.CallStack.{Frame, CallStackState, RestoredSegment, RegNum}
use llvm_guard_handler.CallStack.Frames.{insert_frames, zero_frame, get_total_stack_size}
use llvm_guard_handler.CallStack.Frames.Insert.{insert_frames-append}
use llvm_guard_handler.CallStack.Inlined.{
  get_next_patchpoint, adopt, get_restored_state, inlined_frames, collect_inlined_frames,
}
use llvm_guard_handler.CallStack.Inlined.Restored.{Climbs, Breaks, get_restored_state_total}
use llvm_guard_handler.CallStack.Inlined.Aliasing.{
  ReturnsInto, collect_inlined_frames_none, collect_inlined_frames-use_after_free,
}
use llvm_guard_handler.CallStack.Inlined.Unset.{collect_inlined_frames-null_pointer}
use llvm_guard_handler.CallStack.Segment.{insert_real_addresses}
use llvm_guard_handler.CallStack.Segment.Layout.{end_of, placed, Laid, HaveReturns}
use llvm_guard_handler.CallStack.Segment.Chain.{insert_real_addresses-Laid}
use llvm_guard_handler.Examples.Binary.{binary}
use llvm_guard_handler.Examples.Maps.{sample, opt_fun, opt_rec}
use llvm_guard_handler.Examples.Queries.{sample-IsValid}

-- The documented numbering of the registers in <libunwind-x86_64.h>.
abbrev pub dwarf : RegNum
dwarf = record {
  rax = 0;
  rdx = 1;
  rcx = 2;
  rbx = 3;
  rsi = 4;
  rdi = 5;
  rbp = 6;
  rsp = 7;
  r8 = 8;
  r9 = 9;
  r10 = 10;
  r11 = 11;
  r12 = 12;
  r13 = 13;
  r14 = 14;
  r15 = 15;
}

-- A frame of `f`, which returns to `ret`, of the given size.
abbrev pub frame_at : ℕ → ℕ → Frame
frame_at ret size = record zero_frame {
  stored_ret_addr = ret;
  ret_addr = ret;
  size = size;
  record_of = opt_rec;
  inlined = true;
}

-- A frame of main, whose base pointer is 900000.
abbrev pub main_frame : Frame
main_frame = record zero_frame { bp = 900000; ret_addr = 900008; registers = replicate 16 900000 }

get_restored_state_total_example :
    ((state : CallStackState) × (get_restored_state binary sample zero_frame 4100 1 ≡ ok state)
      × (state.depth ≡ length state.frames)
      × Climbs binary sample 4100 1 4100 state.frames)
    ⊎ ((n : ℕ) × (get_restored_state binary sample zero_frame 4100 1 ≡ err null_pointer)
        × Breaks binary sample 4100 1 n 4100)
get_restored_state_total_example =
    get_restored_state_total binary sample zero_frame 4100 1 sample-IsValid

insert_frames-append_example :
    insert_frames zero_frame
      (record { frames = frame_at 1 24 ∷ frame_at 2 24 ∷ main_frame ∷ []; depth = 3 })
      1
      (frame_at 3 40 ∷ [])
    ≡ record { frames = frame_at 1 24 ∷ frame_at 3 40 ∷ frame_at 2 24 ∷ main_frame ∷ []; depth = 4 }
insert_frames-append_example =
    insert_frames-append zero_frame (frame_at 1 24 ∷ []) (frame_at 2 24 ∷ main_frame ∷ [])
      (frame_at 3 40 ∷ []) (omega arith)

abbrev pub two_frames : CallStackState
two_frames = record { frames = frame_at 4120 24 ∷ main_frame ∷ []; depth = 2 }

two_frames_return :
    (k : ℕ)
    → k + 1 < 2
    → (f : Frame) × (r : StackSizeRecord) × (get_elem? two_frames.frames k ≡ some f)
      × ReturnsInto binary sample f r
unfolding get_sym_end get_size_record
two_frames_return zero lt = (
  frame_at 4120 24,
  opt_fun,
  refl,
  record { function = refl; lo = omega arith; hi = omega arith },
)
two_frames_return (suc k) lt = absurd (omega arith)

collect_inlined_frames_none_example :
    collect_inlined_frames binary sample zero_frame (λ n. true) two_frames ≡ ok (two_frames, false)
collect_inlined_frames_none_example =
    collect_inlined_frames_none binary sample zero_frame (λ n. true) two_frames two_frames_return

-- The first frame returns outside `f`, its record's function, to an address 14 bytes below 4101.
abbrev pub three_frames : CallStackState
three_frames = record { frames = frame_at 4087 24 ∷ frame_at 4120 24 ∷ main_frame ∷ []; depth = 3 }

-- The frame of the call that was inlined between the first two.
abbrev found_frame : Frame
found_frame = record zero_frame {
  ret_addr = 8237;
  size = 40;
  record_of = opt_rec;
  real_record = opt_rec;
  inlined = true;
  real_bp = 0;
}

found_frames :
    inlined_frames binary sample zero_frame opt_rec 4087 (frame_at 4120 24) ≡ ok (found_frame ∷ [])
unfolding inlined_frames get_sym_end get_sym_start get_size_record_in_func get_next_patchpoint
    get_restored_state get_last_record get_map_record_in_func first_rec_after_addr get_size_record
    get_map_record get_map_record_after_addr adopt
found_frames = refl

first_function : get_size_record sample 0 ≡ some opt_fun
unfolding get_size_record
first_function = refl

first_elsewhere : (leb 4096 4087 && ltb 4087 (get_sym_end binary 4096)) ≡ false
unfolding get_sym_end
first_elsewhere = refl

collect_inlined_frames-use_after_free_example :
    collect_inlined_frames binary sample zero_frame (λ n. true) three_frames ≡ err use_after_free
collect_inlined_frames-use_after_free_example =
    collect_inlined_frames-use_after_free binary sample zero_frame (λ n. true) three_frames
      (frame_at 4087 24) (frame_at 4120 24) (found_frame ∷ []) opt_fun refl refl (omega arith)
      first_function first_elsewhere found_frames refl

found_elsewhere : (leb 4096 0 && ltb 0 (get_sym_end binary 4096)) ≡ false
unfolding get_sym_end
found_elsewhere = refl

nothing_there : get_size_record_in_func sample (get_sym_start binary 14) ≡ none
unfolding get_size_record_in_func get_sym_start get_sym_end
nothing_there = refl

collect_inlined_frames-null_pointer_example :
    collect_inlined_frames binary sample zero_frame (λ n. false) three_frames ≡ err null_pointer
collect_inlined_frames-null_pointer_example =
    collect_inlined_frames-null_pointer binary sample zero_frame (λ n. false) (frame_at 4087 24)
      (frame_at 4120 24) main_frame found_frame [] [] opt_fun opt_fun (omega arith) first_function
      first_elsewhere found_frames refl first_function found_elsewhere nothing_there

abbrev pub new_frames : List Frame
new_frames = frame_at 1 24 ∷ frame_at 2 40 ∷ main_frame ∷ []

new_frames_return : HaveReturns (λ a. 0) 500000 (end_of 500016 new_frames) new_frames
unfolding read64 read load of_bytes
new_frames_return = ((omega arith, inl refl), ((omega arith, inr (inr (omega arith))), tt))

insert_real_addresses-Laid_example :
    let seg : RestoredSegment = record { start_addr = 500000; total_size = 80 } in
    let frames : List Frame = frame_at 1 24 ∷ frame_at 2 40 ∷ main_frame ∷ [] in
    let state : CallStackState = record { frames = frames; depth = 3 } in
    (m' : Memory) × (insert_real_addresses dwarf state seg (λ a. 0)
      ≡ ok (record state { frames = placed 500016 frames }, m'))
    × Laid (λ a. 0) m' 500016 frames
    × (500000 + get_total_stack_size state ≡ end_of 500016 frames)
insert_real_addresses-Laid_example =
    insert_real_addresses-Laid dwarf (record { start_addr = 500000; total_size = 80 }) (λ a. 0)
      (frame_at 1 24) (frame_at 2 40) main_frame (main_frame ∷ []) 3 900000 (omega arith)
      (omega arith) (omega arith) new_frames_return refl refl (omega arith) (omega arith)

abbrev pub segment : RestoredSegment
segment = record { start_addr = 500000; total_size = 80 }
