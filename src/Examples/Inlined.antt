-- ===== src/Examples/Inlined.antt =====
-- The end of the handler at a stack with an inlined call, whose frames have a live value each.
use llvm_guard_handler.Base.{
  ℕ, ◌+◌, ◌-◌, ◌^◌, ◌≤◌, ◌≡◌, ◌++◌, refl, inl, inr, true, false, some, List, [], ◌∷◌, arith,
  replicate, not64, take, ok,
}
use llvm_guard_handler.Memory.{Memory, load, read64, read, of_bytes, to_bytes}
use llvm_guard_handler.StackMap.{StackMapRecord, StackMap, constant, direct}
use llvm_guard_handler.StackMap.Query.{get_map_record}
use llvm_guard_handler.CallStack.{Frame, register_count}
use llvm_guard_handler.CallStack.Frames.{zero_frame, get_total_stack_size}
use llvm_guard_handler.CallStack.Segment.Layout.{end_of, Laid, placed, HaveReturns}
use llvm_guard_handler.CallStack.Locations.{get_location_value, block_word, copy_bytes}
use llvm_guard_handler.CallStack.Locations.Pairs.{Job}
use llvm_guard_handler.CallStack.Locations.Stack.{Off, Ready, Transferred}
use llvm_guard_handler.Guard.{Exit, Environment, restore_inlined, resume}
use llvm_guard_handler.Guard.Machine.{run_restore_inlined}
use llvm_guard_handler.Guard.Rebuilt.{inserted, inserted_memory, Rebuildable, resume-Rebuilt}
use llvm_guard_handler.Guard.Rebuilt.Copied.{Apart}
use llvm_guard_handler.Guard.Rebuilt.Frames.{Clear}
use llvm_guard_handler.Examples.Binary.{binary}
use llvm_guard_handler.Examples.Maps.{loc, opt_rec, unopt_rec, sample}
use llvm_guard_handler.Examples.Rebuilt.{no_globals, cpu}
use llvm_guard_handler.Examples.Stacks.{dwarf, frame_at, main_frame}

-- The constant 7 is live, in eight bytes.
abbrev live_rec : StackMapRecord
live_rec = record opt_rec {
  num_locations = 2;
  locations = loc constant 0 7 ∷ loc constant 0 8 ∷ [];
}

abbrev live_map : StackMap
live_map = record sample { stk_map_records = live_rec ∷ unopt_rec ∷ [] }

abbrev live_frame : ℕ → ℕ → Frame
live_frame ret size = record (frame_at ret size) { record_of = live_rec; real_record = live_rec }

abbrev env : Environment
env = record {
  elf = binary;
  unw = dwarf;
  cursor = [];
  callback_ret_addr = 4112;
  fresh = zero_frame;
  moved = λ n. false;
  stray = λ i. 0;
  segment_addr = 500000;
  rsp = 899990;
  call_size = 64;
}

abbrev job : Job
job = record {
  loc = loc direct 6 (2 ^ 32 - 8);
  size_loc = loc constant 0 8;
  block = to_bytes 4 7 ++ replicate 4 0;
  size_block = to_bytes 4 8 ++ replicate 4 0;
}

abbrev jobs : List (List Job)
jobs = (job ∷ []) ∷ (job ∷ []) ∷ []

abbrev m0 : Memory
m0 a = 0

abbrev after_insertion : Memory
after_insertion =
    inserted_memory env live_map m0 (live_frame 1 24) (live_frame 2 40) main_frame (main_frame ∷ [])
      3 900000

abbrev placed_frames : List Frame
placed_frames =
    inserted env live_map m0 (live_frame 1 24) (live_frame 2 40) main_frame (main_frame ∷ []) 3
      900000

twin_found : get_map_record live_map (not64 1) ≡ some unopt_rec
unfolding get_map_record
twin_found = refl

frames_Ready : Ready dwarf live_map (λ i. 0) after_insertion placed_frames jobs
unfolding placed get_location_value block_word copy_bytes to_bytes of_bytes
frames_Ready = (
  record { twin = unopt_rec; found = twin_found; same = refl; reads = (refl, refl, tt) },
  record {
    unopt = unopt_rec;
    found = twin_found;
    places = refl;
    handles = (inl refl, tt);
    separate = (tt, tt);
  },
  (inr ((inr (inl (omega arith)), tt), tt), tt),
  (
    record { twin = unopt_rec; found = twin_found; same = refl; reads = (refl, refl, tt) },
    record {
      unopt = unopt_rec;
      found = twin_found;
      places = refl;
      handles = (inl refl, tt);
      separate = (tt, tt);
    },
    (inr tt, tt),
    tt,
  ),
)

stack_returns :
    HaveReturns m0 500000
      (end_of 500016 (live_frame 1 24 ∷ live_frame 2 40 ∷ main_frame ∷ []))
      (live_frame 1 24 ∷ live_frame 2 40 ∷ main_frame ∷ [])
unfolding read64 read load of_bytes
stack_returns = ((omega arith, inl refl), ((omega arith, inr (inr (omega arith))), tt))

layout-Clear :
    Clear
      (λ a. Off dwarf live_map (λ i. 0) a 8 placed_frames jobs)
      500016
      (live_frame 1 24 ∷ live_frame 2 40 ∷ main_frame ∷ [])
unfolding placed block_word copy_bytes to_bytes of_bytes
layout-Clear = (
  ((inr (inr (omega arith)), tt), ((inr (inl (omega arith)), tt), tt)),
  ((inr (inr (omega arith)), tt), ((inr (inl (omega arith)), tt), tt)),
  ((inr (inr (omega arith)), tt), ((inr (inr (omega arith)), tt), tt)),
)

stack-Rebuildable :
    Rebuildable env live_map m0
      (live_frame 1 24)
      (live_frame 2 40)
      main_frame
      (main_frame ∷ [])
      3
      900000
      jobs
unfolding get_total_stack_size
stack-Rebuildable = record {
  pos = omega arith;
  big = omega arith;
  room = omega arith;
  stack_room = omega arith;
  returns = stack_returns;
  is_last = refl;
  has_bp = refl;
  bp_outside = omega arith;
  ret_outside = omega arith;
  apart = inr (omega arith);
  ready = frames_Ready;
  clear = layout-Clear;
}

abbrev stack : List Frame
stack = live_frame 1 24 ∷ live_frame 2 40 ∷ main_frame ∷ []

resume-Rebuilt_example :
    (first : Frame) × (rest : List Frame) × (m' : Memory) × (exit : Exit) × (resume env live_map
        8224
        (record { frames = stack; depth = 3 })
        true
        no_globals
        m0
        899991
      ≡ ok exit)
    × (exit.label ≡ restore_inlined)
    × Transferred dwarf live_map (λ i. 0) m' placed_frames jobs (first ∷ rest)
    × Laid m0 exit.memory 900016 stack
    × ((k n : ℕ)
        → k + n ≤ get_total_stack_size (record { frames = stack; depth = 3 })
        → Apart (500000 + k) n 500016 stack
        → load exit.memory (900000 + k) n ≡ load m' (500000 + k) n)
    × let gs = exit.globals in
      let after =
        run_restore_inlined gs.r gs.addr gs.restored_bp gs.restored_stack_size exit.memory cpu in
      (gs.r ≡ take register_count first.registers)
      × (after.rip ≡ 8224)
      × (after.rbp ≡ 900016)
      × (after.rsp ≡ 900000)
unfolding get_total_stack_size
resume-Rebuilt_example =
    resume-Rebuilt env live_map m0 (live_frame 1 24) (live_frame 2 40) main_frame (main_frame ∷ [])
      3 900000 jobs no_globals 8224 899991 cpu stack-Rebuildable (omega arith) (omega arith)
      (omega arith)
