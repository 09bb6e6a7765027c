-- ===== src/Examples/Around.antt =====
-- A run of the handler: a guard of `f` fails, which was inlined into `g`, in a call stack of main alone.
use llvm_guard_handler.Base.{
  ℕ, ◌-◌, ◌^◌, ◌<◌, ◌≡◌, refl, inl, inr, true, List, [], ◌∷◌, ◌++◌, replicate, arith,
}
use llvm_guard_handler.Memory.{Memory, load, read, read64, of_bytes, to_bytes}
use llvm_guard_handler.StackMap.{direct, constant}
use llvm_guard_handler.StackMap.Format.{
  put_all, put_size_record, put_constant, put_location, padding, put_liveout, put_map_record,
  put_stack_map,
}
use llvm_guard_handler.StackMap.Query.{call_addr}
use llvm_guard_handler.CallStack.{Frame}
use llvm_guard_handler.CallStack.Frames.{get_total_stack_size}
use llvm_guard_handler.CallStack.Segment.Layout.{end_of, placed, HaveReturns}
use llvm_guard_handler.CallStack.Locations.{get_location_value, block_word, copy_bytes}
use llvm_guard_handler.CallStack.Locations.Pairs.{Job}
use llvm_guard_handler.CallStack.Locations.Stack.{Off, Ready}
use llvm_guard_handler.Guard.{fail_frame, guard_failure}
use llvm_guard_handler.Guard.Rebuilt.{inserted, inserted_memory, Rebuildable, Rebuilds}
use llvm_guard_handler.Guard.Rebuilt.Frames.{Clear}
use llvm_guard_handler.Guard.Inlined.{around, guard_failure-Rebuilds}
use llvm_guard_handler.Examples.Handler.{guard_rec}
use llvm_guard_handler.Examples.Maps.{loc, unopt_rec, opt_fun, unopt_fun}
use llvm_guard_handler.Examples.Rebuilt.{no_globals, cpu}
use llvm_guard_handler.Examples.Stacks.{dwarf}
use llvm_guard_handler.Examples.InlinedMap.{
  outer_fun, unopt_call_rec, inlined_map, inlined_memory, inlined_environment, inlined_twin,
  call_twin, inlined-Found, main_frame, inlined-Stacked, outer_frame, outer-Inlined,
}

-- The frames of the guard and of `g`, on top of main's.
abbrev guard_frame : Frame
guard_frame = record (fail_frame guard_rec opt_fun unopt_fun main_frame) { inlined = true }

abbrev adopted_frame : Frame
adopted_frame = record outer_frame { real_bp = 700000; registers = main_frame.registers }

abbrev job_of : ℕ → Job
job_of value = record {
  loc = loc direct 6 (2 ^ 32 - 8);
  size_loc = loc constant 0 8;
  block = value ∷ replicate 7 0;
  size_block = 8 ∷ replicate 7 0;
}

abbrev jobs : List (List Job)
jobs = (job_of 7 ∷ []) ∷ (job_of 9 ∷ []) ∷ []

abbrev after_insertion : Memory
after_insertion =
    inserted_memory inlined_environment inlined_map inlined_memory guard_frame adopted_frame
      main_frame (main_frame ∷ []) 3 700000

abbrev placed_frames : List Frame
placed_frames =
    inserted inlined_environment inlined_map inlined_memory guard_frame adopted_frame main_frame
      (main_frame ∷ []) 3 700000

frames-Ready : Ready dwarf inlined_map (λ i. 0) after_insertion placed_frames jobs
unfolding placed fail_frame get_location_value block_word copy_bytes to_bytes of_bytes
frames-Ready = (
  record { twin = unopt_rec; found = inlined_twin; same = refl; reads = (refl, refl, tt) },
  record {
    unopt = unopt_rec;
    found = inlined_twin;
    places = refl;
    handles = (inl refl, tt);
    separate = (tt, tt);
  },
  (inr ((inr (inl (omega arith)), tt), tt), tt),
  (
    record { twin = unopt_call_rec; found = call_twin; same = refl; reads = (refl, refl, tt) },
    record {
      unopt = unopt_call_rec;
      found = call_twin;
      places = refl;
      handles = (inl refl, tt);
      separate = (tt, tt);
    },
    (inr tt, tt),
    tt,
  ),
)

main_return_is_word : read64 inlined_memory 700008 < 2 ^ 64
unfolding read64 read load of_bytes put_stack_map to_bytes put_all put_size_record put_constant
    put_map_record put_location padding put_liveout
main_return_is_word = omega arith

main_return :
    HaveReturns inlined_memory 1000000
      (end_of 1000032 (guard_frame ∷ adopted_frame ∷ main_frame ∷ []))
      (guard_frame ∷ adopted_frame ∷ main_frame ∷ [])
main_return = ((omega arith, inl refl), ((main_return_is_word, inr (inl (omega arith))), tt))

layout-Clear :
    Clear
      (λ a. Off dwarf inlined_map (λ i. 0) a 8 placed_frames jobs)
      1000032
      (guard_frame ∷ adopted_frame ∷ main_frame ∷ [])
unfolding placed fail_frame block_word copy_bytes to_bytes of_bytes
layout-Clear = (
  ((inr (inr (omega arith)), tt), ((inr (inl (omega arith)), tt), tt)),
  ((inr (inr (omega arith)), tt), ((inr (inl (omega arith)), tt), tt)),
  ((inr (inr (omega arith)), tt), ((inr (inr (omega arith)), tt), tt)),
)

stack-Rebuildable :
    Rebuildable inlined_environment inlined_map inlined_memory guard_frame adopted_frame main_frame
      (main_frame ∷ [])
      3
      700000
      jobs
unfolding get_total_stack_size fail_frame
stack-Rebuildable = record {
  pos = omega arith;
  big = omega arith;
  room = omega arith;
  stack_room = omega arith;
  returns = main_return;
  is_last = refl;
  has_bp = refl;
  bp_outside = omega arith;
  ret_outside = omega arith;
  apart = inl (omega arith);
  ready = frames-Ready;
  clear = layout-Clear;
}

frames_shape :
    around (fail_frame guard_rec opt_fun unopt_fun main_frame) (outer_frame ∷ [])
      ++ (main_frame ∷ [])
    ≡ adopted_frame ∷ main_frame ∷ []
unfolding fail_frame
frames_shape = refl

guard_failure-Rebuilds_example :
    Rebuilds inlined_environment inlined_map inlined_memory guard_frame adopted_frame main_frame
      (main_frame ∷ [])
      3
      700000
      jobs
      (call_addr unopt_fun unopt_rec)
      cpu
      (guard_failure inlined_environment 600001 1 no_globals inlined_memory)
unfolding get_total_stack_size fail_frame
guard_failure-Rebuilds_example =
    guard_failure-Rebuilds inlined_environment inlined_map inlined_memory 1 guard_rec unopt_rec
      opt_fun unopt_fun outer_fun 2 (outer_frame ∷ []) (main_frame ∷ []) main_frame []
      inlined_memory adopted_frame main_frame (main_frame ∷ []) 700000 jobs 600001 no_globals cpu
      inlined-Found inlined-Stacked outer-Inlined (omega arith) frames_shape stack-Rebuildable
      (omega arith) (omega arith) (omega arith)
