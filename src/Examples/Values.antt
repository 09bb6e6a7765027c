-- ===== src/Examples/Values.antt =====
-- The theorem on live values at a stack of one frame below main's.
use llvm_guard_handler.Base.{
  ℕ, ◌≡◌, refl, inl, inr, List, [], ◌∷◌, replicate, not64, ◌^◌, ◌-◌, ok, some,
}
use llvm_guard_handler.Memory.{Memory, load, of_bytes, to_bytes}
use llvm_guard_handler.StackMap.{StackMapRecord, StackMap, direct, constant}
use llvm_guard_handler.StackMap.Query.{get_map_record}
use llvm_guard_handler.CallStack.{Frame, CallStackState}
use llvm_guard_handler.CallStack.Frames.{zero_frame}
use llvm_guard_handler.CallStack.Locations.{
  get_location_value, block_word, copy_bytes, restore_unopt_stack,
}
use llvm_guard_handler.CallStack.Locations.Pairs.{Job}
use llvm_guard_handler.CallStack.Locations.Stack.{
  Reads, Ready, Off, Transferred, restore_unopt_stack-Transferred,
}
use llvm_guard_handler.Examples.Maps.{loc, opt_rec, unopt_rec, sample}
use llvm_guard_handler.Examples.Stacks.{dwarf, main_frame}

-- A value of eight bytes, 16 above the base pointer of the frame around it.
abbrev one_value : StackMapRecord
one_value = record opt_rec {
  num_locations = 2;
  locations = loc direct 6 16 ∷ loc constant 0 8 ∷ [];
}

abbrev one_value_map : StackMap
one_value_map = record sample { stk_map_records = one_value ∷ unopt_rec ∷ [] }

abbrev one_frame : Frame
one_frame = record zero_frame { bp = 5000; record_of = one_value; real_record = one_value }

abbrev one_state : CallStackState
one_state = record { frames = one_frame ∷ main_frame ∷ []; depth = 2 }

abbrev one_job : Job
one_job = record {
  loc = loc direct 6 (2 ^ 32 - 8);
  size_loc = loc constant 0 8;
  block = replicate 8 7;
  size_block = 8 ∷ replicate 7 0;
}

one-Reads :
    Reads dwarf one_value_map
      (λ i. 0)
      (λ a. 7)
      one_frame.registers
      main_frame.real_bp
      one_value.locations
      (one_job ∷ [])
unfolding get_location_value block_word copy_bytes load of_bytes to_bytes
one-Reads = (refl, refl, tt)

twin_found : get_map_record one_value_map (not64 1) ≡ some unopt_rec
unfolding get_map_record
twin_found = refl

one-Ready : Ready dwarf one_value_map (λ i. 0) (λ a. 7) one_state.frames ((one_job ∷ []) ∷ [])
one-Ready = (
  record { twin = unopt_rec; found = twin_found; same = refl; reads = one-Reads },
  record {
    unopt = unopt_rec;
    found = twin_found;
    places = refl;
    handles = (inl refl, tt);
    separate = (tt, tt);
  },
  (inr tt, tt),
  tt,
)

restore_unopt_stack-Transferred_example :
    (fs' : List Frame) × (m' : Memory) × (restore_unopt_stack dwarf one_value_map
        (λ i. 0)
        one_state
        (λ a. 7)
      ≡ ok (record one_state { frames = fs' }, m'))
    × Transferred dwarf one_value_map (λ i. 0) m' one_state.frames ((one_job ∷ []) ∷ []) fs'
    × ((a n : ℕ)
        → Off dwarf one_value_map (λ i. 0) a n one_state.frames ((one_job ∷ []) ∷ [])
        → load m' a n ≡ load (λ a. 7) a n)
restore_unopt_stack-Transferred_example =
    restore_unopt_stack-Transferred dwarf one_value_map (λ i. 0) one_state (λ a. 7)
      ((one_job ∷ []) ∷ []) one-Ready
