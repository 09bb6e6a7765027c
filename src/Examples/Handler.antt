-- ===== src/Examples/Handler.antt =====
-- A run of the handler: a guard of `f` fails, in a call stack of main alone.
use llvm_guard_handler.Base.{
  ℕ, suc, ◌+◌, ◌-◌, ◌^◌, ◌<◌, ◌≡◌, refl, inl, inr, false, some, List, [], ◌∷◌, ◌++◌, replicate,
  not64, get_or, take, arith, ok,
}
use llvm_guard_handler.Memory.{Memory, load, read64, of_bytes, to_bytes}
use llvm_guard_handler.Memory.Laws.{Holds, Holds-get_or}
use llvm_guard_handler.Elf.{Elf, get_addr, get_sym_end, same_string}
use llvm_guard_handler.StackMap.{StackMapRecord, StackMap, direct, constant}
use llvm_guard_handler.StackMap.Create.{create}
use llvm_guard_handler.StackMap.Format.{StackMapFits, put_stack_map}
use llvm_guard_handler.StackMap.RoundTrip.{create-put_stack_map}
use llvm_guard_handler.StackMap.Query.{call_addr, get_map_record, get_size_record}
use llvm_guard_handler.CallStack.{Frame, register_count}
use llvm_guard_handler.CallStack.Unwind.{Unwound, main_name, get_call_stack_state}
use llvm_guard_handler.CallStack.Frames.{zero_frame}
use llvm_guard_handler.CallStack.Collect.{collect_map_records}
use llvm_guard_handler.CallStack.Locations.{get_location_value, block_word, copy_bytes}
use llvm_guard_handler.CallStack.Locations.Pairs.{Job}
use llvm_guard_handler.CallStack.Locations.Stack.{Reads, Ready, Off, Transferred}
use llvm_guard_handler.Guard.{
  Globals, jmp_to_addr, Environment, section_name, fail_frame, guard_failure,
}
use llvm_guard_handler.Guard.Resume.{Known, Stacked, guard_failure-Transferred}
use llvm_guard_handler.Examples.Binary.{binary}
use llvm_guard_handler.Examples.Maps.{loc, opt_rec, unopt_rec, opt_fun, unopt_fun, sample}
use llvm_guard_handler.Examples.Stacks.{dwarf}

-- The guard has the constant 7 live, in eight bytes.
abbrev pub guard_rec : StackMapRecord
guard_rec = record opt_rec {
  num_locations = 2;
  locations = loc constant 0 7 ∷ loc constant 0 8 ∷ [];
}

abbrev guarded : StackMap
guarded = record sample { stk_map_records = guard_rec ∷ unopt_rec ∷ [] }

-- The section stands at 8.
abbrev guarded_memory : Memory
guarded_memory x = get_or (replicate 8 0 ++ put_stack_map guarded []) x 0

guarded-Fits : StackMapFits guarded
guarded-Fits = omega arith

guarded_memory-Holds : Holds guarded_memory 8 (put_stack_map guarded [])
guarded_memory-Holds =
    Holds-get_or (replicate 8 0 ++ put_stack_map guarded []) 8 (put_stack_map guarded [])
      (λ j. let e : 8 + j ≡ suc (suc (suc (suc (suc (suc (suc (suc j))))))) = omega arith in rw e)

guarded_parsed : create guarded_memory 8 ≡ guarded
guarded_parsed = create-put_stack_map guarded_memory 8 guarded [] guarded-Fits guarded_memory-Holds

abbrev guarded_binary : Elf
guarded_binary = record binary {
  string_at = λ a. section_name;
  shdr = λ i. record { sh_name = 0; sh_type = 2; sh_addr = 8; sh_offset = 0; sh_size = 24 };
}

abbrev pub main_position : Unwound
main_position = record { ip = 4; reg = λ n. 700000; proc_name = main_name }

abbrev environment : Environment
environment = record {
  elf = guarded_binary;
  unw = dwarf;
  cursor = main_position ∷ [];
  callback_ret_addr = 4112;
  fresh = zero_frame;
  moved = λ n. false;
  stray = λ i. 0;
  segment_addr = 1000000;
  rsp = 600000;
  call_size = 100;
}

abbrev pub main_unwound : Frame
main_unwound = record zero_frame {
  registers = replicate 16 700000;
  ret_addr = 700008;
  bp = 700000;
  real_bp = 700000;
  stored_ret_addr = read64 guarded_memory 700008;
}

section_found : get_addr guarded_binary section_name ≡ some 8
unfolding get_addr same_string
section_found = refl

guard_found : get_map_record guarded 1 ≡ some guard_rec
unfolding get_map_record
guard_found = refl

twin_of_guard : get_map_record guarded (not64 1) ≡ some unopt_rec
unfolding get_map_record
twin_of_guard = refl

guard_owner : get_size_record guarded 0 ≡ some opt_fun
unfolding get_size_record
guard_owner = refl

twin_owner : get_size_record guarded 1 ≡ some unopt_fun
unfolding get_size_record
twin_owner = refl

guard_inside : 4112 < get_sym_end guarded_binary 4096
unfolding get_sym_end
guard_inside = omega arith

guard-Known : Known environment guarded_memory guarded 1 guard_rec unopt_rec opt_fun unopt_fun
guard-Known = record {
  records = record {
    section_addr = 8;
    found = section_found;
    mapped = refl;
    parsed = guarded_parsed;
    opt_found = guard_found;
    unopt_found = twin_of_guard;
    opt_owner = guard_owner;
    unopt_owner = twin_owner;
  };
  lo = omega arith;
  hi = guard_inside;
}

main_found :
    get_call_stack_state dwarf guarded_memory zero_frame (main_position ∷ [])
    ≡ ok (record { frames = main_unwound ∷ []; depth = 1 })
unfolding get_call_stack_state same_string
main_found = refl

main_kept :
    collect_map_records guarded_binary guarded
      (record { frames = main_unwound ∷ []; depth = 1 })
      guarded_memory
    ≡ ok (record { frames = main_unwound ∷ []; depth = 1 }, guarded_memory)
unfolding collect_map_records
main_kept = refl

main-Stacked :
    Stacked environment guarded_memory guarded
      (main_unwound ∷ [])
      (main_unwound ∷ [])
      guarded_memory
main-Stacked = record {
  unwound = main_found;
  collected = main_kept;
  own = λ k lt. absurd (omega arith);
  small = omega arith;
}

abbrev guard_job : Job
guard_job = record {
  loc = loc direct 6 (2 ^ 32 - 8);
  size_loc = loc constant 0 8;
  block = 7 ∷ replicate 7 0;
  size_block = 8 ∷ replicate 7 0;
}

guard-Reads :
    Reads dwarf guarded
      (λ i. 0)
      guarded_memory
      main_unwound.registers
      700000
      guard_rec.locations
      (guard_job ∷ [])
unfolding get_location_value block_word copy_bytes of_bytes to_bytes
guard-Reads = (refl, refl, tt)

guard-Ready :
    Ready dwarf guarded
      (λ i. 0)
      guarded_memory
      (fail_frame guard_rec opt_fun unopt_fun main_unwound ∷ main_unwound ∷ [])
      ((guard_job ∷ []) ∷ [])
unfolding fail_frame
guard-Ready = (
  record { twin = unopt_rec; found = twin_of_guard; same = refl; reads = guard-Reads },
  record {
    unopt = unopt_rec;
    found = twin_of_guard;
    places = refl;
    handles = (inl refl, tt);
    separate = (tt, tt);
  },
  (inr tt, tt),
  tt,
)

abbrev globals : Globals
globals = record {
  addr = 0;
  r = [];
  restored_bp = 0;
  restored_stack_size = 0;
  restored_start_addr = 0;
  restored_total_size = 0;
}

guard_failure-Transferred_example :
    let frames : List Frame =
      fail_frame guard_rec opt_fun unopt_fun main_unwound ∷ main_unwound ∷ [] in
    (first : Frame) × (rest : List Frame) × (m'' : Memory) × (guard_failure environment 0 1 globals
        guarded_memory
      ≡ ok (record {
        label = jmp_to_addr;
        globals = record globals {
          r = take register_count first.registers;
          addr = call_addr unopt_fun unopt_rec;
        };
        memory = m'';
      }))
    × Transferred dwarf guarded (λ i. 0) m'' frames ((guard_job ∷ []) ∷ []) (first ∷ rest)
    × ((a n : ℕ)
        → Off dwarf guarded (λ i. 0) a n frames ((guard_job ∷ []) ∷ [])
        → load m'' a n ≡ load guarded_memory a n)
guard_failure-Transferred_example =
    guard_failure-Transferred environment guarded_memory guarded 1 guard_rec unopt_rec opt_fun
      unopt_fun (main_unwound ∷ []) main_unwound [] guarded_memory (guard_job ∷ []) [] 0 globals
      guard-Known main-Stacked guard-Ready
