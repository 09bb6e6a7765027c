-- ===== src/Examples/InlinedMap.antt =====
-- A guard of `f` that was inlined into `g`: the stack map, the binary and a call stack of main alone.
use llvm_guard_handler.Base.{
  suc, ◌+◌, ◌≡◌, refl, true, false, some, [], ◌∷◌, ◌++◌, replicate, ◌==◌, if◌then◌else◌, ◌&&◌, ltb,
  leb, not64, get_or, arith, ok,
}
use llvm_guard_handler.Memory.{Memory, read64}
use llvm_guard_handler.Memory.Laws.{Holds, Holds-get_or}
use llvm_guard_handler.Elf.{Elf, same_string, get_addr, get_sym_end, get_sym_start}
use llvm_guard_handler.StackMap.{StackMapRecord, StackSizeRecord, StackMap, constant}
use llvm_guard_handler.StackMap.Create.{create}
use llvm_guard_handler.StackMap.Format.{put_stack_map, StackMapFits}
use llvm_guard_handler.StackMap.RoundTrip.{create-put_stack_map}
use llvm_guard_handler.StackMap.Query.{
  get_map_record, get_size_record, get_size_record_in_func, get_last_record, get_map_record_in_func,
  first_rec_after_addr, get_map_record_after_addr,
}
use llvm_guard_handler.CallStack.{Frame}
use llvm_guard_handler.CallStack.Unwind.{get_call_stack_state}
use llvm_guard_handler.CallStack.Frames.{zero_frame}
use llvm_guard_handler.CallStack.Collect.{collect_map_records}
use llvm_guard_handler.CallStack.Inlined.{get_next_patchpoint, get_restored_state}
use llvm_guard_handler.Guard.{Environment, section_name}
use llvm_guard_handler.Guard.Resume.{Found, Stacked}
use llvm_guard_handler.Guard.Inlined.{Inlined}
use llvm_guard_handler.Examples.Handler.{guard_rec, main_position, main_unwound}
use llvm_guard_handler.Examples.Maps.{loc, opt_rec, unopt_rec, opt_fun, unopt_fun, sample}
use llvm_guard_handler.Examples.Stacks.{dwarf}

-- `g` and its twin, with a call of `f` each, after which the constant 9 is live.
abbrev pub outer_fun : StackSizeRecord
outer_fun = record { fun_addr = 12288; stack_size = 40; record_count = 1; index = 2 }

abbrev pub outer_unopt_fun : StackSizeRecord
outer_unopt_fun = record { fun_addr = 16384; stack_size = 56; record_count = 1; index = 3 }

abbrev pub call_rec : StackMapRecord
call_rec = record opt_rec {
  patchpoint_id = 2;
  instr_offset = 48;
  num_locations = 2;
  locations = loc constant 0 9 ∷ loc constant 0 8 ∷ [];
  index = 2;
}

abbrev pub unopt_call_rec : StackMapRecord
unopt_call_rec = record unopt_rec { patchpoint_id = not64 2; instr_offset = 64; index = 3 }

abbrev pub inlined_map : StackMap
inlined_map = record sample {
  num_func = 4;
  num_rec = 4;
  stk_size_records = opt_fun ∷ unopt_fun ∷ outer_fun ∷ outer_unopt_fun ∷ [];
  stk_map_records = guard_rec ∷ unopt_rec ∷ call_rec ∷ unopt_call_rec ∷ [];
}

-- The section stands at 8.
abbrev pub inlined_memory : Memory
inlined_memory x = get_or (replicate 8 0 ++ put_stack_map inlined_map []) x 0

inlined_map-Fits : StackMapFits inlined_map
inlined_map-Fits = omega arith

inlined_memory-Holds : Holds inlined_memory 8 (put_stack_map inlined_map [])
inlined_memory-Holds =
    Holds-get_or (replicate 8 0 ++ put_stack_map inlined_map []) 8 (put_stack_map inlined_map [])
      (λ j. let e : 8 + j ≡ suc (suc (suc (suc (suc (suc (suc (suc j))))))) = omega arith in rw e)

inlined_parsed : create inlined_memory 8 ≡ inlined_map
inlined_parsed =
    create-put_stack_map inlined_memory 8 inlined_map [] inlined_map-Fits inlined_memory-Holds

-- `f` and `g` have symbols of 64 bytes.
abbrev pub inlined_binary : Elf
inlined_binary = record {
  e_shnum = 1;
  e_shstrndx = 0;
  shdr = λ i. record { sh_name = 0; sh_type = 2; sh_addr = 8; sh_offset = 0; sh_size = 48 };
  sym_at = λ a. record { st_value = if a == 0 then 4096 else 12288; st_size = 64 };
  string_at = λ a. section_name;
}

-- The handler returns into `g`, before its call.
abbrev pub inlined_environment : Environment
inlined_environment = record {
  elf = inlined_binary;
  unw = dwarf;
  cursor = main_position ∷ [];
  callback_ret_addr = 12318;
  fresh = zero_frame;
  moved = λ n. false;
  stray = λ i. 0;
  segment_addr = 1000000;
  rsp = 600000;
  call_size = 100;
}

inlined_section : get_addr inlined_binary section_name ≡ some 8
unfolding get_addr same_string
inlined_section = refl

inlined_guard : get_map_record inlined_map 1 ≡ some guard_rec
unfolding get_map_record
inlined_guard = refl

pub inlined_twin : get_map_record inlined_map (not64 1) ≡ some unopt_rec
unfolding get_map_record
inlined_twin = refl

pub call_twin : get_map_record inlined_map (not64 2) ≡ some unopt_call_rec
unfolding get_map_record
call_twin = refl

inlined_owner : get_size_record inlined_map 0 ≡ some opt_fun
unfolding get_size_record
inlined_owner = refl

inlined_twin_owner : get_size_record inlined_map 1 ≡ some unopt_fun
unfolding get_size_record
inlined_twin_owner = refl

pub inlined-Found :
    Found inlined_environment inlined_memory inlined_map 1 guard_rec unopt_rec opt_fun unopt_fun
inlined-Found = record {
  section_addr = 8;
  found = inlined_section;
  mapped = refl;
  parsed = inlined_parsed;
  opt_found = inlined_guard;
  unopt_found = inlined_twin;
  opt_owner = inlined_owner;
  unopt_owner = inlined_twin_owner;
}

abbrev pub main_frame : Frame
main_frame = record main_unwound { stored_ret_addr = read64 inlined_memory 700008 }

unwound_main :
    get_call_stack_state dwarf inlined_memory zero_frame (main_position ∷ [])
    ≡ ok (record { frames = main_frame ∷ []; depth = 1 })
unfolding get_call_stack_state same_string
unwound_main = refl

collected_main :
    collect_map_records inlined_binary inlined_map
      (record { frames = main_frame ∷ []; depth = 1 })
      inlined_memory
    ≡ ok (record { frames = main_frame ∷ []; depth = 1 }, inlined_memory)
unfolding collect_map_records
collected_main = refl

pub inlined-Stacked :
    Stacked inlined_environment inlined_memory inlined_map
      (main_frame ∷ [])
      (main_frame ∷ [])
      inlined_memory
inlined-Stacked = record {
  unwound = unwound_main;
  collected = collected_main;
  own = λ k lt. absurd (omega arith);
  small = omega arith;
}

-- The frame of `g`.
abbrev pub outer_frame : Frame
outer_frame = record zero_frame {
  ret_addr = 16461;
  size = 56;
  record_of = call_rec;
  real_record = call_rec;
  inlined = true;
}

returns_elsewhere : (leb 4096 12318 && ltb 12318 (get_sym_end inlined_binary 4096)) ≡ false
unfolding get_sym_end
returns_elsewhere = refl

outer_found :
    get_size_record_in_func inlined_map (get_sym_start inlined_binary 12318) ≡ some outer_fun
unfolding get_size_record_in_func get_sym_start get_sym_end
outer_found = refl

outer_next : get_next_patchpoint inlined_map 12318 outer_fun ≡ ok 2
unfolding get_next_patchpoint get_last_record get_map_record_in_func get_size_record
outer_next = refl

outer_restored :
    get_restored_state inlined_binary inlined_map zero_frame 12318 2
    ≡ ok (record { frames = outer_frame ∷ []; depth = 1 })
unfolding get_restored_state first_rec_after_addr get_last_record get_size_record get_map_record
    get_map_record_after_addr get_sym_end
outer_restored = refl

pub outer-Inlined : Inlined inlined_environment inlined_map opt_fun outer_fun 2 (outer_frame ∷ [])
outer-Inlined = record {
  elsewhere = returns_elsewhere;
  real_found = outer_found;
  next_found = outer_next;
  restores = outer_restored;
}
