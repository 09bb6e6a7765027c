-- ===== src/Examples/Maps.antt =====
-- A stack map of two functions: `f` at 4096, whose one call stands at 4112, and its unoptimised twin
-- at 8192, whose call stands at 8224. The call has two live values.
use llvm_guard_handler.Base.{ℕ, ◌-◌, ◌^◌, [], ◌∷◌, not64}
use llvm_guard_handler.StackMap.{
  Location, LiveOut, StackMapRecord, StackSizeRecord, StackMap, register, direct, constant,
}

abbrev pub loc : ℕ → ℕ → ℕ → Location
loc kind reg offset = record {
  kind = kind;
  reserved = 0;
  size = 8;
  dwarf_reg_num = reg;
  reserved2 = 0;
  offset = offset;
}

abbrev pub liveout : LiveOut
liveout = record { dwarf_reg_num = 3; reserved = 0; size = 8 }

abbrev pub opt_rec : StackMapRecord
opt_rec = record {
  patchpoint_id = 1;
  instr_offset = 16;
  reserved = 0;
  num_locations = 3;
  locations = loc register 3 0 ∷ loc constant 0 8 ∷ loc direct 6 16 ∷ [];
  num_liveouts = 2;
  liveouts = liveout ∷ liveout ∷ [];
  index = 0;
}

abbrev pub unopt_rec : StackMapRecord
unopt_rec = record {
  patchpoint_id = not64 1;
  instr_offset = 32;
  reserved = 0;
  num_locations = 2;
  locations = loc direct 6 (2 ^ 32 - 8) ∷ loc constant 0 8 ∷ [];
  num_liveouts = 0;
  liveouts = [];
  index = 1;
}

abbrev pub opt_fun : StackSizeRecord
opt_fun = record { fun_addr = 4096; stack_size = 24; record_count = 1; index = 0 }

abbrev pub unopt_fun : StackSizeRecord
unopt_fun = record { fun_addr = 8192; stack_size = 40; record_count = 1; index = 1 }

abbrev pub sample : StackMap
sample = record {
  version = 3;
  reserved = 0;
  reserved2 = 0;
  num_func = 2;
  num_const = 1;
  num_rec = 2;
  stk_size_records = opt_fun ∷ unopt_fun ∷ [];
  constants = 77 ∷ [];
  stk_map_records = opt_rec ∷ unopt_rec ∷ [];
}
