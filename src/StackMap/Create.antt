-- ===== src/StackMap/Create.antt =====
-- `stmap_create` of src/stackmap_checker/stmap.c: the stack map section is read out of memory.
-- Fields stand where the C struct has them, so each `memcpy` into a struct is a read of each of its
-- fields at that field's offset.
use llvm_guard_handler.Base.{ℕ, zero, suc, ◌+◌, ◌*◌, ◌%◌, List, [], ◌∷◌, ◌==◌, if◌then◌else◌}
use llvm_guard_handler.Memory.{Memory, read}
use llvm_guard_handler.StackMap.{Location, LiveOut, StackMapRecord, StackSizeRecord, StackMap}

-- The sizes of the structs as they stand in the section.
abbrev pub header_size : ℕ
header_size = 16

abbrev pub size_record_size : ℕ
size_record_size = 24

abbrev pub rec_header_size : ℕ
rec_header_size = 16

abbrev pub location_size : ℕ
location_size = 12

abbrev pub liveout_size : ℕ
liveout_size = 4

-- `memcpy` of `n` structs, each of `width` bytes.
unfoldable pub read_array : {A : Type 0} → (ℕ → A) → ℕ → ℕ → ℕ → List A
read_array one width a zero = []
read_array one width a (suc n) = one a ∷ read_array one width (a + width) n

unfoldable pub read_location : Memory → ℕ → Location
read_location m a = record {
  kind = read m a 1;
  reserved = read m (a + 1) 1;
  size = read m (a + 2) 2;
  dwarf_reg_num = read m (a + 4) 2;
  reserved2 = read m (a + 6) 2;
  offset = read m (a + 8) 4;
}

unfoldable pub read_liveout : Memory → ℕ → LiveOut
read_liveout m a = record {
  dwarf_reg_num = read m a 2;
  reserved = read m (a + 2) 1;
  size = read m (a + 3) 1;
}

-- The loop over the stack size records, at index `i` with `n` rounds left.
unfoldable pub read_size_records : Memory → ℕ → ℕ → ℕ → List StackSizeRecord
read_size_records m a i zero = []
read_size_records m a i (suc n) =
    record {
      fun_addr = read m a 8;
      stack_size = read m (a + 8) 8;
      record_count = read m (a + 16) 8;
      index = i;
    }
    ∷ read_size_records m (a + size_record_size) (i + 1) n

-- `addr` after the locations, and after the live-outs: both are padded to 8 bytes.
unfoldable pub after_locations : ℕ → ℕ → ℕ
after_locations a n =
    let a' = a + n * location_size in if n * location_size % 8 == 0 then a' else a' + 4

unfoldable pub after_liveouts : ℕ → ℕ → ℕ
after_liveouts a n =
    let a' = a + liveout_size * n in if (2 * 2 + liveout_size * n) % 8 == 0 then a' else a' + 4

-- One round of the loop over the stack map records: the record, and the next value of `addr`.
unfoldable pub read_map_record : Memory → ℕ → ℕ → StackMapRecord × ℕ
read_map_record m a i =
    let num_locations = read m (a + 14) 2 in
    let locations_addr = a + rec_header_size in
    let padding_addr = after_locations locations_addr num_locations in
    let num_liveouts = read m (padding_addr + 2) 2 in
    let liveouts_addr = padding_addr + 2 + 2 in
    (
      record {
        patchpoint_id = read m a 8;
        instr_offset = read m (a + 8) 4;
        reserved = read m (a + 12) 2;
        num_locations = num_locations;
        locations = read_array (read_location m) location_size locations_addr num_locations;
        num_liveouts = num_liveouts;
        liveouts = read_array (read_liveout m) liveout_size liveouts_addr num_liveouts;
        index = i;
      },
      after_liveouts liveouts_addr num_liveouts,
    )

unfoldable pub read_map_records : Memory → ℕ → ℕ → ℕ → List StackMapRecord
read_map_records m a i zero = []
read_map_records m a i (suc n) =
    let (rec, next) = read_map_record m a i in rec ∷ read_map_records m next (i + 1) n

unfoldable pub create : Memory → ℕ → StackMap
create m start =
    let num_func = read m (start + 4) 4 in
    let num_const = read m (start + 8) 4 in
    let num_rec = read m (start + 12) 4 in
    let size_records_addr = start + header_size in
    let constants_addr = size_records_addr + num_func * size_record_size in
    let map_records_addr = constants_addr + 8 * num_const in
    record {
      version = read m start 1;
      reserved = read m (start + 1) 1;
      reserved2 = read m (start + 2) 2;
      num_func = num_func;
      num_const = num_const;
      num_rec = num_rec;
      stk_size_records = read_size_records m size_records_addr 0 num_func;
      constants = read_array (λ a. read m a 8) 8 constants_addr num_const;
      stk_map_records = read_map_records m map_records_addr 0 num_rec;
    }
