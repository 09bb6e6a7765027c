-- ===== src/StackMap/Bounds.antt =====
-- `stmap_create` of stmap.c on any bytes: the ranges of its fields and the lengths of its arrays.
use llvm_guard_handler.Base.{ℕ, zero, suc, ◌+◌, ◌*◌, ◌^◌, ◌<◌, ◌≡◌, refl, ap, arith, length, All}
use llvm_guard_handler.Memory.{Memory, of_bytes, load, read}
use llvm_guard_handler.StackMap.Create.{
  location_size, liveout_size, size_record_size, read_array, read_location, read_liveout,
  read_size_records, read_map_record, read_map_records, create,
}
use llvm_guard_handler.StackMap.Format.{
  LocationFits, LiveOutFits, SizeRecordFits, MapRecordFits, AllFrom, StackMapFits,
}

-- Every address holds a byte.
abbrev pub IsBytes : Memory → Type 0
IsBytes m = (a : ℕ) → m a < 256

module _ (m : Memory) (bytes : IsBytes m) where
  -- The bound of a word of `n` bytes.
  abbrev bound : ℕ → ℕ
  bound zero = 1
  bound (suc n) = 256 * bound n

  read-lt : (a n : ℕ) → read m a n < bound n
  unfolding read load of_bytes
  read-lt a zero = omega arith
  read-lt a (suc n) = omega (arith, bytes a, read-lt (a + 1) n)

  read_8 : (a : ℕ) → read m a 8 < 2 ^ 64
  read_8 a = read-lt a 8

  read_4 : (a : ℕ) → read m a 4 < 2 ^ 32
  read_4 a = read-lt a 4

  read_2 : (a : ℕ) → read m a 2 < 2 ^ 16
  read_2 a = read-lt a 2

  read_1 : (a : ℕ) → read m a 1 < 2 ^ 8
  read_1 a = read-lt a 1

  All-read_array :
      {A : Type 0} (P : A → Type 0) (one : ℕ → A) (width a n : ℕ)
      → ((b : ℕ) → P (one b))
      → All P (read_array one width a n)
  unfolding read_array
  All-read_array P one width a zero h = tt
  All-read_array P one width a (suc n) h = (h a, All-read_array P one width (a + width) n h)

  length-read_array :
      {A : Type 0} (one : ℕ → A) (width a n : ℕ) → length (read_array one width a n) ≡ n
  unfolding read_array
  length-read_array one width a zero = refl
  length-read_array one width a (suc n) = ap suc (length-read_array one width (a + width) n)

  read_location-LocationFits : (a : ℕ) → LocationFits (read_location m a)
  unfolding read_location
  read_location-LocationFits a = record {
    kind = read_1 a;
    reserved = read_1 (a + 1);
    size = read_2 (a + 2);
    dwarf_reg_num = read_2 (a + 4);
    reserved2 = read_2 (a + 6);
    offset = read_4 (a + 8);
  }

  read_liveout-LiveOutFits : (a : ℕ) → LiveOutFits (read_liveout m a)
  unfolding read_liveout
  read_liveout-LiveOutFits a = record {
    dwarf_reg_num = read_2 a;
    reserved = read_1 (a + 2);
    size = read_1 (a + 3);
  }

  read_size_records-Fits : (a i n : ℕ) → AllFrom SizeRecordFits i (read_size_records m a i n)
  unfolding read_size_records
  read_size_records-Fits a i zero = tt
  read_size_records-Fits a i (suc n) = (
    record {
      fun_addr = read_8 a;
      stack_size = read_8 (a + 8);
      record_count = read_8 (a + 16);
      index = refl;
    },
    read_size_records-Fits (a + size_record_size) (i + 1) n,
  )

  length-read_size_records : (a i n : ℕ) → length (read_size_records m a i n) ≡ n
  unfolding read_size_records
  length-read_size_records a i zero = refl
  length-read_size_records a i (suc n) =
      ap suc (length-read_size_records (a + size_record_size) (i + 1) n)

  read_map_record-Fits : (a i : ℕ) → MapRecordFits i (read_map_record m a i).0
  unfolding read_map_record
  read_map_record-Fits a i = record {
    patchpoint_id = read_8 a;
    instr_offset = read_4 (a + 8);
    reserved = read_2 (a + 12);
    num_locations = read_2 (a + 14);
    locations_length = length-read_array (read_location m) location_size _ _;
    locations =
        All-read_array LocationFits (read_location m) location_size _ _ read_location-LocationFits;
    num_liveouts = read_2 _;
    liveouts_length = length-read_array (read_liveout m) liveout_size _ _;
    liveouts =
        All-read_array LiveOutFits (read_liveout m) liveout_size _ _ read_liveout-LiveOutFits;
    index = refl;
  }

  read_map_records-Fits : (a i n : ℕ) → AllFrom MapRecordFits i (read_map_records m a i n)
  unfolding read_map_records
  read_map_records-Fits a i zero = tt
  read_map_records-Fits a i (suc n) =
      (read_map_record-Fits a i, read_map_records-Fits (read_map_record m a i).1 (i + 1) n)

  length-read_map_records : (a i n : ℕ) → length (read_map_records m a i n) ≡ n
  unfolding read_map_records
  length-read_map_records a i zero = refl
  length-read_map_records a i (suc n) =
      ap suc (length-read_map_records (read_map_record m a i).1 (i + 1) n)

  -- Whatever bytes memory holds, `stmap_create` returns a stack map whose fields are in the ranges of
  -- their C types, whose arrays are as long as the counts beside them say, and whose records carry
  -- their positions.
  pub create-StackMapFits : (start : ℕ) → StackMapFits (create m start)
  unfolding create
  create-StackMapFits start = record {
    version = read_1 start;
    reserved = read_1 (start + 1);
    reserved2 = read_2 (start + 2);
    num_func = read_4 (start + 4);
    num_const = read_4 (start + 8);
    num_rec = read_4 (start + 12);
    func_length = length-read_size_records _ 0 _;
    const_length = length-read_array (λ a. read m a 8) 8 _ _;
    rec_length = length-read_map_records _ 0 _;
    size_records = read_size_records-Fits _ 0 _;
    constants = All-read_array (λ c. c < 2 ^ 64) (λ a. read m a 8) 8 _ _ read_8;
    map_records = read_map_records-Fits _ 0 _;
  }
