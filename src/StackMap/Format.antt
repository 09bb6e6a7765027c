-- ===== src/StackMap/Format.antt =====
-- The layout of the .llvm_stackmaps section, version 3, as LLVM documents it: what a compiler writes.
-- It is the specification that `create` is held to. Every writer takes the bytes that follow.
use llvm_guard_handler.Base.{
  ℕ, ◌+◌, ◌-◌, ◌*◌, ◌%◌, ◌^◌, ◌<◌, ◌≡◌, List, [], ◌∷◌, ◌++◌, length, replicate, All,
}
use llvm_guard_handler.Memory.{to_bytes}
use llvm_guard_handler.StackMap.{Location, LiveOut, StackMapRecord, StackSizeRecord, StackMap}

-- Zero bytes up to the next multiple of 8, behind `n` bytes.
unfoldable pub padding : ℕ → List ℕ
padding n = replicate ((8 - n % 8) % 8) 0

unfoldable pub put_location : Location → List ℕ → List ℕ
put_location l rest =
    to_bytes 1 l.kind
    ++ (to_bytes 1 l.reserved
        ++ (to_bytes 2 l.size
            ++ (to_bytes 2 l.dwarf_reg_num
                ++ (to_bytes 2 l.reserved2 ++ (to_bytes 4 l.offset ++ rest)))))

unfoldable pub put_liveout : LiveOut → List ℕ → List ℕ
put_liveout l rest =
    to_bytes 2 l.dwarf_reg_num ++ (to_bytes 1 l.reserved ++ (to_bytes 1 l.size ++ rest))

unfoldable pub put_all : {A : Type 0} → (A → List ℕ → List ℕ) → List A → List ℕ → List ℕ
put_all put [] rest = rest
put_all put (x ∷ xs) rest = put x (put_all put xs rest)

unfoldable pub put_size_record : StackSizeRecord → List ℕ → List ℕ
put_size_record r rest =
    to_bytes 8 r.fun_addr ++ (to_bytes 8 r.stack_size ++ (to_bytes 8 r.record_count ++ rest))

-- The locations, and behind them a 16-bit gap and the live-outs, end on multiples of 8.
unfoldable pub put_map_record : StackMapRecord → List ℕ → List ℕ
put_map_record r rest =
    to_bytes 8 r.patchpoint_id
    ++ (to_bytes 4 r.instr_offset
        ++ (to_bytes 2 r.reserved
            ++ (to_bytes 2 r.num_locations
                ++ put_all put_location r.locations (
                    padding (12 * r.num_locations)
                    ++ (to_bytes 2 0
                        ++ (to_bytes 2 r.num_liveouts
                            ++ put_all put_liveout r.liveouts
                                (padding (4 + 4 * r.num_liveouts) ++ rest)))))))

unfoldable pub put_constant : ℕ → List ℕ → List ℕ
put_constant c rest = to_bytes 8 c ++ rest

unfoldable pub put_stack_map : StackMap → List ℕ → List ℕ
put_stack_map sm rest =
    to_bytes 1 sm.version
    ++ (to_bytes 1 sm.reserved
        ++ (to_bytes 2 sm.reserved2
            ++ (to_bytes 4 sm.num_func
                ++ (to_bytes 4 sm.num_const
                    ++ (to_bytes 4 sm.num_rec
                        ++ put_all put_size_record sm.stk_size_records (
                            put_all put_constant sm.constants
                              (put_all put_map_record sm.stk_map_records rest)))))))

-- Every field is in the range of its C type, the counts are the lengths of the arrays, and records
-- carry their positions.
pub record LocationFits (l : Location) : Type 0 where
  pub kind : l.kind < 2 ^ 8
  pub reserved : l.reserved < 2 ^ 8
  pub size : l.size < 2 ^ 16
  pub dwarf_reg_num : l.dwarf_reg_num < 2 ^ 16
  pub reserved2 : l.reserved2 < 2 ^ 16
  pub offset : l.offset < 2 ^ 32

pub record LiveOutFits (l : LiveOut) : Type 0 where
  pub dwarf_reg_num : l.dwarf_reg_num < 2 ^ 16
  pub reserved : l.reserved < 2 ^ 8
  pub size : l.size < 2 ^ 8

pub record SizeRecordFits (i : ℕ) (r : StackSizeRecord) : Type 0 where
  pub fun_addr : r.fun_addr < 2 ^ 64
  pub stack_size : r.stack_size < 2 ^ 64
  pub record_count : r.record_count < 2 ^ 64
  pub index : r.index ≡ i

pub record MapRecordFits (i : ℕ) (r : StackMapRecord) : Type 0 where
  pub patchpoint_id : r.patchpoint_id < 2 ^ 64
  pub instr_offset : r.instr_offset < 2 ^ 32
  pub reserved : r.reserved < 2 ^ 16
  pub num_locations : r.num_locations < 2 ^ 16
  pub locations_length : length r.locations ≡ r.num_locations
  pub locations : All LocationFits r.locations
  pub num_liveouts : r.num_liveouts < 2 ^ 16
  pub liveouts_length : length r.liveouts ≡ r.num_liveouts
  pub liveouts : All LiveOutFits r.liveouts
  pub index : r.index ≡ i

abbrev pub AllFrom : {A : Type 0} → (ℕ → A → Type 0) → ℕ → List A → Type 0
AllFrom P i [] = Unit
AllFrom P i (x ∷ xs) = P i x × AllFrom P (i + 1) xs

pub record StackMapFits (sm : StackMap) : Type 0 where
  pub version : sm.version < 2 ^ 8
  pub reserved : sm.reserved < 2 ^ 8
  pub reserved2 : sm.reserved2 < 2 ^ 16
  pub num_func : sm.num_func < 2 ^ 32
  pub num_const : sm.num_const < 2 ^ 32
  pub num_rec : sm.num_rec < 2 ^ 32
  pub func_length : length sm.stk_size_records ≡ sm.num_func
  pub const_length : length sm.constants ≡ sm.num_const
  pub rec_length : length sm.stk_map_records ≡ sm.num_rec
  pub size_records : AllFrom SizeRecordFits 0 sm.stk_size_records
  pub constants : All (λ c. c < 2 ^ 64) sm.constants
  pub map_records : AllFrom MapRecordFits 0 sm.stk_map_records
