-- ===== src/StackMap.antt =====
-- The data of src/stackmap_checker/stmap.h, and its operations in the children.
pub mod Bounds
pub mod Blocks
pub mod Create
pub mod Format
pub mod Query
pub mod Sites
pub mod RoundTrip
use llvm_guard_handler.Base.{ℕ, List}

-- `location_type`.
abbrev pub register : ℕ
register = 1

abbrev pub direct : ℕ
direct = 2

abbrev pub indirect : ℕ
indirect = 3

abbrev pub constant : ℕ
constant = 4

abbrev pub const_index : ℕ
const_index = 5

-- The size of the call that a patchpoint is compiled to.
abbrev pub patchpoint_call_size : ℕ
patchpoint_call_size = 13

-- `location_t`. The int32_t `offset` is kept as its bit pattern.
pub record Location : Type 0 where
  pub kind : ℕ
  pub reserved : ℕ
  pub size : ℕ
  pub dwarf_reg_num : ℕ
  pub reserved2 : ℕ
  pub offset : ℕ

-- `liveout_t`.
pub record LiveOut : Type 0 where
  pub dwarf_reg_num : ℕ
  pub reserved : ℕ
  pub size : ℕ

-- `stack_map_record_t`. A pointer to an array of n elements is a list of n elements.
pub record StackMapRecord : Type 0 where
  pub patchpoint_id : ℕ
  pub instr_offset : ℕ
  pub reserved : ℕ
  pub num_locations : ℕ
  pub locations : List Location
  pub num_liveouts : ℕ
  pub liveouts : List LiveOut
  pub index : ℕ

-- `stack_size_record_t`.
pub record StackSizeRecord : Type 0 where
  pub fun_addr : ℕ
  pub stack_size : ℕ
  pub record_count : ℕ
  pub index : ℕ

-- `stack_map_t`.
pub record StackMap : Type 0 where
  pub version : ℕ
  pub reserved : ℕ
  pub reserved2 : ℕ
  pub num_func : ℕ
  pub num_const : ℕ
  pub num_rec : ℕ
  pub stk_size_records : List StackSizeRecord
  pub constants : List ℕ
  pub stk_map_records : List StackMapRecord

-- `stack_map_pos_t`.
pub record StackMapPos : Type 0 where
  pub stk_size_record_index : ℕ
  pub stk_map_record_index : ℕ
