-- ===== src/CallStack.antt =====
-- The data of src/stackmap_checker/call_stack_state.h; the functions of call_stack_state.c are in the
-- children.
pub mod Blocks
pub mod Collect
pub mod Frames
pub mod Inlined
pub mod Locations
pub mod Segment
pub mod Unwind
use llvm_guard_handler.Base.{ℕ, Bool, List}
use llvm_guard_handler.StackMap.{StackMapRecord}

abbrev pub register_count : ℕ
register_count = 16

-- sizeof(void *).
abbrev pub addr_size : ℕ
addr_size = 8

-- `frame_t`. The pointer `registers` leads to an array of its own for each frame, so the frame holds
-- that array.
pub record Frame : Type 0 where
  pub ret_addr : ℕ
  pub stored_ret_addr : ℕ
  pub size : ℕ
  pub bp : ℕ
  pub real_bp : ℕ
  pub registers : List ℕ
  pub record_of : StackMapRecord
  pub real_record : StackMapRecord
  pub inlined : Bool

-- `call_stack_state_t`.
pub record CallStackState : Type 0 where
  pub frames : List Frame
  pub depth : ℕ

-- `restored_segment_t`.
pub record RestoredSegment : Type 0 where
  pub start_addr : ℕ
  pub total_size : ℕ

-- The numbers that libunwind gives to the x86-64 registers, a parameter of the model.
pub record RegNum : Type 0 where
  pub rax : ℕ
  pub rdx : ℕ
  pub rcx : ℕ
  pub rbx : ℕ
  pub rsi : ℕ
  pub rdi : ℕ
  pub rbp : ℕ
  pub rsp : ℕ
  pub r8 : ℕ
  pub r9 : ℕ
  pub r10 : ℕ
  pub r11 : ℕ
  pub r12 : ℕ
  pub r13 : ℕ
  pub r14 : ℕ
  pub r15 : ℕ
