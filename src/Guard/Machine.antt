-- ===== src/Guard/Machine.antt =====
-- src/stackmap_checker/jump.s: the registers are loaded from `r` and control goes to `addr`.
use llvm_guard_handler.Base.{ℕ, List, get_or, add64, sub64}
use llvm_guard_handler.Memory.{Memory, read64}

-- The general purpose registers and the instruction pointer.
pub record Cpu : Type 0 where
  pub rax : ℕ
  pub rbx : ℕ
  pub rcx : ℕ
  pub rdx : ℕ
  pub rsi : ℕ
  pub rdi : ℕ
  pub rbp : ℕ
  pub rsp : ℕ
  pub r8 : ℕ
  pub r9 : ℕ
  pub r10 : ℕ
  pub r11 : ℕ
  pub r12 : ℕ
  pub r13 : ℕ
  pub r14 : ℕ
  pub r15 : ℕ
  pub rip : ℕ

-- `mov r+8k, reg` for each register that the two routines load.
unfoldable pub load_registers : List ℕ → Cpu → Cpu
load_registers r cpu = record cpu {
  rax = get_or r 0 0;
  rcx = get_or r 1 0;
  rdx = get_or r 2 0;
  rbx = get_or r 3 0;
  rsi = get_or r 6 0;
  rdi = get_or r 7 0;
  r8 = get_or r 8 0;
  r9 = get_or r 9 0;
  r10 = get_or r 10 0;
  r11 = get_or r 11 0;
  r12 = get_or r 12 0;
  r13 = get_or r 13 0;
  r14 = get_or r 14 0;
  r15 = get_or r 15 0;
}

-- `mov %rbp, %rsp; pop %rbp; add $0x8, %rsp`: the frame of the handler is dropped.
unfoldable pub leave_handler : Memory → Cpu → Cpu
leave_handler m cpu = record cpu { rbp = read64 m cpu.rbp; rsp = add64 (add64 cpu.rbp 8) 8 }

-- `jmp_to_addr`.
unfoldable pub run_jmp_to_addr : List ℕ → ℕ → Memory → Cpu → Cpu
unfolding load_registers leave_handler
run_jmp_to_addr r addr m cpu = record (leave_handler m (load_registers r cpu)) { rip = addr }

-- `restore_inlined`.
unfoldable pub run_restore_inlined : List ℕ → ℕ → ℕ → ℕ → Memory → Cpu → Cpu
unfolding load_registers leave_handler
run_restore_inlined r addr restored_bp restored_stack_size m cpu =
    let cpu' = leave_handler m cpu in
    let cpu'' = record cpu' { rbp = restored_bp; rsp = sub64 restored_bp restored_stack_size } in
    record (load_registers r cpu'') { rip = addr }
