-- ===== src/Guard/Registers.antt =====
-- The routines of jump.s on `r`, when it holds the registers in the order of `get_registers`.
use llvm_guard_handler.Base.{ℕ, ◌≡◌, arith}
use llvm_guard_handler.Memory.{Memory}
use llvm_guard_handler.CallStack.{RegNum}
use llvm_guard_handler.CallStack.Unwind.{Unwound, get_registers}
use llvm_guard_handler.Guard.Machine.{Cpu, run_jmp_to_addr, run_restore_inlined}

-- The registers that get back what libunwind read of them.
pub record Restores (u : RegNum) (c : Unwound) (cpu : Cpu) : Type 0 where
  pub rax : cpu.rax ≡ c.reg u.rax
  pub rbx : cpu.rbx ≡ c.reg u.rbx
  pub r8 : cpu.r8 ≡ c.reg u.r8
  pub r9 : cpu.r9 ≡ c.reg u.r9
  pub r10 : cpu.r10 ≡ c.reg u.r10
  pub r11 : cpu.r11 ≡ c.reg u.r11
  pub r12 : cpu.r12 ≡ c.reg u.r12
  pub r13 : cpu.r13 ≡ c.reg u.r13
  pub r14 : cpu.r14 ≡ c.reg u.r14
  pub r15 : cpu.r15 ≡ c.reg u.r15

-- The registers that get the value of another one.
pub record Confuses (u : RegNum) (c : Unwound) (cpu : Cpu) : Type 0 where
  pub rcx : cpu.rcx ≡ c.reg u.rdx
  pub rdx : cpu.rdx ≡ c.reg u.rcx
  pub rsi : cpu.rsi ≡ c.reg u.rbp
  pub rdi : cpu.rdi ≡ c.reg u.rsp

-- Both routines of jump.s, run on the registers as get_registers stored them, go to `addr` with rax,
-- rbx and r8 to r15 as libunwind read them; but rcx and rdx are exchanged, and rsi and rdi get the
-- values of rbp and rsp.
pub jump-registers :
    (u : RegNum) (c : Unwound) (addr bp size : ℕ) (m : Memory) (cpu : Cpu)
    → let direct = run_jmp_to_addr (get_registers u c) addr m cpu in
      let inlined = run_restore_inlined (get_registers u c) addr bp size m cpu in
      (direct.rip ≡ addr)
      × Restores u c direct
      × Confuses u c direct
      × (inlined.rip ≡ addr)
      × Restores u c inlined
      × Confuses u c inlined
unfolding run_jmp_to_addr run_restore_inlined get_registers
jump-registers u c addr bp size m cpu = ground arith
