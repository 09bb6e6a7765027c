-- ===== src/CallStack/Unwind.antt =====
-- `get_registers` and `get_call_stack_state`: libunwind's cursor is the list of the frames that
-- `unw_step` would still move to, each with what `unw_get_reg` and `unw_get_proc_name` tell of it.
pub mod Frames
use llvm_guard_handler.Base.{
  ℕ, false, List, [], ◌∷◌, ◌==◌, if◌then◌else◌, add64, Result, ok, ◌>>=◌, require, out_of_bounds,
  get_elem?, length,
}
use llvm_guard_handler.Memory.{Memory, read64}
use llvm_guard_handler.Elf.{same_string}
use llvm_guard_handler.CallStack.{Frame, CallStackState, RegNum, addr_size}

-- A frame as libunwind shows it: its instruction pointer, its registers by number and the name of
-- its function.
pub record Unwound : Type 0 where
  pub ip : ℕ
  pub reg : ℕ → ℕ
  pub proc_name : List ℕ

-- "main".
abbrev pub main_name : List ℕ
main_name = b'm' ∷ b'a' ∷ b'i' ∷ b'n' ∷ []

module _ (u : RegNum) where
  unfoldable pub get_registers : Unwound → List ℕ
  get_registers c =
      c.reg u.rax
      ∷ c.reg u.rdx
      ∷ c.reg u.rcx
      ∷ c.reg u.rbx
      ∷ c.reg u.rsi
      ∷ c.reg u.rdi
      ∷ c.reg u.rbp
      ∷ c.reg u.rsp
      ∷ c.reg u.r8
      ∷ c.reg u.r9
      ∷ c.reg u.r10
      ∷ c.reg u.r11
      ∷ c.reg u.r12
      ∷ c.reg u.r13
      ∷ c.reg u.r14
      ∷ c.reg u.r15
      ∷ []

  -- The frame that a round appends; `fresh` is what `realloc` leaves in the other fields.
  unfoldable pub unwound_frame : Memory → Frame → Unwound → Result Frame
  unfolding get_registers
  unwound_frame m fresh c = do
    let registers = get_registers c
    rbp ← require (get_elem? registers u.rbp) out_of_bounds
    ok (record fresh {
      registers = registers;
      ret_addr = add64 rbp addr_size;
      stored_ret_addr = read64 m (add64 rbp addr_size);
      bp = rbp;
      real_bp = rbp;
      inlined = false;
    })

  -- The loop, which stops below a frame with a zero instruction pointer and at `main`.
  unfoldable pub unwind : Memory → Frame → List Unwound → Result (List Frame)
  unwind m fresh [] = ok []
  unwind m fresh (c ∷ cs) =
      let below = unwind m fresh cs in
      if c.ip == 0 then ok [] else (do
        frame ← unwound_frame m fresh c
        rest ← (if same_string c.proc_name main_name then ok [] else below)
        ok (frame ∷ rest))

  unfoldable pub get_call_stack_state : Memory → Frame → List Unwound → Result CallStackState
  unfolding unwind unwound_frame
  get_call_stack_state m fresh cursor = do
    frames ← unwind m fresh cursor
    ok (record { frames = frames; depth = length frames })
