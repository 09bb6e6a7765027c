-- ===== src/CallStack/Unwind/Frames.antt =====
-- The frames that `get_call_stack_state` reads off the stack.
use llvm_guard_handler.Base.{
  ◌≡◌, ◌≢◌, refl, ap, ◌⊎◌, inl, inr, true, false, Bool-cases, some, List, [], ◌∷◌, tests, ◌==◌,
  add64, length, get_elem?, ok,
}
use llvm_guard_handler.Memory.{Memory, read64}
use llvm_guard_handler.Elf.{same_string}
use llvm_guard_handler.CallStack.{Frame, CallStackState, RegNum, addr_size}
use llvm_guard_handler.CallStack.Unwind.{
  Unwound, main_name, get_registers, unwound_frame, unwind, get_call_stack_state,
}

module _ (u : RegNum) (m : Memory) where
  -- A frame as the stack has it: its base pointer is that of the cursor, and the slot of the return
  -- address stands above it.
  pub record IsFrame (c : Unwound) (f : Frame) : Type 0 where
    pub registers : f.registers ≡ get_registers u c
    pub bp : f.bp ≡ c.reg u.rbp
    pub real_bp : f.real_bp ≡ f.bp
    pub rbp : get_elem? f.registers u.rbp ≡ some f.bp
    pub slot : f.ret_addr ≡ add64 f.bp addr_size
    pub stored : f.stored_ret_addr ≡ read64 m f.ret_addr
    pub own : f.inlined ≡ false

  -- The frames are those of the cursor's positions before the first with a zero instruction pointer,
  -- up to that of main.
  abbrev pub Unwinds : List Unwound → List Frame → Type 0
  Unwinds [] fs = fs ≡ []
  Unwinds (c ∷ cs) fs =
      (c.ip ≡ 0) × (fs ≡ [])
      ⊎ (f : Frame) × (rest : List Frame) × (c.ip ≢ 0)
        × (fs ≡ f ∷ rest)
        × IsFrame c f
        × ((same_string c.proc_name main_name ≡ true) × (rest ≡ [])
            ⊎ (same_string c.proc_name main_name ≡ false) × Unwinds cs rest)

  unwound_frame-IsFrame :
      (fresh : Frame) (c : Unwound)
      → u.rbp ≡ 6
      → (f : Frame) × (unwound_frame u m fresh c ≡ ok f) × IsFrame c f
  unfolding unwound_frame get_registers
  unwound_frame-IsFrame fresh c six =
      let at : get_elem? (get_registers u c) u.rbp ≡ some (c.reg u.rbp) =
        ap (get_elem? (get_registers u c)) six in
      (
        record fresh {
          registers = get_registers u c;
          ret_addr = add64 (c.reg u.rbp) addr_size;
          stored_ret_addr = read64 m (add64 (c.reg u.rbp) addr_size);
          bp = c.reg u.rbp;
          real_bp = c.reg u.rbp;
          inlined = false;
        },
        rw at refl,
        record {
          registers = refl;
          bp = refl;
          real_bp = refl;
          rbp = at;
          slot = refl;
          stored = refl;
          own = refl;
        },
      )

  unwind-Unwinds :
      (fresh : Frame) (cs : List Unwound)
      → u.rbp ≡ 6
      → (fs : List Frame) × (unwind u m fresh cs ≡ ok fs) × Unwinds cs fs
  unfolding unwind
  unwind-Unwinds fresh [] six = ([], refl, refl)
  unwind-Unwinds fresh (c ∷ cs) six =
      let (f, e, is) = unwound_frame-IsFrame fresh c six in
      let (rest, e', unwinds) = unwind-Unwinds fresh cs six in
      elim (Bool-cases (c.ip == 0)) [
        | inl stop ↦ ([], rw stop refl, inl (omega (tests, stop), refl))
        | inr go ↦ elim (Bool-cases (same_string c.proc_name main_name)) [
          | inl main ↦ (
            f ∷ [],
            rw (go, e, main) refl,
            inr (f, [], omega (tests, go), refl, is, inl (main, refl)),
          )
          | inr other ↦ (
            f ∷ rest,
            rw (go, e, other, e') refl,
            inr (f, rest, omega (tests, go), refl, is, inr (other, unwinds)),
          )
        ]
      ]

  -- With libunwind's number of rbp, under which `get_registers` stores it, `get_call_stack_state`
  -- returns a state whose depth is the number of its frames; these are the frames of the cursor's
  -- positions before the first with a zero instruction pointer, up to that of main, each with its
  -- base pointer, the registers, the slot of its return address and what stands in that slot.
  pub get_call_stack_state-Unwinds :
      (fresh : Frame) (cs : List Unwound)
      → u.rbp ≡ 6
      → (state : CallStackState) × (get_call_stack_state u m fresh cs ≡ ok state)
        × (state.depth ≡ length state.frames)
        × Unwinds cs state.frames
  unfolding get_call_stack_state
  get_call_stack_state-Unwinds fresh cs six =
      let (fs, e, unwinds) = unwind-Unwinds fresh cs six in
      (record { frames = fs; depth = length fs }, rw e refl, refl, unwinds)
