-- ===== src/Guard/Rebuilt.antt =====
-- The end of `__guard_failure` in guard.c where calls were inlined: the stack is rebuilt.
pub mod Copied
pub mod Frames
use llvm_guard_handler.Base.{
  sub64, arith, ℕ, ◌+◌, ◌-◌, ◌≤◌, ◌<◌, ◌≡◌, refl, sym, subst, ap, ◌∙◌, ◌⊎◌, true, some, List, [],
  ◌∷◌, get_elem?, get_last?, take, Result, ok,
}
use llvm_guard_handler.Memory.{Memory, read64, read, load, of_bytes}
use llvm_guard_handler.StackMap.{StackMap}
use llvm_guard_handler.CallStack.{Frame, CallStackState, RestoredSegment, register_count}
use llvm_guard_handler.CallStack.Frames.{get_total_stack_size, restore_register_state}
use llvm_guard_handler.CallStack.Segment.Layout.{
  above, end_of, Roomy, Laid, placed, Outside, HaveReturns,
}
use llvm_guard_handler.CallStack.Segment.Chain.{
  get_last?-placed, linked, runs, insert_real_addresses-Laid,
}
use llvm_guard_handler.CallStack.Segment.{insert_real_addresses}
use llvm_guard_handler.CallStack.Locations.{restore_unopt_stack}
use llvm_guard_handler.CallStack.Locations.Pairs.{Job}
use llvm_guard_handler.CallStack.Locations.Stack.{
  Ready, Off, Transferred, restore_unopt_stack-Transferred,
}
use llvm_guard_handler.Guard.{
  Globals, Exit, Environment, restore_inlined, install, jump_inlined, resume,
}
use llvm_guard_handler.Guard.Machine.{Cpu, run_restore_inlined}
use llvm_guard_handler.Guard.Grow.{jump_inlined-install}
use llvm_guard_handler.Guard.Relink.{install-Laid}
use llvm_guard_handler.Guard.Rebuilt.Copied.{Apart, install-copies}
use llvm_guard_handler.Guard.Rebuilt.Frames.{
  Alike, Transferred-Alike, Clear, Laid-Clear, Alike-cons, install-Alike,
}

read64_agree : (m m' : Memory) (a : ℕ) → load m' a 8 ≡ load m a 8 → read64 m' a ≡ read64 m a
unfolding read64 read
read64_agree m m' a e = ap of_bytes e

-- The steps of the end of the handler.
resume_steps :
    (env : Environment) (sm : StackMap) (addr : ℕ) (state state₁ : CallStackState)
    (globals : Globals) (m m₁ m₂ : Memory) (fuel : ℕ) (first : Frame) (rest : List Frame)
    (exit : Exit)
    → let seg : RestoredSegment = record {
      start_addr = env.segment_addr;
      total_size = get_total_stack_size state;
    } in
      let state₂ : CallStackState = record state₁ { frames = first ∷ rest } in
      let r = take register_count first.registers in
      insert_real_addresses env.unw state seg m ≡ ok (state₁, m₁)
      → restore_unopt_stack env.unw sm env.stray state₁ m₁ ≡ ok (state₂, m₂)
      → jump_inlined env.unw env.call_size fuel env.rsp
          (record globals { r = r; addr = addr })
          state₂
          seg
          m₂
        ≡ ok exit
      → resume env sm addr state true globals m fuel ≡ ok exit
unfolding resume restore_register_state
resume_steps env sm addr state state₁ globals m m₁ m₂ fuel first rest exit e₁ e₂ e₃ =
    rw (e₁, e₂, e₃) refl

module _ (env : Environment) (sm : StackMap) (m : Memory) (f g last : Frame) (fs : List Frame)
    (depth main_bp : ℕ) where
  open env use {unw, stray, segment_addr}

  abbrev pub inlined_stack : CallStackState
  inlined_stack = record { frames = f ∷ g ∷ fs; depth = depth }

  abbrev pub segment : RestoredSegment
  segment = record { start_addr = segment_addr; total_size = get_total_stack_size inlined_stack }

  -- The first base pointer, in the segment and in the stack.
  abbrev pub first_bp : ℕ
  first_bp = segment_addr + f.size - 8

  abbrev pub stack_bp : ℕ
  stack_bp = main_bp + f.size - 8

  -- The frames and memory after `insert_real_addresses`.
  abbrev pub inserted : List Frame
  inserted = placed first_bp (f ∷ g ∷ fs)

  abbrev pub inserted_memory : Memory
  inserted_memory = linked unw segment m f g last fs depth main_bp

  -- The frames fit the segment and the stack, which do not meet; the values can be moved, and their
  -- places do not meet the layout.
  pub record Rebuildable (jss : List (List Job)) : Type 0 where
    pub pos : 0 < segment_addr
    pub big : 8 ≤ f.size
    pub room : Roomy first_bp (f ∷ g ∷ fs)
    pub stack_room : Roomy stack_bp (f ∷ g ∷ fs)
    pub returns : HaveReturns m segment_addr (end_of first_bp (f ∷ g ∷ fs)) (f ∷ g ∷ fs)
    pub is_last : get_last? (f ∷ g ∷ fs) ≡ some last
    pub has_bp : get_elem? last.registers unw.rbp ≡ some main_bp
    pub bp_outside : Outside segment_addr (end_of first_bp (f ∷ g ∷ fs)) last.bp
    pub ret_outside : Outside segment_addr (end_of first_bp (f ∷ g ∷ fs)) last.ret_addr
    pub apart :
        (main_bp + segment.total_size ≤ segment_addr)
        ⊎ (segment_addr + segment.total_size ≤ main_bp)
    pub ready : Ready unw sm stray inserted_memory inserted jss
    pub clear : Clear (λ a. Off unw sm stray a 8 inserted jss) first_bp (f ∷ g ∷ fs)

  -- The run ends at `restore_inlined`: every live value is in its place; the stack is laid out from
  -- main's base pointer on with all return addresses, and other bytes of the segment stand at the same
  -- offset of it; and `restore_inlined` goes to `addr`, with the registers of the first frame and
  -- pointers into the new stack.
  abbrev pub Rebuilds : List (List Job) → ℕ → Cpu → Result Exit → Type 0
  Rebuilds jss addr cpu result =
      (first : Frame) × (rest : List Frame) × (m' : Memory) × (exit : Exit) × (result ≡ ok exit)
      × (exit.label ≡ restore_inlined)
      × Transferred unw sm stray m' inserted jss (first ∷ rest)
      × Laid m exit.memory stack_bp (f ∷ g ∷ fs)
      × ((k n : ℕ)
          → k + n ≤ segment.total_size
          → Apart (segment_addr + k) n first_bp (f ∷ g ∷ fs)
          → load exit.memory (main_bp + k) n ≡ load m' (segment_addr + k) n)
      × let gs = exit.globals in
        let after =
          run_restore_inlined gs.r gs.addr gs.restored_bp gs.restored_stack_size exit.memory cpu in
        (gs.r ≡ take register_count first.registers)
        × (after.rip ≡ addr)
        × (after.rbp ≡ stack_bp)
        × (after.rsp ≡ main_bp)

  -- `resume` is run where calls were inlined, on at least two frames, with these conditions: the
  -- frames between the first and the last have room for a base pointer; no address wraps in the
  -- segment nor in its copy at main's base pointer, and the two do not meet; main's frame and the
  -- return addresses are outside the segment; the live values of the placed frames can be moved as
  -- `restore_unopt_stack` needs it, and their places do not meet the return addresses and saved
  -- base pointers of the segment; calls take up stack, a call fits below the highest stack pointer
  -- that leaves room for the segment under main's base pointer, and the fuel exceeds the stack
  -- pointer.
  -- Then it ends at `restore_inlined`: every live value is in its place; the stack is laid out
  -- from main's base pointer on with all return addresses and all saved base pointers but the
  -- last, and other bytes of the segment stand at the same offset of it; and `restore_inlined`
  -- goes to `addr` with rbp at the first saved base pointer, rsp at main's, and `r` the registers
  -- of the first frame.
  pub resume-Rebuilt :
      (jss : List (List Job)) (globals : Globals) (addr fuel : ℕ) (cpu : Cpu)
      → Rebuildable jss
      → 0 < env.call_size
      → env.call_size ≤ sub64 main_bp segment.total_size
      → env.rsp < fuel
      → Rebuilds jss addr cpu (resume env sm addr inlined_stack true globals m fuel)
  unfolding install run_restore_inlined placed
  resume-Rebuilt jss globals addr fuel cpu h pos fits enough =
      let (m₁, e₁, laid₁, total) =
        insert_real_addresses-Laid unw segment m f g last fs depth main_bp h.pos h.big h.room
          h.returns h.is_last h.has_bp h.bp_outside h.ret_outside in
      let ran = runs unw segment m f g last fs depth main_bp h.big h.room h.is_last h.has_bp in
      let known : m₁ ≡ inserted_memory = cc in
      let (fs', m', e₂, moved, same) =
        restore_unopt_stack-Transferred unw sm stray (record inlined_stack { frames = inserted })
          inserted_memory jss h.ready in
      let (alike, ends) = Transferred-Alike unw sm stray m' inserted jss fs' moved in
      let p = record f { bp = first_bp; ret_addr = first_bp + 8 } in
      let ps = placed (above first_bp g) (g ∷ fs) in
      let (first, rest, here, bp, size, others) = Alike-cons p ps fs' alike in
      let r = take register_count first.registers in
      let globals' = record globals { r = r; addr = addr } in
      let state' : CallStackState = record inlined_stack { frames = first ∷ rest } in
      let is_last : get_last? (first ∷ rest) ≡ some last =
        rw here at ends ∙ get_last?-placed first_bp (f ∷ g ∷ fs) ∙ h.is_last in
      let (n, le, low, high, short, runs_on) =
        jump_inlined-install unw env.call_size globals' state' segment m' last first main_bp env.rsp
          is_last h.has_bp refl pos fits in
      let jumped = runs_on fuel (omega arith) in
      let installed = install-Alike globals' p first ps rest main_bp segment m' bp size others in
      let laid' : Laid m m' first_bp (f ∷ g ∷ fs) =
        Laid-Clear (λ a. Off unw sm stray a 8 inserted jss) m inserted_memory m' first_bp
          (f ∷ g ∷ fs) (λ a off. read64_agree inserted_memory m' a (same a 8 off)) h.clear
          (subst (λ (x : Memory). Laid m x first_bp (f ∷ g ∷ fs)) known laid₁) in
      let (there, rbp, rsp) =
        install-Laid globals' segment m m' f g fs main_bp r cpu h.big h.room h.stack_room total
          h.apart laid' in
      (
        first,
        rest,
        m',
        install globals' p ps main_bp segment m',
        resume_steps env sm addr inlined_stack (record inlined_stack { frames = inserted }) globals
            m inserted_memory m' fuel first rest (install globals' p ps main_bp segment m') ran
            (e₂ ∙ ap (λ (x : List Frame). ok (record inlined_stack { frames = x }, m')) here)
            (jumped ∙ ap ok installed),
        refl,
        subst (λ x. Transferred unw sm stray m' inserted jss x) here moved,
        there,
        λ k n le off. install-copies globals' segment m' f g fs first_bp main_bp k n h.apart le off,
        (refl, refl, rbp, rsp),
      )
