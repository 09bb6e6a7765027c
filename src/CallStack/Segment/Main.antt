-- ===== src/CallStack/Segment/Main.antt =====
-- `insert_real_addresses` in call_stack_state.c: the link of the new stack with the frame of main.
use llvm_guard_handler.Base.{
  ℕ, ◌+◌, ◌-◌, ◌^◌, ◌≤◌, ◌<◌, ◌≡◌, ap, ◌∙◌, ◌⊎◌, Option, none, some, List, [], ◌∷◌, arith, add64,
  get_elem?, get_last?, ok,
}
use llvm_guard_handler.Memory.{Memory, read64, write64}
use llvm_guard_handler.Memory.Laws.{read64-write64, read64-write64_ne}
use llvm_guard_handler.CallStack.{Frame, CallStackState, RestoredSegment, RegNum, addr_size}
use llvm_guard_handler.CallStack.Segment.{place_from, insert_real_addresses}
use llvm_guard_handler.CallStack.Segment.Layout.{above, end_of, Roomy, placed}
use llvm_guard_handler.CallStack.Segment.Placing.{
  Precedes, round, read-round, place-same, place-step, end_of-ge,
}
use llvm_guard_handler.CallStack.Segment.Chain.{first_bp, stack, looped, linked, runs}

-- The loop leaves the base pointer of the last frame that it places.
place-top :
    (m : Memory) (lo : ℕ) (prev : Option ℕ) (cur : ℕ) (f g : Frame) (fs : List Frame)
    → Roomy cur (f ∷ g ∷ fs)
    → Precedes lo prev cur
    → read64 (place_from m prev cur (f ∷ g ∷ fs)).1 (end_of cur (f ∷ g ∷ fs) - 16)
      ≡ read64 m (end_of cur (f ∷ g ∷ fs) - 16)
place-top m lo none cur f g [] room pre =
    unfold place_from in read-round m none cur g (cur + 16 - 16) room tt (omega arith)
place-top m lo (some p) cur f g [] room pre =
    unfold place_from in
    read-round m (some p) cur g (cur + 16 - 16) room (omega arith) (omega arith)
place-top m lo none cur f g (h ∷ fs) (room, big, rest) pre =
    let far = end_of-ge (above cur g) g h fs rest in
    let top = end_of (above cur g) (g ∷ h ∷ fs) - 16 in
    ap (λ (x : Memory). read64 x top) (place-step m none cur f g h fs rest)
    ∙ place-top (round m none cur g) lo (some cur) (above cur g) g h fs rest (omega arith)
    ∙ read-round m none cur g top room tt (omega arith)
place-top m lo (some p) cur f g (h ∷ fs) (room, big, rest) pre =
    let far = end_of-ge (above cur g) g h fs rest in
    let top = end_of (above cur g) (g ∷ h ∷ fs) - 16 in
    ap (λ (x : Memory). read64 x top) (place-step m (some p) cur f g h fs rest)
    ∙ place-top (round m (some p) cur g) lo (some cur) (above cur g) g h fs rest (omega arith)
    ∙ read-round m (some p) cur g top room (omega arith) (omega arith)

module _ (u : RegNum) (seg : RestoredSegment) (m : Memory) (f g last : Frame) (fs : List Frame)
    (depth main_bp : ℕ) where
  -- Where the base pointer that leads to main's frame is to stand.
  abbrev pub top : ℕ
  top = end_of (first_bp u seg m f g last fs depth main_bp) (f ∷ g ∷ fs) - 16

  -- With main's frame as `get_call_stack_state` reads it, its base pointer being the register's
  -- value, and that frame outside a segment with room in which no address wraps, `insert_real_addresses`
  -- makes the base pointer that main saved point to itself and writes main's return address over
  -- itself; the base pointer of the last new frame, which is to lead to main's frame, stays what
  -- memory held before.
  pub insert_real_addresses-main :
      8 ≤ f.size
      → let cur = first_bp u seg m f g last fs depth main_bp in
        Roomy cur (f ∷ g ∷ fs)
        → get_last? (f ∷ g ∷ fs) ≡ some last
        → get_elem? last.registers u.rbp ≡ some main_bp
        → last.bp ≡ main_bp
        → last.ret_addr ≡ main_bp + 8
        → main_bp + 16 ≤ 2 ^ 64
        → read64 m (main_bp + 8) < 2 ^ 64
        → (main_bp + 16 ≤ seg.start_addr) ⊎ (end_of cur (f ∷ g ∷ fs) ≤ main_bp)
        → (state' : CallStackState) × (m' : Memory) × (insert_real_addresses u
              (stack u seg m f g last fs depth main_bp)
              seg
              m
            ≡ ok (state', m'))
          × (read64 m' main_bp ≡ main_bp)
          × (read64 m' (main_bp + 8) ≡ read64 m (main_bp + 8))
          × (read64 m' top ≡ read64 m top)
  insert_real_addresses-main big room el er at_bp at_ret wrap word out =
      let cur = first_bp u seg m f g last fs depth main_bp in
      let loop = looped u seg m f g last fs depth main_bp in
      let state' = record (stack u seg m f g last fs depth main_bp) {
        frames = placed cur (f ∷ g ∷ fs);
      } in
      let far = end_of-ge cur f g fs room in
      let ret = main_bp + 8 in
      let stepped = write64 loop main_bp main_bp in
      let kept : read64 stepped ret ≡ read64 m ret =
        read64-write64_ne loop main_bp main_bp ret (omega arith)
        ∙ place-same m none cur (f ∷ g ∷ fs) ret room tt (omega arith) in
      let slot : add64 main_bp addr_size ≡ ret = omega arith in
      let result : linked u seg m f g last fs depth main_bp
          ≡ write64 stepped ret (read64 stepped ret) =
        rw (at_bp, at_ret, slot) in
      (
        state',
        write64 stepped ret (read64 stepped ret),
        runs u seg m f g last fs depth main_bp big room el er
            ∙ ap (λ (x : Memory). ok (state', x)) result,
        read64-write64_ne stepped ret (read64 stepped ret) main_bp (omega arith)
            ∙ read64-write64 loop main_bp main_bp (omega arith),
        read64-write64 stepped ret (read64 stepped ret) (rw kept word) ∙ kept,
        read64-write64_ne stepped ret (read64 stepped ret) top (omega arith)
            ∙ read64-write64_ne loop main_bp main_bp top (omega arith)
            ∙ place-top m 0 none cur f g fs room (omega arith),
      )
