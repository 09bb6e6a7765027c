-- ===== src/CallStack/Segment/Chain.antt =====
-- The segment that `insert_real_addresses` leaves.
use llvm_guard_handler.Base.{
  ℕ, ◌+◌, ◌-◌, ◌≤◌, ◌<◌, ◌≡◌, refl, ap, ◌∙◌, none, some, List, [], ◌∷◌, arith, add64, sub64,
  get_elem?, get_last?, ok,
}
use llvm_guard_handler.Memory.{Memory, read64, write64}
use llvm_guard_handler.Memory.Laws.{read64-write64_ne}
use llvm_guard_handler.CallStack.{Frame, CallStackState, RestoredSegment, RegNum, addr_size}
use llvm_guard_handler.CallStack.Frames.{total_from, get_total_stack_size}
use llvm_guard_handler.CallStack.Segment.{place_from, link_main, insert_real_addresses}
use llvm_guard_handler.CallStack.Segment.Layout.{
  above, end_of, Roomy, Laid, placed, Outside, HaveReturns,
}
use llvm_guard_handler.CallStack.Segment.Placing.{place-Laid, place-placed, end_of-ge, room_of}

pub get_last?-placed : (cur : ℕ) (fs : List Frame) → get_last? (placed cur fs) ≡ get_last? fs
unfolding placed
get_last?-placed cur [] = refl
get_last?-placed cur (f ∷ []) = refl
get_last?-placed cur (f ∷ g ∷ []) = refl
get_last?-placed cur (f ∷ g ∷ h ∷ fs) = get_last?-placed (above cur g) (g ∷ h ∷ fs)

-- The layout depends on the words of the segment only.
pub Laid-agree :
    (m₀ m m' : Memory) (lo hi cur : ℕ) (fs : List Frame)
    → ((a : ℕ) → lo ≤ a → a + 8 ≤ hi → read64 m' a ≡ read64 m a)
    → lo ≤ cur
    → end_of cur fs ≤ hi
    → Roomy cur fs
    → Laid m₀ m cur fs
    → Laid m₀ m' cur fs
Laid-agree m₀ m m' lo hi cur [] agree le ge room laid = tt
Laid-agree m₀ m m' lo hi cur (f ∷ []) agree le ge room laid = tt
Laid-agree m₀ m m' lo hi cur (f ∷ g ∷ []) agree le ge room laid =
    agree (cur + 8) (omega arith) (omega arith) ∙ laid
Laid-agree m₀ m m' lo hi cur (f ∷ g ∷ h ∷ fs) agree le ge (room, big, rest) (slot, link, laid) =
    let far = end_of-ge (above cur g) g h fs rest in
    (
      agree (cur + 8) (omega arith) (omega arith) ∙ slot,
      agree cur le (omega arith) ∙ link,
      Laid-agree m₀ m m' lo hi (above cur g) (g ∷ h ∷ fs) agree (omega arith) ge rest laid,
    )

-- The sizes add up to the length of the segment.
total_from-end_of :
    (start acc cur : ℕ) (f g : Frame) (fs : List Frame)
    → 0 < start
    → cur + 8 ≡ start + acc + f.size
    → Roomy cur (f ∷ g ∷ fs)
    → start + total_from acc (f ∷ g ∷ fs) ≡ end_of cur (f ∷ g ∷ fs)
unfolding total_from
total_from-end_of start acc cur f g [] pos e room = omega arith
total_from-end_of start acc cur f g (h ∷ fs) pos e (room, big, rest) =
    let sum : add64 acc (add64 f.size 8) ≡ acc + f.size + 8 = omega arith in
    ap (λ (t : ℕ). start + total_from t (g ∷ h ∷ fs)) sum
    ∙ total_from-end_of start (acc + f.size + 8) (above cur g) g h fs pos (omega arith) rest

module _ (u : RegNum) (seg : RestoredSegment) (m : Memory) (f g last : Frame) (fs : List Frame)
    (depth main_bp : ℕ) where
  -- The first base pointer, and the state.
  abbrev pub first_bp : ℕ
  first_bp = seg.start_addr + f.size - 8

  abbrev pub stack : CallStackState
  stack = record { frames = f ∷ g ∷ fs; depth = depth }

  -- Memory after the loop, and after the link with main's frame.
  abbrev pub looped : Memory
  looped = (place_from m none first_bp (f ∷ g ∷ fs)).1

  abbrev pub linked : Memory
  linked =
      let m' = write64 looped last.bp main_bp in
      write64 m' last.ret_addr (read64 m' (add64 main_bp addr_size))

  pub runs :
      8 ≤ f.size
      → Roomy first_bp (f ∷ g ∷ fs)
      → get_last? (f ∷ g ∷ fs) ≡ some last
      → get_elem? last.registers u.rbp ≡ some main_bp
      → insert_real_addresses u stack seg m
        ≡ ok (record stack { frames = placed first_bp (f ∷ g ∷ fs) }, linked)
  unfolding insert_real_addresses link_main
  runs big room el er =
      let far = room_of first_bp f g fs room in
      let cur : sub64 (add64 seg.start_addr f.size) addr_size ≡ first_bp = omega arith in
      rw (
        cur,
        place-placed m none first_bp (f ∷ g ∷ fs) room,
        get_last?-placed first_bp (f ∷ g ∷ fs),
        el,
        er,
      )

  -- If the frames between the first and the last have room for a base pointer, no address wraps, and
  -- the return addresses and main's frame are outside the segment, then `insert_real_addresses`
  -- fills the segment exactly: it is as long as `get_total_stack_size` says, in it every frame has
  -- its return address, which is that of an inlined call, and else what memory has at the address of
  -- the return address; every saved base pointer but the last is the address of the next one; and
  -- the frames are told their places.
  pub insert_real_addresses-Laid :
      0 < seg.start_addr
      → 8 ≤ f.size
      → Roomy first_bp (f ∷ g ∷ fs)
      → let hi = end_of first_bp (f ∷ g ∷ fs) in
        HaveReturns m seg.start_addr hi (f ∷ g ∷ fs)
        → get_last? (f ∷ g ∷ fs) ≡ some last
        → get_elem? last.registers u.rbp ≡ some main_bp
        → Outside seg.start_addr hi last.bp
        → Outside seg.start_addr hi last.ret_addr
        → (m' : Memory) × (insert_real_addresses u stack seg m
            ≡ ok (record stack { frames = placed first_bp (f ∷ g ∷ fs) }, m'))
          × Laid m m' first_bp (f ∷ g ∷ fs)
          × (seg.start_addr + get_total_stack_size stack ≡ end_of first_bp (f ∷ g ∷ fs))
  insert_real_addresses-Laid pos big room have el er out_bp out_ret =
      let far = room_of first_bp f g fs room in
      let hi = end_of first_bp (f ∷ g ∷ fs) in
      let (laid, same) =
        place-Laid m seg.start_addr hi m none first_bp (f ∷ g ∷ fs) room (omega arith) le_self have
          (λ a out. refl) in
      let m' = write64 looped last.bp main_bp in
      let agree = λ (a : ℕ) (lo : seg.start_addr ≤ a) (le : a + 8 ≤ hi).
        read64-write64_ne m' last.ret_addr (read64 m' (add64 main_bp addr_size)) a (omega arith)
        ∙ read64-write64_ne looped last.bp main_bp a (omega arith) in
      (
        linked,
        runs big room el er,
        Laid-agree m looped linked seg.start_addr hi first_bp (f ∷ g ∷ fs) agree (omega arith)
            le_self room laid,
        unfold get_total_stack_size in
            total_from-end_of seg.start_addr 0 first_bp f g fs pos (omega arith) room,
      )
    where
      le_self : end_of first_bp (f ∷ g ∷ fs) ≤ end_of first_bp (f ∷ g ∷ fs)
      le_self = omega arith
