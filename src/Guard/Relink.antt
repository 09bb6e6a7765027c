-- ===== src/Guard/Relink.antt =====
-- The second branch of `jump_inlined`: the segment is linked for its final place and copied there.
use llvm_guard_handler.Base.{
  ℕ, ◌+◌, ◌-◌, ◌≤◌, ◌≡◌, refl, sym, subst, ap, ◌∙◌, ◌⊎◌, List, [], ◌∷◌, arith, add64, sub64,
  replicate, length-replicate,
}
use llvm_guard_handler.Memory.{Memory, load, store, read64, write64}
use llvm_guard_handler.Memory.Laws.{read64-write64, read64-write64_ne}
use llvm_guard_handler.Memory.Copies.{read64-copy, read64-store_ne}
use llvm_guard_handler.CallStack.{Frame, RestoredSegment}
use llvm_guard_handler.CallStack.Segment.Layout.{due, above, end_of, Roomy, Laid, placed}
use llvm_guard_handler.CallStack.Segment.Placing.{end_of-ge, room_of}
use llvm_guard_handler.CallStack.Segment.Chain.{Laid-agree}
use llvm_guard_handler.Guard.{Globals, relink, install}
use llvm_guard_handler.Guard.Machine.{Cpu, run_restore_inlined}

-- As `Laid`, but the base pointers that stand from `cur` on are those of frames from `dest` on.
abbrev pub LaidFor : Memory → Memory → ℕ → ℕ → List Frame → Type 0
LaidFor m m' cur dest [] = Unit
LaidFor m m' cur dest (f ∷ []) = Unit
LaidFor m m' cur dest (f ∷ g ∷ []) = read64 m' (cur + 8) ≡ due m g
LaidFor m m' cur dest (f ∷ g ∷ h ∷ fs) =
    (read64 m' (cur + 8) ≡ due m g)
    × (read64 m' cur ≡ above dest g)
    × LaidFor m m' (above cur g) (above dest g) (g ∷ h ∷ fs)

-- The frames behind the first.
abbrev placed_tail : ℕ → Frame → List Frame → List Frame
placed_tail cur g fs = placed (above cur g) (g ∷ fs)

-- The frame `p` stands at `cur`; the loop does not touch what lies below.
relink-same :
    (m : Memory) (p : Frame) (cur dest : ℕ) (g : Frame) (fs : List Frame) (a : ℕ)
    → p.bp ≡ cur
    → Roomy cur (p ∷ g ∷ fs)
    → a + 8 ≤ cur
    → read64 (relink m p dest (placed_tail cur g fs)) a ≡ read64 m a
unfolding relink placed
relink-same m p cur dest g [] a e room le = refl
relink-same m p cur dest g (h ∷ []) a e (room, big, rest) le =
    read64-write64_ne m p.bp (add64 dest (add64 g.size 8)) a (omega arith)
relink-same m p cur dest g (h ∷ k ∷ fs) a e (room, big, rest) le =
    relink-same (write64 m p.bp (add64 dest (add64 g.size 8)))
      (record g { bp = above cur g; ret_addr = above cur g + 8 }) (above cur g)
      (add64 dest (add64 g.size 8)) h (k ∷ fs) a refl rest (omega arith)
    ∙ read64-write64_ne m p.bp (add64 dest (add64 g.size 8)) a (omega arith)

-- One round.
relink-step :
    (m : Memory) (q : Frame) (cur dest : ℕ) (g h : Frame) (fs : List Frame)
    → q.bp ≡ cur
    → Roomy (above dest g) (g ∷ h ∷ fs)
    → relink m q dest (placed_tail cur g (h ∷ fs))
      ≡ relink
          (write64 m cur (above dest g))
          (record g { bp = above cur g; ret_addr = above cur g + 8 })
          (above dest g)
          (placed_tail (above cur g) h fs)
unfolding relink placed
relink-step m q cur dest g h [] e room =
    let next : add64 dest (add64 g.size 8) ≡ above dest g = omega (arith, room) in rw (next, e)
relink-step m q cur dest g h (k ∷ fs) e (room, big, rest) =
    let next : add64 dest (add64 g.size 8) ≡ above dest g = omega arith in rw (next, e)

relink-LaidFor :
    (m₀ m : Memory) (p q : Frame) (cur dest : ℕ) (g : Frame) (fs : List Frame)
    → q.bp ≡ cur
    → Roomy cur (p ∷ g ∷ fs)
    → Roomy dest (p ∷ g ∷ fs)
    → Laid m₀ m cur (p ∷ g ∷ fs)
    → LaidFor m₀ (relink m q dest (placed_tail cur g fs)) cur dest (p ∷ g ∷ fs)
relink-LaidFor m₀ m p q cur dest g [] e room room' laid = unfold relink placed in laid
relink-LaidFor m₀ m p q cur dest g (h ∷ fs) e (room, big, rest) (room', big', rest')
      (slot, link, laid) =
    let far = room_of (above dest g) g h fs rest' in
    let next = above cur g in
    let m' = write64 m cur (above dest g) in
    let g' = record g { bp = next; ret_addr = next + 8 } in
    let last = relink m' g' (above dest g) (placed_tail next h fs) in
    let kept =
      Laid-agree m₀ m m' next (end_of next (g ∷ h ∷ fs)) next (g ∷ h ∷ fs)
        (λ a lo hi. read64-write64_ne m cur (above dest g) a (omega arith)) (omega arith)
        (omega arith) rest laid in
    let above_slot : read64 last (cur + 8) ≡ due m₀ g =
      relink-same m' g' next (above dest g) h fs (cur + 8) refl rest (omega arith)
      ∙ read64-write64_ne m cur (above dest g) (cur + 8) (omega arith)
      ∙ slot in
    let linked : read64 last cur ≡ above dest g =
      relink-same m' g' next (above dest g) h fs cur refl rest (omega arith)
      ∙ read64-write64 m cur (above dest g) (omega arith) in
    subst (λ (x : Memory). LaidFor m₀ x cur dest (p ∷ g ∷ h ∷ fs))
      (sym (relink-step m q cur dest g h fs e rest'))
      (above_slot, linked, relink-LaidFor m₀ m' g g' next (above dest g) h fs refl rest rest' kept)

-- A copy of the words from `cur` on, at `dest`, is laid out there.
LaidFor-copy :
    (m₀ m m' : Memory) (cur dest : ℕ) (fs : List Frame)
    → ((k : ℕ) → cur + k + 8 ≤ end_of cur fs → read64 m' (dest + k) ≡ read64 m (cur + k))
    → Roomy cur fs
    → LaidFor m₀ m cur dest fs
    → Laid m₀ m' dest fs
LaidFor-copy m₀ m m' cur dest [] copied room laid = tt
LaidFor-copy m₀ m m' cur dest (f ∷ []) copied room laid = tt
LaidFor-copy m₀ m m' cur dest (f ∷ g ∷ []) copied room laid = copied 8 (omega arith) ∙ laid
LaidFor-copy m₀ m m' cur dest (f ∷ g ∷ h ∷ fs) copied (room, big, rest) (slot, link, laid) =
    let far = end_of-ge (above cur g) g h fs rest in
    let e : dest + 0 ≡ dest = omega arith in
    let e' : cur + 0 ≡ cur = omega arith in
    let at : read64 m' dest ≡ read64 m cur = rw (e, e') at (copied 0 (omega arith)) in
    (
      copied 8 (omega arith) ∙ slot,
      at ∙ link,
      LaidFor-copy m₀ m m' (above cur g) (above dest g) (g ∷ h ∷ fs)
          (λ k le.
            let d : above dest g + k ≡ dest + (g.size + 8 + k) = omega arith in
            let c : above cur g + k ≡ cur + (g.size + 8 + k) = omega arith in
            rw (d, c) (copied (g.size + 8 + k) (omega arith)))
          rest laid,
    )

-- If the segment is laid out as `insert_real_addresses` leaves it, and neither it nor its copy at
-- main's base pointer wraps or meets the other, then `install` links and copies it such that the
-- stack is laid out from main's base pointer on, with the same return addresses; and
-- `restore_inlined`, run on the globals that it leaves, sets rbp to the first saved base pointer and
-- rsp to the start of the copy.
pub install-Laid :
    (globals : Globals) (seg : RestoredSegment) (m₀ m : Memory) (f g : Frame) (fs : List Frame)
    (main_bp : ℕ) (r : List ℕ) (cpu : Cpu)
    → let cur = seg.start_addr + f.size - 8 in
      let dest = main_bp + f.size - 8 in
      8 ≤ f.size
      → Roomy cur (f ∷ g ∷ fs)
      → Roomy dest (f ∷ g ∷ fs)
      → seg.start_addr + seg.total_size ≡ end_of cur (f ∷ g ∷ fs)
      → (main_bp + seg.total_size ≤ seg.start_addr) ⊎ (seg.start_addr + seg.total_size ≤ main_bp)
      → Laid m₀ m cur (f ∷ g ∷ fs)
      → let first = record f { bp = cur; ret_addr = cur + 8 } in
        let exit = install globals first (placed (above cur g) (g ∷ fs)) main_bp seg m in
        let gs = exit.globals in
        let after =
          run_restore_inlined r gs.addr gs.restored_bp gs.restored_stack_size exit.memory cpu in
        Laid m₀ exit.memory dest (f ∷ g ∷ fs) × (after.rbp ≡ dest) × (after.rsp ≡ main_bp)
unfolding install run_restore_inlined
install-Laid globals seg m₀ m f g fs main_bp r cpu big room room' total apart laid =
    let cur = seg.start_addr + f.size - 8 in
    let dest = main_bp + f.size - 8 in
    let near = room_of cur f g fs room in
    let far = room_of dest f g fs room' in
    let first = record f { bp = cur; ret_addr = cur + 8 } in
    let bp : add64 main_bp (sub64 f.size 8) ≡ dest = omega arith in
    let m1 = relink m first dest (placed_tail cur g fs) in
    let m2 = store m1 main_bp (load m1 seg.start_addr seg.total_size) in
    let m3 = store m2 seg.start_addr (replicate seg.total_size 0) in
    let copied = λ (k : ℕ) (le : cur + k + 8 ≤ end_of cur (f ∷ g ∷ fs)).
      let d : dest + k ≡ main_bp + (f.size - 8 + k) = omega arith in
      let c : cur + k ≡ seg.start_addr + (f.size - 8 + k) = omega arith in
      let zeros = length-replicate {A = ℕ} seg.total_size 0 in
      read64-store_ne m2 seg.start_addr (replicate seg.total_size 0) (dest + k)
        (omega (arith, zeros))
      ∙ ap (read64 m2) d
      ∙ read64-copy m1 seg.start_addr main_bp seg.total_size (f.size - 8 + k) (omega arith)
      ∙ ap (read64 m1) (sym c) in
    let there : Laid m₀ m3 dest (f ∷ g ∷ fs) =
      LaidFor-copy m₀ m1 m3 cur dest (f ∷ g ∷ fs) copied room
        (relink-LaidFor m₀ m f first cur dest g fs refl room room' laid) in
    let memory = λ (b : ℕ).
      let x = relink m first b (placed_tail cur g fs) in
      store (store x main_bp (load x seg.start_addr seg.total_size)) seg.start_addr
        (replicate seg.total_size 0) in
    (subst (λ (b : ℕ). Laid m₀ (memory b) dest (f ∷ g ∷ fs)) (sym bp) there, bp, omega arith)
