-- ===== src/Guard/Rebuilt/Copied.antt =====
-- What `jump_inlined` of guard.c copies besides the layout: the values in the segment.
use llvm_guard_handler.Base.{
  ℕ, ◌+◌, ◌≤◌, ◌≡◌, refl, ◌∙◌, ◌⊎◌, List, [], ◌∷◌, arith, add64, sub64, replicate, length-replicate,
}
use llvm_guard_handler.Memory.{Memory, load, store, write64, to_bytes}
use llvm_guard_handler.Memory.Laws.{load-store_ne, length-to_bytes}
use llvm_guard_handler.Memory.Copies.{load-copy}
use llvm_guard_handler.CallStack.{Frame, RestoredSegment}
use llvm_guard_handler.CallStack.Segment.Layout.{above, placed}
use llvm_guard_handler.Guard.{Globals, relink, install}

-- The `n` bytes at `a` are off the saved base pointers of frames that are laid out from `cur` on.
abbrev pub Apart : ℕ → ℕ → ℕ → List Frame → Type 0
Apart a n cur [] = Unit
Apart a n cur (f ∷ []) = Unit
Apart a n cur (f ∷ g ∷ []) = Unit
Apart a n cur (f ∷ g ∷ h ∷ fs) =
    ((a + n ≤ cur) ⊎ (cur + 8 ≤ a)) × Apart a n (above cur g) (g ∷ h ∷ fs)

load-write64_ne :
    (m : Memory) (a v b n : ℕ) → (b + n ≤ a) ⊎ (a + 8 ≤ b) → load (write64 m a v) b n ≡ load m b n
unfolding write64
load-write64_ne m a v b n out = load-store_ne m a (to_bytes 8 v) b n (rw (length-to_bytes 8 v) out)

relink-load :
    (m : Memory) (p : Frame) (cur dest : ℕ) (g : Frame) (fs : List Frame) (a n : ℕ)
    → p.bp ≡ cur
    → Apart a n cur (p ∷ g ∷ fs)
    → load (relink m p dest (placed (above cur g) (g ∷ fs))) a n ≡ load m a n
unfolding relink placed
relink-load m p cur dest g [] a n e off = refl
relink-load m p cur dest g (h ∷ []) a n e (off, rest) =
    load-write64_ne m p.bp (add64 dest (add64 g.size 8)) a n (rw e off)
relink-load m p cur dest g (h ∷ k ∷ fs) a n e (off, rest) =
    relink-load (write64 m p.bp (add64 dest (add64 g.size 8)))
      (record g { bp = above cur g; ret_addr = above cur g + 8 }) (above cur g)
      (add64 dest (add64 g.size 8)) h (k ∷ fs) a n refl rest
    ∙ load-write64_ne m p.bp (add64 dest (add64 g.size 8)) a n (rw e off)

-- Bytes of the segment off the saved base pointers get to the same offset of the stack.
pub install-copies :
    (globals : Globals) (seg : RestoredSegment) (m : Memory) (f g : Frame) (fs : List Frame)
    (cur main_bp k n : ℕ)
    → (main_bp + seg.total_size ≤ seg.start_addr) ⊎ (seg.start_addr + seg.total_size ≤ main_bp)
    → k + n ≤ seg.total_size
    → Apart (seg.start_addr + k) n cur (f ∷ g ∷ fs)
    → let first = record f { bp = cur; ret_addr = cur + 8 } in
      let exit = install globals first (placed (above cur g) (g ∷ fs)) main_bp seg m in
      load exit.memory (main_bp + k) n ≡ load m (seg.start_addr + k) n
unfolding install
install-copies globals seg m f g fs cur main_bp k n apart le off =
    let first = record f { bp = cur; ret_addr = cur + 8 } in
    let x = relink m first (add64 main_bp (sub64 f.size 8)) (placed (above cur g) (g ∷ fs)) in
    let zeros = length-replicate {A = ℕ} seg.total_size 0 in
    load-store_ne (store x main_bp (load x seg.start_addr seg.total_size)) seg.start_addr
      (replicate seg.total_size 0) (main_bp + k) n (omega (arith, zeros))
    ∙ load-copy x seg.start_addr main_bp seg.total_size k n le
    ∙ relink-load m first cur (add64 main_bp (sub64 f.size 8)) g fs (seg.start_addr + k) n refl off
