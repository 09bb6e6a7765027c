-- ===== src/CallStack/Segment.antt =====
-- `insert_real_addresses`: return addresses and saved base pointers are laid out in a segment of
-- memory, from the frame that was called last upwards.
pub mod Chain
pub mod Layout
pub mod Main
pub mod Placing
use llvm_guard_handler.Base.{
  ℕ, Option, none, some, List, [], ◌∷◌, if◌then◌else◌, add64, sub64, get_elem?, get_last?, Result,
  ok, ◌>>=◌, require, out_of_bounds,
}
use llvm_guard_handler.Memory.{Memory, read64, write64}
use llvm_guard_handler.CallStack.{Frame, CallStackState, RestoredSegment, RegNum, addr_size}

-- The return address that belongs above the frame below `next`: the frame of an inlined call holds
-- it, any other frame points to it.
unfoldable pub return_value : Memory → Frame → ℕ
return_value m next = if next.inlined then next.ret_addr else read64 m next.ret_addr

-- `if (i > 0)`: the frame before points to this one.
unfoldable pub link_prev : Memory → Option ℕ → ℕ → Memory
link_prev m none bp = m
link_prev m (some prev) bp = write64 m prev bp

-- The loop over all frames but the last, which is untouched; `prev` is `frames[i - 1].bp`.
unfoldable pub place_from : Memory → Option ℕ → ℕ → List Frame → List Frame × Memory
place_from m prev cur_bp [] = ([], m)
place_from m prev cur_bp (f ∷ []) = (f ∷ [], m)
place_from m prev cur_bp (f ∷ g ∷ fs) =
    let slot = add64 cur_bp addr_size in
    let m' = link_prev (write64 m slot (return_value m g)) prev cur_bp in
    let (rest, m'') =
      place_from m' (some cur_bp) (add64 cur_bp (add64 g.size addr_size)) (g ∷ fs) in
    (record f { bp = cur_bp; ret_addr = slot } ∷ rest, m'')

-- The last frame is linked with the frame of main.
unfoldable pub link_main : RegNum → Memory → Frame → Result Memory
link_main u m last = do
  main_bp ← require (get_elem? last.registers u.rbp) out_of_bounds
  let m' = write64 m last.bp main_bp
  ok (write64 m' last.ret_addr (read64 m' (add64 main_bp addr_size)))

unfoldable pub insert_real_addresses :
    RegNum → CallStackState → RestoredSegment → Memory → Result (CallStackState × Memory)
insert_real_addresses u state seg m = do
  first ← require (get_elem? state.frames 0) out_of_bounds
  let cur_bp = sub64 (add64 seg.start_addr first.size) addr_size
  let (frames, m') = place_from m none cur_bp state.frames
  last ← require (get_last? frames) out_of_bounds
  m'' ← link_main u m' last
  ok (record state { frames = frames }, m'')
