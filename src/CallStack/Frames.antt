-- ===== src/CallStack/Frames.antt =====
-- Operations on the array of frames: `insert_frames`, `alloc_empty_frames`, `get_total_stack_size`
-- and `restore_register_state`.
pub mod Insert
use llvm_guard_handler.Base.{
  ℕ, ◌+◌, ◌-◌, false, List, [], ◌∷◌, ◌++◌, add64, add32, length, get_elem?, take, drop, replicate,
  Result, ok, ◌>>=◌, require, out_of_bounds,
}
use llvm_guard_handler.StackMap.{StackMapRecord}
use llvm_guard_handler.CallStack.{Frame, CallStackState, register_count, addr_size}

-- `realloc` to `n` elements keeps the first ones; what the new ones hold is `fresh`.
unfoldable pub realloc {ℓ} : {A : Type ℓ} → A → ℕ → List A → List A
realloc fresh n xs = take n (xs ++ replicate n fresh)

-- `memmove` and `memcpy` of `src` into an array at `index`.
unfoldable pub copy_to {ℓ} : {A : Type ℓ} → List A → ℕ → List A → List A
copy_to xs index src = take index xs ++ (src ++ drop (index + length src) xs)

-- The loop that gives every inserted frame an array of registers of its own copies their contents,
-- and so leaves the frames as `memcpy` put them.
unfoldable pub insert_frames : Frame → CallStackState → ℕ → List Frame → CallStackState
insert_frames fresh state index frames =
    let num_frames = length frames in
    let new_depth = add32 state.depth num_frames in
    let grown = realloc fresh new_depth state.frames in
    let tail = take (state.depth - index) (drop index grown) in
    let moved = copy_to grown (index + num_frames) tail in
    record { frames = copy_to moved index frames; depth = new_depth }

-- `calloc`: every field is zero.
abbrev pub zero_record : StackMapRecord
zero_record = record {
  patchpoint_id = 0;
  instr_offset = 0;
  reserved = 0;
  num_locations = 0;
  locations = [];
  num_liveouts = 0;
  liveouts = [];
  index = 0;
}

abbrev pub zero_frame : Frame
zero_frame = record {
  ret_addr = 0;
  stored_ret_addr = 0;
  size = 0;
  bp = 0;
  real_bp = 0;
  registers = replicate register_count 0;
  record_of = zero_record;
  real_record = zero_record;
  inlined = false;
}

unfoldable pub alloc_empty_frames : ℕ → List Frame
alloc_empty_frames num_frames = replicate num_frames zero_frame

-- The loop of `get_total_stack_size`, over all frames but the last.
unfoldable pub total_from : ℕ → List Frame → ℕ
total_from total [] = total
total_from total (f ∷ []) = total
total_from total (f ∷ g ∷ fs) = total_from (add64 total (add64 f.size addr_size)) (g ∷ fs)

unfoldable pub get_total_stack_size : CallStackState → ℕ
unfolding total_from
get_total_stack_size state = total_from 0 state.frames

-- The registers of the first frame, into the array `r`.
unfoldable pub restore_register_state : CallStackState → Result (List ℕ)
restore_register_state state = do
  first ← require (get_elem? state.frames 0) out_of_bounds
  ok (take register_count first.registers)
