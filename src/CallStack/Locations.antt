-- ===== src/CallStack/Locations.antt =====
-- `stmap_get_location_value` and `assert_valid_reg_num` of stmap.c, `get_locations` and
-- `restore_unopt_stack` of call_stack_state.c. A block that `malloc` returned is the list of its
-- bytes. Where the C code copies more bytes than the object has, the parameter `stray` supplies what
-- lies behind the object.
pub mod Pairs
pub mod Stack
pub mod Transfer
use llvm_guard_handler.Base.{
  ℕ, zero, suc, ◌+◌, ◌||◌, List, [], ◌∷◌, ◌++◌, ltb, ◌==◌, if◌then◌else◌, add64, not64, sext32, set,
  take, drop, Result, ok, err, ◌>>=◌, ◌>>◌, require, check, out_of_bounds, null_pointer,
  invalid_register_number, not_implemented, unknown_location, assertion_failed, not,
}
use llvm_guard_handler.Memory.{Memory, to_bytes, of_bytes, load, store}
use llvm_guard_handler.StackMap.{
  Location, StackMap, register, direct, indirect, constant, const_index,
}
use llvm_guard_handler.StackMap.Query.{get_map_record}
use llvm_guard_handler.CallStack.{Frame, CallStackState, RegNum}

-- The bytes of an array of words.
unfoldable pub words_bytes : List ℕ → List ℕ
words_bytes [] = []
words_bytes (w ∷ ws) = to_bytes 8 w ++ words_bytes ws

-- `n` bytes of `stray` from `i` on.
unfoldable pub stray_bytes : (ℕ → ℕ) → ℕ → ℕ → List ℕ
stray_bytes stray i zero = []
stray_bytes stray i (suc n) = stray i ∷ stray_bytes stray (i + 1) n

-- `memcpy` of `n` bytes out of an object.
unfoldable pub copy_bytes : (ℕ → ℕ) → List ℕ → ℕ → List ℕ
unfolding stray_bytes
copy_bytes stray object n = take n (object ++ stray_bytes stray 0 n)

-- `assert_valid_reg_num`.
unfoldable pub assert_valid_reg_num : RegNum → ℕ → Result (Unit {0})
assert_valid_reg_num u reg =
    check (not (ltb reg u.rax || ltb u.r15 reg)) (invalid_register_number reg)

module _ (u : RegNum) (sm : StackMap) where
  -- `stmap_get_location_value`.
  unfoldable pub get_location_value : (ℕ → ℕ) → Memory → Location → List ℕ → ℕ → ℕ → Result (List ℕ)
  unfolding copy_bytes words_bytes assert_valid_reg_num
  get_location_value stray m loc regs frame_addr loc_size =
      if loc.kind == register
      then (do
        assert_valid_reg_num u loc.dwarf_reg_num
        ok (copy_bytes stray (words_bytes (drop loc.dwarf_reg_num regs)) loc_size))
      else if loc.kind == direct
      then ok (load m (add64 frame_addr (sext32 loc.offset)) loc_size)
      else if loc.kind == indirect
      then err not_implemented
      else if loc.kind == const_index
      then ok (copy_bytes stray (words_bytes (drop loc.offset sm.constants)) loc_size)
      else if loc.kind == constant
      then ok (copy_bytes stray (to_bytes 4 loc.offset) loc_size)
      else err (unknown_location loc.kind)

  -- `*(uint64_t *)block`.
  unfoldable pub block_word : (ℕ → ℕ) → List ℕ → ℕ
  unfolding copy_bytes
  block_word stray block = of_bytes (copy_bytes stray block 8)

  -- The inner loop of `get_locations`: locations come in pairs, a value and its size. The blocks are
  -- those that the entries of `locs` point to.
  unfoldable pub location_pairs :
      (ℕ → ℕ) → Memory → List ℕ → ℕ → List Location → Result (List (List ℕ))
  unfolding get_location_value block_word
  location_pairs stray m regs real_bp [] = ok []
  location_pairs stray m regs real_bp (l ∷ []) = ok []
  location_pairs stray m regs real_bp (l ∷ s ∷ ls) = do
    loc_size ← get_location_value stray m s regs real_bp 8
    opt_location_value ← get_location_value stray m l regs real_bp (block_word stray loc_size)
    rest ← location_pairs stray m regs real_bp ls
    ok (opt_location_value ∷ loc_size ∷ rest)

  -- The outer loop, over all frames but the last: the blocks, and the slots that `realloc` made room
  -- for.
  unfoldable pub get_locations : (ℕ → ℕ) → Memory → List Frame → Result (List (List ℕ) × ℕ)
  unfolding location_pairs
  get_locations stray m [] = ok ([], 0)
  get_locations stray m (f ∷ []) = ok ([], 0)
  get_locations stray m (f ∷ g ∷ fs) = do
    let opt_rec = f.real_record
    unopt_rec ← require (get_map_record sm (not64 opt_rec.patchpoint_id)) null_pointer
    check (opt_rec.num_locations == unopt_rec.num_locations) assertion_failed
    here ← location_pairs stray m f.registers g.real_bp opt_rec.locations
    (rest, num_locations) ← get_locations stray m (g ∷ fs)
    ok (here ++ rest, unopt_rec.num_locations + num_locations)

  -- One round of the inner loop of `restore_unopt_stack`, on the frame's base pointer.
  unfoldable pub restore_location :
      (ℕ → ℕ) → ℕ → Location → List ℕ → ℕ → List ℕ → Memory → Result (List ℕ × Memory)
  unfolding copy_bytes block_word assert_valid_reg_num
  restore_location stray bp loc block loc_size regs m =
      if loc.kind == direct
      then ok (regs, store m (add64 bp (sext32 loc.offset)) (copy_bytes stray block loc_size))
      else if loc.kind == register
      then (do
        assert_valid_reg_num u loc.dwarf_reg_num
        ok (set regs loc.dwarf_reg_num (block_word stray block), m))
      else if loc.kind == indirect
      then err not_implemented
      else if loc.kind == constant || loc.kind == const_index
      then ok (regs, m)
      else err (unknown_location loc.kind)

  -- The inner loop; it takes two blocks for each pair of locations and hands on the others.
  unfoldable pub restore_pairs :
      (ℕ → ℕ)
      → ℕ
      → List Location
      → List (List ℕ)
      → List ℕ
      → Memory
      → Result (List ℕ × Memory × List (List ℕ))
  unfolding restore_location block_word
  restore_pairs stray bp [] blocks regs m = ok (regs, m, blocks)
  restore_pairs stray bp (l ∷ []) blocks regs m = ok (regs, m, blocks)
  restore_pairs stray bp (l ∷ s ∷ ls) [] regs m = err out_of_bounds
  restore_pairs stray bp (l ∷ s ∷ ls) (v ∷ []) regs m = err out_of_bounds
  restore_pairs stray bp (l ∷ s ∷ ls) (v ∷ size ∷ blocks) regs m = do
    (regs', m') ← restore_location stray bp l v (block_word stray size) regs m
    restore_pairs stray bp ls blocks regs' m'

  -- The outer loop, over all frames but the last.
  unfoldable pub restore_frames :
      (ℕ → ℕ) → List (List ℕ) → List Frame → Memory → Result (List Frame × Memory)
  unfolding restore_pairs
  restore_frames stray blocks [] m = ok ([], m)
  restore_frames stray blocks (f ∷ []) m = ok (f ∷ [], m)
  restore_frames stray blocks (f ∷ g ∷ fs) m = do
    unopt_rec ← require (get_map_record sm (not64 f.record_of.patchpoint_id)) null_pointer
    (regs, m', left) ← restore_pairs stray f.bp unopt_rec.locations blocks f.registers m
    (rest, m'') ← restore_frames stray left (g ∷ fs) m'
    ok (record f { registers = regs } ∷ rest, m'')

  unfoldable pub restore_unopt_stack :
      (ℕ → ℕ) → CallStackState → Memory → Result (CallStackState × Memory)
  unfolding get_locations restore_frames
  restore_unopt_stack stray state m = do
    (blocks, num_locations) ← get_locations stray m state.frames
    (frames, m') ← restore_frames stray blocks state.frames m
    ok (record state { frames = frames }, m')
