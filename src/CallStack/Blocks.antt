-- ===== src/CallStack/Blocks.antt =====
-- The heap blocks of call stack states: what src/stackmap_checker/call_stack_state.c allocates and
-- frees. A function has the name of the one whose blocks it follows; what it finds, such as the number
-- of frames, is an argument. `moved n` says whether `realloc` of an array to `n` elements moves it.
pub mod Freed
pub mod Inlined
pub mod Rounds
pub mod Slots
use llvm_guard_handler.Base.{
  true, false, not, ◌-◌, err, use_after_free, ℕ, zero, suc, ◌+◌, Bool, Option, none, some, List, [],
  ◌∷◌, ◌++◌, take, drop, Result, ok, ◌>>=◌,
}
use llvm_guard_handler.Heap.{Heap, alloc, alloc_all, free, realloc, free_slots}

-- A `call_stack_state_t`: the structure, its array of frames, NULL at first, and the array of
-- registers of each frame.
pub record StateBlocks : Type 0 where
  pub self : ℕ
  pub frames : Option ℕ
  pub registers : List ℕ
  pub depth : ℕ

-- Frames that stand for themselves.
pub record FrameBlocks : Type 0 where
  pub frames : ℕ
  pub registers : List ℕ

-- `collect_map_records`: the position that `stmap_get_unopt_return_addr` allocates in each of `n`
-- rounds is freed at the end of the round.
unfoldable pub collect_map_records : ℕ → Heap → Result Heap
unfolding alloc free
collect_map_records zero h = ok h
collect_map_records (suc n) h = do
  let (sm_pos, h1) = alloc h
  h2 ← free (some sm_pos) h1
  collect_map_records n h2

unfoldable pub free_call_stack_state : StateBlocks → Heap → Result Heap
unfolding free free_slots
free_call_stack_state state h = do
  h1 ← free_slots state.depth state.registers h
  h2 ← free state.frames h1
  free (some state.self) h2

unfoldable pub alloc_empty_frames : ℕ → Heap → FrameBlocks × Heap
unfolding alloc alloc_all
alloc_empty_frames num_frames h =
    let (frames, h1) = alloc h in
    let (registers, h2) = alloc_all num_frames h1 in
    (record { frames = frames; registers = registers }, h2)

unfoldable pub free_frames : FrameBlocks → ℕ → Heap → Result Heap
unfolding free free_slots
free_frames fs num_frames h = do h1 ← free_slots num_frames fs.registers h; free (some fs.frames) h1

-- The blocks that `stmap_get_location_value` returns for a record with `c` locations: two for every
-- pair, the loop of `get_locations` goes on while `j + 1 < num_locations`.
unfoldable pub value_blocks : ℕ → Heap → List ℕ × Heap
unfolding alloc
value_blocks zero h = ([], h)
value_blocks (suc zero) h = ([], h)
value_blocks (suc (suc c)) h =
    let (size, h1) = alloc h in
    let (value, h2) = alloc h1 in let (rest, h3) = value_blocks c h2 in (value ∷ size ∷ rest, h3)

-- The array `*locs`, what was stored in its first slots, and the number of its slots.
pub record Locations : Type 0 where
  pub locs : Option ℕ
  pub slots : List ℕ
  pub num_locations : ℕ

unfoldable pub free_locations : Locations → Heap → Result Heap
unfolding free free_slots
free_locations l h = do h1 ← free_slots l.num_locations l.slots h; free l.locs h1

module _ (moved : ℕ → Bool) where
  -- The loop of `get_call_stack_state`, with `n` rounds left.
  unfoldable pub unwind : ℕ → StateBlocks → Heap → Result (StateBlocks × Heap)
  unfolding alloc realloc
  unwind zero state h = ok (state, h)
  unwind (suc n) state h = do
    (frames, h1) ← realloc moved (state.depth + 1) state.frames h
    let (registers, h2) = alloc h1
    unwind n
        (record state {
          frames = frames;
          registers = state.registers ++ registers ∷ [];
          depth = state.depth + 1;
        })
        h2

  unfoldable pub get_call_stack_state : ℕ → Heap → Result (StateBlocks × Heap)
  unfolding alloc unwind
  get_call_stack_state n h = do
    let (self, h1) = alloc h
    unwind n (record { self = self; frames = none; registers = []; depth = 0 }) h1

  -- The new frames get arrays of their own, whatever array came with them.
  unfoldable pub insert_frames : StateBlocks → ℕ → ℕ → Heap → Result (StateBlocks × Heap)
  unfolding alloc_all realloc
  insert_frames state index num_frames h = do
    (frames, h1) ← realloc moved (state.depth + num_frames) state.frames h
    let (registers, h2) = alloc_all num_frames h1
    ok (
      record state {
        frames = frames;
        registers = take index state.registers ++ (registers ++ drop index state.registers);
        depth = state.depth + num_frames;
      },
      h2,
    )

  -- The loop of `get_restored_state`, which sets no registers.
  unfoldable pub restored_from : ℕ → StateBlocks → Heap → Result (StateBlocks × Heap)
  unfolding realloc
  restored_from zero state h = ok (state, h)
  restored_from (suc n) state h = do
    (frames, h1) ← realloc moved (state.depth + 1) state.frames h
    restored_from n (record state { frames = frames; depth = state.depth + 1 }) h1

  -- `get_restored_state`, and the loop of its callers that gives each frame its registers.
  unfoldable pub get_restored_state : ℕ → Heap → Result (StateBlocks × Heap)
  unfolding alloc alloc_all restored_from
  get_restored_state n h = do
    let (self, h1) = alloc h
    (state, h2) ←
        restored_from n (record { self = self; frames = none; registers = []; depth = 0 }) h1
    let (registers, h3) = alloc_all state.depth h2
    ok (record state { registers = registers }, h3)

  -- The round of `collect_inlined_frames` at `i`, which finds frames or not. The array of the copy
  -- is the state's until `insert_frames` moves it; the result says whether it is there still.
  unfoldable pub collect_round :
      Option ℕ → ℕ → StateBlocks → Heap → Result (Bool × StateBlocks × Heap)
  unfolding free_call_stack_state get_restored_state insert_frames
  collect_round none i state h = ok (true, state, h)
  collect_round (some n) i state h = do
    (res_state, h1) ← get_restored_state n h
    (state', h2) ← insert_frames state (i + 1) n h1
    h3 ← free_call_stack_state res_state h2
    ok (not (moved state'.depth), state', h3)

  -- The loop at `i`, with `n` rounds left, each of which reads the array of the copy; `inlined` says
  -- how many frames a round finds.
  unfoldable pub collect_rounds :
      (ℕ → Option ℕ) → ℕ → ℕ → Bool → StateBlocks → Heap → Result (StateBlocks × Heap)
  unfolding collect_round
  collect_rounds inlined zero i copy state h = ok (state, h)
  collect_rounds inlined (suc n) i false state h = err use_after_free
  collect_rounds inlined (suc n) i true state h = do
    (copy, state', h1) ← collect_round (inlined i) i state h
    collect_rounds inlined n (i + 1) copy state' h1

  unfoldable pub collect_inlined_frames :
      (ℕ → Option ℕ) → StateBlocks → Heap → Result (StateBlocks × Heap)
  unfolding alloc free collect_rounds
  collect_inlined_frames inlined state h = do
    let (state_copy, h1) = alloc h
    (state', h2) ← collect_rounds inlined (state.depth - 1) 0 true state h1
    h3 ← free (some state_copy) h2
    ok (state', h3)

  -- The loop of `get_locations`: `counts` are the numbers of locations of the records, which are those
  -- of the optimised and the unoptimised record of a frame alike.
  unfoldable pub locations_from : List ℕ → Locations → Heap → Result (Locations × Heap)
  unfolding realloc value_blocks
  locations_from [] l h = ok (l, h)
  locations_from (c ∷ counts) l h = do
    (locs, h1) ← realloc moved (l.num_locations + c) l.locs h
    let (values, h2) = value_blocks c h1
    locations_from counts
        (record { locs = locs; slots = l.slots ++ values; num_locations = l.num_locations + c }) h2

  unfoldable pub restore_unopt_stack : List ℕ → Heap → Result Heap
  unfolding locations_from free_locations
  restore_unopt_stack counts h = do
    (l, h1) ← locations_from counts (record { locs = none; slots = []; num_locations = 0 }) h
    free_locations l h1
