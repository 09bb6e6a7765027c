-- ===== src/CallStack/Locations/Stack.antt =====
-- `get_locations` and `restore_unopt_stack` of call_stack_state.c, over all frames.
use llvm_guard_handler.Base.{
  ℕ, ◌+◌, ◌≡◌, ◌≢◌, refl, ◌∙◌, ◌⊎◌, inl, inr, List, [], ◌∷◌, ◌++◌, ==_refl, not64, length, All,
  some, ok,
}
use llvm_guard_handler.Memory.{Memory, load}
use llvm_guard_handler.StackMap.{StackMapRecord, StackMap, Location, direct}
use llvm_guard_handler.StackMap.Query.{get_map_record}
use llvm_guard_handler.CallStack.{Frame, CallStackState, RegNum}
use llvm_guard_handler.CallStack.Locations.{
  get_location_value, location_pairs, get_locations, restore_frames, restore_unopt_stack,
}
use llvm_guard_handler.CallStack.Locations.Pairs.{
  slot, Job, locs_of, blocks_of, size_of, Handles, HasValue, OffMemory,
}
use llvm_guard_handler.CallStack.Locations.Transfer.{Separate, restore_pairs_lem}

abbrev pub all_blocks : List (List Job) → List (List ℕ)
all_blocks [] = []
all_blocks (js ∷ jss) = blocks_of js ++ all_blocks jss

module _ (u : RegNum) (sm : StackMap) (stray : ℕ → ℕ) where
  -- The values of the optimised frame: each of its locations, read in memory `m` with the frame's
  -- registers and the base pointer of the frame around it, gives the block of a job.
  abbrev pub Reads : Memory → List ℕ → ℕ → List Location → List Job → Type 0
  Reads m regs real_bp [] [] = Unit
  Reads m regs real_bp [] (j ∷ js) = ⊥
  Reads m regs real_bp (l ∷ []) js = ⊥
  Reads m regs real_bp (l ∷ s ∷ ls) [] = ⊥
  Reads m regs real_bp (l ∷ s ∷ ls) (j ∷ js) =
      (get_location_value u sm stray m s regs real_bp 8 ≡ ok j.size_block)
      × (get_location_value u sm stray m l regs real_bp (size_of u sm stray j) ≡ ok j.block)
      × Reads m regs real_bp ls js

  location_pairs_lem :
      (m : Memory) (regs : List ℕ) (real_bp : ℕ) (ls : List Location) (js : List Job)
      → Reads m regs real_bp ls js
      → location_pairs u sm stray m regs real_bp ls ≡ ok (blocks_of js)
  unfolding location_pairs
  location_pairs_lem m regs real_bp [] [] h = refl
  location_pairs_lem m regs real_bp [] (j ∷ js) h = absurd h
  location_pairs_lem m regs real_bp (l ∷ []) js h = absurd h
  location_pairs_lem m regs real_bp (l ∷ s ∷ ls) [] h = absurd h
  location_pairs_lem m regs real_bp (l ∷ s ∷ ls) (j ∷ js) (e, e', h) =
      rw (e, e', location_pairs_lem m regs real_bp ls js h) refl

  -- The optimised record of a frame and that of its twin agree in number, and its values are known.
  pub record Sources (m : Memory) (f g : Frame) (js : List Job) : Type 0 where
    pub twin : StackMapRecord
    pub found : get_map_record sm (not64 f.real_record.patchpoint_id) ≡ some twin
    pub same : f.real_record.num_locations ≡ twin.num_locations
    pub reads : Reads m f.registers g.real_bp f.real_record.locations js

  -- The unoptimised record of a frame has the places of the jobs, which can be written and do not
  -- meet.
  pub record Targets (f : Frame) (js : List Job) : Type 0 where
    pub unopt : StackMapRecord
    pub found : get_map_record sm (not64 f.record_of.patchpoint_id) ≡ some unopt
    pub places : unopt.locations ≡ locs_of js
    pub handles : All (λ j. Handles u sm stray (length f.registers) j.loc) js
    pub separate : Separate u sm stray f.bp js

  -- The `n` bytes at `a` are off every place of every frame.
  abbrev pub Off : ℕ → ℕ → List Frame → List (List Job) → Type 0
  Off a n [] jss = Unit
  Off a n (f ∷ fs) [] = Unit
  Off a n (f ∷ fs) (js ∷ jss) = All (λ j. OffMemory u sm stray f.bp j a n) js × Off a n fs jss

  -- Every frame but the last has a list of jobs, whose places those of later frames do not meet.
  abbrev pub Ready : Memory → List Frame → List (List Job) → Type 0
  Ready m [] [] = Unit
  Ready m (f ∷ []) [] = Unit
  Ready m [] (js ∷ jss) = ⊥
  Ready m (f ∷ []) (js ∷ jss) = ⊥
  Ready m (f ∷ g ∷ fs) [] = ⊥
  Ready m (f ∷ g ∷ fs) (js ∷ jss) =
      Sources m f g js
      × Targets f js
      × All (λ j. (j.loc.kind ≢ direct) ⊎ Off (slot f.bp j.loc) (size_of u sm stray j) (g ∷ fs) jss)
          js
      × Ready m (g ∷ fs) jss

  -- Every frame but the last has its values, and but for its registers is as before.
  abbrev pub Transferred : Memory → List Frame → List (List Job) → List Frame → Type 0
  Transferred m [] jss fs' = fs' ≡ []
  Transferred m (f ∷ []) jss fs' = fs' ≡ f ∷ []
  Transferred m (f ∷ g ∷ fs) [] fs' = ⊥
  Transferred m (f ∷ g ∷ fs) (js ∷ jss) fs' =
      (regs : List ℕ) × (rest : List Frame) × (fs' ≡ record f { registers = regs } ∷ rest)
      × All (HasValue u sm stray f.bp regs m) js
      × Transferred m (g ∷ fs) jss rest

  get_locations_lem :
      (m : Memory) (fs : List Frame) (jss : List (List Job))
      → Ready m fs jss
      → (count : ℕ) × (get_locations u sm stray m fs ≡ ok (all_blocks jss, count))
  unfolding get_locations
  get_locations_lem m [] [] ready = (0, refl)
  get_locations_lem m (f ∷ []) [] ready = (0, refl)
  get_locations_lem m [] (js ∷ jss) ready = absurd ready
  get_locations_lem m (f ∷ []) (js ∷ jss) ready = absurd ready
  get_locations_lem m (f ∷ g ∷ fs) [] ready = absurd ready
  get_locations_lem m (f ∷ g ∷ fs) (js ∷ jss) (s, t, later, ready) =
      let (count, e) = get_locations_lem m (g ∷ fs) jss ready in
      (
        s.twin.num_locations + count,
        rw
            (
              s.found,
              s.same,
              ==_refl s.twin.num_locations,
              location_pairs_lem m f.registers g.real_bp f.real_record.locations js s.reads,
              e,
            )
            refl,
      )

  keep_values :
      (bp : ℕ) (regs : List ℕ) (m m' : Memory) (fs : List Frame) (js : List Job)
      (jss : List (List Job))
      → ((a n : ℕ) → Off a n fs jss → load m' a n ≡ load m a n)
      → All (λ j. (j.loc.kind ≢ direct) ⊎ Off (slot bp j.loc) (size_of u sm stray j) fs jss) js
      → All (HasValue u sm stray bp regs m) js
      → All (HasValue u sm stray bp regs m') js
  keep_values bp regs m m' fs [] jss same later h = tt
  keep_values bp regs m m' fs (j ∷ js) jss same (inl other, later) (inl (kind, at), hs) =
      absurd (other kind)
  keep_values bp regs m m' fs (j ∷ js) jss same (inr off, later) (inl (kind, at), hs) =
      (inl (kind, same _ _ off ∙ at), keep_values bp regs m m' fs js jss same later hs)
  keep_values bp regs m m' fs (j ∷ js) jss same (l, later) (inr h, hs) =
      (inr h, keep_values bp regs m m' fs js jss same later hs)

  restore_frames_lem :
      (m₀ m : Memory) (fs : List Frame) (jss : List (List Job))
      → Ready m₀ fs jss
      → (fs' : List Frame) × (m' : Memory) × (restore_frames u sm stray (all_blocks jss) fs m
          ≡ ok (fs', m'))
        × Transferred m' fs jss fs'
        × ((a n : ℕ) → Off a n fs jss → load m' a n ≡ load m a n)
  unfolding restore_frames
  restore_frames_lem m₀ m [] [] ready = ([], m, refl, refl, λ a n off. refl)
  restore_frames_lem m₀ m (f ∷ []) [] ready = (f ∷ [], m, refl, refl, λ a n off. refl)
  restore_frames_lem m₀ m [] (js ∷ jss) ready = absurd ready
  restore_frames_lem m₀ m (f ∷ []) (js ∷ jss) ready = absurd ready
  restore_frames_lem m₀ m (f ∷ g ∷ fs) [] ready = absurd ready
  restore_frames_lem m₀ m (f ∷ g ∷ fs) (js ∷ jss) (s, t, later, ready) =
      let (regs, m1, pairs) =
        restore_pairs_lem u sm stray f.bp js (all_blocks jss) f.registers m t.handles t.separate in
      let (rest, m', e, moved, same) = restore_frames_lem m₀ m1 (g ∷ fs) jss ready in
      (
        record f { registers = regs } ∷ rest,
        m',
        rw (t.found, t.places, pairs.ran, e) refl,
        (
          regs,
          rest,
          refl,
          keep_values f.bp regs m1 m' (g ∷ fs) js jss same later pairs.values,
          moved,
        ),
        λ a n (off, offs). same a n offs ∙ pairs.memory a n off,
      )

  -- If for every frame but the last the locations of the optimised record can be read, and stand in
  -- pairs with the locations of the unoptimised record; if these are of kinds that the code handles
  -- and their places in memory and registers do not meet, then `restore_unopt_stack` ends and every
  -- place has the value that its optimised location had before: the bytes that the size says in
  -- memory, or a word in the register. Memory off the places is as before, and so are the other
  -- fields of the frames and the last frame.
  pub restore_unopt_stack-Transferred :
      (state : CallStackState) (m : Memory) (jss : List (List Job))
      → Ready m state.frames jss
      → (fs' : List Frame) × (m' : Memory) × (restore_unopt_stack u sm stray state m
          ≡ ok (record state { frames = fs' }, m'))
        × Transferred m' state.frames jss fs'
        × ((a n : ℕ) → Off a n state.frames jss → load m' a n ≡ load m a n)
  unfolding restore_unopt_stack
  restore_unopt_stack-Transferred state m jss ready =
      let (count, located) = get_locations_lem m state.frames jss ready in
      let (fs', m', e, moved, same) = restore_frames_lem m m state.frames jss ready in
      (fs', m', rw (located, e) refl, moved, same)
