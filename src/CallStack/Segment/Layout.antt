-- ===== src/CallStack/Segment/Layout.antt =====
-- How the new stack is to lie in its segment. The saved base pointer of a frame stands at `cur`, its
-- return address behind it; the next frame's base pointer is above by that frame's size and a word.
use llvm_guard_handler.Base.{ℕ, ◌+◌, ◌^◌, ◌≤◌, ◌<◌, ◌≡◌, ◌⊎◌, true, List, [], ◌∷◌, if◌then◌else◌}
use llvm_guard_handler.Memory.{Memory, read64}
use llvm_guard_handler.CallStack.{Frame}

-- Where the base pointer above the one at `cur` stands, for a frame `g` above.
abbrev pub above : ℕ → Frame → ℕ
above cur g = cur + (g.size + 8)

-- The first address behind the frames.
abbrev pub end_of : ℕ → List Frame → ℕ
end_of cur [] = cur
end_of cur (f ∷ []) = cur
end_of cur (f ∷ g ∷ []) = cur + 16
end_of cur (f ∷ g ∷ h ∷ fs) = end_of (above cur g) (g ∷ h ∷ fs)

-- Every frame between the first and the last has room for a saved base pointer, and no address
-- wraps.
abbrev pub Roomy : ℕ → List Frame → Type 0
Roomy cur [] = Unit
Roomy cur (f ∷ []) = Unit
Roomy cur (f ∷ g ∷ []) = cur + 16 ≤ 2 ^ 64
Roomy cur (f ∷ g ∷ h ∷ fs) = (cur + 16 ≤ 2 ^ 64) × (8 ≤ g.size) × Roomy (above cur g) (g ∷ h ∷ fs)

-- What is to stand in a frame's return address slot: the return address of an inlined call is kept in
-- the frame, that of any other frame in memory.
abbrev pub due : Memory → Frame → ℕ
due m g = if g.inlined then g.ret_addr else read64 m g.ret_addr

-- In memory `m'` the return addresses are those that memory `m` gave, and the base pointers chain.
abbrev pub Laid : Memory → Memory → ℕ → List Frame → Type 0
Laid m m' cur [] = Unit
Laid m m' cur (f ∷ []) = Unit
Laid m m' cur (f ∷ g ∷ []) = read64 m' (cur + 8) ≡ due m g
Laid m m' cur (f ∷ g ∷ h ∷ fs) =
    (read64 m' (cur + 8) ≡ due m g)
    × (read64 m' cur ≡ above cur g)
    × Laid m m' (above cur g) (g ∷ h ∷ fs)

-- The frames with their new base pointers and return address slots; the last one stays.
unfoldable pub placed : ℕ → List Frame → List Frame
placed cur [] = []
placed cur (f ∷ []) = f ∷ []
placed cur (f ∷ g ∷ fs) = record f { bp = cur; ret_addr = cur + 8 } ∷ placed (above cur g) (g ∷ fs)

-- A word at `a` lies outside the addresses from `lo` to `hi`.
abbrev pub Outside : ℕ → ℕ → ℕ → Type 0
Outside lo hi a = (a + 8 ≤ lo) ⊎ (hi ≤ a)

-- The return address of a frame is a word, and is kept in the frame or stands outside the segment.
abbrev pub HasReturn : Memory → ℕ → ℕ → Frame → Type 0
HasReturn m lo hi g = (due m g < 2 ^ 64) × ((g.inlined ≡ true) ⊎ Outside lo hi g.ret_addr)

-- So it is for every frame above the first.
abbrev pub HaveReturns : Memory → ℕ → ℕ → List Frame → Type 0
HaveReturns m lo hi [] = Unit
HaveReturns m lo hi (f ∷ []) = Unit
HaveReturns m lo hi (f ∷ g ∷ fs) = HasReturn m lo hi g × HaveReturns m lo hi (g ∷ fs)
