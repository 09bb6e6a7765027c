-- ===== src/CallStack/Segment/Placing.antt =====
-- The loop of `insert_real_addresses` in call_stack_state.c over the frames.
use llvm_guard_handler.Base.{
  ℕ, ◌+◌, ◌^◌, ◌≤◌, ◌<◌, ◌≡◌, refl, sym, ap, ◌∙◌, ◌⊎◌, inl, inr, Option, none, some, subst, List,
  [], ◌∷◌, arith, add64,
}
use llvm_guard_handler.Memory.{Memory, read64, write64}
use llvm_guard_handler.Memory.Laws.{read64-write64, read64-write64_ne}
use llvm_guard_handler.CallStack.{Frame}
use llvm_guard_handler.CallStack.Segment.{return_value, link_prev, place_from}
use llvm_guard_handler.CallStack.Segment.Layout.{
  due, above, end_of, Roomy, Laid, placed, Outside, HasReturn, HaveReturns,
}

-- The cell of the frame before does not meet a word at `a`.
abbrev Misses : Option ℕ → ℕ → Type 0
Misses none a = Unit
Misses (some p) a = (a + 8 ≤ p) ⊎ (p + 8 ≤ a)

-- One round of the loop on memory.
abbrev pub round : Memory → Option ℕ → ℕ → Frame → Memory
round m prev cur g = link_prev (write64 m (add64 cur 8) (return_value m g)) prev cur

pub read-round :
    (m : Memory) (prev : Option ℕ) (cur : ℕ) (g : Frame) (a : ℕ)
    → cur + 16 ≤ 2 ^ 64
    → Misses prev a
    → (a + 8 ≤ cur + 8) ⊎ (cur + 16 ≤ a)
    → read64 (round m prev cur g) a ≡ read64 m a
unfolding link_prev
read-round m none cur g a room miss out =
    read64-write64_ne m (add64 cur 8) (return_value m g) a (omega arith)
read-round m (some p) cur g a room miss out =
    read64-write64_ne (write64 m (add64 cur 8) (return_value m g)) p cur a miss
    ∙ read64-write64_ne m (add64 cur 8) (return_value m g) a (omega arith)

-- The first two frames have room.
pub room_of : (cur : ℕ) (f g : Frame) (fs : List Frame) → Roomy cur (f ∷ g ∷ fs) → cur + 16 ≤ 2 ^ 64
room_of cur f g [] room = room
room_of cur f g (h ∷ fs) (room, big, rest) = room

pub end_of-ge :
    (cur : ℕ) (f g : Frame) (fs : List Frame)
    → Roomy cur (f ∷ g ∷ fs)
    → cur + 16 ≤ end_of cur (f ∷ g ∷ fs)
end_of-ge cur f g [] room = omega arith
end_of-ge cur f g (h ∷ fs) (room, big, rest) = omega (arith, end_of-ge (above cur g) g h fs rest)

module _ (m : Memory) (prev : Option ℕ) (cur : ℕ) (f g h : Frame) (fs : List Frame)
    (room : Roomy (above cur g) (g ∷ h ∷ fs)) where
  next : add64 cur (add64 g.size 8) ≡ above cur g
  next = omega (arith, room_of (above cur g) g h fs room)

  pub place-step :
      (place_from m prev cur (f ∷ g ∷ h ∷ fs)).1
      ≡ (place_from (round m prev cur g) (some cur) (above cur g) (g ∷ h ∷ fs)).1
  place-step =
      (let step : (place_from m prev cur (f ∷ g ∷ h ∷ fs)).1
            ≡ (place_from (round m prev cur g) (some cur) (add64 cur (add64 g.size 8))
                (g ∷ h ∷ fs)).1 =
          unfold place_from in refl in
        step)
      ∙ ap (λ (c : ℕ). (place_from (round m prev cur g) (some cur) c (g ∷ h ∷ fs)).1) next

-- The loop leaves alone what lies below its frames and behind them.
pub place-same :
    (m : Memory) (prev : Option ℕ) (cur : ℕ) (fs : List Frame) (a : ℕ)
    → Roomy cur fs
    → Misses prev a
    → (a + 8 ≤ cur) ⊎ (end_of cur fs ≤ a)
    → read64 (place_from m prev cur fs).1 a ≡ read64 m a
place-same m prev cur [] a room miss out = unfold place_from in refl
place-same m prev cur (f ∷ []) a room miss out = unfold place_from in refl
place-same m prev cur (f ∷ g ∷ []) a room miss out =
    unfold place_from in read-round m prev cur g a room miss (omega arith)
place-same m prev cur (f ∷ g ∷ h ∷ fs) a (room, big, rest) miss out =
    let far = end_of-ge (above cur g) g h fs rest in
    ap (λ (x : Memory). read64 x a) (place-step m prev cur f g h fs rest)
    ∙ place-same (round m prev cur g) (some cur) (above cur g) (g ∷ h ∷ fs) a rest (omega arith)
        (omega arith)
    ∙ read-round m prev cur g a room miss (omega arith)

-- The cell of the frame before is linked to the first frame.
place-prev :
    (m : Memory) (p cur : ℕ) (f g : Frame) (fs : List Frame)
    → Roomy cur (f ∷ g ∷ fs)
    → p + 8 ≤ cur
    → read64 (place_from m (some p) cur (f ∷ g ∷ fs)).1 p ≡ cur
place-prev m p cur f g [] room low =
    unfold place_from link_prev in
    read64-write64 (write64 m (add64 cur 8) (return_value m g)) p cur (omega arith)
place-prev m p cur f g (h ∷ fs) (room, big, rest) low =
    ap (λ (x : Memory). read64 x p) (place-step m (some p) cur f g h fs rest)
    ∙ place-same (round m (some p) cur g) (some cur) (above cur g) (g ∷ h ∷ fs) p rest (omega arith)
        (omega arith)
    ∙ unfold link_prev in
      read64-write64 (write64 m (add64 cur 8) (return_value m g)) p cur (omega arith)

-- The frame before, if there is one, lies in the segment and below.
abbrev pub Precedes : ℕ → Option ℕ → ℕ → Type 0
Precedes lo none cur = lo ≤ cur
Precedes lo (some p) cur = (lo ≤ p) × (p + 8 ≤ cur)

le_of_Precedes : (lo : ℕ) (prev : Option ℕ) (cur : ℕ) → Precedes lo prev cur → lo ≤ cur
le_of_Precedes lo none cur pre = pre
le_of_Precedes lo (some p) cur pre = omega arith

read-slot :
    (m : Memory) (lo : ℕ) (prev : Option ℕ) (cur : ℕ) (g : Frame)
    → cur + 16 ≤ 2 ^ 64
    → Precedes lo prev cur
    → return_value m g < 2 ^ 64
    → read64 (round m prev cur g) (cur + 8) ≡ return_value m g
unfolding link_prev
read-slot m lo none cur g room pre small =
    let slot : add64 cur 8 ≡ cur + 8 = omega arith in
    rw slot (read64-write64 m (cur + 8) (return_value m g) small)
read-slot m lo (some p) cur g room pre small =
    let slot : add64 cur 8 ≡ cur + 8 = omega arith in
    rw slot (
      read64-write64_ne (write64 m (cur + 8) (return_value m g)) p cur (cur + 8) (omega arith)
      ∙ read64-write64 m (cur + 8) (return_value m g) small)

module _ (m₀ : Memory) (lo hi : ℕ) where
  -- Outside the segment memory is as it was at first.
  abbrev pub Same : Memory → Type 0
  Same m = (a : ℕ) → Outside lo hi a → read64 m a ≡ read64 m₀ a

  return_value_eq :
      (m : Memory) (g : Frame) → Same m → HasReturn m₀ lo hi g → return_value m g ≡ due m₀ g
  unfolding return_value
  return_value_eq m g same (small, inl inlined) = rw inlined
  return_value_eq m g same (small, inr out) = rw (same g.ret_addr out)

  round-Same :
      (m : Memory) (prev : Option ℕ) (cur : ℕ) (g : Frame)
      → Same m
      → Precedes lo prev cur
      → cur + 16 ≤ hi
      → cur + 16 ≤ 2 ^ 64
      → Same (round m prev cur g)
  round-Same m none cur g same pre le room a out =
      read-round m none cur g a room tt (omega arith) ∙ same a out
  round-Same m (some p) cur g same pre le room a out =
      read-round m (some p) cur g a room (omega arith) (omega arith) ∙ same a out

  pub place-Laid :
      (m : Memory) (prev : Option ℕ) (cur : ℕ) (fs : List Frame)
      → Roomy cur fs
      → Precedes lo prev cur
      → end_of cur fs ≤ hi
      → HaveReturns m₀ lo hi fs
      → Same m
      → Laid m₀ (place_from m prev cur fs).1 cur fs × Same (place_from m prev cur fs).1
  place-Laid m prev cur [] room pre le have same = (tt, unfold place_from in same)
  place-Laid m prev cur (f ∷ []) room pre le have same = (tt, unfold place_from in same)
  place-Laid m prev cur (f ∷ g ∷ []) room pre le (has, have) same =
      let value = return_value_eq m g same has in
      unfold place_from in
      (
        read-slot m lo prev cur g room pre (rw value has.0) ∙ value,
        round-Same m prev cur g same pre le room,
      )
  place-Laid m prev cur (f ∷ g ∷ h ∷ fs) (room, big, rest) pre le (has, have) same =
      let far = end_of-ge (above cur g) g h fs rest in
      let value = return_value_eq m g same has in
      let step = place-step m prev cur f g h fs rest in
      let (laid, same') =
        place-Laid (round m prev cur g) (some cur) (above cur g) (g ∷ h ∷ fs) rest
          (le_of_Precedes lo prev cur pre, omega arith) le have
          (round-Same m prev cur g same pre (omega arith) room) in
      let m' = (place_from (round m prev cur g) (some cur) (above cur g) (g ∷ h ∷ fs)).1 in
      let slot : read64 m' (cur + 8) ≡ due m₀ g =
        place-same (round m prev cur g) (some cur) (above cur g) (g ∷ h ∷ fs) (cur + 8) rest
          (omega arith) (omega arith)
        ∙ read-slot m lo prev cur g room pre (rw value has.0)
        ∙ value in
      let link : read64 m' cur ≡ above cur g =
        place-prev (round m prev cur g) cur (above cur g) g h fs rest (omega arith) in
      subst (λ (x : Memory). Laid m₀ x cur (f ∷ g ∷ h ∷ fs) × Same x) (sym step)
        ((slot, link, laid), same')

-- The loop gives the frames their new places, and leaves the last one.
pub place-placed :
    (m : Memory) (prev : Option ℕ) (cur : ℕ) (fs : List Frame)
    → Roomy cur fs
    → (place_from m prev cur fs).0 ≡ placed cur fs
unfolding place_from placed
place-placed m prev cur [] room = refl
place-placed m prev cur (f ∷ []) room = refl
place-placed m prev cur (f ∷ g ∷ []) room =
    let slot : add64 cur 8 ≡ cur + 8 = omega arith in
    λ i. record f { bp = cur; ret_addr = slot i } ∷ g ∷ []
place-placed m prev cur (f ∷ g ∷ h ∷ fs) (room, big, rest) =
    let slot : add64 cur 8 ≡ cur + 8 = omega arith in
    let rest' = place-placed (round m prev cur g) (some cur) (above cur g) (g ∷ h ∷ fs) rest in
    let tail =
      ap (λ (c : ℕ). (place_from (round m prev cur g) (some cur) c (g ∷ h ∷ fs)).0)
        (next m prev cur f g h fs rest)
      ∙ rest' in
    λ i. record f { bp = cur; ret_addr = slot i } ∷ tail i
