-- ===== src/CallStack/Collect/Loop.antt =====
-- The loop of `collect_map_records` in call_stack_state.c over the frames, and memory under it.
use llvm_guard_handler.Base.{
  ℕ, ◌+◌, ◌^◌, ◌≤◌, ◌≡◌, refl, sym, ap, ◌∙◌, ◌⊎◌, inl, inr, List, [], ◌∷◌, arith, length, ok, err,
  null_pointer, unopt_map_record_not_found,
}
use llvm_guard_handler.Memory.{Memory, read64, write64}
use llvm_guard_handler.Memory.Laws.{read64-write64, read64-write64_ne}
use llvm_guard_handler.Elf.{Elf}
use llvm_guard_handler.StackMap.{StackMap}
use llvm_guard_handler.StackMap.Sites.{IsValid, sites, first_site}
use llvm_guard_handler.StackMap.Sites.First.{after}
use llvm_guard_handler.CallStack.{Frame, CallStackState}
use llvm_guard_handler.CallStack.Collect.{collect_from, collect_map_records}
use llvm_guard_handler.CallStack.Collect.Redirect.{Redirects, collect_frame_lem}

-- Two words do not overlap.
abbrev pub Apart : ℕ → ℕ → Type 0
Apart a b = (a + 8 ≤ b) ⊎ (b + 8 ≤ a)

-- A word at `a` does not meet the slot of any frame but the last.
abbrev pub Clear : ℕ → List Frame → Type 0
Clear a [] = Unit
Clear a (f ∷ []) = Unit
Clear a (f ∷ g ∷ fs) = Apart a f.ret_addr × Clear a (g ∷ fs)

-- The slots of all frames but the last are apart.
abbrev pub ClearSlots : List Frame → Type 0
ClearSlots [] = Unit
ClearSlots (f ∷ []) = Unit
ClearSlots (f ∷ g ∷ fs) = Clear f.ret_addr (g ∷ fs) × ClearSlots (g ∷ fs)

-- The slots of all frames but the last hold what they held in `m₀`.
abbrev Held : Memory → Memory → List Frame → Type 0
Held m₀ m [] = Unit
Held m₀ m (f ∷ []) = Unit
Held m₀ m (f ∷ g ∷ fs) = (read64 m f.ret_addr ≡ read64 m₀ f.ret_addr) × Held m₀ m (g ∷ fs)

Held-self : (m : Memory) (fs : List Frame) → Held m m fs
Held-self m [] = tt
Held-self m (f ∷ []) = tt
Held-self m (f ∷ g ∷ fs) = (refl, Held-self m (g ∷ fs))

Held-write64 :
    (m₀ m : Memory) (a t : ℕ) (fs : List Frame)
    → Clear a fs
    → Held m₀ m fs
    → Held m₀ (write64 m a t) fs
Held-write64 m₀ m a t [] clear held = tt
Held-write64 m₀ m a t (f ∷ []) clear held = tt
Held-write64 m₀ m a t (f ∷ g ∷ fs) (out, outs) (here, held) = (
  read64-write64_ne m a t f.ret_addr (omega arith) ∙ here,
  Held-write64 m₀ m a t (g ∷ fs) outs held,
)

module _ (elf : Elf) (sm : StackMap) where
  -- The finding depends on the return address only.
  Redirects-agree :
      (m m₀ : Memory) (f f' : Frame) (t t' : ℕ)
      → read64 m f.ret_addr ≡ read64 m₀ f.ret_addr
      → t' ≡ t
      → Redirects elf sm m f f' t
      → Redirects elf sm m₀ f f' t'
  Redirects-agree m m₀ f f' t t' e e' r = record {
    call = r.call;
    twin = r.twin;
    opt = r.opt;
    next = ap (λ (x : ℕ). first_site (after x) (sites sm)) (sym e) ∙ r.next;
    twin_site = r.twin_site;
    twin_id = r.twin_id;
    target_addr = e' ∙ r.target_addr;
    opt_site = r.opt_site;
    opt_id = r.opt_id;
    real = r.real;
    frame = r.frame;
  }

  -- Every frame but the last is redirected as its return address in `m` says, and memory `m'` has the
  -- new return address in its slot; the last frame stays.
  abbrev pub Redirected : Memory → Memory → List Frame → List Frame → Type 0
  Redirected m m' [] fs' = fs' ≡ []
  Redirected m m' (f ∷ []) fs' = fs' ≡ f ∷ []
  Redirected m m' (f ∷ g ∷ fs) fs' =
      (f' : Frame) × (rest : List Frame) × (fs' ≡ f' ∷ rest)
      × Redirects elf sm m f f' (read64 m' f.ret_addr)
      × Redirected m m' (g ∷ fs) rest

  module _ (v : IsValid sm) (recs : length sm.stk_map_records ≤ 2 ^ 32)
      (funs : length sm.stk_size_records ≤ 2 ^ 32) where
    -- From memory `m`, whose slots still hold what they held in `m₀`.
    collect_from_lem :
        (m₀ m : Memory) (fs : List Frame)
        → ClearSlots fs
        → Held m₀ m fs
        → ((fs' : List Frame) × (m' : Memory) × (collect_from elf sm fs m ≡ ok (fs', m'))
            × Redirected m₀ m' fs fs'
            × ((a : ℕ) → Clear a fs → read64 m' a ≡ read64 m a))
          ⊎ (collect_from elf sm fs m ≡ err null_pointer)
          ⊎ (id : ℕ) × (collect_from elf sm fs m ≡ err (unopt_map_record_not_found id))
    unfolding collect_from
    collect_from_lem m₀ m [] clear held = inl ([], m, refl, refl, λ a out. refl)
    collect_from_lem m₀ m (f ∷ []) clear held = inl (f ∷ [], m, refl, refl, λ a out. refl)
    collect_from_lem m₀ m (f ∷ g ∷ fs) (apart, clear) (here, held) =
        elim (collect_frame_lem elf sm v recs funs f m) [
          | inr (inl e) ↦ inr (inl (rw e refl))
          | inr (inr (id, e)) ↦ inr (inr (id, rw e refl))
          | inl (f', target, small, e, red) ↦
              let m1 = write64 m f.ret_addr target in
              elim (collect_from_lem m₀ m1 (g ∷ fs) clear
                (Held-write64 m₀ m f.ret_addr target (g ∷ fs) apart held)) [
                  | inr (inl e') ↦ inr (inl (rw (e, e') refl))
                  | inr (inr (id, e')) ↦ inr (inr (id, rw (e, e') refl))
                  | inl (rest, m', e', red', same) ↦
                      let slot : read64 m' f.ret_addr ≡ target =
                        same f.ret_addr apart ∙ read64-write64 m f.ret_addr target small in
                      inl (
                        f' ∷ rest,
                        m',
                        rw (e, e') refl,
                        (f', rest, refl, Redirects-agree m m₀ f f' target _ here slot red, red'),
                        λ a (out, outs). same a outs ∙ read64-write64_ne m f.ret_addr target a out,
                      )
                ]
        ]

    -- On a valid stack map with no more than 2 ^ 32 records and functions, and if the slots of the
    -- return addresses do not overlap, `collect_map_records` reads through NULL or exits for a frame
    -- without twin, or redirects every frame but the last: its slot then holds the address behind
    -- the call of the twin of the first call at its old return address or above, and the frame has
    -- the records and the size that belong to that call. No other word of memory changes, and neither
    -- do the last frame and the depth.
    pub collect_map_records-Redirected :
        (state : CallStackState) (m : Memory)
        → ClearSlots state.frames
        → ((fs' : List Frame) × (m' : Memory) × (collect_map_records elf sm state m
              ≡ ok (record state { frames = fs' }, m'))
            × Redirected m m' state.frames fs'
            × ((a : ℕ) → Clear a state.frames → read64 m' a ≡ read64 m a))
          ⊎ (collect_map_records elf sm state m ≡ err null_pointer)
          ⊎ (id : ℕ) × (collect_map_records elf sm state m ≡ err (unopt_map_record_not_found id))
    unfolding collect_map_records
    collect_map_records-Redirected state m clear =
        elim (collect_from_lem m m state.frames clear (Held-self m state.frames)) [
          | inr (inl e) ↦ inr (inl (rw e refl))
          | inr (inr (id, e)) ↦ inr (inr (id, rw e refl))
          | inl (fs', m', e, red, same) ↦ inl (fs', m', rw e refl, red, same)
        ]
