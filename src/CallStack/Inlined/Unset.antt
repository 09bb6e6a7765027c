-- ===== src/CallStack/Inlined/Unset.antt =====
-- The fields of restored frames that `get_restored_state` in call_stack_state.c does not set, and what
-- `collect_inlined_frames` makes of them.
use llvm_guard_handler.Base.{
  ℕ, zero, suc, ◌+◌, ◌-◌, ◌^◌, ◌<◌, ◌≡◌, refl, subst, ap, ◌∙◌, inl, inr, Bool, true, false, ◌&&◌,
  Bool-cases, Option-cases, none, some, List, [], ◌∷◌, ◌++◌, map, length, All, arith, leb, ltb,
  add64, ◌==◌, get_elem?, ok, err, returns, require, null_pointer,
}
use llvm_guard_handler.Elf.{Elf, get_sym_end, get_sym_start}
use llvm_guard_handler.StackMap.{StackMapRecord, StackSizeRecord, StackMap, patchpoint_call_size}
use llvm_guard_handler.StackMap.Query.{
  call_addr, get_size_record, get_size_record_in_func, first_rec_after_addr,
}
use llvm_guard_handler.CallStack.{Frame, CallStackState}
use llvm_guard_handler.CallStack.Frames.Insert.{insert_frames-append}
use llvm_guard_handler.CallStack.Inlined.{
  get_next_patchpoint, restored_frame, restored_from, get_restored_state, adopt, inlined_frames,
  copy_after, collect_round, collect_rounds, collect_inlined_frames,
}

-- The stored return address of a frame is what `realloc` left there.
abbrev pub Unset : Frame → List Frame → Type 0
Unset fresh fs = All (λ x. x.stored_ret_addr ≡ fresh.stored_ret_addr) fs

ok_inj : {A : Type 0} {x y : A} → ok x ≡ ok y → x ≡ y
ok_inj h = cc

module _ (elf : Elf) (sm : StackMap) (fresh : Frame) where
  restored_frame-unset :
      (start_addr : ℕ) (rec : StackMapRecord) (frame : Frame) (next : ℕ)
      → restored_frame elf sm fresh start_addr rec ≡ ok (frame, next)
      → frame.stored_ret_addr ≡ fresh.stored_ret_addr
  unfolding restored_frame
  restored_frame-unset start_addr rec frame next h = ground (arith, h)

  restored_from-Unset :
      (fuel start_addr ppid opt : ℕ) (fs : List Frame)
      → restored_from elf sm fresh fuel start_addr ppid opt ≡ ok fs
      → Unset fresh fs
  unfolding restored_from
  restored_from-Unset zero start_addr ppid opt fs h = cc
  restored_from-Unset (suc fuel) start_addr ppid opt fs h =
      let (found, h', e) = returns (first_rec_after_addr sm opt) h in
      elim (Option-cases found) [
        | inl missing ↦
            let none_left : [] ≡ fs = ok_inj (rw missing at h') in subst (Unset fresh) none_left tt
        | inr (rec, e') ↦
            let ((frame, next), h'', e'') =
              returns (restored_frame elf sm fresh start_addr rec) (rw e' at h') in
            let unset = restored_frame-unset start_addr rec frame next e'' in
            elim (Bool-cases (rec.patchpoint_id == ppid)) [
              | inl last ↦
                  let one : frame ∷ [] ≡ fs = ok_inj (rw last at h'') in
                  subst (Unset fresh) one (unset, tt)
              | inr more ↦
                  let (rest, h3, e3) =
                    returns (restored_from elf sm fresh fuel start_addr ppid next)
                      (rw more at h'') in
                  let all : frame ∷ rest ≡ fs = ok_inj h3 in
                  subst (Unset fresh) all
                    (unset, restored_from-Unset fuel start_addr ppid next rest e3)
            ]
      ]

  adopt-Unset :
      (outer : Frame) (fs : List Frame)
      → Unset fresh fs
      → Unset fresh (map (adopt elf sm fresh outer) fs)
  adopt-Unset outer [] unset = tt
  adopt-Unset outer (f ∷ fs) (unset, later) = (unfold adopt in unset, adopt-Unset outer fs later)

  inlined_frames-Unset :
      (rec : StackMapRecord) (ret_addr : ℕ) (outer : Frame) (fs : List Frame)
      → inlined_frames elf sm fresh rec ret_addr outer ≡ ok fs
      → Unset fresh fs
  unfolding inlined_frames get_restored_state
  inlined_frames-Unset rec ret_addr outer fs h =
      let next_addr = add64 ret_addr (patchpoint_call_size + 1) in
      let (real_fun, h1, e1) =
        returns (require (get_size_record_in_func sm (get_sym_start elf next_addr)) null_pointer)
          h in
      let (ppid, h2, e2) = returns (get_next_patchpoint sm (call_addr real_fun rec) real_fun) h1 in
      let (state, h3, e3) = returns (get_restored_state elf sm fresh next_addr ppid) h2 in
      let rounds = length sm.stk_map_records + 1 in
      let (restored, h4, e4) =
        returns (restored_from elf sm fresh rounds next_addr ppid next_addr) e3 in
      let unset = restored_from-Unset rounds next_addr ppid next_addr restored e4 in
      let all : map (adopt elf sm fresh outer) restored ≡ fs =
        ap (λ (s : CallStackState). map (adopt elf sm fresh outer) s.frames) (ok_inj h4)
        ∙ ok_inj h3 in
      subst (Unset fresh) all (adopt-Unset outer restored unset)

  get_elem?-behind :
      (xs : List Frame) (g : Frame) (fs : List Frame)
      → (y : Frame) × (get_elem? (xs ++ (g ∷ fs)) 0 ≡ some y)
  get_elem?-behind [] g fs = (g, refl)
  get_elem?-behind (x ∷ xs) g fs = (x, refl)

  module _ (moved : ℕ → Bool) (f g h x : Frame) (fs xs : List Frame)
      (fun fun' : StackSizeRecord) where
    abbrev before : CallStackState
    before = record { frames = f ∷ g ∷ h ∷ fs; depth = 1 + length (g ∷ h ∷ fs) }

    abbrev after : CallStackState
    after = record {
      frames = f ∷ x ∷ xs ++ (g ∷ h ∷ fs);
      depth = 1 + length (g ∷ h ∷ fs) + length (x ∷ xs);
    }

    first_round :
        1 + length (g ∷ h ∷ fs) + length (x ∷ xs) < 2 ^ 32
        → get_size_record sm f.record_of.index ≡ some fun
        → (leb fun.fun_addr f.stored_ret_addr
            && ltb f.stored_ret_addr (get_sym_end elf fun.fun_addr))
          ≡ false
        → inlined_frames elf sm fresh f.record_of f.stored_ret_addr g ≡ ok (x ∷ xs)
        → moved (1 + length (g ∷ h ∷ fs) + length (x ∷ xs)) ≡ false
        → collect_round elf sm fresh moved 0 before before.frames
          ≡ ok (after, some after.frames, true)
    unfolding collect_round copy_after
    first_round small own elsewhere found stays =
        let inserted = insert_frames-append fresh (f ∷ []) (g ∷ h ∷ fs) (x ∷ xs) small in
        rw (own, elsewhere, found, inserted, stays) refl

    second_round :
        x.stored_ret_addr ≡ fresh.stored_ret_addr
        → get_size_record sm x.record_of.index ≡ some fun'
        → (leb fun'.fun_addr fresh.stored_ret_addr
            && ltb fresh.stored_ret_addr (get_sym_end elf fun'.fun_addr))
          ≡ false
        → get_size_record_in_func sm (get_sym_start elf (add64 fresh.stored_ret_addr 14)) ≡ none
        → collect_round elf sm fresh moved 1 after after.frames ≡ err null_pointer
    unfolding collect_round inlined_frames
    second_round unset own elsewhere unknown =
        let (y, behind) = get_elem?-behind xs g (h ∷ fs) in
        rw (own, unset, elsewhere, behind, unknown) refl

    -- `get_restored_state` leaves the stored return address of a frame unset, and
    -- `collect_inlined_frames` tests it in the next round. In a state of three frames or more with
    -- fewer than 2 ^ 32 frames in the end, whose first frame returns outside the function of its
    -- record: if frames are found for it, `realloc` does not move the array, and what it left in
    -- the first of them is an address outside the function of that frame's record, 14 bytes below
    -- one that no function of the stack map contains, then `collect_inlined_frames` reads through
    -- NULL.
    pub collect_inlined_frames-null_pointer :
        1 + length (g ∷ h ∷ fs) + length (x ∷ xs) < 2 ^ 32
        → get_size_record sm f.record_of.index ≡ some fun
        → (leb fun.fun_addr f.stored_ret_addr
            && ltb f.stored_ret_addr (get_sym_end elf fun.fun_addr))
          ≡ false
        → inlined_frames elf sm fresh f.record_of f.stored_ret_addr g ≡ ok (x ∷ xs)
        → moved (1 + length (g ∷ h ∷ fs) + length (x ∷ xs)) ≡ false
        → get_size_record sm x.record_of.index ≡ some fun'
        → (leb fun'.fun_addr fresh.stored_ret_addr
            && ltb fresh.stored_ret_addr (get_sym_end elf fun'.fun_addr))
          ≡ false
        → get_size_record_in_func sm (get_sym_start elf (add64 fresh.stored_ret_addr 14)) ≡ none
        → collect_inlined_frames elf sm fresh moved before ≡ err null_pointer
    unfolding collect_inlined_frames collect_rounds
    collect_inlined_frames-null_pointer small own elsewhere found stays own' elsewhere' unknown =
        let (unset, later) = inlined_frames-Unset f.record_of f.stored_ret_addr g (x ∷ xs) found in
        let rounds : 1 + length (g ∷ h ∷ fs) - 1 ≡ suc (suc (length fs)) = omega arith in
        let one : 0 + 1 ≡ 1 = omega arith in
        rw
          (
            rounds,
            first_round small own elsewhere found stays,
            one,
            second_round unset own' elsewhere' unknown,
          )
          refl
