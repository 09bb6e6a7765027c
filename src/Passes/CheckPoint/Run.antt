-- ===== src/Passes/CheckPoint/Run.antt =====
-- A run of `CheckPointPass` over a function, against the numbering of its calls.
use llvm_guard_handler.Base.{
  ℕ, zero, suc, ◌+◌, ◌≡◌, refl, sym, ap, ◌∙◌, inl, inr, true, false, Bool-cases, List, [], ◌∷◌,
  ◌++◌, arith, All, ok, returns,
}
use llvm_guard_handler.Passes.Names.{Name}
use llvm_guard_handler.Passes.Ids.{
  StackMaps, push_back, next_id, get_next_patchpoint_id, number_calls,
}
use llvm_guard_handler.Passes.Ir.{Inst, Module}
use llvm_guard_handler.Passes.CheckPoint.{takes_id, check_inst, check_block, check_blocks}
use llvm_guard_handler.Passes.CheckPoint.Emitted.{
  ids_of, block_ids, Resolved, handled, count_of, count_block, count_blocks, push_all,
}

-- The ID is recorded.
get_next_patchpoint_id-push_back :
    (name : Name) (maps maps' : StackMaps) (id : ℕ)
    → get_next_patchpoint_id name maps ≡ ok (id, maps')
    → maps' ≡ push_back name id maps
unfolding get_next_patchpoint_id
get_next_patchpoint_id-push_back name maps maps' id e =
    let (next, made, at) = returns (next_id name maps) e in cc

number_calls-one :
    (name : Name) (maps maps' : StackMaps)
    → number_calls name 1 maps ≡ ok maps'
    → (id : ℕ) × (get_next_patchpoint_id name maps ≡ ok (id, maps'))
unfolding number_calls
number_calls-one name maps maps' e =
    let ((id, m), made, at) = returns (get_next_patchpoint_id name maps) e in (id, cc)

number_calls-add :
    (name : Name) (a b : ℕ) (maps maps'' : StackMaps)
    → number_calls name (a + b) maps ≡ ok maps''
    → (maps' : StackMaps) × (number_calls name a maps ≡ ok maps')
      × (number_calls name b maps' ≡ ok maps'')
unfolding number_calls
number_calls-add name zero b maps maps'' e =
    (maps, refl, let z : zero + b ≡ b = omega arith in rw z at e)
number_calls-add name (suc a) b maps maps'' e =
    let z : suc a + b ≡ suc (a + b) = omega arith in
    let ((id, m), rest, at) = returns (get_next_patchpoint_id name maps) (rw z at e) in
    let (m', first, second) = number_calls-add name a b m maps'' rest in (m', rw at first, second)

push_all-append :
    (name : Name) (xs ys : List ℕ) (maps : StackMaps)
    → push_all name (xs ++ ys) maps ≡ push_all name ys (push_all name xs maps)
push_all-append name [] ys maps = refl
push_all-append name (x ∷ xs) ys maps = push_all-append name xs ys (push_back name x maps)

ids_of-append : (xs ys : List Inst) → ids_of (xs ++ ys) ≡ ids_of xs ++ ids_of ys
ids_of-append [] ys = refl
ids_of-append (Inst.stackmap id shadow live ∷ xs) ys = ap (◌∷◌ id) (ids_of-append xs ys)
ids_of-append (Inst.patchpoint type id shadow callback args live ∷ xs) ys =
    ap (◌∷◌ id) (ids_of-append xs ys)
ids_of-append (Inst.call callee args ∷ xs) ys = ids_of-append xs ys
ids_of-append (Inst.inline_asm ∷ xs) ys = ids_of-append xs ys
ids_of-append (Inst.ret value ∷ xs) ys = ids_of-append xs ys
ids_of-append (Inst.convert how ∷ xs) ys = ids_of-append xs ys
ids_of-append (Inst.other n ∷ xs) ys = ids_of-append xs ys

module _ (mod_ : Module) (name : Name) where
  check_inst_lem :
      (inst : Inst) (maps maps' : StackMaps)
      → Resolved mod_ inst
      → number_calls name (count_of (takes_id mod_ name inst)) maps ≡ ok maps'
      → (insts : List Inst) × (check_inst mod_ name inst maps ≡ ok (insts, maps'))
        × (maps' ≡ push_all name (ids_of insts) maps)
  unfolding check_inst
  check_inst_lem inst maps maps' r e =
      let h = handled mod_ name inst r in
      elim (Bool-cases h.takes) [
        | inl takes ↦
            let taken : takes_id mod_ name inst ≡ ok true = h.taken ∙ ap ok takes in
            let (id, made) = number_calls-one name maps maps' (rw taken at e) in
            (
              h.insts id,
              rw (taken, made, h.numbers takes id) refl,
              get_next_patchpoint_id-push_back name maps maps' id made
                  ∙ ap (λ (ids : List ℕ). push_all name ids maps) (sym (h.emits id)),
            )
        | inr leaves ↦
            let taken : takes_id mod_ name inst ≡ ok false = h.taken ∙ ap ok leaves in
            let same : maps ≡ maps' = unfold number_calls in cc (rw taken at e) in
            (
              inst ∷ [],
              rw taken (ap (λ (m : StackMaps). ok (inst ∷ [], m)) same),
              sym same ∙ ap (λ (ids : List ℕ). push_all name ids maps) (sym h.plain),
            )
      ]

  check_block_lem :
      (insts : List Inst) (maps maps' : StackMaps)
      → All (Resolved mod_) insts
      → number_calls name (count_block mod_ name insts) maps ≡ ok maps'
      → (out : List Inst) × (check_block mod_ name insts maps ≡ ok (out, maps'))
        × (maps' ≡ push_all name (ids_of out) maps)
  unfolding check_block
  check_block_lem [] maps maps' r e =
      let same : maps ≡ maps' = unfold number_calls in cc e in
      ([], ap (λ (m : StackMaps). ok ([], m)) same, sym same)
  check_block_lem (inst ∷ insts) maps maps'' (r, rs) e =
      let (maps', first, second) =
        number_calls-add name (count_of (takes_id mod_ name inst)) (count_block mod_ name insts)
          maps maps'' e in
      let (here, e', pushed) = check_inst_lem inst maps maps' r first in
      let (rest, e'', pushed') = check_block_lem insts maps' maps'' rs second in
      (
        here ++ rest,
        rw (e', e'') refl,
        pushed'
            ∙ ap (push_all name (ids_of rest)) pushed
            ∙ sym (push_all-append name (ids_of here) (ids_of rest) maps)
            ∙ ap (λ (ids : List ℕ). push_all name ids maps) (sym (ids_of-append here rest)),
      )

  pub check_blocks_lem :
      (blocks : List (List Inst)) (maps maps' : StackMaps)
      → All (All (Resolved mod_)) blocks
      → number_calls name (count_blocks mod_ name blocks) maps ≡ ok maps'
      → (out : List (List Inst)) × (check_blocks mod_ name blocks maps ≡ ok (out, maps'))
        × (maps' ≡ push_all name (block_ids out) maps)
  unfolding check_blocks
  check_blocks_lem [] maps maps' r e =
      let same : maps ≡ maps' = unfold number_calls in cc e in
      ([], ap (λ (m : StackMaps). ok ([], m)) same, sym same)
  check_blocks_lem (block ∷ blocks) maps maps'' (r, rs) e =
      let (maps', first, second) =
        number_calls-add name (count_block mod_ name block) (count_blocks mod_ name blocks) maps
          maps'' e in
      let (here, e', pushed) = check_block_lem block maps maps' r first in
      let (rest, e'', pushed') = check_blocks_lem blocks maps' maps'' rs second in
      (
        here ∷ rest,
        rw (e', e'') refl,
        pushed'
            ∙ ap (push_all name (block_ids rest)) pushed
            ∙ sym (push_all-append name (ids_of here) (block_ids rest) maps),
      )
