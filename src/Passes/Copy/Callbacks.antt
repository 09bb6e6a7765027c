-- ===== src/Passes/Copy/Callbacks.antt =====
-- The callbacks that `runOnFunction` of src/passes/function_passes/UnoptimizedCopyPass.cpp leaves.
use llvm_guard_handler.Base.{
  ◌≡◌, refl, sym, ap, ◌∙◌, ◌⊎◌, inl, inr, true, false, Bool-cases, Option-cases, none, some, List,
  [], ◌∷◌, ◌++◌, All, ok,
}
use llvm_guard_handler.Elf.{same_string}
use llvm_guard_handler.Passes.Names.{Name, unopt_prefix, starts_with}
use llvm_guard_handler.Passes.Names.Twins.{same_string-eq, starts_with-append}
use llvm_guard_handler.Passes.Ir.{Callback, Inst, Function, Module, get_function, is_patchpoint}
use llvm_guard_handler.Passes.CheckPoint.{guard_fun_name}
use llvm_guard_handler.Passes.Copy.{
  unopt_callback, copy_inst, copy_block, copy_blocks, run_on_function,
}

-- A callback that an unoptimised function may have: none, the guard failure handler, an unoptimised
-- function, or a function without copy.
abbrev pub IsUnopt : Module → Callback → Type 0
IsUnopt mod_ Callback.null = Unit
IsUnopt mod_ (Callback.function callee) =
    (same_string callee guard_fun_name ≡ true)
    ⊎ (starts_with unopt_prefix callee ≡ true)
    ⊎ (get_function (unopt_prefix ++ callee) mod_ ≡ none)

abbrev pub Calls : Module → Inst → Type 0
Calls mod_ (Inst.patchpoint type id shadow callback args live) =
    (is_patchpoint type ≡ false) ⊎ IsUnopt mod_ callback
Calls mod_ (Inst.stackmap id shadow live) = Unit
Calls mod_ (Inst.call callee args) = Unit
Calls mod_ Inst.inline_asm = Unit
Calls mod_ (Inst.ret value) = Unit
Calls mod_ (Inst.convert how) = Unit
Calls mod_ (Inst.other n) = Unit

-- No call goes through a pointer.
abbrev pub IsDirect : Inst → Type 0
IsDirect (Inst.call none args) = ⊥
IsDirect (Inst.call (some callee) args) = Unit
IsDirect (Inst.patchpoint type id shadow callback args live) = Unit
IsDirect (Inst.stackmap id shadow live) = Unit
IsDirect Inst.inline_asm = Unit
IsDirect (Inst.ret value) = Unit
IsDirect (Inst.convert how) = Unit
IsDirect (Inst.other n) = Unit

get_function-name :
    (name : Name) (mod_ : Module) (f : Function) → get_function name mod_ ≡ some f → f.name ≡ name
unfolding get_function
get_function-name name [] f e = cc
get_function-name name (g ∷ gs) f e = elim (Bool-cases (same_string g.name name)) [
  | inl same ↦
      let at : g ≡ f = cc (rw (same, get_function) at e) in
      ap (λ (x : Function). x.name) (sym at) ∙ same_string-eq g.name name same
  | inr differ ↦ get_function-name name gs f (rw (differ, get_function) at e)
]

unopt_callback-IsUnopt : (mod_ : Module) (c : Callback) → IsUnopt mod_ (unopt_callback mod_ c)
unfolding unopt_callback
unopt_callback-IsUnopt mod_ Callback.null = tt
unopt_callback-IsUnopt mod_ (Callback.function callee) =
    elim (Bool-cases (same_string callee guard_fun_name)) [
      | inl guard ↦ rw guard (inl guard)
      | inr ordinary ↦ elim (Bool-cases (starts_with unopt_prefix callee)) [
        | inl unopt ↦ rw (ordinary, unopt) (inr (inl unopt))
        | inr opt ↦ elim (Option-cases (get_function (unopt_prefix ++ callee) mod_)) [
          | inl no_copy ↦ rw (ordinary, opt, no_copy) (inr (inr no_copy))
          | inr (new, found) ↦
              let named = get_function-name (unopt_prefix ++ callee) mod_ new found in
              rw (ordinary, opt, found)
                (inr (
                  inl
                    (ap (starts_with unopt_prefix) named ∙ starts_with-append unopt_prefix callee)))
        ]
      ]
    ]

IsUnopt-unopt_callback : (mod_ : Module) (c : Callback) → IsUnopt mod_ c → unopt_callback mod_ c ≡ c
unfolding unopt_callback
IsUnopt-unopt_callback mod_ Callback.null h = refl
IsUnopt-unopt_callback mod_ (Callback.function callee) (inl guard) = rw guard refl
IsUnopt-unopt_callback mod_ (Callback.function callee) (inr (inl unopt)) =
    elim (Bool-cases (same_string callee guard_fun_name)) [
      | inl guard ↦ rw guard refl
      | inr ordinary ↦ rw (ordinary, unopt) refl
    ]
IsUnopt-unopt_callback mod_ (Callback.function callee) (inr (inr no_copy)) =
    elim (Bool-cases (same_string callee guard_fun_name)) [
      | inl guard ↦ rw guard refl
      | inr ordinary ↦ elim (Bool-cases (starts_with unopt_prefix callee)) [
        | inl unopt ↦ rw (ordinary, unopt) refl
        | inr opt ↦ rw (ordinary, opt, no_copy) refl
      ]
    ]

module _ (mod_ : Module) where
  copy_inst_lem :
      (inst : Inst)
      → IsDirect inst
      → (inst' : Inst) × (copy_inst mod_ inst ≡ ok inst')
        × Calls mod_ inst'
        × (copy_inst mod_ inst' ≡ ok inst')
  unfolding copy_inst
  copy_inst_lem (Inst.call none args) h = absurd h
  copy_inst_lem (Inst.call (some callee) args) h = (Inst.call (some callee) args, refl, tt, refl)
  copy_inst_lem Inst.inline_asm h = (Inst.inline_asm, refl, tt, refl)
  copy_inst_lem (Inst.stackmap id shadow live) h = (Inst.stackmap id shadow live, refl, tt, refl)
  copy_inst_lem (Inst.ret value) h = (Inst.ret value, refl, tt, refl)
  copy_inst_lem (Inst.convert how) h = (Inst.convert how, refl, tt, refl)
  copy_inst_lem (Inst.other n) h = (Inst.other n, refl, tt, refl)
  copy_inst_lem (Inst.patchpoint type id shadow callback args live) h =
      elim (Bool-cases (is_patchpoint type)) [
        | inl yes_it_is ↦
            let callback' = unopt_callback mod_ callback in
            let unopt = unopt_callback-IsUnopt mod_ callback in
            (
              Inst.patchpoint type id shadow callback' args live,
              rw yes_it_is refl,
              inr unopt,
              rw (yes_it_is, IsUnopt-unopt_callback mod_ callback' unopt) refl,
            )
        | inr other ↦ (
          Inst.patchpoint type id shadow callback args live,
          rw other refl,
          inl other,
          rw other refl,
        )
      ]

  copy_block_lem :
      (insts : List Inst)
      → All IsDirect insts
      → (insts' : List Inst) × (copy_block mod_ insts ≡ ok insts')
        × All (Calls mod_) insts'
        × (copy_block mod_ insts' ≡ ok insts')
  unfolding copy_block
  copy_block_lem [] h = ([], refl, tt, refl)
  copy_block_lem (inst ∷ insts) (h, hs) =
      let (inst', e, calls, again) = copy_inst_lem inst h in
      let (insts', es, callss, agains) = copy_block_lem insts hs in
      (inst' ∷ insts', rw (e, es) refl, (calls, callss), rw (again, agains) refl)

  copy_blocks_lem :
      (blocks : List (List Inst))
      → All (All IsDirect) blocks
      → (blocks' : List (List Inst)) × (copy_blocks mod_ blocks ≡ ok blocks')
        × All (All (Calls mod_)) blocks'
        × (copy_blocks mod_ blocks' ≡ ok blocks')
  unfolding copy_blocks
  copy_blocks_lem [] h = ([], refl, tt, refl)
  copy_blocks_lem (block ∷ blocks) (h, hs) =
      let (block', e, calls, again) = copy_block_lem block h in
      let (blocks', es, callss, agains) = copy_blocks_lem blocks hs in
      (block' ∷ blocks', rw (e, es) refl, (calls, callss), rw (again, agains) refl)

  -- In an unoptimised function without calls through pointers, UnoptimizedCopyPass ends and leaves
  -- only patchpoints that call back the guard failure handler, an unoptimised function, a function
  -- without copy, or nothing; a second run changes nothing.
  pub run_on_function-Calls :
      (f : Function)
      → starts_with unopt_prefix f.name ≡ true
      → All (All IsDirect) f.blocks
      → (f' : Function) × (run_on_function mod_ f ≡ ok f')
        × All (All (Calls mod_)) f'.blocks
        × (run_on_function mod_ f' ≡ ok f')
  unfolding run_on_function
  run_on_function-Calls f unopt direct =
      let (blocks, e, calls, again) = copy_blocks_lem f.blocks direct in
      (record f { blocks = blocks }, rw (unopt, e) refl, calls, rw (unopt, again) refl)
