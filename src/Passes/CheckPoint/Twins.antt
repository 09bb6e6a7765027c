-- ===== src/Passes/CheckPoint/Twins.antt =====
-- A run of `CheckPointPass` over functions and the copies of them.
use llvm_guard_handler.Base.{
  All-append, ℕ, ◌^◌, ◌≤◌, ◌<◌, ◌≡◌, sym, subst, ap, ◌∙◌, List, [], ◌++◌, arith, All, ok,
}
use llvm_guard_handler.Passes.Names.{Name}
use llvm_guard_handler.Passes.Ids.{StackMaps, number_functions}
use llvm_guard_handler.Passes.Ids.Numbering.{assigned}
use llvm_guard_handler.Passes.Ids.Blocks.{ids_end}
use llvm_guard_handler.Passes.Ids.Module.{twin_calls, twins, number_functions-module}
use llvm_guard_handler.Passes.Ids.Twins.{twin_ids}
use llvm_guard_handler.Passes.Ids.Unique.{
  all_ids, all_ids-append, all_ids-twins, NoRepeat, Within-le, Within-assigned, module_NoRepeat,
}
use llvm_guard_handler.Passes.Ir.{Function, Module}
use llvm_guard_handler.Passes.Copy.{copies}
use llvm_guard_handler.Passes.CheckPoint.{run_on_functions}
use llvm_guard_handler.Passes.CheckPoint.Emitted.{Resolved}
use llvm_guard_handler.Passes.CheckPoint.Clones.{
  code_ids, calls_of, AllResolved, Named, run_on_functions_lem,
}
use llvm_guard_handler.Passes.CheckPoint.Copies.{
  Distinct-calls_of, calls_of-append, calls_of-copies, blocks_of_copies, Named-append_copies,
  Named-copies, Absent-empty, Originals,
}

-- The pass on functions and their copies numbers the calls as `getNextPatchpointID` does.
run_on_functions-copies :
    (mod_ : Module) (fs : List Function)
    → Originals mod_ fs
    → Named fs
    → AllResolved mod_ fs
    → ids_end 1 (calls_of mod_ fs) ≤ 2 ^ 64
    → let maps = assigned 1 (calls_of mod_ fs) in
      (out : List Function) × (run_on_functions mod_ (fs ++ copies fs) []
        ≡ ok (out, maps ++ twins maps))
      × (all_ids (maps ++ twins maps) ≡ code_ids out)
run_on_functions-copies mod_ fs originals named resolved small =
    let distinct = Distinct-calls_of mod_ fs originals named in
    let maps = assigned 1 (calls_of mod_ fs) in
    let calls : calls_of mod_ (fs ++ copies fs)
        ≡ calls_of mod_ fs ++ twin_calls (calls_of mod_ fs) =
      calls_of-append mod_ fs (copies fs)
      ∙ ap (λ (x : List (Name × ℕ)). calls_of mod_ fs ++ x) (calls_of-copies mod_ fs originals) in
    run_on_functions_lem mod_ (fs ++ copies fs) [] (maps ++ twins maps)
      (All-append (λ f. All (All (Resolved mod_)) f.blocks) fs (copies fs) resolved
        (blocks_of_copies (All (All (Resolved mod_))) mod_ fs originals resolved))
      (Named-append_copies mod_ fs fs originals originals named
        (Named-copies mod_ fs originals named))
      (Absent-empty (fs ++ copies fs))
      (ap (λ (x : List (Name × ℕ)). number_functions x []) calls
        ∙ number_functions-module (calls_of mod_ fs) distinct small)

-- If the functions of a module that have bodies have different names without the prefix, every call
-- in them is of a function of the module which, if it has a body, has a copy, and the IDs stay
-- below 2 ^ 63, then CheckPointPass ends on them and their copies, and no ID stands twice in the code
-- it leaves; the IDs in the code are those of `stackMaps`, in their order.
pub run_on_functions-NoRepeat :
    (mod_ : Module) (fs : List Function)
    → Originals mod_ fs
    → Named fs
    → AllResolved mod_ fs
    → ids_end 1 (calls_of mod_ fs) ≤ 2 ^ 63
    → (out : List Function) × (maps : StackMaps) × (run_on_functions mod_ (fs ++ copies fs) []
        ≡ ok (out, maps))
      × (code_ids out ≡ all_ids maps)
      × NoRepeat (code_ids out)
run_on_functions-NoRepeat mod_ fs originals named resolved small =
    let (out, ran, ids) = run_on_functions-copies mod_ fs originals named resolved (omega arith) in
    let maps = assigned 1 (calls_of mod_ fs) in
    (
      out,
      maps ++ twins maps,
      ran,
      sym ids,
      subst NoRepeat ids (module_NoRepeat (calls_of mod_ fs) small),
    )

-- If the functions of a module that have bodies have different names without the prefix, every call
-- in them is of a function of the module which, if it has a body, has a copy, and the IDs stay
-- below 2 ^ 63, then CheckPointPass ends on them and their copies, and the IDs in the code are first
-- those of the functions, which are positive and below 2 ^ 63, and then, in the same order, their
-- inverses.
pub run_on_functions-twins :
    (mod_ : Module) (fs : List Function)
    → Originals mod_ fs
    → Named fs
    → AllResolved mod_ fs
    → ids_end 1 (calls_of mod_ fs) ≤ 2 ^ 63
    → (out : List Function) × (maps : StackMaps) × (ids : List ℕ) × (run_on_functions mod_
          (fs ++ copies fs)
          []
        ≡ ok (out, maps))
      × (code_ids out ≡ ids ++ twin_ids ids)
      × All (λ id. (1 ≤ id) × (id < 2 ^ 63)) ids
run_on_functions-twins mod_ fs originals named resolved small =
    let (out, ran, ids) = run_on_functions-copies mod_ fs originals named resolved (omega arith) in
    let maps = assigned 1 (calls_of mod_ fs) in
    (
      out,
      maps ++ twins maps,
      all_ids maps,
      ran,
      sym ids
          ∙ all_ids-append maps (twins maps)
          ∙ ap (λ (x : List ℕ). all_ids maps ++ x) (all_ids-twins maps),
      Within-le 1 (ids_end 1 (calls_of mod_ fs)) 1 (2 ^ 63) (all_ids maps) (omega arith) small
          (Within-assigned 1 (calls_of mod_ fs)),
    )
