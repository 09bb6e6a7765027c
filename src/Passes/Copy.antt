-- ===== src/Passes/Copy.antt =====
-- src/passes/function_passes/UnoptimizedCopyPass.cpp: unoptimised copies of the functions of a
-- module, and the callbacks of the patchpoints in them.
pub mod Callbacks
pub mod Found
use llvm_guard_handler.Base.{
  ℕ, Bool, true, false, not, ◌&&◌, Option, none, some, List, [], ◌∷◌, ◌++◌, if◌then◌else◌, Result,
  ok, err, ◌>>=◌, null_pointer,
}
use llvm_guard_handler.Elf.{same_string}
use llvm_guard_handler.Passes.Names.{Name, unopt_prefix, starts_with}
use llvm_guard_handler.Passes.Ir.{
  Callback, null, function, Inst, call, inline_asm, stackmap, patchpoint, ret, convert, other,
  Function, Module, get_function, is_patchpoint,
}
use llvm_guard_handler.Passes.CheckPoint.{guard_fun_name}

-- `CloneFunction`, the attributes and `setName`: the copy has the instructions of the function.
unfoldable pub copy_of : Function → Function
copy_of f = record f { name = unopt_prefix ++ f.name; no_inline = true; optimize_none = true }

-- The loop of `doInitialization`. A copy stands behind all functions; the loop meets it later, under
-- its new name, and goes past it.
unfoldable pub copies : List Function → List Function
copies [] = []
copies (f ∷ fs) =
    if not (starts_with unopt_prefix f.name) && not f.is_declaration && not f.available_externally
    then copy_of f ∷ copies fs
    else copies fs

-- `doInitialization`.
unfoldable pub do_initialization : Module → Module
unfolding copies copy_of
do_initialization mod_ = mod_ ++ copies mod_

-- The callback of a patchpoint in an unoptimised function.
unfoldable pub unopt_callback : Module → Callback → Callback
unopt_callback mod_ null = null
unopt_callback mod_ (function callee) =
    if not (same_string callee guard_fun_name) && not (starts_with unopt_prefix callee)
    then elim (get_function (unopt_prefix ++ callee) mod_) [
      | none ↦ function callee
      | some new ↦ function new.name
    ]
    else function callee

-- The loop body of `runOnFunction`. `getPatchpointType` reads through the called function, which is
-- NULL for a call through a pointer.
unfoldable pub copy_inst : Module → Inst → Result Inst
copy_inst mod_ (call none args) = err null_pointer
copy_inst mod_ (call (some callee) args) = ok (call (some callee) args)
copy_inst mod_ inline_asm = ok inline_asm
copy_inst mod_ (stackmap id shadow live) = ok (stackmap id shadow live)
copy_inst mod_ (patchpoint type id shadow callback args live) =
    if is_patchpoint type
    then ok (patchpoint type id shadow (unopt_callback mod_ callback) args live)
    else ok (patchpoint type id shadow callback args live)
copy_inst mod_ (ret value) = ok (ret value)
copy_inst mod_ (convert how) = ok (convert how)
copy_inst mod_ (other n) = ok (other n)

unfoldable pub copy_block : Module → List Inst → Result (List Inst)
copy_block mod_ [] = ok []
copy_block mod_ (inst ∷ insts) = do
  inst' ← copy_inst mod_ inst
  insts' ← copy_block mod_ insts
  ok (inst' ∷ insts')

unfoldable pub copy_blocks : Module → List (List Inst) → Result (List (List Inst))
copy_blocks mod_ [] = ok []
copy_blocks mod_ (block ∷ blocks) = do
  block' ← copy_block mod_ block
  blocks' ← copy_blocks mod_ blocks
  ok (block' ∷ blocks')

-- `runOnFunction`.
unfoldable pub run_on_function : Module → Function → Result Function
run_on_function mod_ f =
    if starts_with unopt_prefix f.name
    then (copy_blocks mod_ f.blocks >>= λ blocks. ok (record f { blocks = blocks }))
    else ok f
