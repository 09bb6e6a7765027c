-- ===== src/Passes/CheckPoint.antt =====
-- src/passes/function_passes/CheckPointPass.cpp: calls that make stack map records are inserted
-- into the functions of a module. A block is rewritten instruction by instruction; what the pass
-- inserts is not visited, or is a call of a declaration, which the pass leaves alone.
pub mod Emitted
pub mod Clones
pub mod Copies
pub mod Run
pub mod Twins
use llvm_guard_handler.Base.{
  ℕ, zero, suc, ◌+◌, Bool, true, false, not, ◌||◌, Option, none, some, List, [], ◌∷◌, ◌++◌, ◌==◌,
  if◌then◌else◌, Result, ok, err, ◌>>=◌, require, null_pointer,
}
use llvm_guard_handler.Passes.Names.{Name, unopt_prefix, starts_with, ends_with, get_twin_name}
use llvm_guard_handler.Passes.Ids.{StackMaps, get_next_patchpoint_id}
use llvm_guard_handler.Passes.Ir.{
  Value, const, Callback, null, function, PatchpointType, patchpoint_void, patchpoint_i64,
  Conversion, truncate, int_to_ptr, load_result, Inst, call, inline_asm, stackmap, patchpoint, ret,
  convert, other, ReturnType, void, integer, other_type, Function, Module, get_function,
}

-- "__guard_failure", GUARD_FUN_NAME.
abbrev pub guard_fun_name : Name
guard_fun_name =
    b'_' ∷ b'_' ∷ b'g' ∷ b'u' ∷ b'a' ∷ b'r' ∷ b'd' ∷ b'_' ∷ b'f' ∷ b'a' ∷ b'i' ∷ b'l' ∷ b'u' ∷ b'r'
    ∷ b'e' ∷ []

-- "more_indirection": guards fail in functions whose names end so.
abbrev pub guarded_suffix : Name
guarded_suffix =
    b'm' ∷ b'o' ∷ b'r' ∷ b'e' ∷ b'_' ∷ b'i' ∷ b'n' ∷ b'd' ∷ b'i' ∷ b'r' ∷ b'e' ∷ b'c' ∷ b't' ∷ b'i'
    ∷ b'o' ∷ b'n' ∷ []

abbrev pub shadow_bytes : ℕ
shadow_bytes = 13

-- `doInitialization` appends the declaration of the guard failure handler to the module.
abbrev pub guard_declaration : Function
guard_declaration = record {
  name = guard_fun_name;
  is_declaration = true;
  available_externally = false;
  return_type = void;
  no_inline = false;
  optimize_none = false;
  blocks = [];
}

unfoldable pub do_initialization : Module → Module
do_initialization mod_ = mod_ ++ guard_declaration ∷ []

-- The patchpoint of a guard, before a return instruction.
unfoldable pub guard_inst : Name → ℕ → Inst
unfolding starts_with
guard_inst name id =
    if starts_with unopt_prefix name
    then patchpoint patchpoint_void id shadow_bytes null [] []
    else patchpoint patchpoint_void id shadow_bytes (function guard_fun_name) (const id ∷ []) []

-- How the 64-bit result of a patchpoint becomes that of the call it replaces.
unfoldable pub conversions : ReturnType → List Inst
conversions void = []
conversions (integer bits) = if bits == 64 then [] else convert truncate ∷ []
conversions other_type = convert int_to_ptr ∷ convert load_result ∷ []

unfoldable pub intrinsic_of : ReturnType → PatchpointType
intrinsic_of void = patchpoint_void
intrinsic_of (integer bits) = patchpoint_i64
intrinsic_of other_type = patchpoint_i64

-- The function that the call is to make in an unoptimised function.
unfoldable pub unopt_target : Name → Name
unopt_target callee = if starts_with unopt_prefix callee then callee else get_twin_name callee

-- A call of `callee`, a function with a body, under the ID `id`. In an optimised function a stackmap
-- call follows, in an unoptimised one a patchpoint call replaces it; an empty asm block goes before.
unfoldable pub call_insts : Module → Name → ℕ → Name → List Value → Result (List Inst)
unfolding conversions intrinsic_of unopt_target
call_insts mod_ name id callee args =
    if starts_with unopt_prefix name
    then (do
      target ← require (get_function (unopt_target callee) mod_) null_pointer
      let type = intrinsic_of target.return_type
      let new = patchpoint type id shadow_bytes (function target.name) args []
      ok (inline_asm ∷ new ∷ conversions target.return_type))
    else ok (inline_asm ∷ call (some callee) args ∷ stackmap id shadow_bytes [] ∷ [])

-- Whether the pass gives an ID to an instruction: `err` is a call through a pointer, whose called
-- function is read through NULL.
unfoldable pub takes_id : Module → Name → Inst → Result Bool
takes_id mod_ name (ret value) = ok (ends_with guarded_suffix name)
takes_id mod_ name (call none args) = err null_pointer
takes_id mod_ name (call (some callee) args) = do
  called ← require (get_function callee mod_) null_pointer
  ok (not (called.available_externally || called.is_declaration))
takes_id mod_ name inst = ok Bool.false

-- What an instruction that takes the ID `id` becomes.
unfoldable pub numbered : Module → Name → ℕ → Inst → Result (List Inst)
unfolding guard_inst call_insts
numbered mod_ name id (call (some callee) args) = call_insts mod_ name id callee args
numbered mod_ name id inst = ok (guard_inst name id ∷ inst ∷ [])

-- The loop body of `runOnFunction`.
unfoldable pub check_inst : Module → Name → Inst → StackMaps → Result (List Inst × StackMaps)
check_inst mod_ name inst maps = do
  takes ← takes_id mod_ name inst
  if takes
      then (do
        (id, maps') ← get_next_patchpoint_id name maps
        insts ← numbered mod_ name id inst
        ok (insts, maps'))
      else ok (inst ∷ [], maps)

unfoldable pub check_block : Module → Name → List Inst → StackMaps → Result (List Inst × StackMaps)
check_block mod_ name [] maps = ok ([], maps)
check_block mod_ name (inst ∷ insts) maps = do
  (here, maps') ← check_inst mod_ name inst maps
  (rest, maps'') ← check_block mod_ name insts maps'
  ok (here ++ rest, maps'')

unfoldable pub check_blocks :
    Module → Name → List (List Inst) → StackMaps → Result (List (List Inst) × StackMaps)
check_blocks mod_ name [] maps = ok ([], maps)
check_blocks mod_ name (block ∷ blocks) maps = do
  (block', maps') ← check_block mod_ name block maps
  (rest, maps'') ← check_blocks mod_ name blocks maps'
  ok (block' ∷ rest, maps'')

-- `runOnFunction`.
unfoldable pub run_on_function : Module → Function → StackMaps → Result (Function × StackMaps)
run_on_function mod_ f maps = do
  (blocks, maps') ← check_blocks mod_ f.name f.blocks maps
  ok (record f { blocks = blocks }, maps')

-- The functions of a module, in their order.
unfoldable pub run_on_functions :
    Module → List Function → StackMaps → Result (List Function × StackMaps)
run_on_functions mod_ [] maps = ok ([], maps)
run_on_functions mod_ (f ∷ fs) maps = do
  (f', maps') ← run_on_function mod_ f maps
  (fs', maps'') ← run_on_functions mod_ fs maps'
  ok (f' ∷ fs', maps'')
