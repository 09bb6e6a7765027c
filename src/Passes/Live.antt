-- ===== src/Passes/Live.antt =====
-- src/passes/function_passes/LiveVariablesPass.cpp: the values that are live at a call which makes
-- a stack map record become arguments of the call.
pub mod Calls
pub mod Growth
pub mod Recorded
pub mod Registers
use llvm_guard_handler.Base.{
  ℕ, Bool, true, false, not, ◌&&◌, Option, none, some, List, [], ◌∷◌, ◌++◌, map, ◌==◌,
  if◌then◌else◌, Result, ok, err, ◌>>=◌, null_pointer,
}
use llvm_guard_handler.Passes.Ir.{
  Value, local, const, PatchpointType, no_patchpoint, stackmap_type, patchpoint_void,
  patchpoint_i64, Inst, call, inline_asm, stackmap, patchpoint, ret, convert, other,
  get_patchpoint_type, produces_stackmap_records,
}
use llvm_guard_handler.Passes.Barrier.{is_indirect}

-- An instruction in a function, with what the pass asks of it: its number, under which it is a value
-- (`local`), the users of its result (`none` is a user that is no instruction), and for an
-- `AllocaInst` the size of the allocated type.
pub record Def : Type 0 where
  pub number : ℕ
  pub inst : Inst
  pub users : List (Option ℕ)
  pub allocated : Option ℕ

unfoldable pub use_empty : List (Option ℕ) → Bool
use_empty [] = true
use_empty (user ∷ users) = false

-- The live values of a call.
unfoldable pub add_live : List Value → Inst → Inst
add_live vs (stackmap id shadow live) = stackmap id shadow (live ++ vs)
add_live vs (patchpoint type id shadow callback args live) =
    patchpoint type id shadow callback args (live ++ vs)
add_live vs inst = inst

unfoldable pub is_argument : ℕ → List Value → Bool
is_argument n [] = false
is_argument n (local k ∷ vs) = if k == n then true else is_argument n vs
is_argument n (const c ∷ vs) = is_argument n vs

-- `ReplaceInstWithInst` of the call with number `n` by one with the arguments `live` behind its own:
-- the call is a user of these from then on.
unfoldable pub replace_call : ℕ → List Value → Def → Def
unfolding add_live is_argument
replace_call n live d = record d {
  inst = if d.number == n then add_live live d.inst else d.inst;
  users = if is_argument d.number live then some n ∷ d.users else d.users;
}

unfoldable pub replace_in : ℕ → List Value → List (List Def) → List (List Def)
unfolding replace_call
replace_in n live fun = map (map (replace_call n live)) fun

-- `dominates a b` is the dominator tree's answer for the instructions with these numbers, `size_of`
-- the data layout's size of a value's type.
module _ (dominates : ℕ → ℕ → Bool) (size_of : Value → ℕ) where
  -- The innermost loop: whether it meets an instruction that `instr` is not dominated by.
  unfoldable pub used_below : ℕ → List (Option ℕ) → Bool
  used_below instr [] = false
  used_below instr (none ∷ users) = used_below instr users
  used_below instr (some user ∷ users) =
      if not (dominates user instr) then true else used_below instr users

  -- The size that is recorded of a live instruction.
  unfoldable pub live_size : Def → ℕ
  live_size d = elim d.allocated [ none ↦ size_of (local d.number) | some size ↦ size ]

  -- What is pushed of a return instruction: its value, if that is a constant.
  unfoldable pub return_values : Inst → List Value
  return_values (ret (some (const c))) = const c ∷ const (size_of (const c)) ∷ []
  return_values inst = []

  -- The loop body of `getLiveRegisters`: what it pushes to `args`.
  unfoldable pub live_values : ℕ → Def → List Value
  unfolding use_empty used_below live_size return_values
  live_values instr d =
      if not (use_empty d.users) && dominates d.number instr
      then (if used_below instr d.users then local d.number ∷ const (live_size d) ∷ [] else [])
      else return_values d.inst

  unfoldable pub live_in_block : ℕ → List Def → List Value
  unfolding live_values
  live_in_block instr [] = []
  live_in_block instr (d ∷ ds) = live_values instr d ++ live_in_block instr ds

  -- `getLiveRegisters`.
  unfoldable pub get_live_registers : ℕ → List (List Def) → List Value
  unfolding live_in_block
  get_live_registers instr [] = []
  get_live_registers instr (block ∷ blocks) =
      live_in_block instr block ++ get_live_registers instr blocks

  -- The instruction whose live registers are recorded at a call: the one before, for a stackmap call.
  unfoldable pub live_site : Option ℕ → Def → ℕ
  unfolding get_patchpoint_type
  live_site prev d = elim (get_patchpoint_type d.inst) [
    | stackmap_type ↦ elim prev [ none ↦ d.number | some p ↦ p ]
    | _ ↦ d.number
  ]

  -- The loop body of `runOnFunction`, for an instruction and the number of the one before it.
  -- `getPatchpointType` reads through the called function.
  unfoldable pub visit : Option ℕ → Def → List (List Def) → Result (List (List Def))
  unfolding live_site get_live_registers replace_in is_indirect
  visit prev d fun =
      if is_indirect d.inst
      then err null_pointer
      else if produces_stackmap_records (get_patchpoint_type d.inst)
      then ok (replace_in d.number (get_live_registers (live_site prev d) fun) fun)
      else ok fun

  unfoldable pub visit_block : Option ℕ → List Def → List (List Def) → Result (List (List Def))
  unfolding visit
  visit_block prev [] fun = ok fun
  visit_block prev (d ∷ ds) fun = do fun' ← visit prev d fun; visit_block (some d.number) ds fun'

  -- The calls that are replaced keep their numbers and places, so the loops run over the instructions
  -- that the function had.
  unfoldable pub visit_blocks : List (List Def) → List (List Def) → Result (List (List Def))
  unfolding visit_block
  visit_blocks [] fun = ok fun
  visit_blocks (block ∷ blocks) fun = do fun' ← visit_block none block fun; visit_blocks blocks fun'

  -- `runOnFunction`.
  unfoldable pub run_on_function : List (List Def) → Result (List (List Def))
  unfolding visit_blocks
  run_on_function fun = visit_blocks fun fun
