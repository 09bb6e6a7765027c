-- ===== src/Passes/Barrier.antt =====
-- src/passes/basic_block_passes/BarrierPass.cpp: a basic block is split around its call sites. The
-- branch with which `splitBasicBlock` ends the first half of a block is left out.
pub mod Segments
use llvm_guard_handler.Base.{
  ℕ, ◌+◌, ◌-◌, Bool, true, false, not, ◌&&◌, none, some, List, [], ◌∷◌, ◌++◌, ltb, ◌==◌,
  if◌then◌else◌, length, take, drop, Result, ok, err, ◌>>=◌, null_pointer,
}
use llvm_guard_handler.Passes.Ir.{
  Inst, call, inline_asm, stackmap, patchpoint, ret, convert, other, get_patchpoint_type,
  produces_stackmap_records,
}

-- `isInlineAsm`.
unfoldable pub is_inline_asm : Inst → Bool
is_inline_asm inline_asm = true
is_inline_asm inst = false

-- A call whose `getCalledFunction` is NULL.
unfoldable pub is_indirect : Inst → Bool
is_indirect (call none args) = true
is_indirect inst = false

unfoldable pub makes_record : Inst → Bool
unfolding get_patchpoint_type produces_stackmap_records
makes_record inst = produces_stackmap_records (get_patchpoint_type inst)

unfoldable pub has_next : List Inst → Bool
has_next [] = false
has_next (inst ∷ insts) = true

-- The body of the first loop, for the instruction at index `i` of the block: what it pushes to
-- `callInsts`, by the index. `getPatchpointType` reads through the called function.
unfoldable pub split_here : ℕ → Inst → List Inst → Result (List ℕ)
unfolding is_inline_asm is_indirect makes_record has_next
split_here i inst next =
    if is_inline_asm inst
    then ok (if i == 0 then [] else i ∷ [])
    else if is_indirect inst
    then err null_pointer
    else ok (if makes_record inst && has_next next then (i + 1) ∷ [] else [])

-- The first loop, from the instruction at index `i` on.
unfoldable pub call_insts_from : ℕ → List Inst → Result (List ℕ)
unfolding split_here
call_insts_from i [] = ok []
call_insts_from i (inst ∷ insts) = do
  here ← split_here i inst insts
  rest ← call_insts_from (i + 1) insts
  ok (here ++ rest)

-- `inst->getParent()->splitBasicBlock(inst)`, where the blocks are those that the block has become,
-- and the instruction is that at index `i` of the block.
unfoldable pub split_basic_block : ℕ → List (List Inst) → List (List Inst)
split_basic_block i [] = []
split_basic_block i (block ∷ blocks) =
    if ltb i (length block)
    then take i block ∷ drop i block ∷ blocks
    else block ∷ split_basic_block (i - length block) blocks

-- The second loop.
unfoldable pub split_basic_blocks : List ℕ → List (List Inst) → List (List Inst)
unfolding split_basic_block
split_basic_blocks [] blocks = blocks
split_basic_blocks (i ∷ is) blocks = split_basic_blocks is (split_basic_block i blocks)

-- `runOnBasicBlock`.
unfoldable pub run_on_basic_block : List Inst → Result (List (List Inst))
unfolding call_insts_from split_basic_blocks
run_on_basic_block insts = do is ← call_insts_from 0 insts; ok (split_basic_blocks is (insts ∷ []))
