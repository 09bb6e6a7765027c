-- ===== src/Examples/Blocks.antt =====
-- BarrierPass and LiveVariablesPass at a block with a call.
use llvm_guard_handler.Base.{
  ℕ, ◌≡◌, refl, Bool, true, false, none, some, List, [], ◌∷◌, if◌then◌else◌, ◌==◌, ltb, All, ok,
}
use llvm_guard_handler.Passes.Ir.{Value, Inst, get_patchpoint_type, produces_stackmap_records}
use llvm_guard_handler.Passes.Barrier.{
  is_inline_asm, is_indirect, makes_record, has_next, split_here, call_insts_from,
  split_basic_block, split_basic_blocks, run_on_basic_block,
}
use llvm_guard_handler.Passes.Barrier.Segments.{concat, Isolated, run_on_basic_block-Isolated}
use llvm_guard_handler.Passes.Live.{
  Def, use_empty, add_live, is_argument, replace_call, replace_in, used_below, live_size,
  return_values, live_values, live_in_block, get_live_registers, live_site, visit, visit_block,
  visit_blocks, run_on_function,
}
use llvm_guard_handler.Passes.Live.Recorded.{Recorded}

-- A block with a call as CheckPointPass leaves it, between other instructions.
abbrev call_block : List Inst
call_block =
    Inst.other 1
    ∷ Inst.inline_asm
    ∷ Inst.call (some (b'g' ∷ [])) []
    ∷ Inst.stackmap 1 13 []
    ∷ Inst.ret none
    ∷ []

call_block_direct : All (λ inst. is_indirect inst ≡ false) call_block
unfolding is_indirect
call_block_direct = (refl, (refl, (refl, (refl, (refl, tt)))))

run_on_basic_block-Isolated_example :
    (blocks : List (List Inst)) × (run_on_basic_block call_block ≡ ok blocks)
    × (concat blocks ≡ call_block)
    × All Isolated blocks
run_on_basic_block-Isolated_example = run_on_basic_block-Isolated call_block call_block_direct

-- The call is split off with what belongs to it.
call_block_split :
    run_on_basic_block call_block
    ≡ ok (
        (Inst.other 1 ∷ [])
        ∷ (Inst.inline_asm ∷ Inst.call (some (b'g' ∷ [])) [] ∷ Inst.stackmap 1 13 [] ∷ [])
        ∷ (Inst.ret none ∷ [])
        ∷ [])
unfolding run_on_basic_block call_insts_from split_here is_inline_asm is_indirect makes_record
    has_next get_patchpoint_type produces_stackmap_records split_basic_blocks split_basic_block
call_block_split = refl

-- A variable, a call with its stackmap call, and a use of the variable.
abbrev live_block : List Def
live_block =
    record { number = 1; inst = Inst.other 1; users = some 3 ∷ []; allocated = some 16 }
    ∷ record { number = 2; inst = Inst.call (some (b'g' ∷ [])) []; users = []; allocated = none }
    ∷ record { number = 4; inst = Inst.stackmap 1 13 []; users = []; allocated = none }
    ∷ record { number = 3; inst = Inst.ret (some (Value.local 1)); users = []; allocated = none }
    ∷ []

-- An order of the instructions in which 3 comes last.
abbrev comes_before : ℕ → ℕ → Bool
comes_before a b = if a == 3 then false else if b == 3 then true else ltb a b

-- The variable is recorded with its size.
live_block_run :
    run_on_function comes_before (λ v. 8) (live_block ∷ [])
    ≡ ok (
        (record {
          number = 1;
          inst = Inst.other 1;
          users = some 4 ∷ some 3 ∷ [];
          allocated = some 16;
        }
          ∷ record {
            number = 2;
            inst = Inst.call (some (b'g' ∷ [])) [];
            users = [];
            allocated = none;
          }
          ∷ record {
            number = 4;
            inst = Inst.stackmap 1 13 (Value.local 1 ∷ Value.const 16 ∷ []);
            users = [];
            allocated = none;
          }
          ∷ record {
            number = 3;
            inst = Inst.ret (some (Value.local 1));
            users = [];
            allocated = none;
          }
          ∷ [])
        ∷ [])
unfolding run_on_function visit_blocks visit_block visit is_indirect get_patchpoint_type
    produces_stackmap_records replace_in replace_call add_live is_argument live_site
    get_live_registers live_in_block live_values use_empty used_below live_size return_values
live_block_run = refl
