-- ===== src/Passes/Live/Registers.antt =====
-- `getLiveRegisters` of src/passes/function_passes/LiveVariablesPass.cpp.
use llvm_guard_handler.Base.{ℕ, ◌≡◌, ◌⊎◌, Bool, false, List, [], Memᴰ}
use mathlib.Core.List.Memᴰ
use llvm_guard_handler.Passes.Ir.{Value}
use llvm_guard_handler.Passes.Live.{Def}
use llvm_guard_handler.Passes.Live.Recorded.{Recorded}

module _ (dominates : ℕ → ℕ → Bool) (size_of : Value → ℕ) where
  -- The instruction is unused, or does not stand above `instr`.
  abbrev Off : ℕ → Def → Type 0
  Off instr d = (d.users ≡ []) ⊎ (dominates d.number instr ≡ false)
