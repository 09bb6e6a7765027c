-- ===== src/Passes/Live/Calls.antt =====
-- `runOnFunction` of src/passes/function_passes/LiveVariablesPass.cpp.
use llvm_guard_handler.Base.{ℕ, ◌≡◌, Bool, true, Option, some, List, [], ◌∷◌, Memᴰ}
use mathlib.Core.List.Memᴰ
use llvm_guard_handler.Passes.Ir.{Value, get_patchpoint_type, produces_stackmap_records}
use llvm_guard_handler.Passes.Live.{Def, add_live, live_size, live_site}
use llvm_guard_handler.Passes.Live.Recorded.{instructions, unpair, UsedBelow, Recorded}

module _ (dominates : ℕ → ℕ → Bool) (size_of : Value → ℕ) (fun : List (List Def)) where
  -- `d'` has behind the live values of `d` pairs of values and sizes, among them each variable of the
  -- function that is live across `site`.
  pub record LiveAt (site : ℕ) (d d' : Def) : Type 0 where
    pub pairs : List (Value × ℕ)
    pub inst : d'.inst ≡ add_live (unpair pairs) d.inst
    pub has :
        (e : Def)
        → Memᴰ e (instructions fun)
        → dominates e.number site ≡ true
        → UsedBelow dominates size_of site e.users
        → Memᴰ (Value.local e.number, live_size dominates size_of e) pairs

  -- The calls of a block that make records, the number before the block's start being `prev`.
  abbrev pub CallsHave : (Def → Def) → Option ℕ → List Def → Type 0
  CallsHave g prev [] = Unit
  CallsHave g prev (d ∷ ds) =
      (produces_stackmap_records (get_patchpoint_type d.inst) ≡ true
        → LiveAt (live_site dominates size_of prev d) d (g d))
      × CallsHave g (some d.number) ds
