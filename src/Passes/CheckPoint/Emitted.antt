-- ===== src/Passes/CheckPoint/Emitted.antt =====
-- The IDs that stand in the code that `CheckPointPass` emits, against those of `stackMaps`.
use llvm_guard_handler.Base.{
  ℕ, ◌+◌, ◌≡◌, refl, ap, ◌⊎◌, inl, inr, Bool, true, false, not, ◌||◌, Bool-cases, none, some, List,
  [], ◌∷◌, ◌++◌, arith, Result, ok,
}
use llvm_guard_handler.Passes.Names.{Name, unopt_prefix, starts_with, ends_with}
use llvm_guard_handler.Passes.Ids.{StackMaps, push_back}
use llvm_guard_handler.Passes.Ir.{
  Value, function, Inst, call, inline_asm, stackmap, patchpoint, ret, convert, other, ReturnType,
  void, integer, other_type, Function, Module, get_function,
}
use llvm_guard_handler.Passes.CheckPoint.{
  shadow_bytes, guarded_suffix, intrinsic_of, guard_inst, conversions, unopt_target, call_insts,
  takes_id, numbered,
}

-- The IDs of the instructions that make records.
abbrev pub ids_of : List Inst → List ℕ
ids_of [] = []
ids_of (stackmap id shadow live ∷ insts) = id ∷ ids_of insts
ids_of (patchpoint type id shadow callback args live ∷ insts) = id ∷ ids_of insts
ids_of (call callee args ∷ insts) = ids_of insts
ids_of (inline_asm ∷ insts) = ids_of insts
ids_of (ret value ∷ insts) = ids_of insts
ids_of (convert how ∷ insts) = ids_of insts
ids_of (other n ∷ insts) = ids_of insts

abbrev pub block_ids : List (List Inst) → List ℕ
block_ids [] = []
block_ids (block ∷ blocks) = ids_of block ++ block_ids blocks

-- The instructions that the pass can handle: no call goes through a pointer, calls are of functions
-- of the module, and if such a function has a body it has a twin; no record is made yet.
abbrev pub Resolved : Module → Inst → Type 0
Resolved mod_ (call none args) = ⊥
Resolved mod_ (call (some callee) args) =
    (f : Function) × (get_function callee mod_ ≡ some f)
    × (((f.available_externally || f.is_declaration) ≡ true)
        ⊎ (t : Function) × (get_function (unopt_target callee) mod_ ≡ some t))
Resolved mod_ (stackmap id shadow live) = ⊥
Resolved mod_ (patchpoint type id shadow callback args live) = ⊥
Resolved mod_ inline_asm = Unit
Resolved mod_ (ret value) = Unit
Resolved mod_ (convert how) = Unit
Resolved mod_ (other n) = Unit

-- What the pass does with an instruction, the ID being left open.
pub record Handled (mod_ : Module) (name : Name) (inst : Inst) : Type 0 where
  pub takes : Bool
  pub taken : takes_id mod_ name inst ≡ ok takes
  pub plain : ids_of (inst ∷ []) ≡ []
  pub insts : ℕ → List Inst
  pub numbers : takes ≡ true → (id : ℕ) → numbered mod_ name id inst ≡ ok (insts id)
  pub emits : (id : ℕ) → ids_of (insts id) ≡ id ∷ []

ids_of-guard_inst :
    (name : Name) (id : ℕ) (insts : List Inst)
    → ids_of (guard_inst name id ∷ insts) ≡ id ∷ ids_of insts
unfolding guard_inst
ids_of-guard_inst name id insts = elim (Bool-cases (starts_with unopt_prefix name)) [
  | inl e ↦ rw (e, guard_inst) refl
  | inr e ↦ rw (e, guard_inst) refl
]

ids_of-conversions : (type : ReturnType) → ids_of (conversions type) ≡ []
unfolding conversions
ids_of-conversions void = refl
ids_of-conversions (integer bits) = ground arith
ids_of-conversions other_type = refl

call_insts-emits :
    (mod_ : Module) (name : Name) (callee : Name) (args : List Value) (t : Function)
    → get_function (unopt_target callee) mod_ ≡ some t
    → (insts : ℕ → List Inst) × ((id : ℕ) → call_insts mod_ name id callee args ≡ ok (insts id))
      × ((id : ℕ) → ids_of (insts id) ≡ id ∷ [])
unfolding call_insts
call_insts-emits mod_ name callee args t twin = elim (Bool-cases (starts_with unopt_prefix name)) [
  | inl unopt ↦ (
    λ id.
        inline_asm
        ∷ patchpoint (intrinsic_of t.return_type) id shadow_bytes (function t.name) args []
        ∷ conversions t.return_type,
    λ id. rw (unopt, twin) refl,
    λ id. ap (◌∷◌ id) (ids_of-conversions t.return_type),
  )
  | inr opt ↦ (
    λ id. inline_asm ∷ call (some callee) args ∷ stackmap id shadow_bytes [] ∷ [],
    λ id. rw opt refl,
    λ id. refl,
  )
]

pub handled :
    (mod_ : Module) (name : Name) (inst : Inst) → Resolved mod_ inst → Handled mod_ name inst
unfolding takes_id numbered
handled mod_ name (call none args) h = absurd h
handled mod_ name (call (some callee) args) (f, found, inl no_body) = record {
  takes = false;
  taken = rw (found, no_body) refl;
  plain = refl;
  insts = λ id. stackmap id 0 [] ∷ [];
  numbers = λ e. cc;
  emits = λ id. refl;
}
handled mod_ name (call (some callee) args) (f, found, inr (t, twin)) =
    let (insts, numbers, emits) = call_insts-emits mod_ name callee args t twin in
    record {
      takes = not (f.available_externally || f.is_declaration);
      taken = rw found refl;
      plain = refl;
      insts = insts;
      numbers = λ e. numbers;
      emits = emits;
    }
handled mod_ name (stackmap id shadow live) h = absurd h
handled mod_ name (patchpoint type id shadow callback args live) h = absurd h
handled mod_ name inline_asm h = record {
  takes = false;
  taken = refl;
  plain = refl;
  insts = λ id. guard_inst name id ∷ inline_asm ∷ [];
  numbers = λ e id. refl;
  emits = λ id. ids_of-guard_inst name id (inline_asm ∷ []);
}
handled mod_ name (ret value) h = record {
  takes = ends_with guarded_suffix name;
  taken = refl;
  plain = refl;
  insts = λ id. guard_inst name id ∷ ret value ∷ [];
  numbers = λ e id. refl;
  emits = λ id. ids_of-guard_inst name id (ret value ∷ []);
}
handled mod_ name (convert how) h = record {
  takes = false;
  taken = refl;
  plain = refl;
  insts = λ id. guard_inst name id ∷ convert how ∷ [];
  numbers = λ e id. refl;
  emits = λ id. ids_of-guard_inst name id (convert how ∷ []);
}
handled mod_ name (other n) h = record {
  takes = false;
  taken = refl;
  plain = refl;
  insts = λ id. guard_inst name id ∷ other n ∷ [];
  numbers = λ e id. refl;
  emits = λ id. ids_of-guard_inst name id (other n ∷ []);
}

-- How many IDs the instructions take.
abbrev pub count_of : Result Bool → ℕ
count_of (ok true) = 1
count_of r = 0

abbrev pub count_block : Module → Name → List Inst → ℕ
count_block mod_ name [] = 0
count_block mod_ name (inst ∷ insts) =
    count_of (takes_id mod_ name inst) + count_block mod_ name insts

abbrev pub count_blocks : Module → Name → List (List Inst) → ℕ
count_blocks mod_ name [] = 0
count_blocks mod_ name (block ∷ blocks) =
    count_block mod_ name block + count_blocks mod_ name blocks

-- `stackMaps` after these IDs were made for a function.
abbrev pub push_all : Name → List ℕ → StackMaps → StackMaps
push_all name [] maps = maps
push_all name (id ∷ ids) maps = push_all name ids (push_back name id maps)
