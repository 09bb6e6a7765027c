-- ===== src/Passes/Ir.antt =====
-- What the passes read and write of LLVM IR. LLVM itself is not modelled: an instruction is what
-- the passes can tell of it (`isa<CallInst>`, `getCalledFunction`, `isInlineAsm`, `getArgOperand`
-- and so on), and calls of the intrinsics that make stack map records are instructions of their
-- own.
use llvm_guard_handler.Base.{ℕ, Bool, Option, none, some, List, [], ◌∷◌, if◌then◌else◌}
use llvm_guard_handler.Elf.{same_string}
use llvm_guard_handler.Passes.Names.{Name}

-- The result of an instruction, by its number, or a constant.
pub data Value : Type 0 where
  local : ℕ → Value
  const : ℕ → Value

-- The callback operand of a patchpoint, without its casts.
pub data Callback : Type 0 where
  null : Callback
  function : Name → Callback

-- `PatchpointType` of passes/Utils/Utils.h; `no_patchpoint` is the type 0.
pub data PatchpointType : Type 0 where
  no_patchpoint stackmap_type patchpoint_void patchpoint_i64 : PatchpointType

pub data Conversion : Type 0 where
  truncate int_to_ptr load_result : Conversion

pub data Inst : Type 0 where
  -- The called function, unless the call goes through a pointer, and the arguments.
  call : Option Name → List Value → Inst
  -- A call of inline assembly.
  inline_asm : Inst
  -- A call of a stackmap or patchpoint intrinsic: its ID, its shadow bytes, for a patchpoint the
  -- callback and the arguments of the callback, and the live values.
  stackmap : ℕ → ℕ → List Value → Inst
  patchpoint : PatchpointType → ℕ → ℕ → Callback → List Value → List Value → Inst
  ret : Option Value → Inst
  convert : Conversion → Inst
  other : ℕ → Inst

pub data ReturnType : Type 0 where
  void : ReturnType
  integer : ℕ → ReturnType
  other_type : ReturnType

pub record Function : Type 0 where
  pub name : Name
  pub is_declaration : Bool
  pub available_externally : Bool
  pub return_type : ReturnType
  pub no_inline : Bool
  pub optimize_none : Bool
  pub blocks : List (List Inst)

abbrev pub Module : Type 0
Module = List Function

-- `Module::getFunction`.
unfoldable pub get_function : Name → Module → Option Function
get_function name [] = none
get_function name (f ∷ fs) = if same_string f.name name then some f else get_function name fs

-- `getPatchpointType` of passes/Utils/Utils.cpp, of the function that an instruction calls.
unfoldable pub get_patchpoint_type : Inst → PatchpointType
get_patchpoint_type (stackmap id shadow live) = stackmap_type
get_patchpoint_type (patchpoint type id shadow callback args live) = type
get_patchpoint_type inst = no_patchpoint

-- `isPatchpoint` and `producesStackmapRecords` of passes/Utils/Utils.h.
unfoldable pub is_patchpoint : PatchpointType → Bool
is_patchpoint patchpoint_void = Bool.true
is_patchpoint patchpoint_i64 = Bool.true
is_patchpoint no_patchpoint = Bool.false
is_patchpoint stackmap_type = Bool.false

unfoldable pub produces_stackmap_records : PatchpointType → Bool
unfolding is_patchpoint
produces_stackmap_records stackmap_type = Bool.true
produces_stackmap_records type = is_patchpoint type
