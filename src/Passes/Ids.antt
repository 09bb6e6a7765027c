-- ===== src/Passes/Ids.antt =====
-- `getNextPatchpointID` of src/passes/function_passes/CheckPointPass.cpp and the static map
-- `stackMaps`.
pub mod Blocks
pub mod Calls
pub mod Module
pub mod Numbering
pub mod Twins
pub mod Unique
use llvm_guard_handler.Base.{
  ℕ, zero, suc, Bool, not, ◌&&◌, Option, none, some, List, [], ◌∷◌, ◌++◌, ltb, if◌then◌else◌, add64,
  not64, get_elem?, get_last?, length, Result, ok, err, ◌>>=◌, require, out_of_bounds,
}
use llvm_guard_handler.Elf.{same_string}
use llvm_guard_handler.Passes.Names.{Name, get_twin_name}

-- `map<StringRef, vector<uint64_t>>`: it is read by key and for its greatest last ID only, so the
-- entries stand in the order in which they were made.
abbrev pub StackMaps : Type 0
StackMaps = List (Name × List ℕ)

-- `stackMaps.find(name)`.
unfoldable pub lookup : Name → StackMaps → Option (List ℕ)
unfolding same_string
lookup name [] = none
lookup name ((key, ids) ∷ maps) = if same_string key name then some ids else lookup name maps

unfoldable pub contains : Name → StackMaps → Bool
contains name maps = elim (lookup name maps) [ none ↦ Bool.false | some ids ↦ Bool.true ]

-- `stackMaps[name].push_back(id)`.
unfoldable pub push_back : Name → ℕ → StackMaps → StackMaps
unfolding same_string
push_back name id [] = (name, id ∷ []) ∷ []
push_back name id ((key, ids) ∷ maps) =
    if same_string key name
    then (key, ids ++ id ∷ []) ∷ maps
    else (key, ids) ∷ push_back name id maps

-- `std::max_element` by the last ID of each function, `.second.back()` of it. The last ID of an empty
-- vector is undefined.
unfoldable pub max_from : ℕ → StackMaps → Result ℕ
max_from best [] = ok best
max_from best ((key, ids) ∷ maps) = do
  last ← require (get_last? ids) out_of_bounds
  max_from (if ltb best last then last else best) maps

unfoldable pub max_last : StackMaps → Result ℕ
unfolding max_from
max_last [] = err out_of_bounds
max_last ((key, ids) ∷ maps) = do last ← require (get_last? ids) out_of_bounds; max_from last maps

-- `stackMaps[name].size()`.
unfoldable pub last_index : Name → StackMaps → ℕ
last_index name maps = elim (lookup name maps) [ none ↦ 0 | some ids ↦ length ids ]

-- `nextPatchpointID` after the first `if`.
unfoldable pub next_id : Name → StackMaps → Result ℕ
next_id name [] = ok 0
next_id name (m ∷ maps) = elim (lookup (get_twin_name name) (m ∷ maps)) [
  | none ↦ max_last (m ∷ maps) >>= λ last. ok (add64 last 1)
  | some ids ↦
      require (get_elem? ids (last_index name (m ∷ maps))) out_of_bounds >>= λ id. ok (not64 id)
]

-- `getNextPatchpointID`.
unfoldable pub get_next_patchpoint_id : Name → StackMaps → Result (ℕ × StackMaps)
get_next_patchpoint_id name maps = do
  next ← next_id name maps
  let new = not (contains name maps) && not (contains (get_twin_name name) maps)
  let id = if new then add64 next 1 else next
  ok (id, push_back name id maps)

-- The IDs of `n` calls that a function makes, one after the other.
unfoldable pub number_calls : Name → ℕ → StackMaps → Result StackMaps
number_calls name zero maps = ok maps
number_calls name (suc n) maps = do
  (id, maps') ← get_next_patchpoint_id name maps
  number_calls name n maps'

-- A run of the pass over functions, each given by its name and the number of its calls.
unfoldable pub number_functions : List (Name × ℕ) → StackMaps → Result StackMaps
number_functions [] maps = ok maps
number_functions ((name, n) ∷ funs) maps = do
  maps' ← number_calls name n maps
  number_functions funs maps'
