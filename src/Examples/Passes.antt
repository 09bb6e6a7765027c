-- ===== src/Examples/Passes.antt =====
-- The theorems on the passes at a module of two functions.
use llvm_guard_handler.Base.{
  ℕ, ◌≡◌, refl, inr, none, some, List, [], ◌∷◌, ◌++◌, arith, false, true, ◌≤◌, ◌<◌, ◌^◌, All, ok,
  Memᴰ,
}
use llvm_guard_handler.Elf.{same_string}
use llvm_guard_handler.Passes.Names.{Name, starts_with, ends_with, unopt_prefix, get_twin_name}
use llvm_guard_handler.Passes.Ids.{StackMaps, number_functions}
use llvm_guard_handler.Passes.Ids.Numbering.{assigned}
use llvm_guard_handler.Passes.Ids.Blocks.{ids_end}
use llvm_guard_handler.Passes.Ids.Module.{twin_calls, twins, number_functions-module}
use llvm_guard_handler.Passes.Ids.Twins.{twin_ids}
use llvm_guard_handler.Passes.Ids.Unique.{all_ids, NoRepeat}
use llvm_guard_handler.Passes.Ir.{
  Inst, Callback, patchpoint_void, void, Function, Module, get_function,
}
use llvm_guard_handler.Passes.CheckPoint
use llvm_guard_handler.Passes.CheckPoint.{unopt_target, takes_id, run_on_functions}
use llvm_guard_handler.Passes.CheckPoint.Emitted.{Resolved}
use llvm_guard_handler.Passes.CheckPoint.Clones.{code_ids, calls_of, Named}
use llvm_guard_handler.Passes.CheckPoint.Twins.{run_on_functions-NoRepeat, run_on_functions-twins}
use llvm_guard_handler.Passes.Copy.{copies, copy_of, do_initialization, run_on_function}
use llvm_guard_handler.Passes.Copy.Callbacks.{Calls, run_on_function-Calls}
use llvm_guard_handler.Passes.Copy.Found.{NoCopies, do_initialization-get_function}
use llvm_guard_handler.StackMap.Bounds.{create-StackMapFits}
use llvm_guard_handler.StackMap.Create.{create}
use llvm_guard_handler.StackMap.Format.{StackMapFits}

-- `f` calls `g` twice.
abbrev g_fun : Function
g_fun = record {
  name = b'g' ∷ [];
  is_declaration = false;
  available_externally = false;
  return_type = void;
  no_inline = false;
  optimize_none = false;
  blocks = (Inst.ret none ∷ []) ∷ [];
}

abbrev f_fun : Function
f_fun = record g_fun {
  name = b'f' ∷ [];
  blocks =
      (Inst.call (some (b'g' ∷ [])) [] ∷ Inst.other 1 ∷ [])
      ∷ (Inst.call (some (b'g' ∷ [])) [] ∷ Inst.ret none ∷ [])
      ∷ [];
}

abbrev functions : List Function
functions = f_fun ∷ g_fun ∷ []

abbrev whole : Module
unfolding do_initialization
whole = do_initialization functions

f_opt : starts_with unopt_prefix (b'f' ∷ []) ≡ false
unfolding starts_with
f_opt = refl

g_opt : starts_with unopt_prefix (b'g' ∷ []) ≡ false
unfolding starts_with
g_opt = refl

f_ne_g : same_string (b'f' ∷ []) (b'g' ∷ []) ≡ false
unfolding same_string
f_ne_g = refl

number_functions-module_example :
    let funs : List (Name × ℕ) = (b'f' ∷ [], 2) ∷ (b'g' ∷ [], 0) ∷ [] in
    number_functions (funs ++ twin_calls funs) [] ≡ ok (assigned 1 funs ++ twins (assigned 1 funs))
number_functions-module_example =
    number_functions-module ((b'f' ∷ [], 2) ∷ (b'g' ∷ [], 0) ∷ [])
      (f_opt, (f_ne_g, tt), (g_opt, tt, tt)) (omega arith)

g_found : get_function (b'g' ∷ []) whole ≡ some g_fun
unfolding whole get_function same_string
g_found = refl

g_twin : get_function (unopt_target (b'g' ∷ [])) whole ≡ some (copy_of g_fun)
unfolding whole get_function unopt_target get_twin_name same_string
g_twin = refl

g-Resolved : Resolved whole (Inst.call (some (b'g' ∷ [])) [])
g-Resolved = (g_fun, g_found, inr (copy_of g_fun, g_twin))

small_ids : ids_end 1 (calls_of whole functions) ≤ 2 ^ 63
unfolding whole takes_id get_function same_string ends_with starts_with
small_ids = omega arith

run_on_functions-NoRepeat_example :
    (out : List Function) × (maps : StackMaps) × (run_on_functions whole
        (functions ++ copies functions)
        []
      ≡ ok (out, maps))
    × (code_ids out ≡ all_ids maps)
    × NoRepeat (code_ids out)
run_on_functions-NoRepeat_example =
    run_on_functions-NoRepeat whole functions ((f_opt, refl, refl), ((g_opt, refl, refl), tt))
      ((f_ne_g, tt), (tt, tt))
      (((g-Resolved, (tt, tt)), ((g-Resolved, (tt, tt)), tt)), (((tt, tt), tt), tt)) small_ids

run_on_functions-twins_example :
    (out : List Function) × (maps : StackMaps) × (ids : List ℕ) × (run_on_functions whole
        (functions ++ copies functions)
        []
      ≡ ok (out, maps))
    × (code_ids out ≡ ids ++ twin_ids ids)
    × All (λ id. (1 ≤ id) × (id < 2 ^ 63)) ids
run_on_functions-twins_example =
    run_on_functions-twins whole functions ((f_opt, refl, refl), ((g_opt, refl, refl), tt))
      ((f_ne_g, tt), (tt, tt))
      (((g-Resolved, (tt, tt)), ((g-Resolved, (tt, tt)), tt)), (((tt, tt), tt), tt)) small_ids

-- An unoptimised function with a patchpoint that still calls the optimised `g`.
abbrev old_call : Function
old_call = record f_fun {
  name = unopt_prefix ++ b'f' ∷ [];
  blocks =
      (Inst.patchpoint patchpoint_void 1 13 (Callback.function (b'g' ∷ [])) [] []
        ∷ Inst.ret none
        ∷ [])
      ∷ [];
}

old_call_unopt : starts_with unopt_prefix old_call.name ≡ true
unfolding starts_with
old_call_unopt = refl

run_on_function-Calls_example :
    (f' : Function) × (run_on_function whole old_call ≡ ok f')
    × All (All (Calls whole)) f'.blocks
    × (run_on_function whole f' ≡ ok f')
run_on_function-Calls_example =
    run_on_function-Calls whole old_call old_call_unopt ((tt, (tt, tt)), tt)

create-StackMapFits_example : StackMapFits (create (λ a. 7) 100)
create-StackMapFits_example = create-StackMapFits (λ a. 7) (λ a. omega arith) 100

-- The module with the declaration of the handler.
declared-Named : Named (CheckPoint.do_initialization functions)
unfolding CheckPoint.do_initialization same_string
declared-Named = ((refl, (refl, tt)), ((refl, tt), (tt, tt)))

declared-NoCopies : NoCopies (CheckPoint.do_initialization functions)
unfolding CheckPoint.do_initialization starts_with
declared-NoCopies = (refl, (refl, (refl, tt)))

declared_member : Memᴰ g_fun (CheckPoint.do_initialization functions)
unfolding CheckPoint.do_initialization
declared_member = Memᴰ.tail (Memᴰ.head refl)

do_initialization-get_function_example :
    (get_function (b'g' ∷ []) (do_initialization (CheckPoint.do_initialization functions))
      ≡ some g_fun)
    × (false ≡ false
        → false ≡ false
        → get_function
            (unopt_prefix ++ b'g' ∷ [])
            (do_initialization (CheckPoint.do_initialization functions))
          ≡ some (copy_of g_fun))
do_initialization-get_function_example =
    do_initialization-get_function (CheckPoint.do_initialization functions) g_fun declared_member
      declared-Named declared-NoCopies
