-- ===== src/Passes/Ids/Module.antt =====
-- A module's functions, the optimised ones before their unoptimised twins, on `stackMaps`.
use llvm_guard_handler.Base.{
  ℕ, zero, suc, ◌+◌, ◌^◌, ◌≤◌, ◌≡◌, refl, sym, ap, ◌∙◌, false, some, List, [], ◌∷◌, ◌++◌,
  append-nil, append_assoc, length, All, ok, ◌>>=◌, inl, inr, Result-cases,
}
use llvm_guard_handler.Elf.{same_string}
use llvm_guard_handler.Passes.Names.{Name, unopt_prefix}
use llvm_guard_handler.Passes.Names.Twins.{same_string_refl, same_string-append}
use llvm_guard_handler.Passes.Ids.{StackMaps, lookup, number_calls, number_functions}
use llvm_guard_handler.Passes.Ids.Numbering.{range, assigned, Absent, lookup-append}
use llvm_guard_handler.Passes.Ids.Calls.{Absent-prefix, Optimised}
use llvm_guard_handler.Passes.Ids.Blocks.{
  Distinct, New, ids_end, All-snoc, New-snoc, number_calls-zero, number_functions-assigned,
}
use llvm_guard_handler.Passes.Ids.Twins.{twin_ids, lookup-append_left, number_calls-twin}

-- The unoptimised functions, with as many calls as their twins.
abbrev pub twin_calls : List (Name × ℕ) → List (Name × ℕ)
twin_calls [] = []
twin_calls ((name, n) ∷ funs) = (unopt_prefix ++ name, n) ∷ twin_calls funs

unfoldable pub twins : StackMaps → StackMaps
twins [] = []
twins ((name, ids) ∷ maps) = (unopt_prefix ++ name, twin_ids ids) ∷ twins maps

-- The map has the blocks of the functions.
abbrev pub Numbered : StackMaps → ℕ → List (Name × ℕ) → Type 0
Numbered maps next [] = Unit
Numbered maps next ((name, zero) ∷ funs) = Numbered maps next funs
Numbered maps next ((name, suc n) ∷ funs) =
    (lookup name maps ≡ some (range next (suc n))) × Numbered maps (next + n + 2) funs

Numbered-append :
    (maps more : StackMaps) (next : ℕ) (funs : List (Name × ℕ))
    → Numbered maps next funs
    → Numbered (maps ++ more) next funs
Numbered-append maps more next [] h = tt
Numbered-append maps more next ((name, zero) ∷ funs) h = Numbered-append maps more next funs h
Numbered-append maps more next ((name, suc n) ∷ funs) (h, hs) =
    (lookup-append_left name maps more h, Numbered-append maps more (next + n + 2) funs hs)

Absent-snoc :
    (funs : List (Name × ℕ)) (maps : StackMaps) (name : Name) (ids : List ℕ)
    → All (λ f. Absent (unopt_prefix ++ f.0) maps) funs
    → All (λ f. same_string name f.0 ≡ false) funs
    → All (λ f. Absent (unopt_prefix ++ f.0) (maps ++ (unopt_prefix ++ name, ids) ∷ [])) funs
Absent-snoc [] maps name ids h ne = tt
Absent-snoc (f ∷ funs) maps name ids (h, hs) (ne, nes) = (
  All-snoc (λ m. same_string m.0 (unopt_prefix ++ f.0) ≡ false) maps (unopt_prefix ++ name, ids) h
      (same_string-append unopt_prefix name f.0 ∙ ne),
  Absent-snoc funs maps name ids hs nes,
)

length-range : (a n : ℕ) → length (range a n) ≡ n
unfolding range
length-range a zero = refl
length-range a (suc n) = ap suc (length-range (a + 1) n)

twin_block :
    (name : Name) (maps : StackMaps) (next n : ℕ)
    → lookup name maps ≡ some (range next (suc n))
    → Absent (unopt_prefix ++ name) maps
    → number_calls (unopt_prefix ++ name) (suc n) maps
      ≡ ok (maps ++ (unopt_prefix ++ name, twin_ids (range next (suc n))) ∷ [])
unfolding range
twin_block name maps next n found absent =
    rw (length-range (next + 1) n) at
      (number_calls-twin name maps (range next (suc n)) found absent next (range (next + 1) n) refl)

number_functions-twins :
    (funs : List (Name × ℕ)) (maps : StackMaps) (next : ℕ)
    → Distinct funs
    → All (λ f. Absent (unopt_prefix ++ f.0) maps) funs
    → Numbered maps next funs
    → number_functions (twin_calls funs) maps ≡ ok (maps ++ twins (assigned next funs))
unfolding number_functions assigned twins
number_functions-twins [] maps next distinct absent numbered = ap ok (sym (append-nil maps))
number_functions-twins ((name, zero) ∷ funs) maps next (opt, ne, distinct) (absent, more) numbered =
    rw (number_calls-zero (unopt_prefix ++ name) maps)
      (number_functions-twins funs maps next distinct more numbered)
number_functions-twins ((name, suc n) ∷ funs) maps next (opt, ne, distinct) (absent, more)
      (found, numbered) =
    let block : Name × List ℕ = (unopt_prefix ++ name, twin_ids (range next (suc n))) in
    rw
      (
        twin_block name maps next n found absent,
        ← append_assoc maps (block ∷ []) (twins (assigned (next + n + 2) funs)),
      )
      (number_functions-twins funs (maps ++ block ∷ []) (next + n + 2) distinct
        (Absent-snoc funs maps name (twin_ids (range next (suc n))) more ne)
        (Numbered-append maps (block ∷ []) (next + n + 2) funs numbered))

Numbered-assigned :
    (pre : StackMaps) (next : ℕ) (funs : List (Name × ℕ))
    → Distinct funs
    → New funs pre
    → Numbered (pre ++ assigned next funs) next funs
unfolding assigned
Numbered-assigned pre next [] distinct new = tt
Numbered-assigned pre next ((name, zero) ∷ funs) (opt, ne, distinct) (absent, new) =
    Numbered-assigned pre next funs distinct new
Numbered-assigned pre next ((name, suc n) ∷ funs) (opt, ne, distinct) (absent, new) =
    let block : Name × List ℕ = (name, range next (suc n)) in
    let rest = assigned (next + n + 2) funs in
    (
      lookup-append name pre (block ∷ rest) absent
          ∙ (unfold lookup in rw (same_string_refl name) refl),
      rw (append_assoc pre (block ∷ []) rest) at (
          Numbered-assigned (pre ++ block ∷ []) (next + n + 2) funs distinct
            (New-snoc funs pre name (range next (suc n)) new ne)),
    )

assigned-Optimised :
    (next : ℕ) (funs : List (Name × ℕ)) → Distinct funs → Optimised (assigned next funs)
unfolding assigned
assigned-Optimised next [] distinct = tt
assigned-Optimised next ((name, zero) ∷ funs) (opt, ne, distinct) =
    assigned-Optimised next funs distinct
assigned-Optimised next ((name, suc n) ∷ funs) (opt, ne, distinct) =
    (opt, assigned-Optimised (next + n + 2) funs distinct)

Absent-twins :
    (funs : List (Name × ℕ)) (maps : StackMaps)
    → Optimised maps
    → All (λ f. Absent (unopt_prefix ++ f.0) maps) funs
Absent-twins [] maps h = tt
Absent-twins (f ∷ funs) maps h = (Absent-prefix f.0 maps h, Absent-twins funs maps h)

New-empty : (funs : List (Name × ℕ)) → New funs []
New-empty [] = tt
New-empty (f ∷ funs) = (tt, New-empty funs)

number_functions-append :
    (xs ys : List (Name × ℕ)) (maps : StackMaps)
    → number_functions (xs ++ ys) maps
      ≡ (number_functions xs maps >>= λ maps'. number_functions ys maps')
unfolding number_functions
number_functions-append [] ys maps = refl
number_functions-append ((name, n) ∷ xs) ys maps = elim (Result-cases (number_calls name n maps)) [
  | inl (maps', e) ↦ rw e (number_functions-append xs ys maps')
  | inr (why, e) ↦ rw e refl
]

-- If the functions have different names without the prefix, and their IDs fit a uint64_t, then
-- numbering them, each with its number of calls, and then their twins, with the same numbers, gives
-- each function with calls a block of consecutive IDs, from 1 on and with one ID left free between
-- blocks, and its twin the inverses of these in the same order.
pub number_functions-module :
    (funs : List (Name × ℕ))
    → Distinct funs
    → ids_end 1 funs ≤ 2 ^ 64
    → number_functions (funs ++ twin_calls funs) []
      ≡ ok (assigned 1 funs ++ twins (assigned 1 funs))
number_functions-module funs distinct fits =
    number_functions-append funs (twin_calls funs) []
    ∙ rw (number_functions-assigned funs [] 1 distinct (New-empty funs) tt refl tt fits) (
        number_functions-twins funs (assigned 1 funs) 1 distinct
          (Absent-twins funs (assigned 1 funs) (assigned-Optimised 1 funs distinct))
          (Numbered-assigned [] 1 funs distinct (New-empty funs)))
