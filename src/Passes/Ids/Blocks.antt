-- ===== src/Passes/Ids/Blocks.antt =====
-- The optimised functions one after the other, on `stackMaps`.
use llvm_guard_handler.Base.{
  ℕ, zero, suc, ◌+◌, ◌^◌, ◌≤◌, ◌≡◌, refl, sym, ap, ◌∙◌, false, some, List, [], ◌∷◌, ◌++◌,
  append-nil, append_assoc, arith, get_last?, All, ok,
}
use llvm_guard_handler.Elf.{same_string}
use llvm_guard_handler.Passes.Names.{Name, unopt_prefix, starts_with}
use llvm_guard_handler.Passes.Ids.{StackMaps, max_last, number_calls, number_functions}
use llvm_guard_handler.Passes.Ids.Numbering.{
  range, get_last?-range, assigned, Absent, Below, max_last-append,
}
use llvm_guard_handler.Passes.Ids.Calls.{Ready, Optimised, Below-le, number_calls-block}

-- The names are different, and none is that of an unoptimised function or in the map.
abbrev pub Distinct : List (Name × ℕ) → Type 0
Distinct [] = Unit
Distinct (f ∷ funs) =
    (starts_with unopt_prefix f.0 ≡ false)
    × All (λ g. same_string f.0 g.0 ≡ false) funs
    × Distinct funs

abbrev pub New : List (Name × ℕ) → StackMaps → Type 0
New funs maps = All (λ f. Absent f.0 maps) funs

-- The first ID behind the blocks.
abbrev pub ids_end : ℕ → List (Name × ℕ) → ℕ
ids_end next [] = next
ids_end next ((name, zero) ∷ funs) = ids_end next funs
ids_end next ((name, suc n) ∷ funs) = ids_end (next + n + 2) funs

pub ids_end-ge : (next : ℕ) (funs : List (Name × ℕ)) → next ≤ ids_end next funs
ids_end-ge next [] = omega arith
ids_end-ge next ((name, zero) ∷ funs) = ids_end-ge next funs
ids_end-ge next ((name, suc n) ∷ funs) = omega (arith, ids_end-ge (next + n + 2) funs)

pub All-snoc {ℓ} :
    {A : Type ℓ} (P : A → Type 0) (xs : List A) (x : A) → All P xs → P x → All P (xs ++ x ∷ [])
All-snoc P [] x h p = (p, tt)
All-snoc P (y ∷ xs) x (h, hs) p = (h, All-snoc P xs x hs p)

pub New-snoc :
    (funs : List (Name × ℕ)) (maps : StackMaps) (name : Name) (ids : List ℕ)
    → New funs maps
    → All (λ g. same_string name g.0 ≡ false) funs
    → New funs (maps ++ (name, ids) ∷ [])
New-snoc [] maps name ids h distinct = tt
New-snoc (f ∷ funs) maps name ids (h, hs) (ne, nes) = (
  All-snoc (λ m. same_string m.0 f.0 ≡ false) maps (name, ids) h ne,
  New-snoc funs maps name ids hs nes,
)

Ready-snoc :
    (maps : StackMaps) (name : Name) (next n : ℕ)
    → Below next maps
    → Ready (next + n + 2) (maps ++ (name, range next (suc n)) ∷ [])
Ready-snoc maps name next n below = cons maps (
    max_last-append (next + n) maps name (range next (suc n))
      (Below-le next (next + n) maps (omega arith) below) (get_last?-range next n))
  where
    cons :
        (ms : StackMaps)
        → max_last (ms ++ (name, range next (suc n)) ∷ []) ≡ ok (next + n)
        → Ready (next + n + 2) (ms ++ (name, range next (suc n)) ∷ [])
    cons [] e = (omega arith, e ∙ ap ok (omega arith))
    cons (m ∷ ms) e = (omega arith, e ∙ ap ok (omega arith))

pub number_calls-zero : (name : Name) (maps : StackMaps) → number_calls name zero maps ≡ ok maps
unfolding number_calls
number_calls-zero name maps = refl

-- The functions get their blocks in their order.
pub number_functions-assigned :
    (funs : List (Name × ℕ)) (maps : StackMaps) (next : ℕ)
    → Distinct funs
    → New funs maps
    → Optimised maps
    → Ready next maps
    → Below next maps
    → ids_end next funs ≤ 2 ^ 64
    → number_functions funs maps ≡ ok (maps ++ assigned next funs)
unfolding number_functions assigned
number_functions-assigned [] maps next distinct new old ready below fits =
    ap ok (sym (append-nil maps))
number_functions-assigned ((name, zero) ∷ funs) maps next (opt, ne, distinct) (absent, new) old
      ready below fits =
    rw (number_calls-zero name maps)
      (number_functions-assigned funs maps next distinct new old ready below fits)
number_functions-assigned ((name, suc n) ∷ funs) maps next (opt, ne, distinct) (absent, new) old
      ready below fits =
    let far = ids_end-ge (next + n + 2) funs in
    let block : Name × List ℕ = (name, range next (suc n)) in
    let maps' = maps ++ block ∷ [] in
    rw
      (
        number_calls-block name maps next opt old absent n ready below (omega arith),
        ← append_assoc maps (block ∷ []) (assigned (next + n + 2) funs),
      )
      (number_functions-assigned funs maps' (next + n + 2) distinct
        (New-snoc funs maps name (range next (suc n)) new ne)
        (All-snoc (λ m. starts_with unopt_prefix m.0 ≡ false) maps block old opt)
        (Ready-snoc maps name next n below)
        (All-snoc (λ m. (l : ℕ) × (get_last? m.1 ≡ some l) × (l ≤ next + n + 2)) maps block
          (Below-le next (next + n + 2) maps (omega arith) below)
          (next + n, get_last?-range next n, omega arith))
        fits)
