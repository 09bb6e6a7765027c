-- ===== src/Passes/CheckPoint/Clones.antt =====
-- A run of `CheckPointPass` over a module in which every function is followed, behind the others,
-- by its unoptimised clone.
use llvm_guard_handler.Base.{
  ℕ, ◌≡◌, refl, sym, ap, ◌∙◌, false, List, [], ◌∷◌, ◌++◌, append-nil, append_assoc, All, ok,
  returns,
}
use llvm_guard_handler.Elf.{same_string}
use llvm_guard_handler.Passes.Names.{Name}
use llvm_guard_handler.Passes.Ids.{StackMaps, number_calls, number_functions}
use llvm_guard_handler.Passes.Ids.Numbering.{Absent}
use llvm_guard_handler.Passes.Ids.Calls.{push_back-last, push_back-new}
use llvm_guard_handler.Passes.Ids.Blocks.{All-snoc}
use llvm_guard_handler.Passes.Ids.Unique.{all_ids, all_ids-append}
use llvm_guard_handler.Passes.Ir.{Function, Module}
use llvm_guard_handler.Passes.CheckPoint.{run_on_function, run_on_functions}
use llvm_guard_handler.Passes.CheckPoint.Emitted.{block_ids, Resolved, count_blocks, push_all}
use llvm_guard_handler.Passes.CheckPoint.Run.{check_blocks_lem}

-- The IDs in the code of a module.
abbrev pub code_ids : List Function → List ℕ
code_ids [] = []
code_ids (f ∷ fs) = block_ids f.blocks ++ code_ids fs

abbrev pub calls_of : Module → List Function → List (Name × ℕ)
calls_of mod_ [] = []
calls_of mod_ (f ∷ fs) = (f.name, count_blocks mod_ f.name f.blocks) ∷ calls_of mod_ fs

-- All instructions of the functions can be handled.
abbrev pub AllResolved : Module → List Function → Type 0
AllResolved mod_ fs = All (λ f. All (All (Resolved mod_)) f.blocks) fs

-- The functions have different names.
abbrev pub Named : List Function → Type 0
Named [] = Unit
Named (f ∷ fs) = All (λ g. same_string f.name g.name ≡ false) fs × Named fs

push_all-last :
    (name : Name) (ids done : List ℕ) (maps : StackMaps)
    → Absent name maps
    → push_all name ids (maps ++ (name, done) ∷ []) ≡ maps ++ (name, done ++ ids) ∷ []
push_all-last name [] done maps absent =
    ap (λ (x : List ℕ). maps ++ (name, x) ∷ []) (sym (append-nil done))
push_all-last name (id ∷ ids) done maps absent =
    ap (push_all name ids) (push_back-last name maps done id absent)
    ∙ push_all-last name ids (done ++ id ∷ []) maps absent
    ∙ ap (λ (x : List ℕ). maps ++ (name, x) ∷ []) (append_assoc done (id ∷ []) ids)

all_ids-push_all :
    (name : Name) (ids : List ℕ) (maps : StackMaps)
    → Absent name maps
    → all_ids (push_all name ids maps) ≡ all_ids maps ++ ids
all_ids-push_all name [] maps absent = sym (append-nil (all_ids maps))
all_ids-push_all name (id ∷ ids) maps absent =
    ap (λ (x : StackMaps). all_ids (push_all name ids x)) (push_back-new name maps id absent)
    ∙ ap all_ids (push_all-last name ids (id ∷ []) maps absent)
    ∙ all_ids-append maps ((name, id ∷ ids) ∷ [])
    ∙ ap (λ (x : List ℕ). all_ids maps ++ x) (append-nil (id ∷ ids))

Absent-push_all :
    (name other : Name) (ids : List ℕ) (maps : StackMaps)
    → Absent other maps
    → Absent name maps
    → same_string name other ≡ false
    → Absent other (push_all name ids maps)
Absent-push_all name other [] maps absent free ne = absent
Absent-push_all name other (id ∷ ids) maps absent free ne =
    let made =
      ap (push_all name ids) (push_back-new name maps id free)
      ∙ push_all-last name ids (id ∷ []) maps free in
    rw made (All-snoc (λ m. same_string m.0 other ≡ false) maps (name, id ∷ ids) absent ne)

All-Absent :
    (name : Name) (ids : List ℕ) (maps : StackMaps) (fs : List Function)
    → All (λ f. Absent f.name maps) fs
    → Absent name maps
    → All (λ f. same_string name f.name ≡ false) fs
    → All (λ f. Absent f.name (push_all name ids maps)) fs
All-Absent name ids maps [] h free ne = tt
All-Absent name ids maps (f ∷ fs) (h, hs) free (ne, nes) =
    (Absent-push_all name f.name ids maps h free ne, All-Absent name ids maps fs hs free nes)

-- The pass runs as the numbering says, and the IDs in the code are those of the map, in order.
pub run_on_functions_lem :
    (mod_ : Module) (fs : List Function) (maps maps' : StackMaps)
    → AllResolved mod_ fs
    → Named fs
    → All (λ f. Absent f.name maps) fs
    → number_functions (calls_of mod_ fs) maps ≡ ok maps'
    → (out : List Function) × (run_on_functions mod_ fs maps ≡ ok (out, maps'))
      × (all_ids maps' ≡ all_ids maps ++ code_ids out)
unfolding run_on_functions number_functions
run_on_functions_lem mod_ [] maps maps' r named free e =
    let same : maps ≡ maps' = cc in
    (
      [],
      ap (λ (m : StackMaps). ok ([], m)) same,
      ap all_ids (sym same) ∙ sym (append-nil (all_ids maps)),
    )
run_on_functions_lem mod_ (f ∷ fs) maps maps'' (r, rs) (ne, named) (free, frees) e =
    let (maps', rest, made) =
      returns (number_calls f.name (count_blocks mod_ f.name f.blocks) maps) e in
    let (blocks, ran, pushed) = check_blocks_lem mod_ f.name f.blocks maps maps' r made in
    let f' = record f { blocks = blocks } in
    let run : run_on_function mod_ f maps ≡ ok (f', maps') =
      unfold run_on_function in rw ran refl in
    let (out, ran', ids) =
      run_on_functions_lem mod_ fs maps' maps'' rs named
        (rw pushed (All-Absent f.name (block_ids blocks) maps fs frees free ne)) rest in
    (
      f' ∷ out,
      rw (run, ran') refl,
      ids
          ∙ ap (λ (x : List ℕ). x ++ code_ids out)
              (ap all_ids pushed ∙ all_ids-push_all f.name (block_ids blocks) maps free)
          ∙ append_assoc (all_ids maps) (block_ids blocks) (code_ids out),
    )
