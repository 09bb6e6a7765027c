-- ===== src/Passes/CheckPoint/Copies.antt =====
-- `CheckPointPass` behind `UnoptimizedCopyPass`: the functions of a module and their copies.
use llvm_guard_handler.Base.{
  All-append, ℕ, ◌+◌, ◌≡◌, refl, ap, ap₂, ◌∙◌, Bool, false, ◌&&◌, List, [], ◌∷◌, ◌++◌, none, some,
  arith, ◌==◌, All, ok,
}
use mathlib.Core.List.{reverse, reverse-append}
use llvm_guard_handler.Elf.{same_string}
use llvm_guard_handler.Passes.Names.{Name, unopt_prefix, starts_with, ends_with}
use llvm_guard_handler.Passes.Names.Twins.{same_string-append, same_string-prefix_ne}
use llvm_guard_handler.Passes.Ids.Numbering.{Absent}
use llvm_guard_handler.Passes.Ids.Blocks.{Distinct}
use llvm_guard_handler.Passes.Ids.Module.{twin_calls}
use llvm_guard_handler.Passes.Ir.{Inst, Function, Module}
use llvm_guard_handler.Passes.Copy.{copy_of, copies}
use llvm_guard_handler.Passes.CheckPoint.{guarded_suffix, takes_id}
use llvm_guard_handler.Passes.CheckPoint.Emitted.{count_of, count_block, count_blocks}
use llvm_guard_handler.Passes.CheckPoint.Clones.{calls_of, Named}

-- No rest of `s` stands at the start of `p`.
abbrev NoRest : Name → Name → Type 0
NoRest [] p = Unit
NoRest (c ∷ s) p = (starts_with (c ∷ s) p ≡ false) × NoRest s p

starts_with-append_right : (s xs p : Name) → NoRest s p → starts_with s (xs ++ p) ≡ starts_with s xs
unfolding starts_with
starts_with-append_right [] xs p h = refl
starts_with-append_right (c ∷ s) [] p (h, hs) = h
starts_with-append_right (c ∷ s) (x ∷ xs) p (h, hs) =
    ap (λ (b : Bool). (c == x) && b) (starts_with-append_right s xs p hs)

-- The prefix makes no name end in the suffix of guarded functions.
ends_with-prefix :
    (name : Name) → ends_with guarded_suffix (unopt_prefix ++ name) ≡ ends_with guarded_suffix name
unfolding ends_with starts_with
ends_with-prefix name = rw (reverse-append unopt_prefix name) (
    starts_with-append_right (reverse guarded_suffix) (reverse name) (reverse unopt_prefix) no_rest)
  where
    no_rest : NoRest (reverse guarded_suffix) (reverse unopt_prefix)
    no_rest = ground arith

module _ (mod_ : Module) where
  takes_id-prefix :
      (name : Name) (inst : Inst)
      → takes_id mod_ (unopt_prefix ++ name) inst ≡ takes_id mod_ name inst
  unfolding takes_id
  takes_id-prefix name (Inst.ret value) = ap ok (ends_with-prefix name)
  takes_id-prefix name (Inst.call none args) = refl
  takes_id-prefix name (Inst.call (some callee) args) = refl
  takes_id-prefix name (Inst.stackmap id shadow live) = refl
  takes_id-prefix name (Inst.patchpoint type id shadow callback args live) = refl
  takes_id-prefix name Inst.inline_asm = refl
  takes_id-prefix name (Inst.convert how) = refl
  takes_id-prefix name (Inst.other n) = refl

  count_block-prefix :
      (name : Name) (insts : List Inst)
      → count_block mod_ (unopt_prefix ++ name) insts ≡ count_block mod_ name insts
  count_block-prefix name [] = refl
  count_block-prefix name (inst ∷ insts) =
      ap₂ ◌+◌ (ap count_of (takes_id-prefix name inst)) (count_block-prefix name insts)

  count_blocks-prefix :
      (name : Name) (blocks : List (List Inst))
      → count_blocks mod_ (unopt_prefix ++ name) blocks ≡ count_blocks mod_ name blocks
  count_blocks-prefix name [] = refl
  count_blocks-prefix name (block ∷ blocks) =
      ap₂ ◌+◌ (count_block-prefix name block) (count_blocks-prefix name blocks)

  -- Functions of the module that have a body and are no copies.
  abbrev pub Originals : List Function → Type 0
  Originals fs =
      All
        (λ f.
          (starts_with unopt_prefix f.name ≡ false)
          × (f.is_declaration ≡ false)
          × (f.available_externally ≡ false))
        fs

  pub calls_of-copies :
      (fs : List Function)
      → Originals fs
      → calls_of mod_ (copies fs) ≡ twin_calls (calls_of mod_ fs)
  unfolding copies copy_of
  calls_of-copies [] h = refl
  calls_of-copies (f ∷ fs) ((opt, body, own), hs) =
      rw (opt, body, own)
        (ap₂ ◌∷◌ (ap (λ (n : ℕ). (unopt_prefix ++ f.name, n)) (count_blocks-prefix f.name f.blocks))
          (calls_of-copies fs hs))

  pub calls_of-append :
      (xs ys : List Function) → calls_of mod_ (xs ++ ys) ≡ calls_of mod_ xs ++ calls_of mod_ ys
  calls_of-append [] ys = refl
  calls_of-append (f ∷ xs) ys =
      ap (◌∷◌ (f.name, count_blocks mod_ f.name f.blocks)) (calls_of-append xs ys)

  pub Distinct-calls_of :
      (fs : List Function) → Originals fs → Named fs → Distinct (calls_of mod_ fs)
  Distinct-calls_of [] h named = tt
  Distinct-calls_of (f ∷ fs) ((opt, body, own), hs) (ne, named) =
      (opt, differ fs ne, Distinct-calls_of fs hs named)
    where
      differ :
          (gs : List Function)
          → All (λ g. same_string f.name g.name ≡ false) gs
          → All (λ g. same_string f.name g.0 ≡ false) (calls_of mod_ gs)
      differ [] k = tt
      differ (g ∷ gs) (k, ks) = (k, differ gs ks)

-- A property of the blocks of functions is one of their copies.
pub blocks_of_copies :
    (P : List (List Inst) → Type 0) (mod_ : Module) (fs : List Function)
    → Originals mod_ fs
    → All (λ f. P f.blocks) fs
    → All (λ f. P f.blocks) (copies fs)
unfolding copies copy_of
blocks_of_copies P mod_ [] h p = tt
blocks_of_copies P mod_ (f ∷ fs) ((opt, body, own), hs) (p, ps) =
    rw (opt, body, own) (p, blocks_of_copies P mod_ fs hs ps)

copies_ne :
    (mod_ : Module) (f : Function) (gs : List Function)
    → starts_with unopt_prefix f.name ≡ false
    → Originals mod_ gs
    → All (λ g. same_string f.name g.name ≡ false) (copies gs)
unfolding copies copy_of
copies_ne mod_ f [] opt h = tt
copies_ne mod_ f (g ∷ gs) opt ((opt', body, own), hs) =
    rw (opt', body, own)
      ((same_string-prefix_ne unopt_prefix g.name f.name opt).1, copies_ne mod_ f gs opt hs)

pub Named-copies :
    (mod_ : Module) (fs : List Function) → Originals mod_ fs → Named fs → Named (copies fs)
unfolding copies copy_of
Named-copies mod_ [] h named = tt
Named-copies mod_ (f ∷ fs) ((opt, body, own), hs) (ne, named) =
    rw (opt, body, own) (differ fs hs ne, Named-copies mod_ fs hs named)
  where
    differ :
        (gs : List Function)
        → Originals mod_ gs
        → All (λ g. same_string f.name g.name ≡ false) gs
        → All (λ g. same_string (unopt_prefix ++ f.name) g.name ≡ false) (copies gs)
    differ [] k ks = tt
    differ (g ∷ gs) ((opt', body', own'), k) (e, es) =
        rw (opt', body', own') (same_string-append unopt_prefix f.name g.name ∙ e, differ gs k es)

pub Named-append_copies :
    (mod_ : Module) (fs gs : List Function)
    → Originals mod_ fs
    → Originals mod_ gs
    → Named fs
    → Named (copies gs)
    → Named (fs ++ copies gs)
Named-append_copies mod_ [] gs h k named named' = named'
Named-append_copies mod_ (f ∷ fs) gs ((opt, body, own), hs) k (ne, named) named' = (
  All-append (λ g. same_string f.name g.name ≡ false) fs (copies gs) ne (copies_ne mod_ f gs opt k),
  Named-append_copies mod_ fs gs hs k named named',
)

pub Absent-empty : (fs : List Function) → All (λ f. Absent f.name []) fs
Absent-empty [] = tt
Absent-empty (f ∷ fs) = (tt, Absent-empty fs)
