-- ===== src/Passes/Live/Growth.antt =====
-- How `runOnFunction` of src/passes/function_passes/LiveVariablesPass.cpp changes an instruction.
use llvm_guard_handler.Base.{
  ℕ, ◌≡◌, refl, sym, ap, ◌∙◌, inl, inr, Option, List, [], ◌++◌, append-nil, append_assoc,
  if◌then◌else◌, Bool-cases, Memᴰ, ◌==◌,
}
use llvm_guard_handler.Passes.Ir.{Value, Inst}
use llvm_guard_handler.Passes.Live.{Def, add_live, is_argument, replace_call}
use llvm_guard_handler.Passes.Live.Recorded.{unpair, unpair-append}

-- `d'` is `d`, but for pairs of values behind its live values, and users that came later.
pub record Grows (d d' : Def) : Type 0 where
  pub number : d'.number ≡ d.number
  pub allocated : d'.allocated ≡ d.allocated
  pub users : (u : Option ℕ) → Memᴰ u d.users → Memᴰ u d'.users
  pub pairs : List (Value × ℕ)
  pub inst : d'.inst ≡ add_live (unpair pairs) d.inst

add_live-nil : (inst : Inst) → add_live [] inst ≡ inst
unfolding add_live
add_live-nil (Inst.stackmap id shadow live) = ap (Inst.stackmap id shadow) (append-nil live)
add_live-nil (Inst.patchpoint type id shadow callback args live) =
    ap (Inst.patchpoint type id shadow callback args) (append-nil live)
add_live-nil (Inst.call callee args) = refl
add_live-nil Inst.inline_asm = refl
add_live-nil (Inst.ret value) = refl
add_live-nil (Inst.convert how) = refl
add_live-nil (Inst.other n) = refl

add_live-append :
    (vs ws : List Value) (inst : Inst) → add_live ws (add_live vs inst) ≡ add_live (vs ++ ws) inst
unfolding add_live
add_live-append vs ws (Inst.stackmap id shadow live) =
    ap (Inst.stackmap id shadow) (append_assoc live vs ws)
add_live-append vs ws (Inst.patchpoint type id shadow callback args live) =
    ap (Inst.patchpoint type id shadow callback args) (append_assoc live vs ws)
add_live-append vs ws (Inst.call callee args) = refl
add_live-append vs ws Inst.inline_asm = refl
add_live-append vs ws (Inst.ret value) = refl
add_live-append vs ws (Inst.convert how) = refl
add_live-append vs ws (Inst.other n) = refl

pub Grows-refl : (d : Def) → Grows d d
Grows-refl d = record {
  number = refl;
  allocated = refl;
  users = λ u m. m;
  pairs = [];
  inst = sym (add_live-nil d.inst);
}

pub add_pairs :
    (ps qs : List (Value × ℕ)) (inst : Inst)
    → add_live (unpair qs) (add_live (unpair ps) inst) ≡ add_live (unpair (ps ++ qs)) inst
add_pairs ps qs inst =
    add_live-append (unpair ps) (unpair qs) inst
    ∙ ap (λ vs. add_live vs inst) (sym (unpair-append ps qs))

pub Grows-trans : (d e f : Def) → Grows d e → Grows e f → Grows d f
Grows-trans d e f g h = record {
  number = h.number ∙ g.number;
  allocated = h.allocated ∙ g.allocated;
  users = λ u m. h.users u (g.users u m);
  pairs = g.pairs ++ h.pairs;
  inst = h.inst ∙ ap (add_live (unpair h.pairs)) g.inst ∙ add_pairs g.pairs h.pairs d.inst;
}

pub Grows-replace_call :
    (n : ℕ) (ps : List (Value × ℕ)) (d : Def) → Grows d (replace_call n (unpair ps) d)
unfolding replace_call
Grows-replace_call n ps d = record {
  number = refl;
  allocated = refl;
  users = elim (Bool-cases (is_argument d.number (unpair ps))) [
    | inl used ↦ rw used (λ u m. Memᴰ.tail m)
    | inr unused ↦ rw unused (λ u m. m)
  ];
  pairs = if d.number == n then ps else [];
  inst = elim (Bool-cases (d.number == n)) [
    | inl here ↦ rw here refl
    | inr elsewhere ↦ rw elsewhere (sym (add_live-nil d.inst))
  ];
}

pub Grows-after :
    (g h : Def → Def)
    → ((d : Def) → Grows d (g d))
    → ((d : Def) → Grows d (h d))
    → (d : Def) → Grows d (h (g d))
Grows-after g h first second d = Grows-trans d (g d) (h (g d)) (first d) (second (g d))
