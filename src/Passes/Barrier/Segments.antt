-- ===== src/Passes/Barrier/Segments.antt =====
-- The blocks that `runOnBasicBlock` of src/passes/basic_block_passes/BarrierPass.cpp makes of a
-- block.
use llvm_guard_handler.Base.{
  ℕ, ◌+◌, ◌-◌, ◌≡◌, refl, sym, ap, ◌∙◌, ◌⊎◌, inl, inr, true, false, List, [], ◌∷◌, ◌++◌, append-nil,
  append_assoc, arith, tests, ltb, le→ltb, lt→ltb, ◌==◌, Bool-cases, length, length-append, subst,
  take-length-append, drop-length-append, All, All-append, ok,
}
use llvm_guard_handler.Passes.Ir.{Inst, get_patchpoint_type, produces_stackmap_records}
use llvm_guard_handler.Passes.Barrier.{
  is_inline_asm, is_indirect, makes_record, has_next, split_here, call_insts_from,
  split_basic_block, split_basic_blocks, run_on_basic_block,
}

abbrev pub concat : List (List Inst) → List Inst
concat [] = []
concat (b ∷ bs) = b ++ concat bs

-- An instruction that is no end of a segment.
abbrev pub Plain : Inst → Type 0
Plain inst = (is_inline_asm inst ≡ false) × (makes_record inst ≡ false)

-- No inline assembly, and only the last instruction may make a record.
abbrev pub Ends : List Inst → Type 0
Ends [] = Unit
Ends (x ∷ []) = is_inline_asm x ≡ false
Ends (x ∷ y ∷ ys) = Plain x × Ends (y ∷ ys)

-- Inline assembly is the first instruction only, and a call that makes a record the last only.
abbrev pub Isolated : List Inst → Type 0
Isolated [] = Unit
Isolated (x ∷ []) = Unit
Isolated (x ∷ y ∷ ys) = (makes_record x ≡ false) × Ends (y ∷ ys)

-- What a segment may hold before its last instruction.
abbrev Open : List Inst → Type 0
Open [] = Unit
Open (x ∷ xs) = (makes_record x ≡ false) × All Plain xs

abbrev IsDirect : Inst → Type 0
IsDirect inst = is_indirect inst ≡ false

Ends-Plain : (xs : List Inst) → All Plain xs → Ends xs
Ends-Plain [] h = tt
Ends-Plain (x ∷ []) (h, hs) = h.0
Ends-Plain (x ∷ y ∷ ys) (h, hs) = (h, Ends-Plain (y ∷ ys) hs)

Ends-append :
    (xs : List Inst) (x : Inst) → All Plain xs → is_inline_asm x ≡ false → Ends (xs ++ x ∷ [])
Ends-append [] x h e = e
Ends-append (y ∷ []) x (h, hs) e = (h, e)
Ends-append (y ∷ z ∷ zs) x (h, hs) e = (h, Ends-append (z ∷ zs) x hs e)

Isolated-Open : (xs : List Inst) → Open xs → Isolated xs
Isolated-Open [] h = tt
Isolated-Open (x ∷ []) h = tt
Isolated-Open (x ∷ y ∷ ys) (h, hs) = (h, Ends-Plain (y ∷ ys) hs)

Isolated-append :
    (xs : List Inst) (x : Inst) → Open xs → is_inline_asm x ≡ false → Isolated (xs ++ x ∷ [])
Isolated-append [] x h e = tt
Isolated-append (y ∷ []) x (h, hs) e = (h, e)
Isolated-append (y ∷ z ∷ zs) x (h, hs) e = (h, Ends-append (z ∷ zs) x hs e)

Open-append : (xs : List Inst) (x : Inst) → Open xs → Plain x → Open (xs ++ x ∷ [])
Open-append [] x h e = (e.1, tt)
Open-append (y ∷ ys) x (h, hs) e = (h, All-append Plain ys (x ∷ []) hs (e, tt))

inline_asm-no_record : (x : Inst) → is_inline_asm x ≡ true → makes_record x ≡ false
unfolding is_inline_asm makes_record get_patchpoint_type produces_stackmap_records
inline_asm-no_record Inst.inline_asm e = refl
inline_asm-no_record (Inst.call callee args) e = cc
inline_asm-no_record (Inst.stackmap id shadow live) e = cc
inline_asm-no_record (Inst.patchpoint type id shadow callback args live) e = cc
inline_asm-no_record (Inst.ret value) e = cc
inline_asm-no_record (Inst.convert how) e = cc
inline_asm-no_record (Inst.other n) e = cc

-- A split in the last block.
split_basic_block-last :
    (done : List (List Inst)) (xs : List Inst) (y : Inst) (ys : List Inst) (i : ℕ)
    → i ≡ length (concat done) + length xs
    → split_basic_block i (done ++ (xs ++ y ∷ ys) ∷ []) ≡ done ++ xs ∷ (y ∷ ys) ∷ []
unfolding split_basic_block
split_basic_block-last [] xs y ys i e =
    let at : i ≡ length xs = omega arith in
    let inside : ltb (length xs) (length (xs ++ y ∷ ys)) ≡ true =
      lt→ltb _ _ (omega (arith, length-append xs (y ∷ ys))) in
    rw (at, inside, take-length-append xs (y ∷ ys), drop-length-append xs (y ∷ ys)) refl
split_basic_block-last (d ∷ ds) xs y ys i e =
    let sum = length-append d (concat ds) in
    rw
      (
        le→ltb i (length d) (omega arith),
        split_basic_block-last ds xs y ys (i - length d) (omega arith),
      )
      refl

-- The blocks that the splits from the index `i` on make, when those before made `done` and `cur` is
-- what stands before the instructions `xs` in the last block.
record Splits (done : List (List Inst)) (cur : List Inst) (i : ℕ) (xs : List Inst) : Type 0 where
  pub is : List ℕ
  pub blocks : List (List Inst)
  pub pushed : call_insts_from i xs ≡ ok is
  pub split : split_basic_blocks is (done ++ (cur ++ xs) ∷ []) ≡ blocks
  pub whole : concat blocks ≡ concat done ++ (cur ++ xs)
  pub isolated : All Isolated blocks

concat-append : (bs : List (List Inst)) (b : List Inst) → concat (bs ++ b ∷ []) ≡ concat bs ++ b
concat-append [] b = append-nil b
concat-append (c ∷ cs) b =
    ap (λ (x : List Inst). c ++ x) (concat-append cs b) ∙ sym (append_assoc c (concat cs) b)

-- The instruction is in the middle of a segment.
no_split :
    (done : List (List Inst)) (cur : List Inst) (i : ℕ) (x : Inst) (xs : List Inst)
    → split_here i x xs ≡ ok []
    → Splits done (cur ++ x ∷ []) (i + 1) xs
    → Splits done cur i (x ∷ xs)
no_split done cur i x xs here s =
    let same = append_assoc cur (x ∷ []) xs in
    record {
      is = s.is;
      blocks = s.blocks;
      pushed = unfold call_insts_from in rw (here, s.pushed) refl;
      split =
          subst (λ (l : List Inst). split_basic_blocks s.is (done ++ l ∷ []) ≡ s.blocks) same
            s.split;
      whole = s.whole ∙ ap (λ (l : List Inst). concat done ++ l) same;
      isolated = s.isolated;
    }

-- A split before `xs`, after the segment `here`.
one_split :
    (done : List (List Inst)) (cur : List Inst) (i : ℕ) (x : Inst) (xs : List Inst)
    (here rest : List Inst) (y : Inst) (ys : List Inst) (at : ℕ)
    → cur ++ x ∷ xs ≡ here ++ y ∷ ys
    → rest ++ xs ≡ y ∷ ys
    → at ≡ length (concat done) + length here
    → split_here i x xs ≡ ok (at ∷ [])
    → Splits (done ++ here ∷ []) rest (i + 1) xs
    → Splits done cur i (x ∷ xs)
one_split done cur i x xs here rest y ys at whole after place pushed s =
    let cut : split_basic_block at (done ++ (cur ++ x ∷ xs) ∷ [])
        ≡ (done ++ here ∷ []) ++ (rest ++ xs) ∷ [] =
      rw (whole, after)
        (split_basic_block-last done here y ys at place
          ∙ sym (append_assoc done (here ∷ []) ((y ∷ ys) ∷ []))) in
    record {
      is = at ∷ s.is;
      blocks = s.blocks;
      pushed = unfold call_insts_from in rw (pushed, s.pushed) refl;
      split = unfold split_basic_blocks in ap (split_basic_blocks s.is) cut ∙ s.split;
      whole =
          s.whole
          ∙ ap (λ (l : List Inst). l ++ (rest ++ xs)) (concat-append done here)
          ∙ append_assoc (concat done) here (rest ++ xs)
          ∙ ap (λ (l : List Inst). concat done ++ (here ++ l)) after
          ∙ ap (λ (l : List Inst). concat done ++ l) (sym whole);
      isolated = s.isolated;
    }

-- The end of the block.
no_more :
    (done : List (List Inst)) (cur : List Inst) (i : ℕ)
    → All Isolated done
    → Isolated cur
    → Splits done cur i []
no_more done cur i before last = record {
  is = [];
  blocks = done ++ cur ∷ [];
  pushed = unfold call_insts_from in refl;
  split = unfold split_basic_blocks in rw (append-nil cur) refl;
  whole = concat-append done cur ∙ ap (λ (l : List Inst). concat done ++ l) (sym (append-nil cur));
  isolated = All-append Isolated done (cur ∷ []) before (last, tt);
}

Open-first :
    (xs : List Inst) (x : Inst) → length xs ≡ 0 → makes_record x ≡ false → Open (xs ++ x ∷ [])
Open-first [] x none_before e = (e, tt)
Open-first (y ∷ ys) x none_before e = absurd (omega arith)

List-cases : (xs : List Inst) → (xs ≡ []) ⊎ ((y : Inst) × (ys : List Inst) × (xs ≡ y ∷ ys))
List-cases [] = inl refl
List-cases (y ∷ ys) = inr (y, ys, refl)

splits :
    (xs : List Inst) (done : List (List Inst)) (cur : List Inst) (i : ℕ)
    → i ≡ length (concat done) + length cur
    → All IsDirect xs
    → All Isolated done
    → Open cur
    → Splits done cur i xs
splits [] done cur i at direct before quiet = no_more done cur i before (Isolated-Open cur quiet)
splits (x ∷ xs) done cur i at (direct, directs) before quiet =
    let longer = length-append cur (x ∷ []) in
    let ended : length (concat (done ++ (cur ++ x ∷ []) ∷ []))
        ≡ length (concat done) + length (cur ++ x ∷ []) =
      ap length (concat-append done (cur ++ x ∷ []))
      ∙ length-append (concat done) (cur ++ x ∷ []) in
    let sum : length (concat (done ++ cur ∷ [])) ≡ length (concat done) + length cur =
      ap length (concat-append done cur) ∙ length-append (concat done) cur in
    elim (Bool-cases (is_inline_asm x)) [
      | inl asm ↦
          let no_record = inline_asm-no_record x asm in
          elim (Bool-cases (i == 0)) [
            | inl first ↦ no_split done cur i x xs (unfold split_here in rw (asm, first) refl) (
                splits xs done (cur ++ x ∷ []) (i + 1) (omega tests) directs before
                  (Open-first cur x (omega tests) no_record))
            | inr later ↦
                one_split done cur i x xs cur (x ∷ []) x xs i refl refl at
                  (unfold split_here in rw (asm, later) refl)
                  (splits xs (done ++ cur ∷ []) (x ∷ []) (i + 1) (omega arith) directs
                    (All-append Isolated done (cur ∷ []) before (Isolated-Open cur quiet, tt))
                    (no_record, tt))
          ]
      | inr plain ↦ elim (Bool-cases (makes_record x)) [
        | inl makes ↦
            let alone = Isolated-append cur x quiet plain in
            elim (List-cases xs) [
              | inl none_left ↦
                  subst (λ (l : List Inst). Splits done cur i (x ∷ l)) (sym none_left)
                    (no_split done cur i x []
                      (unfold split_here has_next in rw (plain, direct, makes) refl)
                      (no_more done (cur ++ x ∷ []) (i + 1) before alone))
              | inr (y, ys, more) ↦
                  one_split done cur i x xs (cur ++ x ∷ []) [] y ys (i + 1)
                    (ap (λ (l : List Inst). cur ++ x ∷ l) more
                      ∙ sym (append_assoc cur (x ∷ []) (y ∷ ys)))
                    more (omega arith)
                    (unfold split_here has_next in rw (plain, direct, makes, more) refl)
                    (splits xs (done ++ (cur ++ x ∷ []) ∷ []) [] (i + 1) (omega arith) directs
                      (All-append Isolated done ((cur ++ x ∷ []) ∷ []) before (alone, tt)) tt)
            ]
        | inr not_makes ↦
            no_split done cur i x xs (unfold split_here in rw (plain, direct, not_makes) refl) (
              splits xs done (cur ++ x ∷ []) (i + 1) (omega arith) directs before
                (Open-append cur x quiet (plain, not_makes)))
      ]
    ]

-- In a block without calls through pointers, BarrierPass ends; the blocks that it makes have the
-- instructions of the block, in their order, and each has inline assembly as its first instruction
-- only, and a call that makes a stack map record as its last only.
pub run_on_basic_block-Isolated :
    (insts : List Inst)
    → All (λ inst. is_indirect inst ≡ false) insts
    → (blocks : List (List Inst)) × (run_on_basic_block insts ≡ ok blocks)
      × (concat blocks ≡ insts)
      × All Isolated blocks
unfolding run_on_basic_block
run_on_basic_block-Isolated insts direct =
    let s = splits insts [] [] 0 refl direct tt tt in
    (s.blocks, rw (s.pushed) (ap ok s.split), s.whole, s.isolated)
