-- ===== src/CallStack/Locations/Transfer.antt =====
-- The loops of `restore_unopt_stack` in call_stack_state.c over the locations and over the frames.
use llvm_guard_handler.Base.{
  ℕ, ◌≡◌, ◌≢◌, refl, sym, subst, ◌∙◌, ◌⊎◌, inl, inr, List, [], ◌∷◌, ◌++◌, get_elem?, length, All,
  ok,
}
use llvm_guard_handler.Memory.{Memory, load}
use llvm_guard_handler.StackMap.{StackMap, register, direct}
use llvm_guard_handler.CallStack.{RegNum}
use llvm_guard_handler.CallStack.Locations.{restore_location, restore_pairs}
use llvm_guard_handler.CallStack.Locations.Pairs.{
  slot, Job, locs_of, blocks_of, size_of, Handles, HasValue, OffMemory, OffRegister,
  restore_location_lem,
}

module _ (u : RegNum) (sm : StackMap) (stray : ℕ → ℕ) where
  -- What is written for `k` does not meet the place of `j`.
  abbrev pub Keeps : ℕ → Job → Job → Type 0
  Keeps bp j k =
      ((j.loc.kind ≢ direct) ⊎ OffMemory u sm stray bp k (slot bp j.loc) (size_of u sm stray j))
      × ((j.loc.kind ≢ register) ⊎ OffRegister u sm stray k j.loc.dwarf_reg_num)

  -- The places of the jobs do not meet.
  abbrev pub Separate : ℕ → List Job → Type 0
  Separate bp [] = Unit
  Separate bp (j ∷ js) = All (Keeps bp j) js × Separate bp js

  Keeps-memory :
      (bp : ℕ) (j : Job) (js : List Job)
      → j.loc.kind ≡ direct
      → All (Keeps bp j) js
      → All (λ k. OffMemory u sm stray bp k (slot bp j.loc) (size_of u sm stray j)) js
  Keeps-memory bp j [] kind h = tt
  Keeps-memory bp j (k ∷ js) kind ((inl other, r), hs) = absurd (other kind)
  Keeps-memory bp j (k ∷ js) kind ((inr off, r), hs) = (off, Keeps-memory bp j js kind hs)

  Keeps-register :
      (bp : ℕ) (j : Job) (js : List Job)
      → j.loc.kind ≡ register
      → All (Keeps bp j) js
      → All (λ k. OffRegister u sm stray k j.loc.dwarf_reg_num) js
  Keeps-register bp j [] kind h = tt
  Keeps-register bp j (k ∷ js) kind ((r, inl other), hs) = absurd (other kind)
  Keeps-register bp j (k ∷ js) kind ((r, inr off), hs) = (off, Keeps-register bp j js kind hs)

  -- Memory and registers after the jobs.
  pub record RanPairs (bp : ℕ) (js : List Job) (rest : List (List ℕ)) (regs : List ℕ) (m : Memory)
      (regs' : List ℕ) (m' : Memory) : Type 0 where
    pub ran :
        restore_pairs u sm stray bp (locs_of js) (blocks_of js ++ rest) regs m
        ≡ ok (regs', m', rest)
    pub count : length regs' ≡ length regs
    pub values : All (HasValue u sm stray bp regs' m') js
    pub memory : (a n : ℕ) → All (λ j. OffMemory u sm stray bp j a n) js → load m' a n ≡ load m a n
    pub registers :
        (r : ℕ) → All (λ j. OffRegister u sm stray j r) js → get_elem? regs' r ≡ get_elem? regs r

  HasValue-keep :
      (bp : ℕ) (j : Job) (js : List Job) (regs regs' : List ℕ) (m m' : Memory)
      → All (Keeps bp j) js
      → ((a n : ℕ) → All (λ k. OffMemory u sm stray bp k a n) js → load m' a n ≡ load m a n)
      → ((r : ℕ) → All (λ k. OffRegister u sm stray k r) js → get_elem? regs' r ≡ get_elem? regs r)
      → HasValue u sm stray bp regs m j
      → HasValue u sm stray bp regs' m' j
  HasValue-keep bp j js regs regs' m m' keeps memory registers (inl (kind, at)) =
      inl (kind, memory _ _ (Keeps-memory bp j js kind keeps) ∙ at)
  HasValue-keep bp j js regs regs' m m' keeps memory registers (inr (inl (kind, at))) =
      inr (inl (kind, registers _ (Keeps-register bp j js kind keeps) ∙ at))
  HasValue-keep bp j js regs regs' m m' keeps memory registers (inr (inr kind)) = inr (inr kind)

  pub restore_pairs_lem :
      (bp : ℕ) (js : List Job) (rest : List (List ℕ)) (regs : List ℕ) (m : Memory)
      → All (λ j. Handles u sm stray (length regs) j.loc) js
      → Separate bp js
      → (regs' : List ℕ) × (m' : Memory) × RanPairs bp js rest regs m regs' m'
  restore_pairs_lem bp [] rest regs m handles separate = (
    regs,
    m,
    record {
      ran = unfold restore_pairs in refl;
      count = refl;
      values = tt;
      memory = λ a n off. refl;
      registers = λ r off. refl;
    },
  )
  restore_pairs_lem bp (j ∷ js) rest regs m (h, hs) (keeps, separate) =
      let (regs1, m1, one) = restore_location_lem u sm stray bp j regs m h in
      let (regs2, m2, more) =
        restore_pairs_lem bp js rest regs1 m1
          (subst (λ (c : ℕ). All (λ k. Handles u sm stray c k.loc) js) (sym one.count) hs)
          separate in
      (
        regs2,
        m2,
        record {
          ran = step bp j js rest regs regs1 m m1 one.ran ∙ more.ran;
          count = more.count ∙ one.count;
          values = (
            HasValue-keep bp j js regs1 regs2 m1 m2 keeps more.memory more.registers one.value,
            more.values,
          );
          memory = λ a n (off, offs). more.memory a n offs ∙ one.memory a n off;
          registers = λ r (off, offs). more.registers r offs ∙ one.registers r off;
        },
      )
    where
      step :
          (bp : ℕ) (j : Job) (js : List Job) (rest : List (List ℕ)) (regs regs1 : List ℕ)
          (m m1 : Memory)
          → restore_location u sm stray bp j.loc j.block (size_of u sm stray j) regs m
            ≡ ok (regs1, m1)
          → restore_pairs u sm stray bp (locs_of (j ∷ js)) (blocks_of (j ∷ js) ++ rest) regs m
            ≡ restore_pairs u sm stray bp (locs_of js) (blocks_of js ++ rest) regs1 m1
      step bp j js rest regs regs1 m m1 e = unfold restore_pairs in rw e refl
