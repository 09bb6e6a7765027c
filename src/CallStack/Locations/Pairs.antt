-- ===== src/CallStack/Locations/Pairs.antt =====
-- The inner loop of `restore_unopt_stack` in call_stack_state.c, over the locations of one frame.
use llvm_guard_handler.Base.{
  ℕ, zero, suc, ◌+◌, ◌≤◌, ◌<◌, ◌≡◌, ◌≢◌, refl, ap, ◌⊎◌, inl, inr, false, some, List, [], ◌∷◌, ◌++◌,
  arith, add64, sext32, set, get_elem?, get_elem?-set_self, get_elem?-set_ne, length-set, length,
  length-append, take, ltb, ok,
}
use llvm_guard_handler.Memory.{Memory, load, store}
use llvm_guard_handler.Memory.Laws.{load-store, load-store_ne}
use llvm_guard_handler.StackMap.{StackMap, Location, register, direct, constant, const_index}
use llvm_guard_handler.CallStack.{RegNum}
use llvm_guard_handler.CallStack.Locations.{
  stray_bytes, copy_bytes, block_word, assert_valid_reg_num, restore_location,
}

-- Where a DIRECT location of the frame with base pointer `bp` stands.
abbrev pub slot : ℕ → Location → ℕ
slot bp l = add64 bp (sext32 l.offset)

length-take-le {ℓ} : {A : Type ℓ} (n : ℕ) (xs : List A) → n ≤ length xs → length (take n xs) ≡ n
length-take-le zero xs h = refl
length-take-le (suc n) [] h = absurd (omega arith)
length-take-le (suc n) (x ∷ xs) h = ap suc (length-take-le n xs (omega arith))

length-stray_bytes : (stray : ℕ → ℕ) (i n : ℕ) → length (stray_bytes stray i n) ≡ n
unfolding stray_bytes
length-stray_bytes stray i zero = refl
length-stray_bytes stray i (suc n) = ap suc (length-stray_bytes stray (i + 1) n)

pub length-copy_bytes :
    (stray : ℕ → ℕ) (object : List ℕ) (n : ℕ) → length (copy_bytes stray object n) ≡ n
unfolding copy_bytes
length-copy_bytes stray object n =
    length-take-le n (object ++ stray_bytes stray 0 n)
      (omega (arith, length-append object (stray_bytes stray 0 n), length-stray_bytes stray 0 n))

-- A location of the unoptimised frame and the one behind it that tells its size, with the blocks that
-- `get_locations` made for them.
pub record Job : Type 0 where
  pub loc : Location
  pub size_loc : Location
  pub block : List ℕ
  pub size_block : List ℕ

abbrev pub locs_of : List Job → List Location
locs_of [] = []
locs_of (j ∷ js) = j.loc ∷ j.size_loc ∷ locs_of js

abbrev pub blocks_of : List Job → List (List ℕ)
blocks_of [] = []
blocks_of (j ∷ js) = j.block ∷ j.size_block ∷ blocks_of js

module _ (u : RegNum) (sm : StackMap) (stray : ℕ → ℕ) where
  abbrev pub size_of : Job → ℕ
  size_of j = block_word u sm stray j.size_block

  -- The kinds of location that `restore_unopt_stack` handles; a register has a slot in the array.
  abbrev pub Handles : ℕ → Location → Type 0
  Handles count l =
      (l.kind ≡ direct)
      ⊎ ((l.kind ≡ register)
          × (u.rax ≤ l.dwarf_reg_num)
          × (l.dwarf_reg_num ≤ u.r15)
          × (l.dwarf_reg_num < count))
      ⊎ (l.kind ≡ constant)
      ⊎ (l.kind ≡ const_index)

  -- The location has the value of its block: all bytes of it in memory, or its first word in the
  -- array of registers. Constants need no place.
  abbrev pub HasValue : ℕ → List ℕ → Memory → Job → Type 0
  HasValue bp regs m j =
      (j.loc.kind ≡ direct)
        × (load m (slot bp j.loc) (size_of j) ≡ copy_bytes stray j.block (size_of j))
      ⊎ (j.loc.kind ≡ register)
        × (get_elem? regs j.loc.dwarf_reg_num ≡ some (block_word u sm stray j.block))
      ⊎ (j.loc.kind ≡ constant)
      ⊎ (j.loc.kind ≡ const_index)

  -- What is written for a job does not meet the `n` bytes at `a`, or the register `r`.
  abbrev pub OffMemory : ℕ → Job → ℕ → ℕ → Type 0
  OffMemory bp j a n =
      (j.loc.kind ≢ direct) ⊎ (a + n ≤ slot bp j.loc) ⊎ (slot bp j.loc + size_of j ≤ a)

  abbrev pub OffRegister : Job → ℕ → Type 0
  OffRegister j r = (j.loc.kind ≢ register) ⊎ (j.loc.dwarf_reg_num ≢ r)

  pub record Restored (bp : ℕ) (j : Job) (regs : List ℕ) (m : Memory) (regs' : List ℕ) (m' : Memory)
      : Type 0 where
    pub ran : restore_location u sm stray bp j.loc j.block (size_of j) regs m ≡ ok (regs', m')
    pub count : length regs' ≡ length regs
    pub value : HasValue bp regs' m' j
    pub memory : (a n : ℕ) → OffMemory bp j a n → load m' a n ≡ load m a n
    pub registers : (r : ℕ) → OffRegister j r → get_elem? regs' r ≡ get_elem? regs r

  store_off :
      (bp : ℕ) (j : Job) (m : Memory)
      → j.loc.kind ≡ direct
      → (a n : ℕ) → OffMemory bp j a n
      → load (store m (slot bp j.loc) (copy_bytes stray j.block (size_of j))) a n ≡ load m a n
  store_off bp j m kind a n (inl other) = absurd (other kind)
  store_off bp j m kind a n (inr out) =
      load-store_ne m (slot bp j.loc) (copy_bytes stray j.block (size_of j)) a n
        (rw (length-copy_bytes stray j.block (size_of j)) out)

  pub restore_location_lem :
      (bp : ℕ) (j : Job) (regs : List ℕ) (m : Memory)
      → Handles (length regs) j.loc
      → (regs' : List ℕ) × (m' : Memory) × Restored bp j regs m regs' m'
  unfolding restore_location assert_valid_reg_num
  restore_location_lem bp j regs m (inl kind) =
      let bytes = copy_bytes stray j.block (size_of j) in
      let len = length-copy_bytes stray j.block (size_of j) in
      (
        regs,
        store m (slot bp j.loc) bytes,
        record {
          ran = rw kind refl;
          count = refl;
          value = inl (kind, rw len at (load-store m (slot bp j.loc) bytes));
          memory = λ a n off. store_off bp j m kind a n off;
          registers = λ r off. refl;
        },
      )
  restore_location_lem bp j regs m (inr (inl (kind, lo, hi, small))) =
      let word = block_word u sm stray j.block in
      let above : ltb j.loc.dwarf_reg_num u.rax ≡ false = ground arith in
      let below : ltb u.r15 j.loc.dwarf_reg_num ≡ false = ground arith in
      (
        set regs j.loc.dwarf_reg_num word,
        m,
        record {
          ran = rw (kind, above, below) refl;
          count = length-set regs j.loc.dwarf_reg_num word;
          value = inr (inl (kind, get_elem?-set_self regs j.loc.dwarf_reg_num word small));
          memory = λ a n off. refl;
          registers = λ r off. elim off [
            | inl other ↦ absurd (other kind)
            | inr ne ↦ get_elem?-set_ne regs j.loc.dwarf_reg_num r word ne
          ];
        },
      )
  restore_location_lem bp j regs m (inr (inr (inl kind))) = (
    regs,
    m,
    record {
      ran = rw kind refl;
      count = refl;
      value = inr (inr (inl kind));
      memory = λ a n off. refl;
      registers = λ r off. refl;
    },
  )
  restore_location_lem bp j regs m (inr (inr (inr kind))) = (
    regs,
    m,
    record {
      ran = rw kind refl;
      count = refl;
      value = inr (inr (inr kind));
      memory = λ a n off. refl;
      registers = λ r off. refl;
    },
  )
