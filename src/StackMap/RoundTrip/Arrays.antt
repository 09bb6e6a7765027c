-- ===== src/StackMap/RoundTrip/Arrays.antt =====
-- The arrays of structs of fixed size.
use llvm_guard_handler.Base.{
  ℕ, zero, suc, ◌+◌, ◌*◌, ◌^◌, ◌<◌, ◌≡◌, refl, ap₂, sym, List, [], ◌∷◌, arith, length, All,
}
use llvm_guard_handler.Memory.{Memory, read}
use llvm_guard_handler.Memory.Laws.{Holds, Holds-word, Fits-1, Fits-2, Fits-4, Fits-8}
use llvm_guard_handler.StackMap.{Location, LiveOut, StackSizeRecord}
use llvm_guard_handler.StackMap.Create.{
  read_array, read_location, read_liveout, read_size_records, location_size, liveout_size,
}
use llvm_guard_handler.StackMap.Format.{
  put_all, put_location, put_liveout, put_size_record, put_constant, LocationFits, LiveOutFits,
  SizeRecordFits, AllFrom,
}

-- A reader of structs of `width` bytes undoes the writer `put` on values in `P`.
abbrev Reads : {A : Type 0} → (A → Type 0) → (A → List ℕ → List ℕ) → Memory → (ℕ → A) → ℕ → Type 0
Reads {A} P put m one width =
    (a b : ℕ) (x : A) (rest : List ℕ)
    → P x
    → b ≡ a + width
    → Holds m a (put x rest)
    → (one a ≡ x) × Holds m b rest

read_array_lem :
    {A : Type 0} (P : A → Type 0) (put : A → List ℕ → List ℕ) (m : Memory) (one : ℕ → A) (width : ℕ)
    → Reads P put m one width
    → (a b n : ℕ) (xs : List A) (rest : List ℕ) → All P xs
    → length xs ≡ n
    → b ≡ a + n * width
    → Holds m a (put_all put xs rest)
    → (read_array one width a n ≡ xs) × Holds m b rest
unfolding read_array put_all
read_array_lem P put m one width reads a b zero [] rest ps e eb h =
    (refl, let e' : b ≡ a = omega arith in rw e' h)
read_array_lem P put m one width reads a b (suc n) [] rest ps e eb h = absurd (omega arith)
read_array_lem P put m one width reads a b zero (x ∷ xs) rest ps e eb h = absurd (omega arith)
read_array_lem P put m one width reads a b (suc n) (x ∷ xs) rest ps e eb h =
    let (first, behind) = reads a (a + width) x (put_all put xs rest) ps.0 refl h in
    let (others, end) =
      read_array_lem P put m one width reads (a + width) b n xs rest ps.1 (omega arith)
        (grind arith) behind in
    (ap₂ ◌∷◌ first others, end)

module _ (m : Memory) where
  read_location_lem : Reads LocationFits put_location m (read_location m) location_size
  unfolding read_location put_location
  read_location_lem a b l rest fits e h =
      let (f0, h0) = Holds-word m a (a + 1) 1 l.kind _ refl (Fits-1 _ fits.kind) h in
      let (f1, h1) =
        Holds-word m (a + 1) (a + 2) 1 l.reserved _ (omega arith) (Fits-1 _ fits.reserved) h0 in
      let (f2, h2) =
        Holds-word m (a + 2) (a + 4) 2 l.size _ (omega arith) (Fits-2 _ fits.size) h1 in
      let (f3, h3) =
        Holds-word m (a + 4) (a + 6) 2 l.dwarf_reg_num _ (omega arith) (Fits-2 _ fits.dwarf_reg_num)
          h2 in
      let (f4, h4) =
        Holds-word m (a + 6) (a + 8) 2 l.reserved2 _ (omega arith) (Fits-2 _ fits.reserved2) h3 in
      let (f5, h5) = Holds-word m (a + 8) b 4 l.offset _ (omega arith) (Fits-4 _ fits.offset) h4 in
      (
        λ i. record {
          kind = f0 i;
          reserved = f1 i;
          size = f2 i;
          dwarf_reg_num = f3 i;
          reserved2 = f4 i;
          offset = f5 i;
        },
        h5,
      )

  read_liveout_lem : Reads LiveOutFits put_liveout m (read_liveout m) liveout_size
  unfolding read_liveout put_liveout
  read_liveout_lem a b l rest fits e h =
      let (f0, h0) =
        Holds-word m a (a + 2) 2 l.dwarf_reg_num _ refl (Fits-2 _ fits.dwarf_reg_num) h in
      let (f1, h1) =
        Holds-word m (a + 2) (a + 3) 1 l.reserved _ (omega arith) (Fits-1 _ fits.reserved) h0 in
      let (f2, h2) = Holds-word m (a + 3) b 1 l.size _ (omega arith) (Fits-1 _ fits.size) h1 in
      (λ i. record { dwarf_reg_num = f0 i; reserved = f1 i; size = f2 i }, h2)

  pub read_locations_lem :
      (a b n : ℕ) (xs : List Location) (rest : List ℕ)
      → All LocationFits xs
      → length xs ≡ n
      → b ≡ a + n * location_size
      → Holds m a (put_all put_location xs rest)
      → (read_array (read_location m) location_size a n ≡ xs) × Holds m b rest
  read_locations_lem =
      read_array_lem LocationFits put_location m (read_location m) location_size read_location_lem

  pub read_liveouts_lem :
      (a b n : ℕ) (xs : List LiveOut) (rest : List ℕ)
      → All LiveOutFits xs
      → length xs ≡ n
      → b ≡ a + n * liveout_size
      → Holds m a (put_all put_liveout xs rest)
      → (read_array (read_liveout m) liveout_size a n ≡ xs) × Holds m b rest
  read_liveouts_lem =
      read_array_lem LiveOutFits put_liveout m (read_liveout m) liveout_size read_liveout_lem

  pub read_constants_lem :
      (a b n : ℕ) (xs : List ℕ) (rest : List ℕ)
      → All (λ c. c < 2 ^ 64) xs
      → length xs ≡ n
      → b ≡ a + n * 8
      → Holds m a (put_all put_constant xs rest)
      → (read_array (λ c. read m c 8) 8 a n ≡ xs) × Holds m b rest
  unfolding put_constant
  read_constants_lem =
      read_array_lem (λ c. c < 2 ^ 64) put_constant m (λ c. read m c 8) 8
        λ a b c rest fits e. Holds-word m a b 8 c rest e (Fits-8 c fits)

  pub read_size_records_lem :
      (a b i n : ℕ) (xs : List StackSizeRecord) (rest : List ℕ)
      → AllFrom SizeRecordFits i xs
      → length xs ≡ n
      → b ≡ a + n * 24
      → Holds m a (put_all put_size_record xs rest)
      → (read_size_records m a i n ≡ xs) × Holds m b rest
  unfolding read_size_records put_all put_size_record
  read_size_records_lem a b i zero [] rest ps e eb h =
      (refl, let e' : b ≡ a = omega arith in rw e' h)
  read_size_records_lem a b i (suc n) [] rest ps e eb h = absurd (omega arith)
  read_size_records_lem a b i zero (x ∷ xs) rest ps e eb h = absurd (omega arith)
  read_size_records_lem a b i (suc n) (x ∷ xs) rest (fits, ps) e eb h =
      let (f0, h0) = Holds-word m a (a + 8) 8 x.fun_addr _ refl (Fits-8 _ fits.fun_addr) h in
      let (f1, h1) =
        Holds-word m (a + 8) (a + 16) 8 x.stack_size _ (omega arith) (Fits-8 _ fits.stack_size)
          h0 in
      let (f2, h2) =
        Holds-word m (a + 16) (a + 24) 8 x.record_count _ (omega arith) (Fits-8 _ fits.record_count)
          h1 in
      let (others, end) =
        read_size_records_lem (a + 24) b (i + 1) n xs rest ps (omega arith) (omega arith) h2 in
      (
        λ j.
            record {
              fun_addr = f0 j;
              stack_size = f1 j;
              record_count = f2 j;
              index = sym fits.index j;
            }
            ∷ others j,
        end,
      )
