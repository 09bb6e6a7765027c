-- ===== src/Elf/Symbols.antt =====
-- What the symbol lookups find, in terms of one list: the symbols of all symbol tables in order.
use mathlib.Core.Option
use mathlib.Core.List.{Memᴰ}
use llvm_guard_handler.Base.{
  ℕ, zero, suc, ◌+◌, ◌≤◌, ◌<◌, ◌≡◌, refl, ◌⊎◌, ◌≢◌, inl, inr, ◌&&◌, none, some, List, [], ◌∷◌, ◌++◌,
  arith, tests, ltb, leb, ◌==◌, if◌then◌else◌, Bool-cases, add64, All,
}
use llvm_guard_handler.Elf.{
  Elf, Sym, sht_symtab, section_symbols, end_in_table, end_in_sections, get_sym_end, start_in_table,
  start_in_sections, get_sym_start,
}

-- The symbols of `n` sections from `i` on, and of the whole file.
unfoldable pub symbols_of : Elf → ℕ → ℕ → List Sym
symbols_of elf i zero = []
symbols_of elf i (suc n) =
    (if (elf.shdr i).sh_type == sht_symtab then section_symbols elf i else [])
    ++ symbols_of elf (i + 1) n

unfoldable pub symbols : Elf → List Sym
symbols elf = symbols_of elf 0 elf.e_shnum

-- `addr` lies between the start and the end that the lookups give for the symbol.
abbrev pub Contains : Elf → Sym → ℕ → Type 0
Contains elf s addr = (s.st_value ≤ addr) × (addr < get_sym_end elf s.st_value)

module _ (elf : Elf) where
  end_in_table-append :
      (a : ℕ) (xs ys : List Sym)
      → Option.get_or (end_in_table a (xs ++ ys)) 0
        ≡ Option.get_or (end_in_table a xs) (Option.get_or (end_in_table a ys) 0)
  unfolding end_in_table
  end_in_table-append a [] ys = refl
  end_in_table-append a (x ∷ xs) ys = ground (arith, end_in_table-append a xs ys)

  end_in_sections-symbols :
      (a i n : ℕ)
      → end_in_sections elf a i n ≡ Option.get_or (end_in_table a (symbols_of elf i n)) 0
  unfolding end_in_sections symbols_of
  end_in_sections-symbols a i zero = unfold end_in_table in refl
  end_in_sections-symbols a i (suc n) = ground (
    arith,
    end_in_sections-symbols a (i + 1) n,
    end_in_table-append a (section_symbols elf i) (symbols_of elf (i + 1) n),
  )

  start_in_table-append :
      (a : ℕ) (xs ys : List Sym)
      → Option.get_or (start_in_table elf a (xs ++ ys)) 0
        ≡ Option.get_or (start_in_table elf a xs) (Option.get_or (start_in_table elf a ys) 0)
  unfolding start_in_table
  start_in_table-append a [] ys = refl
  start_in_table-append a (x ∷ xs) ys = ground (arith, start_in_table-append a xs ys)

  start_in_sections-symbols :
      (a i n : ℕ)
      → start_in_sections elf a i n ≡ Option.get_or (start_in_table elf a (symbols_of elf i n)) 0
  unfolding start_in_sections symbols_of
  start_in_sections-symbols a i zero = unfold start_in_table in refl
  start_in_sections-symbols a i (suc n) = ground (
    arith,
    start_in_sections-symbols a (i + 1) n,
    start_in_table-append a (section_symbols elf i) (symbols_of elf (i + 1) n),
  )

  end_in_table_lem :
      (a : ℕ) (ss : List Sym)
      → ((s : Sym) × Memᴰ s ss × (s.st_value ≡ a) × (end_in_table a ss ≡ some (add64 a s.st_size)))
        ⊎ All (λ s. s.st_value ≢ a) ss × (end_in_table a ss ≡ none)
  unfolding end_in_table
  end_in_table_lem a [] = inr (tt, refl)
  end_in_table_lem a (x ∷ ss) = elim (Bool-cases (x.st_value == a)) [
    | inl hit ↦ inl (x, Memᴰ.head refl, omega (tests, hit), rw hit)
    | inr miss ↦ elim (end_in_table_lem a ss) [
      | inl (s, m, e, r) ↦ inl (s, Memᴰ.tail m, e, rw miss r)
      | inr (out, r) ↦ inr ((omega (tests, miss), out), rw miss r)
    ]
  ]

  -- `get_sym_end` returns the end of a symbol that starts at the address, and 0 if no symbol of the
  -- file does.
  pub get_sym_end_lem :
      (a : ℕ)
      → ((s : Sym) × Memᴰ s (symbols elf)
          × (s.st_value ≡ a)
          × (get_sym_end elf a ≡ add64 a s.st_size))
        ⊎ All (λ s. s.st_value ≢ a) (symbols elf) × (get_sym_end elf a ≡ 0)
  unfolding symbols
  get_sym_end_lem a =
      let whole = end_in_sections-symbols a 0 elf.e_shnum in
      elim (end_in_table_lem a (symbols elf)) [
        | inl (s, m, e, r) ↦ inl (s, m, e, unfold get_sym_end in ground (arith, whole))
        | inr (out, r) ↦ inr (out, unfold get_sym_end in ground (arith, whole))
      ]

  start_in_table_lem :
      (a : ℕ) (ss : List Sym)
      → ((s : Sym) × Memᴰ s ss × Contains elf s a × (start_in_table elf a ss ≡ some s.st_value))
        ⊎ All (λ s. ¬ Contains elf s a) ss × (start_in_table elf a ss ≡ none)
  unfolding start_in_table
  start_in_table_lem a [] = inr (tt, refl)
  start_in_table_lem a (x ∷ ss) =
      elim (Bool-cases (leb x.st_value a && ltb a (get_sym_end elf x.st_value))) [
        | inl hit ↦ inl (x, Memᴰ.head refl, ground arith, rw hit)
        | inr miss ↦ elim (start_in_table_lem a ss) [
          | inl (s, m, e, r) ↦ inl (s, Memᴰ.tail m, e, rw miss r)
          | inr (out, r) ↦ inr ((ground arith, out), rw miss r)
        ]
      ]

  -- `get_sym_start` returns the start of a symbol that contains the address, its end being the one
  -- that `get_sym_end` gives for that start, and 0 only if no symbol of the file does.
  pub get_sym_start_lem :
      (a : ℕ)
      → ((s : Sym) × Memᴰ s (symbols elf) × Contains elf s a × (get_sym_start elf a ≡ s.st_value))
        ⊎ All (λ s. ¬ Contains elf s a) (symbols elf) × (get_sym_start elf a ≡ 0)
  unfolding symbols
  get_sym_start_lem a =
      let whole = start_in_sections-symbols a 0 elf.e_shnum in
      elim (start_in_table_lem a (symbols elf)) [
        | inl (s, m, e, r) ↦ inl (s, m, e, unfold get_sym_start in ground (arith, whole))
        | inr (out, r) ↦ inr (out, unfold get_sym_start in ground (arith, whole))
      ]
