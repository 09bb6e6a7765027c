-- ===== src/Elf.antt =====
-- src/stackmap_checker/utils.c: lookups in the ELF file of the running program. The mapped file is
-- what its headers, symbols and strings read as at file offsets, in the layout of <elf.h>; finding,
-- opening and mapping the file is left to the system.
pub mod Symbols
pub mod System
use mathlib.Core.Option
use llvm_guard_handler.Base.{
  ◌%◌, ◌^◌, ℕ, zero, suc, ◌+◌, ◌*◌, ◌/◌, Bool, true, false, ◌&&◌, Option, none, some, List, [], ◌∷◌,
  ltb, leb, ◌==◌, if◌then◌else◌, add64,
}

-- `Elf64_Shdr` and `Elf64_Sym`, the fields that the code reads.
pub record Shdr : Type 0 where
  pub sh_name : ℕ
  pub sh_type : ℕ
  pub sh_addr : ℕ
  pub sh_offset : ℕ
  pub sh_size : ℕ

pub record Sym : Type 0 where
  pub st_value : ℕ
  pub st_size : ℕ

-- `Elf64_Ehdr` with the file behind it: `shdr i` is section header i, `sym_at` the symbol and
-- `string_at` the NUL-terminated string at a file offset.
pub record Elf : Type 0 where
  pub e_shnum : ℕ
  pub e_shstrndx : ℕ
  pub shdr : ℕ → Shdr
  pub sym_at : ℕ → Sym
  pub string_at : ℕ → List ℕ

-- SHT_SYMTAB and sizeof(Elf64_Sym).
abbrev pub sht_symtab : ℕ
sht_symtab = 2

abbrev pub sym_size : ℕ
sym_size = 24

-- `strcmp(a, b) == 0`.
unfoldable pub same_string : List ℕ → List ℕ → Bool
same_string [] [] = true
same_string [] (y ∷ ys) = false
same_string (x ∷ xs) [] = false
same_string (x ∷ xs) (y ∷ ys) = (x == y) && same_string xs ys

-- `get_sym_end`: the loop over the symbols of a table.
unfoldable pub end_in_table : ℕ → List Sym → Option ℕ
end_in_table start_addr [] = none
end_in_table start_addr (s ∷ ss) =
    if s.st_value == start_addr
    then some (add64 start_addr s.st_size)
    else end_in_table start_addr ss

module _ (elf : Elf) where
  -- `get_addr`: the loop at section `i`, with `n` rounds left.
  unfoldable pub find_section : List ℕ → ℕ → ℕ → Option ℕ
  find_section name i zero = none
  find_section name i (suc n) =
      let strtab = (elf.shdr elf.e_shstrndx).sh_offset in
      if same_string name (elf.string_at (strtab + (elf.shdr i).sh_name))
      then some (elf.shdr i).sh_addr
      else find_section name (i + 1) n

  unfoldable pub get_addr : List ℕ → Option ℕ
  unfolding find_section same_string
  get_addr name = find_section name 0 elf.e_shnum

  -- The symbols of section `i`.
  unfoldable pub symbols_from : ℕ → ℕ → ℕ → List Sym
  symbols_from offset i zero = []
  symbols_from offset i (suc n) = elf.sym_at (offset + i * sym_size) ∷ symbols_from offset (i + 1) n

  -- `int symbol_count`: what does not fit wraps, and no loop runs for a negative number.
  unfoldable pub symbol_count : ℕ → ℕ
  symbol_count size =
      let count = size / sym_size % 2 ^ 32 in if ltb count (2 ^ 31) then count else 0

  unfoldable pub section_symbols : ℕ → List Sym
  unfolding symbols_from symbol_count
  section_symbols i = symbols_from (elf.shdr i).sh_offset 0 (symbol_count (elf.shdr i).sh_size)

  -- `get_sym_end`: the loop over the sections, which goes on to the next section where the inner loop
  -- returns nothing.
  unfoldable pub end_in_sections : ℕ → ℕ → ℕ → ℕ
  end_in_sections start_addr i zero = 0
  end_in_sections start_addr i (suc n) =
      let rest = end_in_sections start_addr (i + 1) n in
      if (elf.shdr i).sh_type == sht_symtab
      then Option.get_or (end_in_table start_addr (section_symbols i)) rest
      else rest

  unfoldable pub get_sym_end : ℕ → ℕ
  unfolding end_in_sections end_in_table section_symbols
  get_sym_end start_addr = end_in_sections start_addr 0 elf.e_shnum

  -- `get_sym_start`.
  unfoldable pub start_in_table : ℕ → List Sym → Option ℕ
  start_in_table addr [] = none
  start_in_table addr (s ∷ ss) =
      if leb s.st_value addr && ltb addr (get_sym_end s.st_value)
      then some s.st_value
      else start_in_table addr ss

  unfoldable pub start_in_sections : ℕ → ℕ → ℕ → ℕ
  start_in_sections addr i zero = 0
  start_in_sections addr i (suc n) =
      let rest = start_in_sections addr (i + 1) n in
      if (elf.shdr i).sh_type == sht_symtab
      then Option.get_or (start_in_table addr (section_symbols i)) rest
      else rest

  unfoldable pub get_sym_start : ℕ → ℕ
  unfolding start_in_sections start_in_table section_symbols
  get_sym_start addr = start_in_sections addr 0 elf.e_shnum
