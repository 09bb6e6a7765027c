-- ===== src/Examples/Binary.antt =====
-- The theorems on the symbols of a binary at a small symbol table.
use mathlib.Core.List.{Memᴰ}
use llvm_guard_handler.Base.{◌≡◌, ◌≢◌, ◌⊎◌, [], All, add64}
use llvm_guard_handler.Elf.{Elf, Sym, get_sym_end, get_sym_start}
use llvm_guard_handler.Elf.Symbols.{symbols, Contains, get_sym_end_lem, get_sym_start_lem}

-- One symbol table of one symbol, 64 bytes from 4096 on.
abbrev pub binary : Elf
binary = record {
  e_shnum = 1;
  e_shstrndx = 0;
  shdr = λ i. record { sh_name = 0; sh_type = 2; sh_addr = 0; sh_offset = 0; sh_size = 24 };
  sym_at = λ a. record { st_value = 4096; st_size = 64 };
  string_at = λ a. [];
}

get_sym_end_lem_example :
    ((s : Sym) × Memᴰ s (symbols binary)
      × (s.st_value ≡ 4096)
      × (get_sym_end binary 4096 ≡ add64 4096 s.st_size))
    ⊎ All (λ s. s.st_value ≢ 4096) (symbols binary) × (get_sym_end binary 4096 ≡ 0)
get_sym_end_lem_example = get_sym_end_lem binary 4096

get_sym_start_lem_example :
    ((s : Sym) × Memᴰ s (symbols binary)
      × Contains binary s 4100
      × (get_sym_start binary 4100 ≡ s.st_value))
    ⊎ All (λ s. ¬ Contains binary s 4100) (symbols binary) × (get_sym_start binary 4100 ≡ 0)
get_sym_start_lem_example = get_sym_start_lem binary 4100
