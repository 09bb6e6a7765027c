-- ===== src/Examples/System.antt =====
-- The theorems on utils.c and the system, at an executable that can be mapped.
use mathlib.Core.Option
use llvm_guard_handler.Base.{
  ℕ, subst, ◌≤◌, ◌≡◌, ◌≢◌, ◌⊎◌, refl, true, false, none, some, List, [], ◌∷◌, length, All, arith,
  ok, err, no_executable_path, failed_mapping,
}
use llvm_guard_handler.Heap.{Heap, alloc}
use llvm_guard_handler.Elf.{Elf}
use llvm_guard_handler.Elf as Mapped
use llvm_guard_handler.Elf.System.{
  System, World, max_buf_size, c_string, get_binary_path, get_elf_header, get_sym_start,
}
use llvm_guard_handler.Elf.System.Path.{get_binary_path_lem}
use llvm_guard_handler.Elf.System.Freed.{Finds, Has, get_sym_start-Finds}
use llvm_guard_handler.Elf.System.Failures.{get_elf_header_cases}
use llvm_guard_handler.Examples.Binary.{binary}

-- The path is `/a`.
abbrev path : List ℕ
path = 47 ∷ 97 ∷ []

abbrev system : System
system = record {
  readlink = λ n. some path;
  fresh = λ i. 170;
  opens = λ p. true;
  file = λ p. some binary;
}

abbrev nothing : Heap
nothing = record { next = 3; live = [] }

abbrev world : World
world = record { blocks = nothing; fds = record { next = 3; live = 2 ∷ 1 ∷ [] }; maps = nothing }

path_text : All (λ b. b ≢ 0) path
path_text = ((λ e. absurd (omega arith)), ((λ e. absurd (omega arith)), tt))

get_binary_path_lem_example :
    (contents : List ℕ) × (get_binary_path system world
      ≡ ok (((alloc world.blocks).0, contents), record world { blocks = (alloc world.blocks).1 }))
    × (length contents ≡ max_buf_size)
    × (c_string contents ≡ path)
get_binary_path_lem_example = get_binary_path_lem system world path refl (omega arith) path_text

documented : (link : List ℕ) → some path ≡ some link → (length link ≤ 511) × All (λ b. b ≢ 0) link
documented link e =
    subst (λ o. (length (Option.get_or o []) ≤ 511) × All (λ b. b ≢ 0) (Option.get_or o [])) e
      (omega arith, path_text)

get_elf_header_cases_example :
    ((system.readlink 511 ≡ none) × (get_elf_header system world ≡ err no_executable_path))
    ⊎ ((link : List ℕ) × (system.readlink 511 ≡ some link)
        × ((((system.opens link ≡ false) ⊎ (system.file link ≡ none))
              × (get_elf_header system world ≡ err failed_mapping))
            ⊎ ((elf : Elf) × (m : ℕ) × (w' : World) × (system.file link ≡ some elf)
                × (get_elf_header system world ≡ ok ((elf, m), w'))
                × Has world w' (m ∷ []))))
get_elf_header_cases_example = get_elf_header_cases system world documented

finds : Finds system binary
finds = record {
  link = path;
  found = refl;
  fits = omega arith;
  text = path_text;
  opened = refl;
  mapped = refl;
}

get_sym_start-Finds_example :
    (w' : World) × (get_sym_start system 4100 world ≡ ok (Mapped.get_sym_start binary 4100, w'))
    × Has world w' []
get_sym_start-Finds_example = get_sym_start-Finds system binary finds 4100 world
