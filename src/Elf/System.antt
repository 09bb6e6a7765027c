-- ===== src/Elf/System.antt =====
-- src/stackmap_checker/utils.c with its calls of the system: the path of the executable, its mapping,
-- and the lookups that map the file and unmap it. The lookups themselves are those of Elf.
pub mod Failures
pub mod Freed
pub mod Path
use llvm_guard_handler.Base.{
  ℕ, zero, suc, ◌+◌, ◌-◌, Bool, true, false, ◌&&◌, Option, none, some, List, [], ◌∷◌, ◌++◌, ltb,
  leb, ◌==◌, if◌then◌else◌, length, set, Result, ok, ◌>>=◌, ◌>>◌, check, require, out_of_bounds,
  no_executable_path, failed_mapping,
}
use llvm_guard_handler.Heap.{Heap, alloc, free}
use llvm_guard_handler.Elf.{Elf, Sym, sht_symtab, section_symbols}
use llvm_guard_handler.Elf as Mapped

-- What the system answers. `readlink n` is what it writes for /proc/self/exe into a buffer of `n` bytes,
-- `fresh` what a new block holds, `opens` whether the file at a path can be opened, and `file` its
-- contents, if it can be mapped. The file stays the same during a run.
pub record System : Type 0 where
  pub readlink : ℕ → Option (List ℕ)
  pub fresh : ℕ → ℕ
  pub opens : List ℕ → Bool
  pub file : List ℕ → Option Elf

-- The heap, the open file descriptors and the mappings.
pub record World : Type 0 where
  pub blocks : Heap
  pub fds : Heap
  pub maps : Heap

abbrev pub max_buf_size : ℕ
max_buf_size = 512

-- `n` bytes of a new block, from index `i` on.
abbrev pub fresh_bytes : (ℕ → ℕ) → ℕ → ℕ → List ℕ
fresh_bytes fresh i zero = []
fresh_bytes fresh i (suc n) = fresh i ∷ fresh_bytes fresh (i + 1) n

-- The string that a buffer holds: its bytes up to the first NUL.
unfoldable pub c_string : List ℕ → List ℕ
c_string [] = []
c_string (b ∷ bytes) = let rest = c_string bytes in if b == 0 then [] else b ∷ rest

-- `buff[i] = '\0'`.
unfoldable pub terminate : List ℕ → ℕ → Result (List ℕ)
terminate buff i = check (ltb i (length buff)) out_of_bounds >> ok (set buff i 0)

-- `free` of a block, `close`, which does nothing for the descriptor -1, and `munmap`.
unfoldable pub free_block : ℕ → World → Result World
unfolding free
free_block p w = do blocks ← free (some p) w.blocks; ok (record w { blocks = blocks })

unfoldable pub close : Option ℕ → World → Result World
unfolding free
close fd w = do fds ← free fd w.fds; ok (record w { fds = fds })

unfoldable pub munmap : ℕ → World → Result World
unfolding free
munmap m w = do maps ← free (some m) w.maps; ok (record w { maps = maps })

-- After a table: the symbol found, or what the other sections give.
unfoldable pub or_else : Option ℕ → Result (ℕ × World) → World → Result (ℕ × World)
or_else none rest w = rest
or_else (some start_addr) rest w = ok (start_addr, w)

module _ (sys : System) where
  -- `get_binary_path`: the block and what it holds.
  unfoldable pub get_binary_path : World → Result ((ℕ × List ℕ) × World)
  unfolding alloc terminate
  get_binary_path w = do
    let (buff, blocks) = alloc w.blocks
    link ← require (sys.readlink (max_buf_size - 1)) no_executable_path
    let buff_size = length link
    contents ←
        terminate (link ++ fresh_bytes sys.fresh buff_size (max_buf_size - buff_size)) buff_size
    ok ((buff, contents), record w { blocks = blocks })

  -- `open`, with `none` for -1.
  unfoldable pub open_file : List ℕ → World → Option ℕ × World
  unfolding alloc
  open_file path w =
      let (fd, fds) = alloc w.fds in
      if sys.opens path then (some fd, record w { fds = fds }) else (none, w)

  -- `mmap` of the whole file, with `none` for MAP_FAILED.
  unfoldable pub map_file : List ℕ → Option ℕ → World → Option (Elf × ℕ) × World
  unfolding alloc
  map_file path none w = (none, w)
  map_file path (some fd) w = elim (sys.file path) [
    | none ↦ (none, w)
    | some elf ↦ let (m, maps) = alloc w.maps in (some (elf, m), record w { maps = maps })
  ]

  -- `get_elf_header`, which reads through the pointer that `mmap` returns.
  unfoldable pub get_elf_header : World → Result ((Elf × ℕ) × World)
  unfolding get_binary_path c_string open_file map_file free_block close
  get_elf_header w = do
    ((bin_name, contents), w1) ← get_binary_path w
    let path = c_string contents
    let (fd, w2) = open_file path w1
    w3 ← free_block bin_name w2
    let (data_, w4) = map_file path fd w3
    w5 ← close fd w4
    mapped ← require data_ failed_mapping
    ok (mapped, w5)

  -- `munmap` with the size of the file, which is -1 if the file cannot be opened: nothing is unmapped
  -- then.
  unfoldable pub unmap_file : Option ℕ → ℕ → World → Result World
  unfolding munmap
  unmap_file none m w = ok w
  unmap_file (some fd) m w = munmap m w

  unfoldable pub free_header : ℕ → World → Result World
  unfolding get_binary_path c_string open_file unmap_file free_block close
  free_header elf w = do
    ((bin_name, contents), w1) ← get_binary_path w
    let (fd, w2) = open_file (c_string contents) w1
    w3 ← free_block bin_name w2
    w4 ← unmap_file fd elf w3
    close fd w4

  unfoldable pub get_addr : List ℕ → World → Result (Option ℕ × World)
  unfolding get_elf_header free_header Mapped.get_addr
  get_addr section_name w = do
    ((elf, m), w1) ← get_elf_header w
    let addr = Mapped.get_addr elf section_name
    w2 ← free_header m w1
    ok (addr, w2)

  unfoldable pub get_sym_end : ℕ → World → Result (ℕ × World)
  unfolding get_elf_header free_header Mapped.get_sym_end
  get_sym_end start_addr w = do
    ((elf, m), w1) ← get_elf_header w
    let addr = Mapped.get_sym_end elf start_addr
    w2 ← free_header m w1
    ok (addr, w2)

  -- The loops of `get_sym_start`, which looks up the end of each symbol in a mapping of its own.
  unfoldable pub start_in_table : ℕ → List Sym → World → Result (Option ℕ × World)
  unfolding get_sym_end
  start_in_table addr [] w = ok (none, w)
  start_in_table addr (s ∷ ss) w = do
    (end_addr, w1) ← get_sym_end s.st_value w
    let rest = start_in_table addr ss w1
    if leb s.st_value addr && ltb addr end_addr then ok (some s.st_value, w1) else rest

  unfoldable pub start_in_sections : Elf → ℕ → ℕ → ℕ → World → Result (ℕ × World)
  unfolding start_in_table or_else section_symbols
  start_in_sections elf addr i zero w = ok (0, w)
  start_in_sections elf addr i (suc n) w =
      let others = start_in_sections elf addr (i + 1) n w in
      if (elf.shdr i).sh_type == sht_symtab
      then (do
        (found, w1) ← start_in_table addr (section_symbols elf i) w
        or_else found (start_in_sections elf addr (i + 1) n w1) w1)
      else others

  unfoldable pub get_sym_start : ℕ → World → Result (ℕ × World)
  unfolding get_elf_header free_header start_in_sections
  get_sym_start addr w = do
    ((elf, m), w1) ← get_elf_header w
    (start_addr, w2) ← start_in_sections elf addr 0 elf.e_shnum w1
    w3 ← free_header m w2
    ok (start_addr, w3)
