-- ===== src/Elf/System/Freed.antt =====
-- What the lookups of src/stackmap_checker/utils.c find through the system, and what they leave behind.
use mathlib.Core.Option
use llvm_guard_handler.Base.{
  ℕ, zero, suc, ◌+◌, ◌≤◌, ◌≡◌, ◌≢◌, refl, inl, inr, true, Bool-cases, ◌&&◌, Option, none, some,
  List, [], ◌∷◌, ltb, leb, ◌==◌, length, All, arith, Result, ok,
}
use llvm_guard_handler.Heap.{alloc}
use llvm_guard_handler.Heap.Owns.{Owns, alloc-Owns, free-Owns}
use llvm_guard_handler.Elf.{Elf, Sym, sht_symtab, section_symbols}
use llvm_guard_handler.Elf as Mapped
use llvm_guard_handler.Elf.System.Path.{get_binary_path_lem}
use llvm_guard_handler.Elf.System.{
  System, World, free_block, close, munmap, open_file, map_file, get_elf_header, unmap_file,
  free_header, get_addr, get_sym_end, start_in_table, or_else, start_in_sections, get_sym_start,
}

-- The system finds the path of the executable, whose file can be opened and mapped, and is `elf`.
pub record Finds (sys : System) (elf : Elf) : Type 0 where
  pub link : List ℕ
  pub found : sys.readlink 511 ≡ some link
  pub fits : length link ≤ 511
  pub text : All (λ b. b ≢ 0) link
  pub opened : sys.opens link ≡ true
  pub mapped : sys.file link ≡ some elf

-- `w'` has the blocks, the descriptors and the mappings of `w`, and the mappings `ms`.
abbrev pub Has : World → World → List ℕ → Type 0
Has w w' ms =
    Owns w.blocks.live w'.blocks [] × Owns w.fds.live w'.fds [] × Owns w.maps.live w'.maps ms

Has-self : (w : World) → Has w w []
Has-self w = (λ q. omega arith, λ q. omega arith, λ q. omega arith)

Has-then : (w0 w w' : World) (ms : List ℕ) → Has w0 w ms → Has w w' [] → Has w0 w' ms
Has-then w0 w w' ms (own, fds, maps) (own', fds', maps') = (
  λ q. omega (arith, own q, own' q),
  λ q. omega (arith, fds q, fds' q),
  λ q. omega (arith, maps q, maps' q),
)

or_else_lem :
    (found : Option ℕ) (w1 w2 : World) {rest : Result (ℕ × World)} {x : ℕ}
    → rest ≡ ok (x, w2)
    → Has w1 w2 []
    → (w3 : World) × (or_else found rest w1 ≡ ok (Option.get_or found x, w3)) × Has w1 w3 []
unfolding or_else
or_else_lem none w1 w2 e has = (w2, e, has)
or_else_lem (some a) w1 w2 e has = (w1, refl, Has-self w1)

module _ (sys : System) (elf : Elf) (finds : Finds sys elf) where
  open_file_lem :
      (w : World)
      → open_file sys finds.link w ≡ (some (alloc w.fds).0, record w { fds = (alloc w.fds).1 })
  unfolding open_file
  open_file_lem w = rw finds.opened refl

  map_file_lem :
      (fd : ℕ) (w : World)
      → map_file sys finds.link (some fd) w
        ≡ (some (elf, (alloc w.maps).0), record w { maps = (alloc w.maps).1 })
  unfolding map_file
  map_file_lem fd w = rw (map_file, finds.mapped) refl

  pub get_elf_header_lem :
      (w : World)
      → (m : ℕ) × (w' : World) × (get_elf_header sys w ≡ ok ((elf, m), w')) × Has w w' (m ∷ [])
  unfolding get_elf_header free_block close
  get_elf_header_lem w =
      let (own, fds, maps) = Has-self w in
      let (contents, e1, size, same) =
        get_binary_path_lem sys w finds.link finds.found finds.fits finds.text in
      let (blocks, e2, own2) =
        free-Owns w.blocks.live (alloc w.blocks).0 (alloc w.blocks).1 []
          (alloc-Owns w.blocks.live w.blocks [] own) in
      let (fds', e3, fds3) =
        free-Owns w.fds.live (alloc w.fds).0 (alloc w.fds).1 []
          (alloc-Owns w.fds.live w.fds [] fds) in
      let w1 : World = record w { blocks = (alloc w.blocks).1 } in
      let w3 : World = record w { blocks = blocks; fds = (alloc w.fds).1 } in
      (
        (alloc w.maps).0,
        record { blocks = blocks; fds = fds'; maps = (alloc w.maps).1 },
        rw (e1, same, open_file_lem w1, e2, map_file_lem (alloc w.fds).0 w3, e3) refl,
        (own2, fds3, alloc-Owns w.maps.live w.maps [] maps),
      )

  free_header_lem :
      (w0 w : World) (m : ℕ)
      → Has w0 w (m ∷ [])
      → (w' : World) × (free_header sys m w ≡ ok w') × Has w0 w' []
  unfolding free_header free_block close munmap unmap_file
  free_header_lem w0 w m (own, fds, maps) =
      let (contents, e1, size, same) =
        get_binary_path_lem sys w finds.link finds.found finds.fits finds.text in
      let (blocks, e2, own2) =
        free-Owns w0.blocks.live (alloc w.blocks).0 (alloc w.blocks).1 []
          (alloc-Owns w0.blocks.live w.blocks [] own) in
      let (fds', e3, fds3) =
        free-Owns w0.fds.live (alloc w.fds).0 (alloc w.fds).1 []
          (alloc-Owns w0.fds.live w.fds [] fds) in
      let (maps', e4, maps4) = free-Owns w0.maps.live m w.maps [] maps in
      let w1 : World = record w { blocks = (alloc w.blocks).1 } in
      (
        record { blocks = blocks; fds = fds'; maps = maps' },
        rw (e1, same, open_file_lem w1, e2, e4, e3) refl,
        (own2, fds3, maps4),
      )

  -- Where the system finds the file, `get_addr`, through it, returns what the lookup in the mapped file
  -- gives, and leaves no block, descriptor or mapping behind.
  pub get_addr-Finds :
      (name : List ℕ) (w : World)
      → (w' : World) × (get_addr sys name w ≡ ok (Mapped.get_addr elf name, w')) × Has w w' []
  unfolding get_addr
  get_addr-Finds name w =
      let (m, w1, e1, has1) = get_elf_header_lem w in
      let (w2, e2, has2) = free_header_lem w w1 m has1 in (w2, rw (e1, e2) refl, has2)

  pub get_sym_end-Finds :
      (start_addr : ℕ) (w : World)
      → (w' : World) × (get_sym_end sys start_addr w ≡ ok (Mapped.get_sym_end elf start_addr, w'))
        × Has w w' []
  unfolding get_sym_end
  get_sym_end-Finds start_addr w =
      let (m, w1, e1, has1) = get_elf_header_lem w in
      let (w2, e2, has2) = free_header_lem w w1 m has1 in (w2, rw (e1, e2) refl, has2)

  start_in_table_lem :
      (addr : ℕ) (ss : List Sym) (w : World)
      → (w' : World) × (start_in_table sys addr ss w ≡ ok (Mapped.start_in_table elf addr ss, w'))
        × Has w w' []
  unfolding start_in_table Mapped.start_in_table
  start_in_table_lem addr [] w = (w, refl, Has-self w)
  start_in_table_lem addr (s ∷ ss) w =
      let (w1, e1, has1) = get_sym_end-Finds s.st_value w in
      elim (Bool-cases (leb s.st_value addr && ltb addr (Mapped.get_sym_end elf s.st_value))) [
        | inl here ↦ (w1, rw (e1, here) refl, has1)
        | inr other ↦
            let (w2, e2, has2) = start_in_table_lem addr ss w1 in
            (w2, rw (e1, other) e2, Has-then w w1 w2 [] has1 has2)
      ]

  start_in_sections_lem :
      (addr i n : ℕ) (w : World)
      → (w' : World) × (start_in_sections sys elf addr i n w
          ≡ ok (Mapped.start_in_sections elf addr i n, w'))
        × Has w w' []
  unfolding start_in_sections Mapped.start_in_sections or_else
  start_in_sections_lem addr i zero w = (w, refl, Has-self w)
  start_in_sections_lem addr i (suc n) w = elim (Bool-cases ((elf.shdr i).sh_type == sht_symtab)) [
    | inr other ↦
        let (w1, e1, has1) = start_in_sections_lem addr (i + 1) n w in (w1, rw other e1, has1)
    | inl table ↦
        let (w1, e1, has1) = start_in_table_lem addr (section_symbols elf i) w in
        let (w2, e2, has2) = start_in_sections_lem addr (i + 1) n w1 in
        let (w3, e3, has3) =
          or_else_lem (Mapped.start_in_table elf addr (section_symbols elf i)) w1 w2 e2 has2 in
        (w3, rw (table, e1) e3, Has-then w w1 w3 [] has1 has3)
  ]

  -- Where the system finds the file, `get_sym_start`, which looks up the end of each symbol in a mapping
  -- of its own, returns what the lookup in the mapped file gives, and leaves no block, descriptor or
  -- mapping behind.
  pub get_sym_start-Finds :
      (addr : ℕ) (w : World)
      → (w' : World) × (get_sym_start sys addr w ≡ ok (Mapped.get_sym_start elf addr, w'))
        × Has w w' []
  unfolding get_sym_start Mapped.get_sym_start
  get_sym_start-Finds addr w =
      let (m, w1, e1, has1) = get_elf_header_lem w in
      let (w2, e2, has2) = start_in_sections_lem addr 0 elf.e_shnum w1 in
      let (w3, e3, has3) = free_header_lem w w2 m (Has-then w w1 w2 (m ∷ []) has1 has2) in
      (w3, rw (e1, e2, e3) refl, has3)
