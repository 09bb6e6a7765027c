-- ===== src/Elf/System/Failures.antt =====
-- How `get_elf_header` of src/stackmap_checker/utils.c ends: its calls of the system may fail.
use llvm_guard_handler.Base.{
  ℕ, ◌≤◌, ◌≡◌, ◌≢◌, refl, ◌⊎◌, inl, inr, true, false, Bool-cases, none, some, Option-cases, List,
  [], ◌∷◌, length, All, arith, ok, err, no_executable_path, failed_mapping,
}
use llvm_guard_handler.Heap.{alloc}
use llvm_guard_handler.Heap.Owns.{alloc-Owns, free-Owns}
use llvm_guard_handler.Elf.{Elf}
use llvm_guard_handler.Elf.System.{
  System, World, free_block, close, get_binary_path, open_file, map_file, get_elf_header,
}
use llvm_guard_handler.Elf.System.Path.{get_binary_path_lem}
use llvm_guard_handler.Elf.System.Freed.{Finds, Has, get_elf_header_lem}

module _ (sys : System) (w : World) (link : List ℕ) (found : sys.readlink 511 ≡ some link)
    (fits : length link ≤ 511) (text : All (λ b. b ≢ 0) link) where
  unopened : sys.opens link ≡ false → get_elf_header sys w ≡ err failed_mapping
  unfolding get_elf_header free_block close
  unopened closed =
      let (contents, e1, size, same) = get_binary_path_lem sys w link found fits text in
      let (blocks, e2, own2) =
        free-Owns w.blocks.live (alloc w.blocks).0 (alloc w.blocks).1 []
          (alloc-Owns w.blocks.live w.blocks [] (λ q. omega arith)) in
      rw (e1, same, open_file, closed, e2, map_file) refl

  map_file_missing :
      (fd : ℕ) (w' : World) → sys.file link ≡ none → map_file sys link (some fd) w' ≡ (none, w')
  unfolding map_file
  map_file_missing fd w' missing = rw (map_file, missing) refl

  open_file_opened :
      (w' : World)
      → sys.opens link ≡ true
      → open_file sys link w' ≡ (some (alloc w'.fds).0, record w' { fds = (alloc w'.fds).1 })
  unfolding open_file
  open_file_opened w' opened = rw opened refl

  unmapped :
      sys.opens link ≡ true → sys.file link ≡ none → get_elf_header sys w ≡ err failed_mapping
  unfolding get_elf_header free_block close
  unmapped opened missing =
      let (contents, e1, size, same) = get_binary_path_lem sys w link found fits text in
      let (blocks, e2, own2) =
        free-Owns w.blocks.live (alloc w.blocks).0 (alloc w.blocks).1 []
          (alloc-Owns w.blocks.live w.blocks [] (λ q. omega arith)) in
      let (fds, e3, own3) =
        free-Owns w.fds.live (alloc w.fds).0 (alloc w.fds).1 []
          (alloc-Owns w.fds.live w.fds [] (λ q. omega arith)) in
      let w1 : World = record w { blocks = (alloc w.blocks).1 } in
      let w3 : World = record w { blocks = blocks; fds = (alloc w.fds).1 } in
      let no_map = map_file_missing (alloc w.fds).0 w3 missing in
      rw (e1, same, open_file_opened w1 opened, e2, no_map, e3) refl

-- If `readlink` writes no more bytes than it is given room for, and paths have no NUL, then
-- `get_elf_header` exits if there is no path, reads through the result of a failed `mmap` if the file
-- at the path cannot be opened or mapped, and otherwise returns a new mapping of that file and leaves
-- nothing else behind.
pub get_elf_header_cases :
    (sys : System) (w : World)
    → ((link : List ℕ) → sys.readlink 511 ≡ some link → (length link ≤ 511) × All (λ b. b ≢ 0) link)
    → ((sys.readlink 511 ≡ none) × (get_elf_header sys w ≡ err no_executable_path))
      ⊎ ((link : List ℕ) × (sys.readlink 511 ≡ some link)
          × ((((sys.opens link ≡ false) ⊎ (sys.file link ≡ none))
                × (get_elf_header sys w ≡ err failed_mapping))
              ⊎ ((elf : Elf) × (m : ℕ) × (w' : World) × (sys.file link ≡ some elf)
                  × (get_elf_header sys w ≡ ok ((elf, m), w'))
                  × Has w w' (m ∷ []))))
unfolding get_elf_header get_binary_path
get_elf_header_cases sys w documented = elim (Option-cases (sys.readlink 511)) [
  | inl missing ↦ inl (missing, rw missing refl)
  | inr (link, found) ↦
      let (fits, text) = documented link found in
      inr (
        link,
        found,
        elim (Bool-cases (sys.opens link)) [
          | inr closed ↦ inl (inl closed, unopened sys w link found fits text closed)
          | inl opened ↦ elim (Option-cases (sys.file link)) [
            | inl no_map ↦ inl (inr no_map, unmapped sys w link found fits text opened no_map)
            | inr (elf, mapped) ↦
                let finds : Finds sys elf = record {
                  link = link;
                  found = found;
                  fits = fits;
                  text = text;
                  opened = opened;
                  mapped = mapped;
                } in
                let (m, w', e, has) = get_elf_header_lem sys elf finds w in
                inr (elf, m, w', mapped, e, has)
          ]
        ],
      )
]
