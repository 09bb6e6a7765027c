-- ===== src/StackMap/Blocks/Freed.antt =====
-- `stmap_free` after `stmap_create`.
use llvm_guard_handler.Base.{ℕ, zero, suc, ◌≡◌, refl, List, [], ◌∷◌, ◌++◌, arith, ok}
use llvm_guard_handler.Heap.{Heap, alloc}
use llvm_guard_handler.Heap.Owns.{occurrences-append, Owns, alloc-Owns, free-Owns}
use llvm_guard_handler.StackMap.Blocks.{MapBlocks, record_blocks, create, free_records, stmap_free}

abbrev pub blocks_of_records : List (ℕ × ℕ) → List ℕ
blocks_of_records [] = []
blocks_of_records ((locations, liveouts) ∷ rest) = locations ∷ liveouts ∷ blocks_of_records rest

-- The blocks of a stack map.
abbrev pub map_blocks : MapBlocks → List ℕ
map_blocks sm =
    sm.self ∷ sm.stk_size_records ∷ sm.constants ∷ sm.stk_map_records ∷ blocks_of_records sm.records

module _ (base : List ℕ) where
  record_blocks-Owns :
      (n : ℕ) (h : Heap) (ps : List ℕ)
      → Owns base h ps
      → Owns base (record_blocks n h).1 (blocks_of_records (record_blocks n h).0 ++ ps)
  unfolding record_blocks
  record_blocks-Owns zero h ps own = own
  record_blocks-Owns (suc n) h ps own =
      let (a, h1) = alloc h in
      let (b, h2) = alloc h1 in
      let own2 = alloc-Owns base h1 (a ∷ ps) (alloc-Owns base h ps own) in
      let own3 = record_blocks-Owns n h2 (b ∷ a ∷ ps) own2 in
      let rs = blocks_of_records (record_blocks n h2).0 in
      λ q. omega (arith, own3 q, occurrences-append q rs (b ∷ a ∷ ps), occurrences-append q rs ps)

  pub create-Owns :
      (n : ℕ) (h : Heap) (ps : List ℕ)
      → Owns base h ps
      → Owns base (create n h).1 (map_blocks (create n h).0 ++ ps)
  unfolding create
  create-Owns n h ps own =
      let (a, h1) = alloc h in
      let (b, h2) = alloc h1 in
      let (c, h3) = alloc h2 in
      let (d, h4) = alloc h3 in
      let own4 = alloc-Owns base h3 (c ∷ b ∷ a ∷ ps) (
        alloc-Owns base h2 (b ∷ a ∷ ps) (alloc-Owns base h1 (a ∷ ps) (alloc-Owns base h ps own))) in
      let own5 = record_blocks-Owns n h4 (d ∷ c ∷ b ∷ a ∷ ps) own4 in
      let rs = blocks_of_records (record_blocks n h4).0 in
      λ q.
        omega
          (arith, own5 q, occurrences-append q rs (d ∷ c ∷ b ∷ a ∷ ps), occurrences-append q rs ps)

  free_records-Owns :
      (rs : List (ℕ × ℕ)) (h : Heap) (ps : List ℕ)
      → Owns base h (blocks_of_records rs ++ ps)
      → (h' : Heap) × (free_records rs h ≡ ok h') × Owns base h' ps
  unfolding free_records
  free_records-Owns [] h ps own = (h, refl, own)
  free_records-Owns ((a, b) ∷ rs) h ps own =
      let (h1, e1, own1) = free-Owns base a h (b ∷ blocks_of_records rs ++ ps) own in
      let (h2, e2, own2) = free-Owns base b h1 (blocks_of_records rs ++ ps) own1 in
      let (h3, e3, own3) = free_records-Owns rs h2 ps own2 in (h3, rw (e1, e2, e3) refl, own3)

  pub stmap_free-Owns :
      (sm : MapBlocks) (h : Heap) (ps : List ℕ)
      → Owns base h (map_blocks sm ++ ps)
      → (h' : Heap) × (stmap_free sm h ≡ ok h') × Owns base h' ps
  unfolding stmap_free
  stmap_free-Owns sm h ps own =
      let rs = blocks_of_records sm.records in
      let rest = sm.self ∷ ps in
      let a = sm.stk_size_records in
      let b = sm.constants in
      let c = sm.stk_map_records in
      let (h1, e1, own1) = free-Owns base a h (b ∷ rs ++ c ∷ rest) (λ q.
        omega (arith, own q, occurrences-append q rs (c ∷ rest), occurrences-append q rs ps)) in
      let (h2, e2, own2) = free-Owns base b h1 (rs ++ c ∷ rest) own1 in
      let (h3, e3, own3) = free_records-Owns sm.records h2 (c ∷ rest) own2 in
      let (h4, e4, own4) = free-Owns base c h3 rest own3 in
      let (h5, e5, own5) = free-Owns base sm.self h4 ps own4 in
      (h5, rw (e1, e2, e3, e4, e5) refl, own5)
