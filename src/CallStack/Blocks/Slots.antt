-- ===== src/CallStack/Blocks/Slots.antt =====
-- The blocks of live values, in `restore_unopt_stack` of src/stackmap_checker/call_stack_state.c.
use llvm_guard_handler.Base.{
  ℕ, zero, suc, ◌+◌, ◌%◌, ◌≤◌, ◌<◌, ◌≡◌, refl, ◌⊎◌, inl, inr, Bool, none, List, [], ◌∷◌, ◌++◌,
  arith, length, length-append, ok, err, uninitialised,
}
use llvm_guard_handler.Heap.{Heap, alloc, free_slots}
use llvm_guard_handler.Heap.Owns.{
  occurrences, occurrences-append, block, Owns, alloc-Owns, free-Owns, free_pointer-Owns,
  realloc-Owns, free_slots-Owns,
}
use llvm_guard_handler.CallStack.Blocks.{
  Locations, value_blocks, free_locations, locations_from, restore_unopt_stack,
}

-- How many of the records have an odd number of locations.
abbrev pub odd_counts : List ℕ → ℕ
odd_counts [] = 0
odd_counts (c ∷ counts) = c % 2 + odd_counts counts

abbrev locations_blocks : Locations → List ℕ
locations_blocks l = block l.locs ++ l.slots

module _ (base : List ℕ) where
  value_blocks-Owns :
      (c : ℕ) (h : Heap) (ps : List ℕ)
      → Owns base h ps
      → Owns base (value_blocks c h).1 ((value_blocks c h).0 ++ ps)
        × (length (value_blocks c h).0 + c % 2 ≡ c)
  unfolding value_blocks
  value_blocks-Owns zero h ps own = (own, refl)
  value_blocks-Owns (suc zero) h ps own = (own, refl)
  value_blocks-Owns (suc (suc c)) h ps own =
      let (a, h1) = alloc h in
      let (b, h2) = alloc h1 in
      let (own3, count) =
        value_blocks-Owns c h2 (b ∷ a ∷ ps)
          (alloc-Owns base h1 (a ∷ ps) (alloc-Owns base h ps own)) in
      let vs = (value_blocks c h2).0 in
      (
        λ q.
            omega (arith, own3 q, occurrences-append q vs (b ∷ a ∷ ps), occurrences-append q vs ps),
        omega arith,
      )

  -- Fewer slots were set than are freed.
  free_slots_short :
      (n : ℕ) (qs : List ℕ) (h : Heap) (ps : List ℕ)
      → length qs < n
      → Owns base h (qs ++ ps)
      → free_slots n qs h ≡ err uninitialised
  unfolding free_slots
  free_slots_short zero qs h ps e own = absurd (omega arith)
  free_slots_short (suc n) [] h ps e own = refl
  free_slots_short (suc n) (q ∷ qs) h ps e own =
      let (h', e', own') = free-Owns base q h (qs ++ ps) own in
      rw e' (free_slots_short n qs h' ps (omega arith) own')

  module _ (moved : ℕ → Bool) where
    locations_from-Owns :
        (counts : List ℕ) (l : Locations) (h : Heap) (ps : List ℕ)
        → Owns base h (locations_blocks l ++ ps)
        → (l' : Locations) × (h' : Heap) × (locations_from moved counts l h ≡ ok (l', h'))
          × Owns base h' (locations_blocks l' ++ ps)
          × (l'.num_locations + length l.slots
              ≡ l.num_locations + length l'.slots + odd_counts counts)
    unfolding locations_from
    locations_from-Owns [] l h ps own = (l, h, refl, own, omega arith)
    locations_from-Owns (c ∷ counts) l h ps own =
        let others = l.slots ++ ps in
        let (locs, h1, e1, own1) =
          realloc-Owns base moved (l.num_locations + c) l.locs h others (λ q. omega (
            arith,
            own q,
            occurrences-append q (locations_blocks l) ps,
            occurrences-append q (block l.locs) l.slots,
            occurrences-append q (block l.locs) others,
            occurrences-append q l.slots ps,
          )) in
        let (own2, count) = value_blocks-Owns c h1 (block locs ++ others) own1 in
        let vs = (value_blocks c h1).0 in
        let l1 : Locations = record {
          locs = locs;
          slots = l.slots ++ vs;
          num_locations = l.num_locations + c;
        } in
        let (l2, h3, e3, own3, sum) = locations_from-Owns counts l1 (value_blocks c h1).1 ps (λ q.
          omega (
            arith,
            own2 q,
            occurrences-append q vs (block locs ++ others),
            occurrences-append q (block locs) others,
            occurrences-append q (block locs ++ (l.slots ++ vs)) ps,
            occurrences-append q (block locs) (l.slots ++ vs),
            occurrences-append q l.slots ps,
            occurrences-append q l.slots vs,
          )) in
        (l2, h3, rw (e1, e3) refl, own3, omega (arith, length-append l.slots vs))

-- If every record has an even number of locations, `restore_unopt_stack` frees each block that it
-- allocates, once, and nothing else; otherwise it frees a pointer that was never set.
pub restore_unopt_stack-frees :
    (moved : ℕ → Bool) (counts : List ℕ) (h : Heap)
    → ((odd_counts counts ≡ 0)
        × (h' : Heap) × (restore_unopt_stack moved counts h ≡ ok h')
        × ((q : ℕ) → occurrences q h'.live ≡ occurrences q h.live))
      ⊎ ((1 ≤ odd_counts counts) × (restore_unopt_stack moved counts h ≡ err uninitialised))
unfolding restore_unopt_stack free_locations
restore_unopt_stack-frees moved counts h =
    let none_yet : Locations = record { locs = none; slots = []; num_locations = 0 } in
    let (l, h1, e1, own1, sum) =
      locations_from-Owns h.live moved counts none_yet h [] (λ q. omega arith) in
    let own2 : Owns h.live h1 (l.slots ++ block l.locs) = λ q. omega (
      arith,
      own1 q,
      occurrences-append q (locations_blocks l) [],
      occurrences-append q (block l.locs) l.slots,
      occurrences-append q l.slots (block l.locs),
    ) in
    elim (zero_or_more (odd_counts counts)) [
      | inl even ↦
          let (h2, e2, own3) =
            free_slots-Owns h.live l.num_locations l.slots h1 (block l.locs) (omega arith) own2 in
          let (h3, e3, own4) =
            free_pointer-Owns h.live l.locs h2 []
              (λ q. omega (arith, own3 q, occurrences-append q (block l.locs) [])) in
          inl (even, h3, rw (e1, e2, e3) refl, λ q. omega (arith, own4 q))
      | inr odd ↦
          let short =
            free_slots_short h.live l.num_locations l.slots h1 (block l.locs) (omega arith) own2 in
          inr (odd, rw (e1, short) refl)
    ]
  where
    zero_or_more : (n : ℕ) → (n ≡ 0) ⊎ (1 ≤ n)
    zero_or_more zero = inl refl
    zero_or_more (suc n) = inr (omega arith)
