-- ===== src/CallStack/Blocks/Rounds.antt =====
-- The loop of `collect_inlined_frames` of src/stackmap_checker/call_stack_state.c on heap blocks: the
-- rounds read the array that the shallow copy of the state shares with it, until it is moved.
use llvm_guard_handler.Base.{
  ltb, tests, subst, ◌-◌, ◌≤◌, ◌<◌, ◌⊎◌, inl, inr, true, false, not, Option, some, Result, err,
  use_after_free, Bool-cases, Option-cases, ℕ, zero, suc, ◌+◌, ◌≡◌, refl, sym, ap, ◌∙◌, Bool, none,
  List, ◌∷◌, ◌++◌, arith, ok,
}
use llvm_guard_handler.Heap.{Heap, alloc}
use llvm_guard_handler.Heap.Owns.{occurrences-append, Owns, alloc-Owns, free-Owns}
use llvm_guard_handler.CallStack.Blocks.{
  StateBlocks, collect_round, collect_rounds, collect_inlined_frames,
}
use llvm_guard_handler.CallStack.Blocks.Freed.{state_blocks, IsFull}
use llvm_guard_handler.CallStack.Blocks.Inlined.{collect_round-Owns}

-- The depth before round `i`.
abbrev pub depth_at : (ℕ → Option ℕ) → ℕ → ℕ → ℕ
depth_at inlined depth zero = depth
depth_at inlined depth (suc i) = elim (inlined i) [
  | some k ↦ depth_at inlined depth i + k
  | none ↦ depth_at inlined depth i
]

module _ (moved : ℕ → Bool) (inlined : ℕ → Option ℕ) (depth : ℕ) where
  -- Of the rounds from `i` on up to `n`, the last excepted, one finds frames and moves the array.
  abbrev pub Moves : ℕ → ℕ → Type 0
  Moves i n =
      (j : ℕ) × (i ≤ j)
      × (j + 1 < n)
      × ((k : ℕ) × (inlined j ≡ some k))
      × (moved (depth_at inlined depth (j + 1)) ≡ true)

  -- None of them does.
  abbrev pub Stays : ℕ → ℕ → Type 0
  Stays i n =
      (j : ℕ)
      → i ≤ j
      → j + 1 < n
      → (k : ℕ) → inlined j ≡ some k
      → moved (depth_at inlined depth (j + 1)) ≡ false

module _ (base : List ℕ) (moved : ℕ → Bool) where
  module _ (inlined : ℕ → Option ℕ) (depth : ℕ) where
    -- The rounds from `i` on up to `n` end well, or a round reads the array that one before moved.
    abbrev pub Collects : ℕ → ℕ → Result (StateBlocks × Heap) → List ℕ → Type 0
    Collects i n r ps =
        (Stays moved inlined depth i n
          × ((s : StateBlocks) × (h : Heap) × (r ≡ ok (s, h))
              × Owns base h (state_blocks s ++ ps)
              × IsFull s
              × (s.depth ≡ depth_at inlined depth n)))
        ⊎ (Moves moved inlined depth i n × (r ≡ err use_after_free))

    Stays-none :
        (i n : ℕ)
        → inlined i ≡ none
        → Stays moved inlined depth (i + 1) n
        → Stays moved inlined depth i n
    Stays-none i n nothing stays j le lt k found = elim (Bool-cases (ltb i j)) [
      | inl later ↦ stays j (omega (tests, later)) lt k found
      | inr here ↦
          let e : j ≡ i = omega (tests, here, le) in
          let clash : none ≡ some k = sym nothing ∙ ap inlined (sym e) ∙ found in cc
    ]

    Stays-held :
        (i n : ℕ)
        → moved (depth_at inlined depth (i + 1)) ≡ false
        → Stays moved inlined depth (i + 1) n
        → Stays moved inlined depth i n
    Stays-held i n held stays j le lt k found = elim (Bool-cases (ltb i j)) [
      | inl later ↦ stays j (omega (tests, later)) lt k found
      | inr here ↦
          let e : j ≡ i = omega (tests, here, le) in
          ap (λ (x : ℕ). moved (depth_at inlined depth (x + 1))) e ∙ held
    ]

    -- A round that finds nothing, or does not move the array, before the others.
    extend :
        (i n : ℕ) (q r : Result (StateBlocks × Heap)) (ps : List ℕ)
        → (Stays moved inlined depth (i + 1) n → Stays moved inlined depth i n)
        → r ≡ q
        → Collects (i + 1) n q ps
        → Collects i n r ps
    extend i n q r ps holds e (inl (stays, (s, h, e', own, full, deep))) =
        inl (holds stays, (s, h, e ∙ e', own, full, deep))
    extend i n q r ps holds e (inr ((j, le, lt, found, moves), e')) =
        inr ((j, omega arith, lt, found, moves), e ∙ e')

    -- The rounds behind one that moved the array.
    freed :
        (n i last k : ℕ) (s : StateBlocks) (h : Heap) (ps : List ℕ)
        → i + suc n ≡ last
        → inlined i ≡ some k
        → moved (depth_at inlined depth (i + 1)) ≡ true
        → IsFull s
        → s.depth ≡ depth_at inlined depth (i + 1)
        → Owns base h (state_blocks s ++ ps)
        → Collects i last (collect_rounds moved inlined n (i + 1) false s h) ps
    unfolding collect_rounds
    freed zero i last k s h ps e found moves full deep own = inl (
      (λ j le lt k' found'. absurd (omega arith)),
      (
        s,
        h,
        refl,
        own,
        full,
        (let here : i + 1 ≡ last = omega arith in deep ∙ ap (depth_at inlined depth) here),
      ),
    )
    freed (suc n) i last k s h ps e found moves full deep own =
        inr ((i, omega arith, omega arith, (k, found), moves), refl)

    round_none :
        (n i : ℕ) (s : StateBlocks) (h : Heap)
        → inlined i ≡ none
        → collect_rounds moved inlined (suc n) i true s h
          ≡ collect_rounds moved inlined n (i + 1) true s h
    unfolding collect_rounds collect_round
    round_none n i s h nothing = rw nothing

    round_some :
        (n i k : ℕ) (b : Bool) (s s' : StateBlocks) (h h' : Heap)
        → inlined i ≡ some k
        → collect_round moved (some k) i s h ≡ ok (b, s', h')
        → collect_rounds moved inlined (suc n) i true s h
          ≡ collect_rounds moved inlined n (i + 1) b s' h'
    unfolding collect_rounds
    round_some n i k b s s' h h' found e = rw (found, e)

    deeper :
        (i k : ℕ)
        → inlined i ≡ some k
        → depth_at inlined depth (i + 1) ≡ depth_at inlined depth i + k
    deeper i k found =
        let next : i + 1 ≡ suc i = omega arith in
        ap (depth_at inlined depth) next ∙ deeper_suc found
      where
        deeper_suc :
            inlined i ≡ some k → depth_at inlined depth (suc i) ≡ depth_at inlined depth i + k
        deeper_suc e = rw (e, depth_at) refl

    level : (i : ℕ) → inlined i ≡ none → depth_at inlined depth (i + 1) ≡ depth_at inlined depth i
    level i nothing =
        let next : i + 1 ≡ suc i = omega arith in
        ap (depth_at inlined depth) next ∙ level_suc nothing
      where
        level_suc : inlined i ≡ none → depth_at inlined depth (suc i) ≡ depth_at inlined depth i
        level_suc e = rw (e, depth_at) refl

    collect_rounds-Owns :
        (n i last : ℕ) (s : StateBlocks) (h : Heap) (ps : List ℕ)
        → i + n ≡ last
        → IsFull s
        → s.depth ≡ depth_at inlined depth i
        → Owns base h (state_blocks s ++ ps)
        → Collects i last (collect_rounds moved inlined n i true s h) ps
    unfolding collect_rounds
    collect_rounds-Owns zero i last s h ps e full deep own = inl (
      (λ j le lt k found. absurd (omega arith)),
      (
        s,
        h,
        refl,
        own,
        full,
        (let here : i ≡ last = omega arith in deep ∙ ap (depth_at inlined depth) here),
      ),
    )
    collect_rounds-Owns (suc n) i last s h ps e full deep own = elim (Option-cases (inlined i)) [
      | inl nothing ↦
          extend i last _ _ ps (Stays-none i last nothing) (round_none n i s h nothing) (
            collect_rounds-Owns n (i + 1) last s h ps (omega arith) full
              (deep ∙ sym (level i nothing)) own)
      | inr (k, found) ↦
          let (s', h', e', own', full', deep') =
            collect_round-Owns base moved i k s h ps full own in
          let at : s'.depth ≡ depth_at inlined depth (i + 1) =
            deep' ∙ ap (λ (d : ℕ). d + k) deep ∙ sym (deeper i k found) in
          let flag : s.depth + k ≡ depth_at inlined depth (i + 1) = sym deep' ∙ at in
          let step = λ (b : Bool) (known : moved (depth_at inlined depth (i + 1)) ≡ b).
            round_some n i k (not b) s s' h h' found
              (e' ∙ ap (λ (x : Bool). ok (not x, s', h')) (ap moved flag ∙ known)) in
          elim (Bool-cases (moved (depth_at inlined depth (i + 1)))) [
            | inl moves ↦
                subst (λ r. Collects i last r ps) (sym (step true moves))
                  (freed n i last k s' h' ps e found moves full' at own')
            | inr held ↦
                extend i last _ _ ps (Stays-held i last held) (step false held)
                  (collect_rounds-Owns n (i + 1) last s' h' ps (omega arith) full' at own')
          ]
    ]

  pub collect_inlined_frames-Owns :
      (inlined : ℕ → Option ℕ) (s : StateBlocks) (h : Heap) (ps : List ℕ)
      → IsFull s
      → Owns base h (state_blocks s ++ ps)
      → Collects inlined s.depth 0 (s.depth - 1) (collect_inlined_frames moved inlined s h) ps
  unfolding collect_inlined_frames
  collect_inlined_frames-Owns inlined s h ps full own =
      let (c, h1) = alloc h in
      let own1 = alloc-Owns base h (state_blocks s ++ ps) own in
      elim (collect_rounds-Owns inlined s.depth (s.depth - 1) 0 (s.depth - 1) s h1 (c ∷ ps)
        (omega arith) full refl
        (λ q. omega (
          arith,
          own1 q,
          occurrences-append q (state_blocks s) ps,
          occurrences-append q (state_blocks s) (c ∷ ps),
        ))) [
          | inr (moves, e) ↦ inr (moves, rw e refl)
          | inl (stays, (s', h2, e2, own2, full2, deep)) ↦
              let (h3, e3, own3) = free-Owns base c h2 (state_blocks s' ++ ps) (λ q. omega (
                arith,
                own2 q,
                occurrences-append q (state_blocks s') ps,
                occurrences-append q (state_blocks s') (c ∷ ps),
              )) in
              inl (stays, (s', h3, rw (e2, e3) refl, own3, full2, deep))
        ]
