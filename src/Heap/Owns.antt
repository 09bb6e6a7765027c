-- ===== src/Heap/Owns.antt =====
-- Which blocks of a heap a part of the program owns, besides those that were live before.
use llvm_guard_handler.Base.{
  ℕ, zero, suc, ◌+◌, ◌≤◌, ◌≡◌, refl, ap, inl, inr, Bool, true, false, Option, none, some, List, [],
  ◌∷◌, ◌++◌, arith, tests, ==_refl, ◌==◌, if◌then◌else◌, Bool-cases, length, take, drop, ok,
}
use llvm_guard_handler.Heap.{Heap, alloc, alloc_all, remove, free, resize, realloc, free_slots}

abbrev pub occurrences : ℕ → List ℕ → ℕ
occurrences q [] = 0
occurrences q (x ∷ xs) = (if x == q then 1 else 0) + occurrences q xs

pub occurrences-append :
    (q : ℕ) (xs ys : List ℕ) → occurrences q (xs ++ ys) ≡ occurrences q xs + occurrences q ys
occurrences-append q [] ys = omega arith
occurrences-append q (x ∷ xs) ys = omega (arith, occurrences-append q xs ys)

pub occurrences-split :
    (q n : ℕ) (xs : List ℕ)
    → occurrences q (take n xs) + occurrences q (drop n xs) ≡ occurrences q xs
occurrences-split q zero xs = omega arith
occurrences-split q (suc n) [] = omega arith
occurrences-split q (suc n) (x ∷ xs) = omega (arith, occurrences-split q n xs)

-- The block of a pointer, if it is not NULL.
abbrev pub block : Option ℕ → List ℕ
block none = []
block (some p) = p ∷ []

-- The live blocks are `ps` and those of `base`.
abbrev pub Owns : List ℕ → Heap → List ℕ → Type 0
Owns base h ps = (q : ℕ) → occurrences q h.live ≡ occurrences q ps + occurrences q base

remove_later :
    (p x : ℕ) (xs ys : List ℕ)
    → (x == p) ≡ false
    → remove p xs ≡ some ys
    → remove p (x ∷ xs) ≡ some (x ∷ ys)
unfolding remove
remove_later p x xs ys other e = rw (other, e) refl

remove_lem :
    (p : ℕ) (xs : List ℕ)
    → 1 ≤ occurrences p xs
    → (ys : List ℕ) × (remove p xs ≡ some ys)
      × ((q : ℕ) → occurrences q xs ≡ occurrences q (p ∷ ys))
unfolding remove
remove_lem p [] h = absurd (omega arith)
remove_lem p (x ∷ xs) h = elim (Bool-cases (x == p)) [
  | inl here ↦ let e : x ≡ p = omega (tests, here) in (xs, rw here refl, λ q. rw e refl)
  | inr other ↦
      let later : 1 ≤ occurrences p xs = omega (arith, rw other at h) in
      let (ys, e, same) = remove_lem p xs later in
      (x ∷ ys, remove_later p x xs ys other e, λ q. omega (arith, same q))
]

occurrences_self : (p : ℕ) (ps : List ℕ) → 1 ≤ occurrences p (p ∷ ps)
occurrences_self p ps = rw (==_refl p) (omega arith)

module _ (base : List ℕ) where
  pub alloc-Owns :
      (h : Heap) (ps : List ℕ) → Owns base h ps → Owns base (alloc h).1 ((alloc h).0 ∷ ps)
  unfolding alloc
  alloc-Owns h ps own = λ q. omega (arith, own q)

  pub free-Owns :
      (p : ℕ) (h : Heap) (ps : List ℕ)
      → Owns base h (p ∷ ps)
      → (h' : Heap) × (free (some p) h ≡ ok h') × Owns base h' ps
  unfolding free
  free-Owns p h ps own =
      let (live, e, same) = remove_lem p h.live (omega (arith, own p, occurrences_self p ps)) in
      (record h { live = live }, rw e refl, λ q. omega (arith, own q, same q))

  pub free_pointer-Owns :
      (p : Option ℕ) (h : Heap) (ps : List ℕ)
      → Owns base h (block p ++ ps)
      → (h' : Heap) × (free p h ≡ ok h') × Owns base h' ps
  free_pointer-Owns none h ps own = (h, unfold free in refl, own)
  free_pointer-Owns (some p) h ps own = free-Owns p h ps own

  resize-Owns :
      (moves : Bool) (p : ℕ) (h : Heap) (ps : List ℕ)
      → Owns base h (p ∷ ps)
      → (q : ℕ) × (h' : Heap) × (resize moves p h ≡ ok (q, h')) × Owns base h' (q ∷ ps)
  unfolding resize
  resize-Owns true p h ps own =
      let both = alloc-Owns h (p ∷ ps) own in
      let (h'', e, own') =
        free-Owns p (alloc h).1 ((alloc h).0 ∷ ps) (λ q. omega (arith, both q)) in
      ((alloc h).0, h'', rw e refl, own')
  resize-Owns false p h ps own =
      let (live, e, same) = remove_lem p h.live (omega (arith, own p, occurrences_self p ps)) in
      (p, h, rw e refl, own)

  pub realloc-Owns :
      (moved : ℕ → Bool) (n : ℕ) (p : Option ℕ) (h : Heap) (ps : List ℕ)
      → Owns base h (block p ++ ps)
      → (q : Option ℕ) × (h' : Heap) × (realloc moved n p h ≡ ok (q, h'))
        × Owns base h' (block q ++ ps)
  unfolding realloc
  realloc-Owns moved n none h ps own = (some (alloc h).0, (alloc h).1, refl, alloc-Owns h ps own)
  realloc-Owns moved zero (some p) h ps own =
      let (h', e, own') = free-Owns p h ps own in (none, h', rw e refl, own')
  realloc-Owns moved (suc n) (some p) h ps own =
      let (q, h', e, own') = resize-Owns (moved (n + 1)) p h ps own in (some q, h', rw e refl, own')

  pub alloc_all-Owns :
      (n : ℕ) (h : Heap) (ps : List ℕ)
      → Owns base h ps
      → Owns base (alloc_all n h).1 ((alloc_all n h).0 ++ ps) × (length (alloc_all n h).0 ≡ n)
  unfolding alloc_all
  alloc_all-Owns zero h ps own = (own, refl)
  alloc_all-Owns (suc n) h ps own =
      let (p, h') = alloc h in
      let (own', count) = alloc_all-Owns n h' (p ∷ ps) (alloc-Owns h ps own) in
      let qs = (alloc_all n h').0 in
      (
        λ q. omega (arith, own' q, occurrences-append q qs (p ∷ ps), occurrences-append q qs ps),
        ap suc count,
      )

  pub free_slots-Owns :
      (n : ℕ) (qs : List ℕ) (h : Heap) (ps : List ℕ)
      → length qs ≡ n
      → Owns base h (qs ++ ps)
      → (h' : Heap) × (free_slots n qs h ≡ ok h') × Owns base h' ps
  unfolding free_slots
  free_slots-Owns zero [] h ps e own = (h, refl, own)
  free_slots-Owns zero (q ∷ qs) h ps e own = absurd (omega arith)
  free_slots-Owns (suc n) [] h ps e own = absurd (omega arith)
  free_slots-Owns (suc n) (q ∷ qs) h ps e own =
      let (h', e', own') = free-Owns q h (qs ++ ps) own in
      let (h'', e'', own'') = free_slots-Owns n qs h' ps (omega arith) own' in
      (h'', rw (e', e'') refl, own'')
