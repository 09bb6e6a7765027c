-- ===== src/Passes/Ids/Unique.antt =====
-- The IDs that the numbering of a module gives, all together.
use llvm_guard_handler.Base.{
  ℕ, zero, suc, ◌+◌, ◌-◌, ◌^◌, ◌≤◌, ◌<◌, ◌≡◌, ◌≢◌, refl, sym, ◌⊎◌, List, [], ◌∷◌, ◌++◌,
  append_assoc, arith, not64, All,
}
use llvm_guard_handler.Passes.Names.{Name}
use llvm_guard_handler.Passes.Ids.{StackMaps}
use llvm_guard_handler.Passes.Ids.Numbering.{range, assigned}
use llvm_guard_handler.Passes.Ids.Blocks.{ids_end, ids_end-ge}
use llvm_guard_handler.Passes.Ids.Twins.{twin_ids, twin_ids-append}
use llvm_guard_handler.Passes.Ids.Module.{twins}

abbrev pub all_ids : StackMaps → List ℕ
all_ids [] = []
all_ids ((name, ids) ∷ maps) = ids ++ all_ids maps

-- No two elements are equal.
abbrev pub NoRepeat : List ℕ → Type 0
NoRepeat [] = Unit
NoRepeat (x ∷ xs) = All (λ y. x ≢ y) xs × NoRepeat xs

-- Every element stands from `lo` on and below `hi`.
abbrev pub Within : ℕ → ℕ → List ℕ → Type 0
Within lo hi xs = All (λ x. (lo ≤ x) × (x < hi)) xs

pub Within-le :
    (lo hi lo' hi' : ℕ) (xs : List ℕ) → lo' ≤ lo → hi ≤ hi' → Within lo hi xs → Within lo' hi' xs
Within-le lo hi lo' hi' [] p q h = tt
Within-le lo hi lo' hi' (x ∷ xs) p q (h, hs) = (omega arith, Within-le lo hi lo' hi' xs p q hs)

Within-append :
    (lo hi : ℕ) (xs ys : List ℕ) → Within lo hi xs → Within lo hi ys → Within lo hi (xs ++ ys)
Within-append lo hi [] ys h k = k
Within-append lo hi (x ∷ xs) ys (h, hs) k = (h, Within-append lo hi xs ys hs k)

-- An element outside a range is none of the elements within it.
ne_of_Within :
    (lo hi x : ℕ) (xs : List ℕ) → Within lo hi xs → (x < lo) ⊎ (hi ≤ x) → All (λ y. x ≢ y) xs
ne_of_Within lo hi x [] h out = tt
ne_of_Within lo hi x (y ∷ ys) (h, hs) out = (omega arith, ne_of_Within lo hi x ys hs out)

All-append_ne :
    (x : ℕ) (xs ys : List ℕ)
    → All (λ y. x ≢ y) xs
    → All (λ y. x ≢ y) ys
    → All (λ y. x ≢ y) (xs ++ ys)
All-append_ne x [] ys h k = k
All-append_ne x (y ∷ xs) ys (h, hs) k = (h, All-append_ne x xs ys hs k)

NoRepeat-append :
    (lo mid hi : ℕ) (xs ys : List ℕ)
    → Within lo mid xs
    → Within mid hi ys
    → NoRepeat xs
    → NoRepeat ys
    → NoRepeat (xs ++ ys)
NoRepeat-append lo mid hi [] ys h k once once' = once'
NoRepeat-append lo mid hi (x ∷ xs) ys (h, hs) k (once, rest_once) once' = (
  All-append_ne x xs ys once (ne_of_Within mid hi x ys k (omega arith)),
  NoRepeat-append lo mid hi xs ys hs k rest_once once',
)

Within-range : (a n : ℕ) → Within a (a + n) (range a n)
unfolding range
Within-range a zero = tt
Within-range a (suc n) = (
  omega arith,
  Within-le (a + 1) (a + 1 + n) a (a + suc n) (range (a + 1) n) (omega arith) (omega arith)
      (Within-range (a + 1) n),
)

NoRepeat-range : (a n : ℕ) → NoRepeat (range a n)
unfolding range
NoRepeat-range a zero = tt
NoRepeat-range a (suc n) = (
  ne_of_Within (a + 1) (a + 1 + n) a (range (a + 1) n) (Within-range (a + 1) n) (omega arith),
  NoRepeat-range (a + 1) n,
)

pub Within-assigned :
    (next : ℕ) (funs : List (Name × ℕ))
    → Within next (ids_end next funs) (all_ids (assigned next funs))
unfolding assigned
Within-assigned next [] = tt
Within-assigned next ((name, zero) ∷ funs) = Within-assigned next funs
Within-assigned next ((name, suc n) ∷ funs) =
    let hi = ids_end (next + n + 2) funs in
    let far = ids_end-ge (next + n + 2) funs in
    Within-append next hi (range next (suc n)) (all_ids (assigned (next + n + 2) funs))
      (Within-le next (next + suc n) next hi (range next (suc n)) (omega arith) (omega arith)
        (Within-range next (suc n)))
      (Within-le (next + n + 2) hi next hi (all_ids (assigned (next + n + 2) funs)) (omega arith)
        (omega arith) (Within-assigned (next + n + 2) funs))

NoRepeat-assigned : (next : ℕ) (funs : List (Name × ℕ)) → NoRepeat (all_ids (assigned next funs))
unfolding assigned
NoRepeat-assigned next [] = tt
NoRepeat-assigned next ((name, zero) ∷ funs) = NoRepeat-assigned next funs
NoRepeat-assigned next ((name, suc n) ∷ funs) =
    let rest = next + n + 2 in
    NoRepeat-append next rest (ids_end rest funs) (range next (suc n))
      (all_ids (assigned rest funs))
      (Within-le next (next + suc n) next rest (range next (suc n)) (omega arith) (omega arith)
        (Within-range next (suc n)))
      (Within-assigned rest funs) (NoRepeat-range next (suc n)) (NoRepeat-assigned rest funs)

pub all_ids-append : (xs ys : StackMaps) → all_ids (xs ++ ys) ≡ all_ids xs ++ all_ids ys
all_ids-append [] ys = refl
all_ids-append ((name, ids) ∷ xs) ys =
    rw (all_ids-append xs ys) (sym (append_assoc ids (all_ids xs) (all_ids ys)))

pub all_ids-twins : (maps : StackMaps) → all_ids (twins maps) ≡ twin_ids (all_ids maps)
unfolding twins
all_ids-twins [] = refl
all_ids-twins ((name, ids) ∷ maps) =
    rw (all_ids-twins maps) (sym (twin_ids-append ids (all_ids maps)))

Within-twin_ids :
    (lo hi : ℕ) (xs : List ℕ)
    → hi ≤ 2 ^ 64
    → Within lo hi xs
    → Within (2 ^ 64 - hi) (2 ^ 64 - lo) (twin_ids xs)
Within-twin_ids lo hi [] le h = tt
Within-twin_ids lo hi (x ∷ xs) le (h, hs) = (omega arith, Within-twin_ids lo hi xs le hs)

NoRepeat-twin_ids :
    (lo hi : ℕ) (xs : List ℕ) → hi ≤ 2 ^ 64 → Within lo hi xs → NoRepeat xs → NoRepeat (twin_ids xs)
NoRepeat-twin_ids lo hi [] le h once = tt
NoRepeat-twin_ids lo hi (x ∷ xs) le (h, hs) (once, rest_once) =
    (inverses xs hs once, NoRepeat-twin_ids lo hi xs le hs rest_once)
  where
    inverses :
        (ys : List ℕ) → Within lo hi ys → All (λ y. x ≢ y) ys → All (λ y. not64 x ≢ y) (twin_ids ys)
    inverses [] k ne = tt
    inverses (y ∷ ys) (k, ks) (ne, nes) = (omega arith, inverses ys ks nes)

pub module_NoRepeat :
    (funs : List (Name × ℕ))
    → ids_end 1 funs ≤ 2 ^ 63
    → NoRepeat (all_ids (assigned 1 funs ++ twins (assigned 1 funs)))
module_NoRepeat funs small =
    let maps = assigned 1 funs in
    let hi = ids_end 1 funs in
    let within = Within-assigned 1 funs in
    let once = NoRepeat-assigned 1 funs in
    rw (all_ids-append maps (twins maps), all_ids-twins maps)
      (NoRepeat-append 1 (2 ^ 64 - hi) (2 ^ 64 - 1) (all_ids maps) (twin_ids (all_ids maps))
        (Within-le 1 hi 1 (2 ^ 64 - hi) (all_ids maps) (omega arith) (omega arith) within)
        (Within-twin_ids 1 hi (all_ids maps) (omega arith) within) once
        (NoRepeat-twin_ids 1 hi (all_ids maps) (omega arith) within once))
