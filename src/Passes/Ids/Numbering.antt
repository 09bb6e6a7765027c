-- ===== src/Passes/Ids/Numbering.antt =====
-- The first IDs of functions, which stand in ranges of numbers.
use llvm_guard_handler.Base.{
  ℕ, zero, suc, ◌+◌, ◌≤◌, ◌≡◌, refl, ap, false, none, some, List, [], ◌∷◌, ◌++◌, arith, ltb,
  if◌then◌else◌, get_last?, All, ok,
}
use llvm_guard_handler.Elf.{same_string}
use llvm_guard_handler.Passes.Names.{Name}
use llvm_guard_handler.Passes.Ids.{StackMaps, lookup, push_back, max_from, max_last}

-- The IDs from `a` on.
unfoldable pub range : ℕ → ℕ → List ℕ
range a zero = []
range a (suc n) = a ∷ range (a + 1) n

pub range-snoc : (a n : ℕ) → range a n ++ (a + n) ∷ [] ≡ range a (suc n)
unfolding range
range-snoc a zero = let e : a + zero ≡ a = omega arith in rw e
range-snoc a (suc n) =
    let e : a + suc n ≡ a + 1 + n = omega arith in rw e (ap (◌∷◌ a) (range-snoc (a + 1) n))

pub get_last?-range : (a n : ℕ) → get_last? (range a (suc n)) ≡ some (a + n)
unfolding range
get_last?-range a zero = let e : a + zero ≡ a = omega arith in rw e
get_last?-range a (suc n) =
    let e : a + suc n ≡ a + 1 + n = omega arith in rw e (get_last?-range (a + 1) n)

-- The blocks of IDs, the first from `next` on. A function without calls gets no entry.
unfoldable pub assigned : ℕ → List (Name × ℕ) → StackMaps
assigned next [] = []
assigned next ((name, zero) ∷ funs) = assigned next funs
assigned next ((name, suc n) ∷ funs) = (name, range next (suc n)) ∷ assigned (next + n + 2) funs

-- No entry is of this name.
abbrev pub Absent : Name → StackMaps → Type 0
Absent name maps = All (λ m. same_string m.0 name ≡ false) maps

-- Every entry has a last ID, which is at most `top`.
abbrev pub Below : ℕ → StackMaps → Type 0
Below top maps = All (λ m. (l : ℕ) × (get_last? m.1 ≡ some l) × (l ≤ top)) maps

pub lookup-Absent : (name : Name) (maps : StackMaps) → Absent name maps → lookup name maps ≡ none
unfolding lookup
lookup-Absent name [] h = refl
lookup-Absent name (m ∷ maps) (h, hs) = rw h (lookup-Absent name maps hs)

pub lookup-append :
    (name : Name) (xs ys : StackMaps) → Absent name xs → lookup name (xs ++ ys) ≡ lookup name ys
unfolding lookup
lookup-append name [] ys h = refl
lookup-append name (m ∷ xs) ys (h, hs) = rw h (lookup-append name xs ys hs)

pub push_back-append :
    (name : Name) (id : ℕ) (xs ys : StackMaps)
    → Absent name xs
    → push_back name id (xs ++ ys) ≡ xs ++ push_back name id ys
unfolding push_back
push_back-append name id [] ys h = refl
push_back-append name id (m ∷ xs) ys (h, hs) = rw h (ap (◌∷◌ m) (push_back-append name id xs ys hs))

max_from-append :
    (best top : ℕ) (xs : StackMaps) (name : Name) (ids : List ℕ)
    → best ≤ top
    → Below top xs
    → get_last? ids ≡ some top
    → max_from best (xs ++ (name, ids) ∷ []) ≡ ok top
unfolding max_from
max_from-append best top [] name ids le below e = ground (arith, e)
max_from-append best top ((key, xs) ∷ maps) name ids le ((l, at, small), below) e =
    rw at
      (max_from-append (if ltb best l then l else best) top maps name ids (ground arith) below e)

pub max_last-append :
    (top : ℕ) (xs : StackMaps) (name : Name) (ids : List ℕ)
    → Below top xs
    → get_last? ids ≡ some top
    → max_last (xs ++ (name, ids) ∷ []) ≡ ok top
unfolding max_last max_from
max_last-append top [] name ids below e = rw e refl
max_last-append top ((key, xs) ∷ maps) name ids ((l, at, small), below) e =
    rw at (max_from-append l top maps name ids small below e)
