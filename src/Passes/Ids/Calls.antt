-- ===== src/Passes/Ids/Calls.antt =====
-- The calls of one optimised function, one after the other, on `stackMaps`.
use llvm_guard_handler.Base.{
  ℕ, zero, suc, ◌+◌, ◌-◌, ◌^◌, ◌≤◌, ◌<◌, ◌≡◌, refl, sym, ap, ◌∙◌, true, false, add64, none, some,
  List, [], ◌∷◌, ◌++◌, append-nil, arith, All, ok,
}
use llvm_guard_handler.Passes.Names.{Name, unopt_prefix, starts_with, get_twin_name}
use llvm_guard_handler.Passes.Names.Twins.{
  same_string_refl, same_string-prefix_ne, get_twin_name-opt,
}
use llvm_guard_handler.Passes.Ids.{
  StackMaps, lookup, contains, push_back, max_last, next_id, get_next_patchpoint_id, number_calls,
}
use llvm_guard_handler.Passes.Ids.Numbering.{
  range, range-snoc, get_last?-range, Absent, Below, lookup-Absent, lookup-append, push_back-append,
  max_last-append,
}

-- `next` is the ID that a function without IDs gets first.
abbrev pub Ready : ℕ → StackMaps → Type 0
Ready next [] = next ≡ 1
Ready next (m ∷ maps) = (2 ≤ next) × (max_last (m ∷ maps) ≡ ok (next - 2))

-- No function of the map is an unoptimised one.
abbrev pub Optimised : StackMaps → Type 0
Optimised maps = All (λ m. starts_with unopt_prefix m.0 ≡ false) maps

pub Absent-prefix :
    (name : Name) (maps : StackMaps) → Optimised maps → Absent (unopt_prefix ++ name) maps
Absent-prefix name [] h = tt
Absent-prefix name (m ∷ maps) (h, hs) =
    ((same_string-prefix_ne unopt_prefix name m.0 h).1, Absent-prefix name maps hs)

pub Below-le : (a b : ℕ) (maps : StackMaps) → a ≤ b → Below a maps → Below b maps
Below-le a b [] le h = tt
Below-le a b (m ∷ maps) le ((l, at, small), h) = ((l, at, omega arith), Below-le a b maps le h)

contains-none :
    (name : Name) (maps : StackMaps) → lookup name maps ≡ none → contains name maps ≡ false
unfolding contains
contains-none name maps e = rw (e, contains) refl

pub contains-some :
    (name : Name) (maps : StackMaps) {ids : List ℕ}
    → lookup name maps ≡ some ids
    → contains name maps ≡ true
unfolding contains
contains-some name maps e = rw (e, contains) refl

next_id-first :
    (name : Name) (maps : StackMaps) (next : ℕ)
    → Ready next maps
    → lookup (get_twin_name name) maps ≡ none
    → next < 2 ^ 64
    → next_id name maps ≡ ok (next - 1)
unfolding next_id
next_id-first name [] next ready free small = ap ok (omega arith)
next_id-first name (m ∷ maps) next (ge, last) free small =
    let e : add64 (next - 2) 1 ≡ next - 1 = omega arith in rw (free, next_id, last, e) refl

next_id-later :
    (name : Name) (maps : StackMaps) (top : ℕ)
    → lookup (get_twin_name name) maps ≡ none
    → max_last maps ≡ ok top
    → next_id name maps ≡ ok (add64 top 1)
unfolding next_id
next_id-later name [] top free last = unfold max_last in cc
next_id-later name (m ∷ maps) top free last = rw (free, next_id, last) refl

Ready-pos : (next : ℕ) (maps : StackMaps) → Ready next maps → 1 ≤ next
Ready-pos next [] ready = omega arith
Ready-pos next (m ∷ maps) ready = omega arith

pub lookup-last :
    (name : Name) (maps : StackMaps) (ids : List ℕ)
    → Absent name maps
    → lookup name (maps ++ (name, ids) ∷ []) ≡ some ids
lookup-last name maps ids absent =
    lookup-append name maps ((name, ids) ∷ []) absent
    ∙ unfold lookup in rw (same_string_refl name) refl

pub push_back-last :
    (name : Name) (maps : StackMaps) (ids : List ℕ) (id : ℕ)
    → Absent name maps
    → push_back name id (maps ++ (name, ids) ∷ []) ≡ maps ++ (name, ids ++ id ∷ []) ∷ []
push_back-last name maps ids id absent =
    push_back-append name id maps ((name, ids) ∷ []) absent
    ∙ ap (λ (x : StackMaps). maps ++ x) (unfold push_back in rw (same_string_refl name) refl)

pub push_back-new :
    (name : Name) (maps : StackMaps) (id : ℕ)
    → Absent name maps
    → push_back name id maps ≡ maps ++ (name, id ∷ []) ∷ []
push_back-new name maps id absent =
    ap (push_back name id) (sym (append-nil maps))
    ∙ push_back-append name id maps [] absent
    ∙ ap (λ (x : StackMaps). maps ++ x) (unfold push_back in refl)

module _ (name : Name) (maps : StackMaps) (next : ℕ) (opt : starts_with unopt_prefix name ≡ false)
    (old : Optimised maps) (absent : Absent name maps) where
  -- The twin has no IDs, whatever the function itself has.
  twin_free : (ids : List ℕ) → lookup (get_twin_name name) (maps ++ (name, ids) ∷ []) ≡ none
  twin_free ids =
      ap (λ (n : Name). lookup n (maps ++ (name, ids) ∷ [])) (get_twin_name-opt name opt)
      ∙ lookup-append (unopt_prefix ++ name) maps ((name, ids) ∷ []) (Absent-prefix name maps old)
      ∙ lookup-Absent (unopt_prefix ++ name) ((name, ids) ∷ [])
          ((same_string-prefix_ne unopt_prefix name name opt).1, tt)

  first_call :
      Ready next maps
      → next < 2 ^ 64
      → get_next_patchpoint_id name maps ≡ ok (next, maps ++ (name, range next 1) ∷ [])
  unfolding get_next_patchpoint_id range
  first_call ready small =
      let free : lookup (get_twin_name name) maps ≡ none =
        ap (λ (n : Name). lookup n maps) (get_twin_name-opt name opt)
        ∙ lookup-Absent (unopt_prefix ++ name) maps (Absent-prefix name maps old) in
      let pos = Ready-pos next maps ready in
      let id : add64 (next - 1) 1 ≡ next = omega arith in
      rw
        (
          next_id-first name maps next ready free small,
          contains-none name maps (lookup-Absent name maps absent),
          contains-none (get_twin_name name) maps free,
          id,
          push_back-new name maps next absent,
        )
        refl

  later_call :
      (k : ℕ)
      → Below (next + k) maps
      → next + k + 1 < 2 ^ 64
      → get_next_patchpoint_id name (maps ++ (name, range next (suc k)) ∷ [])
        ≡ ok (next + suc k, maps ++ (name, range next (suc (suc k))) ∷ [])
  unfolding get_next_patchpoint_id
  later_call k below small =
      let maps' = maps ++ (name, range next (suc k)) ∷ [] in
      let last =
        max_last-append (next + k) maps name (range next (suc k)) below (get_last?-range next k) in
      let id : add64 (next + k) 1 ≡ next + suc k = omega arith in
      rw
        (
          next_id-later name maps' (next + k) (twin_free (range next (suc k))) last,
          contains-some name maps' (lookup-last name maps (range next (suc k)) absent),
          id,
          push_back-last name maps (range next (suc k)) (next + suc k) absent,
          range-snoc next (suc k),
        )
        refl

  later_calls :
      (n k : ℕ)
      → Below next maps
      → next + k + n < 2 ^ 64
      → number_calls name n (maps ++ (name, range next (suc k)) ∷ [])
        ≡ ok (maps ++ (name, range next (suc (k + n))) ∷ [])
  unfolding number_calls
  later_calls zero k below small = let e : k + zero ≡ k = omega arith in rw e refl
  later_calls (suc n) k below small =
      let e : k + suc n ≡ suc k + n = omega arith in
      rw (later_call k (Below-le next (next + k) maps (omega arith) below) (omega arith), e)
        (later_calls n (suc k) below (omega arith))

  -- A function with calls gets the block from `next` on.
  pub number_calls-block :
      (n : ℕ)
      → Ready next maps
      → Below next maps
      → next + n < 2 ^ 64
      → number_calls name (suc n) maps ≡ ok (maps ++ (name, range next (suc n)) ∷ [])
  unfolding number_calls
  number_calls-block n ready below small =
      let e : 0 + n ≡ n = omega arith in
      rw (first_call ready (omega arith)) (rw e at (later_calls n 0 below (omega arith)))
