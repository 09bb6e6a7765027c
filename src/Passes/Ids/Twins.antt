-- ===== src/Passes/Ids/Twins.antt =====
-- The unoptimised functions after the optimised ones, on `stackMaps`.
use llvm_guard_handler.Base.{
  ℕ, suc, ◌≡◌, refl, sym, ap, ◌∙◌, some, List, [], ◌∷◌, ◌++◌, append-nil, append_assoc, arith,
  not64, Bool-cases, inl, inr, get_elem?, get_elem?-append_right, length, ok,
}
use llvm_guard_handler.Elf.{same_string}
use llvm_guard_handler.Passes.Names.{Name, unopt_prefix, get_twin_name}
use llvm_guard_handler.Passes.Names.Twins.{get_twin_name-unopt}
use llvm_guard_handler.Passes.Ids.{
  StackMaps, lookup, contains, push_back, last_index, next_id, get_next_patchpoint_id, number_calls,
}
use llvm_guard_handler.Passes.Ids.Numbering.{Absent, lookup-Absent}
use llvm_guard_handler.Passes.Ids.Calls.{contains-some, lookup-last, push_back-last, push_back-new}

abbrev pub twin_ids : List ℕ → List ℕ
twin_ids [] = []
twin_ids (id ∷ ids) = not64 id ∷ twin_ids ids

length-twin_ids : (ids : List ℕ) → length (twin_ids ids) ≡ length ids
length-twin_ids [] = refl
length-twin_ids (id ∷ ids) = ap suc (length-twin_ids ids)

pub twin_ids-append : (xs ys : List ℕ) → twin_ids (xs ++ ys) ≡ twin_ids xs ++ twin_ids ys
twin_ids-append [] ys = refl
twin_ids-append (x ∷ xs) ys = ap (◌∷◌ (not64 x)) (twin_ids-append xs ys)

-- An entry is found whatever is added behind.
pub lookup-append_left :
    (name : Name) (xs ys : StackMaps) {ids : List ℕ}
    → lookup name xs ≡ some ids
    → lookup name (xs ++ ys) ≡ some ids
unfolding lookup
lookup-append_left name [] ys h = cc
lookup-append_left name (m ∷ xs) ys h = elim (Bool-cases (same_string m.0 name)) [
  | inl e ↦ rw (e, lookup) (rw (e, lookup) at h)
  | inr e ↦ rw (e, lookup) (lookup-append_left name xs ys (rw (e, lookup) at h))
]

next_id-twin :
    (name : Name) (maps : StackMaps) (ids : List ℕ) (id : ℕ)
    → lookup (get_twin_name name) maps ≡ some ids
    → get_elem? ids (last_index name maps) ≡ some id
    → next_id name maps ≡ ok (not64 id)
unfolding next_id
next_id-twin name [] ids id found at = unfold lookup in cc
next_id-twin name (m ∷ maps) ids id found at = rw (found, next_id, at) refl

get_next_patchpoint_id-twin :
    (name : Name) (maps : StackMaps) (ids : List ℕ) (id : ℕ)
    → lookup (get_twin_name name) maps ≡ some ids
    → get_elem? ids (last_index name maps) ≡ some id
    → get_next_patchpoint_id name maps ≡ ok (not64 id, push_back name (not64 id) maps)
unfolding get_next_patchpoint_id
get_next_patchpoint_id-twin name maps ids id found at = elim (Bool-cases (contains name maps)) [
  | inl old ↦ rw (next_id-twin name maps ids id found at, old) refl
  | inr new ↦
      rw
        (next_id-twin name maps ids id found at, new, contains-some (get_twin_name name) maps found)
        refl
]

module _ (name : Name) (maps : StackMaps) (ids : List ℕ) (found : lookup name maps ≡ some ids)
    (absent : Absent (unopt_prefix ++ name) maps) where
  abbrev pub with_twin : List ℕ → StackMaps
  with_twin done = maps ++ (unopt_prefix ++ name, twin_ids done) ∷ []

  twin_found :
      (done : List ℕ) → lookup (get_twin_name (unopt_prefix ++ name)) (with_twin done) ≡ some ids
  twin_found done =
      ap (λ (n : Name). lookup n (with_twin done)) (get_twin_name-unopt name)
      ∙ lookup-append_left name maps ((unopt_prefix ++ name, twin_ids done) ∷ []) found

  index_of : (done : List ℕ) → last_index (unopt_prefix ++ name) (with_twin done) ≡ length done
  unfolding last_index
  index_of done =
      rw (lookup-last (unopt_prefix ++ name) maps (twin_ids done) absent, last_index)
        (length-twin_ids done)

  later_call :
      (done : List ℕ) (id : ℕ) (rest : List ℕ)
      → ids ≡ done ++ id ∷ rest
      → get_next_patchpoint_id (unopt_prefix ++ name) (with_twin done)
        ≡ ok (not64 id, with_twin (done ++ id ∷ []))
  later_call done id rest e =
      let at : get_elem? ids (last_index (unopt_prefix ++ name) (with_twin done)) ≡ some id =
        rw (index_of done, e)
          (get_elem?-append_right done (id ∷ rest) (length done) 0 (omega arith)) in
      get_next_patchpoint_id-twin (unopt_prefix ++ name) (with_twin done) ids id (twin_found done)
        at
      ∙ rw
          (
            push_back-last (unopt_prefix ++ name) maps (twin_ids done) (not64 id) absent,
            twin_ids-append done (id ∷ []),
          )
          refl

  later_calls :
      (done rest : List ℕ)
      → ids ≡ done ++ rest
      → number_calls (unopt_prefix ++ name) (length rest) (with_twin done) ≡ ok (with_twin ids)
  unfolding number_calls
  later_calls done [] e = rw (e, append-nil done) refl
  later_calls done (id ∷ rest) e =
      rw (later_call done id rest e)
        (later_calls (done ++ id ∷ []) rest (e ∙ sym (append_assoc done (id ∷ []) rest)))

  -- The block of the twin.
  pub number_calls-twin :
      (id : ℕ) (rest : List ℕ)
      → ids ≡ id ∷ rest
      → number_calls (unopt_prefix ++ name) (suc (length rest)) maps ≡ ok (with_twin ids)
  unfolding number_calls last_index
  number_calls-twin id rest e =
      let u = unopt_prefix ++ name in
      let at : get_elem? ids (last_index u maps) ≡ some id =
        rw (lookup-Absent u maps absent, last_index, e) refl in
      let free = ap (λ (n : Name). lookup n maps) (get_twin_name-unopt name) ∙ found in
      rw (get_next_patchpoint_id-twin u maps ids id free at, push_back-new u maps (not64 id) absent)
        (later_calls (id ∷ []) rest e)
