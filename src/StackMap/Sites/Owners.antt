-- ===== src/StackMap/Sites/Owners.antt =====
-- `stmap_get_size_record` of stmap.c, which counts its way through the functions.
use llvm_guard_handler.Base.{
  ℕ, ◌+◌, ◌-◌, ◌^◌, ◌<◌, ◌≡◌, refl, inl, inr, List, [], ◌∷◌, arith, tests, add64, ltb, Bool-cases,
  length, replicate, get_elem?, length-append, length-replicate, get_elem?-append_left,
  get_elem?-append_right, get_elem?-replicate,
}
use llvm_guard_handler.StackMap.{StackSizeRecord, StackMap}
use llvm_guard_handler.StackMap.Query.{find_size_record, get_size_record}
use llvm_guard_handler.StackMap.Sites.{owners}

length-owners-cons :
    (r : StackSizeRecord) (rs : List StackSizeRecord)
    → length (owners (r ∷ rs)) ≡ r.record_count + length (owners rs)
unfolding owners
length-owners-cons r rs = omega (
  arith,
  length-append (replicate r.record_count r) (owners rs),
  length-replicate r.record_count r,
)

find_size_record-owners :
    (idx c j : ℕ) (rs : List StackSizeRecord)
    → idx + 1 ≡ c + j
    → idx + 1 < 2 ^ 64
    → c + length (owners rs) < 2 ^ 64
    → find_size_record idx c rs ≡ get_elem? (owners rs) j
unfolding find_size_record owners
find_size_record-owners idx c j [] e small fits = refl
find_size_record-owners idx c j (r ∷ rs) e small fits =
    let size = length-owners-cons r rs in
    let next : add64 c r.record_count ≡ c + r.record_count = omega arith in
    elim (Bool-cases (ltb j r.record_count)) [
      | inl inside ↦
          let at =
            get_elem?-append_left (replicate r.record_count r) (owners rs) j
              (omega (tests, length-replicate r.record_count r)) in
          let found = get_elem?-replicate r.record_count r j (omega tests) in
          ground (arith, at, found)
      | inr outside ↦
          let at =
            get_elem?-append_right (replicate r.record_count r) (owners rs) j (j - r.record_count)
              (omega (tests, length-replicate r.record_count r)) in
          let rest =
            find_size_record-owners idx (add64 c r.record_count) (j - r.record_count) rs
              (omega tests) small (omega arith) in
          ground (arith, at, rest)
    ]

-- `stmap_get_size_record` of an index returns the function that owns the record at that index, and
-- NULL past the last owned record, as long as the counts of the functions do not wrap a size_t.
pub get_size_record-owners :
    (sm : StackMap) (idx : ℕ)
    → length (owners sm.stk_size_records) + 1 < 2 ^ 64
    → idx + 1 < 2 ^ 64
    → get_size_record sm idx ≡ get_elem? (owners sm.stk_size_records) idx
unfolding get_size_record
get_size_record-owners sm idx counts small =
    find_size_record-owners idx 1 idx sm.stk_size_records (omega arith) small (omega arith)
