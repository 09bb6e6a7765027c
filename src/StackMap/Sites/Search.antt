-- ===== src/StackMap/Sites/Search.antt =====
-- The lookups of stmap.c that search the records by patchpoint ID, on the call sites.
use llvm_guard_handler.Base.{
  ℕ, suc, ◌+◌, ◌≤◌, ◌<◌, ◌≡◌, refl, ◌&&◌, some, List, [], ◌∷◌, arith, ◌==◌, length, get_elem?, ok,
}
use llvm_guard_handler.StackMap.{StackMapRecord, StackSizeRecord, StackMap}
use llvm_guard_handler.StackMap.Query.{
  get_size_record, find_in_func, get_map_record_in_func, find_after_addr, get_map_record_after_addr,
}
use llvm_guard_handler.StackMap.Sites.{
  Site, owners, sites_of, sites, first_site, in_symbol, IsValid,
}
use llvm_guard_handler.StackMap.Sites.Owners.{get_size_record-owners}

-- From index `i` on, the functions `os` own the records `rs`.
abbrev pub Owned : StackMap → ℕ → List StackSizeRecord → List StackMapRecord → Type 0
Owned sm i os [] = Unit
Owned sm i [] (r ∷ rs) = ⊥
Owned sm i (o ∷ os) (r ∷ rs) = (get_size_record sm i ≡ some o) × Owned sm (i + 1) os rs

Owned-get_size_record :
    (sm : StackMap) (i : ℕ) (os : List StackSizeRecord) (rs : List StackMapRecord)
    → ((k : ℕ) → k < length rs → get_size_record sm (i + k) ≡ get_elem? os k)
    → length rs ≤ length os
    → Owned sm i os rs
Owned-get_size_record sm i os [] at le = tt
Owned-get_size_record sm i [] (r ∷ rs) at le = absurd (omega arith)
Owned-get_size_record sm i (o ∷ os) (r ∷ rs) at le = (
  (let e : i + 0 ≡ i = omega arith in rw e at (at 0 (omega arith))),
  Owned-get_size_record sm (i + 1) os rs
      (λ k lt. let e : i + suc k ≡ i + 1 + k = omega arith in rw e at (at (suc k) (omega arith)))
      (omega arith),
)

pub IsValid-Owned :
    (sm : StackMap) → IsValid sm → Owned sm 0 (owners sm.stk_size_records) sm.stk_map_records
IsValid-Owned sm v =
    Owned-get_size_record sm 0 (owners sm.stk_size_records) sm.stk_map_records
      (λ k lt.
        let e : 0 + k ≡ k = omega arith in
        rw e (get_size_record-owners sm k v.counts (omega (arith, v.owned, v.counts))))
      v.owned

abbrev pub site : StackSizeRecord → StackMapRecord → Site
site o r = record { owner = o; rec = r }

find_in_func-first_site :
    (sm : StackMap) (ppid fun_addr i : ℕ) (os : List StackSizeRecord) (rs : List StackMapRecord)
    → Owned sm i os rs
    → find_in_func sm ppid fun_addr i rs
      ≡ ok (
          first_site
            (λ s. (s.rec.patchpoint_id == ppid) && (s.owner.fun_addr == fun_addr))
            (sites_of os rs))
unfolding find_in_func first_site sites_of
find_in_func-first_site sm ppid fun_addr i [] [] h = refl
find_in_func-first_site sm ppid fun_addr i (o ∷ os) [] h = refl
find_in_func-first_site sm ppid fun_addr i [] (r ∷ rs) h = absurd h
find_in_func-first_site sm ppid fun_addr i (o ∷ os) (r ∷ rs) (own, h) =
    ground (arith, find_in_func-first_site sm ppid fun_addr (i + 1) os rs h)

-- In a valid stack map `stmap_get_map_record_in_func` never exits, and returns the record of the
-- first call site with that patchpoint ID in a function that starts at that address.
pub get_map_record_in_func-first_site :
    (sm : StackMap) (ppid fun_addr : ℕ)
    → IsValid sm
    → get_map_record_in_func sm ppid fun_addr
      ≡ ok (
          first_site
            (λ s. (s.rec.patchpoint_id == ppid) && (s.owner.fun_addr == fun_addr))
            (sites sm))
unfolding get_map_record_in_func sites
get_map_record_in_func-first_site sm ppid fun_addr v =
    find_in_func-first_site sm ppid fun_addr 0 (owners sm.stk_size_records) sm.stk_map_records
      (IsValid-Owned sm v)

module _ (sym_end : ℕ → ℕ) (sm : StackMap) (ppid addr : ℕ) where
  find_after_addr-first_site :
      (i : ℕ) (os : List StackSizeRecord) (rs : List StackMapRecord)
      → Owned sm i os rs
      → find_after_addr sym_end sm ppid addr i rs
        ≡ ok (first_site (in_symbol sym_end ppid addr) (sites_of os rs))
  unfolding find_after_addr first_site sites_of
  find_after_addr-first_site i [] [] h = refl
  find_after_addr-first_site i (o ∷ os) [] h = refl
  find_after_addr-first_site i [] (r ∷ rs) h = absurd h
  find_after_addr-first_site i (o ∷ os) (r ∷ rs) (own, h) =
      ground (arith, find_after_addr-first_site (i + 1) os rs h)

  -- In a valid stack map `stmap_get_map_record_after_addr` never exits, and returns the record of
  -- the first call site with that patchpoint ID which stands at `addr` or above it, in a function
  -- that starts at `addr` or below it and whose symbol ends above it.
  pub get_map_record_after_addr-first_site :
      IsValid sm
      → get_map_record_after_addr sym_end sm ppid addr
        ≡ ok (first_site (in_symbol sym_end ppid addr) (sites sm))
  unfolding get_map_record_after_addr sites
  get_map_record_after_addr-first_site v =
      find_after_addr-first_site 0 (owners sm.stk_size_records) sm.stk_map_records
        (IsValid-Owned sm v)
