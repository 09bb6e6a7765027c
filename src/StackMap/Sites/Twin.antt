-- ===== src/StackMap/Sites/Twin.antt =====
-- `stmap_get_unopt_return_addr` of stmap.c: the position of the unoptimised twin of a call.
use mathlib.Core.List.Memᴰ
use llvm_guard_handler.Base.{
  ℕ, suc, ◌+◌, ◌%◌, ◌^◌, ◌≤◌, ◌<◌, ◌≡◌, refl, sym, ap, ◌∙◌, ◌⊎◌, inl, inr, Bool-cases, Option-cases,
  none, some, List, [], ◌∷◌, arith, tests, ltb, leb, ◌==◌, ◌&&◌, add64, not64, length, get_elem?,
  ok, err, Memᴰ, unopt_map_record_not_found,
}
use llvm_guard_handler.StackMap.{StackMapRecord, StackSizeRecord, StackMap, StackMapPos}
use llvm_guard_handler.StackMap.Format.{AllFrom}
use llvm_guard_handler.StackMap.Query.{
  find_map_record, get_map_record, find_size_record, get_size_record, unopt_position,
  get_unopt_return_addr,
}
use llvm_guard_handler.StackMap.Sites.{Site, owners, sites_of, sites, first_site, IsValid}
use llvm_guard_handler.StackMap.Sites.Search.{Owned, IsValid-Owned}
use llvm_guard_handler.StackMap.Sites.Found.{first_site-eq-some, sites-IsOwned}
use llvm_guard_handler.StackMap.Sites.First.{after, first_rec_after_addr-first_site}

-- What stands in an array whose elements carry their positions is found at the position it carries.
get_elem?-index :
    {A : Type 0} (index : A → ℕ) (x : A) (i : ℕ) (xs : List A)
    → AllFrom (λ j y. index y ≡ j) i xs
    → Memᴰ x xs
    → (j : ℕ) × (index x ≡ i + j) × (j < length xs) × (get_elem? xs j ≡ some x)
get_elem?-index index x i [] at m = absurd (Memᴰ.not-nil m)
get_elem?-index index x i (y ∷ ys) (at, ats) m = elim (Memᴰ.cases_cons m) [
  | inl e ↦ (0, ap index e ∙ at ∙ omega arith, omega arith, ap some (sym e))
  | inr m' ↦
      let (j, e, lt, found) = get_elem?-index index x (i + 1) ys ats m' in
      (suc j, omega arith, omega arith, found)
]

-- The record of a call site stands in the stack map, and so does its function.
Memᴰ-rec :
    (s : Site) (os : List StackSizeRecord) (rs : List StackMapRecord)
    → Memᴰ s (sites_of os rs)
    → Memᴰ s.rec rs
unfolding sites_of
Memᴰ-rec s [] rs m = absurd (Memᴰ.not-nil m)
Memᴰ-rec s (o ∷ os) [] m = absurd (Memᴰ.not-nil m)
Memᴰ-rec s (o ∷ os) (r ∷ rs) m = elim (Memᴰ.cases_cons m) [
  | inl e ↦ Memᴰ.head (ap (λ (t : Site). t.rec) e)
  | inr m' ↦ Memᴰ.tail (Memᴰ-rec s os rs m')
]

find_size_record-Memᴰ :
    (idx c : ℕ) (rs : List StackSizeRecord) (r : StackSizeRecord)
    → find_size_record idx c rs ≡ some r
    → Memᴰ r rs
unfolding find_size_record
find_size_record-Memᴰ idx c [] r e = cc
find_size_record-Memᴰ idx c (x ∷ xs) r e =
    elim (Bool-cases (leb c (add64 idx 1) && ltb (add64 idx 1) (add64 c x.record_count))) [
      | inl here ↦ Memᴰ.head (ground arith)
      | inr past ↦
          Memᴰ.tail (find_size_record-Memᴰ idx (add64 c x.record_count) xs r (ground arith))
    ]

-- `stmap_get_map_record` searches the call sites by their IDs.
find_map_record-first_site :
    (sm : StackMap) (ppid i : ℕ) (os : List StackSizeRecord) (rs : List StackMapRecord)
    → Owned sm i os rs
    → find_map_record ppid rs ≡ first_site (λ s. s.rec.patchpoint_id == ppid) (sites_of os rs)
unfolding find_map_record first_site sites_of
find_map_record-first_site sm ppid i [] [] own = refl
find_map_record-first_site sm ppid i (o ∷ os) [] own = refl
find_map_record-first_site sm ppid i [] (r ∷ rs) own = absurd own
find_map_record-first_site sm ppid i (o ∷ os) (r ∷ rs) (own, owns) =
    ground (arith, find_map_record-first_site sm ppid (i + 1) os rs owns)

module _ (sm : StackMap) (v : IsValid sm) where
  pub get_map_record-first_site :
      (ppid : ℕ) → get_map_record sm ppid ≡ first_site (λ s. s.rec.patchpoint_id == ppid) (sites sm)
  unfolding get_map_record sites
  get_map_record-first_site ppid =
      find_map_record-first_site sm ppid 0 (owners sm.stk_size_records) sm.stk_map_records
        (IsValid-Owned sm v)

  -- A call site is found again by the indices of its record and of its function.
  pub get_elem?-site :
      (s : Site)
      → Memᴰ s (sites sm)
      → (get_elem? sm.stk_map_records s.rec.index ≡ some s.rec)
        × (get_elem? sm.stk_size_records s.owner.index ≡ some s.owner)
        × (s.rec.index < length sm.stk_map_records)
        × (s.owner.index < length sm.stk_size_records)
  unfolding sites get_size_record
  get_elem?-site s m =
      let (j, e, lt, at) =
        get_elem?-index (λ (r : StackMapRecord). r.index) s.rec 0 sm.stk_map_records v.map_index
          (Memᴰ-rec s (owners sm.stk_size_records) sm.stk_map_records m) in
      let (k, e', lt', at') =
        get_elem?-index (λ (r : StackSizeRecord). r.index) s.owner 0 sm.stk_size_records
          v.size_index
          (find_size_record-Memᴰ s.rec.index 1 sm.stk_size_records s.owner
            (sites-IsOwned sm v s m)) in
      (
        ap (get_elem? sm.stk_map_records) (e ∙ omega arith) ∙ at,
        ap (get_elem? sm.stk_size_records) (e' ∙ omega arith) ∙ at',
        omega arith,
        omega arith,
      )

  -- The position is that of a call site with the given ID: its record and its function stand there.
  pub record IsTwin (id : ℕ) (pos : StackMapPos) (t : Site) : Type 0 where
    pub site : Memᴰ t (sites sm)
    pub patchpoint : t.rec.patchpoint_id ≡ id
    pub function : get_elem? sm.stk_size_records pos.stk_size_record_index ≡ some t.owner
    pub call : get_elem? sm.stk_map_records pos.stk_map_record_index ≡ some t.rec

  -- The twin of a call is found, or no call site has its ID.
  unopt_position_lem :
      (call : StackMapRecord)
      → length sm.stk_map_records ≤ 2 ^ 32
      → length sm.stk_size_records ≤ 2 ^ 32
      → let id = not64 call.patchpoint_id in
        ((pos : StackMapPos) × (t : Site) × (unopt_position sm call ≡ ok (some pos))
          × IsTwin id pos t)
        ⊎ (first_site (λ s. s.rec.patchpoint_id == id) (sites sm) ≡ none)
          × (unopt_position sm call ≡ err (unopt_map_record_not_found id))
  unfolding unopt_position
  unopt_position_lem call recs funs =
      let id = not64 call.patchpoint_id in
      let search = get_map_record-first_site id in
      elim (Option-cases (first_site (λ s. s.rec.patchpoint_id == id) (sites sm))) [
        | inl e ↦ inr (e, rw (search ∙ e) refl)
        | inr (rec, e) ↦
            let (t, m, test, at) =
              first_site-eq-some (λ s. s.rec.patchpoint_id == id) (sites sm) e in
            let (at_rec, at_owner, lt, lt') = get_elem?-site t m in
            let call_index : t.rec.index % 2 ^ 32 ≡ t.rec.index = omega arith in
            let fun_index : t.owner.index % 2 ^ 32 ≡ t.owner.index = omega arith in
            let found : get_map_record sm id ≡ some t.rec = search ∙ e ∙ ap some (sym at) in
            let pos : StackMapPos = record {
              stk_size_record_index = t.owner.index;
              stk_map_record_index = t.rec.index;
            } in
            inl (
              pos,
              t,
              rw (found, sites-IsOwned sm v t m, call_index, fun_index) refl,
              record {
                site = m;
                patchpoint = omega (tests, test);
                function = at_owner;
                call = at_rec;
              },
            )
      ]

  -- On a valid stack map with no more than 2 ^ 32 records and functions, `stmap_get_unopt_return_addr`
  -- gives NULL if no call site follows the address, exits if no call site has the inverted ID of the
  -- first that does, and otherwise gives the position of a call site with that ID.
  pub get_unopt_return_addr-IsTwin :
      (addr : ℕ)
      → length sm.stk_map_records ≤ 2 ^ 32
      → length sm.stk_size_records ≤ 2 ^ 32
      → let next = first_site (after addr) (sites sm) in
        ((next ≡ none) × (get_unopt_return_addr sm addr ≡ ok none))
        ⊎ ((call : StackMapRecord) × (next ≡ some call)
            × (((pos : StackMapPos) × (t : Site) × (get_unopt_return_addr sm addr ≡ ok (some pos))
                  × IsTwin (not64 call.patchpoint_id) pos t)
                ⊎ (first_site (λ s. s.rec.patchpoint_id == not64 call.patchpoint_id) (sites sm)
                    ≡ none)
                  × (get_unopt_return_addr sm addr
                      ≡ err (unopt_map_record_not_found (not64 call.patchpoint_id)))))
  unfolding get_unopt_return_addr
  get_unopt_return_addr-IsTwin addr recs funs =
      let found = first_rec_after_addr-first_site sm v addr in
      elim (Option-cases (first_site (after addr) (sites sm))) [
        | inl e ↦ inl (e, rw (found, e) refl)
        | inr (call, e) ↦ inr (call, e, rw (found, e) (unopt_position_lem call recs funs))
      ]
