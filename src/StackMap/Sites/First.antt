-- ===== src/StackMap/Sites/First.antt =====
-- `stmap_first_rec_after_addr` of stmap.c on the call sites.
use mathlib.Core.List.{Memᴰ}
use llvm_guard_handler.Base.{
  All-append, ℕ, zero, suc, ◌+◌, ◌≤◌, ◌≡◌, refl, ap, ◌∙◌, ◌≢◌, Bool, ◌&&◌, Option, none, some, List,
  [], ◌∷◌, arith, ltb, leb, replicate, get_elem?, All, ok,
}
use llvm_guard_handler.StackMap.{StackMapRecord, StackSizeRecord, StackMap}
use llvm_guard_handler.StackMap.Format.{AllFrom}
use llvm_guard_handler.StackMap.Query.{
  call_addr, get_last_record, find_first_after, first_rec_after_addr,
}
use llvm_guard_handler.StackMap.Sites.{
  Site, owners, sites_of, sites, site_addr, first_site, IsValid,
}
use llvm_guard_handler.StackMap.Sites.Search.{Owned, IsValid-Owned}
use llvm_guard_handler.StackMap.Sites.Found.{All-at}
use llvm_guard_handler.StackMap.Sites.Last.{IsLast, get_last_record-IsLast}

All-replicate :
    (P : StackSizeRecord → Type 0) (n : ℕ) (x : StackSizeRecord) → P x → All P (replicate n x)
All-replicate P zero x p = tt
All-replicate P (suc n) x p = (p, All-replicate P n x p)

All-owners :
    (P : StackSizeRecord → Type 0) (rs : List StackSizeRecord) → All P rs → All P (owners rs)
unfolding owners
All-owners P [] p = tt
All-owners P (r ∷ rs) (p, ps) =
    All-append P (replicate r.record_count r) (owners rs) (All-replicate P r.record_count r p)
      (All-owners P rs ps)

All-sites_of :
    (P : StackSizeRecord → Type 0) (os : List StackSizeRecord) (rs : List StackMapRecord)
    → All P os
    → All (λ s. P s.owner) (sites_of os rs)
unfolding sites_of
All-sites_of P [] rs p = tt
All-sites_of P (o ∷ os) [] p = tt
All-sites_of P (o ∷ os) (r ∷ rs) (p, ps) = (p, All-sites_of P os rs ps)

-- Records that carry their positions are found at them.
at_index :
    (f : ℕ → Option StackSizeRecord) (i : ℕ) (rs : List StackSizeRecord)
    → ((k : ℕ) → f (i + k) ≡ get_elem? rs k)
    → AllFrom (λ j r. r.index ≡ j) i rs
    → All (λ r. f r.index ≡ some r) rs
at_index f i [] at h = tt
at_index f i (r ∷ rs) at (e, es) = (
  (let e' : r.index ≡ i + 0 = omega arith in ap f e' ∙ at 0),
  at_index f (i + 1) rs (λ k. let e' : i + 1 + k ≡ i + suc k = omega arith in rw e' (at (suc k)))
      es,
)

-- The site stands at `addr` or above, in a function that starts below `addr`.
abbrev pub after : ℕ → Site → Bool
after addr s = leb addr (site_addr s) && ltb s.owner.fun_addr addr

module _ (sm : StackMap) (v : IsValid sm) where
  -- A site's function stands at its own index.
  abbrev pub AtIndex : Site → Type 0
  AtIndex s = get_elem? sm.stk_size_records s.owner.index ≡ some s.owner

  abbrev Stands : StackSizeRecord → Type 0
  Stands r = get_elem? sm.stk_size_records r.index ≡ some r

  pub sites-AtIndex : All AtIndex (sites sm)
  unfolding sites
  sites-AtIndex = All-sites_of Stands (owners sm.stk_size_records) sm.stk_map_records (
      All-owners Stands sm.stk_size_records (
        at_index (get_elem? sm.stk_size_records) 0 sm.stk_size_records
          (λ k. ap (get_elem? sm.stk_size_records) (omega arith)) v.size_index))

  -- The last record of a site's function exists, and stands at the site's address or above.
  abbrev HasLast : Site → Type 0
  HasLast s =
      (l : StackMapRecord) × (get_last_record sm s.owner ≡ some l)
      × (site_addr s ≤ call_addr s.owner l)

  last_of :
      (s : Site)
      → Memᴰ s (sites sm)
      → AtIndex s
      → (out : Option StackMapRecord) → get_last_record sm s.owner ≡ out
      → IsLast (sites sm) s.owner.index out
      → HasLast s
  last_of s m at none e h =
      absurd (All-at (λ t. t.owner.index ≢ s.owner.index) (sites sm) h s m refl)
  last_of s m at (some l) e (s', is, own, m', below) =
      let same : s'.owner ≡ s.owner = cc (All-at AtIndex (sites sm) sites-AtIndex s' m') in
      let reach =
        All-at (λ t. t.owner.index ≡ s.owner.index → site_addr t ≤ site_addr s') (sites sm) below s
          m refl in
      (l, e, ground arith)

  sites-HasLast : All HasLast (sites sm)
  sites-HasLast = All-each (sites sm) λ s m.
      last_of s m (All-at AtIndex (sites sm) sites-AtIndex s m) (get_last_record sm s.owner) refl
        (get_last_record-IsLast sm s.owner v)
    where
      All-each : (ss : List Site) → ((s : Site) → Memᴰ s ss → HasLast s) → All HasLast ss
      All-each [] f = tt
      All-each (s ∷ ss) f = (f s (Memᴰ.head refl), All-each ss (λ t m. f t (Memᴰ.tail m)))

  find_first_after-first_site :
      (addr i : ℕ) (os : List StackSizeRecord) (rs : List StackMapRecord)
      → Owned sm i os rs
      → All HasLast (sites_of os rs)
      → find_first_after sm addr i rs ≡ ok (first_site (after addr) (sites_of os rs))
  unfolding find_first_after first_site sites_of
  find_first_after-first_site addr i [] [] own last = refl
  find_first_after-first_site addr i (o ∷ os) [] own last = refl
  find_first_after-first_site addr i [] (r ∷ rs) own last = absurd own
  find_first_after-first_site addr i (o ∷ os) (r ∷ rs) (own, owns) ((l, e, le), lasts) =
      ground (arith, find_first_after-first_site addr (i + 1) os rs owns lasts)

  -- On a valid stack map `stmap_first_rec_after_addr` neither exits nor reads through NULL, and
  -- returns the record of the first call site, in the order of the records, that stands at `addr`
  -- or above it in a function which starts below `addr`.
  pub first_rec_after_addr-first_site :
      (addr : ℕ) → first_rec_after_addr sm addr ≡ ok (first_site (after addr) (sites sm))
  unfolding first_rec_after_addr
  first_rec_after_addr-first_site addr =
      unfold sites in
      find_first_after-first_site addr 0 (owners sm.stk_size_records) sm.stk_map_records
        (IsValid-Owned sm v) sites-HasLast
