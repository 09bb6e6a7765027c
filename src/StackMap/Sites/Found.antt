-- ===== src/StackMap/Sites/Found.antt =====
-- The call sites that a search finds, and the functions of their records.
use mathlib.Core.List.Memᴰ
use mathlib.Core.Path.{subst}
use llvm_guard_handler.Base.{
  ℕ, ◌+◌, ◌≡◌, refl, sym, ap, ◌∙◌, inl, inr, Bool, true, some, List, [], ◌∷◌, arith, Bool-cases,
  Memᴰ, All, length,
}
use llvm_guard_handler.StackMap.{StackMapRecord, StackSizeRecord, StackMap}
use llvm_guard_handler.StackMap.Format.{AllFrom}
use llvm_guard_handler.StackMap.Query.{get_size_record}
use llvm_guard_handler.StackMap.Sites.{Site, owners, sites_of, sites, first_site, IsValid}
use llvm_guard_handler.StackMap.Sites.Search.{Owned, IsValid-Owned}

pub All-at : (P : Site → Type 0) (ss : List Site) → All P ss → (s : Site) → Memᴰ s ss → P s
All-at P [] p s m = absurd (Memᴰ.not-nil m)
All-at P (x ∷ xs) (p, ps) s m = elim (Memᴰ.cases_cons m) [
  | inl e ↦ subst P (sym e) p
  | inr m' ↦ All-at P xs ps s m'
]

pub first_site-eq-some :
    (test : Site → Bool) (ss : List Site) {r : StackMapRecord}
    → first_site test ss ≡ some r
    → (s : Site) × Memᴰ s ss × (test s ≡ true) × (s.rec ≡ r)
unfolding first_site
first_site-eq-some test [] h = cc
first_site-eq-some test (s ∷ ss) h = elim (Bool-cases (test s)) [
  | inl hit ↦ (s, Memᴰ.head refl, hit, ground arith)
  | inr miss ↦
      let (t, m, passes, e) = first_site-eq-some test ss (ground arith) in
      (t, Memᴰ.tail m, passes, e)
]

length-sites_of :
    (sm : StackMap) (i : ℕ) (os : List StackSizeRecord) (rs : List StackMapRecord)
    → Owned sm i os rs
    → length (sites_of os rs) ≡ length rs
unfolding sites_of
length-sites_of sm i [] [] own = refl
length-sites_of sm i (o ∷ os) [] own = refl
length-sites_of sm i [] (r ∷ rs) own = absurd own
length-sites_of sm i (o ∷ os) (r ∷ rs) (own, owns) =
    omega (arith, length-sites_of sm (i + 1) os rs owns)

-- The function of a site is the owner of its record's index.
abbrev pub IsOwned : StackMap → Site → Type 0
IsOwned sm s = get_size_record sm s.rec.index ≡ some s.owner

sites_of-IsOwned :
    (sm : StackMap) (i : ℕ) (os : List StackSizeRecord) (rs : List StackMapRecord)
    → Owned sm i os rs
    → AllFrom (λ j r. r.index ≡ j) i rs
    → All (IsOwned sm) (sites_of os rs)
unfolding sites_of
sites_of-IsOwned sm i [] [] own at = tt
sites_of-IsOwned sm i (o ∷ os) [] own at = tt
sites_of-IsOwned sm i [] (r ∷ rs) own at = absurd own
sites_of-IsOwned sm i (o ∷ os) (r ∷ rs) (own, owns) (at, ats) =
    (ap (get_size_record sm) at ∙ own, sites_of-IsOwned sm (i + 1) os rs owns ats)

module _ (sm : StackMap) (v : IsValid sm) where
  pub length-sites : length (sites sm) ≡ length sm.stk_map_records
  unfolding sites
  length-sites =
      length-sites_of sm 0 (owners sm.stk_size_records) sm.stk_map_records (IsValid-Owned sm v)

  pub sites-IsOwned : (s : Site) → Memᴰ s (sites sm) → IsOwned sm s
  unfolding sites
  sites-IsOwned = All-at (IsOwned sm) (sites sm) (
      sites_of-IsOwned sm 0 (owners sm.stk_size_records) sm.stk_map_records (IsValid-Owned sm v)
        v.map_index)
