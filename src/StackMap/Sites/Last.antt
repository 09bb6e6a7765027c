-- ===== src/StackMap/Sites/Last.antt =====
-- `stmap_get_last_record` of stmap.c on the call sites.
use mathlib.Core.List.{Memᴰ}
use llvm_guard_handler.Base.{
  ℕ, ◌+◌, ◌≤◌, ◌≡◌, refl, inl, inr, ◌≢◌, ◌&&◌, Option, none, some, List, [], ◌∷◌, arith, ltb, ◌==◌,
  Bool-cases, All,
}
use llvm_guard_handler.StackMap.{StackMapRecord, StackSizeRecord, StackMap}
use llvm_guard_handler.StackMap.Query.{call_addr, find_last, get_last_record}
use llvm_guard_handler.StackMap.Sites.{Site, owners, sites_of, sites, site_addr, IsValid}
use llvm_guard_handler.StackMap.Sites.Search.{site, Owned, IsValid-Owned}

-- Every call site of function `target` stands at or below `top`.
abbrev pub Below : ℕ → ℕ → List Site → Type 0
Below target top = All (λ s. s.owner.index ≡ target → site_addr s ≤ top)

-- What a call for function `target` over the call sites `ss` returns.
abbrev pub IsLast : List Site → ℕ → Option StackMapRecord → Type 0
IsLast ss target none = All (λ s. s.owner.index ≢ target) ss
IsLast ss target (some l) =
    (s : Site) × (s.rec ≡ l) × (s.owner.index ≡ target) × Memᴰ s ss × Below target (site_addr s) ss

module _ (sm : StackMap) (target : ℕ) (Q : Site → Type 0) where
  -- `max_addr` and `last_rec` between two rounds.
  abbrev Best : ℕ → Option StackMapRecord → Type 0
  Best top none = top ≡ 0
  Best top (some l) =
      (s : Site) × (s.rec ≡ l) × (s.owner.index ≡ target) × (site_addr s ≡ top) × Q s

  abbrev Outcome : ℕ → List Site → Option StackMapRecord → Type 0
  Outcome max_addr ss out = (top : ℕ) × Best top out × (max_addr ≤ top) × Below target top ss

  find_last_lem :
      (i : ℕ) (os : List StackSizeRecord) (rs : List StackMapRecord)
      → Owned sm i os rs
      → All Q (sites_of os rs)
      → (max_addr : ℕ) (last_rec : Option StackMapRecord) → Best max_addr last_rec
      → Outcome max_addr (sites_of os rs) (find_last sm target i rs max_addr last_rec)
  unfolding find_last sites_of
  find_last_lem i [] [] own q m l best = (m, best, omega arith, tt)
  find_last_lem i (o ∷ os) [] own q m l best = (m, best, omega arith, tt)
  find_last_lem i [] (r ∷ rs) own q m l best = absurd own
  find_last_lem i (o ∷ os) (r ∷ rs) (own, owns) (q, qs) m l best =
      rw (own, find_last)
        (elim (Bool-cases ((o.index == target) && ltb m (call_addr o r))) [
          | inl better ↦
              let (top, out, le, below) =
                find_last_lem (i + 1) os rs owns qs (call_addr o r) (some r)
                  (site o r, refl, ground arith, refl, q) in
              rw better (top, out, ground arith, (λ e. le, below))
          | inr worse ↦
              let (top, out, le, below) = find_last_lem (i + 1) os rs owns qs m l best in
              rw worse (top, out, le, (λ e. ground arith, below))
        ])

All-of_mem :
    {P : Site → Type 0} (all all' : List Site)
    → ((s : Site) → Memᴰ s all' → Memᴰ s all)
    → ((s : Site) → Memᴰ s all → P s)
    → All P all'
All-of_mem all [] sub p = tt
All-of_mem all (s ∷ ss) sub p =
    (p s (sub s (Memᴰ.head refl)), All-of_mem all ss (λ t m. sub t (Memᴰ.tail m)) p)

All-and :
    {P Q R : Site → Type 0}
    → ((s : Site) → P s → Q s → R s)
    → (ss : List Site) → All P ss
    → All Q ss
    → All R ss
All-and f [] p q = tt
All-and f (s ∷ ss) (p, ps) (q, qs) = (f s p q, All-and f ss ps qs)

-- In a valid stack map `stmap_get_last_record` returns the record of a call site of the given
-- function at whose address or below all its call sites stand, and NULL only if the function has
-- no call site.
pub get_last_record-IsLast :
    (sm : StackMap) (target : StackSizeRecord)
    → IsValid sm
    → IsLast (sites sm) target.index (get_last_record sm target)
unfolding get_last_record
get_last_record-IsLast sm target v =
    finish (find_last sm target.index 0 sm.stk_map_records 0 none) (
      unfold sites in
      find_last_lem sm target.index (λ s. Memᴰ s (sites sm)) 0 (owners sm.stk_size_records)
        sm.stk_map_records (IsValid-Owned sm v)
        (All-of_mem (sites sm) (sites sm) (λ s m. m) (λ s m. m)) 0 none refl)
  where
    finish :
        (out : Option StackMapRecord)
        → Outcome sm target.index (λ s. Memᴰ s (sites sm)) 0 (sites sm) out
        → IsLast (sites sm) target.index out
    finish none (top, at, le, below) =
        All-and (λ s pos under e. absurd (omega (arith, under e))) (sites sm) v.addr_pos below
    finish (some l) (top, (s, e, own, at, mem), le, below) = (s, e, own, mem, rw at below)
