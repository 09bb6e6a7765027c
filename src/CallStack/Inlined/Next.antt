-- ===== src/CallStack/Inlined/Next.antt =====
-- The loop of `get_next_patchpoint` in call_stack_state.c over the patchpoint IDs of a function.
use llvm_guard_handler.Base.{
  ◌≢◌, All, Result, ℕ, zero, suc, ◌+◌, ◌-◌, ◌%◌, ◌^◌, ◌≤◌, ◌<◌, ◌≡◌, ◌&&◌, Option, none, some, ◌==◌,
  Memᴰ, sub64, length, ok, ◌⊎◌,
}
use llvm_guard_handler.StackMap.{StackMapRecord, StackMap}
use llvm_guard_handler.StackMap.Sites.{Site, sites, first_site, site_addr, IsValid}
use llvm_guard_handler.StackMap.Sites.Last.{Below}

module _ (sm : StackMap) where
  -- The record that the loop looks for behind the one of `s`: the previous ID, in a function that
  -- starts where that of `s` does.
  abbrev pub earlier : Site → Option StackMapRecord
  earlier s =
      first_site
        (λ x.
          (x.rec.patchpoint_id == sub64 s.rec.patchpoint_id 1)
          && (x.owner.fun_addr == s.owner.fun_addr))
        (sites sm)

  abbrev pub IsEarlier : Site → Site → Type 0
  IsEarlier s u = Memᴰ u (sites sm) × (earlier s ≡ some u.rec)

  -- The call sites from `s` to `t`, all but `s` itself at `addr` or above it.
  abbrev pub Walks : ℕ → ℕ → Site → Site → Type 0
  Walks addr zero s t = s ≡ t
  Walks addr (suc n) s t = (u : Site) × IsEarlier s u × (addr ≤ site_addr u) × Walks addr n u t

  -- There is nothing behind `t`, or it stands below `addr`.
  abbrev pub Stops : ℕ → Site → Type 0
  Stops addr t = (earlier t ≡ none) ⊎ ((u : Site) × IsEarlier t u × (site_addr u < addr))

  -- What is returned at the site `s`.
  abbrev pub Reached : ℕ → Site → Result ℕ → Type 0
  Reached addr s r =
      (t : Site) × (n : ℕ) × Walks addr n s t × Stops addr t × (r ≡ ok t.rec.patchpoint_id)

module _ (sm : StackMap) (v : IsValid sm) (addr p : ℕ) (small : length (sites sm) < 2 ^ 64)
    (p-lt : p < 2 ^ 64) where
  -- How many steps back from `p` the ID of a site is.
  abbrev back : Site → ℕ
  back s = (p + 2 ^ 64 - s.rec.patchpoint_id) % 2 ^ 64

-- What `get_next_patchpoint` returns for the last record of the function with index `index`.
abbrev pub NextPatchpoint : StackMap → ℕ → ℕ → Result ℕ → Type 0
NextPatchpoint sm addr index r =
    ((r ≡ ok 0) × All (λ s. s.owner.index ≢ index) (sites sm))
    ⊎ ((s : Site) × Memᴰ s (sites sm)
        × (s.owner.index ≡ index)
        × Below index (site_addr s) (sites sm)
        × Reached sm addr s r)
