-- ===== src/CallStack/Inlined/Restored.antt =====
-- The loop of `get_restored_state` in call_stack_state.c over the call sites of a stack map.
use llvm_guard_handler.Base.{
  if-true, if-false, Bool-cases, tests, ◌≢◌, not64, Option, ℕ, zero, suc, ◌+◌, ◌^◌, ◌≤◌, ◌<◌, ◌≡◌,
  refl, ap, sym, ◌∙◌, inl, inr, true, none, some, List, [], ◌∷◌, arith, ◌==◌, if◌then◌else◌,
  Option-cases, Memᴰ, add64, length, ok, err, Result, ◌⊎◌, ◌>>=◌, null_pointer, count_below,
  count_below-le-length, count_below_lt,
}
use llvm_guard_handler.Elf.{Elf, get_sym_end}
use llvm_guard_handler.StackMap.{StackMapRecord, StackMap}
use llvm_guard_handler.StackMap.Sites.{Site, sites, site_addr, first_site, in_symbol, IsValid}
use llvm_guard_handler.StackMap.Sites.Search.{get_map_record_after_addr-first_site}
use llvm_guard_handler.StackMap.Sites.First.{after, first_rec_after_addr-first_site}
use llvm_guard_handler.StackMap.Sites.Twin.{get_map_record-first_site}
use llvm_guard_handler.StackMap.Sites.Found.{
  All-at, first_site-eq-some, length-sites, sites-IsOwned,
}
use llvm_guard_handler.CallStack.{Frame, CallStackState}
use llvm_guard_handler.CallStack.Inlined.{restored_frame, restored_from, get_restored_state}

module _ (sm : StackMap) where
  -- The record of the twin of a call.
  abbrev pub twin : Site → Option StackMapRecord
  twin s = first_site (λ t. t.rec.patchpoint_id == not64 s.rec.patchpoint_id) (sites sm)

  -- The first call site at `a` or above it, in a function that starts below `a`, in the order of the
  -- records.
  abbrev pub IsNext : ℕ → Site → Type 0
  IsNext a s =
      Memᴰ s (sites sm) × (a ≤ site_addr s) × (first_site (after a) (sites sm) ≡ some s.rec)

module _ (elf : Elf) (sm : StackMap) (start_addr : ℕ) where
  -- The record that counts as the call around that of `s`.
  abbrev pub real : Site → Option StackMapRecord
  real s = first_site (in_symbol (get_sym_end elf) s.rec.patchpoint_id start_addr) (sites sm)

  -- The frame is made for the call site.
  abbrev pub Stands : Frame → Site → Type 0
  Stands f s =
      (t : Site) × Memᴰ t (sites sm)
      × (twin sm s ≡ some t.rec)
      × (real s ≡ some f.real_record)
      × (f.ret_addr ≡ add64 (site_addr t) 13)
      × (f.size ≡ t.owner.stack_size)
      × (f.record_of ≡ s.rec)
      × (f.inlined ≡ true)

  module _ (ppid : ℕ) where
    -- The frames stand for one call site after the other from `a` on, until that of `ppid` or until
    -- there are no more.
    abbrev pub Climbs : ℕ → List Frame → Type 0
    Climbs a [] = first_site (after a) (sites sm) ≡ none
    Climbs a (f ∷ fs) =
        (s : Site) × IsNext sm a s
        × Stands f s
        × (((s.rec.patchpoint_id ≡ ppid) × (fs ≡ []))
            ⊎ ((s.rec.patchpoint_id ≢ ppid) × Climbs (site_addr s + 1) fs))

    -- After `n` frames of sites that are not that of `ppid`, a site has no twin or no call around
    -- it.
    abbrev pub Breaks : ℕ → ℕ → Type 0
    Breaks zero a = (s : Site) × IsNext sm a s × ((twin sm s ≡ none) ⊎ (real s ≡ none))
    Breaks (suc n) a =
        (s : Site) × IsNext sm a s
        × ((f : Frame) × Stands f s)
        × (s.rec.patchpoint_id ≢ ppid)
        × Breaks n (site_addr s + 1)

module _ (elf : Elf) (sm : StackMap) (fresh : Frame) (v : IsValid sm) (start_addr ppid : ℕ) where
  -- A frame is made, or a lookup fails; the next address is just above the call.
  restored_frame_lem :
      (s : Site)
      → Memᴰ s (sites sm)
      → ((frame : Frame) × (restored_frame elf sm fresh start_addr s.rec
            ≡ ok (frame, site_addr s + 1))
          × Stands elf sm start_addr frame s)
        ⊎ ((restored_frame elf sm fresh start_addr s.rec ≡ err null_pointer)
            × ((twin sm s ≡ none) ⊎ (real elf sm start_addr s ≡ none)))
  unfolding restored_frame
  restored_frame_lem s mem =
      let top = All-at (λ t. site_addr t + 1 < 2 ^ 64) (sites sm) v.addr_top s mem in
      let next : add64 (site_addr s) 1 ≡ site_addr s + 1 = omega arith in
      let id = s.rec.patchpoint_id in
      let own = sites-IsOwned sm v s mem in
      let twin_lem = get_map_record-first_site sm v (not64 id) in
      let real_lem = get_map_record_after_addr-first_site (get_sym_end elf) sm id start_addr v in
      elim (Option-cases (twin sm s)) [
        | inl missing ↦ inr (rw (own, twin_lem, missing), inl missing)
        | inr (r, hit) ↦
            let (t, mem', passes, e) = first_site-eq-some _ (sites sm) hit in
            let found : twin sm s ≡ some t.rec = hit ∙ ap some (sym e) in
            let own' = sites-IsOwned sm v t mem' in
            elim (Option-cases (real elf sm start_addr s)) [
              | inl missing ↦ inr (rw (own, twin_lem, found, own', real_lem, missing), inr missing)
              | inr (q, around) ↦ inl (
                record fresh {
                  ret_addr = add64 (site_addr t) 13;
                  size = t.owner.stack_size;
                  record_of = s.rec;
                  real_record = q;
                  inlined = true;
                },
                rw (own, twin_lem, found, own', real_lem, around, next) refl,
                (t, mem', found, around, refl, refl, refl, refl),
              )
            ]
      ]

  round :
      (fuel a : ℕ) (s : Site) (frame : Frame)
      → first_site (after a) (sites sm) ≡ some s.rec
      → restored_frame elf sm fresh start_addr s.rec ≡ ok (frame, site_addr s + 1)
      → restored_from elf sm fresh (suc fuel) start_addr ppid a ≡ (
          if s.rec.patchpoint_id == ppid
          then ok (frame ∷ [])
          else (restored_from elf sm fresh fuel start_addr ppid (site_addr s + 1) >>= λ frames.
              ok (frame ∷ frames)))
  unfolding restored_from
  round fuel a s frame found made = rw (first_rec_after_addr-first_site sm v a, found, made)

  fails :
      (fuel a : ℕ) (s : Site)
      → first_site (after a) (sites sm) ≡ some s.rec
      → restored_frame elf sm fresh start_addr s.rec ≡ err null_pointer
      → restored_from elf sm fresh (suc fuel) start_addr ppid a ≡ err null_pointer
  unfolding restored_from
  fails fuel a s found fault = rw (first_rec_after_addr-first_site sm v a, found, fault)

  stops :
      (fuel a : ℕ)
      → first_site (after a) (sites sm) ≡ none
      → restored_from elf sm fresh (suc fuel) start_addr ppid a ≡ ok []
  unfolding restored_from
  stops fuel a found = rw (first_rec_after_addr-first_site sm v a, found)

  abbrev Ends : ℕ → Result (List Frame) → Type 0
  Ends a r =
      ((fs : List Frame) × (r ≡ ok fs) × Climbs elf sm start_addr ppid a fs)
      ⊎ ((n : ℕ) × (r ≡ err null_pointer) × Breaks elf sm start_addr ppid n a)

  -- A round before the later rounds.
  extend :
      (a : ℕ) (s : Site) (frame : Frame) (q r : Result (List Frame))
      → IsNext sm a s
      → Stands elf sm start_addr frame s
      → r ≡ (
          if s.rec.patchpoint_id == ppid
          then ok (frame ∷ [])
          else (q >>= λ frames. ok (frame ∷ frames)))
      → Ends (site_addr s + 1) q
      → Ends a r
  extend a s frame q r is stands step rest =
      let test = s.rec.patchpoint_id == ppid in
      elim (Bool-cases test) [
        | inl same ↦ inl (
          frame ∷ [],
          step ∙ if-true test _ _ _ same refl,
          (s, is, stands, inl (omega (tests, same), refl)),
        )
        | inr other ↦
            let differs : s.rec.patchpoint_id ≢ ppid = λ e. absurd (omega (tests, other, e)) in
            elim rest [
              | inl (fs, e, climbs) ↦ inl (
                frame ∷ fs,
                step ∙ if-false test _ _ _ other (rw e refl),
                (s, is, stands, inr (differs, climbs)),
              )
              | inr (n, e, breaks) ↦ inr (
                suc n,
                step ∙ if-false test _ _ _ other (rw e refl),
                (s, is, (frame, stands), differs, breaks),
              )
            ]
      ]

  restored_from_lem :
      (fuel a : ℕ)
      → length (sites sm) < fuel + count_below site_addr a (sites sm)
      → Ends a (restored_from elf sm fresh fuel start_addr ppid a)
  restored_from_lem zero a enough =
      absurd (omega (arith, count_below-le-length site_addr a (sites sm)))
  restored_from_lem (suc fuel) a enough = elim (Option-cases (first_site (after a) (sites sm))) [
    | inl nothing ↦ inl ([], stops fuel a nothing, nothing)
    | inr (rec, found) ↦
        let (s, mem, passes, e) = first_site-eq-some (after a) (sites sm) found in
        let found' : first_site (after a) (sites sm) ≡ some s.rec = found ∙ ap some (sym e) in
        let above : a ≤ site_addr s = ground (arith, passes) in
        let more =
          count_below_lt site_addr a (site_addr s + 1) s (sites sm) mem above (omega arith) in
        elim (restored_frame_lem s mem) [
          | inr (fault, why) ↦ inr (0, fails fuel a s found' fault, (s, (mem, above, found'), why))
          | inl (frame, made, stands) ↦
              extend a s frame (restored_from elf sm fresh fuel start_addr ppid (site_addr s + 1)) _
                (mem, above, found') stands (round fuel a s frame found' made)
                (restored_from_lem fuel (site_addr s + 1) (omega arith))
        ]
  ]

-- On a valid stack map `get_restored_state` ends. It takes one call site after the other, each time
-- the first one at the address reached or above it, in a function that starts below that address;
-- the address reached is `start_addr` at first, then the one behind the site. It stops behind a
-- site with the ID `ppid`, or when there is no site, and returns their frames, with their number as
-- the depth. Each frame has the site's record, a return address 13 above the address of the site's
-- twin, the stack size of the twin's function, and as real record that of the first site with the
-- same ID at `start_addr` or above it, in a function that starts at `start_addr` or below it and
-- whose symbol ends above it; it is marked as inlined. Or at one of the sites there is no twin, or
-- no such site for the real record, and it reads through NULL.
pub get_restored_state_total :
    (elf : Elf) (sm : StackMap) (fresh : Frame) (start_addr ppid : ℕ)
    → IsValid sm
    → ((state : CallStackState) × (get_restored_state elf sm fresh start_addr ppid ≡ ok state)
        × (state.depth ≡ length state.frames)
        × Climbs elf sm start_addr ppid start_addr state.frames)
      ⊎ ((n : ℕ) × (get_restored_state elf sm fresh start_addr ppid ≡ err null_pointer)
          × Breaks elf sm start_addr ppid n start_addr)
unfolding get_restored_state
get_restored_state_total elf sm fresh start_addr ppid v =
    elim (restored_from_lem elf sm fresh v start_addr ppid (length sm.stk_map_records + 1)
      start_addr (omega (arith, length-sites sm v))) [
        | inl (fs, e, climbs) ↦
            inl
              (record { frames = fs; depth = length fs }, rw (e, get_restored_state), refl, climbs)
        | inr (n, e, breaks) ↦ inr (n, rw (e, get_restored_state), breaks)
      ]
