-- ===== src/CallStack/Collect/Redirect.antt =====
-- What `collect_map_records` finds for a frame, and where its return address then leads.
use mathlib.Core.List.Memᴰ
use llvm_guard_handler.Base.{
  ℕ, ◌^◌, ◌≤◌, ◌<◌, ◌≡◌, refl, sym, ap, ◌∙◌, ◌⊎◌, inl, inr, Bool, true, Bool-cases, Option-cases,
  some, List, [], ◌∷◌, arith, tests, ◌==◌, add64, add64-lt, not64, not64-not64, length, Memᴰ, ok,
  err, null_pointer, unopt_map_record_not_found,
}
use llvm_guard_handler.Memory.{Memory, read64, write64}
use llvm_guard_handler.Elf.{Elf, get_sym_end}
use llvm_guard_handler.StackMap.{StackMapRecord, StackMap, StackMapPos, patchpoint_call_size}
use llvm_guard_handler.StackMap.Query.{get_map_record, get_unopt_return_addr}
use llvm_guard_handler.StackMap.Sites.{Site, sites, site_addr, first_site, in_symbol, IsValid}
use llvm_guard_handler.StackMap.Sites.Search.{get_map_record_after_addr-first_site}
use llvm_guard_handler.StackMap.Sites.Found.{All-at, first_site-eq-some, sites-IsOwned}
use llvm_guard_handler.StackMap.Sites.First.{after}
use llvm_guard_handler.StackMap.Sites.Twin.{
  IsTwin, get_map_record-first_site, get_unopt_return_addr-IsTwin,
}
use llvm_guard_handler.CallStack.{Frame}
use llvm_guard_handler.CallStack.Collect.{collect_frame}

-- A search does not miss a site that passes.
first_site-finds :
    (test : Site → Bool) (ss : List Site) (s : Site)
    → Memᴰ s ss
    → test s ≡ true
    → (r : StackMapRecord) × (first_site test ss ≡ some r)
unfolding first_site
first_site-finds test [] s m hit = absurd (Memᴰ.not-nil m)
first_site-finds test (x ∷ xs) s m hit = elim (Memᴰ.cases_cons m) [
  | inl e ↦ (x.rec, let here : test x ≡ true = ap test (sym e) ∙ hit in rw here refl)
  | inr m' ↦ elim (Bool-cases (test x)) [
    | inl here ↦ (x.rec, rw here refl)
    | inr miss ↦ let (r, e) = first_site-finds test xs s m' hit in (r, rw miss e)
  ]
]

module _ (elf : Elf) (sm : StackMap) where
  -- The call sites with an ID that stand at `addr` or above, in the symbol that contains `addr`.
  abbrev pub really : ℕ → ℕ → Site → Bool
  really ppid addr s = in_symbol (get_sym_end elf) ppid addr s

  -- Frame `f`, whose return address leads before the call `call` in memory `m`, becomes `f'`, and is
  -- to return behind the call of the twin: `f'` has the record and the size of a function that makes
  -- this call, and the record of the call where it was really made.
  pub record Redirects (m : Memory) (f f' : Frame) (target : ℕ) : Type 0 where
    pub call : StackMapRecord
    pub twin : Site
    pub opt : Site
    pub next : first_site (after (read64 m f.ret_addr)) (sites sm) ≡ some call
    pub twin_site : Memᴰ twin (sites sm)
    pub twin_id : twin.rec.patchpoint_id ≡ not64 call.patchpoint_id
    pub target_addr : target ≡ add64 (site_addr twin) patchpoint_call_size
    pub opt_site : Memᴰ opt (sites sm)
    pub opt_id : opt.rec.patchpoint_id ≡ call.patchpoint_id
    pub real :
        first_site (really call.patchpoint_id f.stored_ret_addr) (sites sm) ≡ some f'.real_record
    pub frame : f' ≡ record f {
      record_of = opt.rec;
      real_record = f'.real_record;
      size = opt.owner.stack_size;
    }

  module _ (v : IsValid sm) (recs : length sm.stk_map_records ≤ 2 ^ 32)
      (funs : length sm.stk_size_records ≤ 2 ^ 32) where
    abbrev pub Outcome : Frame → Memory → Type 0
    Outcome f m =
        ((f' : Frame) × (target : ℕ) × (target < 2 ^ 64)
          × (collect_frame elf sm f m ≡ ok (f', write64 m f.ret_addr target))
          × Redirects m f f' target)
        ⊎ (collect_frame elf sm f m ≡ err null_pointer)
        ⊎ (id : ℕ) × (collect_frame elf sm f m ≡ err (unopt_map_record_not_found id))

    -- Where the position of the twin is known.
    with_twin :
        (f : Frame) (m : Memory) (call : StackMapRecord) (pos : StackMapPos) (t s : Site)
        → first_site (after (read64 m f.ret_addr)) (sites sm) ≡ some call
        → get_unopt_return_addr sm (read64 m f.ret_addr) ≡ ok (some pos)
        → IsTwin sm v (not64 call.patchpoint_id) pos t
        → Memᴰ s (sites sm)
        → s.rec ≡ call
        → Outcome f m
    unfolding collect_frame
    with_twin f m call pos t s next e twin s_in s_rec =
        let ppid = call.patchpoint_id in
        let same : s.rec.patchpoint_id ≡ ppid =
          ap (λ (r : StackMapRecord). r.patchpoint_id) s_rec in
        let small : ppid < 2 ^ 64 =
          rw same at (All-at (λ x. x.rec.patchpoint_id < 2 ^ 64) (sites sm) v.ids s s_in) in
        let back : not64 t.rec.patchpoint_id ≡ ppid =
          ap not64 twin.patchpoint ∙ not64-not64 ppid small in
        let (o_rec, at) =
          first_site-finds (λ x. x.rec.patchpoint_id == ppid) (sites sm) s s_in
            (ground (arith, same)) in
        let (o, o_in, o_id, o_at) =
          first_site-eq-some (λ x. x.rec.patchpoint_id == ppid) (sites sm) at in
        let opt : get_map_record sm ppid ≡ some o.rec =
          get_map_record-first_site sm v ppid ∙ at ∙ ap some (sym o_at) in
        let search =
          get_map_record_after_addr-first_site (get_sym_end elf) sm ppid f.stored_ret_addr v in
        elim (Option-cases (first_site (really ppid f.stored_ret_addr) (sites sm))) [
          | inl none_left ↦
              inr (inl (rw (e, twin.function, twin.call, back, search, none_left, opt) refl))
          | inr (real_rec, real) ↦ inl (
            record f { record_of = o.rec; real_record = real_rec; size = o.owner.stack_size },
            add64 (site_addr t) patchpoint_call_size,
            add64-lt (site_addr t) patchpoint_call_size,
            rw (e, twin.function, twin.call, back, search, real, opt, sites-IsOwned sm v o o_in)
                refl,
            record {
              call = call;
              twin = t;
              opt = o;
              next = next;
              twin_site = twin.site;
              twin_id = twin.patchpoint;
              target_addr = refl;
              opt_site = o_in;
              opt_id = omega (tests, o_id);
              real = real;
              frame = refl;
            },
          )
        ]

    pub collect_frame_lem : (f : Frame) (m : Memory) → Outcome f m
    unfolding collect_frame
    collect_frame_lem f m =
        elim (get_unopt_return_addr-IsTwin sm v (read64 m f.ret_addr) recs funs) [
          | inl (none_left, e) ↦ inr (inl (rw e refl))
          | inr (call, next, inr (none_twin, e)) ↦ inr (inr (not64 call.patchpoint_id, rw e refl))
          | inr (call, next, inl (pos, t, e, twin)) ↦
              let (s, s_in, s_after, s_rec) =
                first_site-eq-some (after (read64 m f.ret_addr)) (sites sm) next in
              with_twin f m call pos t s next e twin s_in s_rec
        ]
