-- ===== src/Guard/Inlined.antt =====
-- `__guard_failure` of guard.c from its start to the jump, where the guard was inlined.
use llvm_guard_handler.Base.{
  sub64, ◌≤◌, ℕ, ◌+◌, ◌^◌, ◌<◌, ◌≡◌, refl, sym, ap, ◌∙◌, subst, true, false, ◌&&◌, some, List, [],
  ◌∷◌, ◌++◌, map, leb, ltb, length, length-append, suc, arith, ok,
}
use llvm_guard_handler.Memory.{Memory}
use llvm_guard_handler.Elf.{get_sym_end, get_sym_start}
use llvm_guard_handler.StackMap.{StackMapRecord, StackSizeRecord, StackMap}
use llvm_guard_handler.StackMap.Query.{call_addr, get_size_record_in_func}
use llvm_guard_handler.CallStack.{Frame, CallStackState}
use llvm_guard_handler.CallStack.Frames.Insert.{insert_frames-front}
use llvm_guard_handler.CallStack.Inlined.{get_next_patchpoint, get_restored_state}
use llvm_guard_handler.CallStack.Inlined.Aliasing.{collect_inlined_frames_none}
use llvm_guard_handler.CallStack.Locations.Pairs.{Job}
use llvm_guard_handler.Guard.{
  Globals, Environment, fail_frame, add_fail_frame, resume, guard_failure,
}
use llvm_guard_handler.Guard.Machine.{Cpu}
use llvm_guard_handler.Guard.Resume.{Found, Stacked}
use llvm_guard_handler.CallStack.Frames.{get_total_stack_size}
use llvm_guard_handler.Guard.Rebuilt.{Rebuildable, Rebuilds, resume-Rebuilt}

-- The frames of the calls around the guard take over where the failed guard's frame stands.
abbrev pub around : Frame → List Frame → List Frame
around fail restored =
    map (λ (f : Frame). record f { real_bp = fail.bp; registers = fail.registers }) restored

length-around :
    (fail : Frame) (restored : List Frame) → length (around fail restored) ≡ length restored
length-around fail [] = refl
length-around fail (f ∷ restored) = ap suc (length-around fail restored)

module _ (env : Environment) (sm : StackMap) where
  open env use {elf, callback_ret_addr, fresh}

  -- The handler was not called from the function of the guard, but from `real_fun`, in which calls
  -- were inlined around the guard whose frames are `restored`.
  pub record Inlined (opt_fun real_fun : StackSizeRecord) (ppid : ℕ) (restored : List Frame)
      : Type 0 where
    pub elsewhere :
        (leb opt_fun.fun_addr callback_ret_addr
          && ltb callback_ret_addr (get_sym_end elf opt_fun.fun_addr))
        ≡ false
    pub real_found :
        get_size_record_in_func sm (get_sym_start elf callback_ret_addr) ≡ some real_fun
    pub next_found : get_next_patchpoint sm callback_ret_addr real_fun ≡ ok ppid
    pub restores :
        get_restored_state elf sm fresh callback_ret_addr ppid
        ≡ ok (record { frames = restored; depth = length restored })

  add_fail_frame-Inlined :
      (opt_fun real_fun : StackSizeRecord) (ppid : ℕ) (restored : List Frame) (fail : Frame)
      (frames : List Frame)
      → Inlined opt_fun real_fun ppid restored
      → length frames + length restored + 1 < 2 ^ 32
      → add_fail_frame env sm opt_fun fail (record { frames = frames; depth = length frames }) false
        ≡ ok (
          record {
            frames = record fail { inlined = true } ∷ (around fail restored ++ frames);
            depth = length (around fail restored ++ frames) + 1;
          },
          true,
        )
  unfolding add_fail_frame
  add_fail_frame-Inlined opt_fun real_fun ppid restored fail frames i small =
      let new = around fail restored in
      let count = length-around fail restored in
      let both : length frames + length new ≡ length (new ++ frames) =
        omega (arith, length-append new frames) in
      let first = insert_frames-front fresh frames new (omega arith) in
      let then_fail =
        insert_frames-front fresh (new ++ frames) (record fail { inlined = true } ∷ [])
          (omega arith) in
      rw (i.elsewhere, i.real_found, i.next_found, i.restores, first, both, then_fail) refl

  -- The handler gets to its end with the frames of the guard and of the calls around it in front.
  starts_resume :
      (m : Memory) (sm_id : ℕ) (opt unopt : StackMapRecord)
      (opt_fun unopt_fun real_fun : StackSizeRecord) (ppid : ℕ) (restored stack : List Frame)
      (caller : Frame) (outer : List Frame) (m' : Memory) (fuel : ℕ) (globals : Globals)
      → Found env m sm sm_id opt unopt opt_fun unopt_fun
      → Stacked env m sm stack (caller ∷ outer) m'
      → Inlined opt_fun real_fun ppid restored
      → length (caller ∷ outer) + length restored + 1 < 2 ^ 32
      → let fail = fail_frame opt opt_fun unopt_fun caller in
        let frames = around fail restored ++ (caller ∷ outer) in
        guard_failure env fuel sm_id globals m
        ≡ resume env sm
            (call_addr unopt_fun unopt)
            (record { frames = record fail { inlined = true } ∷ frames; depth = length frames + 1 })
            true
            globals
            m'
            fuel
  unfolding guard_failure
  starts_resume m sm_id opt unopt opt_fun unopt_fun real_fun ppid restored stack caller outer m'
        fuel globals k s i small =
      let fail = fail_frame opt opt_fun unopt_fun caller in
      let none_inlined =
        collect_inlined_frames_none elf sm fresh env.moved
          (record { frames = caller ∷ outer; depth = length (caller ∷ outer) }) s.own in
      rw
        (
          k.found,
          k.mapped,
          k.parsed,
          k.opt_found,
          k.unopt_found,
          k.unopt_owner,
          k.opt_owner,
          s.unwound,
          s.collected,
          none_inlined,
          add_fail_frame-Inlined opt_fun real_fun ppid restored fail (caller ∷ outer) i small,
        )
        refl

  -- `__guard_failure` is run for a guard that was inlined, with these conditions: the stack map
  -- has records of the guard and of its twin; `collect_map_records` returns, and every frame but
  -- the last then returns into the function of its record; the handler returns into another
  -- function than the guard's, for which the frames of the calls around the guard are found; there
  -- are fewer than 2 ^ 32 frames; the frames of the guard, of these calls and of the stack have
  -- room for base pointers in the segment and at main's base pointer, where no address wraps and
  -- which do not meet; main's frame and the return addresses are outside the segment; the live
  -- values can be moved as `restore_unopt_stack` needs it, to places that do not meet the return
  -- addresses and saved base pointers; calls take up stack, a call fits below the highest stack
  -- pointer that leaves room for the segment under main's base pointer, and the fuel exceeds the
  -- stack pointer. Then it ends at `restore_inlined`: every live value is in its place; the stack, with
  -- the frames of the calls around the guard, is laid out from main's base pointer on with all
  -- return addresses and all saved base pointers but the last, and other bytes of the segment
  -- stand at the same offset of it; and `restore_inlined` goes to the address of the twin's
  -- record, with rbp at the first saved base pointer, rsp at main's, and `r` the registers of the
  -- first frame.
  pub guard_failure-Rebuilds :
      (m : Memory) (sm_id : ℕ) (opt unopt : StackMapRecord)
      (opt_fun unopt_fun real_fun : StackSizeRecord) (ppid : ℕ) (restored stack : List Frame)
      (caller : Frame) (outer : List Frame) (m' : Memory) (g last : Frame) (fs : List Frame)
      (main_bp : ℕ) (jss : List (List Job)) (fuel : ℕ) (globals : Globals) (cpu : Cpu)
      → Found env m sm sm_id opt unopt opt_fun unopt_fun
      → Stacked env m sm stack (caller ∷ outer) m'
      → Inlined opt_fun real_fun ppid restored
      → length (caller ∷ outer) + length restored + 1 < 2 ^ 32
      → let fail = fail_frame opt opt_fun unopt_fun caller in
        let first = record fail { inlined = true } in
        around fail restored ++ (caller ∷ outer) ≡ g ∷ fs
        → Rebuildable env sm m' first g last fs (length (g ∷ fs) + 1) main_bp jss
        → 0 < env.call_size
        → (let all : CallStackState = record {
          frames = first ∷ g ∷ fs;
          depth = length (g ∷ fs) + 1;
        } in
            env.call_size ≤ sub64 main_bp (get_total_stack_size all))
        → env.rsp < fuel
        → Rebuilds env sm m' first g last fs
            (length (g ∷ fs) + 1)
            main_bp
            jss
            (call_addr unopt_fun unopt)
            cpu
            (guard_failure env fuel sm_id globals m)
  guard_failure-Rebuilds m sm_id opt unopt opt_fun unopt_fun real_fun ppid restored stack caller
        outer m' g last fs main_bp jss fuel globals cpu k s i small shape ready pos fits enough =
      let fail = fail_frame opt opt_fun unopt_fun caller in
      let first = record fail { inlined = true } in
      let addr = call_addr unopt_fun unopt in
      let state = λ (x : List Frame).
        let st : CallStackState = record { frames = first ∷ x; depth = length x + 1 } in st in
      let begin =
        starts_resume m sm_id opt unopt opt_fun unopt_fun real_fun ppid restored stack caller outer
          m' fuel globals k s i small in
      let known =
        ap (λ (x : List Frame). resume env sm addr (state x) true globals m' fuel) shape in
      subst (Rebuilds env sm m' first g last fs (length (g ∷ fs) + 1) main_bp jss addr cpu)
        (sym (begin ∙ known))
        (resume-Rebuilt env sm m' first g last fs (length (g ∷ fs) + 1) main_bp jss globals addr
          fuel cpu ready pos fits enough)
