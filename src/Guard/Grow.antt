-- ===== src/Guard/Grow.antt =====
-- The recursion of `jump_inlined` in guard.c, which grows the stack.
use mathlib.Core.List
use llvm_guard_handler.Base.{
  true, false, ℕ, zero, suc, ◌<◌, ◌≡◌, refl, ◌∙◌, inl, inr, some, arith, tests, ltb, if◌then◌else◌,
  if-true, if-false, Bool-cases, sub64, get_elem?, get_last?, ok, err, out_of_fuel, ◌≤◌,
}
use llvm_guard_handler.Memory.{Memory}
use llvm_guard_handler.CallStack.{Frame, CallStackState, RestoredSegment, RegNum}
use llvm_guard_handler.Guard.{Globals, Exit, install, jump_inlined}

-- The stack pointer in the `n`-th call from the one with stack pointer `rsp` on.
abbrev pub lowered : ℕ → ℕ → ℕ → ℕ
lowered call_size rsp zero = rsp
lowered call_size rsp (suc n) = lowered call_size (sub64 rsp call_size) n

module _ (u : RegNum) (call_size : ℕ) (globals : Globals) (state : CallStackState)
    (seg : RestoredSegment) (m : Memory) (last first : Frame) (main_bp : ℕ) where
  abbrev installed : Exit
  installed = install globals first (List.tail state.frames) main_bp seg m

  round :
      (fuel rsp : ℕ)
      → get_last? state.frames ≡ some last
      → get_elem? last.registers u.rbp ≡ some main_bp
      → get_elem? state.frames 0 ≡ some first
      → jump_inlined u call_size (suc fuel) rsp globals state seg m ≡ (
          if ltb (sub64 main_bp seg.total_size) rsp
          then jump_inlined u call_size fuel (sub64 rsp call_size) globals state seg m
          else ok installed)
  unfolding jump_inlined
  round fuel rsp el er ef = rw (el, er, ef)

  -- The highest stack pointer below which there is room for the segment under main's base pointer.
  abbrev pub limit : ℕ
  limit = sub64 main_bp seg.total_size

  abbrev Short : ℕ → ℕ → Type 0
  Short rsp n =
      (fuel : ℕ)
      → fuel ≤ n
      → jump_inlined u call_size fuel rsp globals state seg m ≡ err out_of_fuel

  abbrev Enough : ℕ → ℕ → Type 0
  Enough rsp n =
      (fuel : ℕ) → n < fuel → jump_inlined u call_size fuel rsp globals state seg m ≡ ok installed

  abbrev High : ℕ → ℕ → Type 0
  High rsp n = (k : ℕ) → k < n → limit < lowered call_size rsp k

  -- How the calls from the one with stack pointer `rsp` on end: after `n` calls the stack is large
  -- enough for the first time, and frames are installed just if the fuel suffices for these calls.
  abbrev pub Grows : ℕ → Type 0
  Grows rsp =
      (n : ℕ) × (n ≤ rsp)
      × (lowered call_size rsp n ≤ limit)
      × High rsp n
      × Short rsp n
      × Enough rsp n

  Short-zero : (rsp : ℕ) → Short rsp 0
  unfolding jump_inlined
  Short-zero rsp zero le = refl
  Short-zero rsp (suc fuel) le = absurd (omega arith)

  Short-suc :
      (rsp n : ℕ)
      → get_last? state.frames ≡ some last
      → get_elem? last.registers u.rbp ≡ some main_bp
      → get_elem? state.frames 0 ≡ some first
      → ltb limit rsp ≡ true
      → Short (sub64 rsp call_size) n
      → Short rsp (suc n)
  unfolding jump_inlined
  Short-suc rsp n el er ef grow short zero le = refl
  Short-suc rsp n el er ef grow short (suc fuel) le =
      round fuel rsp el er ef ∙ if-true (ltb limit rsp) _ _ _ grow (short fuel (omega arith))

  Enough-zero :
      (rsp : ℕ)
      → get_last? state.frames ≡ some last
      → get_elem? last.registers u.rbp ≡ some main_bp
      → get_elem? state.frames 0 ≡ some first
      → ltb limit rsp ≡ false
      → Enough rsp 0
  Enough-zero rsp el er ef stop zero lt = absurd (omega arith)
  Enough-zero rsp el er ef stop (suc fuel) lt =
      round fuel rsp el er ef ∙ if-false (ltb limit rsp) _ _ _ stop refl

  Enough-suc :
      (rsp n : ℕ)
      → get_last? state.frames ≡ some last
      → get_elem? last.registers u.rbp ≡ some main_bp
      → get_elem? state.frames 0 ≡ some first
      → ltb limit rsp ≡ true
      → Enough (sub64 rsp call_size) n
      → Enough rsp (suc n)
  Enough-suc rsp n el er ef grow enough zero lt = absurd (omega arith)
  Enough-suc rsp n el er ef grow enough (suc fuel) lt =
      round fuel rsp el er ef ∙ if-true (ltb limit rsp) _ _ _ grow (enough fuel (omega arith))

  High-suc : (rsp n : ℕ) → limit < rsp → High (sub64 rsp call_size) n → High rsp (suc n)
  High-suc rsp n more high zero lt = more
  High-suc rsp n more high (suc k) lt = high k (omega arith)

  lower : (rsp : ℕ) → 0 < call_size → call_size ≤ rsp → sub64 rsp call_size < rsp
  lower rsp pos le = omega arith

  ends :
      (bound rsp : ℕ)
      → rsp < bound
      → get_last? state.frames ≡ some last
      → get_elem? last.registers u.rbp ≡ some main_bp
      → get_elem? state.frames 0 ≡ some first
      → 0 < call_size
      → call_size ≤ limit
      → Grows rsp
  ends zero rsp lt el er ef pos fits = absurd (omega arith)
  ends (suc bound) rsp lt el er ef pos fits = elim (Bool-cases (ltb limit rsp)) [
    | inr stop ↦ (
      0,
      omega arith,
      omega (tests, stop),
      (λ k lt. absurd (omega arith)),
      Short-zero rsp,
      Enough-zero rsp el er ef stop,
    )
    | inl grow ↦
        let more : limit < rsp = omega (tests, grow) in
        let less = lower rsp pos (omega arith) in
        let (n, le, low, high, short, enough) =
          ends bound (sub64 rsp call_size) (omega arith) el er ef pos fits in
        (
          suc n,
          omega arith,
          low,
          High-suc rsp n more high,
          Short-suc rsp n el er ef grow short,
          Enough-suc rsp n el er ef grow enough,
        )
  ]

  -- If the state has frames, of which the last has main's base pointer in rbp, calls take up stack,
  -- and a call fits below the highest stack pointer that leaves room for the segment under main's
  -- base pointer, then after a number of calls of `jump_inlined`, at most the stack pointer, the
  -- stack is low enough, and it is not before any of these calls; fuel for no more than these calls
  -- is not enough, and with more fuel the run ends and installs the frames.
  pub jump_inlined-install :
      (rsp : ℕ)
      → get_last? state.frames ≡ some last
      → get_elem? last.registers u.rbp ≡ some main_bp
      → get_elem? state.frames 0 ≡ some first
      → 0 < call_size
      → call_size ≤ sub64 main_bp seg.total_size
      → (n : ℕ) × (n ≤ rsp)
        × (lowered call_size rsp n ≤ sub64 main_bp seg.total_size)
        × ((k : ℕ) → k < n → sub64 main_bp seg.total_size < lowered call_size rsp k)
        × ((fuel : ℕ)
            → fuel ≤ n
            → jump_inlined u call_size fuel rsp globals state seg m ≡ err out_of_fuel)
        × ((fuel : ℕ)
            → n < fuel
            → jump_inlined u call_size fuel rsp globals state seg m
              ≡ ok (install globals first (List.tail state.frames) main_bp seg m))
  jump_inlined-install rsp el er ef pos fits = ends (suc rsp) rsp (omega arith) el er ef pos fits
