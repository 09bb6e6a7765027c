-- ===== src/Passes/Live/Recorded.antt =====
-- What it means for a value to be live across an instruction, and for a list of values to be what
-- `getLiveRegisters` of src/passes/function_passes/LiveVariablesPass.cpp is to return.
use llvm_guard_handler.Base.{
  ℕ, ◌≡◌, refl, sym, ap, ◌⊎◌, inl, inr, Bool, true, false, Option, none, some, List, [], ◌∷◌, ◌++◌,
  Bool-cases, Memᴰ, subst, ap₂,
}
use mathlib.Core.List.Memᴰ
use llvm_guard_handler.Passes.Ir.{Value, Inst}
use llvm_guard_handler.Passes.Live.{Def, used_below, live_size}

-- The instructions of a function.
abbrev pub instructions : List (List Def) → List Def
instructions [] = []
instructions (ds ∷ dss) = ds ++ instructions dss

-- Each value with its size behind it.
abbrev pub unpair : List (Value × ℕ) → List Value
unpair [] = []
unpair ((v, size) ∷ vs) = v ∷ Value.const size ∷ unpair vs

pub unpair-append : (xs ys : List (Value × ℕ)) → unpair (xs ++ ys) ≡ unpair xs ++ unpair ys
unpair-append [] ys = refl
unpair-append ((v, size) ∷ xs) ys =
    ap (λ (l : List Value). v ∷ Value.const size ∷ l) (unpair-append xs ys)

module _ (dominates : ℕ → ℕ → Bool) (size_of : Value → ℕ) where
  -- An instruction that is used, but not only by instructions that dominate `instr`.
  abbrev pub UsedBelow : ℕ → List (Option ℕ) → Type 0
  UsedBelow instr users = (u : ℕ) × Memᴰ (some u) users × (dominates u instr ≡ false)

  -- `d` has the value `v` live across `instr`, of `size` bytes: its result, which is defined above and
  -- used below `instr`, or the constant that it returns.
  abbrev pub IsLive : ℕ → Def → Value → ℕ → Type 0
  IsLive instr d v size =
      ((dominates d.number instr ≡ true)
        × UsedBelow instr d.users
        × (v ≡ Value.local d.number)
        × (size ≡ live_size dominates size_of d))
      ⊎ ((c : ℕ) × (d.inst ≡ Inst.ret (some (Value.const c)))
          × ((d.users ≡ []) ⊎ (dominates d.number instr ≡ false))
          × (v ≡ Value.const c)
          × (size ≡ size_of (Value.const c)))

  -- The values `vs` are those that instructions of `ds` have live across `instr`, with their sizes.
  pub record Recorded (instr : ℕ) (ds : List Def) (vs : List Value) : Type 0 where
    pub pairs : List (Value × ℕ)
    pub values : vs ≡ unpair pairs
    pub sound :
        (v : Value) (size : ℕ)
        → Memᴰ (v, size) pairs
        → (d : Def) × Memᴰ d ds × IsLive instr d v size
    pub complete :
        (d : Def) (v : Value) (size : ℕ) → Memᴰ d ds → IsLive instr d v size → Memᴰ (v, size) pairs

  pub used_below-UsedBelow :
      (instr : ℕ) (us : List (Option ℕ))
      → used_below dominates size_of instr us ≡ true
      → UsedBelow instr us
  unfolding used_below
  used_below-UsedBelow instr [] e = cc
  used_below-UsedBelow instr (none ∷ us) e =
      let (u, m, below) = used_below-UsedBelow instr us e in (u, Memᴰ.tail m, below)
  used_below-UsedBelow instr (some u ∷ us) e = elim (Bool-cases (dominates u instr)) [
    | inl above ↦
        let (w, m, below) = used_below-UsedBelow instr us (rw (above, used_below) at e) in
        (w, Memᴰ.tail m, below)
    | inr below ↦ (u, Memᴰ.head refl, below)
  ]

  pub UsedBelow-used_below :
      (instr : ℕ) (us : List (Option ℕ)) (u : ℕ)
      → Memᴰ (some u) us
      → dominates u instr ≡ false
      → used_below dominates size_of instr us ≡ true
  unfolding used_below
  UsedBelow-used_below instr [] u m below = absurd (Memᴰ.not-nil m)
  UsedBelow-used_below instr (none ∷ us) u m below = elim (Memᴰ.cases_cons m) [
    | inl e ↦ cc
    | inr m' ↦ UsedBelow-used_below instr us u m' below
  ]
  UsedBelow-used_below instr (some w ∷ us) u m below = elim (Bool-cases (dominates w instr)) [
    | inl above ↦ elim (Memᴰ.cases_cons m) [
      | inl e ↦ cc
      | inr m' ↦ rw above (UsedBelow-used_below instr us u m' below)
    ]
    | inr here ↦ rw here refl
  ]

  pub none-Recorded :
      (instr : ℕ) (d : Def) (vs : List Value)
      → vs ≡ []
      → ((v : Value) (size : ℕ) → IsLive instr d v size → ⊥)
      → Recorded instr (d ∷ []) vs
  none-Recorded instr d vs e never = record {
    pairs = [];
    values = e;
    sound = λ v size m. absurd (Memᴰ.not-nil m);
    complete = λ d' v size m live.
        absurd
          (never v size (subst (λ (x : Def). IsLive instr x v size) (Memᴰ.eq_of_singleton m) live));
  }

  pub one-Recorded :
      (instr : ℕ) (d : Def) (vs : List Value) (v₀ : Value) (size₀ : ℕ)
      → vs ≡ v₀ ∷ Value.const size₀ ∷ []
      → IsLive instr d v₀ size₀
      → ((v : Value) (size : ℕ) → IsLive instr d v size → (v ≡ v₀) × (size ≡ size₀))
      → Recorded instr (d ∷ []) vs
  one-Recorded instr d vs v₀ size₀ e live only = record {
    pairs = (v₀, size₀) ∷ [];
    values = e;
    sound = λ v size m.
        let same = Memᴰ.eq_of_singleton m in
        (d, Memᴰ.head refl, subst (λ (p : Value × ℕ). IsLive instr d p.0 p.1) (sym same) live);
    complete = λ d' v size m live'.
        let (ev, es) =
          only v size (subst (λ (x : Def). IsLive instr x v size) (Memᴰ.eq_of_singleton m) live') in
        Memᴰ.head (ap₂ (λ (x : Value) (y : ℕ). (x, y)) ev es);
  }

  pub append-Recorded :
      (instr : ℕ) (ds es : List Def) (vs ws : List Value)
      → Recorded instr ds vs
      → Recorded instr es ws
      → Recorded instr (ds ++ es) (vs ++ ws)
  append-Recorded instr ds es vs ws r s = record {
    pairs = r.pairs ++ s.pairs;
    values = rw (r.values, s.values) (sym (unpair-append r.pairs s.pairs));
    sound = λ v size m. elim (Memᴰ.append_cases r.pairs m) [
      | inl here ↦ let (d, at, live) = r.sound v size here in (d, Memᴰ.append_left es at, live)
      | inr here ↦ let (d, at, live) = s.sound v size here in (d, Memᴰ.append_right ds at, live)
    ];
    complete = λ d v size m live. elim (Memᴰ.append_cases ds m) [
      | inl here ↦ Memᴰ.append_left s.pairs (r.complete d v size here live)
      | inr here ↦ Memᴰ.append_right r.pairs (s.complete d v size here live)
    ];
  }

  pub no_instructions : (instr : ℕ) → Recorded instr [] []
  no_instructions instr = record {
    pairs = [];
    values = refl;
    sound = λ v size m. absurd (Memᴰ.not-nil m);
    complete = λ d v size m live. absurd (Memᴰ.not-nil m);
  }
