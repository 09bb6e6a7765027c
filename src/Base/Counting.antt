-- ===== src/Base/Counting.antt =====
-- The elements of a list below a bound, counted: the measure of loops that meet another element in
-- every round.
use Prim.Native.Nat.{ℕ, ◌+◌, ◌≤◌, ◌<◌}
use mathlib.Core.Logic.{inl, inr}
use mathlib.Core.List.{List, [], ◌∷◌, Memᴰ}
use mathlib.Core.List.Memᴰ
use native.Mathlib.Omega.{arith}
use llvm_guard_handler.Base.Tests.{ltb, if◌then◌else◌}
use llvm_guard_handler.Base.Lists.{length}

module _ {A : Type 0} (d : A → ℕ) where
  abbrev pub count_below : ℕ → List A → ℕ
  count_below b [] = 0
  count_below b (x ∷ xs) = (if ltb (d x) b then 1 else 0) + count_below b xs

  pub count_below-le-length : (b : ℕ) (xs : List A) → count_below b xs ≤ length xs
  count_below-le-length b [] = omega arith
  count_below-le-length b (x ∷ xs) = ground (arith, count_below-le-length b xs)

  pub count_below_mono : (a b : ℕ) (xs : List A) → a ≤ b → count_below a xs ≤ count_below b xs
  count_below_mono a b [] h = omega arith
  count_below_mono a b (x ∷ xs) h = ground (arith, count_below_mono a b xs h)

  -- An element at `a` or above it and below `b` makes a difference.
  pub count_below_lt :
      (a b : ℕ) (x : A) (xs : List A)
      → Memᴰ x xs
      → a ≤ d x
      → d x < b
      → count_below a xs < count_below b xs
  count_below_lt a b x [] m lo hi = absurd (Memᴰ.not-nil m)
  count_below_lt a b x (y ∷ ys) m lo hi = elim (Memᴰ.cases_cons m) [
    | inl e ↦
        let lo' : a ≤ d y = rw (← e) lo in
        let hi' : d y < b = rw (← e) hi in ground (arith, count_below_mono a b ys)
    | inr m' ↦ ground (arith, count_below_lt a b x ys m' lo hi)
  ]
