-- ===== src/Base/Errors.antt =====
-- Calls that may end the process.
use mathlib.Core.Path.{◌≡◌, refl}
use mathlib.Core.Logic.{◌⊎◌, inl, inr}
use mathlib.Core.Option.{Option, none, some}
use mathlib.Core.Bool.{Bool, true, false}
use Prim.Native.Nat.{ℕ}

-- How a run can end early. The first group are the calls of `errx` and `assert`, by their message;
-- `null_pointer` is a read through NULL, `use_after_free` a read of an array that `realloc` moved,
-- which C leaves undefined, `out_of_bounds` an index past an array, `invalid_free` a `free` of what is
-- no live block, `uninitialised` a read of a slot that nothing was written to, `failed_mapping` a read
-- through what a failed `mmap` returns, and `out_of_fuel` says that a bounded loop of the model was
-- given too few rounds.
pub data Error : Type 0 where
  no_stack_map_after_call : Error
  invalid_register_number : ℕ → Error
  not_implemented : Error
  unknown_location : ℕ → Error
  unopt_map_record_not_found : ℕ → Error
  unopt_size_record_not_found : Error
  size_record_not_found : Error
  section_not_found : Error
  no_executable_path : Error
  stack_map_record_not_found : Error
  record_not_found : Error
  assertion_failed : Error
  null_pointer : Error
  out_of_bounds : Error
  use_after_free : Error
  invalid_free : Error
  uninitialised : Error
  failed_mapping : Error
  out_of_fuel : Error

pub data Result {ℓ} (A : Type ℓ) : Type ℓ where
  err : Error → Result A
  ok : A → Result A

pub Result-cases {ℓ} :
    {A : Type ℓ} (r : Result A) → ((x : A) × (r ≡ ok x)) ⊎ ((why : Error) × (r ≡ err why))
Result-cases (err why) = inr (why, refl)
Result-cases (ok x) = inl (x, refl)

module _ {ℓ κ} {A : Type ℓ} {B : Type κ} where
  -- What follows a call, which is reached only if the call returns.
  infixl 5 ◌>>=◌
  abbrev pub ◌>>=◌ : Result A → (A → Result B) → Result B
  err why >>= next = err why
  ok x >>= next = next x

  -- The other way round: a call that returns, and what follows it.
  pub follows :
      (r : Result A) (next : A → Result B) {x : A} {y : Result B}
      → r ≡ ok x
      → next x ≡ y
      → (r >>= next) ≡ y
  follows r next e h = rw e h

  pub returns :
      (r : Result A) {next : A → Result B} {y : B}
      → (r >>= next) ≡ ok y
      → (x : A) × (next x ≡ ok y) × (r ≡ ok x)
  returns (err why) h = cc
  returns (ok x) h = (x, h, refl)

-- An operand that only checks, as in `assert`.
infixl 5 ◌>>◌
abbrev pub ◌>>◌ {κ} : {B : Type κ} → Result (Unit {0}) → Result B → Result B
err why >> next = err why
ok _ >> next = next

abbrev pub check : Bool → Error → Result (Unit {0})
check b why = elim b [ false ↦ err why | true ↦ ok tt ]

module _ {ℓ} {A : Type ℓ} where
  -- `if (!p) fail;` and the read through a pointer: `why` says how the run ends at NULL.
  abbrev pub require : Option A → Error → Result A
  require none why = err why
  require (some x) why = ok x

  pub require-eq-ok : (p : Option A) (why : Error) {x : A} → require p why ≡ ok x → p ≡ some x
  require-eq-ok none why h = cc
  require-eq-ok (some y) why h = cc
