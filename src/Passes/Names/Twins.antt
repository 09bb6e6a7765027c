-- ===== src/Passes/Names/Twins.antt =====
-- Laws of the names that `getTwinName` of src/passes/function_passes/CheckPointPass.cpp gives.
use llvm_guard_handler.Base.{◌≡◌, refl, true, false, [], ◌∷◌, ◌++◌, arith, ==_refl}
use llvm_guard_handler.Elf.{same_string}
use llvm_guard_handler.Passes.Names.{Name, unopt_prefix, starts_with, get_twin_name}

pub same_string-eq : (xs ys : Name) → same_string xs ys ≡ true → xs ≡ ys
unfolding same_string
same_string-eq [] [] h = refl
same_string-eq [] (y ∷ ys) h = cc
same_string-eq (x ∷ xs) [] h = cc
same_string-eq (x ∷ xs) (y ∷ ys) h = ground (arith, same_string-eq xs ys)

pub same_string_refl : (xs : Name) → same_string xs xs ≡ true
unfolding same_string
same_string_refl [] = refl
same_string_refl (x ∷ xs) = ground (arith, same_string_refl xs)

pub same_string-append : (p xs ys : Name) → same_string (p ++ xs) (p ++ ys) ≡ same_string xs ys
unfolding same_string
same_string-append [] xs ys = refl
same_string-append (c ∷ p) xs ys = rw ==_refl (same_string-append p xs ys)

pub starts_with-append : (p xs : Name) → starts_with p (p ++ xs) ≡ true
unfolding starts_with
starts_with-append [] xs = refl
starts_with-append (c ∷ p) xs = rw ==_refl (starts_with-append p xs)

-- A name without the prefix is none that has it.
pub same_string-prefix_ne :
    (p xs ys : Name)
    → starts_with p ys ≡ false
    → (same_string (p ++ xs) ys ≡ false) × (same_string ys (p ++ xs) ≡ false)
unfolding starts_with same_string
same_string-prefix_ne [] xs ys h = cc
same_string-prefix_ne (c ∷ p) xs [] h = (refl, refl)
same_string-prefix_ne (c ∷ p) xs (d ∷ ys) h = ground (arith, same_string-prefix_ne p xs ys)

-- An optimised function's name, and the name of its twin.
pub get_twin_name-opt :
    (name : Name)
    → starts_with unopt_prefix name ≡ false
    → get_twin_name name ≡ unopt_prefix ++ name
unfolding get_twin_name
get_twin_name-opt name h = rw h refl

pub get_twin_name-unopt : (name : Name) → get_twin_name (unopt_prefix ++ name) ≡ name
unfolding get_twin_name
get_twin_name-unopt name = refl
