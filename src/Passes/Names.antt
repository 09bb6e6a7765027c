-- ===== src/Passes/Names.antt =====
-- The names of functions, as the passes test and make them: `StringRef::startswith` and
-- `endswith`, and `getTwinName` of src/passes/function_passes/CheckPointPass.cpp. A name is the
-- list of its bytes.
pub mod Twins
use llvm_guard_handler.Base.{
  ℕ, Bool, true, false, ◌&&◌, List, [], ◌∷◌, ◌++◌, ◌==◌, if◌then◌else◌, drop, length,
}
use mathlib.Core.List.{reverse}

abbrev pub Name : Type 0
Name = List ℕ

-- "__unopt_".
abbrev pub unopt_prefix : Name
unopt_prefix = b'_' ∷ b'_' ∷ b'u' ∷ b'n' ∷ b'o' ∷ b'p' ∷ b't' ∷ b'_' ∷ []

-- `StringRef::startswith`.
unfoldable pub starts_with : Name → Name → Bool
starts_with [] name = true
starts_with (c ∷ cs) [] = false
starts_with (c ∷ cs) (d ∷ ds) = (c == d) && starts_with cs ds

-- `StringRef::endswith`.
unfoldable pub ends_with : Name → Name → Bool
unfolding starts_with
ends_with suffix name = starts_with (reverse suffix) (reverse name)

-- `getTwinName`.
unfoldable pub get_twin_name : Name → Name
unfolding starts_with
get_twin_name name =
    if starts_with unopt_prefix name then drop (length unopt_prefix) name else unopt_prefix ++ name
