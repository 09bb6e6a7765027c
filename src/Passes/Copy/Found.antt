-- ===== src/Passes/Copy/Found.antt =====
-- What `getFunction` finds after `doInitialization` of
-- src/passes/function_passes/UnoptimizedCopyPass.cpp.
use llvm_guard_handler.Base.{
  ◌≡◌, refl, sym, ap, ◌∙◌, inl, inr, false, some, List, [], ◌∷◌, ◌++◌, Bool-cases, All, Memᴰ, subst,
}
use mathlib.Core.List.Memᴰ
use llvm_guard_handler.Elf.{same_string}
use llvm_guard_handler.Passes.Names.{Name, unopt_prefix, starts_with}
use llvm_guard_handler.Passes.Names.Twins.{
  same_string_refl, same_string-append, same_string-prefix_ne,
}
use llvm_guard_handler.Passes.Ir.{Function, Module, get_function}
use llvm_guard_handler.Passes.Copy.{copy_of, copies, do_initialization}
use llvm_guard_handler.Passes.CheckPoint.Clones.{Named}

-- No function of the module is a copy.
abbrev pub NoCopies : Module → Type 0
NoCopies mod_ = All (λ (f : Function). starts_with unopt_prefix f.name ≡ false) mod_

get_function-append_left :
    (name : Name) (fs gs : List Function) {f : Function}
    → get_function name fs ≡ some f
    → get_function name (fs ++ gs) ≡ some f
unfolding get_function
get_function-append_left name [] gs e = cc
get_function-append_left name (g ∷ fs) gs e = elim (Bool-cases (same_string g.name name)) [
  | inl same ↦ rw (same, get_function) (rw (same, get_function) at e)
  | inr differ ↦
      rw (differ, get_function)
        (get_function-append_left name fs gs (rw (differ, get_function) at e))
]

-- No original has the name of a copy.
get_function-append_right :
    (name : Name) (fs gs : List Function)
    → NoCopies fs
    → get_function (unopt_prefix ++ name) (fs ++ gs) ≡ get_function (unopt_prefix ++ name) gs
unfolding get_function
get_function-append_right name [] gs h = refl
get_function-append_right name (f ∷ fs) gs (h, hs) =
    rw ((same_string-prefix_ne unopt_prefix name f.name h).1)
      (get_function-append_right name fs gs hs)

names_differ :
    (f g : Function) (gs : List Function)
    → Memᴰ f gs
    → All (λ x. same_string g.name x.name ≡ false) gs
    → same_string g.name f.name ≡ false
names_differ f g [] m h = absurd (Memᴰ.not-nil m)
names_differ f g (x ∷ gs) m (h, hs) = elim (Memᴰ.cases_cons m) [
  | inl e ↦ ap (λ (y : Function). same_string g.name y.name) e ∙ h
  | inr m' ↦ names_differ f g gs m' hs
]

get_function-member :
    (f : Function) (fs : List Function) → Memᴰ f fs → Named fs → get_function f.name fs ≡ some f
unfolding get_function
get_function-member f [] m named = absurd (Memᴰ.not-nil m)
get_function-member f (g ∷ fs) m (ne, named) = elim (Memᴰ.cases_cons m) [
  | inl e ↦
      subst (λ (x : Function). get_function x.name (g ∷ fs) ≡ some x) (sym e)
        (rw (same_string_refl g.name, get_function) refl)
  | inr m' ↦ rw (names_differ f g fs m' ne) (get_function-member f fs m' named)
]

get_function-copies :
    (f : Function) (fs : List Function)
    → Memᴰ f fs
    → Named fs
    → NoCopies fs
    → f.is_declaration ≡ false
    → f.available_externally ≡ false
    → get_function (unopt_prefix ++ f.name) (copies fs) ≡ some (copy_of f)
unfolding copies copy_of get_function
get_function-copies f [] m named opt body own = absurd (Memᴰ.not-nil m)
get_function-copies f (g ∷ fs) m (ne, named) (opt, opts) body own = elim (Memᴰ.cases_cons m) [
  | inl e ↦
      let body' : g.is_declaration ≡ false =
        ap (λ (x : Function). x.is_declaration) (sym e) ∙ body in
      let own' : g.available_externally ≡ false =
        ap (λ (x : Function). x.available_externally) (sym e) ∙ own in
      subst
        (λ (x : Function).
          get_function (unopt_prefix ++ x.name) (copies (g ∷ fs)) ≡ some (copy_of x))
        (sym e) (rw (opt, body', own', same_string_refl (unopt_prefix ++ g.name)) refl)
  | inr m' ↦
      let rest = get_function-copies f fs m' named opts body own in
      let other : same_string (unopt_prefix ++ g.name) (unopt_prefix ++ f.name) ≡ false =
        same_string-append unopt_prefix g.name f.name ∙ names_differ f g fs m' ne in
      elim (Bool-cases g.is_declaration) [
        | inl declared ↦ rw (opt, declared) rest
        | inr has_body ↦ elim (Bool-cases g.available_externally) [
          | inl external ↦ rw (opt, has_body, external) rest
          | inr here ↦ rw (opt, has_body, here, other) rest
        ]
      ]
]

-- If no function of a module has the prefix and the names are different, then after
-- UnoptimizedCopyPass's `doInitialization` `getFunction` finds every function under its name, and,
-- if it has a body of this module, its copy under the prefixed name.
pub do_initialization-get_function :
    (mod_ : Module) (f : Function)
    → Memᴰ f mod_
    → Named mod_
    → NoCopies mod_
    → (get_function f.name (do_initialization mod_) ≡ some f)
      × (f.is_declaration ≡ false
          → f.available_externally ≡ false
          → get_function (unopt_prefix ++ f.name) (do_initialization mod_) ≡ some (copy_of f))
unfolding do_initialization
do_initialization-get_function mod_ f m named opt = (
  get_function-append_left f.name mod_ (copies mod_) (get_function-member f mod_ m named),
  λ body own.
      get_function-append_right f.name mod_ (copies mod_) opt
      ∙ get_function-copies f mod_ m named opt body own,
)
