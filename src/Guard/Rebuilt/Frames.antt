-- ===== src/Guard/Rebuilt/Frames.antt =====
-- The frames of the rebuilt stack after `restore_unopt_stack`: `jump_inlined` of guard.c reads their
-- base pointers and sizes.
use llvm_guard_handler.Base.{
  ℕ, ◌+◌, ◌≡◌, refl, ◌∙◌, sym, ap₂, List, [], ◌∷◌, add64, sub64, replicate, get_last?, ap,
}
use llvm_guard_handler.Memory.{Memory, load, store, read64, write64}
use llvm_guard_handler.StackMap.{StackMap}
use llvm_guard_handler.CallStack.{Frame, RestoredSegment, RegNum}
use llvm_guard_handler.CallStack.Segment.Layout.{above, Laid}
use llvm_guard_handler.CallStack.Locations.Pairs.{Job}
use llvm_guard_handler.CallStack.Locations.Stack.{Transferred}
use llvm_guard_handler.Guard.{Globals, Exit, restore_inlined, relink, install}

-- The frames have the same base pointers and sizes.
abbrev pub Alike : List Frame → List Frame → Type 0
Alike [] [] = Unit
Alike [] (f' ∷ fs') = ⊥
Alike (f ∷ fs) [] = ⊥
Alike (f ∷ fs) (f' ∷ fs') = (f.bp ≡ f'.bp) × (f.size ≡ f'.size) × Alike fs fs'

Alike-refl : (fs : List Frame) → Alike fs fs
Alike-refl [] = tt
Alike-refl (f ∷ fs) = (refl, refl, Alike-refl fs)

get_last?_behind :
    (x g : Frame) (fs fs' : List Frame) → Alike (g ∷ fs) fs' → get_last? (x ∷ fs') ≡ get_last? fs'
get_last?_behind x g fs [] alike = absurd alike
get_last?_behind x g fs (f' ∷ fs') alike = refl

module _ (u : RegNum) (sm : StackMap) (stray : ℕ → ℕ) where
  pub Transferred-Alike :
      (m : Memory) (fs : List Frame) (jss : List (List Job)) (fs' : List Frame)
      → Transferred u sm stray m fs jss fs'
      → Alike fs fs' × (get_last? fs' ≡ get_last? fs)
  Transferred-Alike m [] jss fs' e = rw e (tt, refl)
  Transferred-Alike m (f ∷ []) jss fs' e = rw e (Alike-refl (f ∷ []), refl)
  Transferred-Alike m (f ∷ g ∷ fs) [] fs' bad = absurd bad
  Transferred-Alike m (f ∷ g ∷ fs) (js ∷ jss) fs' (regs, rest, e, values, later) =
      let (alike, last) = Transferred-Alike m (g ∷ fs) jss rest later in
      rw e (
        (refl, refl, alike),
        get_last?_behind (record f { registers = regs }) g fs rest alike ∙ last,
      )

pub relink-Alike :
    (m : Memory) (p p' : Frame) (cur : ℕ) (fs fs' : List Frame)
    → p.bp ≡ p'.bp
    → Alike fs fs'
    → relink m p' cur fs' ≡ relink m p cur fs
unfolding relink
relink-Alike m p p' cur [] [] e alike = refl
relink-Alike m p p' cur [] (f' ∷ fs') e alike = absurd alike
relink-Alike m p p' cur (f ∷ fs) [] e alike = absurd alike
relink-Alike m p p' cur (f ∷ []) (f' ∷ []) e alike = refl
relink-Alike m p p' cur (f ∷ []) (f' ∷ g' ∷ fs') e (bp, size, alike) = absurd alike
relink-Alike m p p' cur (f ∷ g ∷ fs) (f' ∷ []) e (bp, size, alike) = absurd alike
relink-Alike m p p' cur (f ∷ g ∷ fs) (f' ∷ g' ∷ fs') e (bp, size, alike) =
    let next = λ (size : ℕ). add64 cur (add64 size 8) in
    ap₂ (λ (b size : ℕ). relink (write64 m b (next size)) f' (next size) (g' ∷ fs')) (sym e)
      (sym size)
    ∙ relink-Alike (write64 m p.bp (next f.size)) f f' (next f.size) (g ∷ fs) (g' ∷ fs') bp alike

-- The words that lie in the layout: the return addresses and the saved base pointers but the last.
abbrev pub Clear : (ℕ → Type 0) → ℕ → List Frame → Type 0
Clear off cur [] = Unit
Clear off cur (f ∷ []) = Unit
Clear off cur (f ∷ g ∷ []) = off (cur + 8)
Clear off cur (f ∷ g ∷ h ∷ fs) = off (cur + 8) × off cur × Clear off (above cur g) (g ∷ h ∷ fs)

pub Laid-Clear :
    (off : ℕ → Type 0) (m₀ m m' : Memory) (cur : ℕ) (fs : List Frame)
    → ((a : ℕ) → off a → read64 m' a ≡ read64 m a)
    → Clear off cur fs
    → Laid m₀ m cur fs
    → Laid m₀ m' cur fs
Laid-Clear off m₀ m m' cur [] same clear laid = tt
Laid-Clear off m₀ m m' cur (f ∷ []) same clear laid = tt
Laid-Clear off m₀ m m' cur (f ∷ g ∷ []) same clear laid = same (cur + 8) clear ∙ laid
Laid-Clear off m₀ m m' cur (f ∷ g ∷ h ∷ fs) same (ret, link, clear) (slot, chain, laid) = (
  same (cur + 8) ret ∙ slot,
  same cur link ∙ chain,
  Laid-Clear off m₀ m m' (above cur g) (g ∷ h ∷ fs) same clear laid,
)

pub Alike-cons :
    (p : Frame) (ps fs' : List Frame)
    → Alike (p ∷ ps) fs'
    → (p' : Frame) × (ps' : List Frame) × (fs' ≡ p' ∷ ps')
      × (p.bp ≡ p'.bp)
      × (p.size ≡ p'.size)
      × Alike ps ps'
Alike-cons p ps [] alike = absurd alike
Alike-cons p ps (p' ∷ ps') (bp, size, alike) = (p', ps', refl, bp, size, alike)

pub install-Alike :
    (globals : Globals) (p p' : Frame) (ps ps' : List Frame) (main_bp : ℕ) (seg : RestoredSegment)
    (m : Memory)
    → p.bp ≡ p'.bp
    → p.size ≡ p'.size
    → Alike ps ps'
    → install globals p' ps' main_bp seg m ≡ install globals p ps main_bp seg m
unfolding install
install-Alike globals p p' ps ps' main_bp seg m e size alike =
    let with = λ (size : ℕ) (x : Memory).
      let y = store x main_bp (load x seg.start_addr seg.total_size) in
      let exit : Exit = record {
        label = restore_inlined;
        globals = record globals {
          restored_bp = add64 main_bp (sub64 size 8);
          restored_stack_size = sub64 size 8;
          restored_start_addr = seg.start_addr;
          restored_total_size = seg.total_size;
        };
        memory = store y seg.start_addr (replicate seg.total_size 0);
      } in
      exit in
    let bp = add64 main_bp (sub64 p.size 8) in
    ap (λ (n : ℕ). with n (relink m p' (add64 main_bp (sub64 n 8)) ps')) (sym size)
    ∙ ap (with p.size) (relink-Alike m p p' bp ps ps' e alike)
