-- ===== src/Elf/System/Path.antt =====
-- The path that `get_binary_path` of src/stackmap_checker/utils.c returns.
use llvm_guard_handler.Base.{
  ℕ, zero, suc, ◌+◌, ◌-◌, ◌≤◌, ◌<◌, ◌≡◌, ◌≢◌, refl, ap, ◌∙◌, inl, inr, Bool-cases, some, List, [],
  ◌∷◌, ◌++◌, ◌==◌, length, length-append, length-set, set, lt→ltb, All, arith, tests, ok,
}
use llvm_guard_handler.Heap.{alloc}
use llvm_guard_handler.Elf.System.{
  System, World, max_buf_size, fresh_bytes, c_string, terminate, get_binary_path,
}

length-fresh_bytes : (fresh : ℕ → ℕ) (i n : ℕ) → length (fresh_bytes fresh i n) ≡ n
length-fresh_bytes fresh i zero = refl
length-fresh_bytes fresh i (suc n) = ap suc (length-fresh_bytes fresh (i + 1) n)

c_string-set :
    (link rest : List ℕ)
    → 1 ≤ length rest
    → All (λ b. b ≢ 0) link
    → c_string (set (link ++ rest) (length link) 0) ≡ link
unfolding c_string
c_string-set [] [] room texts = absurd (omega arith)
c_string-set [] (b ∷ rest) room texts = refl
c_string-set (b ∷ link) rest room (text, texts) = elim (Bool-cases (b == 0)) [
  | inl nul ↦ absurd (text (omega (tests, nul)))
  | inr other ↦ rw (other, c_string-set link rest room texts) refl
]

-- The block of `get_binary_path` is never written past its end.
terminate_lem : (buff : List ℕ) (i : ℕ) → i < length buff → terminate buff i ≡ ok (set buff i 0)
unfolding terminate
terminate_lem buff i h = rw (lt→ltb i (length buff) h) refl

-- If `readlink` writes no more bytes than it is given room for, and the path has no NUL, then
-- `get_binary_path` writes its NUL inside the buffer, and the string that it returns is what `readlink`
-- wrote; the new block is all that it adds to the world.
pub get_binary_path_lem :
    (sys : System) (w : World) (link : List ℕ)
    → sys.readlink 511 ≡ some link
    → length link ≤ 511
    → All (λ b. b ≢ 0) link
    → (contents : List ℕ) × (get_binary_path sys w
        ≡ ok (((alloc w.blocks).0, contents), record w { blocks = (alloc w.blocks).1 }))
      × (length contents ≡ max_buf_size)
      × (c_string contents ≡ link)
unfolding get_binary_path
get_binary_path_lem sys w link found fits text =
    let rest = fresh_bytes sys.fresh (length link) (max_buf_size - length link) in
    let room = length-fresh_bytes sys.fresh (length link) (max_buf_size - length link) in
    let size : length (link ++ rest) ≡ max_buf_size = omega (arith, length-append link rest) in
    let e = terminate_lem (link ++ rest) (length link) (omega arith) in
    (
      set (link ++ rest) (length link) 0,
      rw (found, e) refl,
      length-set (link ++ rest) (length link) 0 ∙ size,
      c_string-set link rest (omega arith) text,
    )
