-- ===== src/CallStack/Frames/Insert.antt =====
-- `insert_frames` of call_stack_state.c as an operation on lists.
use llvm_guard_handler.Base.{
  subst, ℕ, zero, suc, ◌+◌, ◌-◌, ◌^◌, ◌≤◌, ◌<◌, ◌≡◌, refl, ap, ap₂, sym, ◌∙◌, List, [], ◌∷◌, ◌++◌,
  append-nil, append_assoc, arith, add32, length, take, drop, replicate, length-append,
  length-replicate, drop-length-append,
}
use llvm_guard_handler.CallStack.{Frame}
use llvm_guard_handler.CallStack.Frames.{realloc, copy_to, insert_frames}

module _ {ℓ} {A : Type ℓ} where
  take_append : (xs ys : List A) (n k : ℕ) → n ≡ length xs + k → take n (xs ++ ys) ≡ xs ++ take k ys
  take_append [] ys n k e = ap (λ j. take j ys) (omega arith)
  take_append (x ∷ xs) ys zero k e = absurd (omega arith)
  take_append (x ∷ xs) ys (suc n) k e = ap (◌∷◌ x) (take_append xs ys n k (omega arith))

  drop_append : (xs ys : List A) (n k : ℕ) → n ≡ length xs + k → drop n (xs ++ ys) ≡ drop k ys
  drop_append [] ys n k e = ap (λ j. drop j ys) (omega arith)
  drop_append (x ∷ xs) ys zero k e = absurd (omega arith)
  drop_append (x ∷ xs) ys (suc n) k e = drop_append xs ys n k (omega arith)

  take_all : (xs : List A) (n : ℕ) → length xs ≤ n → take n xs ≡ xs
  take_all [] zero h = refl
  take_all [] (suc n) h = refl
  take_all (x ∷ xs) zero h = absurd (omega arith)
  take_all (x ∷ xs) (suc n) h = ap (◌∷◌ x) (take_all xs n (omega arith))

  drop_all : (xs : List A) (n : ℕ) → length xs ≤ n → drop n xs ≡ []
  drop_all [] zero h = refl
  drop_all [] (suc n) h = refl
  drop_all (x ∷ xs) zero h = absurd (omega arith)
  drop_all (x ∷ xs) (suc n) h = drop_all xs n (omega arith)

  length-take : (xs : List A) (n : ℕ) → n ≤ length xs → length (take n xs) ≡ n
  length-take [] zero h = refl
  length-take [] (suc n) h = absurd (omega arith)
  length-take (x ∷ xs) zero h = refl
  length-take (x ∷ xs) (suc n) h = ap suc (length-take xs n (omega arith))

  -- Copying over the middle of an array replaces it.
  copy_to_middle :
      (xs ys zs src : List A) (i : ℕ)
      → i ≡ length xs
      → length src ≡ length ys
      → copy_to (xs ++ (ys ++ zs)) i src ≡ xs ++ (src ++ zs)
  unfolding copy_to
  copy_to_middle xs ys zs src i ei es =
      let front = take_append xs (ys ++ zs) i 0 (omega arith) ∙ append-nil xs in
      let back : drop (i + length src) (xs ++ (ys ++ zs)) ≡ zs =
        drop_append xs (ys ++ zs) (i + length src) (length ys) (omega arith)
        ∙ drop-length-append ys zs in
      ap₂ (λ (f b : List A). f ++ (src ++ b)) front back

  take-replicate : (k n : ℕ) (a : A) → k ≤ n → take k (replicate n a) ≡ replicate k a
  take-replicate zero n a h = refl
  take-replicate (suc k) zero a h = absurd (omega arith)
  take-replicate (suc k) (suc n) a h = ap (◌∷◌ a) (take-replicate k n a (omega arith))

  take-drop : (n : ℕ) (xs : List A) → take n xs ++ drop n xs ≡ xs
  take-drop zero xs = refl
  take-drop (suc n) [] = refl
  take-drop (suc n) (x ∷ xs) = ap (◌∷◌ x) (take-drop n xs)

  length-drop : (n : ℕ) (xs : List A) → length (drop n xs) ≡ length xs - n
  length-drop zero xs = omega arith
  length-drop (suc n) [] = omega arith
  length-drop (suc n) (x ∷ xs) = omega (arith, length-drop n xs)

  -- `realloc` to a larger size adds fresh elements at the end.
  realloc_grows :
      (fresh : A) (n k : ℕ) (xs : List A)
      → n ≡ length xs + k
      → realloc fresh n xs ≡ xs ++ replicate k fresh
  unfolding realloc
  realloc_grows fresh n k xs e =
      take_append xs (replicate n fresh) n k e
      ∙ ap (◌++◌ xs) (take-replicate k n fresh (omega arith))

-- In a state whose depth is the number of its frames, and as long as the new depth fits an uint32_t,
-- `insert_frames` at an index within the frames leaves those below the index and those from it on in
-- their order, with the new frames between them and the depth their number; what `realloc` left in
-- the new memory is gone.
pub insert_frames-append :
    (fresh : Frame) (pre post frames : List Frame)
    → length pre + length post + length frames < 2 ^ 32
    → insert_frames fresh
        (record { frames = pre ++ post; depth = length pre + length post })
        (length pre)
        frames
      ≡ record {
        frames = pre ++ (frames ++ post);
        depth = length pre + length post + length frames;
      }
unfolding insert_frames
insert_frames-append fresh pre post frames small = λ j. record {
  frames =
      (ap (λ (g : List Frame). copy_to (copy_to g (i + n) (take (d - i) (drop i g))) i frames) grown
          ∙ ap (λ (t : List Frame). copy_to (copy_to whole (i + n) t) i frames) tail
          ∙ ap (λ (x : List Frame). copy_to x i frames) moved
          ∙ copy_to_middle pre gap post frames i refl (omega (arith, length_gap)))
        j;
  depth = depth j;
}
  where
    i : ℕ
    i = length pre

    n : ℕ
    n = length frames

    d : ℕ
    d = length pre + length post

    whole : List Frame
    whole = pre ++ (post ++ replicate n fresh)

    gap : List Frame
    gap = take n (post ++ replicate n fresh)

    back : List Frame
    back = drop n (post ++ replicate n fresh)

    size : length (post ++ replicate n fresh) ≡ length post + n
    size = omega (arith, length-append post (replicate n fresh), length-replicate n fresh)

    length_gap : length gap ≡ n
    length_gap = length-take (post ++ replicate n fresh) n (omega (arith, size))

    depth : add32 d n ≡ length pre + length post + length frames
    depth = omega arith

    grown : realloc fresh (add32 d n) (pre ++ post) ≡ whole
    grown =
        realloc_grows fresh (add32 d n) n (pre ++ post) (omega (arith, length-append pre post))
        ∙ append_assoc pre post (replicate n fresh)

    tail : take (d - i) (drop i whole) ≡ post
    tail =
        ap (take (d - i)) (drop-length-append pre (post ++ replicate n fresh))
        ∙ take_append post (replicate n fresh) (d - i) 0 (omega arith)
        ∙ append-nil post

    split : whole ≡ (pre ++ gap) ++ (back ++ [])
    split =
        ap (◌++◌ pre) (sym (take-drop n (post ++ replicate n fresh)))
        ∙ sym (append_assoc pre gap back)
        ∙ ap (◌++◌ (pre ++ gap)) (sym (append-nil back))

    moved : copy_to whole (i + n) post ≡ pre ++ (gap ++ post)
    moved =
        ap (λ (x : List Frame). copy_to x (i + n) post) split
        ∙ copy_to_middle (pre ++ gap) back [] post (i + n)
            (omega (arith, length-append pre gap, length_gap))
            (omega (arith, length-drop n (post ++ replicate n fresh), size))
        ∙ ap (◌++◌ (pre ++ gap)) (append-nil post)
        ∙ append_assoc pre gap post

-- Frames go in front of a state whose depth is the number of its frames.
pub insert_frames-front :
    (fresh : Frame) (fs new : List Frame)
    → length fs + length new < 2 ^ 32
    → insert_frames fresh (record { frames = fs; depth = length fs }) 0 new
      ≡ record { frames = new ++ fs; depth = length fs + length new }
insert_frames-front fresh fs new small =
    let zero_first : 0 + length fs ≡ length fs = omega arith in
    subst
      (λ (n : ℕ).
        insert_frames fresh (record { frames = fs; depth = n }) 0 new
        ≡ record { frames = new ++ fs; depth = n + length new })
      zero_first (insert_frames-append fresh [] fs new (omega arith))
