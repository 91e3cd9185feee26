-- ===== src/Base/Slices.antt =====
-- Slices of a list, `xs[a..b]`, read and written back.
use Prim.Native.Nat.{ℕ, zero, suc, ◌+◌, ◌-◌, ◌≤◌, ◌<◌}
use mathlib.Core.Path.{◌≡◌, refl, ap, ◌∙◌, sym}
use mathlib.Core.Bool.{◌||◌, or-true}
use mathlib.Core.List.{List, [], ◌∷◌, ◌++◌, append_assoc}
use native.Mathlib.Omega.{arith}
use world_dat.Base.Booleans.{ltb, lt→ltb, le→ltb, if◌then◌else◌}
use world_dat.Base.Panics.{Run, ok, panic}
use world_dat.Base.Lists.{length, take, drop, length-append, length-take, length-drop, take_all}

module _ {ℓ} {A : Type ℓ} where
  -- `xs[a..b]`: it panics if the ends are out of order or out of range.
  unfoldable pub slice : List A → ℕ → ℕ → Run (List A)
  slice xs a b = if ltb b a || ltb (length xs) b then panic else ok (take (b - a) (drop a xs))

  -- `xs` with `ys` written over the part that begins at `a`.
  unfoldable pub splice : List A → ℕ → List A → List A
  splice xs a ys = take a xs ++ ys ++ drop (a + length ys) xs

  -- the `n` elements from `a` on
  abbrev pub window : List A → ℕ → ℕ → List A
  window xs a n = take n (drop a xs)

  pub slice-window :
      (xs : List A) (a n : ℕ) → a + n ≤ length xs → slice xs a (a + n) ≡ ok (window xs a n)
  unfolding slice
  slice-window xs a n h =
      rw (le→ltb (a + n) a (omega arith), le→ltb (length xs) (a + n) h)
        (ap (λ k. ok (take k (drop a xs))) {x = a + n - a} {y = n} (omega arith))

  -- a slice whose end is out of range panics
  pub slice_panic : (xs : List A) (a b : ℕ) → length xs < b → slice xs a b ≡ panic
  unfolding slice
  slice_panic xs a b h = rw (lt→ltb (length xs) b h, or-true)

  drop-nil : (n : ℕ) → drop {A = A} n [] ≡ []
  drop-nil zero = refl
  drop-nil (suc n) = refl

  take-nil : (n : ℕ) → take {A = A} n [] ≡ []
  take-nil zero = refl
  take-nil (suc n) = refl

  drop-append_le : (n : ℕ) (xs ys : List A) → n ≤ length xs → drop n (xs ++ ys) ≡ drop n xs ++ ys
  drop-append_le zero xs ys h = refl
  drop-append_le (suc n) [] ys h = absurd (omega arith)
  drop-append_le (suc n) (x ∷ xs) ys h = drop-append_le n xs ys (omega arith)

  drop-append_ge :
      (n : ℕ) (xs ys : List A) → length xs ≤ n → drop n (xs ++ ys) ≡ drop (n - length xs) ys
  drop-append_ge n [] ys h = ap (λ k. drop k ys) (omega arith)
  drop-append_ge zero (x ∷ xs) ys h = absurd (omega arith)
  drop-append_ge (suc n) (x ∷ xs) ys h =
      drop-append_ge n xs ys (omega arith) ∙ ap (λ k. drop k ys) (omega arith)

  take-append_le : (n : ℕ) (xs ys : List A) → n ≤ length xs → take n (xs ++ ys) ≡ take n xs
  take-append_le zero xs ys h = refl
  take-append_le (suc n) [] ys h = absurd (omega arith)
  take-append_le (suc n) (x ∷ xs) ys h = ap (λ r. x ∷ r) (take-append_le n xs ys (omega arith))

  pub drop-drop : (m n : ℕ) (xs : List A) → drop n (drop m xs) ≡ drop (m + n) xs
  drop-drop zero n xs = ap (λ k. drop k xs) (omega arith)
  drop-drop (suc m) n [] = drop-nil n ∙ sym (drop-nil (suc m + n))
  drop-drop (suc m) n (x ∷ xs) =
      drop-drop m n xs ∙ ap (λ k. drop k (x ∷ xs)) {x = suc (m + n)} {y = suc m + n} (omega arith)

  take-take : (n s : ℕ) (xs : List A) → n ≤ s → take n (take s xs) ≡ take n xs
  take-take zero s xs h = refl
  take-take (suc n) zero xs h = absurd (omega arith)
  take-take (suc n) (suc s) [] h = refl
  take-take (suc n) (suc s) (x ∷ xs) h = ap (λ r. x ∷ r) (take-take n s xs (omega arith))

  window-take : (s a n : ℕ) (xs : List A) → a + n ≤ s → window (take s xs) a n ≡ window xs a n
  window-take s zero n xs h = take-take n s xs (omega arith)
  window-take zero (suc a) n xs h = absurd (omega arith)
  window-take (suc s) (suc a) n [] h = refl
  window-take (suc s) (suc a) n (x ∷ xs) h = window-take s a n xs (omega arith)

  module _ (xs : List A) (a : ℕ) (ys : List A) (fits : a + length ys ≤ length xs) where
    length-front : length (take a xs) ≡ a
    length-front = omega (arith, length-take a xs)

    pub length-splice : length (splice xs a ys) ≡ length xs
    unfolding splice
    length-splice = omega (
      arith,
      length-append (take a xs ++ ys) (drop (a + length ys) xs),
      length-append (take a xs) ys,
      length-front,
      length-drop (a + length ys) xs,
    )

    -- what was written is read back
    pub window-splice_self : window (splice xs a ys) a (length ys) ≡ ys
    unfolding splice
    window-splice_self =
        let rest = drop (a + length ys) xs in
        rw
          (
            append_assoc (take a xs) ys rest,
            drop-append_ge a (take a xs) (ys ++ rest) (omega (arith, length-front)),
          )
          (ap (λ k. take (length ys) (drop k (ys ++ rest))) {x = a - length (take a xs)} {y = 0}
              (omega (arith, length-front))
            ∙ take-append_le (length ys) ys rest (omega arith)
            ∙ take_all (length ys) ys (omega arith))

    -- what lies before or behind stays
    pub window-splice_before : (b n : ℕ) → b + n ≤ a → window (splice xs a ys) b n ≡ window xs b n
    unfolding splice
    window-splice_before b n h =
        let rest = drop (a + length ys) xs in
        rw
          (
            append_assoc (take a xs) ys rest,
            drop-append_le b (take a xs) (ys ++ rest) (omega (arith, length-front)),
            take-append_le n (drop b (take a xs)) (ys ++ rest)
                (omega (arith, length-front, length-drop b (take a xs))),
          )
          (window-take a b n xs h)

    pub window-splice_behind :
        (b n : ℕ) → a + length ys ≤ b → window (splice xs a ys) b n ≡ window xs b n
    unfolding splice
    window-splice_behind b n h =
        let rest = drop (a + length ys) xs in
        let front = length-append (take a xs) ys in
        rw (drop-append_ge b (take a xs ++ ys) rest (omega (arith, length-front, front)), drop-drop)
          (ap (λ k. take n (drop k xs)) {y = b} (omega (arith, length-front, front)))
