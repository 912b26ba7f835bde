-- ===== src/Base/Slices.antt =====
-- Python's slices xs[a:b] with constant bounds, and what a splice at constant offsets leaves.
use Prim.Native.Nat.{ℕ, zero, suc, ◌+◌, ◌-◌, ◌≤◌}
use mathlib.Core.Path.{◌≡◌, refl, sym, ap, ap₂, ◌∙◌}
use mathlib.Core.Bool.{Bool, true}
use mathlib.Core.List.{List, [], ◌∷◌, ◌++◌}
use native.Mathlib.Omega.{arith}
use h_mesh.Base.Lists.{
  all, all-append, length, take, drop, drop-drop, length-drop, length-take, length-take_le,
  length-append,
}

module _ {ℓ} {A : Type ℓ} where
  -- xs[a:b]
  abbrev pub slice : ℕ → ℕ → List A → List A
  slice a b xs = take (b - a) (drop a xs)

  pub take-append_self : (xs ys : List A) → take (length xs) (xs ++ ys) ≡ xs
  take-append_self [] ys = refl
  take-append_self (x ∷ xs) ys = ap (λ r. x ∷ r) (take-append_self xs ys)

  pub drop-append_self : (xs ys : List A) → drop (length xs) (xs ++ ys) ≡ ys
  drop-append_self [] ys = refl
  drop-append_self (x ∷ xs) ys = drop-append_self xs ys

  pub take-append_at : (n : ℕ) (xs ys : List A) → length xs ≡ n → take n (xs ++ ys) ≡ xs
  take-append_at n xs ys h = rw (← h) (take-append_self xs ys)

  pub drop-append_at : (n : ℕ) (xs ys : List A) → length xs ≡ n → drop n (xs ++ ys) ≡ ys
  drop-append_at n xs ys h = rw (← h) (drop-append_self xs ys)

  -- The slice that a known prefix and length single out.
  pub slice-append_at :
      (a b : ℕ) (pre mid post : List A)
      → length pre ≡ a
      → length mid ≡ b - a
      → slice a b (pre ++ (mid ++ post)) ≡ mid
  slice-append_at a b pre mid post h k =
      rw (drop-append_at a pre (mid ++ post) h) (take-append_at (b - a) mid post k)

  pub slice_first : (n : ℕ) (xs ys : List A) → length xs ≡ n → slice 0 n (xs ++ ys) ≡ xs
  slice_first n xs ys h = slice-append_at 0 n [] xs ys refl (omega arith)

  -- A prefix that the slice does not meet is skipped.
  pub slice_skip :
      (k a b : ℕ) (xs ys : List A) → length xs ≡ k → slice (k + a) (k + b) (xs ++ ys) ≡ slice a b ys
  slice_skip k a b xs ys h =
      ap (λ d. take d (drop (k + a) (xs ++ ys))) shift
      ∙ ap (take (b - a)) (sym (drop-drop a k (xs ++ ys)) ∙ ap (drop a) (drop-append_at k xs ys h))
    where
      shift : (k + b) - (k + a) ≡ b - a
      shift = omega arith

  take-take_append :
      (k n : ℕ) (xs ys : List A) → k ≤ n → n ≤ length xs → take k (take n xs ++ ys) ≡ take k xs
  take-take_append zero n xs ys h l = refl
  take-take_append (suc k) zero xs ys h l = elim h [ ]
  take-take_append (suc k) (suc n) [] ys h l = elim l [ ]
  take-take_append (suc k) (suc n) (x ∷ xs) ys h l =
      ap (λ r. x ∷ r) (take-take_append k n xs ys (omega arith) (omega arith))

  drop-take_append :
      (a n : ℕ) (xs ys : List A)
      → a ≤ n
      → n ≤ length xs
      → drop a (take n xs ++ ys) ≡ take (n - a) (drop a xs) ++ ys
  drop-take_append zero n xs ys h l = ap (λ m. take m xs ++ ys) (omega arith)
  drop-take_append (suc a) zero xs ys h l = elim h [ ]
  drop-take_append (suc a) (suc n) [] ys h l = elim l [ ]
  drop-take_append (suc a) (suc n) (x ∷ xs) ys h l =
      drop-take_append a n xs ys (omega arith) (omega arith)
      ∙ ap (λ m. take m (drop a xs) ++ ys) (omega arith)

  drop_past :
      (a n : ℕ) (xs ys : List A)
      → n ≤ a
      → n ≤ length xs
      → drop a (take n xs ++ ys) ≡ drop (a - n) ys
  drop_past a zero xs ys h l = ap (λ m. drop m ys) (omega arith)
  drop_past zero (suc n) xs ys h l = elim h [ ]
  drop_past (suc a) (suc n) [] ys h l = elim l [ ]
  drop_past (suc a) (suc n) (x ∷ xs) ys h l =
      drop_past a n xs ys (omega arith) (omega arith) ∙ ap (λ m. drop m ys) (omega arith)

  -- A splice xs[:n] + mid + xs[m:] with len(mid) = m - n: what stands before, at and behind it.
  module _ (n m : ℕ) (xs mid : List A) (h : n ≤ length xs) (k : length mid ≡ m - n)
      (o : n ≤ m) where
    abbrev pub splice : List A
    splice = take n xs ++ (mid ++ drop m xs)

    pub slice-splice_before : (a b : ℕ) → a ≤ b → b ≤ n → slice a b splice ≡ slice a b xs
    slice-splice_before a b order before =
        ap (take (b - a)) (drop-take_append a n xs (mid ++ drop m xs) (omega arith) h)
        ∙ take-take_append (b - a) (n - a) (drop a xs) (mid ++ drop m xs) (omega arith)
            (omega (arith, length-drop a xs))

    pub slice-splice_self : slice n m splice ≡ mid
    slice-splice_self =
        ap (λ r. take (m - n) r) (drop-append_at n (take n xs) _ (length-take n xs h))
        ∙ take-append_at (m - n) mid (drop m xs) k

    pub take-splice_before : take n splice ≡ take n xs
    take-splice_before = take-take_append n n xs (mid ++ drop m xs) (omega arith) h

    pub drop-splice_behind : (a : ℕ) → m ≤ a → drop a splice ≡ drop a xs
    drop-splice_behind a behind =
        drop_past a n xs (mid ++ drop m xs) (omega arith) h
        ∙ behind_mid (a - n) (a - m) (omega arith)
        ∙ drop-drop (a - m) m xs
        ∙ ap (λ i. drop i xs) back
      where
        back : m + (a - m) ≡ a
        back = omega arith

        behind_mid : (i j : ℕ) → i ≡ (m - n) + j → drop i (mid ++ drop m xs) ≡ drop j (drop m xs)
        behind_mid i j e =
            ap (λ r. drop r (mid ++ drop m xs)) e
            ∙ sym (drop-drop j (m - n) (mid ++ drop m xs))
            ∙ ap (drop j) (drop-append_at (m - n) mid (drop m xs) k)

    pub slice-splice_behind : (a b : ℕ) → m ≤ a → slice a b splice ≡ slice a b xs
    slice-splice_behind a b behind = ap (take (b - a)) (drop-splice_behind a behind)

    pub length-splice : m ≤ length xs → length splice ≡ length xs
    length-splice fits = omega (
      arith,
      length-append (take n xs) (mid ++ drop m xs),
      length-append mid (drop m xs),
      length-take n xs h,
      length-drop m xs,
    )

  pub take-append_past :
      (k : ℕ) (xs ys : List A) → length xs ≤ k → take k (xs ++ ys) ≡ xs ++ take (k - length xs) ys
  take-append_past k [] ys h = ap (λ i. take i ys) (omega arith)
  take-append_past zero (x ∷ xs) ys h = elim h [ ]
  take-append_past (suc k) (x ∷ xs) ys h =
      ap (λ r. x ∷ r)
        (take-append_past k xs ys (omega arith) ∙ ap (λ i. xs ++ take i ys) (omega arith))

  pub take-take : (n k : ℕ) (xs : List A) → n ≤ k → take n (take k xs) ≡ take n xs
  take-take zero k xs h = refl
  take-take (suc n) zero xs h = elim h [ ]
  take-take (suc n) (suc k) [] h = refl
  take-take (suc n) (suc k) (x ∷ xs) h = ap (λ r. x ∷ r) (take-take n k xs (omega arith))

  take_nil : (n : ℕ) → take {A = A} n [] ≡ []
  take_nil zero = refl
  take_nil (suc n) = refl

  pub drop-take : (m k : ℕ) (xs : List A) → m ≤ k → drop m (take k xs) ≡ take (k - m) (drop m xs)
  drop-take zero k xs h = ap (λ i. take i xs) (omega arith)
  drop-take (suc m) zero xs h = elim h [ ]
  drop-take (suc m) (suc k) [] h = sym (take_nil (suc k - suc m))
  drop-take (suc m) (suc k) (x ∷ xs) h =
      drop-take m k xs (omega arith) ∙ ap (λ i. take i (drop m xs)) (omega arith)

  -- A splice inside the first k elements is a splice of those.
  module _ (n m k : ℕ) (xs mid : List A) (h : k ≤ length xs) (e : length mid ≡ m - n) (o : n ≤ m)
      (i : m ≤ k) where
    pub take-splice :
        take k (take n xs ++ (mid ++ drop m xs)) ≡ take n (take k xs) ++ (mid ++ drop m (take k xs))
    take-splice =
        take-append_past k (take n xs) (mid ++ drop m xs) (omega (arith, length-take_le n xs))
        ∙ ap (λ j. take n xs ++ take j (mid ++ drop m xs)) kept
        ∙ ap (λ r. take n xs ++ r) (take-append_past (k - n) mid (drop m xs) (omega arith))
        ∙ ap (λ j. take n xs ++ (mid ++ take j (drop m xs))) rest
        ∙ sym (ap₂ (λ a b. a ++ (mid ++ b)) (take-take n k xs (omega arith)) (drop-take m k xs i))
      where
        kept : k - length (take n xs) ≡ k - n
        kept = omega (arith, length-take n xs (omega arith))

        rest : k - n - length mid ≡ k - m
        rest = omega arith

  pub all-take : (p : A → Bool) (n : ℕ) (xs : List A) → all p xs ≡ true → all p (take n xs) ≡ true
  all-take p zero xs h = refl
  all-take p (suc n) [] h = refl
  all-take p (suc n) (x ∷ xs) h = ground (arith, all-take p n xs)

  pub all-drop : (p : A → Bool) (n : ℕ) (xs : List A) → all p xs ≡ true → all p (drop n xs) ≡ true
  all-drop p zero xs h = h
  all-drop p (suc n) [] h = refl
  all-drop p (suc n) (x ∷ xs) h = all-drop p n xs (ground arith)

  pub all-splice :
      (p : A → Bool) (n m : ℕ) (xs mid : List A)
      → all p xs ≡ true
      → all p mid ≡ true
      → all p (take n xs ++ (mid ++ drop m xs)) ≡ true
  all-splice p n m xs mid h k = ground (
    arith,
    all-append p (take n xs) (mid ++ drop m xs),
    all-append p mid (drop m xs),
    all-take p n xs,
    all-drop p m xs,
  )

  pub slice-take : (a b k : ℕ) (xs : List A) → a ≤ b → b ≤ k → slice a b (take k xs) ≡ slice a b xs
  slice-take a b k xs h i =
      ap (take (b - a)) (drop-take a k xs (omega arith))
      ∙ take-take (b - a) (k - a) (drop a xs) (omega arith)
