-- ===== src/Dataset/Overwrite.antt =====
-- Rows written over a part of a block, for AnnService/inc/Core/Common/Dataset.h.
use native.Mathlib.Nat.{zero-add, suc-add}
use sptag.Base.{
  ℕ, zero, suc, ◌+◌, ◌≤◌, ◌<◌, ◌≡◌, refl, ap, List, [], ◌∷◌, ◌++◌, length, take, drop, get_elem?,
  arith,
}
use sptag.Dataset.{overwrite}

module _ {ℓ} {A : Type ℓ} where
  pub length-overwrite :
      (xs : List A) (n : ℕ) (ys : List A) → length (overwrite xs n ys) ≡ length xs
  unfolding overwrite
  length-overwrite [] n ys = refl
  length-overwrite (x ∷ xs) (suc n) ys = ap suc (length-overwrite xs n ys)
  length-overwrite (x ∷ xs) zero [] = refl
  length-overwrite (x ∷ xs) zero (y ∷ ys) = ap suc (length-overwrite xs zero ys)

  pub overwrite-append_inside :
      (xs zs : List A) (n : ℕ) (ys : List A)
      → n + length ys ≤ length xs
      → overwrite (xs ++ zs) n ys ≡ overwrite xs n ys ++ zs
  unfolding overwrite
  overwrite-append_inside [] [] zero [] h = refl
  overwrite-append_inside [] (z ∷ zs) zero [] h = refl
  overwrite-append_inside [] zs (suc n) ys h = absurd (omega arith)
  overwrite-append_inside [] zs zero (y ∷ ys) h = absurd (omega arith)
  overwrite-append_inside (x ∷ xs) zs (suc n) ys h =
      ap (◌∷◌ x) (overwrite-append_inside xs zs n ys (omega arith))
  overwrite-append_inside (x ∷ xs) zs zero [] h = refl
  overwrite-append_inside (x ∷ xs) zs zero (y ∷ ys) h =
      ap (◌∷◌ y) (overwrite-append_inside xs zs zero ys (omega arith))

  pub overwrite-append_past :
      (xs zs : List A) (n : ℕ) (ys : List A)
      → overwrite (xs ++ zs) (length xs + n) ys ≡ xs ++ overwrite zs n ys
  unfolding overwrite
  overwrite-append_past [] zs n ys = simp zero-add refl
  overwrite-append_past (x ∷ xs) zs n ys =
      simp suc-add (ap (◌∷◌ x) (overwrite-append_past xs zs n ys))

  pub overwrite-nothing : (xs : List A) (n : ℕ) → overwrite xs n [] ≡ xs
  unfolding overwrite
  overwrite-nothing [] n = refl
  overwrite-nothing (x ∷ xs) (suc n) = ap (◌∷◌ x) (overwrite-nothing xs n)
  overwrite-nothing (x ∷ xs) zero = refl

  pub overwrite-overwrite :
      (xs : List A) (n : ℕ) (ys zs : List A)
      → overwrite (overwrite xs n ys) (n + length ys) zs ≡ overwrite xs n (ys ++ zs)
  unfolding overwrite
  overwrite-overwrite [] n ys zs = refl
  overwrite-overwrite (x ∷ xs) (suc n) ys zs =
      simp suc-add (ap (◌∷◌ x) (overwrite-overwrite xs n ys zs))
  overwrite-overwrite (x ∷ xs) zero [] zs = refl
  overwrite-overwrite (x ∷ xs) zero (y ∷ ys) zs =
      let rest : overwrite (overwrite xs 0 ys) (length ys) zs ≡ overwrite xs 0 (ys ++ zs) =
        simp zero-add at (overwrite-overwrite xs zero ys zs) in
      simp zero-add (ap (◌∷◌ y) rest)

  pub take-overwrite_before :
      (xs : List A) (n m : ℕ) (ys : List A) → n ≤ m → take n (overwrite xs m ys) ≡ take n xs
  unfolding overwrite
  take-overwrite_before xs zero m ys h = refl
  take-overwrite_before [] (suc n) m ys h = refl
  take-overwrite_before (x ∷ xs) (suc n) (suc m) ys h =
      ap (◌∷◌ x) (take-overwrite_before xs n m ys (omega arith))
  take-overwrite_before (x ∷ xs) (suc n) zero ys h = absurd (omega arith)

  pub take-overwrite :
      (xs : List A) (n : ℕ) (ys : List A)
      → n + length ys ≤ length xs
      → take (n + length ys) (overwrite xs n ys) ≡ take n xs ++ ys
  unfolding overwrite
  take-overwrite [] zero [] h = refl
  take-overwrite [] (suc n) ys h = absurd (omega arith)
  take-overwrite [] zero (y ∷ ys) h = absurd (omega arith)
  take-overwrite (x ∷ xs) (suc n) ys h =
      simp suc-add (ap (◌∷◌ x) (take-overwrite xs n ys (omega arith)))
  take-overwrite (x ∷ xs) zero [] h = refl
  take-overwrite (x ∷ xs) zero (y ∷ ys) h =
      let rest : take (length ys) (overwrite xs 0 ys) ≡ ys =
        simp zero-add at (take-overwrite xs zero ys (omega arith)) in
      simp zero-add (ap (◌∷◌ y) rest)

  pub take-append_inside : (xs ys : List A) (n : ℕ) → n ≤ length xs → take n (xs ++ ys) ≡ take n xs
  take-append_inside xs ys zero h = refl
  take-append_inside [] ys (suc n) h = absurd (omega arith)
  take-append_inside (x ∷ xs) ys (suc n) h = ap (◌∷◌ x) (take-append_inside xs ys n (omega arith))

  pub drop-drop : (xs : List A) (n m : ℕ) → drop m (drop n xs) ≡ drop (n + m) xs
  drop-drop xs zero m = simp zero-add refl
  drop-drop [] (suc n) zero = simp suc-add refl
  drop-drop [] (suc n) (suc m) = simp suc-add refl
  drop-drop (x ∷ xs) (suc n) m = simp suc-add (drop-drop xs n m)

  pub get_elem?-take : (xs : List A) (n i : ℕ) → i < n → get_elem? (take n xs) i ≡ get_elem? xs i
  get_elem?-take xs zero i h = absurd (omega arith)
  get_elem?-take [] (suc n) i h = refl
  get_elem?-take (x ∷ xs) (suc n) zero h = refl
  get_elem?-take (x ∷ xs) (suc n) (suc i) h = get_elem?-take xs n i (omega arith)

  pub get_elem?-append_inside :
      (xs ys : List A) (i : ℕ) → i < length xs → get_elem? (xs ++ ys) i ≡ get_elem? xs i
  get_elem?-append_inside [] ys i h = absurd (omega arith)
  get_elem?-append_inside (x ∷ xs) ys zero h = refl
  get_elem?-append_inside (x ∷ xs) ys (suc i) h = get_elem?-append_inside xs ys i (omega arith)

  pub get_elem?-append_past :
      (xs ys : List A) (i : ℕ) → get_elem? (xs ++ ys) (length xs + i) ≡ get_elem? ys i
  get_elem?-append_past [] ys i = simp zero-add refl
  get_elem?-append_past (x ∷ xs) ys i = simp suc-add (get_elem?-append_past xs ys i)

  pub drop-past : (xs : List A) (n : ℕ) → length xs ≤ n → drop n xs ≡ []
  drop-past [] zero h = refl
  drop-past [] (suc n) h = refl
  drop-past (x ∷ xs) zero h = absurd (omega arith)
  drop-past (x ∷ xs) (suc n) h = drop-past xs n (omega arith)
