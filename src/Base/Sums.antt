-- ===== src/Base/Sums.antt =====
-- Sums and tests over the elements of a list.
use mathlib.Core.List.{Permᴰ}
use mathlib.Core.Logic.{∥∥₁_elim}
use mathlib.Core.Option.{some_inj}
use native.Mathlib.Nat.{ℕ_set}
use sptag.Base.{
  ℕ, zero, suc, ◌+◌, ◌*◌, ◌≤◌, ◌≡◌, refl, ap, sym, Bool, true, false, ◌&&◌, List, [], ◌∷◌, ◌++◌,
  Perm, some, inl, inr, Bool-cases, arith, get_elem?, set, length,
}

module _ {ℓ} {A : Type ℓ} where
  unfoldable pub total : (A → ℕ) → List A → ℕ
  total f [] = 0
  total f (x ∷ xs) = f x + total f xs

  pub total-append : (f : A → ℕ) (xs ys : List A) → total f (xs ++ ys) ≡ total f xs + total f ys
  unfolding total
  total-append f [] ys = omega arith
  total-append f (x ∷ xs) ys = omega (arith, total-append f xs ys)

  same_total : (f : A → ℕ) {xs ys : List A} → Permᴰ xs ys → total f ys ≡ total f xs
  unfolding total
  same_total f (Permᴰ.trans first second) = omega (arith, same_total f first, same_total f second)
  same_total f (Permᴰ.swap x y) = omega (arith, ap f x, ap f y)
  same_total f (Permᴰ.cons x rest) = omega (arith, ap f x, same_total f rest)
  same_total f Permᴰ.nil = refl

  pub total-perm : (f : A → ℕ) {xs ys : List A} → Perm xs ys → total f xs ≡ total f ys
  total-perm f p = sym (∥∥₁_elim p (ℕ_set _ _) (same_total f))

  -- one element changes
  pub total-set :
      (f : A → ℕ) (xs : List A) (i : ℕ) (x y : A)
      → get_elem? xs i ≡ some x
      → total f (set xs i y) + f x ≡ total f xs + f y
  unfolding total
  total-set f [] i x y h = absurd (let never = h in cc)
  total-set f (z ∷ xs) zero x y h = rw (some_inj.0 h) (omega arith)
  total-set f (z ∷ xs) (suc i) x y h = omega (arith, total-set f xs i x y h)

  -- the weight rises by at most `d` for each element
  pub total-rises :
      (f g : A → ℕ) (d : ℕ) (xs : List A)
      → ((x : A) → g x ≤ f x + d)
      → total g xs ≤ total f xs + length xs * d
  unfolding total
  total-rises f g d [] h = omega arith
  total-rises f g d (x ∷ xs) h = grind (arith, total-rises f g d xs h, h x)

  unfoldable pub every : (A → Bool) → List A → Bool
  every test [] = true
  every test (x ∷ xs) = test x && every test xs

  pub every-get_elem? :
      (test : A → Bool) (xs : List A) (i : ℕ) (x : A)
      → every test xs ≡ true
      → get_elem? xs i ≡ some x
      → test x ≡ true
  unfolding every
  every-get_elem? test [] i x h e = absurd (let never = e in cc)
  every-get_elem? test (z ∷ xs) zero x h e =
      let first : test z ≡ true = ground (arith, h) in rw (some_inj.0 e) at first
  every-get_elem? test (z ∷ xs) (suc i) x h e = every-get_elem? test xs i x (ground (arith, h)) e

  pub every-set :
      (test : A → Bool) (xs : List A) (i : ℕ) (y : A)
      → every test xs ≡ true
      → test y ≡ true
      → every test (set xs i y) ≡ true
  unfolding every
  every-set test [] i y h k = h
  every-set test (z ∷ xs) zero y h k = ground (arith, h, k)
  every-set test (z ∷ xs) (suc i) y h k =
      ground (arith, h, every-set test xs i y (ground (arith, h)) k)

  pub every-append :
      (test : A → Bool) (xs ys : List A)
      → every test xs ≡ true
      → every test ys ≡ true
      → every test (xs ++ ys) ≡ true
  unfolding every
  every-append test [] ys h k = k
  every-append test (x ∷ xs) ys h k = ground (arith, h, every-append test xs ys)

  -- the first element that fails the test
  pub every-false :
      (test : A → Bool) (xs : List A)
      → every test xs ≡ false
      → (i : ℕ) × (x : A) × (get_elem? xs i ≡ some x) × (test x ≡ false)
  unfolding every
  every-false test [] h = absurd (let never = h in cc)
  every-false test (x ∷ xs) h = elim (Bool-cases (test x)) [
    | inr e ↦ (0, x, refl, e)
    | inl e ↦ let (i, y, found, fails) = every-false test xs (rw e at h) in (suc i, y, found, fails)
  ]
