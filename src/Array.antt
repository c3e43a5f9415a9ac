-- ===== src/Array.antt =====
-- Arrays as lists under native indices, read with the element type's default value.
use mathlib.Core.List.Perm
use sptag.Base.{
  ℕ, zero, suc, ◌+◌, ◌<◌, ◌≡◌, refl, ap, ◌∙◌, List, [], ◌∷◌, Perm, some, arith, ◌==◌, if◌then◌else◌,
  length, get_elem?, set, take, drop, length-set, Option, none, get_elem?-set, get_elem?-inside,
}
use sptag.Order.{Ordered}

module _ {ℓ} {T : Type ℓ} ⦃order : Ordered T⦄ where
  unfoldable pub get! : List T → ℕ → T
  get! [] i = order.default
  get! (x ∷ xs) zero = x
  get! (x ∷ xs) (suc i) = get! xs i

  -- `std::swap(xs[i], xs[j])`
  unfoldable pub swap : List T → ℕ → ℕ → List T
  swap xs i j = set (set xs i (get! xs j)) j (get! xs i)

  -- a read anywhere
  value_or : Option T → T
  value_or o = elim o [ some x ↦ x | none ↦ order.default ]

  get!-get_elem? : (xs : List T) (i : ℕ) → get! xs i ≡ value_or (get_elem? xs i)
  unfolding value_or get!
  get!-get_elem? [] i = refl
  get!-get_elem? (x ∷ xs) zero = refl
  get!-get_elem? (x ∷ xs) (suc i) = get!-get_elem? xs i

  -- a read inside the array
  pub load : (xs : List T) (i : ℕ) → i < length xs → get_elem? xs i ≡ some (get! xs i)
  unfolding value_or
  load xs i h = let (x, e) = get_elem?-inside xs i h in ground (arith, get!-get_elem? xs i)

  pub get!-set :
      (xs : List T) (i j : ℕ) (v : T)
      → i < length xs
      → get! (set xs i v) j ≡ (if i == j then v else get! xs j)
  unfolding value_or
  get!-set xs i j v h =
      rw (get!-get_elem? (set xs i v) j, get_elem?-set xs i j v h, get!-get_elem? xs j)
        (ground arith)

  -- a write trades the old entry for the new one
  pub set-perm :
      (xs : List T) (i : ℕ) (v : T) → i < length xs → Perm (get! xs i ∷ set xs i v) (v ∷ xs)
  unfolding get!
  set-perm [] i v h = absurd (omega arith)
  set-perm (x ∷ xs) zero v h = Perm.swap v x xs
  set-perm (x ∷ xs) (suc i) v h =
      Perm.trans (Perm.swap x _ _)
        (Perm.trans (Perm.cons x (set-perm xs i v (omega arith))) (Perm.swap v x xs))

  pub length-swap : (xs : List T) (i j : ℕ) → length (swap xs i j) ≡ length xs
  unfolding swap
  length-swap xs i j = length-set (set xs i (get! xs j)) j (get! xs i) ∙ length-set xs i (get! xs j)

  pub get!-swap :
      (xs : List T) (i j : ℕ)
      → i < length xs
      → j < length xs
      → (k : ℕ)
      → get! (swap xs i j) k
        ≡ (if j == k then get! xs i else if i == k then get! xs j else get! xs k)
  unfolding swap
  get!-swap xs i j p q k =
      let first = get!-set xs i k (get! xs j) p in
      let wide : j < length (set xs i (get! xs j)) = rw length-set q in
      get!-set (set xs i (get! xs j)) j k (get! xs i) wide ∙ ground (arith, first)

  pub swap-perm : (xs : List T) (i j : ℕ) → i < length xs → j < length xs → Perm (swap xs i j) xs
  unfolding swap
  swap-perm xs i j p q =
      let ys = set xs i (get! xs j) in
      let old : get! ys j ≡ get! xs j = get!-set xs i j (get! xs j) p ∙ ground arith in
      let wide : j < length ys = rw length-set q in
      Perm.cons_inv
        (Perm.trans (rw old at (set-perm ys j (get! xs i) wide)) (set-perm xs i (get! xs j) p))

  -- two arrays of one length that agree at every index
  pub get!_ext :
      (a b : List T) → length a ≡ length b → ((i : ℕ) → i < length a → get! a i ≡ get! b i) → a ≡ b
  unfolding get!
  get!_ext [] [] h e = refl
  get!_ext [] (y ∷ b) h e = absurd (omega arith)
  get!_ext (x ∷ a) [] h e = absurd (omega arith)
  get!_ext (x ∷ a) (y ∷ b) h e =
      rw (e 0 (omega arith), get!_ext a b (omega arith) (λ i p. e (suc i) (omega arith)))

  pub get!-drop : (a : List T) (n i : ℕ) → get! (drop n a) i ≡ get! a (n + i)
  unfolding get!
  get!-drop a zero i = ap (get! a) (omega arith)
  get!-drop [] (suc n) i = refl
  get!-drop (x ∷ a) (suc n) i = get!-drop a n i ∙ ground arith

  pub get!-take : (a : List T) (n i : ℕ) → i < n → get! (take n a) i ≡ get! a i
  unfolding get!
  get!-take a zero i h = absurd (omega arith)
  get!-take [] (suc n) i h = refl
  get!-take (x ∷ a) (suc n) zero h = refl
  get!-take (x ∷ a) (suc n) (suc i) h = get!-take a n i (omega arith)
