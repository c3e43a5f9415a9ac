-- ===== src/Dataset/Rows.antt =====
-- `Initialize` and `SetR` of AnnService/inc/Core/Common/Dataset.h.
use mathlib.Core.List.{append-nil}
use native.Mathlib.Nat.{one-le-pow, two-pow-succ, pow-le-pow_right}
use sptag.Base.{
  ℕ, zero, suc, ◌+◌, ◌-◌, ◌^◌, ◌≤◌, ◌≡◌, refl, ap, sym, ◌∙◌, inl, inr, false, List, [], ◌∷◌, ◌++◌,
  some, length, length-take, take, leb, arith, Bool-cases,
}
use sptag.Base.Sums.{every}
use sptag.Dataset.{Dataset, r, block_size, ceil_log2_from, ceil_log2, initialize, set_r}
use sptag.Dataset.Overwrite.{take-append_inside}
use sptag.Dataset.Address.{flat, IsValid, view}

below-pow : (k n : ℕ) → n ≤ k → n ≤ 2 ^ k
below-pow zero n h = omega arith
below-pow (suc k) n h =
    let half = below-pow k k (omega arith) in
    let some_more = one-le-pow k 2 (omega arith) in omega (arith, half, some_more, two-pow-succ k)

ceil_log2_from-enough : (fuel k n : ℕ) → n ≤ fuel + k → n ≤ 2 ^ ceil_log2_from fuel k n
unfolding ceil_log2_from
ceil_log2_from-enough zero k n h = below-pow k n (omega arith)
ceil_log2_from-enough (suc fuel) k n h = elim (Bool-cases (leb n (2 ^ k))) [
  | inl e ↦ rw e (ground (arith, e))
  | inr e ↦ rw e (ceil_log2_from-enough fuel (suc k) n (omega arith))
]

past : (k n j : ℕ) → k ≤ j → n ≤ 2 ^ j → leb n (2 ^ k) ≡ false → suc k ≤ j
past k n j le h e = elim (Bool-cases (leb (suc k) j)) [
  | inl far ↦ ground (arith, far)
  | inr near ↦
      let same : j ≡ k = ground (arith, near) in
      let small : n ≤ 2 ^ k = rw same at h in absurd (ground (arith, small, e))
]

ceil_log2_from-least :
    (fuel k n j : ℕ) → k ≤ j → n ≤ 2 ^ j → n ≤ fuel + k → ceil_log2_from fuel k n ≤ j
unfolding ceil_log2_from
ceil_log2_from-least zero k n j le h f = le
ceil_log2_from-least (suc fuel) k n j le h f = elim (Bool-cases (leb n (2 ^ k))) [
  | inl e ↦ rw e le
  | inr e ↦ rw e (ceil_log2_from-least fuel (suc k) n j (past k n j le h e) h (omega arith))
]

module _ {ℓ} {A : Type ℓ} where
  take-take : (xs : List A) (n m : ℕ) → n ≤ m → take n (take m xs) ≡ take n xs
  take-take xs zero m h = refl
  take-take xs (suc n) zero h = absurd (omega arith)
  take-take [] (suc n) (suc m) h = refl
  take-take (x ∷ xs) (suc n) (suc m) h = ap (◌∷◌ x) (take-take xs n m (omega arith))

  pub take-all : (xs : List A) (n : ℕ) → length xs ≡ n → take n xs ≡ xs
  take-all [] zero h = refl
  take-all [] (suc n) h = refl
  take-all (x ∷ xs) zero h = absurd (omega arith)
  take-all (x ∷ xs) (suc n) h = ap (◌∷◌ x) (take-all xs n (omega arith))

  take-append :
      (xs ys : List A) (n : ℕ) → length xs ≤ n → take n (xs ++ ys) ≡ xs ++ take (n - length xs) ys
  take-append [] ys n h = ap (λ m. take m ys) (omega arith)
  take-append (x ∷ xs) ys zero h = absurd (omega arith)
  take-append (x ∷ xs) ys (suc n) h =
      ap (◌∷◌ x) (take-append xs ys n (omega arith)) ∙ ap (λ m. (x ∷ xs) ++ take m ys) (omega arith)

  -- Initialize with rows.
  pub initialize-view :
      (blank : A) (rows_in_block capacity : ℕ) (source : List A)
      → (IsValid (initialize blank (length source) rows_in_block capacity (some source)))
        × (view (initialize blank (length source) rows_in_block capacity (some source)) ≡ source)
        × (rows_in_block
            ≤ block_size (initialize blank (length source) rows_in_block capacity (some source)))
        × ((j : ℕ)
            → rows_in_block ≤ 2 ^ j
            → block_size (initialize blank (length source) rows_in_block capacity (some source))
              ≤ 2 ^ j)
  unfolding initialize view block_size ceil_log2 every flat
  initialize-view blank rows_in_block capacity source = (
    record { owned = omega arith; sizes = refl; inside = omega arith },
    append-nil (take (length source) source) ∙ take-all source (length source) refl,
    ceil_log2_from-enough rows_in_block 0 rows_in_block (omega arith),
    (λ j h.
        pow-le-pow_right (omega arith)
          (ceil_log2_from-least rows_in_block 0 rows_in_block j (omega arith) h (omega arith))),
  )

  -- SetR to fewer rows.
  pub set_r-view :
      (d : Dataset A) (n : ℕ)
      → IsValid d
      → n ≤ r d
      → IsValid (set_r d n) × (view (set_r d n) ≡ take n (view d))
  unfolding set_r r view block_size
  set_r-view d n v le = elim (Bool-cases (leb d.rows n)) [
    | inl more ↦
        let owned = v.owned in
        let inside = v.inside in
        let low : length (take d.rows d.data_) ≡ d.rows =
          omega (arith, length-take d.rows d.data_, owned) in
        rw more (
          record { owned = v.owned; sizes = v.sizes; inside = omega (arith, inside, le) },
          sym (
              take-append (take d.rows d.data_) (take d.inc_rows (flat d.inc_blocks)) n
                (ground (arith, low, more))
              ∙ ap (λ m. take d.rows d.data_ ++ take m (take d.inc_rows (flat d.inc_blocks)))
                  (ap (λ m. n - m) low)
              ∙ ap (◌++◌ (take d.rows d.data_))
                  (take-take (flat d.inc_blocks) (n - d.rows) d.inc_rows (omega (arith, le)))),
        )
    | inr fewer ↦
        let owned = v.owned in
        let low : length (take d.rows d.data_) ≡ d.rows =
          omega (arith, length-take d.rows d.data_, owned) in
        rw fewer (
          record { owned = ground (arith, owned, fewer); sizes = v.sizes; inside = omega arith },
          append-nil (take n d.data_)
              ∙ sym (take-take d.data_ n d.rows (ground (arith, fewer)))
              ∙ sym (
                  take-append_inside (take d.rows d.data_) (take d.inc_rows (flat d.inc_blocks)) n
                    (ground (arith, low, fewer))),
        )
  ]
