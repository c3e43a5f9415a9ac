-- ===== src/Results/Shift.antt =====
-- `Heapify` of QueryResultSet.h beside `heapify` of Heap.h, which is one index higher.
use sptag.Base.{
  ℕ, zero, suc, ◌+◌, ◌*◌, ◌≡◌, ◌∙◌, refl, ap, inl, inr, List, ◌∷◌, arith, ltb, if◌then◌else◌,
  Bool-cases, Option-cases, get_elem?, ◌>>=◌,
}
use mathlib.Core.Option
use sptag.Array.{get!, swap}
use sptag.Heap
use sptag.Results.{BasicResult, less_result, worst_first, swap_results, heapify_last, heapify_loop}

ltb-suc : (n m : ℕ) → ltb (suc n) (suc m) ≡ ltb n m
ltb-suc n m = ground arith

module _ (d : BasicResult) where
  swap-cons :
      (a : List BasicResult) (i j : ℕ)
      → Heap.swap_checked (d ∷ a) (suc i) (suc j) ≡ Option.map (◌∷◌ d) (swap_results a i j)
  unfolding swap_results swap get! Heap.swap_checked
  swap-cons a i j = ground arith

  last-cons :
      (a : List BasicResult) (p n m : ℕ)
      → Heap.heapify_last (d ∷ a) (suc p) (suc n) (suc m)
        ≡ Option.map (◌∷◌ d) (heapify_last a p n m)
  unfolding heapify_last Heap.heapify_last
  last-cons a p n m = ground (arith, swap-cons a p n)

  -- the end of a round, once the child `k` is chosen
  sink-cons :
      (fuel : ℕ) (a : List BasicResult) (p k m : ℕ)
      → ((b : List BasicResult)
          → Heap.heapify_loop fuel (d ∷ b) (suc k) (suc k * 2) (suc m)
            ≡ Option.map (◌∷◌ d) (heapify_loop fuel b k (k * 2 + 1) m))
      → (get_elem? (d ∷ a) (suc k) >>= λ c. get_elem? (d ∷ a) (suc p) >>= λ q.
          if less_result q c
          then Heap.swap_checked (d ∷ a) (suc p) (suc k)
            >>= (λ b. Heap.heapify_loop fuel b (suc k) (suc k * 2) (suc m))
          else Heap.heapify_last (d ∷ a) (suc p) (suc k) (suc m))
        ≡ Option.map (◌∷◌ d) (
            get_elem? a k >>= λ c. get_elem? a p >>= λ q.
            if less_result q c
            then swap_results a p k >>= (λ b. heapify_loop fuel b k (k * 2 + 1) m)
            else heapify_last a p k m)
  unfolding swap_results
  sink-cons fuel a p k m ih =
      rw (swap-cons a p k, last-cons a p k m) (ground (arith, ih (swap a p k)))

  pub loop-cons :
      (fuel : ℕ) (a : List BasicResult) (p n m : ℕ)
      → Heap.heapify_loop fuel (d ∷ a) (suc p) (suc n) (suc m)
        ≡ Option.map (◌∷◌ d) (heapify_loop fuel a p n m)
  unfolding heapify_loop Heap.heapify_loop
  loop-cons zero a p n m = refl
  loop-cons (suc fuel) a p n m =
      let deeper : (k : ℕ) (b : List BasicResult)
          → Heap.heapify_loop fuel (d ∷ b) (suc k) (suc k * 2) (suc m)
            ≡ Option.map (◌∷◌ d) (heapify_loop fuel b k (k * 2 + 1) m) =
        λ k b.
          let e : suc k * 2 ≡ suc (k * 2 + 1) = omega arith in
          ap (λ (t : ℕ). Heap.heapify_loop fuel (d ∷ b) (suc k) t (suc m)) e
          ∙ loop-cons fuel b k (k * 2 + 1) m in
      let next : suc n + 1 ≡ suc (n + 1) = omega arith in
      rw (next, ltb-suc n m)
        (elim (Bool-cases (ltb n m)) [
          | inr done ↦ rw done (last-cons a p n m)
          | inl more ↦ rw more (elim (Option-cases (get_elem? a n)) [
            | inl e ↦ rw e
            | inr (x, e) ↦ rw e (elim (Option-cases (get_elem? a (n + 1))) [
              | inl f ↦ rw f
              | inr (y, f) ↦ rw f (elim (Bool-cases (less_result x y)) [
                | inl g ↦ rw (g) (sink-cons fuel a p (n + 1) m (deeper (n + 1)))
                | inr g ↦ rw g (sink-cons fuel a p n m (deeper n))
              ])
            ])
          ])
        ])
