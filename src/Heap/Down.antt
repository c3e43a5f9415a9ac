-- ===== src/Heap/Down.antt =====
-- The private `heapify` of Heap.h, and the order of a heap below one entry.
use sptag.Base.{
  ℕ, zero, suc, ◌+◌, ◌*◌, ◌/◌, ◌≤◌, ◌<◌, ◌≡◌, ◌≢◌, ◌⊎◌, inl, inr, true, false, List, some, arith,
  ltb, ltb→lt, ltb→le, lt→ltb, ◌==◌, ==_iff, if◌then◌else◌, Bool-cases, length, ◌>>=◌,
}
use sptag.Array.{get!, swap, load, get!-swap, length-swap}
use sptag.Order.{Ordered, less, ◌≼◌, ≼_refl, ≼_trans}
use sptag.Heap.{swap_checked, heapify_last, heapify_loop, heapify}
use sptag.Heap.Sifted.{
  IsHeap, Rearranged, Rearranged-refl, Rearranged-trans, Rearranged-swap, Sifts,
}

module _ {ℓ} {T : Type ℓ} ⦃order : Ordered T⦄ where
  pub swap_checked-ok :
      (a : List T) (i j : ℕ) → i < length a → j < length a → swap_checked a i j ≡ some (swap a i j)
  unfolding swap_checked
  swap_checked-ok a i j hi hj = rw (load a i hi, load a j hj)

  -- every edge but those below `p` is in order, and so are the edges that skip `p`
  pub record DownInv (count : ℕ) (a : List T) (p : ℕ) : Type 0 where
    pub inside : count < length a
    pub positive : 1 ≤ p
    pub edges : (i : ℕ) → 2 ≤ i → i ≤ count → i / 2 ≢ p → get! a (i / 2) ≼ get! a i
    pub bridged : (i : ℕ) → 2 ≤ i → i ≤ count → i / 2 ≡ p → 2 ≤ p → get! a (p / 2) ≼ get! a i

  module _ (count : ℕ) (a : List T) (p : ℕ) (inv : DownInv count a p) where
    -- no child precedes the parent: the sift is over
    settled : ((i : ℕ) → i ≤ count → i / 2 ≡ p → get! a p ≼ get! a i) → IsHeap count a
    settled below i lo hi = elim (native_cases (i / 2) p) [
      | inl e ↦ rw e (below i hi e)
      | inr n ↦ inv.edges i lo hi n
    ]
      where
        native_cases : (x y : ℕ) → (x ≡ y) ⊎ (x ≢ y)
        native_cases x y = omega arith

    module _ (m : ℕ) (child : m / 2 ≡ p) (lo : 2 ≤ m) (hi : m ≤ count)
        (under : less (get! a m) (get! a p) ≡ true)
        (least : (i : ℕ) → i ≤ count → i / 2 ≡ p → get! a m ≼ get! a i) where
      at :
          (k : ℕ)
          → get! (swap a p m) k
            ≡ (if m == k then get! a p else if p == k then get! a m else get! a k)
      at = get!-swap a p m (omega (arith, inv.inside)) (omega (arith, inv.inside))

      sunk-edges :
          (i : ℕ) → 2 ≤ i → i ≤ count → i / 2 ≢ m → get! (swap a p m) (i / 2) ≼ get! (swap a p m) i
      sunk-edges i l h n =
          rw (at i, at (i / 2))
            (ground
              (arith, inv.edges i, inv.bridged m, least i, order.less_asymm (get! a m) (get! a p)))

      sunk-bridged :
          (i : ℕ) → 2 ≤ i → i ≤ count → i / 2 ≡ m → get! (swap a p m) (m / 2) ≼ get! (swap a p m) i
      sunk-bridged i l h e = rw (at i, at (m / 2)) (ground (arith, inv.edges i))

      sunk-Inv : DownInv count (swap a p m) m
      sunk-Inv = record {
        inside = rw length-swap inv.inside;
        positive = omega arith;
        edges = sunk-edges;
        bridged = λ i l h e _. sunk-bridged i l h e;
      }

      sunk-Rearranged : Rearranged count a (swap a p m)
      sunk-Rearranged = Rearranged-swap a p m inv.inside inv.positive (omega arith) (omega arith) hi

  -- the statement after the loop, when at most one child is left to compare
  heapify_last-Sifts :
      (count : ℕ) (a : List T) (p : ℕ)
      → DownInv count a p
      → count ≤ p * 2
      → Sifts count a (heapify_last a p (p * 2) count)
  unfolding heapify_last
  heapify_last-Sifts count a p inv out = elim (Bool-cases (p * 2 == count)) [
    | inr other ↦ (
      a,
      rw other,
      settled count a p inv (λ i hi e. absurd (ground arith)),
      Rearranged-refl count a,
    )
    | inl same ↦
        let eq : p * 2 ≡ count = (==_iff _ _).0 same in
        let loads = λ (k : ℕ) (h : k ≤ count). load a k (omega (arith, inv.inside)) in
        elim (Bool-cases (less (get! a (p * 2)) (get! a p))) [
          | inl under ↦
              let only : (i : ℕ) → i ≤ count → i / 2 ≡ p → get! a (p * 2) ≼ get! a i =
                λ i h e. let here : p * 2 ≡ i = omega arith in rw here (≼_refl (get! a i)) in
              let inside = inv.inside in
              let positive = inv.positive in
              (
                swap a p (p * 2),
                rw (same, loads (p * 2) (omega arith), loads p (omega arith), ◌>>=◌, under)
                    (swap_checked-ok a p (p * 2) (omega arith) (omega arith)),
                (λ i l h.
                    sunk-edges count a p inv (p * 2) (omega arith) (omega arith) (omega arith) under
                      only i l h (omega arith)),
                sunk-Rearranged count a p inv (p * 2) (omega arith) (omega arith) (omega arith)
                    under only,
              )
          | inr over ↦ (
            a,
            rw (same, loads (p * 2) (omega arith), loads p (omega arith), ◌>>=◌, over),
            settled count a p inv (λ i hi e. ground arith),
            Rearranged-refl count a,
          )
        ]
  ]

  module _ (count : ℕ) (a : List T) (p : ℕ) (inv : DownInv count a p) (two : p * 2 < count) where
    -- the child that the round chooses: the smaller of the two
    chosen : ℕ
    chosen = if less (get! a (p * 2 + 1)) (get! a (p * 2)) then p * 2 + 1 else p * 2

    chosen_bounds : (chosen / 2 ≡ p) × (2 ≤ chosen) × (chosen ≤ count) × (p < chosen)
    unfolding chosen
    chosen_bounds = let positive = inv.positive in ground arith

    chosen-least : (i : ℕ) → i ≤ count → i / 2 ≡ p → get! a chosen ≼ get! a i
    unfolding chosen
    chosen-least i h e =
        let l = get! a (p * 2) in
        let r = get! a (p * 2 + 1) in ground (arith, ≼_refl l, ≼_refl r, order.less_asymm r l)

    -- one round of the loop, its reads resolved
    heapify_loop-round :
        (fuel : ℕ)
        → heapify_loop (suc fuel) a p (p * 2) count ≡ (
            if less (get! a chosen) (get! a p)
            then heapify_loop fuel (swap a p chosen) chosen (chosen * 2) count
            else heapify_last a p chosen count)
    unfolding heapify_loop chosen
    heapify_loop-round fuel =
        let inside = inv.inside in
        rw (
          lt→ltb _ _ two,
          load a (p * 2) (omega arith),
          load a (p * 2 + 1) (omega arith),
          load a chosen (omega (arith, chosen_bounds)),
          load a p (omega arith),
          swap_checked-ok a p chosen (omega arith) (omega (arith, chosen_bounds)),
        )

  -- a sift that stops is over: the statement after the loop changes nothing
  heapify_last-rest :
      (count : ℕ) (a : List T) (p m : ℕ)
      → count < length a
      → p ≤ count
      → m ≤ count
      → less (get! a m) (get! a p) ≡ false
      → heapify_last a p m count ≡ some a
  unfolding heapify_last
  heapify_last-rest count a p m h i j over =
      rw (load a m (omega arith), load a p (omega arith), ◌>>=◌, over) (ground arith)

  heapify_loop-done :
      (fuel count : ℕ) (a : List T) (p : ℕ)
      → ltb (p * 2) count ≡ false
      → heapify_loop (suc fuel) a p (p * 2) count ≡ heapify_last a p (p * 2) count
  unfolding heapify_loop
  heapify_loop-done fuel count a p done = rw done

  heapify_loop-Sifts :
      (fuel count : ℕ) (a : List T) (p : ℕ)
      → DownInv count a p
      → 0 < fuel
      → count < fuel + p
      → Sifts count a (heapify_loop fuel a p (p * 2) count)
  heapify_loop-Sifts zero count a p inv h f = absurd (omega arith)
  heapify_loop-Sifts (suc fuel) count a p inv h f = elim (Bool-cases (ltb (p * 2) count)) [
    | inr done ↦
        rw (heapify_loop-done fuel count a p done)
          (heapify_last-Sifts count a p inv (ltb→le _ _ done))
    | inl more ↦
        let two = ltb→lt _ _ more in
        let m = chosen count a p inv two in
        let (half, lo, hi, below) = chosen_bounds count a p inv two in
        let least = chosen-least count a p inv two in
        rw (heapify_loop-round count a p inv two fuel)
          elim (Bool-cases (less (get! a m) (get! a p))) [
            | inl under ↦
                let (b, run, heap, same) =
                  heapify_loop-Sifts fuel count (swap a p m) m
                    (sunk-Inv count a p inv m half lo hi under least) (omega arith) (omega arith) in
                (
                  b,
                  rw (under) run,
                  heap,
                  Rearranged-trans (sunk-Rearranged count a p inv m half lo hi under least) same,
                )
            | inr over ↦ (
              a,
              rw over (heapify_last-rest count a p m inv.inside (omega arith) hi over),
              settled count a p inv
                  (λ i h e. ≼_trans (get! a p) (get! a m) (get! a i) over (least i h e)),
              Rearranged-refl count a,
            )
          ]
  ]

  -- `heapify` ends, without a fault, in a heap of the same entries
  pub heapify-Sifts : (count : ℕ) (a : List T) → DownInv count a 1 → Sifts count a (heapify a count)
  unfolding heapify
  heapify-Sifts count a inv =
      heapify_loop-Sifts (count + 1) count a 1 inv (omega arith) (omega arith)
