-- ===== src/Heap/Sifted.antt =====
-- The heap order on the entries 1 to `count`, and what a sift may change.
use mathlib.Core.List.Perm
use sptag.Base.{ℕ, zero, suc, ◌/◌, ◌≤◌, ◌<◌, ◌≡◌, ◌⊎◌, List, Perm, Option, some, arith, length}
use sptag.Array.{get!, swap, get!-swap, swap-perm}
use sptag.Order.{Ordered, ◌≼◌, ≼_refl, ≼_trans}

module _ {ℓ} {T : Type ℓ} ⦃order : Ordered T⦄ where
  -- no entry precedes its parent
  abbrev pub IsHeap : ℕ → List T → Type 0
  IsHeap count a = (i : ℕ) → 2 ≤ i → i ≤ count → get! a (i / 2) ≼ get! a i

  -- `b` holds the entries of `a`, rearranged within 1 to `count`
  pub record Rearranged (count : ℕ) (a b : List T) : Type ℓ where
    pub perm : Perm b a
    pub outside : (i : ℕ) → (i ≡ 0) ⊎ (count < i) → get! b i ≡ get! a i

  pub Rearranged-refl : (count : ℕ) (a : List T) → Rearranged count a a
  Rearranged-refl count a = record { perm = Perm.rfl; outside = ground arith }

  pub Rearranged-trans :
      {count : ℕ} {a b c : List T}
      → Rearranged count a b
      → Rearranged count b c
      → Rearranged count a c
  Rearranged-trans r s = record {
    perm = Perm.trans s.perm r.perm;
    outside = λ i h. ground (arith, r.outside i h, s.outside i h);
  }

  pub Rearranged-swap :
      {count : ℕ} (a : List T) (i j : ℕ)
      → count < length a
      → 0 < i
      → i ≤ count
      → 0 < j
      → j ≤ count
      → Rearranged count a (swap a i j)
  Rearranged-swap a i j h pi hi pj hj = record {
    perm = swap-perm a i j (omega arith) (omega arith);
    outside = λ k out. ground (arith, get!-swap a i j (omega arith) (omega arith) k);
  }

  -- the run ends, without a fault, in a heap of the same entries
  abbrev pub Sifts : ℕ → List T → Option (List T) → Type ℓ
  Sifts count a r = (b : List T) × (r ≡ some b) × IsHeap count b × Rearranged count a b

  root-below :
      (fuel count : ℕ) (a : List T) (i : ℕ)
      → IsHeap count a
      → i < fuel
      → 0 < i
      → i ≤ count
      → get! a 1 ≼ get! a i
  root-below zero count a i h f p q = absurd (omega arith)
  root-below (suc fuel) count a zero h f p q = elim p [ ]
  root-below (suc fuel) count a (suc zero) h f p q = ≼_refl (get! a 1)
  root-below (suc fuel) count a (suc (suc i)) h f p q =
      let j = suc (suc i) in
      ≼_trans (get! a 1) (get! a (j / 2)) (get! a j)
        (root-below fuel count a (j / 2) h (omega arith) (omega arith) (omega arith))
        (h j (omega arith) q)

  -- the first entry of a heap precedes every other
  pub root-least :
      (count : ℕ) (a : List T) (i : ℕ) → IsHeap count a → 0 < i → i ≤ count → get! a 1 ≼ get! a i
  root-least count a i h p q = root-below (suc i) count a i h (omega arith) p q
