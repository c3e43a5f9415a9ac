-- ===== src/Heap/Valid.antt =====
-- The class invariant of Heap.h, `Resize` and `clear`.
use sptag.Base.{
  ℕ, zero, suc, ◌+◌, ◌*◌, ◌≤◌, ◌<◌, ◌≡◌, ◌⊎◌, inl, inr, refl, List, [], arith, ltb, leb,
  if◌then◌else◌, Bool-cases, length, length-replicate, drop, ltb→le, length-take, length-drop,
}
use sptag.Order.{Ordered}
use sptag.Heap.{Heap, pow2_floor_loop, pow2_floor, resize, size, clear}
use sptag.Heap.Sifted.{IsHeap}
use sptag.Heap.Live.{live}

pow2_floor_loop-bounds :
    (f p size : ℕ)
    → 0 < p
    → p ≤ size
    → (size < p + f) ⊎ (size < p * 2)
    → (pow2_floor_loop f p size ≤ size) × (size < pow2_floor_loop f p size * 2)
unfolding pow2_floor_loop
pow2_floor_loop-bounds zero p size h k out = (k, omega arith)
pow2_floor_loop-bounds (suc f) p size h k out =
    pow2_floor_loop-bounds f (if leb (p * 2) size then p * 2 else p) size (ground arith)
      (ground arith) (ground arith)

-- the last level of a heap starts inside it, and nothing stands below that level
pow2_floor_bounds : (size : ℕ) → (pow2_floor size ≤ size) × (0 < size → size < pow2_floor size * 2)
unfolding pow2_floor
pow2_floor_bounds size = ground (arith, pow2_floor_loop-bounds size 1 size)

module _ {ℓ} {T : Type ℓ} ⦃order : Ordered T⦄ where
  pub record IsValid (h : Heap T) : Type 0 where
    pub width : length h.heap ≡ h.capacity + 1
    pub bounded : h.count ≤ h.capacity
    pub level : (h.lastlevel ≤ h.capacity) × (0 < h.capacity → h.capacity < h.lastlevel * 2)
    pub ordered : IsHeap h.count h.heap

  -- the elements of the queue
  abbrev pub elements : Heap T → List T
  elements h = live h.count h.heap

  pub length-elements : (h : Heap T) → IsValid h → length (elements h) ≡ h.count
  length-elements h v =
      omega (arith, v.width, v.bounded, length-take h.count (drop 1 h.heap), length-drop 1 h.heap)

  pub resize-IsValid : (n : ℕ) → IsValid (resize n)
  unfolding resize
  resize-IsValid n = record {
    width = length-replicate (n + 1) order.default;
    bounded = omega arith;
    level = pow2_floor_bounds n;
    ordered = λ i lo hi. absurd (omega arith);
  }

  pub resize-empty : (n : ℕ) → (elements (resize n) ≡ []) × ((resize {T = T} n).capacity ≡ n)
  unfolding resize
  resize-empty n = (refl, refl)

  -- clear leaves a well-formed heap empty, well-formed and of room for the number it is given.
  pub clear-IsValid :
      (h : Heap T) (n : ℕ)
      → IsValid h
      → IsValid (clear h n) × (elements (clear h n) ≡ []) × (n ≤ (clear h n).capacity)
  unfolding clear resize
  clear-IsValid h n v = elim (Bool-cases (ltb h.capacity n)) [
    | inl grow ↦ rw grow (unfold resize in resize-IsValid n, refl, omega arith)
    | inr keep ↦ rw keep (
      record {
        width = v.width;
        bounded = omega arith;
        level = v.level;
        ordered = λ i lo hi. absurd (omega arith);
      },
      refl,
      ltb→le _ _ keep,
    )
  ]
