-- ===== src/Worst/Restart.antt =====
-- `Resize` and `clear` of the queue of distances.
use sptag.Visited.{tabulate}
use sptag.Base.{
  get_elem?-past, none, ◌≤◌, ℕ, ◌+◌, ◌≤◌, ◌<◌, ◌≡◌, refl, inl, inr, List, [], ◌∷◌, some, arith, ltb,
  ltb→le, Bool-cases, length,
}
use sptag.Visited.Clearing.{length-tabulate}
use sptag.Results.{Dist, max_dist}
use sptag.Worst.{DistPriorityQueue, restart, resize, clear, farthest_first}
use sptag.Worst.Insert.{IsValid, distances}

pub restart-IsValid :
    (size count : ℕ) (a : List Dist)
    → length a ≡ size + 1
    → 0 < count
    → count ≤ size
    → (q : DistPriorityQueue) × (restart size count a ≡ some q)
      × IsValid q
      × (distances q ≡ max_dist ∷ [])
      × (q.count ≡ count)
unfolding restart
restart-IsValid size count [] w lo hi = absurd (omega arith)
restart-IsValid size count (x ∷ []) w lo hi = absurd (omega arith)
restart-IsValid size count (x ∷ y ∷ a) w lo hi = (
  record { size = size; data_ = x ∷ max_dist ∷ a; filled = 1; count = count },
  refl,
  record {
    width = w;
    some_held = omega arith;
    bounded = omega arith;
    room = hi;
    ordered = λ i l h. absurd (omega arith);
  },
  refl,
  refl,
)

-- clear of a well-formed queue of distances, for a positive number of them, never faults:
-- whatever the new memory holds, the queue is well-formed, holds the largest distance alone, and
-- has room for that number.
pub clear-restarts :
    (junk : ℕ → ℕ) (q : DistPriorityQueue) (count : ℕ)
    → IsValid q
    → 0 < count
    → (r : DistPriorityQueue) × (clear junk q count ≡ some r)
      × IsValid r
      × (distances r ≡ max_dist ∷ [])
      × (r.count ≡ count)
unfolding clear
clear-restarts junk q count v lo = elim (Bool-cases (ltb q.size count)) [
  | inl grow ↦
      rw grow (restart-IsValid count count _ (length-tabulate (count + 1) junk) lo (omega arith))
  | inr keep ↦ rw keep (restart-IsValid q.size count q.data_ v.width lo (ltb→le _ _ keep))
]

-- `Resize` of a positive size
pub resize-restarts :
    (junk : ℕ → ℕ) (size : ℕ)
    → 0 < size
    → (r : DistPriorityQueue) × (resize junk size ≡ some r)
      × IsValid r
      × (distances r ≡ max_dist ∷ [])
      × (r.count ≡ size)
unfolding resize
resize-restarts junk size lo =
    restart-IsValid size size _ (length-tabulate (size + 1) junk) lo (omega arith)

-- without room for a distance the write of the first one is out of bounds
pub resize-none : (junk : ℕ → ℕ) → resize junk 0 ≡ none
unfolding resize restart
resize-none junk =
    simp
      (get_elem?-past (tabulate (0 + 1) junk) 1 (rw (length-tabulate (0 + 1) junk) (omega arith)))
