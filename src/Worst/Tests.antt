-- ===== src/Worst/Tests.antt =====
-- The queue of distances at concrete contents.
use sptag.Base.{◌≡◌, refl, Bool, true, [], ◌∷◌, some, arith}
use sptag.Array.{get!, swap}
use sptag.Heap.{heapify, heapify_loop, heapify_last, swap_checked}
use sptag.Results.{Dist}
use sptag.Worst.{DistPriorityQueue, insert, worst, farthest_first}
use sptag.Worst.Insert.{IsValid, Inserted, insert-Inserted}

abbrev two_distances : DistPriorityQueue
two_distances = record { size = 2; data_ = 0 ∷ 9 ∷ 4 ∷ []; filled = 2; count = 2 }

two_distances-IsValid : IsValid two_distances
unfolding get! farthest_first
two_distances-IsValid = record {
  width = refl;
  some_held = omega arith;
  bounded = omega arith;
  room = omega arith;
  ordered = λ i lo hi. let e : i ≡ 2 = omega arith in rw e refl;
}

insert-Inserted_example :
    (w : Dist) × (r : Bool × DistPriorityQueue) × (worst two_distances ≡ some w)
    × (insert two_distances 5 ≡ some r)
    × Inserted two_distances 5 w r
insert-Inserted_example = insert-Inserted two_distances 5 two_distances-IsValid

-- the largest makes way
test_insert : insert two_distances 5 ≡ some (true, record two_distances { data_ = 0 ∷ 5 ∷ 4 ∷ [] })
unfolding insert heapify heapify_loop heapify_last swap_checked swap get! farthest_first
test_insert = refl
