-- ===== src/Worst.antt =====
-- AnnService/inc/Core/Common/WorkSpace.h: DistPriorityQueue, the smallest distances of a search with
-- the largest first. Its loops are those of the heap with `>` for `<`. `none` is an access outside
-- the array, or the fuel of a loop running out.
pub mod Insert
pub mod Restart
mod Tests
use sptag.Base.{
  ℕ, zero, suc, ◌+◌, ◌-◌, ◌*◌, ◌/◌, ◌≡◌, Bool, true, false, List, [], ◌∷◌, Option, none, some,
  arith, ltb, ◌==◌, if◌then◌else◌, get_elem?, set, ◌>>=◌,
}
use sptag.Order.{Ordered}
use sptag.Results.{Dist, max_dist}
use sptag.Visited.{tabulate}
use sptag.Heap.{heapify, rise}

farther_asymm : (a b : Dist) → ltb b a ≡ true → ltb a b ≡ false
farther_asymm a b h = ground arith

farther_cotrans : (a b c : Dist) → ltb a b ≡ false → ltb b c ≡ false → ltb a c ≡ false
farther_cotrans a b c p q = ground arith

instance pub farthest_first : Ordered Dist
farthest_first = record {
  default = 0;
  less = λ a b. ltb b a;
  less_asymm = farther_asymm;
  less_cotrans = farther_cotrans;
}

-- `m_size`, `m_data`, `m_length` and `m_count`
pub record DistPriorityQueue : Type 0 where
  pub size : ℕ
  pub data_ : List Dist
  pub filled : ℕ
  pub count : ℕ

-- `m_data[1] = MaxDist` with the fields that go with it
pub restart : ℕ → ℕ → List Dist → Option DistPriorityQueue
restart size count a = do
  _ ← get_elem? a 1
  some (record { size = size; data_ = set a 1 max_dist; filled = 1; count = count })

-- `Resize`; the new array holds arbitrary values
pub resize : (ℕ → ℕ) → ℕ → Option DistPriorityQueue
resize junk size = restart size size (tabulate (size + 1) junk)

pub clear : (ℕ → ℕ) → DistPriorityQueue → ℕ → Option DistPriorityQueue
clear junk q count =
    if ltb q.size count
    then restart count count (tabulate (count + 1) junk)
    else restart q.size count q.data_

pub insert : DistPriorityQueue → Dist → Option (Bool × DistPriorityQueue)
insert q dist =
    let next = q.filled + 1 in
    let replace : Option (Bool × DistPriorityQueue) = (do
      a ← heapify (set q.data_ 1 dist) q.filled
      some (true, record q { data_ = a })) in
    let add : Option (Bool × DistPriorityQueue) = (do
      a ← rise (next + 1) q.data_ next (next / 2) dist
      some (true, record q { data_ = a; filled = next })) in
    get_elem? q.data_ 1 >>= λ first.
    if ltb first dist then some (false, q) else if q.filled == q.count then replace else add

pub worst : DistPriorityQueue → Option Dist
worst q = get_elem? q.data_ 1
