-- ===== src/Heap.antt =====
-- AnnService/inc/Core/Common/Heap.h: the bounded min-heap of the search, over an array that is
-- indexed from 1. `none` is an access outside the array, or the fuel of a loop running out.
-- `operator>` of the element types is the converse of `operator<`.
pub mod Sifted
pub mod Down
pub mod Up
pub mod Live
pub mod Valid
pub mod Pop
pub mod Insert
mod Tests
use sptag.Base.{
  ℕ, zero, suc, ◌+◌, ◌-◌, ◌*◌, ◌/◌, Bool, true, false, List, Option, none, some, ltb, leb, ◌==◌,
  if◌then◌else◌, get_elem?, set, replicate, ◌>>=◌,
}
use sptag.Array.{swap}
use sptag.Order.{Ordered, less}

-- `length` of the class is `capacity` here; the array has one entry more
pub record Heap {ℓ} (T : Type ℓ) : Type ℓ where
  pub heap : List T
  pub capacity : ℕ
  pub count : ℕ
  pub lastlevel : ℕ

-- `int(pow(2.0, floor(log2((float)size))))`: the largest power of two up to `size`, and 0 at 0.
-- A size below 2 ^ 24 is exact as a float.
pow2_floor_loop : ℕ → ℕ → ℕ → ℕ
pow2_floor_loop zero p size = p
pow2_floor_loop (suc f) p size = pow2_floor_loop f (if leb (p * 2) size then p * 2 else p) size

pub pow2_floor : ℕ → ℕ
pow2_floor size = if size == 0 then 0 else pow2_floor_loop size 1 size

module _ {ℓ} {T : Type ℓ} ⦃order : Ordered T⦄ where
  -- `std::swap(a[i], a[j])` behind two checked reads
  unfoldable pub swap_checked : List T → ℕ → ℕ → Option (List T)
  swap_checked a i j = do _ ← get_elem? a i; _ ← get_elem? a j; some (swap a i j)

  -- the statement after the loop of `heapify`
  unfoldable pub heapify_last : List T → ℕ → ℕ → ℕ → Option (List T)
  heapify_last a parent next count =
      if next == count
      then (do
        x ← get_elem? a next
        p ← get_elem? a parent
        if less x p then swap_checked a parent next else some a)
      else some a

  -- the loop of `heapify`
  unfoldable pub heapify_loop : ℕ → List T → ℕ → ℕ → ℕ → Option (List T)
  heapify_loop zero a parent next count = none
  heapify_loop (suc fuel) a parent next count =
      let round : Option (List T) = do
        x ← get_elem? a next
        y ← get_elem? a (next + 1)
        let child = if less y x then next + 1 else next
        c ← get_elem? a child
        p ← get_elem? a parent
        let sink = swap_checked a parent child >>= λ b. heapify_loop fuel b child (child * 2) count
        if less c p then sink else heapify_last a parent child count
      in if ltb next count then round else heapify_last a parent next count

  unfoldable pub heapify : List T → ℕ → Option (List T)
  heapify a count = heapify_loop (count + 1) a 1 2 count

  -- `Heap(int size)` and `Resize`
  pub resize : ℕ → Heap T
  resize size = record {
    heap = replicate (size + 1) order.default;
    capacity = size;
    count = 0;
    lastlevel = pow2_floor size;
  }

  pub size : Heap T → ℕ
  size h = h.count

  pub empty : Heap T → Bool
  empty h = h.count == 0

  pub clear : Heap T → ℕ → Heap T
  clear h size = if ltb h.capacity size then resize size else record h { count = 0 }

  unfoldable pub top : Heap T → Option T
  top h = if h.count == 0 then get_elem? h.heap 0 else get_elem? h.heap 1

  -- `for (i = lastlevel + 1; i <= length; i++) if (heap[maxi] < heap[i]) maxi = i;` in `left` rounds
  pub last_max : ℕ → List T → ℕ → ℕ → Option ℕ
  last_max zero a i maxi = some maxi
  last_max (suc left) a i maxi = do
    m ← get_elem? a maxi
    x ← get_elem? a i
    last_max left a (i + 1) (if less m x then i else maxi)

  -- the loop of `insert` with the write that follows it
  pub rise : ℕ → List T → ℕ → ℕ → T → Option (List T)
  rise zero a loc par value = none
  rise (suc fuel) a loc par value =
      let stop : Option (List T) = do _ ← get_elem? a loc; some (set a loc value)
      in let round : Option (List T) = do
        p ← get_elem? a par
        _ ← get_elem? a loc
        let up = rise fuel (set a loc p) par (par / 2) value
        if less value p then up else stop
        in if ltb 0 par then round else stop

  pub insert : Heap T → T → Option (Heap T)
  insert h value =
      let place = λ (loc count : ℕ). rise (loc + 1) h.heap loc (loc / 2) value >>= λ b.
      some (record h { heap = b; count = count }) in
      if h.count == h.capacity
      then (do
        maxi ← last_max (h.capacity - h.lastlevel) h.heap (h.lastlevel + 1) h.lastlevel
        m ← get_elem? h.heap maxi
        if less m value then some h else place maxi h.count)
      else place (h.count + 1) (h.count + 1)

  -- `bool pop(T& value)`: `none` inside for `false`
  pub pop : Heap T → Option (Option T × Heap T)
  pop h = if h.count == 0 then some (none, h) else (do
    value ← get_elem? h.heap 1
    a ← swap_checked h.heap 1 h.count
    b ← heapify a (h.count - 1)
    some (some value, record h { heap = b; count = h.count - 1 }))

  -- `T& pop()`: the reference is to the entry behind the last element
  pub pop_ref : Heap T → Option (T × Heap T)
  pop_ref h = if h.count == 0 then (do x ← get_elem? h.heap 0; some (x, h)) else (do
    a ← swap_checked h.heap 1 h.count
    b ← heapify a (h.count - 1)
    x ← get_elem? b h.count
    some (x, record h { heap = b; count = h.count - 1 }))
