-- ===== src/Results/Sort.antt =====
-- `SortResult` of QueryResultSet.h.
use mathlib.Core.List.Perm
use sptag.Base.{
  ℕ, zero, suc, ◌/◌, ◌≤◌, ◌<◌, ◌≡◌, ◌∙◌, refl, inr, false, List, ◌∷◌, Perm, some, arith, ◌==◌,
  if◌then◌else◌, length, length-perm, take, length-take,
}
use sptag.Array.{get!, swap, load, get!-swap, get!-take, swap-perm, length-swap}
use sptag.Heap.Sifted.{Rearranged, root-least}
use sptag.Heap.Down.{DownInv}
use sptag.Heap.Live.{forall_mem-get!, get!-Mem, ≼_prop, live-Rearranged}
use sptag.Order.{◌≼◌, ≼_refl}
use sptag.Results.{
  BasicResult, no_result, less_result, worst_first, swap_results, QueryResultSet, sort_loop,
  sort_result,
}
use sptag.Results.TopK.{IsWorstFirst, IsValid, heapify-sifted}

-- no result precedes one that stands before it
abbrev pub IsSorted : List BasicResult → Type 0
IsSorted a = (j k : ℕ) → j ≤ k → k < length a → less_result (get! a k) (get! a j) ≡ false

swap_results-ok :
    (a : List BasicResult) (i j : ℕ)
    → i < length a
    → j < length a
    → swap_results a i j ≡ some (swap a i j)
unfolding swap_results
swap_results-ok a i j hi hj = rw (load a i hi, load a j hj)

-- the entries from `i` on are sorted, and the heap of the first `i` holds none after them
record Sorting (i : ℕ) (a : List BasicResult) : Type 0 where
  inside : i ≤ length a
  heap : IsWorstFirst i a
  sorted : (j k : ℕ) → i ≤ j → j ≤ k → k < length a → less_result (get! a k) (get! a j) ≡ false
  below : (j k : ℕ) → j < i → i ≤ k → k < length a → less_result (get! a k) (get! a j) ≡ false

module _ (i : ℕ) (a : List BasicResult) (s : Sorting (suc i) a) where
  swapped : List BasicResult
  swapped = swap a 0 i

  swapped-at :
      (k : ℕ)
      → get! swapped k ≡ (if i == k then get! a 0 else if 0 == k then get! a i else get! a k)
  unfolding swapped
  swapped-at = get!-swap a 0 i (omega (arith, s.inside)) (omega (arith, s.inside))

  -- the first of the heap is the last of its entries
  first-latest : (j : ℕ) → j ≤ i → less_result (get! a 0) (get! a j) ≡ false
  unfolding get!
  first-latest j h = root-least (suc i) (no_result ∷ a) (suc j) s.heap (omega arith) (omega arith)

  swapped-below :
      (j k : ℕ)
      → j < i
      → i ≤ k
      → k < length a
      → less_result (get! swapped k) (get! swapped j) ≡ false
  swapped-below j k p lo hi =
      rw (swapped-at j, swapped-at k)
        (ground (arith, s.below j k, s.below i k, first-latest j, first-latest i))

  swapped-sorted :
      (j k : ℕ)
      → i ≤ j
      → j ≤ k
      → k < length a
      → less_result (get! swapped k) (get! swapped j) ≡ false
  swapped-sorted j k lo h hi =
      rw (swapped-at j, swapped-at k) (ground (arith, s.sorted j k, s.below 0 k, ≼_refl (get! a 0)))

  swapped-DownInv : DownInv i (no_result ∷ swapped) 1
  unfolding get! swap swapped
  swapped-DownInv =
      let inside = s.inside in
      let at = get!-swap (no_result ∷ a) 1 (suc i) (omega arith) (omega arith) in
      record {
        inside = omega (arith, length-swap a 0 i);
        positive = omega arith;
        edges = λ n lo hi out. rw (at n, at (n / 2)) (ground (arith, s.heap n));
        bridged = λ n lo hi e two. absurd (omega arith);
      }

  -- one round: the last of the heap goes behind it, and the heap is sifted
  round :
      (c : List BasicResult)
      → IsWorstFirst i c
      → Rearranged i (no_result ∷ swapped) (no_result ∷ c)
      → Sorting i c × Perm c a
  unfolding get!
  round c heap moved =
      let inside = s.inside in
      let wide : length swapped ≡ length a = unfold swapped in length-swap a 0 i in
      let same : Perm c swapped = Perm.cons_inv moved.perm in
      let size : length c ≡ length a = length-perm same ∙ wide in
      let at : (k : ℕ) → i ≤ k → get! c k ≡ get! swapped k =
        λ k h. moved.outside (suc k) (inr (omega arith)) in
      let front : Perm (take i c) (take i swapped) =
        live-Rearranged i (no_result ∷ swapped) (no_result ∷ c) (omega arith) moved in
      (
        record {
          inside = omega arith;
          heap = heap;
          sorted = λ j k lo h hi.
              rw (at j lo, at k (omega arith)) (swapped-sorted j k lo h (omega arith));
          below = λ j k p lo hi.
              rw (at k lo, ← get!-take c i j p)
                (forall_mem-get! (λ x. get! swapped k ≼ x) (λ x. ≼_prop (get! swapped k) x)
                  (take i swapped)
                  (λ m q.
                    rw (get!-take swapped i m (omega (arith, length-take i swapped)))
                      (swapped-below m k (omega (arith, length-take i swapped)) lo (omega arith)))
                  (get! (take i c) j)
                  ((Perm.mem_iff front).0
                    (get!-Mem (take i c) j (omega (arith, length-take i c)))));
        },
        Perm.trans same (unfold swapped in swap-perm a 0 i (omega arith) (omega arith)),
      )

sort_loop-sorts :
    (i : ℕ) (a : List BasicResult)
    → Sorting i a
    → (b : List BasicResult) × (sort_loop i a ≡ some b) × IsSorted b × Perm b a
unfolding sort_loop swapped
sort_loop-sorts zero a s = (a, refl, (λ j k h hi. s.sorted j k (omega arith) h hi), Perm.rfl)
sort_loop-sorts (suc i) a s =
    let inside = s.inside in
    let (c, run, heap, moved) = heapify-sifted i (swapped i a s) (swapped-DownInv i a s) in
    let (next, same) = round i a s c heap moved in
    let (b, rest, sorted, perm) = sort_loop-sorts i c next in
    (
      b,
      rw (swap_results-ok a 0 i (omega arith) (omega arith)) (rw run rest),
      sorted,
      Perm.trans perm same,
    )

-- On a well-formed set SortResult never faults, sorts the results with the best first, and keeps
-- them all.
pub sort_result-IsSorted :
    (q : QueryResultSet)
    → IsValid q
    → (r : QueryResultSet) × (sort_result q ≡ some r)
      × IsSorted r.results
      × Perm r.results q.results
      × (r.result_num ≡ q.result_num)
unfolding sort_result
sort_result-IsSorted q v =
    let width = v.width in
    let start : Sorting q.result_num q.results = record {
      inside = omega arith;
      heap = v.ordered;
      sorted = λ j k lo h hi. absurd (omega arith);
      below = λ j k p lo hi. absurd (omega arith);
    } in
    let (b, run, sorted, perm) = sort_loop-sorts q.result_num q.results start in
    (record q { results = b }, rw run, sorted, perm, refl)
