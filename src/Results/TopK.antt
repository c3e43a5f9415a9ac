-- ===== src/Results/TopK.antt =====
-- `AddPoint` of QueryResultSet.h, and when a set of results is well-formed.
use mathlib.Core.List.Perm
use sptag.Base.{
  leb, ℕ, zero, suc, ◌+◌, ◌-◌, ◌/◌, ◌<◌, ◌≡◌, ◌∙◌, refl, sym, inl, inr, Bool, true, false, List,
  ◌∷◌, Mem, Perm, Option, none, some, arith, Bool-cases, length, length-set, length-perm, set,
  get_elem?, ◌>>=◌,
}
use mathlib.Core.Option
use sptag.Base.Int.{ℤ}
use sptag.Array.{get!, load, get!-set, set-perm}
use sptag.Order.{◌≼◌}
use sptag.Heap
use sptag.Heap.Sifted.{IsHeap, Rearranged, Rearranged-refl, root-least}
use sptag.Heap.Down.{DownInv, heapify-Sifts}
use sptag.Heap.Live.{forall_mem-get!, get!-Mem, ≼_prop}
use sptag.Results.{
  BasicResult, Dist, no_result, precedes, less_result, worst_first, heapify_loop, heapify_last,
  heapify, QueryResultSet, add_point,
}
use sptag.Results.Shift.{loop-cons}

-- The first `count` results are a heap with the worst first: the order of the queue's heap, one
-- index lower.
abbrev pub IsWorstFirst : ℕ → List BasicResult → Type 0
IsWorstFirst count a = IsHeap count (no_result ∷ a)

sub_one : (c : ℕ) → suc c - 1 ≡ c
sub_one c = omega arith

map-eq-some :
    (d : BasicResult) (o : Option (List BasicResult)) (b : List BasicResult)
    → Option.map (◌∷◌ d) o ≡ some b
    → (c : List BasicResult) × (o ≡ some c) × (b ≡ d ∷ c)
map-eq-some d none b e = cc
map-eq-some d (some c) b e = (c, refl, cc)

-- `Heapify` ends, without a fault, in a heap of the same results.
pub heapify-sifted :
    (count : ℕ) (a : List BasicResult)
    → DownInv count (no_result ∷ a) 1
    → (b : List BasicResult) × (heapify a count ≡ some b)
      × IsWorstFirst count b
      × Rearranged count (no_result ∷ a) (no_result ∷ b)
unfolding heapify Heap.heapify heapify_loop heapify_last
heapify-sifted zero a inv =
    (a, refl, (λ i lo hi. absurd (omega arith)), Rearranged-refl 0 (no_result ∷ a))
heapify-sifted (suc c) a inv =
    let (b, run, heap, same) = heapify-Sifts (suc c) (no_result ∷ a) inv in
    let (c', found, eq) =
      map-eq-some no_result (heapify_loop (suc c + 1) a 0 1 c) b
        (sym (loop-cons no_result (suc c + 1) a 0 1 c) ∙ run) in
    (c', rw (sub_one c) found, rw eq at heap, rw eq at same)

-- the state that the methods keep
pub record IsValid (q : QueryResultSet) : Type 0 where
  pub width : length q.results ≡ q.result_num
  pub positive : 0 < q.result_num
  pub ordered : IsWorstFirst q.result_num q.results

-- what `AddPoint` does with a result: it, or the worst of those held, is gone
pub record Added (q : QueryResultSet) (vid : ℤ) (dist : Dist) (r : Bool × QueryResultSet)
    : Type 0 where
  pub valid : IsValid r.1
  pub kept : r.1.result_num ≡ q.result_num
  pub worst : BasicResult
  pub held : Mem worst q.results
  pub latest : (x : BasicResult) → Mem x q.results → less_result worst x ≡ false
  pub taken : r.0 ≡ precedes vid dist worst.vid worst.dist
  pub same :
      (r.0 ≡ true
        → Perm (worst ∷ r.1.results) (record worst { vid = vid; dist = dist } ∷ q.results))
      × (r.0 ≡ false → r.1 ≡ q)

module _ (q : QueryResultSet) (v : IsValid q) where
  worst_of : BasicResult
  worst_of = get! q.results 0

  worst-held : Mem worst_of q.results
  unfolding worst_of
  worst-held = get!-Mem q.results 0 (omega (arith, v.width, v.positive))

  worst-latest : (x : BasicResult) → Mem x q.results → less_result worst_of x ≡ false
  unfolding worst_of get!
  worst-latest =
      let width = v.width in
      forall_mem-get! (λ x. worst_of ≼ x) (λ x. ≼_prop worst_of x) q.results
        (λ i p.
          root-least q.result_num (no_result ∷ q.results) (suc i) v.ordered (omega arith)
            (omega arith))

  replaced-DownInv : (r : BasicResult) → DownInv q.result_num (no_result ∷ set q.results 0 r) 1
  unfolding get!
  replaced-DownInv r =
      let width = v.width in
      let positive = v.positive in
      let at = λ (i : ℕ). get!-set (no_result ∷ q.results) 1 i r (omega arith) in
      record {
        inside = omega (arith, length-set q.results 0 r);
        positive = omega arith;
        edges = λ i lo hi n. rw (at i, at (i / 2)) (ground (arith, v.ordered i));
        bridged = λ i lo hi e two. absurd (omega arith);
      }

  -- the heap is sifted again after the worst result is written over
  replaced-sifted :
      (r : BasicResult)
      → (b : List BasicResult) × (heapify (set q.results 0 r) q.result_num ≡ some b)
        × IsWorstFirst q.result_num b
        × Perm b (set q.results 0 r)
  replaced-sifted r =
      let (b, run, heap, same) =
        heapify-sifted q.result_num (set q.results 0 r) (replaced-DownInv r) in
      (b, run, heap, Perm.cons_inv same.perm)

-- On a well-formed set AddPoint never faults: it takes the result exactly if it precedes the
-- worst one held, which then goes, and else changes nothing.
pub add_point-Added :
    (q : QueryResultSet) (vid : ℤ) (dist : Dist)
    → IsValid q
    → (r : Bool × QueryResultSet) × (add_point q vid dist ≡ some r) × Added q vid dist r
unfolding add_point
add_point-Added q vid dist v =
    let width = v.width in
    let positive = v.positive in
    let worst = worst_of q v in
    let fresh = record worst { vid = vid; dist = dist } in
    let read : get_elem? q.results 0 ≡ some worst =
      unfold worst_of in load q.results 0 (omega arith) in
    let (b, run, heap, same) = replaced-sifted q v fresh in
    elim (Bool-cases (precedes vid dist worst.vid worst.dist)) [
      | inr late ↦ (
        (false, q),
        rw (read, ◌>>=◌, late),
        record {
          valid = v;
          kept = refl;
          worst = worst;
          held = worst-held q v;
          latest = worst-latest q v;
          taken = sym late;
          same = (λ e. cc, λ e. refl);
        },
      )
      | inl early ↦ (
        (true, record q { results = b }),
        rw (read, ◌>>=◌, early, run),
        record {
          valid = record {
            width = omega (arith, length-perm same, length-set q.results 0 fresh);
            positive = positive;
            ordered = heap;
          };
          kept = refl;
          worst = worst;
          held = worst-held q v;
          latest = worst-latest q v;
          taken = sym early;
          same = (
            λ e.
                Perm.trans (Perm.cons worst same)
                  (unfold worst_of in set-perm q.results 0 fresh (omega arith)),
            λ e. cc,
          );
        },
      )
    ]

-- A result farther than the worst one is refused.
pub add_point-far :
    (q : QueryResultSet) (vid : ℤ) (dist : Dist) (worst : BasicResult)
    → get_elem? q.results 0 ≡ some worst
    → leb dist worst.dist ≡ false
    → add_point q vid dist ≡ some (false, q)
unfolding add_point precedes
add_point-far q vid dist worst read far =
    let late : precedes vid dist worst.vid worst.dist ≡ false = ground (arith, far) in
    rw (read, ◌>>=◌, late) refl
