-- ===== src/Worst/Insert.antt =====
-- `insert` of DistPriorityQueue, and when a queue is well-formed.
use mathlib.Core.List.Perm
use sptag.Base.{
  ℕ, suc, ◌+◌, ◌/◌, ◌≤◌, ◌<◌, ◌≡◌, ◌∙◌, refl, inl, inr, Bool, true, false, List, ◌∷◌, Mem, Perm,
  some, arith, ltb, ◌==◌, if◌then◌else◌, Bool-cases, get_elem?, set, length, length-set,
  length-perm, length-take, length-drop, drop, ◌>>=◌,
}
use sptag.Order.{◌≼◌}
use sptag.Array.{get!, load, get!-set}
use sptag.Heap.Sifted.{IsHeap, root-least}
use sptag.Heap.Down.{DownInv, heapify-Sifts}
use sptag.Heap.Up.{UpInv, rise-sifts}
use sptag.Heap.Live.{live, live-Rearranged, forall_mem-get!, ≼_prop, live-set, live-put, get!-live}
use sptag.Results.{Dist}
use sptag.Heap.{heapify, rise}
use sptag.Worst.{DistPriorityQueue, insert, worst, farthest_first}

pub record IsValid (q : DistPriorityQueue) : Type 0 where
  pub width : length q.data_ ≡ q.size + 1
  pub some_held : 0 < q.filled
  pub bounded : q.filled ≤ q.count
  pub room : q.count ≤ q.size
  pub ordered : IsHeap q.filled q.data_

-- the distances held
abbrev pub distances : DistPriorityQueue → List Dist
distances q = live q.filled q.data_

-- what `insert` returns for `dist` where `w` is the largest distance held
pub record Inserted (q : DistPriorityQueue) (dist w : Dist) (r : Bool × DistPriorityQueue)
    : Type 0 where
  pub valid : IsValid r.1
  pub largest : (x : Dist) → Mem x (distances q) → x ≤ w
  pub taken : r.0 ≡ (if ltb w dist then false else true)
  pub refused : r.0 ≡ false → r.1 ≡ q
  pub replaced : r.0 ≡ true → q.filled ≡ q.count → Perm (w ∷ distances r.1) (dist ∷ distances q)
  pub added : r.0 ≡ true → q.filled < q.count → Perm (distances r.1) (dist ∷ distances q)

module _ (q : DistPriorityQueue) (v : IsValid q) where
  first : Dist
  first = get! q.data_ 1

  first-read : get_elem? q.data_ 1 ≡ some first
  unfolding first
  first-read = load q.data_ 1 (omega (arith, v.width, v.some_held, v.bounded, v.room))

  length-distances : length (distances q) ≡ q.filled
  length-distances = omega (
    arith,
    v.width,
    v.bounded,
    v.room,
    length-take q.filled (drop 1 q.data_),
    length-drop 1 q.data_,
  )

  first-largest : (x : Dist) → Mem x (distances q) → x ≤ first
  unfolding first farthest_first
  first-largest x m =
      let all =
        forall_mem-get! (λ x. get! q.data_ 1 ≼ x) (λ x. ≼_prop (get! q.data_ 1) x) (distances q)
          (λ i p. rw (get!-live q.data_ q.filled i (omega (arith, length-distances))) (
            root-least q.filled q.data_ (suc i) v.ordered (omega arith)
              (omega (arith, length-distances)))) in
      ground (arith, all x m)

  replace-run :
      (dist : Dist)
      → (b : List Dist) × (heapify (set q.data_ 1 dist) q.filled ≡ some b)
        × IsHeap q.filled b
        × (length b ≡ length q.data_)
        × Perm (first ∷ live q.filled b) (dist ∷ distances q)
  unfolding first
  replace-run dist =
      let width = v.width in
      let positive = v.some_held in
      let bounded = v.bounded in
      let room = v.room in
      let a = set q.data_ 1 dist in
      let at = λ (i : ℕ). get!-set q.data_ 1 i dist (omega arith) in
      let start : DownInv q.filled a 1 = record {
        inside = omega (arith, length-set q.data_ 1 dist);
        positive = omega arith;
        edges = λ i lo hi out. rw (at i, at (i / 2)) (ground (arith, v.ordered i));
        bridged = λ i lo hi e two. absurd (omega arith);
      } in
      let (b, run, heap, same) = heapify-Sifts q.filled a start in
      (
        b,
        run,
        heap,
        length-perm same.perm ∙ length-set q.data_ 1 dist,
        Perm.trans (Perm.cons first (live-Rearranged q.filled a b start.inside same))
            (live-set q.data_ q.filled 0 dist (omega arith) positive),
      )

  add-run :
      (dist : Dist)
      → q.filled < q.count
      → (b : List Dist) × (rise (q.filled + 1 + 1) q.data_ (q.filled + 1) ((q.filled + 1) / 2) dist
          ≡ some b)
        × IsHeap (q.filled + 1) b
        × (length b ≡ length q.data_)
        × Perm (live (q.filled + 1) b) (dist ∷ distances q)
  add-run dist more =
      let width = v.width in
      let room = v.room in
      let c = q.filled + 1 in
      let a = q.data_ in
      let put = set a c dist in
      let at = λ (i : ℕ). get!-set a c i dist (omega arith) in
      let start : UpInv c put c = record {
        inside = rw length-set (omega arith);
        positive = omega arith;
        within = omega arith;
        edges = λ i lo hi n. rw (at i, at (i / 2)) (ground (arith, v.ordered i));
        bridged = λ i lo hi e two. absurd (omega arith);
      } in
      let (b, run, heap, same) = rise-sifts (c + 1) c a c dist start (omega arith) in
      (
        b,
        run,
        heap,
        length-perm same.perm ∙ length-set a c dist,
        Perm.trans (live-Rearranged c put b start.inside same)
            (live-put a q.filled dist (omega arith)),
      )

-- On a well-formed queue of distances insert never faults: it refuses a distance above the
-- largest held, which worst returns, and takes every other one, in the place of the largest if
-- the queue is full.
pub insert-Inserted :
    (q : DistPriorityQueue) (dist : Dist)
    → IsValid q
    → (w : Dist) × (r : Bool × DistPriorityQueue) × (worst q ≡ some w)
      × (insert q dist ≡ some r)
      × Inserted q dist w r
unfolding insert worst
insert-Inserted q dist v =
    let w = first q v in
    let read = first-read q v in
    let largest = first-largest q v in
    elim (Bool-cases (ltb w dist)) [
      | inl above ↦ (
        w,
        (false, q),
        read,
        rw (read, ◌>>=◌, above),
        record {
          valid = v;
          largest = largest;
          taken = rw above refl;
          refused = λ e. refl;
          replaced = λ e f. cc;
          added = λ e f. cc;
        },
      )
      | inr near ↦ elim (Bool-cases (q.filled == q.count)) [
        | inl full ↦
            let (b, run, heap, size, same) = replace-run q v dist in
            (
              w,
              (true, record q { data_ = b }),
              read,
              rw (read, ◌>>=◌, near, full, run),
              record {
                valid = record {
                  width = size ∙ v.width;
                  some_held = v.some_held;
                  bounded = v.bounded;
                  room = v.room;
                  ordered = heap;
                };
                largest = largest;
                taken = rw near refl;
                refused = λ e. cc;
                replaced = λ e f. same;
                added = λ e f. absurd (ground arith);
              },
            )
        | inr more ↦
            let bounded = v.bounded in
            let less : q.filled < q.count = ground arith in
            let (b, run, heap, size, same) = add-run q v dist less in
            (
              w,
              (true, record q { data_ = b; filled = q.filled + 1 }),
              read,
              rw (read, ◌>>=◌, near, more, run),
              record {
                valid = record {
                  width = size ∙ v.width;
                  some_held = omega arith;
                  bounded = omega arith;
                  room = v.room;
                  ordered = heap;
                };
                largest = largest;
                taken = rw near refl;
                refused = λ e. cc;
                replaced = λ e f. absurd (ground arith);
                added = λ e f. same;
              },
            )
      ]
    ]
