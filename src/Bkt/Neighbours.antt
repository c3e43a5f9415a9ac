-- ===== src/Bkt/Neighbours.antt =====
-- The neighbours of a node in `Search` of AnnService/src/Core/BKT/BKTIndex.cpp on a well-formed index.
use sptag.Base.{
  ℕ, suc, ◌+◌, ◌≤◌, ◌<◌, ◌≡◌, refl, inl, inr, List, [], ◌∷◌, some, arith, ltb, ◌==◌, Bool-cases,
  get_elem?, get_elem?-inside,
}
use sptag.Base.Int.{ℤ, pos, negsuc}
use sptag.Results.{Dist}
use sptag.Pairs.{NodeDistPair, nearest_first}
use sptag.Order.{Ordered}
use sptag.Heap
use sptag.Heap.{Heap}
use sptag.Heap.Valid
use sptag.Worst.{DistPriorityQueue}
use sptag.Worst.Insert
use sptag.Worst.Insert.{insert-Inserted}
use sptag.WorkSpace.{WorkSpace}
use sptag.Outcome.{done, EndsIn, returns, bind-EndsIn, weaken-EndsIn, if-EndsIn}
use sptag.Bkt.{Index, check_and_set, push_ng}
use sptag.Bkt.Query.{Policy}
use sptag.Bkt.Loop.{take_neighbour, neighbour, neighbours, refill}
use sptag.Bkt.Wellformed.{Shape, IsIndex}
use sptag.Bkt.Space.{
  IsSpace, pending, load, Moves, Moves-trans, Moves-refl, check_and_set-Checked, push_ng-Moves,
  unless_seen-Moves,
}
use sptag.Bkt.Cells.{distance_to-inside, node_test-center}
use sptag.Bkt.Trees.{search_trees-Moves}

top-inside {ℓ} :
    {T : Type ℓ} ⦃order : Ordered T⦄ (h : Heap T)
    → Valid.IsValid h
    → 0 < h.capacity
    → (x : T) × (Heap.top h ≡ some x)
unfolding Heap.top
top-inside h v room = elim (Bool-cases (h.count == 0)) [
  | inl e ↦ rw e (get_elem?-inside h.heap 0 (omega (arith, v.width)))
  | inr e ↦ rw e (get_elem?-inside h.heap 1 (omega (arith, v.width)))
]

module _ (policy : Policy) (index : Index) (shape : Shape) (distance : ℕ → Dist) (marks trees : ℕ)
    (good : IsIndex index shape distance) where
  pub counted_results-Moves :
      (w : WorkSpace) (n : ℕ) (results : DistPriorityQueue)
      → IsSpace index shape distance w
      → Insert.IsValid results
      → Moves index shape distance w 0 0
          (record w { number_of_checked_leaves = n; results = results })
  unfolding pending load
  counted_results-Moves w n results s valid = record {
    space = record {
      visited = s.visited;
      spt = s.spt;
      spt_room = s.spt_room;
      ng = s.ng;
      ng_room = s.ng_room;
      results = valid;
      cells = s.cells;
      nodes = s.nodes;
    };
    popped = omega arith;
    loads = omega arith;
  }

  take_neighbour-Moves :
      (w : WorkSpace) (v : ℕ)
      → IsSpace index shape distance w
      → v < index.samples
      → EndsIn marks
          (Moves index shape distance w 1 0)
          (take_neighbour policy index distance marks trees w v)
  unfolding take_neighbour
  take_neighbour-Moves w v s lt =
      let (_, r, _, run, inserted) = insert-Inserted w.results (distance v) s.results in
      let held = record w {
        number_of_checked_leaves = w.number_of_checked_leaves + 1;
        results = r.1;
      } in
      let moved = counted_results-Moves w (w.number_of_checked_leaves + 1) r.1 s inserted.valid in
      let p : NodeDistPair = record { node = pos v; distance = distance v } in
      let popped = moved.popped in
      let loads = moved.loads in
      rw (distance_to-inside index shape distance marks good v lt, run)
        (if-EndsIn r.0 (push_ng held p) (done held)
          (λ _.
            weaken-EndsIn (push_ng held p)
              (push_ng-Moves index shape distance marks held p moved.space
                (node_test-center index shape distance marks good v lt))
              (λ w' m. Moves-trans index shape distance moved m))
          (λ _.
            returns (record { space = moved.space; popped = omega arith; loads = omega arith })))

  neighbour-Moves :
      (w : WorkSpace) (v : ℕ)
      → IsSpace index shape distance w
      → v < index.samples
      → EndsIn marks
          (Moves index shape distance w 0 0)
          (neighbour policy index distance marks trees w v)
  unfolding neighbour
  neighbour-Moves w v s lt =
      bind-EndsIn (check_and_set marks w (pos v)) _
        (check_and_set-Checked index shape distance marks w v s lt)
        (λ r c.
          unless_seen-Moves index shape distance marks w r _ c
            (take_neighbour-Moves r.1 v c.space lt))

  pub neighbours-Moves :
      (row : List ℤ) (w : WorkSpace)
      → IsSpace index shape distance w
      → ((i u : ℕ) → get_elem? row i ≡ some (pos u) → u < index.samples)
      → EndsIn marks
          (Moves index shape distance w 0 0)
          (neighbours policy index distance marks trees row w)
  unfolding neighbours
  neighbours-Moves [] w s inside = returns (Moves-refl index shape distance w s)
  neighbours-Moves (negsuc n ∷ row) w s inside = returns (Moves-refl index shape distance w s)
  neighbours-Moves (pos v ∷ row) w s inside =
      bind-EndsIn (neighbour policy index distance marks trees w v) _
        (neighbour-Moves w v s (inside 0 v refl))
        (λ w' m.
          weaken-EndsIn _ (neighbours-Moves row w' m.space (λ i u e. inside (suc i) u e))
            (λ w'' n. Moves-trans index shape distance m n))

  pub refill-Moves :
      (w : WorkSpace)
      → IsSpace index shape distance w
      → load index shape distance w ≤ trees
      → EndsIn marks (Moves index shape distance w 0 0) (refill policy index distance marks trees w)
  unfolding refill
  refill-Moves w s enough =
      let (ng, read_ng) = top-inside w.ng_queue s.ng s.ng_room in
      let (spt, read_spt) = top-inside w.spt_queue s.spt s.spt_room in
      rw (read_ng, read_spt)
        (if-EndsIn (ltb spt.distance ng.distance) _ (done w)
          (λ _.
            search_trees-Moves index shape distance marks good trees w
              (index.other_pivots + w.number_of_checked_leaves) s enough)
          (λ _. returns (Moves-refl index shape distance w s)))
