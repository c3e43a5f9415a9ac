-- ===== src/Bkt/Batch.antt =====
-- `SearchIterative` of AnnService/src/Core/BKT/BKTIndex.cpp on a well-formed index: its batches.
use sptag.Base.{
  ℕ, zero, suc, ◌+◌, ◌-◌, ◌≤◌, ◌<◌, ◌≡◌, refl, Bool, true, false, List, [], ◌∷◌, some, arith, ◌==◌,
  if◌then◌else◌, get_elem?, get_elem?-inside, length,
}
use sptag.Base.Int.{ℤ, pos, negsuc}
use sptag.Results.{Dist, QueryResultSet}
use sptag.Pairs.{NodeDistPair, nearest_first}
use sptag.Worst.Insert.{insert-Inserted}
use sptag.WorkSpace.{WorkSpace}
use sptag.Outcome.{done, EndsIn, returns, bind-EndsIn, weaken-EndsIn, if-EndsIn}
use sptag.Bkt.{Index, check_and_set, push_ng, rounds}
use sptag.Bkt.Query.{Policy, live}
use sptag.Bkt.Iterative.{
  next_answer, relax, push_unseen, push_dups, push_group, expand_group, take_each, each_neighbour,
  next_round,
}
use sptag.Bkt.Wellformed.{Shape, IsIndex, IsGroup}
use sptag.Bkt.Space.{
  IsSpace, pending, load, Moves, Moves-trans, Moves-refl, check_and_set-Checked, push_ng-Moves,
  unless_seen-Moves, counted-Moves,
}
use sptag.Bkt.Cells.{distance_to-inside, node_test-center}
use sptag.Bkt.Answers.{Offered, Offered-add, is_answer-live}
use sptag.Bkt.Round.{pop_node}
use sptag.Bkt.Neighbours.{refill-Moves, counted_results-Moves}

module _ (policy : Policy) (index : Index) (shape : Shape) (distance : ℕ → Dist) (marks trees : ℕ)
    (good : IsIndex index shape distance) where
  -- so many answers were offered, and nothing else
  abbrev pub Counted : QueryResultSet → ℕ → QueryResultSet → Type 0
  Counted start count q = (o : Offered policy index distance start q) × (length o.offered ≡ count)

  next_answer-Counted :
      (start q : QueryResultSet) (count v : ℕ)
      → Counted start count q
      → v < index.samples
      → EndsIn marks
          (λ r. Counted start r.0 r.1 × (r.0 ≤ count + 1))
          (next_answer policy index distance marks trees count q
            (record { node = pos v; distance = distance v }))
  unfolding next_answer
  next_answer-Counted start q count v (o, e) lt =
      if-EndsIn (live policy (pos v)) _ (done (count, q))
        (λ alive.
          let (r, run, more, longer) =
            Offered-add policy index distance start q (pos v) (distance v) o
              (is_answer-live policy index distance v alive lt) in
          rw run (returns ((more, omega arith), omega arith)))
        (λ _. returns ((o, e), omega arith))

  relax-Moves :
      (w : WorkSpace) (p : NodeDistPair)
      → IsSpace index shape distance w
      → EndsIn marks
          (Moves index shape distance w 0 0)
          (relax policy index distance marks trees w p)
  unfolding relax pending load
  relax-Moves w p s =
      let (d, _, read, _, _) = insert-Inserted w.results 0 s.results in
      rw read (returns (flagged _))
    where
      flagged :
          (b : Bool)
          → Moves index shape distance w 0 0 (if b then record w { relaxed_mono = true } else w)
      flagged true = record {
        space = record {
          visited = s.visited;
          spt = s.spt;
          spt_room = s.spt_room;
          ng = s.ng;
          ng_room = s.ng_room;
          results = s.results;
          cells = s.cells;
          nodes = s.nodes;
        };
        popped = omega arith;
        loads = omega arith;
      }
      flagged false = Moves-refl index shape distance w s

  push_unseen-Moves :
      (w : WorkSpace) (v : ℕ)
      → IsSpace index shape distance w
      → v < index.samples
      → EndsIn marks
          (Moves index shape distance w 0 0)
          (push_unseen policy index distance marks trees w (pos v) (distance v))
  unfolding push_unseen
  push_unseen-Moves w v s lt =
      bind-EndsIn (check_and_set marks w (pos v)) _
        (check_and_set-Checked index shape distance marks w v s lt)
        (λ r c.
          let p : NodeDistPair = record { node = pos v; distance = distance v } in
          unless_seen-Moves index shape distance marks w r (push_ng r.1 p) c (
            push_ng-Moves index shape distance marks r.1 p c.space
              (node_test-center index shape distance marks good v lt)))

  module _ (v t : ℕ) (group : IsGroup index distance v t) where
    push_dups-Moves :
        (left i : ℕ) (w : WorkSpace)
        → IsSpace index shape distance w
        → group.first < i
        → i + left ≤ group.last
        → EndsIn marks
            (Moves index shape distance w 0 0)
            (push_dups policy index distance marks trees left i w (distance v))
    unfolding push_dups
    push_dups-Moves zero i w s lo hi = returns (Moves-refl index shape distance w s)
    push_dups-Moves (suc left) i w s lo hi =
        let (dup, u, found, center, lt, near) = group.members i lo (omega arith) in
        rw (found, center)
          (bind-EndsIn _ _
            (if-EndsIn (policy.not_deleted (pos u)) _ (done w)
              (λ _. rw near at (push_unseen-Moves w u s lt))
              (λ _. returns (Moves-refl index shape distance w s)))
            (λ w' m.
              weaken-EndsIn _ (push_dups-Moves left (i + 1) w' m.space (omega arith) (omega arith))
                (λ w'' n. Moves-trans index shape distance m n)))

  expand_group-Moves :
      (w : WorkSpace) (v : ℕ) (check_node : ℤ)
      → IsSpace index shape distance w
      → ((t : ℕ) → check_node ≡ negsuc (suc t) → IsGroup index distance v t)
      → EndsIn marks
          (Moves index shape distance w 0 0)
          (expand_group policy index distance marks trees w check_node (distance v))
  unfolding expand_group push_group rounds
  expand_group-Moves w v (pos n) s group = returns (Moves-refl index shape distance w s)
  expand_group-Moves w v (negsuc zero) s group = returns (Moves-refl index shape distance w s)
  expand_group-Moves w v (negsuc (suc t)) s group =
      let g = group t refl in
      let start = g.start in
      rw (g.found, g.is_first, g.is_last)
        (push_dups-Moves v t g (g.last - suc g.first) (suc g.first) w s (omega arith) (omega arith))

  take_each-Moves :
      (w : WorkSpace) (v : ℕ)
      → IsSpace index shape distance w
      → v < index.samples
      → EndsIn marks
          (Moves index shape distance w 1 0)
          (take_each policy index distance marks trees w v)
  unfolding take_each
  take_each-Moves w v s lt =
      let p : NodeDistPair = record { node = pos v; distance = distance v } in
      let counted = record w { number_of_checked_leaves = w.number_of_checked_leaves + 1 } in
      let moved = counted-Moves index shape distance w (w.number_of_checked_leaves + 1) s in
      rw (distance_to-inside index shape distance marks good v lt) (
        bind-EndsIn (push_ng counted p) _
          (push_ng-Moves index shape distance marks counted p moved.space
            (node_test-center index shape distance marks good v lt))
          (λ w' m.
            let (_, r, _, run, inserted) =
              insert-Inserted w'.results (distance v) m.space.results in
            let held =
              counted_results-Moves policy index shape distance marks trees good w'
                w'.number_of_checked_leaves r.1 m.space inserted.valid in
            rw run (
              returns (
                Moves-trans index shape distance moved (Moves-trans index shape distance m held)))))

  each_neighbour-Moves :
      (row : List ℤ) (w : WorkSpace)
      → IsSpace index shape distance w
      → ((i u : ℕ) → get_elem? row i ≡ some (pos u) → u < index.samples)
      → EndsIn marks
          (Moves index shape distance w 0 0)
          (each_neighbour policy index distance marks trees row w)
  unfolding each_neighbour
  each_neighbour-Moves [] w s inside = returns (Moves-refl index shape distance w s)
  each_neighbour-Moves (negsuc n ∷ row) w s inside = returns (Moves-refl index shape distance w s)
  each_neighbour-Moves (pos v ∷ row) w s inside =
      bind-EndsIn (check_and_set marks w (pos v)) _
        (check_and_set-Checked index shape distance marks w v s (inside 0 v refl))
        (λ r c.
          bind-EndsIn _ _
            (unless_seen-Moves index shape distance marks w r _ c
              (take_each-Moves r.1 v c.space (inside 0 v refl)))
            (λ w' m.
              weaken-EndsIn _ (each_neighbour-Moves row w' m.space (λ i u e. inside (suc i) u e))
                (λ w'' n. Moves-trans index shape distance m n)))

  -- what a round of `SearchIterative` leaves
  pub record Advanced (start : QueryResultSet) (count : ℕ) (w : WorkSpace)
      (r : ℕ × QueryResultSet × WorkSpace) : Type 0 where
    pub counted : Counted start r.0 r.1
    pub one : r.0 ≤ count + 1
    pub space : IsSpace index shape distance r.2
    pub popped : pending index shape distance r.2 < pending index shape distance w
    pub loads : load index shape distance r.2 ≤ load index shape distance w

  pub next_round-Advanced :
      (start q : QueryResultSet) (count : ℕ) (w : WorkSpace)
      → Counted start count q
      → IsSpace index shape distance w
      → load index shape distance w ≤ trees
      → (w.ng_queue.count == 0) ≡ false
      → EndsIn marks
          (Advanced start count w)
          (next_round policy index distance marks trees count q w)
  unfolding next_round
  next_round-Advanced start q count w o s enough more =
      let (v, h, run, lt, space, popped, loads) =
        pop_node policy index shape distance marks trees good w s more in
      let u = record w { ng_queue = h } in
      let p : NodeDistPair = record { node = pos v; distance = distance v } in
      let r = good.rows v lt in
      let row_width = r.width in
      let some_width = good.width in
      let (check_node, last) = get_elem?-inside r.row (index.neighborhood_size - 1) (omega arith) in
      rw (run, r.found)
        (bind-EndsIn _ _ (next_answer-Counted start q count v o lt) (λ a (counted, one).
          bind-EndsIn (relax policy index distance marks trees u p) _ (relax-Moves u p space)
            (λ w1 m1. rw last (
              bind-EndsIn _ _
                (expand_group-Moves w1 v check_node m1.space (λ t e. r.group t (rw e at last)))
                (λ w2 m2. bind-EndsIn _ _ (each_neighbour-Moves r.row w2 m2.space r.nodes) (λ w3 m3.
                  let m =
                    Moves-trans index shape distance m1 (Moves-trans index shape distance m2 m3) in
                  let fewer = m.popped in
                  let lighter = m.loads in
                  bind-EndsIn _ _
                    (refill-Moves policy index shape distance marks trees good w3 m3.space
                      (omega arith))
                    (λ w4 m4.
                      let fewer' = m4.popped in
                      let lighter' = m4.loads in
                      returns (record {
                        counted = counted;
                        one = one;
                        space = m4.space;
                        popped = omega arith;
                        loads = omega arith;
                      }))))))))
