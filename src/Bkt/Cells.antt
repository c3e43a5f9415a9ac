-- ===== src/Bkt/Cells.antt =====
-- The body of `SearchTrees` of AnnService/inc/Core/Common/BKTree.h on a well-formed index.
use sptag.Base.{
  ℕ, zero, suc, ◌+◌, ◌-◌, ◌≤◌, ◌<◌, ◌≡◌, refl, true, false, arith, if◌then◌else◌, ==_refl, lt→ltb,
}
use sptag.Base.Int.{ℤ, pos, negsuc}
use sptag.Results.{Dist}
use sptag.Pairs.{NodeDistPair, nearest_first}
use sptag.WorkSpace.{WorkSpace}
use sptag.Outcome.{done, EndsIn, returns, bind-EndsIn, weaken-EndsIn}
use sptag.Bkt.{
  BktNode, Index, distance_to, check_and_set, push_ng, push_spt, push_children, push_range, rounds,
  leaf_cell, inner_cell, search_cell,
}
use sptag.Bkt.Wellformed.{Shape, range_weight, IsCell, IsIndex, Parent}
use sptag.Bkt.Space.{
  node_test, cell_test, cell_weight, IsSpace, Moves, Moves-trans, Moves-within, Moves-refl,
  check_and_set-Checked, push_ng-Moves, push_spt-Moves, counted-Moves, unless_seen-Moves,
}

module _ (index : Index) (shape : Shape) (distance : ℕ → Dist) (marks : ℕ)
    (good : IsIndex index shape distance) where
  pub distance_to-inside :
      (v : ℕ) → v < index.samples → distance_to index distance marks (pos v) ≡ done (distance v)
  unfolding distance_to
  distance_to-inside v lt = rw (lt→ltb v index.samples lt) refl

  pub node_test-center :
      (v : ℕ)
      → v < index.samples
      → node_test index shape distance (record { node = pos v; distance = distance v }) ≡ true
  unfolding node_test
  node_test-center v lt = rw (lt→ltb v index.samples lt) (==_refl (distance v))

  pub push_children-Moves :
      (left begin : ℕ) (w : WorkSpace)
      → IsSpace index shape distance w
      → ((t : ℕ) → begin ≤ t → t < begin + left → 0 < shape.cells t)
      → EndsIn marks
          (Moves index shape distance w 0 (range_weight shape left begin))
          (push_children index distance marks left begin w)
  unfolding push_children range_weight
  push_children-Moves zero begin w s all = returns (Moves-refl index shape distance w s)
  push_children-Moves (suc left) begin w s all =
      let heavy = all begin (omega arith) (omega arith) in
      let cell = good.cells begin heavy in
      let p : NodeDistPair = record {
        node = pos begin;
        distance = distance (shape.centers begin);
      } in
      let ok : cell_test index shape distance p ≡ true =
        unfold cell_test in
        rw (lt→ltb 0 (shape.cells begin) heavy) (==_refl (distance (shape.centers begin))) in
      rw (cell.found, cell.center, distance_to-inside (shape.centers begin) cell.inside)
        (bind-EndsIn (push_spt w p) _ (push_spt-Moves index shape distance marks w p s ok) (λ w' m.
          weaken-EndsIn _
            (push_children-Moves left (begin + 1) w' m.space
              (λ t lo hi. all t (omega arith) (omega arith)))
            (λ w'' n. unfold cell_weight in Moves-trans index shape distance m n)))

  leaf_cell-Descends :
      (w : WorkSpace) (node : BktNode) (v limits : ℕ)
      → IsSpace index shape distance w
      → node.centerid ≡ pos v
      → v < index.samples
      → EndsIn marks
          (λ r. Moves index shape distance w 0 0 r.1)
          (leaf_cell index distance marks w node (distance v) limits)
  unfolding leaf_cell
  leaf_cell-Descends w node v limits s center lt = rw center (
      bind-EndsIn (check_and_set marks w (pos v)) _
        (check_and_set-Checked index shape distance marks w v s lt)
        (λ r c.
          let counted = record r.1 {
            number_of_checked_leaves = r.1.number_of_checked_leaves + 1;
          } in
          let moved =
            counted-Moves index shape distance r.1 (r.1.number_of_checked_leaves + 1) c.space in
          let p : NodeDistPair = record { node = pos v; distance = distance v } in
          bind-EndsIn (if r.0 then done r.1 else push_ng counted p) _
            (unless_seen-Moves index shape distance marks w r (push_ng counted p) c (
              weaken-EndsIn (push_ng counted p)
                (push_ng-Moves index shape distance marks counted p moved.space
                  (node_test-center v lt))
                (λ w' m. Moves-trans index shape distance moved m)))
            (λ w' m. returns m)))

  inner_cell-Descends :
      (w : WorkSpace) (node : BktNode) (first v weight : ℕ)
      → IsSpace index shape distance w
      → node.centerid ≡ pos v
      → v < index.samples
      → Parent shape first node.child_end weight
      → EndsIn marks
          (λ r. Moves index shape distance w 0 (weight - 1) r.1 × (r.0 ≡ false))
          (inner_cell index distance marks w node first (distance v))
  unfolding inner_cell push_range Parent
  inner_cell-Descends w node first v weight s center lt (all, lighter) = rw center (
      bind-EndsIn (check_and_set marks w (pos v)) _
        (check_and_set-Checked index shape distance marks w v s lt)
        (λ r c.
          let p : NodeDistPair = record { node = pos v; distance = distance v } in
          bind-EndsIn (if r.0 then done r.1 else push_ng r.1 p) _
            (unless_seen-Moves index shape distance marks w r (push_ng r.1 p) c
              (push_ng-Moves index shape distance marks r.1 p c.space (node_test-center v lt)))
            (λ w' m.
              bind-EndsIn
                (push_children index distance marks (rounds first node.child_end) first w') _
                (push_children-Moves (rounds first node.child_end) first w' m.space all)
                (λ w'' n. returns (
                  Moves-within index shape distance 0 (weight - 1)
                      (Moves-trans index shape distance m n) (omega arith) (omega arith),
                  refl,
                )))))

  -- The body of `SearchTrees`, on a cell of the queue.
  pub search_cell-Descends :
      (w : WorkSpace) (t limits : ℕ)
      → IsSpace index shape distance w
      → 0 < shape.cells t
      → EndsIn marks
          (λ r. Moves index shape distance w 0 (shape.cells t - 1) r.1)
          (search_cell index distance marks w
            (record { node = pos t; distance = distance (shape.centers t) })
            limits)
  unfolding search_cell
  search_cell-Descends w t limits s heavy =
      let cell = good.cells t heavy in rw cell.found (by_start cell cell.node.child_start refl)
    where
      by_start :
          (cell : IsCell index shape t) (z : ℤ)
          → cell.node.child_start ≡ z
          → EndsIn marks
              (λ r. Moves index shape distance w 0 (shape.cells t - 1) r.1)
              (elim (cell.node.child_start) [
                | negsuc _ ↦
                    leaf_cell index distance marks w cell.node (distance (shape.centers t)) limits
                | pos first ↦
                    inner_cell index distance marks w cell.node first (distance (shape.centers t))
              ])
      by_start cell (negsuc n) e = rw e (
          weaken-EndsIn _
            (leaf_cell-Descends w cell.node (shape.centers t) limits s cell.center cell.inside)
            (λ r m.
              Moves-within index shape distance 0 (shape.cells t - 1) m (omega arith)
                (omega arith)))
      by_start cell (pos first) e = rw e (
          weaken-EndsIn _
            (inner_cell-Descends w cell.node first (shape.centers t) (shape.cells t) s cell.center
              cell.inside (cell.children first e))
            (λ r m. m.0))
