-- ===== src/Bkt/Trees.antt =====
-- `SearchTrees` and `InitSearchTrees` of AnnService/inc/Core/Common/BKTree.h on a well-formed index.
use sptag.Base.{
  ℕ, zero, suc, ◌+◌, ◌≤◌, ◌<◌, ◌≡◌, refl, sym, subst, ◌∙◌, get_elem?, inl, inr, true, false, List,
  [], ◌∷◌, some, arith, ◌==◌, Bool-cases, ==_iff, ==_refl, lt→ltb,
}
use sptag.Base.Int.{ℤ, pos, negsuc, ℤ-cases}
use sptag.Results.{Dist}
use sptag.Pairs.{NodeDistPair, nearest_first}
use sptag.Heap
use sptag.Heap.Pop.{pop-Popped}
use sptag.WorkSpace.{WorkSpace}
use sptag.Outcome.{done, EndsIn, returns, bind-EndsIn, weaken-EndsIn, if-EndsIn}
use sptag.Bkt.{BktNode, Index, push_range, rounds, init_tree, init_search_trees, search_trees}
use sptag.Bkt.Queue.{Popped-All, Popped-total}
use sptag.Bkt.Wellformed.{Shape, range_weight, IsRoot, IsIndex, root_weight, roots_weight}
use sptag.Bkt.Space.{
  cell_test, cell_weight, IsSpace, pending, load, Moves, Moves-trans, Moves-refl, push_spt-Moves,
}
use sptag.Bkt.Cells.{distance_to-inside, push_children-Moves, search_cell-Descends}
use mathlib.Core.Option.{some_inj}

module _ (index : Index) (shape : Shape) (distance : ℕ → Dist) (marks : ℕ)
    (good : IsIndex index shape distance) where
  cell_test-cell :
      (p : NodeDistPair)
      → cell_test index shape distance p ≡ true
      → (t : ℕ) × (p ≡ record { node = pos t; distance = distance (shape.centers t) })
        × (0 < shape.cells t)
  unfolding cell_test
  cell_test-cell p ok = elim (ℤ-cases p.node) [
    | inl (t, e) ↦
        let both = rw e at ok in
        let near : p.distance ≡ distance (shape.centers t) =
          ground (arith, both, ==_iff p.distance (distance (shape.centers t))) in
        (t, (λ i. record { node = e i; distance = near i }), ground (arith, both))
    | inr (n, e) ↦ absurd (let never = rw e at ok in cc)
  ]

  -- A cell leaves the queue.
  pop_cell :
      (w : WorkSpace)
      → IsSpace index shape distance w
      → (w.spt_queue.count == 0) ≡ false
      → (t : ℕ) × (h : Heap.Heap NodeDistPair) × (Heap.pop_ref w.spt_queue
          ≡ some (record { node = pos t; distance = distance (shape.centers t) }, h))
        × (0 < shape.cells t)
        × IsSpace index shape distance (record w { spt_queue = h })
        × (pending index shape distance (record w { spt_queue = h })
            ≡ pending index shape distance w)
        × (shape.cells t + load index shape distance (record w { spt_queue = h })
            ≡ load index shape distance w)
  unfolding load cell_weight pending
  pop_cell w s more =
      let (p, h, _, _, run, popped) = pop-Popped w.spt_queue s.spt (ground arith) in
      let (ok, rest) = Popped-All (cell_test index shape distance) w.spt_queue p h popped s.cells in
      let (t, e, heavy) = cell_test-cell p ok in
      let bounded = s.spt.bounded in
      let kept = popped.kept in
      let room = s.spt_room in
      (
        t,
        h,
        rw e at run,
        heavy,
        record {
          visited = s.visited;
          spt = popped.valid;
          spt_room = omega arith;
          ng = s.ng;
          ng_room = s.ng_room;
          results = s.results;
          cells = rest;
          nodes = s.nodes;
        },
        refl,
        rw e at (Popped-total (cell_weight index shape distance) w.spt_queue p h popped),
      )

  -- SearchTrees on a well-formed index and work space ends within as many rounds as the cells
  -- in its queue weigh and never faults, unless CheckAndSet itself fails on the well-formed set
  -- that it is called on: the work space stays well-formed, with no more nodes to pop and no
  -- more weight in the queue than before.
  pub search_trees-Moves :
      (fuel : ℕ) (w : WorkSpace) (limits : ℕ)
      → IsSpace index shape distance w
      → load index shape distance w ≤ fuel
      → EndsIn marks
          (Moves index shape distance w 0 0)
          (search_trees index distance marks fuel w limits)
  unfolding search_trees
  search_trees-Moves zero w limits s enough = elim (Bool-cases (w.spt_queue.count == 0)) [
    | inl e ↦ rw e (returns (Moves-refl index shape distance w s))
    | inr more ↦
        let (t, h, run, heavy, space, same, weight) = pop_cell w s more in absurd (omega arith)
  ]
  search_trees-Moves (suc fuel) w limits s enough = elim (Bool-cases (w.spt_queue.count == 0)) [
    | inl e ↦ rw e (returns (Moves-refl index shape distance w s))
    | inr more ↦
        let (t, h, run, heavy, space, same, weight) = pop_cell w s more in
        let u = record w { spt_queue = h } in
        rw (more, run)
          (bind-EndsIn _ _
            (search_cell-Descends index shape distance marks good u t limits space heavy)
            (λ r m.
              let popped = m.popped in
              let loads = m.loads in
              if-EndsIn r.0 (done r.1) (search_trees index distance marks fuel r.1 limits)
                (λ _.
                  returns (record { space = m.space; popped = omega arith; loads = omega arith }))
                (λ _.
                  weaken-EndsIn _ (search_trees-Moves fuel r.1 limits m.space (omega arith))
                    (λ w' n.
                      let popped' = n.popped in
                      let loads' = n.loads in
                      record { space = n.space; popped = omega arith; loads = omega arith }))))
  ]

  root_weight-inner :
      (r : ℕ) (node : BktNode) (first : ℕ)
      → get_elem? index.tree_roots r ≡ some node
      → node.child_start ≡ pos first
      → root_weight index shape (pos r) ≡ range_weight shape (rounds first node.child_end) first
  unfolding root_weight
  root_weight-inner r node first found e = rw (root_weight, found, e) refl

  root_weight-leaf :
      (r : ℕ) (node : BktNode) (n : ℕ)
      → get_elem? index.tree_roots r ≡ some node
      → node.child_start ≡ negsuc n
      → root_weight index shape (pos r) ≡ shape.cells r
  unfolding root_weight
  root_weight-leaf r node n found e = rw (root_weight, found, e) refl

  init_tree-rooted :
      (start : ℤ) (w : WorkSpace) (r : IsRoot index shape start)
      → IsSpace index shape distance w
      → EndsIn marks
          (Moves index shape distance w 0 (root_weight index shape (pos r.root)))
          (init_tree index distance marks (pos r.root) w)
  unfolding init_tree push_range
  init_tree-rooted start w r s = elim (ℤ-cases r.node.child_start) [
    | inl (first, e) ↦
        rw (root_weight-inner r.root r.node first r.found e, r.found, e)
          (push_children-Moves index shape distance marks good (rounds first r.node.child_end) first
            w s (r.inner first e))
    | inr (n, e) ↦
        let heavy = r.leaf n e in
        let cell = good.cells r.root heavy in
        let same : r.node ≡ cell.node = some_inj.0 (sym r.found ∙ cell.found) in
        let v = shape.centers r.root in
        let p : NodeDistPair = record { node = pos r.root; distance = distance v } in
        let center : r.node.centerid ≡ pos v = rw same cell.center in
        let ok : cell_test index shape distance p ≡ true =
          unfold cell_test in rw (lt→ltb 0 (shape.cells r.root) heavy) (==_refl (distance v)) in
        rw
          (
            root_weight-leaf r.root r.node n r.found e,
            r.found,
            e,
            center,
            distance_to-inside index shape distance marks good v cell.inside,
          )
          (unfold cell_weight in push_spt-Moves index shape distance marks w p s ok)
  ]

  init_tree-Moves :
      (start : ℤ) (w : WorkSpace)
      → IsRoot index shape start
      → IsSpace index shape distance w
      → EndsIn marks
          (Moves index shape distance w 0 (root_weight index shape start))
          (init_tree index distance marks start w)
  init_tree-Moves start w r s =
      subst
        (λ z.
          EndsIn marks (Moves index shape distance w 0 (root_weight index shape z))
            (init_tree index distance marks z w))
        (sym r.is_root) (init_tree-rooted start w r s)

  -- The trees are entered with the weight of their roots.
  pub init_search_trees-Moves :
      (starts : List ℤ) (w : WorkSpace)
      → ((i : ℕ) (start : ℤ) → get_elem? starts i ≡ some start → IsRoot index shape start)
      → IsSpace index shape distance w
      → EndsIn marks
          (Moves index shape distance w 0 (roots_weight index shape starts))
          (init_search_trees index distance marks starts w)
  unfolding init_search_trees roots_weight
  init_search_trees-Moves [] w roots s = returns (Moves-refl index shape distance w s)
  init_search_trees-Moves (start ∷ starts) w roots s =
      bind-EndsIn (init_tree index distance marks start w) _
        (init_tree-Moves start w (roots 0 start refl) s)
        (λ w' m.
          weaken-EndsIn _ (init_search_trees-Moves starts w' (λ i. roots (suc i)) m.space)
            (λ w'' n. Moves-trans index shape distance m n))
