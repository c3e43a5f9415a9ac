-- ===== src/Bkt/Round.antt =====
-- The body of the loop of `Search` of AnnService/src/Core/BKT/BKTIndex.cpp on a well-formed index.
use sptag.Base.{
  sym, ◌∙◌, subst, Bool-cases, get_elem?, ℕ, ◌+◌, ◌-◌, ◌≤◌, ◌<◌, ◌≡◌, refl, inl, inr, Bool, true,
  false, some, arith, leb, ◌==◌, ==_iff, get_elem?-inside,
}
use sptag.Base.Int.{pos, ℤ-cases}
use sptag.Results.{BasicResult, Dist, QueryResultSet, worst_dist}
use sptag.Pairs.{NodeDistPair, nearest_first}
use sptag.Heap
use sptag.Heap.{Heap}
use sptag.Heap.Pop.{pop-Popped}
use sptag.Worst.Insert.{insert-Inserted}
use sptag.WorkSpace.{WorkSpace}
use sptag.Outcome.{done, EndsIn, returns, bind-EndsIn, if-EndsIn}
use sptag.Bkt.{Index}
use sptag.Bkt.Query.{Policy, live, offer}
use sptag.Bkt.Loop.{neighbours, refill, gives_up, answer, round}
use sptag.Bkt.Queue.{Popped-All}
use sptag.Bkt.Wellformed.{Shape, IsIndex, IsRow}
use sptag.Bkt.Space.{node_test, IsSpace, pending, load}
use sptag.Bkt.Answers.{Holding, Holding-nothing, Holding-dead, Holding-first, offer-Holding}
use sptag.Results.TopK.{IsValid, add_point-far}
use mathlib.Core.Option.{some_inj}
use sptag.Bkt.Neighbours.{neighbours-Moves, refill-Moves}

module _ (policy : Policy) (index : Index) (shape : Shape) (distance : ℕ → Dist) (marks trees : ℕ)
    (good : IsIndex index shape distance) where
  gives_up-EndsIn :
      (w : WorkSpace) (gnode : NodeDistPair)
      → IsSpace index shape distance w
      → EndsIn marks (λ _. Unit) (gives_up policy index distance marks trees w gnode)
  unfolding gives_up
  gives_up-EndsIn w gnode s =
      let (d, _, read, _, _) = insert-Inserted w.results 0 s.results in rw read (returns tt)

  -- A node farther than the worst result might be offered as well: it would be refused.
  far-Holding :
      (start q : QueryResultSet) (v : ℕ) (worst : BasicResult)
      → Holding policy index distance start v false q
      → v < index.samples
      → get_elem? q.results 0 ≡ some worst
      → leb (distance v) worst.dist ≡ false
      → Holding policy index distance start v (live policy (pos v)) q
  far-Holding start q v worst o lt read far = elim (Bool-cases (live policy (pos v))) [
    | inr dead ↦ Holding-dead policy index distance start v q o dead
    | inl alive ↦
        let (r, run, more) =
          Holding-first policy index distance start v (live policy (pos v)) q o alive lt in
        let same : r ≡ (false, q) =
          some_inj.0 (sym run ∙ add_point-far q (pos v) (distance v) worst read far) in
        subst (λ x. Holding policy index distance start v (live policy (pos v)) x.1) same more
  ]

  answer-Holding :
      (start q : QueryResultSet) (w : WorkSpace) (v : ℕ) (r : IsRow index distance v)
      → Holding policy index distance start v false q
      → IsSpace index shape distance w
      → v < index.samples
      → EndsIn marks
          (λ p. Holding policy index distance start v (live policy (pos v)) p.1)
          (answer policy index distance marks trees q w
            (record { node = pos v; distance = distance v })
            r.row)
  unfolding answer worst_dist
  answer-Holding start q w v r o s lt =
      let valid = o.more.valid in
      let width = valid.width in
      let positive = valid.positive in
      let row_width = r.width in
      let some_width = good.width in
      let p : NodeDistPair = record { node = pos v; distance = distance v } in
      let (worst, read) = get_elem?-inside q.results 0 (omega arith) in
      let (check_node, last) = get_elem?-inside r.row (index.neighborhood_size - 1) (omega arith) in
      rw (read, last)
        (if-EndsIn (leb (distance v) worst.dist) _ _
          (λ _.
            bind-EndsIn (offer policy index q p check_node) _
              (offer-Holding policy index distance start v marks q check_node o lt
                (λ t e. r.group t (rw e at last)))
              (λ q' more. returns more))
          (λ far.
            bind-EndsIn (gives_up policy index distance marks trees w p) _ (gives_up-EndsIn w p s)
              (λ stop _. returns (far-Holding start q v worst o lt read far))))

  node_test-node :
      (p : NodeDistPair)
      → node_test index shape distance p ≡ true
      → (v : ℕ) × (p ≡ record { node = pos v; distance = distance v }) × (v < index.samples)
  unfolding node_test
  node_test-node p ok = elim (ℤ-cases p.node) [
    | inl (v, e) ↦
        let both = rw e at ok in
        let near : p.distance ≡ distance v = ground (arith, both, ==_iff p.distance (distance v)) in
        (v, (λ i. record { node = e i; distance = near i }), ground (arith, both))
    | inr (n, e) ↦ absurd (let never = rw e at ok in cc)
  ]

  -- A node leaves the queue.
  pub pop_node :
      (w : WorkSpace)
      → IsSpace index shape distance w
      → (w.ng_queue.count == 0) ≡ false
      → (v : ℕ) × (h : Heap NodeDistPair) × (Heap.pop_ref w.ng_queue
          ≡ some (record { node = pos v; distance = distance v }, h))
        × (v < index.samples)
        × IsSpace index shape distance (record w { ng_queue = h })
        × (pending index shape distance (record w { ng_queue = h }) + 1
            ≡ pending index shape distance w)
        × (load index shape distance (record w { ng_queue = h }) ≡ load index shape distance w)
  unfolding load pending
  pop_node w s more =
      let (p, h, _, _, run, popped) = pop-Popped w.ng_queue s.ng (ground arith) in
      let (ok, rest) = Popped-All (node_test index shape distance) w.ng_queue p h popped s.nodes in
      let (v, e, lt) = node_test-node p ok in
      let kept = popped.kept in
      let room = s.ng_room in
      let shrunk = popped.shrunk in
      (
        v,
        h,
        rw e at run,
        lt,
        record {
          visited = s.visited;
          spt = s.spt;
          spt_room = s.spt_room;
          ng = popped.valid;
          ng_room = omega arith;
          results = s.results;
          cells = s.cells;
          nodes = rest;
        },
        omega arith,
        refl,
      )

  -- what a round leaves: one node less to pop, and no more weight in the queue of the trees
  pub record Rounded (q : QueryResultSet) (w : WorkSpace) (r : Bool × QueryResultSet × WorkSpace)
      : Type 0 where
    pub node : ℕ
    pub rest : Heap NodeDistPair
    pub taken :
        Heap.pop_ref w.ng_queue ≡ some (record { node = pos node; distance = distance node }, rest)
    pub holding : Holding policy index distance q node (live policy (pos node)) r.1
    pub space : IsSpace index shape distance r.2
    pub popped : pending index shape distance r.2 < pending index shape distance w
    pub loads : load index shape distance r.2 ≤ load index shape distance w

  pub round-Rounded :
      (q : QueryResultSet) (w : WorkSpace)
      → IsValid q
      → IsSpace index shape distance w
      → load index shape distance w ≤ trees
      → (w.ng_queue.count == 0) ≡ false
      → EndsIn marks (Rounded q w) (round policy index distance marks trees q w)
  unfolding round
  round-Rounded q w o s enough more =
      let (v, h, run, lt, space, popped, loads) = pop_node w s more in
      let u = record w { ng_queue = h } in
      let r = good.rows v lt in
      let nothing = Holding-nothing policy index distance q v o in
      rw (run, r.found)
        (bind-EndsIn _ _ (answer-Holding q q u v r nothing space lt) (λ p holding.
          if-EndsIn p.0 (done (true, p.1, u)) _
            (λ _. returns (record {
              node = v;
              rest = h;
              taken = run;
              holding = holding;
              space = space;
              popped = omega arith;
              loads = omega arith;
            }))
            (λ _.
              bind-EndsIn (neighbours policy index distance marks trees r.row u) _
                (neighbours-Moves policy index shape distance marks trees good r.row u space
                  r.nodes)
                (λ w' m.
                  let fewer = m.popped in
                  let lighter = m.loads in
                  bind-EndsIn (refill policy index distance marks trees w') _
                    (refill-Moves policy index shape distance marks trees good w' m.space
                      (omega arith))
                    (λ w'' n.
                      let fewer' = n.popped in
                      let lighter' = n.loads in
                      returns (record {
                        node = v;
                        rest = h;
                        taken = run;
                        holding = holding;
                        space = n.space;
                        popped = omega arith;
                        loads = omega arith;
                      }))))))
