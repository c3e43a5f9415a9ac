-- ===== src/Bkt/Resume.antt =====
-- `SearchIterative` of AnnService/src/Core/BKT/BKTIndex.cpp on a well-formed index: a whole call.
use mathlib.Core.List.{not-mem-nil}
use sptag.Base.{
  ℕ, zero, suc, ◌+◌, ◌≤◌, ◌<◌, ◌≡◌, refl, ap, ◌∙◌, inl, inr, Bool, true, false, [], arith, leb,
  ◌==◌, Bool-cases, max, length,
}
use sptag.Results.{Dist, QueryResultSet}
use sptag.Results.TopK.{IsValid}
use sptag.Results.Best.{add_points}
use sptag.WorkSpace.{WorkSpace}
use sptag.Outcome.{done, EndsIn, returns, bind-EndsIn, weaken-EndsIn, if-EndsIn}
use sptag.Bkt.{Index, init_search_trees}
use sptag.Bkt.Query.{Policy}
use sptag.Bkt.Iterative.{next_round, batch_loop, start_trees, search_iterative}
use sptag.Bkt.Wellformed.{Shape, IsIndex, roots_weight}
use sptag.Bkt.Space.{IsSpace, pending, load, Moves}
use sptag.Bkt.Trees.{search_trees-Moves, init_search_trees-Moves}
use sptag.Bkt.Answers.{Offered}
use sptag.Bkt.Search.{Found, Offered-Found}
use sptag.Bkt.Batch.{Counted, next_round-Advanced}

module _ (policy : Policy) (index : Index) (shape : Shape) (distance : ℕ → Dist) (marks trees : ℕ)
    (good : IsIndex index shape distance) where
  -- what the loop leaves
  record Batched (start : QueryResultSet) (limit : ℕ) (w : WorkSpace)
      (r : ℕ × QueryResultSet × WorkSpace) : Type 0 where
    counted : Counted policy index shape distance marks trees good start r.0 r.1
    bounded : r.0 ≤ limit
    space : IsSpace index shape distance r.2
    popped : pending index shape distance r.2 ≤ pending index shape distance w
    loads : load index shape distance r.2 ≤ load index shape distance w

  batch_loop-Batched :
      (fuel batch count : ℕ) (start q : QueryResultSet) (w : WorkSpace)
      → Counted policy index shape distance marks trees good start count q
      → IsSpace index shape distance w
      → load index shape distance w ≤ trees
      → pending index shape distance w ≤ fuel
      → count < max batch 1
      → EndsIn marks
          (Batched start (max batch 1) w)
          (batch_loop policy index distance marks trees fuel batch count q w)
  unfolding batch_loop
  batch_loop-Batched zero batch count start q w o s light enough few =
      elim (Bool-cases (w.ng_queue.count == 0)) [
        | inl e ↦ rw e (
            returns (record {
              counted = o;
              bounded = omega arith;
              space = s;
              popped = omega arith;
              loads = omega arith;
            }))
        | inr more ↦ absurd (unfold pending in ground arith)
      ]
  batch_loop-Batched (suc fuel) batch count start q w o s light enough few =
      elim (Bool-cases (w.ng_queue.count == 0)) [
        | inl e ↦ rw e (
            returns (record {
              counted = o;
              bounded = omega arith;
              space = s;
              popped = omega arith;
              loads = omega arith;
            }))
        | inr more ↦ rw more (
            bind-EndsIn (next_round policy index distance marks trees count q w) _
              (next_round-Advanced policy index shape distance marks trees good start q count w o s
                light more)
              (λ r m.
                let popped = m.popped in
                let loads = m.loads in
                let one = m.one in
                if-EndsIn (leb batch r.0) (done r) _
                  (λ _. returns (record {
                    counted = m.counted;
                    bounded = omega arith;
                    space = m.space;
                    popped = omega arith;
                    loads = omega arith;
                  }))
                  (λ less.
                    weaken-EndsIn _
                      (batch_loop-Batched fuel batch r.0 start r.1 r.2 m.counted m.space
                        (omega arith) (omega arith) (ground (arith, less)))
                      (λ r' b.
                        let popped' = b.popped in
                        let loads' = b.loads in
                        record {
                          counted = b.counted;
                          bounded = b.bounded;
                          space = b.space;
                          popped = omega arith;
                          loads = omega arith;
                        }))))
      ]

  start_trees-Moves :
      (is_first : Bool) (w : WorkSpace)
      → IsSpace index shape distance w
      → load index shape distance w + roots_weight index shape index.tree_start ≤ trees
      → EndsIn marks
          (Moves index shape distance w 0 (roots_weight index shape index.tree_start))
          (start_trees policy index distance marks trees is_first w)
  unfolding start_trees
  start_trees-Moves false w s enough =
      returns (record { space = s; popped = omega arith; loads = omega arith })
  start_trees-Moves true w s enough =
      bind-EndsIn (init_search_trees index distance marks index.tree_start w) _
        (init_search_trees-Moves index shape distance marks good index.tree_start w good.roots s)
        (λ w1 m.
          let loads = m.loads in
          let popped = m.popped in
          weaken-EndsIn _
            (search_trees-Moves index shape distance marks good trees w1 index.initial_pivots
              m.space (omega arith))
            (λ w2 n.
              let loads' = n.loads in
              let popped' = n.popped in
              record { space = n.space; popped = omega arith; loads = omega arith }))

  -- what a call returns: its count of answers, at most the batch or one, the results with them,
  -- and a work space that the next call can go on with
  pub record Resumable (q : QueryResultSet) (batch : ℕ) (w : WorkSpace)
      (r : ℕ × QueryResultSet × WorkSpace) : Type 0 where
    pub found : Found policy index shape distance marks trees good q r.1
    pub count : length found.offered ≡ r.0
    pub bounded : r.0 ≤ max batch 1
    pub space : IsSpace index shape distance r.2
    pub popped : pending index shape distance r.2 ≤ pending index shape distance w
    pub loads : load index shape distance r.2 ≤ trees

  -- A call of SearchIterative on a well-formed index, from well-formed results and work space
  -- and with fuel for the nodes and the weight of the trees that are left, ends and never
  -- faults, unless CheckAndSet itself fails on the well-formed set that it is called on: it
  -- returns as many answers as it has added, at most the batch or one, the results are sorted
  -- and the best of these and of those held, and it leaves a well-formed work space with no
  -- more nodes to pop and no more weight than the fuel of the trees.
  pub search_iterative-Resumable :
      (fuel batch : ℕ) (is_first : Bool) (q : QueryResultSet) (w : WorkSpace)
      → IsValid q
      → IsSpace index shape distance w
      → load index shape distance w + roots_weight index shape index.tree_start ≤ trees
      → pending index shape distance w ≤ fuel
      → EndsIn marks
          (Resumable q batch w)
          (search_iterative policy index distance marks trees fuel q w is_first batch)
  unfolding search_iterative
  search_iterative-Resumable fuel batch is_first q w v s light enough =
      bind-EndsIn _ _ (start_trees-Moves is_first w s light) (λ w1 m.
        let popped = m.popped in
        let loads = m.loads in
        let start : Offered policy index distance q q = record {
          valid = v;
          offered = [];
          run = unfold add_points in refl;
          answers = λ k held. absurd (not-mem-nil held);
        } in
        bind-EndsIn _ _
          (batch_loop-Batched fuel batch 0 q q w1 (start, refl) m.space (omega arith) (omega arith)
            (omega arith))
          (λ r b.
            let popped' = b.popped in
            let loads' = b.loads in
            let (o, e) = b.counted in
            let (q', sorted, found, same) =
              Offered-Found policy index shape distance marks trees good q r.1 v o in
            rw sorted (
              returns (record {
                found = found;
                count = ap length same ∙ e;
                bounded = b.bounded;
                space = b.space;
                popped = omega arith;
                loads = omega arith;
              }))))
