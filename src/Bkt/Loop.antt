-- ===== src/Bkt/Loop.antt =====
-- The loops of `Search` and `SearchIterative` of AnnService/src/Core/BKT/BKTIndex.cpp.
use sptag.Base.{
  ℕ, zero, suc, ◌+◌, ◌-◌, Bool, true, false, ◌&&◌, ◌||◌, List, [], ◌∷◌, ltb, leb, ◌==◌,
  if◌then◌else◌, get_elem?,
}
use sptag.Base.Int.{ℤ, pos, negsuc}
use sptag.Results.{Dist, QueryResultSet, sort_result, worst_dist}
use sptag.Pairs.{NodeDistPair, nearest_first}
use sptag.Heap
use sptag.Worst
use sptag.WorkSpace.{WorkSpace}
use sptag.Outcome.{Outcome, done, out_of_fuel, checked, at, ◌>>=◌}
use sptag.Bkt.{Index, distance_to, check_and_set, push_ng, search_trees, init_search_trees}
use sptag.Bkt.Query.{Policy, offer}

-- `trees` is the fuel of `SearchTrees`
module _ (policy : Policy) (index : Index) (distance : ℕ → Dist) (marks trees : ℕ) where
  abbrev pub State : Type 0
  State = QueryResultSet × WorkSpace

  -- a neighbour that was not visited
  unfoldable pub take_neighbour : WorkSpace → ℕ → Outcome WorkSpace
  take_neighbour w v = do
    dist ← distance_to index distance marks (pos v)
    let counted = record w { number_of_checked_leaves = w.number_of_checked_leaves + 1 }
    (near, results) ← checked (Worst.insert w.results dist)
    let held = record counted { results = results }
    if near then push_ng held (record { node = pos v; distance = dist }) else done held

  unfoldable pub neighbour : WorkSpace → ℕ → Outcome WorkSpace
  neighbour w v = do
    (seen, w) ← check_and_set marks w (pos v)
    if seen then done w else take_neighbour w v

  -- the loop over a row of the graph, which has `neighborhood_size` entries
  unfoldable pub neighbours : List ℤ → WorkSpace → Outcome WorkSpace
  neighbours [] w = done w
  neighbours (negsuc _ ∷ row) w = done w
  neighbours (pos v ∷ row) w = do w ← neighbour w v; neighbours row w

  -- what ends the body: `SearchTrees` again where a tree is nearer
  unfoldable pub refill : WorkSpace → Outcome WorkSpace
  refill w = do
    ng ← checked (Heap.top w.ng_queue)
    spt ← checked (Heap.top w.spt_queue)
    let limits = index.other_pivots + w.number_of_checked_leaves
    let more = search_trees index distance marks trees w limits
    if ltb spt.distance ng.distance then more else done w

  -- the `else` branch on a node beyond the worst result: whether the search returns
  unfoldable pub gives_up : WorkSpace → NodeDistPair → Outcome Bool
  gives_up w gnode = do
    worst ← checked (Worst.worst w.results)
    done (
        policy.not_deleted gnode.node
        && (ltb worst gnode.distance || ltb w.max_check w.number_of_checked_leaves))

  -- the first part of the body, for the popped node and its row
  unfoldable pub answer :
      QueryResultSet → WorkSpace → NodeDistPair → List ℤ → Outcome (Bool × QueryResultSet)
  answer q w gnode row = do
    worst ← checked (worst_dist q)
    let near : Outcome (Bool × QueryResultSet) = do
      check_node ← checked (get_elem? row (index.neighborhood_size - 1))
      q ← offer policy index q gnode check_node
      done (false, q)
    let far : Outcome (Bool × QueryResultSet) = do stop ← gives_up w gnode; done (stop, q)
    if leb gnode.distance worst then near else far

  -- the body of the loop, and whether the search returns from it
  unfoldable pub round : QueryResultSet → WorkSpace → Outcome (Bool × QueryResultSet × WorkSpace)
  round q w = do
    (gnode, ng) ← checked (Heap.pop_ref w.ng_queue)
    let w = record w { ng_queue = ng }
    row ← at index.graph gnode.node
    (stop, q) ← answer q w gnode row
    let rest : Outcome (Bool × QueryResultSet × WorkSpace) = do
      w ← neighbours row w
      w ← refill w
      done (false, q, w)
    if stop then done (true, q, w) else rest

  unfoldable pub search_loop : ℕ → QueryResultSet → WorkSpace → Outcome State
  search_loop zero q w = if w.ng_queue.count == 0 then done (q, w) else out_of_fuel
  search_loop (suc fuel) q w =
      let body : Outcome State = do
        (stop, q, w) ← round q w
        let rest = search_loop fuel q w
        if stop then done (q, w) else rest
      in if w.ng_queue.count == 0 then done (q, w) else body

  -- `Search`; both of its ends sort the results
  unfoldable pub search : ℕ → QueryResultSet → WorkSpace → Outcome State
  search fuel q w = do
    w ← init_search_trees index distance marks index.tree_start w
    w ← search_trees index distance marks trees w index.initial_pivots
    (q, w) ← search_loop fuel q w
    q ← checked (sort_result q)
    done (q, w)
