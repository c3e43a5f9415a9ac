-- ===== src/Bkt/Iterative.antt =====
-- `SearchIterative` of AnnService/src/Core/BKT/BKTIndex.cpp.
use sptag.Base.{
  ℕ, zero, suc, ◌+◌, ◌-◌, Bool, true, false, ◌&&◌, ◌||◌, List, [], ◌∷◌, ltb, leb, ◌==◌,
  if◌then◌else◌, get_elem?,
}
use sptag.Base.Int.{ℤ, pos, negsuc, ltb_ℤ}
use sptag.Results.{Dist, QueryResultSet, sort_result, add_point}
use sptag.Pairs.{NodeDistPair, nearest_first}
use sptag.Heap
use sptag.Worst
use sptag.WorkSpace.{WorkSpace}
use sptag.Outcome.{Outcome, done, fault, out_of_fuel, checked, at, ◌>>=◌}
use sptag.Bkt.{Index, distance_to, check_and_set, push_ng, search_trees, init_search_trees, rounds}
use sptag.Bkt.Query.{Policy, live}
use sptag.Bkt.Loop.{refill}

module _ (policy : Policy) (index : Index) (distance : ℕ → Dist) (marks trees : ℕ) where
  -- the answer of a round, and how many it makes
  unfoldable pub next_answer : ℕ → QueryResultSet → NodeDistPair → Outcome (ℕ × QueryResultSet)
  next_answer count q gnode =
      let add : Outcome (ℕ × QueryResultSet) = do
        (_, q) ← checked (add_point q gnode.node gnode.distance)
        done (count + 1, q)
      in if live policy gnode.node then add else done (count, q)

  -- the flag that tells the caller that the nodes come no nearer
  unfoldable pub relax : WorkSpace → NodeDistPair → Outcome WorkSpace
  relax w gnode = do
    worst ← checked (Worst.worst w.results)
    let beyond = ltb worst gnode.distance || ltb w.max_check w.number_of_checked_leaves
    done (if policy.not_deleted gnode.node && beyond then record w { relaxed_mono = true } else w)

  unfoldable pub push_unseen : WorkSpace → ℤ → Dist → Outcome WorkSpace
  push_unseen w v dist = do
    (seen, w) ← check_and_set marks w v
    if seen then done w else push_ng w (record { node = v; distance = dist })

  -- the loop over the duplicates, in `left` rounds
  unfoldable pub push_dups : ℕ → ℕ → WorkSpace → Dist → Outcome WorkSpace
  push_dups zero i w dist = done w
  push_dups (suc left) i w dist = do
    node ← at index.tree_roots (pos i)
    w ← if policy.not_deleted node.centerid then push_unseen w node.centerid dist else done w
    push_dups left (i + 1) w dist

  -- `-childStart` of a node whose childStart is positive is no index
  unfoldable pub push_group : WorkSpace → ℤ → ℤ → Dist → Outcome WorkSpace
  push_group w (negsuc n) last dist = push_dups (rounds (suc n) last) (suc n) w dist
  push_group w (pos zero) last dist = push_dups (rounds 0 last) 0 w dist
  push_group w (pos (suc n)) last dist = if ltb_ℤ (negsuc n) last then fault else done w

  unfoldable pub expand_group : WorkSpace → ℤ → Dist → Outcome WorkSpace
  expand_group w (pos n) dist = done w
  expand_group w (negsuc zero) dist = done w
  expand_group w (negsuc (suc t)) dist = do
    tnode ← at index.tree_roots (pos t)
    push_group w tnode.child_start tnode.child_end dist

  unfoldable pub take_each : WorkSpace → ℕ → Outcome WorkSpace
  take_each w v = do
    dist ← distance_to index distance marks (pos v)
    let counted = record w { number_of_checked_leaves = w.number_of_checked_leaves + 1 }
    w ← push_ng counted (record { node = pos v; distance = dist })
    (_, results) ← checked (Worst.insert w.results dist)
    done (record w { results = results })

  unfoldable pub each_neighbour : List ℤ → WorkSpace → Outcome WorkSpace
  each_neighbour [] w = done w
  each_neighbour (negsuc _ ∷ row) w = done w
  each_neighbour (pos v ∷ row) w = do
    (seen, w) ← check_and_set marks w (pos v)
    w ← if seen then done w else take_each w v
    each_neighbour row w

  unfoldable pub next_round :
      ℕ → QueryResultSet → WorkSpace → Outcome (ℕ × QueryResultSet × WorkSpace)
  next_round count q w = do
    (gnode, ng) ← checked (Heap.pop_ref w.ng_queue)
    row ← at index.graph gnode.node
    (count, q) ← next_answer count q gnode
    w ← relax (record w { ng_queue = ng }) gnode
    check_node ← checked (get_elem? row (index.neighborhood_size - 1))
    w ← expand_group w check_node gnode.distance
    w ← each_neighbour row w
    w ← refill policy index distance marks trees w
    done (count, q, w)

  unfoldable pub batch_loop :
      ℕ → ℕ → ℕ → QueryResultSet → WorkSpace → Outcome (ℕ × QueryResultSet × WorkSpace)
  batch_loop zero batch count q w =
      if w.ng_queue.count == 0 then done (count, q, w) else out_of_fuel
  batch_loop (suc fuel) batch count q w =
      let body : Outcome (ℕ × QueryResultSet × WorkSpace) = do
        (count, q, w) ← next_round count q w
        let rest = batch_loop fuel batch count q w
        if leb batch count then done (count, q, w) else rest
      in if w.ng_queue.count == 0 then done (count, q, w) else body

  unfoldable pub start_trees : Bool → WorkSpace → Outcome WorkSpace
  start_trees false w = done w
  start_trees true w = do
    w ← init_search_trees index distance marks index.tree_start w
    search_trees index distance marks trees w index.initial_pivots

  -- `SearchIterative`
  unfoldable pub search_iterative :
      ℕ → QueryResultSet → WorkSpace → Bool → ℕ → Outcome (ℕ × QueryResultSet × WorkSpace)
  search_iterative fuel q w is_first batch = do
    w ← start_trees is_first w
    (count, q, w) ← batch_loop fuel batch 0 q w
    q ← checked (sort_result q)
    done (count, q, w)
