-- ===== src/Bkt.antt =====
-- AnnService/inc/Core/Common/BKTree.h and src/Core/BKT/BKTIndex.cpp: the index of k-means trees and a
-- neighbourhood graph. This file has its data and the descent of the trees.
pub mod Query
pub mod Loop
pub mod Wellformed
pub mod Queue
pub mod Space
pub mod Cells
pub mod Trees
pub mod Answers
pub mod Neighbours
pub mod Round
pub mod Trace
pub mod Search
pub mod Iterative
pub mod Batch
pub mod Resume
mod Tests
use sptag.Base.{
  ℕ, zero, suc, ◌+◌, ◌-◌, Bool, true, false, List, [], ◌∷◌, Option, none, some, ltb, leb, ◌==◌,
  if◌then◌else◌,
}
use sptag.Base.Int.{ℤ, pos, negsuc}
use sptag.Results.{Dist}
use sptag.Pairs.{NodeDistPair, nearest_first}
use sptag.Heap
use sptag.Visited
use sptag.WorkSpace.{WorkSpace}
use sptag.Outcome.{Outcome, done, overflow, out_of_fuel, checked, at, ◌>>=◌}

pub record BktNode : Type 0 where
  pub centerid : ℤ
  pub child_start : ℤ
  pub child_end : ℤ

pub record Index : Type 0 where
  -- `m_pSamples.R()`
  pub samples : ℕ
  pub tree_roots : List BktNode
  pub tree_start : List ℤ
  -- the rows of `m_pGraph`
  pub graph : List (List ℤ)
  pub neighborhood_size : ℕ
  pub initial_pivots : ℕ
  pub other_pivots : ℕ

mark : WorkSpace → ℕ → Option (Bool × Visited.Visited) → Outcome (Bool × WorkSpace)
mark w v none = overflow w.node_check_status v
mark w v (some (seen, visited)) = done (seen, record w { node_check_status = visited })

-- `p_space.CheckAndSet(id)`; `marks` bounds how often the set of visited vectors grows in one call
pub check_and_set : ℕ → WorkSpace → ℤ → Outcome (Bool × WorkSpace)
check_and_set marks w (pos v) = mark w v (Visited.check_and_set marks w.node_check_status v)
check_and_set marks w (negsuc v) = Outcome.fault

pub push_ng : WorkSpace → NodeDistPair → Outcome WorkSpace
push_ng w p = do ng ← checked (Heap.insert w.ng_queue p); done (record w { ng_queue = ng })

pub push_spt : WorkSpace → NodeDistPair → Outcome WorkSpace
push_spt w p = do spt ← checked (Heap.insert w.spt_queue p); done (record w { spt_queue = spt })

-- the rounds of a loop from `first` to a signed end
pub rounds : ℕ → ℤ → ℕ
rounds first (pos last) = last - first
rounds first (negsuc last) = 0

-- `distance` is `m_fComputeDistance` from the target of the query to a sample.
module _ (index : Index) (distance : ℕ → Dist) (marks : ℕ) where
  -- the distance to `data[id]`
  pub distance_to : ℤ → Outcome Dist
  distance_to (pos v) = if ltb v index.samples then done (distance v) else Outcome.fault
  distance_to (negsuc v) = Outcome.fault

  -- `for (begin = childStart; begin < childEnd; begin++)` in `left` rounds
  pub push_children : ℕ → ℕ → WorkSpace → Outcome WorkSpace
  push_children zero begin w = done w
  push_children (suc left) begin w = do
    child ← at index.tree_roots (pos begin)
    dist ← distance_to child.centerid
    w ← push_spt w (record { node = pos begin; distance = dist })
    push_children left (begin + 1) w

  pub push_range : ℕ → ℤ → WorkSpace → Outcome WorkSpace
  push_range first last w = push_children (rounds first last) first w

  -- a round of `InitSearchTrees` without `m_bfs`
  pub init_tree : ℤ → WorkSpace → Outcome WorkSpace
  init_tree start w = do
    node ← at index.tree_roots start
    let leaf : Outcome WorkSpace = do
      dist ← distance_to node.centerid
      push_spt w (record { node = start; distance = dist })
    elim node.child_start [ negsuc _ ↦ leaf | pos first ↦ push_range first node.child_end w ]

  pub init_search_trees : List ℤ → WorkSpace → Outcome WorkSpace
  init_search_trees [] w = done w
  init_search_trees (start ∷ starts) w = do w ← init_tree start w; init_search_trees starts w

  -- the branch of `SearchTrees` for a leaf, and whether the loop breaks
  pub leaf_cell : WorkSpace → BktNode → Dist → ℕ → Outcome (Bool × WorkSpace)
  leaf_cell w node dist limits = do
    (seen, w) ← check_and_set marks w node.centerid
    let counted = record w { number_of_checked_leaves = w.number_of_checked_leaves + 1 }
    let fresh = push_ng counted (record { node = node.centerid; distance = dist })
    w ← if seen then done w else fresh
    done (leb limits w.number_of_checked_leaves, w)

  pub inner_cell : WorkSpace → BktNode → ℕ → Dist → Outcome (Bool × WorkSpace)
  inner_cell w node first dist = do
    (seen, w) ← check_and_set marks w node.centerid
    w ← if seen then done w else push_ng w (record { node = node.centerid; distance = dist })
    w ← push_range first node.child_end w
    done (false, w)

  pub search_cell : WorkSpace → NodeDistPair → ℕ → Outcome (Bool × WorkSpace)
  search_cell w cell limits = do
    node ← at index.tree_roots cell.node
    elim node.child_start [
      | negsuc _ ↦ leaf_cell w node cell.distance limits
      | pos first ↦ inner_cell w node first cell.distance
    ]

  -- `SearchTrees`
  pub search_trees : ℕ → WorkSpace → ℕ → Outcome WorkSpace
  search_trees zero w limits = if w.spt_queue.count == 0 then done w else out_of_fuel
  search_trees (suc fuel) w limits =
      let round : Outcome WorkSpace = do
        (cell, spt) ← checked (Heap.pop_ref w.spt_queue)
        (stop, w) ← search_cell (record w { spt_queue = spt }) cell limits
        let rest = search_trees fuel w limits
        if stop then done w else rest
      in if w.spt_queue.count == 0 then done w else round
