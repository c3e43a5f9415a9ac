-- ===== src/Bkt/Wellformed.antt =====
-- When an index of k-means trees and a graph is well-formed, for
-- AnnService/inc/Core/Common/BKTree.h and src/Core/BKT/BKTIndex.cpp.
use sptag.Base.{ℕ, zero, suc, ◌+◌, ◌-◌, ◌≤◌, ◌<◌, ◌≡◌, List, [], ◌∷◌, none, some, length, get_elem?}
use sptag.Base.Int.{ℤ, pos, negsuc}
use sptag.Results.{Dist}
use sptag.Bkt.{BktNode, Index, rounds}

-- `cells` weighs the entries of the tree array: one that the descent may reach weighs more than its
-- children together, every other one 0. `centers` has their centers.
pub record Shape : Type 0 where
  pub cells : ℕ → ℕ
  pub centers : ℕ → ℕ

-- the weight of `left` entries from `begin` on
unfoldable pub range_weight : Shape → ℕ → ℕ → ℕ
range_weight shape zero begin = 0
range_weight shape (suc left) begin = shape.cells begin + range_weight shape left (begin + 1)

-- a node's children are cells, and it weighs more than they do
unfoldable pub Parent : Shape → ℕ → ℤ → ℕ → Type 0
Parent shape first last weight =
    ((t : ℕ) → first ≤ t → t < first + rounds first last → 0 < shape.cells t)
    × (range_weight shape (rounds first last) first < weight)

pub record IsCell (index : Index) (shape : Shape) (t : ℕ) : Type 0 where
  pub node : BktNode
  pub found : get_elem? index.tree_roots t ≡ some node
  pub center : node.centerid ≡ pos (shape.centers t)
  pub inside : shape.centers t < index.samples
  pub children :
      (first : ℕ) → node.child_start ≡ pos first → Parent shape first node.child_end (shape.cells t)

-- a root of a tree: a cell, or a node with children that are cells, whose own center may be no sample
pub record IsRoot (index : Index) (shape : Shape) (start : ℤ) : Type 0 where
  pub root : ℕ
  pub is_root : start ≡ pos root
  pub node : BktNode
  pub found : get_elem? index.tree_roots root ≡ some node
  pub leaf : (n : ℕ) → node.child_start ≡ negsuc n → 0 < shape.cells root
  pub inner :
      (first : ℕ)
      → node.child_start ≡ pos first
      → (t : ℕ) → first ≤ t
      → t < first + rounds first node.child_end
      → 0 < shape.cells t

-- what stands in the last place of a row for a node with duplicates: an entry of the tree array whose
-- centers from `-childStart` on are vectors at the distance of the node
pub record IsGroup (index : Index) (distance : ℕ → Dist) (v t : ℕ) : Type 0 where
  pub node : BktNode
  pub found : get_elem? index.tree_roots t ≡ some node
  pub last : ℕ
  pub is_last : node.child_end ≡ pos last
  pub inside : last < length index.tree_roots
  pub first : ℕ
  pub is_first : node.child_start ≡ negsuc first
  pub start : first < last
  pub members :
      (i : ℕ)
      → first < i
      → i < last
      → (dup : BktNode) × (u : ℕ) × (get_elem? index.tree_roots i ≡ some dup)
        × (dup.centerid ≡ pos u)
        × (u < index.samples)
        × (distance u ≡ distance v)

pub record IsRow (index : Index) (distance : ℕ → Dist) (v : ℕ) : Type 0 where
  pub row : List ℤ
  pub found : get_elem? index.graph v ≡ some row
  pub width : length row ≡ index.neighborhood_size
  pub nodes : (i u : ℕ) → get_elem? row i ≡ some (pos u) → u < index.samples
  pub group :
      (t : ℕ)
      → get_elem? row (index.neighborhood_size - 1) ≡ some (negsuc (suc t))
      → IsGroup index distance v t

pub record IsIndex (index : Index) (shape : Shape) (distance : ℕ → Dist) : Type 0 where
  pub width : 0 < index.neighborhood_size
  pub cells : (t : ℕ) → 0 < shape.cells t → IsCell index shape t
  pub roots :
      (i : ℕ) (start : ℤ) → get_elem? index.tree_start i ≡ some start → IsRoot index shape start
  pub rows : (v : ℕ) → v < index.samples → IsRow index distance v

-- the weight of what `InitSearchTrees` puts into the queue for one tree
unfoldable pub root_weight : Index → Shape → ℤ → ℕ
root_weight index shape (negsuc n) = 0
root_weight index shape (pos t) = elim (get_elem? index.tree_roots t) [
  | none ↦ 0
  | some node ↦ elim (node.child_start) [
    | negsuc _ ↦ shape.cells t
    | pos first ↦ range_weight shape (rounds first node.child_end) first
  ]
]

unfoldable pub roots_weight : Index → Shape → List ℤ → ℕ
roots_weight index shape [] = 0
roots_weight index shape (start ∷ starts) =
    root_weight index shape start + roots_weight index shape starts
