-- ===== src/RelativeGraph.antt =====
-- AnnService/inc/Core/Common/RelativeNeighborhoodGraph.h: the neighbours of a node, nearest first and none
-- of them behind another. A row has `m_iNeighborhoodSize` entries.
pub mod Rebuild
pub mod Insert
mod Tests
use sptag.Base.{
  ℕ, zero, suc, ◌+◌, ◌-◌, Bool, true, false, not, ◌&&◌, ◌||◌, List, [], ◌∷◌, ◌++◌, length,
  replicate, ltb, leb, ◌==◌, if◌then◌else◌,
}
use sptag.Base.Int.{ℤ, pos, negsuc, ltb_ℤ}
use sptag.Results.{Dist, BasicResult}

abbrev pub negative : ℤ → Bool
negative (pos n) = false
negative (negsuc n) = true

pub same_id : ℤ → ℤ → Bool
same_id a b = not (ltb_ℤ a b) && not (ltb_ℤ b a)

-- `between` is `ComputeDistance` of two samples, `scale` the product with `m_fRNGFactor`
module _ (between : ℤ → ℤ → Dist) (scale : Dist → Dist) where
  -- the loop over the neighbours found so far: no one of them hides the result
  pub good : List ℤ → BasicResult → Bool
  good [] item = true
  good (v ∷ nodes) item =
      let rest = good nodes item in
      if ltb (scale (between v item.vid)) item.dist then false else rest

  -- the loop of `RebuildNeighbors` over the results that are left
  pub rebuild_loop : ℕ → ℤ → List ℤ → List BasicResult → List ℤ
  rebuild_loop size node nodes [] = nodes
  rebuild_loop size node nodes (item ∷ results) =
      let skip = rebuild_loop size node nodes results in
      let take = rebuild_loop size node (nodes ++ item.vid ∷ []) results in
      if not (ltb (length nodes) size)
      then nodes
      else if negative item.vid
      then nodes
      else if same_id item.vid node
      then skip
      else if good nodes item
      then take
      else skip

  -- `RebuildNeighbors`: the row that it writes
  pub rebuild_neighbors : ℕ → ℤ → List BasicResult → List ℤ
  rebuild_neighbors size node results =
      let nodes = rebuild_loop size node [] results in
      nodes ++ replicate (size - length nodes) (negsuc 0)

module _ (between : ℤ → ℤ → Dist) where
  -- the inner loop of `InsertNeighbors`, with `tmpNode` in hand: the last node in hand is lost
  pub shift : ℤ → ℤ → ℤ → List ℤ → List ℤ
  shift node insert_node tmp [] = []
  shift node insert_node tmp (v ∷ row) =
      let rest = shift node insert_node v row in
      if leb (between tmp node) (between tmp insert_node)
      then tmp ∷ (if negative v then row else rest)
      else v ∷ row

  -- the loop of `InsertNeighbors` from entry `k` on
  pub insert_from : ℤ → ℤ → Dist → List ℤ → List ℤ
  insert_from node insert_node insert_dist [] = []
  insert_from node insert_node insert_dist (v ∷ row) =
      let rest = insert_from node insert_node insert_dist row in
      let dist = between v node in
      if negative v
      then insert_node ∷ row
      else if ltb insert_dist dist || (insert_dist == dist && ltb_ℤ insert_node v)
      then insert_node ∷ shift node insert_node v row
      else if ltb (between v insert_node) insert_dist
      then v ∷ row
      else v ∷ rest

-- the last entry of a row, where it names an entry of the tree array
pub tree_entry : List ℤ → List ℤ
tree_entry [] = []
tree_entry (v ∷ []) = if ltb_ℤ v (negsuc 0) then v ∷ [] else []
tree_entry (v ∷ w ∷ row) = tree_entry (w ∷ row)

-- the entries before it: the first `checkNeighborhoodSize`
pub checked_entries : List ℤ → List ℤ
checked_entries [] = []
checked_entries (v ∷ []) = if ltb_ℤ v (negsuc 0) then [] else v ∷ []
checked_entries (v ∷ w ∷ row) = v ∷ checked_entries (w ∷ row)

-- `InsertNeighbors`
pub insert_neighbors : (ℤ → ℤ → Dist) → ℤ → ℤ → Dist → List ℤ → List ℤ
insert_neighbors between node insert_node insert_dist row =
    insert_from between node insert_node insert_dist (checked_entries row) ++ tree_entry row
