-- ===== src/RelativeGraph/Tests.antt =====
-- Rows of points on a line.
use sptag.Base.{ℕ, ◌+◌, ◌-◌, List, [], ◌∷◌, false, refl}
use sptag.Base.Int.{ℤ, pos, negsuc}
use sptag.Results.{Dist, BasicResult, no_result}
use sptag.RelativeGraph.{
  same_id, good, rebuild_loop, rebuild_neighbors, shift, insert_from, tree_entry, checked_entries,
  insert_neighbors,
}
use sptag.RelativeGraph.Rebuild.{Neighbors, rebuild_neighbors-Neighbors}
use sptag.RelativeGraph.Insert.{Inserted, ascending, all_negative, insert_neighbors-Inserted}

abbrev line : ℤ → ℤ → Dist
line (pos a) (pos b) = (a - b) + (b - a)
line _ _ = 0

abbrev whole : Dist → Dist
whole d = d

abbrev found : ℕ → Dist → BasicResult
found v d = record { vid = pos v; dist = d; meta = []; relaxed_mono = false }

-- the node itself, a neighbour, one hidden by it, a neighbour on the other side, and the end
abbrev five_results : List BasicResult
five_results = found 5 0 ∷ found 6 1 ∷ found 8 3 ∷ found 2 3 ∷ no_result ∷ []

rebuild_neighbors-Neighbors_example :
    Neighbors line whole 3 (pos 5) five_results (pos 6 ∷ pos 2 ∷ negsuc 0 ∷ [])
unfolding rebuild_neighbors rebuild_loop good same_id
rebuild_neighbors-Neighbors_example = rebuild_neighbors-Neighbors line whole 3 (pos 5) five_results

-- the last entry names the tree array, and the node 2 goes to the free entry
insert_neighbors-Inserted_example :
    Inserted line
      (pos 5)
      (pos 7)
      (pos 4 ∷ pos 2 ∷ negsuc 0 ∷ negsuc 4 ∷ [])
      (pos 4 ∷ pos 7 ∷ pos 2 ∷ negsuc 4 ∷ [])
unfolding insert_neighbors insert_from shift tree_entry checked_entries ascending all_negative
insert_neighbors-Inserted_example =
    insert_neighbors-Inserted line (pos 5) (pos 7) 2 (pos 4 ∷ pos 2 ∷ negsuc 0 ∷ negsuc 4 ∷ []) refl
      refl refl
