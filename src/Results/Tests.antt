-- ===== src/Results/Tests.antt =====
-- The results of a query at concrete contents.
use sptag.Base.{ℕ, ◌≡◌, refl, true, List, [], ◌∷◌, ◌++◌, some, Mem, Perm, arith, replicate, length}
use sptag.Base.Int.{pos}
use sptag.Array.{get!, swap}
use sptag.Results.{
  BasicResult, no_result, QueryResultSet, init, add_point, sort_result, sort_loop, swap_results,
  heapify, heapify_loop, heapify_last, less_result, precedes, worst_first,
}
use sptag.Results.TopK.{IsValid}
use sptag.Results.Best.{Key, key, keys, IsBound, Best, add_points, add_points-Best}
use sptag.Results.Sort.{IsSorted}
use sptag.Results.Search.{query, query-Best}

abbrev result : ℕ → ℕ → BasicResult
result vid dist = record no_result { vid = pos vid; dist = dist }

abbrev two_results : QueryResultSet
two_results = record { results = result 1 7 ∷ result 2 4 ∷ []; result_num = 2; with_meta = true }

two_results-IsValid : IsValid two_results
unfolding less_result precedes get!
two_results-IsValid = record {
  width = refl;
  positive = omega arith;
  ordered = λ i lo hi. let e : i ≡ 2 = omega arith in rw e refl;
}

abbrev three_keys : List Key
three_keys = (pos 3, 5) ∷ (pos 4, 9) ∷ (pos 5, 2) ∷ []

add_points-Best_example :
    (r : QueryResultSet) × (add_points three_keys two_results ≡ some r)
    × Best three_keys two_results r
add_points-Best_example = add_points-Best three_keys two_results two_results-IsValid

query-Best_example :
    (r : QueryResultSet) × (dropped : List Key) × (query 2 three_keys ≡ some r)
    × IsSorted r.results
    × (length r.results ≡ 2)
    × Perm (dropped ++ keys r) (three_keys ++ replicate 2 (key no_result))
    × ((y : Key) → Mem y dropped → IsBound y (keys r))
query-Best_example = query-Best 2 three_keys (omega arith)

-- the two nearest of three, the nearest first
test_query :
    query 2 three_keys
    ≡ some (record { results = result 5 2 ∷ result 3 5 ∷ []; result_num = 2; with_meta = true })
unfolding query add_points add_point init sort_result sort_loop swap_results heapify heapify_loop
    heapify_last less_result precedes swap get!
test_query = refl
