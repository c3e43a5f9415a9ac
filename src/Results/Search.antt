-- ===== src/Results/Search.antt =====
-- The results of a whole query: an empty set, the calls of `AddPoint`, then `SortResult`.
use mathlib.Core.List.Perm
use sptag.Base.{
  ℕ, zero, suc, ◌/◌, ◌<◌, ◌≡◌, refl, ap, Bool, true, length-perm, List, ◌∷◌, ◌++◌, Mem, Perm,
  Option, some, arith, replicate, length-replicate, length, ◌>>=◌,
}
use sptag.Array.{get! }
use sptag.Results.{no_result, QueryResultSet, init, sort_result, worst_first}
use sptag.Results.TopK.{IsValid}
use sptag.Results.Best.{Key, key, keys, IsBound, add_points, add_points-Best}
use sptag.Results.Sort.{IsSorted, sort_result-IsSorted}
use sptag.Order.{≼_refl}

get!-replicate : (n i : ℕ) → get! (replicate n no_result) i ≡ no_result
unfolding get!
get!-replicate zero i = refl
get!-replicate (suc n) zero = refl
get!-replicate (suc n) (suc i) = get!-replicate n i

-- `Init` leaves a well-formed set of results that name no vector
pub init-IsValid : (n : ℕ) (with_meta : Bool) → 0 < n → IsValid (init n with_meta)
unfolding init
init-IsValid n with_meta h = record {
  width = length-replicate n no_result;
  positive = h;
  ordered =
      λ i lo hi. rw (get!-replicate (suc n) (i / 2), get!-replicate (suc n) i) (≼_refl no_result);
}

-- `init`, `add_points` for each offered key in order, `sort_result`
unfoldable pub query : ℕ → List Key → Option QueryResultSet
query n offered = do q ← add_points offered (init n true); sort_result q

init-num : (n : ℕ) → (init n true).result_num ≡ n
unfolding init
init-num n = refl

pub map-replicate : (n : ℕ) → keys (init n true) ≡ replicate n (key no_result)
unfolding init
map-replicate zero = refl
map-replicate (suc n) = ap (◌∷◌ (key no_result)) (map-replicate n)

-- A query for n > 0 results, whatever is offered to AddPoint, ends without a fault in a sorted
-- list of n results: the best of what was offered and of n results that name no vector. What is
-- left out is the rest, and none of it precedes a result that is kept.
pub query-Best :
    (n : ℕ) (offered : List Key)
    → 0 < n
    → (r : QueryResultSet) × (dropped : List Key) × (query n offered ≡ some r)
      × IsSorted r.results
      × (length r.results ≡ n)
      × Perm (dropped ++ keys r) (offered ++ replicate n (key no_result))
      × ((y : Key) → Mem y dropped → IsBound y (keys r))
unfolding query
query-Best n offered h =
    let (q, run, best) = add_points-Best offered (init n true) (init-IsValid n true h) in
    let (r, sorted, order, perm, num) = sort_result-IsSorted q best.valid in
    (
      r,
      best.dropped,
      rw run sorted,
      order,
      omega (arith, length-perm perm, best.valid.width, best.kept, init-num n),
      Perm.trans (Perm.append_left best.dropped (Perm.map key perm))
          (rw (← map-replicate n) best.same),
      λ y m x held. best.best y m x ((Perm.mem_iff (Perm.map key perm)).0 held),
    )
