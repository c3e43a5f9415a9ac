-- ===== src/Results.antt =====
-- AnnService/inc/Core/SearchResult.h, SearchQuery.h and Common/QueryResultSet.h: the results of a
-- query, kept as a heap with the worst first. `none` is an access outside the array, or the fuel of
-- a loop running out. A float stands as its place in the order of the floats, NaN left out: the
-- code only compares distances, and both zeros have one place.
pub mod Shift
pub mod TopK
pub mod Best
pub mod Sort
pub mod Search
mod Tests
use sptag.Base.{
  ℕ, zero, suc, ◌+◌, ◌-◌, ◌*◌, ◌^◌, ◌<◌, ◌≡◌, Bool, true, false, List, [], ◌∷◌, ◌++◌, Option, none,
  some, arith, ltb, ◌==◌, ◌&&◌, ◌||◌, if◌then◌else◌, get_elem?, set, length, take, replicate, ◌>>=◌,
}
use mathlib.Core.List.{reverse}
use sptag.Base.Int.{ℤ, pos, negsuc, ltb_ℤ, ltb_ℤ_asymm, ltb_ℤ_cotrans}
use sptag.Order.{Ordered}
use sptag.Array.{swap}

-- A positive float stands at 2 ^ 31 and its bit pattern.
abbrev pub Dist : Type 0
Dist = ℕ

-- `(std::numeric_limits<float>::max)() / 10`, the float of pattern 0x7dcccccc
abbrev pub max_dist : Dist
max_dist = 2 ^ 31 + 0x7dcc_cccc

-- `Meta` is the list of its bytes
pub record BasicResult : Type 0 where
  pub vid : ℤ
  pub dist : Dist
  pub meta : List ℕ
  pub relaxed_mono : Bool

abbrev pub no_result : BasicResult
no_result = record { vid = negsuc 0; dist = max_dist; meta = []; relaxed_mono = false }

-- what `AddPoint` tests, and the `operator<` of results
pub precedes : ℤ → Dist → ℤ → Dist → Bool
precedes v d w e = ltb d e || (d == e && ltb_ℤ v w)

pub less_result : BasicResult → BasicResult → Bool
less_result a b = precedes a.vid a.dist b.vid b.dist

pub less_result_asymm : (a b : BasicResult) → less_result a b ≡ true → less_result b a ≡ false
unfolding less_result precedes
less_result_asymm a b h = ground (arith, ltb_ℤ_asymm a.vid b.vid)

pub less_result_cotrans :
    (a b c : BasicResult)
    → less_result b a ≡ false
    → less_result c b ≡ false
    → less_result c a ≡ false
unfolding less_result precedes
less_result_cotrans a b c p q = ground (arith, ltb_ℤ_cotrans a.vid b.vid c.vid)

-- The order of the heap: a later result stands first.
instance abbrev pub worst_first : Ordered BasicResult
worst_first = record {
  default = no_result;
  less = λ a b. less_result b a;
  less_asymm = λ a b. less_result_asymm b a;
  less_cotrans = λ a b c p q. less_result_cotrans c b a q p;
}

-- `m_resultNum` is the length of `m_results`, as `Init` leaves it
pub record QueryResultSet : Type 0 where
  pub results : List BasicResult
  pub result_num : ℕ
  pub with_meta : Bool

-- `Init`, less the target vector
pub init : ℕ → Bool → QueryResultSet
init n with_meta = record { results = replicate n no_result; result_num = n; with_meta = with_meta }

pub swap_results : List BasicResult → ℕ → ℕ → Option (List BasicResult)
swap_results a i j = do _ ← get_elem? a i; _ ← get_elem? a j; some (swap a i j)

-- the statement after the loop of `Heapify`
pub heapify_last : List BasicResult → ℕ → ℕ → ℕ → Option (List BasicResult)
heapify_last a parent next maxidx =
    if next == maxidx
    then (do
      x ← get_elem? a next
      p ← get_elem? a parent
      if less_result p x then swap_results a parent next else some a)
    else some a

pub heapify_loop : ℕ → List BasicResult → ℕ → ℕ → ℕ → Option (List BasicResult)
heapify_loop zero a parent next maxidx = none
heapify_loop (suc fuel) a parent next maxidx =
    let round : Option (List BasicResult) = do
      x ← get_elem? a next
      y ← get_elem? a (next + 1)
      let child = if less_result x y then next + 1 else next
      c ← get_elem? a child
      p ← get_elem? a parent
      let sink =
          swap_results a parent child >>= λ b. heapify_loop fuel b child (child * 2 + 1) maxidx
      if less_result p c then sink else heapify_last a parent child maxidx
    in if ltb next maxidx then round else heapify_last a parent next maxidx

-- `maxidx` is -1 at `count` 0, where the code does nothing either
pub heapify : List BasicResult → ℕ → Option (List BasicResult)
heapify a count = heapify_loop (count + 1) a 0 1 (count - 1)

unfoldable pub worst_dist : QueryResultSet → Option Dist
worst_dist q = do r ← get_elem? q.results 0; some r.dist

-- Only `VID` and `Dist` of the worst result are written over.
pub add_point : QueryResultSet → ℤ → Dist → Option (Bool × QueryResultSet)
add_point q index dist = do
  worst ← get_elem? q.results 0
  let better : Option (Bool × QueryResultSet) = do
    a ← heapify (set q.results 0 (record worst { vid = index; dist = dist })) q.result_num
    some (true, record q { results = a })
  if precedes index dist worst.vid worst.dist then better else some (false, q)

-- the loop of `SortResult`, for the entries below `i`
pub sort_loop : ℕ → List BasicResult → Option (List BasicResult)
sort_loop zero a = some a
sort_loop (suc i) a = do b ← swap_results a 0 i; c ← heapify b i; sort_loop i c

pub sort_result : QueryResultSet → Option QueryResultSet
sort_result q = do a ← sort_loop q.result_num q.results; some (record q { results = a })

-- `Reverse` turns the first `m_resultNum` results round, which are all
pub reverse_results : QueryResultSet → QueryResultSet
reverse_results q = record q { results = reverse q.results }

-- `Reset` leaves `RelaxedMono` of each result as it is
reset_all : ℕ → List BasicResult → List BasicResult
reset_all zero a = a
reset_all (suc n) [] = []
reset_all (suc n) (r ∷ a) = record r { vid = negsuc 0; dist = max_dist; meta = [] } ∷ reset_all n a

pub reset : QueryResultSet → QueryResultSet
reset q = record q { results = reset_all q.result_num q.results }

pub set_result : QueryResultSet → ℕ → ℤ → Dist → Option QueryResultSet
set_result q i vid dist =
    if ltb i q.result_num
    then (do
      r ← get_elem? q.results i
      some (record q { results = set q.results i (record r { vid = vid; dist = dist }) }))
    else some q
