-- ===== src/Bkt/Search.antt =====
-- `Search` of AnnService/src/Core/BKT/BKTIndex.cpp on a well-formed index, from a well-formed work
-- space and set of results.
use mathlib.Core.List.Perm
use mathlib.Core.List.{not-mem-nil, mem-append_right, mem-cons_self, mem-cons_of_mem}
use sptag.Base.{
  ℕ, zero, suc, ◌+◌, ◌≤◌, ◌<◌, ◌≡◌, refl, sym, ◌∙◌, Bool, true, List, [], ◌∷◌, ◌++◌, some, Mem,
  Perm, arith, replicate,
}
use mathlib.Core.Option.{some_inj}
use sptag.Results.{Dist, QueryResultSet, init, sort_result, no_result}
use sptag.Results.TopK.{IsValid}
use sptag.Results.Best.{Key, key, keys, IsBound, add_points-Best}
use sptag.Results.Sort.{IsSorted, sort_result-IsSorted}
use sptag.Results.Search.{init-IsValid, map-replicate}
use sptag.WorkSpace.{WorkSpace}
use sptag.WorkSpace.Reset.{IsFresh}
use sptag.Outcome.{done, EndsIn, returns, bind-EndsIn, weaken-EndsIn, known-EndsIn}
use sptag.Bkt.{Index, init_search_trees, search_trees}
use sptag.Bkt.Query.{Policy}
use sptag.Bkt.Loop.{search_loop, search}
use sptag.Bkt.Wellformed.{Shape, IsIndex, roots_weight}
use sptag.Pairs.{NodeDistPair, nearest_first}
use sptag.Heap.Valid.{length-elements}
use sptag.Base.Int.{pos, negsuc}
use sptag.Bkt.Queue.{All, All-cons}
use sptag.Base.Sums.{total}
use sptag.Bkt.Space.{unvisited-bound, IsSpace, pending, load}
use sptag.Bkt.Trees.{init_search_trees-Moves, search_trees-Moves}
use sptag.Bkt.Answers.{is_answer, Offered}
use sptag.Bkt.Trace.{Rounds, IsTraced, search_loop-Looped}

module _ (policy : Policy) (index : Index) (shape : Shape) (distance : ℕ → Dist) (marks trees : ℕ)
    (good : IsIndex index shape distance) where
  -- what a search returns: sorted, the best of the answers it came upon and of what was held
  pub record Found (start r : QueryResultSet) : Type 0 where
    pub sorted : IsSorted r.results
    pub offered : List Key
    pub answers : (k : Key) → Mem k offered → is_answer policy index distance k ≡ true
    pub dropped : List Key
    pub same : Perm (dropped ++ keys r) (offered ++ keys start)
    pub best : (y : Key) → Mem y dropped → IsBound y (keys r)

  pub Offered-Found :
      (start q : QueryResultSet)
      → IsValid start
      → (o : Offered policy index distance start q)
      → (r : QueryResultSet) × (sort_result q ≡ some r)
        × (found : Found start r) × (found.offered ≡ o.offered)
  Offered-Found start q v o =
      let (q', run, best) = add_points-Best o.offered start v in
      let is : q' ≡ q = some_inj.0 (sym run ∙ o.run) in
      let (r, sorted, order, perm, num) = sort_result-IsSorted q o.valid in
      let same : Perm (keys q) (keys r) = Perm.map key (Perm.symm perm) in
      (
        r,
        sorted,
        record {
          sorted = order;
          offered = o.offered;
          answers = o.answers;
          dropped = best.dropped;
          same = Perm.trans (Perm.append_left best.dropped (Perm.symm same)) (rw is at best.same);
          best = λ y m x held. (rw is at best.best) y m x ((Perm.mem_iff (Perm.symm same)).0 held);
        },
        refl,
      )

  -- a search: its descents into the trees, its rounds, its last sort, and the trace of its offers
  pub record Searched (q : QueryResultSet) (w : WorkSpace) (r : QueryResultSet × WorkSpace)
      : Type 0 where
    pub seeded : WorkSpace
    pub queued : WorkSpace
    pub seeds : init_search_trees index distance marks index.tree_start w ≡ done seeded
    pub descent : search_trees index distance marks trees seeded index.initial_pivots ≡ done queued
    pub popped : List NodeDistPair
    pub unsorted : QueryResultSet
    pub looped : Rounds policy index distance marks trees q queued popped unsorted r.1
    pub sorts : sort_result unsorted ≡ some r.0
    pub found : Found q r.0
    pub traced : IsTraced policy index distance marks trees popped found.offered

  pub search-Searched :
      (fuel : ℕ) (q : QueryResultSet) (w : WorkSpace)
      → IsValid q
      → IsSpace index shape distance w
      → load index shape distance w + roots_weight index shape index.tree_start ≤ trees
      → pending index shape distance w ≤ fuel
      → EndsIn marks (Searched q w) (search policy index distance marks trees fuel q w)
  unfolding search
  search-Searched fuel q w v s light enough =
      bind-EndsIn (init_search_trees index distance marks index.tree_start w) _
        (known-EndsIn _
          (init_search_trees-Moves index shape distance marks good index.tree_start w good.roots s))
        (λ w1 (m, seeds).
          let popped = m.popped in
          let loads = m.loads in
          bind-EndsIn (search_trees index distance marks trees w1 index.initial_pivots) _
            (known-EndsIn _ (
              search_trees-Moves index shape distance marks good trees w1 index.initial_pivots
                m.space (omega arith)))
            (λ w2 (n, descent).
              let popped' = n.popped in
              let loads' = n.loads in
              bind-EndsIn (search_loop policy index distance marks trees fuel q w2) _
                (search_loop-Looped policy index shape distance marks trees good fuel q w2 v n.space
                  (omega arith) (omega arith))
                (λ r l.
                  let (r', sorted, found, list) = Offered-Found q r.0 v l.offers in
                  rw sorted (
                    returns (record {
                      seeded = w1;
                      queued = w2;
                      seeds = seeds;
                      descent = descent;
                      popped = l.popped;
                      unsorted = r.0;
                      looped = l.looped;
                      sorts = sorted;
                      found = found;
                      traced = rw list l.traced;
                    })))))

  pub fresh-IsSpace :
      (max_check num : ℕ) (w : WorkSpace)
      → 0 < max_check
      → IsFresh max_check num w
      → IsSpace index shape distance w
        × (load index shape distance w ≡ 0)
        × (pending index shape distance w ≤ index.samples)
  unfolding load pending
  fresh-IsSpace max_check num w some_check f =
      let (no_leaves, leaves) = f.no_leaves in
      let (no_nodes, nodes) = f.no_nodes in
      let v = f.valid in
      let count = length-elements w.ng_queue v.ng_queue in
      let bound = unvisited-bound index.samples w.node_check_status.table in
      (
        record {
          visited = v.node_check_status;
          spt = v.spt_queue;
          spt_room = omega arith;
          ng = v.ng_queue;
          ng_room = omega arith;
          results = v.results;
          cells = λ x held. absurd (not-mem-nil (rw no_leaves at held));
          nodes = λ x held. absurd (not-mem-nil (rw no_nodes at held));
        },
        rw no_leaves (unfold total in refl),
        omega (arith, rw no_nodes at count),
      )

  -- a result that names a vector is an answer
  named : Key → Bool
  named (v, d) = elim v [ pos u ↦ is_answer policy index distance (pos u, d) | negsuc _ ↦ true ]

  answer-named : (k : Key) → is_answer policy index distance k ≡ true → named k ≡ true
  unfolding named
  answer-named (pos u, d) h = h
  answer-named (negsuc n, d) h = refl

  All-named :
      (l : List Key) (n : ℕ)
      → ((k : Key) → Mem k l → is_answer policy index distance k ≡ true)
      → All named (l ++ replicate n (key no_result))
  unfolding named
  All-named [] zero all = λ k held. absurd (not-mem-nil held)
  All-named [] (suc n) all = All-cons named _ _ refl (All-named [] n all)
  All-named (k ∷ l) n all =
      All-cons named k (l ++ replicate n (key no_result)) (answer-named k (all k mem-cons_self))
        (All-named l n (λ x held. all x (mem-cons_of_mem k held)))

  Found-answers :
      (n : ℕ) (r : QueryResultSet)
      → Found (init n true) r
      → (u : ℕ) (d : Dist) → Mem (pos u, d) (keys r)
      → is_answer policy index distance (pos u, d) ≡ true
  unfolding named
  Found-answers n r f u d held =
      All-named f.offered n f.answers (pos u, d)
        (rw (map-replicate n) at ((Perm.mem_iff f.same).0 (mem-append_right f.dropped held)))

  -- Search for n > 0 results, on a well-formed index with a fresh work space for a positive
  -- number of checks and with fuel for its samples and for the weight of its trees, ends and
  -- never faults, unless CheckAndSet itself fails on the well-formed set of visited vectors
  -- that it is called on: the rounds of its loop go on until the queue is empty or a round
  -- returns, and each node that they take out of the queue and that is neither deleted nor
  -- filtered out is offered to the results, with nothing but nodes at the distance of one taken
  -- out. The results are sorted, the best of what is offered and of n results that name no
  -- vector, and each of them that names a vector names one that is not deleted, passes the
  -- filter, and has its true distance.
  pub query-Found :
      (n max_check num fuel : ℕ) (w : WorkSpace)
      → 0 < n
      → 0 < max_check
      → IsFresh max_check num w
      → index.samples ≤ fuel
      → roots_weight index shape index.tree_start ≤ trees
      → EndsIn marks
          (λ r.
            Searched (init n true) w r
            × ((u : ℕ) (d : Dist)
                → Mem (pos u, d) (keys r.0)
                → is_answer policy index distance (pos u, d) ≡ true))
          (search policy index distance marks trees fuel (init n true) w)
  query-Found n max_check num fuel w some_result some_check f enough light =
      let (s, empty, few) = fresh-IsSpace max_check num w some_check f in
      weaken-EndsIn _
        (search-Searched fuel (init n true) w (init-IsValid n true some_result) s (omega arith)
          (omega arith))
        (λ r s. (s, Found-answers n r.0 s.found))
