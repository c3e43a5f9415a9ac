-- ===== src/WorkSpace/Reset.antt =====
-- `Initialize` and `Reset` of WorkSpace, and what a search starts with.
use sptag.Base.{ℕ, ◌*◌, ◌/◌, ◌≤◌, ◌<◌, ◌≡◌, refl, false, [], ◌∷◌, none, some, arith, max}
use sptag.Pairs.{NodeDistPair, nearest_first}
use sptag.Heap
use sptag.Heap.Valid
use sptag.Heap.Valid.{elements, resize-IsValid, resize-empty}
use sptag.Visited
use sptag.Visited.{contains}
use sptag.Visited.Growth
use sptag.Visited.Clearing.{clear-empties, init-empty}
use sptag.Results.{max_dist}
use sptag.Worst.Insert
use sptag.Worst.Insert.{distances}
use sptag.Worst.Restart.{clear-restarts, resize-restarts, resize-none}
use sptag.WorkSpace.{WorkSpace, initialize, reset}

pub record IsValid (w : WorkSpace) : Type 0 where
  pub node_check_status : Growth.IsValid w.node_check_status
  pub spt_queue : Valid.IsValid w.spt_queue
  pub ng_queue : Valid.IsValid w.ng_queue
  pub results : Insert.IsValid w.results

-- a work space for `max_check` nodes and `num` distances before its search
pub record IsFresh (max_check num : ℕ) (w : WorkSpace) : Type 0 where
  pub valid : IsValid w
  pub unvisited : (x : ℕ) → 0 < x → contains x w.node_check_status.table ≡ false
  pub no_leaves : (elements w.spt_queue ≡ []) × (max_check * 10 ≤ w.spt_queue.capacity)
  pub no_nodes : (elements w.ng_queue ≡ []) × (max_check * 30 ≤ w.ng_queue.capacity)
  pub no_distances : (distances w.results ≡ max_dist ∷ []) × (w.results.count ≡ num)
  pub limit : w.max_check ≡ max_check

-- Reset of a well-formed work space, with room for a distance, never faults: nothing is visited,
-- both queues are empty and have the room asked for, the distances are the largest one alone with
-- the number asked for, and the work space is well-formed.
pub reset-IsFresh :
    (junk : ℕ → ℕ) (w : WorkSpace) (max_check result_num : ℕ)
    → IsValid w
    → 0 < max (max_check / 16) result_num
    → (t : WorkSpace) × (reset junk w max_check result_num ≡ some t)
      × IsFresh max_check (max (max_check / 16) result_num) t
unfolding reset
reset-IsFresh junk w max_check result_num v some_room =
    let (visited, none_seen, _) = clear-empties w.node_check_status v.node_check_status in
    let (spt, no_leaves, leaves) = Valid.clear-IsValid w.spt_queue (max_check * 10) v.spt_queue in
    let (ng, no_nodes, nodes) = Valid.clear-IsValid w.ng_queue (max_check * 30) v.ng_queue in
    let (results, run, fine, empty, num) =
      clear-restarts junk w.results (max (max_check / 16) result_num) v.results some_room in
    (
      record {
        node_check_status = Visited.clear w.node_check_status;
        spt_queue = Heap.clear w.spt_queue (max_check * 10);
        ng_queue = Heap.clear w.ng_queue (max_check * 30);
        results = results;
        num_of_continuous_no_better_propagation = 0;
        number_of_tree_checked_leaves = 0;
        number_of_checked_leaves = 0;
        max_check = max_check;
        relaxed_mono = false;
      },
      rw run refl,
      record {
        valid = record {
          node_check_status = visited;
          spt_queue = spt;
          ng_queue = ng;
          results = fine;
        };
        unvisited = none_seen;
        no_leaves = (no_leaves, leaves);
        no_nodes = (no_nodes, nodes);
        no_distances = (empty, num);
        limit = refl;
      },
    )

-- Initialize for 16 checks or more never faults, whatever the new memory holds: it leaves a well-
-- formed work space with nothing visited, empty queues of the room asked for, and the largest
-- distance alone.
pub initialize-IsFresh :
    (junk : ℕ → ℕ) (max_check hash_exp : ℕ)
    → 16 ≤ max_check
    → (t : WorkSpace) × (initialize junk max_check hash_exp ≡ some t)
      × IsFresh max_check (max_check / 16) t
unfolding initialize
initialize-IsFresh junk max_check hash_exp enough =
    let (visited, none_seen) = init-empty junk max_check hash_exp in
    let (no_leaves, leaves) = resize-empty {T = NodeDistPair} (max_check * 10) in
    let (no_nodes, nodes) = resize-empty {T = NodeDistPair} (max_check * 30) in
    let (results, run, fine, empty, num) = resize-restarts junk (max_check / 16) (omega arith) in
    (
      record {
        node_check_status = Visited.init junk max_check hash_exp;
        spt_queue = Heap.resize (max_check * 10);
        ng_queue = Heap.resize (max_check * 30);
        results = results;
        num_of_continuous_no_better_propagation = 0;
        number_of_tree_checked_leaves = 0;
        number_of_checked_leaves = 0;
        max_check = max_check;
        relaxed_mono = false;
      },
      rw run refl,
      record {
        valid = record {
          node_check_status = visited;
          spt_queue = resize-IsValid (max_check * 10);
          ng_queue = resize-IsValid (max_check * 30);
          results = fine;
        };
        unvisited = none_seen;
        no_leaves = (no_leaves, omega (arith, leaves));
        no_nodes = (no_nodes, omega (arith, nodes));
        no_distances = (empty, num);
        limit = refl;
      },
    )

-- Initialize for fewer than 16 checks writes outside the array of distances, which has room for
-- none.
pub initialize-small :
    (junk : ℕ → ℕ) (max_check hash_exp : ℕ)
    → max_check < 16
    → initialize junk max_check hash_exp ≡ none
unfolding initialize
initialize-small junk max_check hash_exp small =
    let e : max_check / 16 ≡ 0 = omega arith in rw (e, resize-none junk) refl
