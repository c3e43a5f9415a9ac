-- ===== src/Bkt/Space.antt =====
-- What a search over the trees and the graph of AnnService/src/Core/BKT/BKTIndex.cpp keeps of its
-- work space, operation by operation.
use sptag.Base.{
  ℕ, zero, suc, ◌+◌, ◌≤◌, ◌<◌, ◌≡◌, refl, sym, ◌∙◌, inl, inr, Bool, true, false, ◌&&◌, ◌||◌, List,
  arith, ltb, ◌==◌, if◌then◌else◌, Bool-cases, ==_iff,
}
use sptag.Base.Int.{pos, negsuc}
use sptag.Results.{Dist}
use sptag.Pairs.{NodeDistPair, nearest_first}
use sptag.Heap.Valid
use sptag.Heap.Valid.{elements}
use sptag.Visited.{contains}
use sptag.Visited.Growth
use sptag.Visited.Marks.{check_and_set-Marks}
use sptag.Worst.Insert
use sptag.WorkSpace.{WorkSpace}
use sptag.Outcome.{Outcome, done, EndsIn, returns, overflows, weaken-EndsIn, if-EndsIn}
use sptag.Bkt.{Index, check_and_set, mark, push_ng, push_spt}
use sptag.Base.Sums.{total}
use sptag.Bkt.Queue.{All, insert-Pushed, Pushed-All, Pushed-total}
use sptag.Bkt.Wellformed.{Shape}

-- how many of the ids below `n` have no entry
pub unvisited : ℕ → List ℕ → ℕ
unvisited zero table = 0
unvisited (suc n) table = (if contains (suc n) table then 0 else 1) + unvisited n table

module _ (t u : List ℕ) (x : ℕ)
    (entries : (y : ℕ) → 0 < y → contains y u ≡ (x == y || contains y t)) where
  pub unvisited_le : (n : ℕ) → unvisited n u ≤ unvisited n t
  unfolding unvisited
  unvisited_le zero = omega arith
  unvisited_le (suc n) = ground (arith, unvisited_le n, entries (suc n) (omega arith))

  pub unvisited_lt : (n : ℕ) → 0 < x → x ≤ n → contains x t ≡ false → unvisited n u < unvisited n t
  unfolding unvisited
  unvisited_lt zero above le fresh = absurd (omega arith)
  unvisited_lt (suc n) above le fresh = elim (Bool-cases (x == suc n)) [
    | inl e ↦
        let same = (==_iff x (suc n)).0 e in
        ground (arith, unvisited_le n, entries (suc n) (omega arith), rw same at fresh)
    | inr ne ↦
        let less = unvisited_lt n above (ground (arith, ne)) fresh in
        ground (arith, entries (suc n) (omega arith))
  ]

module _ (index : Index) (shape : Shape) (distance : ℕ → Dist) where
  -- a vector with its distance
  unfoldable pub node_test : NodeDistPair → Bool
  node_test p = elim (p.node) [
    | pos v ↦ ltb v index.samples && p.distance == distance v
    | negsuc _ ↦ false
  ]

  -- a cell with the distance of its center
  unfoldable pub cell_test : NodeDistPair → Bool
  cell_test p = elim (p.node) [
    | pos t ↦ ltb 0 (shape.cells t) && p.distance == distance (shape.centers t)
    | negsuc _ ↦ false
  ]

  unfoldable pub cell_weight : NodeDistPair → ℕ
  cell_weight p = elim (p.node) [ pos t ↦ shape.cells t | negsuc _ ↦ 0 ]

  pub record IsSpace (w : WorkSpace) : Type 0 where
    pub visited : Growth.IsValid w.node_check_status
    pub spt : Valid.IsValid w.spt_queue
    pub spt_room : 0 < w.spt_queue.capacity
    pub ng : Valid.IsValid w.ng_queue
    pub ng_room : 0 < w.ng_queue.capacity
    pub results : Insert.IsValid w.results
    pub cells : All cell_test (elements w.spt_queue)
    pub nodes : All node_test (elements w.ng_queue)

  -- the nodes that the search may still pop: those in the queue and those that were not visited
  unfoldable pub pending : WorkSpace → ℕ
  pending w = unvisited index.samples w.node_check_status.table + w.ng_queue.count

  -- the weight of the cells in the queue
  unfoldable pub load : WorkSpace → ℕ
  load w = total cell_weight (elements w.spt_queue)

  -- from `w` to `w'`, with at most so many more nodes to pop and so much more weight
  pub record Moves (w : WorkSpace) (nodes cells : ℕ) (w' : WorkSpace) : Type 0 where
    pub space : IsSpace w'
    pub popped : pending w' ≤ nodes + pending w
    pub loads : load w' ≤ cells + load w

  pub Moves-trans :
      {u v w : WorkSpace} {a b c d : ℕ} → Moves u a b v → Moves v c d w → Moves u (a + c) (b + d) w
  Moves-trans m n =
      let p = m.popped in
      let q = n.popped in
      let r = m.loads in
      let s = n.loads in record { space = n.space; popped = omega arith; loads = omega arith }

  pub Moves-within :
      {u w : WorkSpace} {a b : ℕ} (c d : ℕ) → Moves u a b w → a ≤ c → b ≤ d → Moves u c d w
  Moves-within c d m p q =
      let r = m.popped in
      let s = m.loads in record { space = m.space; popped = omega arith; loads = omega arith }

  -- `CheckAndSet` of a sample: one node less is to pop if it was not visited
  pub record Checked (w : WorkSpace) (r : Bool × WorkSpace) : Type 0 where
    pub space : IsSpace r.1
    pub seen : pending r.1 ≤ pending w
    pub fresh : r.0 ≡ false → pending r.1 + 1 ≤ pending w
    pub loads : load r.1 ≡ load w

  pub check_and_set-Checked :
      (marks : ℕ) (w : WorkSpace) (v : ℕ)
      → IsSpace w
      → v < index.samples
      → EndsIn marks (Checked w) (check_and_set marks w (pos v))
  unfolding check_and_set mark pending load
  check_and_set-Checked marks w v s lt =
      elim (check_and_set-Marks marks w.node_check_status v s.visited) [
        | inl fails ↦ rw fails (overflows s.visited fails)
        | inr (r, run, m) ↦
            let table = w.node_check_status.table in
            let le = unvisited_le table r.1.table (v + 1) m.entries index.samples in
            rw run (
              returns (record {
                space = record {
                  visited = m.valid;
                  spt = s.spt;
                  spt_room = s.spt_room;
                  ng = s.ng;
                  ng_room = s.ng_room;
                  results = s.results;
                  cells = s.cells;
                  nodes = s.nodes;
                };
                seen = omega arith;
                fresh = λ e.
                    let less =
                      unvisited_lt table r.1.table (v + 1) m.entries index.samples (omega arith)
                        (omega arith) (sym m.found ∙ e) in
                    omega arith;
                loads = refl;
              }))
      ]

  pub push_ng-Moves :
      (marks : ℕ) (w : WorkSpace) (p : NodeDistPair)
      → IsSpace w
      → node_test p ≡ true
      → EndsIn marks (Moves w 1 0) (push_ng w p)
  unfolding push_ng pending load
  push_ng-Moves marks w p s ok =
      let (h, run, pushed) = insert-Pushed w.ng_queue p s.ng s.ng_room in
      let count = pushed.count in
      rw run (
        returns (record {
          space = record {
            visited = s.visited;
            spt = s.spt;
            spt_room = s.spt_room;
            ng = pushed.valid;
            ng_room = pushed.room;
            results = s.results;
            cells = s.cells;
            nodes = Pushed-All node_test w.ng_queue p h pushed ok s.nodes;
          };
          popped = omega arith;
          loads = omega arith;
        }))

  pub push_spt-Moves :
      (marks : ℕ) (w : WorkSpace) (p : NodeDistPair)
      → IsSpace w
      → cell_test p ≡ true
      → EndsIn marks (Moves w 0 (cell_weight p)) (push_spt w p)
  unfolding push_spt pending load
  push_spt-Moves marks w p s ok =
      let (h, run, pushed) = insert-Pushed w.spt_queue p s.spt s.spt_room in
      rw run (
        returns (record {
          space = record {
            visited = s.visited;
            spt = pushed.valid;
            spt_room = pushed.room;
            ng = s.ng;
            ng_room = s.ng_room;
            results = s.results;
            cells = Pushed-All cell_test w.spt_queue p h pushed ok s.cells;
            nodes = s.nodes;
          };
          popped = omega arith;
          loads = Pushed-total cell_weight w.spt_queue p h pushed;
        }))

  pub Moves-refl : (w : WorkSpace) → IsSpace w → Moves w 0 0 w
  Moves-refl w s = record { space = s; popped = omega arith; loads = omega arith }

  -- what is counted is no part of it
  pub counted-Moves :
      (w : WorkSpace) (n : ℕ) → IsSpace w → Moves w 0 0 (record w { number_of_checked_leaves = n })
  unfolding pending load
  counted-Moves w n s = record {
    space = record {
      visited = s.visited;
      spt = s.spt;
      spt_room = s.spt_room;
      ng = s.ng;
      ng_room = s.ng_room;
      results = s.results;
      cells = s.cells;
      nodes = s.nodes;
    };
    popped = omega arith;
    loads = omega arith;
  }

  -- A node that was not visited is pushed, so that no more are to pop.
  pub unless_seen-Moves :
      (marks : ℕ) (w : WorkSpace) (r : Bool × WorkSpace) (m : Outcome WorkSpace)
      → Checked w r
      → EndsIn marks (Moves r.1 1 0) m
      → EndsIn marks (Moves w 0 0) (if r.0 then done r.1 else m)
  unless_seen-Moves marks w r m c pushed =
      let loads = c.loads in
      let seen = c.seen in
      if-EndsIn r.0 (done r.1) m
        (λ e. returns (record { space = c.space; popped = omega arith; loads = omega arith }))
        (λ e. weaken-EndsIn m pushed (λ w' moved.
          let fresh = c.fresh e in
          let popped = moved.popped in
          let more = moved.loads in
          record { space = moved.space; popped = omega arith; loads = omega arith }))

pub unvisited-bound : (n : ℕ) (table : List ℕ) → unvisited n table ≤ n
unfolding unvisited
unvisited-bound zero table = omega arith
unvisited-bound (suc n) table = ground (arith, unvisited-bound n table)
