-- ===== src/Bkt/Trace.antt =====
-- The rounds of the loop of `Search` of AnnService/src/Core/BKT/BKTIndex.cpp, with the nodes that they take
-- out of the queue.
use mathlib.Core.HLevel.{Π_prop}
use mathlib.Core.List.{not-mem-nil, forall_mem-cons, mem-append_left, mem-append_right}
use sptag.Base.{
  ℕ, zero, suc, ◌≤◌, ◌≡◌, refl, ap, ◌∙◌, inl, inr, Bool, true, false, ◌||◌, List, [], ◌∷◌, ◌++◌,
  Mem, some, arith, ◌==◌, Bool-cases,
}
use sptag.Base.Int.{pos}
use sptag.Results.{Dist, QueryResultSet}
use sptag.Results.TopK.{IsValid}
use sptag.Results.Best.{Key, add_points}
use sptag.Pairs.{NodeDistPair, nearest_first}
use sptag.Heap
use sptag.Heap.{Heap}
use sptag.WorkSpace.{WorkSpace}
use sptag.Outcome.{done, EndsIn, returns, bind-EndsIn, weaken-EndsIn, known-EndsIn, if-EndsIn}
use sptag.Bkt.{Index}
use sptag.Bkt.Query.{Policy, live}
use sptag.Bkt.Loop.{search_loop, round}
use sptag.Bkt.Wellformed.{Shape, IsIndex}
use sptag.Bkt.Space.{IsSpace, pending, load}
use sptag.Bkt.Answers.{is_answer, Offered, Offered-append, Holding, all-append, all-nil}
use sptag.Bkt.Round.{round-Rounded}

-- whether one of the nodes is at the distance of the key
abbrev pub came_from : List NodeDistPair → Key → Bool
came_from [] k = false
came_from (g ∷ popped) k = k.1 == g.distance || came_from popped k

module _ (policy : Policy) (index : Index) (distance : ℕ → Dist) (marks trees : ℕ) where
  -- Rounds until the queue is empty or one of them returns; the list has the node of each round.
  pub data Rounds
      : QueryResultSet → WorkSpace → List NodeDistPair → QueryResultSet → WorkSpace → Type 0 where
    ended :
        {q : QueryResultSet} {w : WorkSpace} → (w.ng_queue.count == 0) ≡ true → Rounds q w [] q w
    stopped :
        {q q' : QueryResultSet} {w w' : WorkSpace} {g : NodeDistPair} {rest : Heap NodeDistPair}
        → Heap.pop_ref w.ng_queue ≡ some (g, rest)
        → round policy index distance marks trees q w ≡ done (true, q', w')
        → Rounds q w (g ∷ []) q' w'
    again :
        {q q' r : QueryResultSet} {w w' u : WorkSpace} {g : NodeDistPair} {rest : Heap NodeDistPair}
        {popped : List NodeDistPair}
        → Heap.pop_ref w.ng_queue ≡ some (g, rest)
        → round policy index distance marks trees q w ≡ done (false, q', w')
        → Rounds q' w' popped r u
        → Rounds q w (g ∷ popped) r u

  -- What is offered: each node taken out of the queue that is neither deleted nor filtered out, and
  -- nothing but what is at the distance of such a node.
  pub record IsTraced (popped : List NodeDistPair) (offered : List Key) : Type 0 where
    pub considered :
        (g : NodeDistPair)
        → Mem g popped
        → live policy g.node ≡ true
        → Mem (g.node, g.distance) offered
    pub source : (k : Key) → Mem k offered → came_from popped k ≡ true

  pub record Looped (q : QueryResultSet) (w : WorkSpace) (r : QueryResultSet × WorkSpace)
      : Type 0 where
    pub popped : List NodeDistPair
    pub looped : Rounds q w popped r.0 r.1
    pub offers : Offered policy index distance q r.0
    pub traced : IsTraced popped offers.offered

  IsTraced-nil : IsTraced [] []
  IsTraced-nil = record {
    considered = λ g m. absurd (not-mem-nil m);
    source = λ k m. absurd (not-mem-nil m);
  }

  considered_prop :
      (offered : List Key) (g : NodeDistPair)
      → IsProp (live policy g.node ≡ true → Mem (g.node, g.distance) offered)
  considered_prop offered g = Π_prop λ _. hlevel

  IsTraced-cons :
      (q q' : QueryResultSet) (v : ℕ) (popped : List NodeDistPair) (offered : List Key)
      → (h : Holding policy index distance q v (live policy (pos v)) q') → IsTraced popped offered
      → IsTraced
          (record { node = pos v; distance = distance v } ∷ popped)
          (h.more.offered ++ offered)
  IsTraced-cons q q' v popped offered h rest =
      let new = h.more.offered in
      let test = came_from (record { node = pos v; distance = distance v } ∷ popped) in
      record {
        considered = (forall_mem-cons (considered_prop (new ++ offered))).1 (
          λ alive. mem-append_left offered (h.held alive),
          λ g m alive. mem-append_right new (rest.considered g m alive),
        );
        source =
            all-append test new offered (λ k m. ground (arith, h.near k m))
              (λ k m. ground (arith, rest.source k m));
      }

  -- offers to a set of results that comes from the offers of a round
  joined :
      (q q' r : QueryResultSet) (v : ℕ) (popped : List NodeDistPair)
      → (h : Holding policy index distance q v (live policy (pos v)) q')
      → (o : Offered policy index distance q' r) → IsTraced popped o.offered
      → (both : Offered policy index distance q r) × IsTraced
          (record { node = pos v; distance = distance v } ∷ popped)
          both.offered
  joined q q' r v popped h o traced =
      let (both, list) = Offered-append policy index distance q q' r h.more o in
      (both, rw list (IsTraced-cons q q' v popped o.offered h traced))

  nothing_left :
      (q : QueryResultSet) (w : WorkSpace)
      → (w.ng_queue.count == 0) ≡ true
      → IsValid q
      → Looped q w (q, w)
  nothing_left q w e valid = record {
    popped = [];
    looped = ended e;
    offers = record {
      valid = valid;
      offered = [];
      run = unfold add_points in refl;
      answers = all-nil (is_answer policy index distance);
    };
    traced = IsTraced-nil;
  }

  -- a round that returns
  last_round :
      (q q' : QueryResultSet) (w w' : WorkSpace) (v : ℕ) (rest : Heap NodeDistPair)
      → Heap.pop_ref w.ng_queue ≡ some (record { node = pos v; distance = distance v }, rest)
      → round policy index distance marks trees q w ≡ done (true, q', w')
      → Holding policy index distance q v (live policy (pos v)) q'
      → Looped q w (q', w')
  last_round q q' w w' v rest taken run h =
      let nothing : Offered policy index distance q' q' = record {
        valid = h.more.valid;
        offered = [];
        run = unfold add_points in refl;
        answers = all-nil (is_answer policy index distance);
      } in
      let (offers, traced) = joined q q' q' v [] h nothing IsTraced-nil in
      record { popped = _; looped = stopped taken run; offers = offers; traced = traced }

  -- a round and those that follow it
  more_rounds :
      (q q' : QueryResultSet) (w w' : WorkSpace) (v : ℕ) (rest : Heap NodeDistPair)
      (r : QueryResultSet × WorkSpace)
      → Heap.pop_ref w.ng_queue ≡ some (record { node = pos v; distance = distance v }, rest)
      → round policy index distance marks trees q w ≡ done (false, q', w')
      → Holding policy index distance q v (live policy (pos v)) q'
      → Looped q' w' r
      → Looped q w r
  more_rounds q q' w w' v rest r taken run h later =
      let (offers, traced) = joined q q' r.0 v later.popped h later.offers later.traced in
      record { popped = _; looped = again taken run later.looped; offers = offers; traced = traced }

module _ (policy : Policy) (index : Index) (shape : Shape) (distance : ℕ → Dist) (marks trees : ℕ)
    (good : IsIndex index shape distance) where
  -- The loop ends within as many rounds as there are nodes to pop.
  pub search_loop-Looped :
      (fuel : ℕ) (q : QueryResultSet) (w : WorkSpace)
      → IsValid q
      → IsSpace index shape distance w
      → load index shape distance w ≤ trees
      → pending index shape distance w ≤ fuel
      → EndsIn marks
          (Looped policy index distance marks trees q w)
          (search_loop policy index distance marks trees fuel q w)
  unfolding search_loop
  search_loop-Looped zero q w o s light enough = elim (Bool-cases (w.ng_queue.count == 0)) [
    | inl e ↦ rw e (returns (nothing_left policy index distance marks trees q w e o))
    | inr more ↦ absurd (unfold pending in ground arith)
  ]
  search_loop-Looped (suc fuel) q w o s light enough = elim (Bool-cases (w.ng_queue.count == 0)) [
    | inl e ↦ rw e (returns (nothing_left policy index distance marks trees q w e o))
    | inr more ↦ rw more (
        bind-EndsIn (round policy index distance marks trees q w) _
          (known-EndsIn _
            (round-Rounded policy index shape distance marks trees good q w o s light more))
          (λ r (m, run).
            let popped = m.popped in
            let loads = m.loads in
            let valid = m.holding.more.valid in
            if-EndsIn r.0 (done (r.1, r.2)) _
              (λ stop. returns (
                last_round policy index distance marks trees q r.1 w r.2 m.node m.rest m.taken
                  (run ∙ ap (λ b. done (b, r.1, r.2)) stop) m.holding))
              (λ on.
                weaken-EndsIn _
                  (search_loop-Looped fuel r.1 r.2 valid m.space (omega arith) (omega arith))
                  (λ r' later.
                    more_rounds policy index distance marks trees q r.1 w r.2 m.node m.rest r'
                      m.taken (run ∙ ap (λ b. done (b, r.1, r.2)) on) m.holding later))))
  ]
