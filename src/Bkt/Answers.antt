-- ===== src/Bkt/Answers.antt =====
-- What `Search` of AnnService/src/Core/BKT/BKTIndex.cpp offers to the results of a query.
use mathlib.Core.List.{
  not-mem-nil, forall_mem-cons, mem-append_left, mem-append_right, mem-cons_self,
}
use sptag.Base.{
  ℕ, zero, suc, ◌+◌, ◌≤◌, ◌<◌, ◌≡◌, refl, ap, sym, ◌∙◌, inl, inr, Bool, true, false, ◌&&◌, ◌||◌,
  List, [], ◌∷◌, ◌++◌, Mem, some, arith, ltb, ◌==◌, ==_refl, lt→ltb, length, length-append,
  get_elem?-inside, Option-cases,
}
use mathlib.Core.Option.{some_inj}
use sptag.Base.Int.{ℤ, pos, negsuc, ltb_ℤ}
use sptag.Results.{Dist, QueryResultSet, add_point}
use sptag.Results.TopK.{IsValid, add_point-Added}
use sptag.Results.Best.{Key, add_points}
use sptag.Outcome.{done, EndsIn, returns, bind-EndsIn, if-EndsIn}
use sptag.Bkt.{Index}
use sptag.Bkt.Query.{Policy, live, is_dup, add_live, consider, offer_dups, negated, offer}
use sptag.Bkt.Wellformed.{IsGroup}

add_points-chain :
    (ps qs : List Key) (q r s : QueryResultSet)
    → add_points ps q ≡ some r
    → add_points qs r ≡ some s
    → add_points (ps ++ qs) q ≡ some s
unfolding add_points
add_points-chain [] qs q r s one two = ap (add_points qs) (some_inj.0 one) ∙ two
add_points-chain ((w, e) ∷ ps) qs q r s one two = elim (Option-cases (add_point q w e)) [
  | inl fails ↦ absurd (let never = rw fails at one in cc)
  | inr ((b, t), found) ↦ rw found (add_points-chain ps qs t r s (rw found at one) two)
]

add_points-append :
    (ps : List Key) (q r s : QueryResultSet) (v : ℤ) (d : Dist) (taken : Bool)
    → add_points ps q ≡ some r
    → add_point r v d ≡ some (taken, s)
    → add_points (ps ++ (v, d) ∷ []) q ≡ some s
unfolding add_points
add_points-append [] q r s v d taken run last = rw (some_inj.0 run, last) refl
add_points-append ((w, e) ∷ ps) q r s v d taken run last = elim (Option-cases (add_point q w e)) [
  | inl fails ↦ absurd (let never = rw fails at run in cc)
  | inr ((b, t), found) ↦ rw found (add_points-append ps t r s v d taken (rw found at run) last)
]

-- a test that all keys of a list pass
abbrev pub AllPass : (Key → Bool) → List Key → Type 0
AllPass p l = (k : Key) → Mem k l → p k ≡ true

test_prop : (p : Key → Bool) (k : Key) → IsProp (p k ≡ true)
test_prop p k = hlevel

pub all-nil : (p : Key → Bool) → AllPass p []
all-nil p k m = absurd (not-mem-nil m)

pub all-append :
    (p : Key → Bool) (xs ys : List Key) → AllPass p xs → AllPass p ys → AllPass p (xs ++ ys)
all-append p [] ys all rest = rest
all-append p (x ∷ xs) ys all rest =
    let both = (forall_mem-cons (test_prop p)).0 all in
    (forall_mem-cons (test_prop p)).1 (both.0, all-append p xs ys both.1 rest)

pub all-snoc :
    (p : Key → Bool) (xs : List Key) (y : Key)
    → AllPass p xs
    → p y ≡ true
    → AllPass p (xs ++ y ∷ [])
all-snoc p xs y all ok =
    all-append p xs (y ∷ []) all ((forall_mem-cons (test_prop p)).1 (ok, all-nil p))

module _ (policy : Policy) (index : Index) (distance : ℕ → Dist) where
  -- a sample that is neither deleted nor filtered out, with its distance
  pub is_answer : Key → Bool
  is_answer (v, d) =
      live policy v && elim v [ pos u ↦ ltb u index.samples && d == distance u | negsuc _ ↦ false ]

  -- the results after a search offered answers to `start`, and nothing else
  pub record Offered (start q : QueryResultSet) : Type 0 where
    pub valid : IsValid q
    pub offered : List Key
    pub run : add_points offered start ≡ some q
    pub answers : (k : Key) → Mem k offered → is_answer k ≡ true

  pub Offered-snoc :
      (start q : QueryResultSet) (v : ℤ) (d : Dist)
      → (o : Offered start q) → is_answer (v, d) ≡ true
      → (r : Bool × QueryResultSet) × (add_point q v d ≡ some r)
        × (more : Offered start r.1) × (more.offered ≡ o.offered ++ (v, d) ∷ [])
  Offered-snoc start q v d o ok =
      let (r, run, added) = add_point-Added q v d o.valid in
      (
        r,
        run,
        record {
          valid = added.valid;
          offered = o.offered ++ (v, d) ∷ [];
          run = add_points-append o.offered start q r.1 v d r.0 o.run run;
          answers = all-snoc is_answer o.offered (v, d) o.answers ok;
        },
        refl,
      )

  pub Offered-add :
      (start q : QueryResultSet) (v : ℤ) (d : Dist)
      → (o : Offered start q) → is_answer (v, d) ≡ true
      → (r : Bool × QueryResultSet) × (add_point q v d ≡ some r)
        × (more : Offered start r.1) × (length more.offered ≡ length o.offered + 1)
  Offered-add start q v d o ok =
      let (r, run, more, list) = Offered-snoc start q v d o ok in
      (r, run, more, ap length list ∙ length-append o.offered ((v, d) ∷ []))

  pub is_answer-live :
      (u : ℕ)
      → live policy (pos u) ≡ true
      → u < index.samples
      → is_answer (pos u, distance u) ≡ true
  unfolding is_answer
  is_answer-live u alive lt = rw (alive, lt→ltb u index.samples lt) (==_refl (distance u))

  -- The offers of a round for the node `v`: itself, where `seen`, and nodes at its distance.
  pub record Holding (start : QueryResultSet) (v : ℕ) (seen : Bool) (q : QueryResultSet)
      : Type 0 where
    pub more : Offered start q
    pub held : seen ≡ true → Mem (pos v, distance v) more.offered
    pub near : (k : Key) → Mem k more.offered → (k.1 == distance v) ≡ true

  -- offers to a set of results that comes from offers
  pub Offered-append :
      (start q r : QueryResultSet)
      → (one : Offered start q) → (two : Offered q r)
      → (both : Offered start r) × (both.offered ≡ one.offered ++ two.offered)
  Offered-append start q r one two = (
    record {
      valid = two.valid;
      offered = one.offered ++ two.offered;
      run = add_points-chain one.offered two.offered start q r one.run two.run;
      answers = all-append is_answer one.offered two.offered one.answers two.answers;
    },
    refl,
  )

  pub Offered-nothing : (q : QueryResultSet) → IsValid q → Offered q q
  Offered-nothing q valid = record {
    valid = valid;
    offered = [];
    run = unfold add_points in refl;
    answers = all-nil is_answer;
  }

  pub Holding-nothing : (q : QueryResultSet) (v : ℕ) → IsValid q → Holding q v false q
  unfolding Offered-nothing
  Holding-nothing q v valid = record {
    more = Offered-nothing q valid;
    held = λ e. absurd (let never = e in cc);
    near = all-nil (λ k. k.1 == distance v);
  }

  module _ (start : QueryResultSet) (v : ℕ) where
    pub Holding-add :
        (seen : Bool) (q : QueryResultSet) (u : ℕ)
        → Holding start v seen q
        → live policy (pos u) ≡ true
        → u < index.samples
        → distance u ≡ distance v
        → (r : Bool × QueryResultSet) × (add_point q (pos u) (distance u) ≡ some r)
          × Holding start v seen r.1
    Holding-add seen q u h alive lt same =
        let o = h.more in
        let (r, run, more, list) =
          Offered-snoc start q (pos u) (distance u) o (is_answer-live u alive lt) in
        (
          r,
          run,
          record {
            more = more;
            held = λ e. rw list (mem-append_left ((pos u, distance u) ∷ []) (h.held e));
            near = rw list (
                all-snoc (λ k. k.1 == distance v) o.offered (pos u, distance u) h.near
                  (rw same (==_refl (distance v))));
          },
        )

    pub Holding-first :
        (seen : Bool) (q : QueryResultSet)
        → Holding start v false q
        → live policy (pos v) ≡ true
        → v < index.samples
        → (r : Bool × QueryResultSet) × (add_point q (pos v) (distance v) ≡ some r)
          × Holding start v seen r.1
    Holding-first seen q h alive lt =
        let o = h.more in
        let (r, run, more, list) =
          Offered-snoc start q (pos v) (distance v) o (is_answer-live v alive lt) in
        (
          r,
          run,
          record {
            more = more;
            held = λ e. rw list (mem-append_right o.offered mem-cons_self);
            near = rw list (
                all-snoc (λ k. k.1 == distance v) o.offered (pos v, distance v) h.near
                  (==_refl (distance v)));
          },
        )

    -- a node that is not an answer is not offered
    pub Holding-dead :
        (q : QueryResultSet)
        → Holding start v false q
        → live policy (pos v) ≡ false
        → Holding start v (live policy (pos v)) q
    Holding-dead q h dead = record {
      more = h.more;
      held = λ e. absurd (let never = sym dead ∙ e in cc);
      near = h.near;
    }

    module _ (marks : ℕ) where
      add_live-Holding :
          (q : QueryResultSet)
          → Holding start v false q
          → v < index.samples
          → EndsIn marks
              (Holding start v (live policy (pos v)))
              (add_live policy q (pos v) (distance v))
      unfolding add_live
      add_live-Holding q h lt =
          if-EndsIn (live policy (pos v)) _ (done q)
            (λ alive.
              let (r, run, more) = Holding-first (live policy (pos v)) q h alive lt in
              rw run (returns more))
            (λ dead. returns (Holding-dead q h dead))

      consider-first :
          (q : QueryResultSet)
          → Holding start v false q
          → v < index.samples
          → EndsIn marks
              (λ r. Holding start v (live policy (pos v)) r.1)
              (consider policy q (pos v) (distance v))
      unfolding consider is_dup
      consider-first q h lt =
          if-EndsIn (live policy (pos v)) _ (done (false, q))
            (λ alive.
              let (r, run, more) = Holding-first (live policy (pos v)) q h alive lt in
              rw run (returns more))
            (λ dead. returns (Holding-dead q h dead))

      consider-keeps :
          (seen : Bool) (q : QueryResultSet) (u : ℕ)
          → Holding start v seen q
          → u < index.samples
          → distance u ≡ distance v
          → EndsIn marks (λ r. Holding start v seen r.1) (consider policy q (pos u) (distance u))
      unfolding consider is_dup
      consider-keeps seen q u h lt same =
          if-EndsIn (live policy (pos u)) _ (done (false, q))
            (λ alive.
              let (r, run, more) = Holding-add seen q u h alive lt same in rw run (returns more))
            (λ _. returns h)

      module _ (t : ℕ) (group : IsGroup index distance v t) (seen : Bool) where
        -- the loop over the duplicates from entry `i` on
        offer_dups-Holding :
            (fuel : ℕ) (q : QueryResultSet) (u i : ℕ)
            → EndsIn marks (λ r. Holding start v seen r.1) (consider policy q (pos u) (distance v))
            → group.first < i
            → i ≤ group.last
            → group.last < i + fuel
            → EndsIn marks
                (Holding start v seen)
                (offer_dups policy index fuel q (pos u) i (pos group.last) (distance v))
        unfolding offer_dups
        offer_dups-Holding zero q u i c lo hi enough = absurd (omega arith)
        offer_dups-Holding (suc fuel) q u i c lo hi enough =
            let inside = group.inside in
            let (node, found) = get_elem?-inside index.tree_roots i (omega arith) in
            bind-EndsIn _ _ c (λ r more.
              if-EndsIn (r.0 || i == 0) (done r.1) _ (λ _. returns more)
                (λ _. rw found (
                  if-EndsIn (ltb_ℤ (pos i) (pos group.last)) _ (done r.1)
                    (λ less.
                      let (dup, w, found', center, w_lt, near) =
                        group.members i lo (ground (arith, less)) in
                      let is : node ≡ dup = some_inj.0 (sym found ∙ found') in
                      rw (is, center)
                        (offer_dups-Holding fuel r.1 w (i + 1)
                          (rw near at (consider-keeps seen r.1 w more w_lt near)) (omega arith)
                          (ground (arith, less)) (omega arith)))
                    (λ _. returns more))))

      -- The call of a search on a node within the worst result offers that node, if it is an answer.
      pub offer-Holding :
          (q : QueryResultSet) (check_node : ℤ)
          → Holding start v false q
          → v < index.samples
          → ((t : ℕ) → check_node ≡ negsuc (suc t) → IsGroup index distance v t)
          → EndsIn marks
              (Holding start v (live policy (pos v)))
              (offer policy index q (record { node = pos v; distance = distance v }) check_node)
      unfolding offer negated
      offer-Holding q (pos n) h lt group = add_live-Holding q h lt
      offer-Holding q (negsuc zero) h lt group = add_live-Holding q h lt
      offer-Holding q (negsuc (suc t)) h lt group =
          let g = group t refl in
          let inside = g.inside in
          let start_first = g.start in
          rw (g.found, g.is_last, g.is_first)
            (offer_dups-Holding t g (live policy (pos v)) (length index.tree_roots + 1) q v
              (suc g.first) (consider-first q h lt) (omega arith) (omega arith) (omega arith))
