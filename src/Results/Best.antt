-- ===== src/Results/Best.antt =====
-- Runs of `AddPoint` of QueryResultSet.h.
use mathlib.Core.List.Perm
use mathlib.Core.List.{
  perm_middle, forall_mem-cons, mem-map, not-mem-nil, mem-cons_of_mem, mem-map_of_mem,
}
use mathlib.Core.Logic.{∥∥₁_elim}
use sptag.Base.{
  ◌≡◌, ◌∙◌, refl, sym, subst, inl, inr, Bool, true, false, List, [], ◌∷◌, ◌++◌, map, Mem, Perm,
  Option, some, Bool-cases, ◌>>=◌,
}
use mathlib.Core.HLevel.{Π_prop}
use sptag.Base.Int.{ℤ}
use sptag.Results.{
  BasicResult, Dist, precedes, less_result, less_result_asymm, less_result_cotrans, no_result,
  QueryResultSet, add_point,
}
use sptag.Results.TopK.{IsValid, Added, add_point-Added}

-- what results are compared by
abbrev pub Key : Type 0
Key = ℤ × Dist

abbrev pub key : BasicResult → Key
key r = (r.vid, r.dist)

abbrev pub keys : QueryResultSet → List Key
keys q = map key q.results

abbrev pub earlier : Key → Key → Bool
earlier a b = precedes a.0 a.1 b.0 b.1

-- the calls of `AddPoint` that a search makes
unfoldable pub add_points : List Key → QueryResultSet → Option QueryResultSet
add_points [] q = some q
add_points ((vid, dist) ∷ ps) q = do (_, r) ← add_point q vid dist; add_points ps r

as_result : Key → BasicResult
as_result k = record no_result { vid = k.0; dist = k.1 }

earlier_asymm : (a b : Key) → earlier a b ≡ true → earlier b a ≡ false
unfolding less_result as_result
earlier_asymm a b = less_result_asymm (as_result a) (as_result b)

earlier_cotrans : (a b c : Key) → earlier b a ≡ false → earlier c b ≡ false → earlier c a ≡ false
unfolding less_result as_result
earlier_cotrans a b c = less_result_cotrans (as_result a) (as_result b) (as_result c)

-- no key of the list comes after `u`
abbrev pub IsBound : Key → List Key → Type 0
IsBound u l = (x : Key) → Mem x l → earlier u x ≡ false

earlier_prop : (a b : Key) → IsProp (earlier a b ≡ false)
earlier_prop a b = hlevel

IsBound-cons : (u x : Key) (l : List Key) → earlier u x ≡ false → IsBound u l → IsBound u (x ∷ l)
IsBound-cons u x l h b = (forall_mem-cons (earlier_prop u)).1 (h, b)

IsBound-perm : (u : Key) {l m : List Key} → Perm l m → IsBound u m → IsBound u l
IsBound-perm u p b x h = b x ((Perm.mem_iff p).0 h)

IsBound-map :
    (u : Key) (l : List BasicResult)
    → ((r : BasicResult) → Mem r l → earlier u (key r) ≡ false)
    → IsBound u (map key l)
IsBound-map u l h x m =
    ∥∥₁_elim (mem-map.0 m) (earlier_prop u x)
      (λ (r, held, e). subst (λ k. earlier u k ≡ false) e (h r held))

-- One call, read on the keys: one key goes, none that is left comes after it, and what bounded the
-- keys still does.
record Step (p : Key) (q r : QueryResultSet) : Type 0 where
  gone : Key
  same : Perm (gone ∷ keys r) (p ∷ keys q)
  upper : IsBound gone (keys r)
  bounded : (u : Key) → IsBound u (keys q) → IsBound u (keys r)

Added-Step :
    (q : QueryResultSet) (vid : ℤ) (dist : Dist) (r : Bool × QueryResultSet)
    → Added q vid dist r
    → Step (vid, dist) q r.1
unfolding less_result
Added-Step q vid dist r a =
    let p : Key = (vid, dist) in
    let w = key a.worst in
    let latest : IsBound w (keys q) = IsBound-map w q.results a.latest in
    elim (Bool-cases r.0) [
      | inl took ↦
          let early : earlier p w ≡ true = sym a.taken ∙ took in
          let same : Perm (w ∷ keys r.1) (p ∷ keys q) = Perm.map key (a.same.0 took) in
          let late : earlier w p ≡ false = earlier_asymm p w early in
          record {
            gone = w;
            same = same;
            upper = λ x m.
                IsBound-perm w same (IsBound-cons w p (keys q) late latest) x (mem-cons_of_mem w m);
            bounded = λ u b x m.
                let before = earlier_cotrans p w u late (b w (mem-map_of_mem key a.held)) in
                IsBound-perm u same (IsBound-cons u p (keys q) before b) x (mem-cons_of_mem w m);
          }
      | inr kept ↦
          let late : earlier p w ≡ false = sym a.taken ∙ kept in
          let e = a.same.1 kept in
          rw e (record {
            gone = p;
            same = Perm.rfl;
            upper = λ x m. earlier_cotrans x w p (latest x m) late;
            bounded = λ u b. b;
          })
    ]

-- the best of the keys offered and held, as many as were held
pub record Best (offered : List Key) (q r : QueryResultSet) : Type 0 where
  pub valid : IsValid r
  pub kept : r.result_num ≡ q.result_num
  pub dropped : List Key
  pub same : Perm (dropped ++ keys r) (offered ++ keys q)
  pub best : (y : Key) → Mem y dropped → IsBound y (keys r)
  pub bounded : (u : Key) → IsBound u (keys q) → IsBound u (keys r)

Best-cons :
    (p : Key) (ps : List Key) (q r s : QueryResultSet)
    → Step p q r
    → Best ps r s
    → r.result_num ≡ q.result_num
    → Best (p ∷ ps) q s
Best-cons p ps q r s step rest e = record {
  valid = rest.valid;
  kept = rest.kept ∙ e;
  dropped = step.gone ∷ rest.dropped;
  same = Perm.trans (Perm.cons step.gone rest.same) (
      Perm.trans (Perm.symm (perm_middle ps (keys r)))
        (Perm.trans (Perm.append_left ps step.same) (perm_middle ps (keys q))));
  best =
      (forall_mem-cons λ y. Π_prop λ x. Π_prop λ _. earlier_prop y x).1
        (rest.bounded step.gone step.upper, rest.best);
  bounded = λ u b. rest.bounded u (step.bounded u b);
}

-- Whatever sequence of results is offered to a well-formed set, AddPoint never faults, and at the
-- end the set is well-formed and holds the best of what it held and was offered.
pub add_points-Best :
    (ps : List Key) (q : QueryResultSet)
    → IsValid q
    → (r : QueryResultSet) × (add_points ps q ≡ some r) × Best ps q r
unfolding add_points
add_points-Best [] q v = (
  q,
  refl,
  record {
    valid = v;
    kept = refl;
    dropped = [];
    same = Perm.rfl;
    best = λ y m. absurd (not-mem-nil m);
    bounded = λ u b. b;
  },
)
add_points-Best ((vid, dist) ∷ ps) q v =
    let (r, run, added) = add_point-Added q vid dist v in
    let (s, rest, best) = add_points-Best ps r.1 added.valid in
    (
      s,
      rw run rest,
      Best-cons (vid, dist) ps q r.1 s (Added-Step q vid dist r added) best added.kept,
    )
