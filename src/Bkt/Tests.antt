-- ===== src/Bkt/Tests.antt =====
-- A search over four vectors, the last two of which are duplicates.
use sptag.Base.{
  ℕ, zero, suc, ◌+◌, ◌≤◌, ◌<◌, ◌≡◌, refl, sym, true, false, List, [], ◌∷◌, none, some, Mem,
  get_elem?, ◌-◌, arith, ◌==◌, if◌then◌else◌,
}
use sptag.Base.Int.{ℤ, pos, negsuc, pos_inj, negsuc_inj}
use sptag.Results.{Dist, init}
use mathlib.Core.Option.{some_inj}
use sptag.Results.Best.{keys}
use sptag.WorkSpace.Reset.{initialize-IsFresh}
use sptag.Outcome.{EndsIn}
use sptag.Bkt.{BktNode, Index, rounds, search_trees}
use sptag.Bkt.Query.{Policy, dispatch}
use sptag.Bkt.Loop.{search}
use sptag.Bkt.Wellformed.{
  Shape, IsIndex, IsCell, IsRow, IsGroup, IsRoot, roots_weight, root_weight, range_weight,
}
use sptag.Bkt.Search.{query-Found, Searched, fresh-IsSpace}
use sptag.Bkt.Trees.{search_trees-Moves}
use sptag.Bkt.Resume.{Resumable, search_iterative-Resumable}
use sptag.Bkt.Iterative.{search_iterative}
use sptag.Results.Search.{init-IsValid}
use sptag.Bkt.Space.{Moves}
use sptag.Bkt.Answers.{is_answer}

abbrev leaf : ℕ → BktNode
leaf v = record { centerid = pos v; child_start = negsuc 0; child_end = negsuc 0 }

-- a root with the children 1 to 3, of which the last has the duplicate-IsGroup at 4
abbrev four : Index
four = record {
  samples = 4;
  tree_roots =
      record { centerid = pos 4; child_start = pos 1; child_end = pos 4 }
      ∷ leaf 0
      ∷ leaf 1
      ∷ record { centerid = pos 2; child_start = negsuc 3; child_end = pos 5 }
      ∷ leaf 3
      ∷ record { centerid = negsuc 0; child_start = negsuc 0; child_end = negsuc 0 }
      ∷ [];
  tree_start = pos 0 ∷ [];
  graph =
      (pos 1 ∷ negsuc 0 ∷ [])
      ∷ (pos 0 ∷ pos 2 ∷ [])
      ∷ (pos 1 ∷ negsuc 4 ∷ [])
      ∷ (pos 2 ∷ negsuc 0 ∷ [])
      ∷ [];
  neighborhood_size = 2;
  initial_pivots = 1;
  other_pivots = 1;
}

abbrev far : ℕ → Dist
far v = if v == 0 then 50 else if v == 1 then 30 else 10

-- vector 1 is deleted, and duplicates are asked for
abbrev duplicates : Policy
duplicates = dispatch (λ v. elim v [ pos u ↦ u == 1 | negsuc _ ↦ false ]) 1 false true none

abbrev nth : List ℕ → ℕ → ℕ
nth [] t = 0
nth (x ∷ xs) zero = x
nth (x ∷ xs) (suc t) = nth xs t

abbrev shape : Shape
shape = record { cells = nth (0 ∷ 1 ∷ 1 ∷ 1 ∷ []); centers = nth (0 ∷ 0 ∷ 1 ∷ 2 ∷ []) }

four-IsCell : (t : ℕ) → 0 < shape.cells t → IsCell four shape t
four-IsCell zero h = absurd (omega arith)
four-IsCell (suc zero) h = record {
  node = leaf 0;
  found = refl;
  center = refl;
  inside = omega arith;
  children = λ first e. absurd (let never = e in cc);
}
four-IsCell (suc (suc zero)) h = record {
  node = leaf 1;
  found = refl;
  center = refl;
  inside = omega arith;
  children = λ first e. absurd (let never = e in cc);
}
four-IsCell (suc (suc (suc zero))) h = record {
  node = record { centerid = pos 2; child_start = negsuc 3; child_end = pos 5 };
  found = refl;
  center = refl;
  inside = omega arith;
  children = λ first e. absurd (let never = e in cc);
}
four-IsCell (suc (suc (suc (suc t)))) h = absurd (omega arith)

first-IsRoot : IsRoot four shape (pos 0)
unfolding rounds
first-IsRoot = record {
  root = 0;
  is_root = refl;
  node = record { centerid = pos 4; child_start = pos 1; child_end = pos 4 };
  found = refl;
  leaf = λ n e. absurd (let never = e in cc);
  inner = λ first e t lo hi. inside (pos_inj e) t lo hi;
}
  where
    inside :
        {first : ℕ} → 1 ≡ first → (t : ℕ) → first ≤ t → t < first + (4 - first) → 0 < shape.cells t
    inside e zero lo hi = absurd (omega arith)
    inside e (suc zero) lo hi = omega arith
    inside e (suc (suc zero)) lo hi = omega arith
    inside e (suc (suc (suc zero))) lo hi = omega arith
    inside e (suc (suc (suc (suc t)))) lo hi = absurd (omega arith)

-- a row that names samples, and no duplicates
plain-IsRow :
    (v a : ℕ) (row : List ℤ)
    → get_elem? four.graph v ≡ some (pos a ∷ row)
    → (b : ℤ) → row ≡ b ∷ []
    → a < 4
    → ((u : ℕ) → b ≡ pos u → u < 4)
    → ((t : ℕ) → b ≡ negsuc (suc t) → IsGroup four far v t)
    → IsRow four far v
plain-IsRow v a row found b e lt inside group = record {
  row = pos a ∷ b ∷ [];
  found = rw e at found;
  width = refl;
  nodes = λ i u r. nodes_of i u r;
  group = λ t r. group t (some_inj.0 r);
}
  where
    nodes_of : (i u : ℕ) → get_elem? (pos a ∷ b ∷ []) i ≡ some (pos u) → u < 4
    nodes_of zero u r = let same = pos_inj (some_inj.0 r) in omega arith
    nodes_of (suc zero) u r = inside u (some_inj.0 r)
    nodes_of (suc (suc i)) u r = absurd (let never = r in cc)

duplicate-IsGroup : IsGroup four far 2 3
duplicate-IsGroup = record {
  node = record { centerid = pos 2; child_start = negsuc 3; child_end = pos 5 };
  found = refl;
  last = 5;
  is_last = refl;
  inside = omega arith;
  first = 3;
  is_first = refl;
  start = omega arith;
  members =
      λ i lo hi. let is : i ≡ 4 = omega arith in rw is (leaf 3, 3, refl, refl, omega arith, refl);
}

four-IsRow : (v : ℕ) → v < 4 → IsRow four far v
four-IsRow zero h =
    plain-IsRow 0 1 _ refl (negsuc 0) refl (omega arith) (λ u e. absurd (let never = e in cc))
      (λ t e. absurd (let never = negsuc_inj e in omega arith))
four-IsRow (suc zero) h =
    plain-IsRow 1 0 _ refl (pos 2) refl (omega arith) (λ u e. let same = pos_inj e in omega arith)
      (λ t e. absurd (let never = e in cc))
four-IsRow (suc (suc zero)) h =
    plain-IsRow 2 1 _ refl (negsuc 4) refl (omega arith) (λ u e. absurd (let never = e in cc))
      (λ t e. let same = negsuc_inj e in rw (omega_three t same) duplicate-IsGroup)
  where
    omega_three : (t : ℕ) → 4 ≡ suc t → t ≡ 3
    omega_three t h = omega arith
four-IsRow (suc (suc (suc zero))) h =
    plain-IsRow 3 2 _ refl (negsuc 0) refl (omega arith) (λ u e. absurd (let never = e in cc))
      (λ t e. absurd (let never = negsuc_inj e in omega arith))
four-IsRow (suc (suc (suc (suc v)))) h = absurd (omega arith)

four-IsRoot : (i : ℕ) (s : ℤ) → get_elem? four.tree_start i ≡ some s → IsRoot four shape s
four-IsRoot zero s e = rw (sym (some_inj.0 e)) first-IsRoot
four-IsRoot (suc i) s e = absurd (let never = e in cc)

four-IsIndex : IsIndex four shape far
four-IsIndex = record {
  width = omega arith;
  cells = four-IsCell;
  roots = λ i s e. four-IsRoot i s e;
  rows = four-IsRow;
}

four_light : roots_weight four shape four.tree_start ≤ 4
unfolding roots_weight root_weight range_weight rounds
four_light = omega arith

query-Found_example :
    let w = (initialize-IsFresh (λ i. i) 16 1 (omega arith)).0 in
    EndsIn 2
      (λ r.
        Searched duplicates four shape far 2 4 four-IsIndex (init 3 true) w r
        × ((u : ℕ) (d : Dist)
            → Mem (pos u, d) (keys r.0)
            → is_answer duplicates four far (pos u, d) ≡ true))
      (search duplicates four far 2 4 4 (init 3 true) w)
query-Found_example =
    let (w, _, fresh) = initialize-IsFresh (λ i. i) 16 1 (omega arith) in
    query-Found duplicates four shape far 2 4 four-IsIndex 3 16 1 4 w (omega arith) (omega arith)
      fresh (omega arith) four_light

search_trees-Moves_example :
    let w = (initialize-IsFresh (λ i. i) 16 1 (omega arith)).0 in
    EndsIn 2 (Moves four shape far w 0 0) (search_trees four far 2 4 w 1)
search_trees-Moves_example =
    let (w, _, fresh) = initialize-IsFresh (λ i. i) 16 1 (omega arith) in
    let (space, empty, _) =
      fresh-IsSpace duplicates four shape far 2 4 four-IsIndex 16 1 w (omega arith) fresh in
    search_trees-Moves four shape far 2 four-IsIndex 4 w 1 space (omega arith)

search_iterative-Resumable_example :
    let w = (initialize-IsFresh (λ i. i) 16 1 (omega arith)).0 in
    EndsIn 2
      (Resumable duplicates four shape far 2 4 four-IsIndex (init 3 true) 2 w)
      (search_iterative duplicates four far 2 4 4 (init 3 true) w true 2)
search_iterative-Resumable_example =
    let (w, _, fresh) = initialize-IsFresh (λ i. i) 16 1 (omega arith) in
    let (space, empty, few) =
      fresh-IsSpace duplicates four shape far 2 4 four-IsIndex 16 1 w (omega arith) fresh in
    search_iterative-Resumable duplicates four shape far 2 4 four-IsIndex 4 2 true (init 3 true) w
      (init-IsValid 3 true (omega arith)) space (omega (arith, four_light)) few
