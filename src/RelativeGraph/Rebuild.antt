-- ===== src/RelativeGraph/Rebuild.antt =====
-- `RebuildNeighbors` of AnnService/inc/Core/Common/RelativeNeighborhoodGraph.h.
use mathlib.Core.List.{append_assoc, append-nil}
use sptag.Base.{
  ℕ, ◌-◌, ◌≤◌, ◌<◌, ◌≡◌, refl, sym, ◌∙◌, inl, inr, Bool, true, false, not, ◌||◌, List, [], ◌∷◌,
  ◌++◌, map, length, length-append, length-replicate, replicate, ltb, if◌then◌else◌, arith,
  Bool-cases,
}
use sptag.Base.Int.{ℤ, negsuc}
use sptag.Base.Sums.{every}
use sptag.Results.{Dist, BasicResult}
use sptag.RelativeGraph.{negative, same_id, good, rebuild_loop, rebuild_neighbors}

-- the results before the first that names no vector
pub usable : List BasicResult → List BasicResult
usable [] = []
usable (r ∷ rs) = let rest = usable rs in if negative r.vid then [] else r ∷ rest

pub has_id : ℤ → List ℤ → Bool
has_id v [] = false
has_id v (w ∷ nodes) = same_id v w || has_id v nodes

pub data Subsequence : List BasicResult → List BasicResult → Type 0 where
  nil : Subsequence [] []
  keep :
      {r : BasicResult} {ks rs : List BasicResult}
      → Subsequence ks rs
      → Subsequence (r ∷ ks) (r ∷ rs)
  drop_one :
      {r : BasicResult} {ks rs : List BasicResult} → Subsequence ks rs → Subsequence ks (r ∷ rs)

module _ (between : ℤ → ℤ → Dist) (scale : Dist → Dist) where
  -- each result names another vector than the node, and is not hidden by the neighbours before it
  pub data Spread (node : ℤ) : List ℤ → List BasicResult → Type 0 where
    spread_nil : {nodes : List ℤ} → Spread node nodes []
    spread_cons :
        {nodes : List ℤ} {r : BasicResult} {rs : List BasicResult}
        → negative r.vid ≡ false
        → same_id r.vid node ≡ false
        → good between scale nodes r ≡ true
        → Spread node (nodes ++ r.vid ∷ []) rs
        → Spread node nodes (r ∷ rs)

  -- the node itself, a neighbour, or hidden by a neighbour
  pub covered : ℤ → List ℤ → BasicResult → Bool
  covered node nodes r =
      same_id r.vid node || has_id r.vid nodes || not (good between scale nodes r)

  hidden-append :
      (nodes more : List ℤ) (r : BasicResult)
      → good between scale nodes r ≡ false
      → good between scale (nodes ++ more) r ≡ false
  unfolding good
  hidden-append [] more r h = absurd (let never = h in cc)
  hidden-append (v ∷ nodes) more r h = elim (Bool-cases (ltb (scale (between v r.vid)) r.dist)) [
    | inl e ↦ rw e refl
    | inr e ↦ rw e (hidden-append nodes more r (rw e at h))
  ]

  has_id-append : (v : ℤ) (nodes more : List ℤ) → has_id v ((nodes ++ v ∷ []) ++ more) ≡ true
  unfolding has_id same_id
  has_id-append v [] more = ground arith
  has_id-append v (w ∷ nodes) more = ground (arith, has_id-append v nodes more)

  pub record Row (size : ℕ) (node : ℤ) (nodes : List ℤ) (results : List BasicResult) (out : List ℤ)
      : Type 0 where
    pub kept : List BasicResult
    pub written : out ≡ nodes ++ map (λ r. r.vid) kept
    pub among : Subsequence kept (usable results)
    pub spread : Spread node nodes kept
    pub fits : length out ≤ size
    pub complete : length out < size → every (covered node out) (usable results) ≡ true

  empty-Subsequence : (rs : List BasicResult) → Subsequence [] rs
  empty-Subsequence [] = nil
  empty-Subsequence (r ∷ rs) = drop_one (empty-Subsequence rs)

  own :
      (node : ℤ) (out : List ℤ) (r : BasicResult)
      → same_id r.vid node ≡ true
      → covered node out r ≡ true
  unfolding covered
  own node out r h = rw h refl

  own_entry :
      (node : ℤ) (out : List ℤ) (r : BasicResult)
      → has_id r.vid out ≡ true
      → covered node out r ≡ true
  unfolding covered
  own_entry node out r h = ground (arith, h)

  behind :
      (node : ℤ) (nodes out : List ℤ) (r : BasicResult)
      → good between scale nodes r ≡ false
      → (more : List ℤ) × (out ≡ nodes ++ more)
      → covered node out r ≡ true
  unfolding covered
  behind node nodes out r h (more, e) =
      let hidden : good between scale out r ≡ false = rw e (hidden-append nodes more r h) in
      ground (arith, hidden)

  -- a result that the row does without
  skipped :
      (size : ℕ) (node : ℤ) (nodes : List ℤ) (r : BasicResult) (results : List BasicResult)
      (out : List ℤ)
      → Row size node nodes results out
      → negative r.vid ≡ false
      → ((out : List ℤ) → (more : List ℤ) × (out ≡ nodes ++ more) → covered node out r ≡ true)
      → Row size node nodes (r ∷ results) out
  unfolding usable every
  skipped size node nodes r results out row used cover = record {
    kept = row.kept;
    written = row.written;
    among = rw used (drop_one row.among);
    spread = row.spread;
    fits = row.fits;
    complete = λ less.
        let here : covered node out r ≡ true = cover out (map (λ r. r.vid) row.kept, row.written) in
        let rest : every (covered node out) (usable results) ≡ true = row.complete less in
        rw (used, here, rest) refl;
  }

  taken :
      (size : ℕ) (node : ℤ) (nodes : List ℤ) (r : BasicResult) (results : List BasicResult)
      (out : List ℤ)
      → Row size node (nodes ++ r.vid ∷ []) results out
      → negative r.vid ≡ false
      → same_id r.vid node ≡ false
      → good between scale nodes r ≡ true
      → Row size node nodes (r ∷ results) out
  unfolding usable every
  taken size node nodes r results out row used other near = record {
    kept = r ∷ row.kept;
    written = row.written ∙ append_assoc nodes (r.vid ∷ []) (map (λ r. r.vid) row.kept);
    among = rw used (keep row.among);
    spread = spread_cons used other near row.spread;
    fits = row.fits;
    complete = λ less.
        let there : has_id r.vid out ≡ true =
          rw row.written (has_id-append r.vid nodes (map (λ r. r.vid) row.kept)) in
        let here : covered node out r ≡ true = own_entry node out r there in
        let rest : every (covered node out) (usable results) ≡ true = row.complete less in
        rw (used, here, rest) refl;
  }

  rebuild_loop-Row :
      (size : ℕ) (node : ℤ) (nodes : List ℤ) (results : List BasicResult)
      → length nodes ≤ size
      → Row size node nodes results (rebuild_loop between scale size node nodes results)
  unfolding rebuild_loop usable every
  rebuild_loop-Row size node nodes [] fits = record {
    kept = [];
    written = sym (append-nil nodes);
    among = nil;
    spread = spread_nil;
    fits = fits;
    complete = λ _. refl;
  }
  rebuild_loop-Row size node nodes (r ∷ results) fits =
      elim (Bool-cases (ltb (length nodes) size)) [
        | inr full ↦ rw full (record {
          kept = [];
          written = sym (append-nil nodes);
          among = empty-Subsequence _;
          spread = spread_nil;
          fits = fits;
          complete = λ less. absurd (ground (arith, full));
        })
        | inl room ↦ elim (Bool-cases (negative r.vid)) [
          | inl end ↦
              rw (room, end)
                (record {
                  kept = [];
                  written = sym (append-nil nodes);
                  among = rw end nil;
                  spread = spread_nil;
                  fits = fits;
                  complete = λ _. rw end refl;
                })
          | inr used ↦ elim (Bool-cases (same_id r.vid node)) [
            | inl same ↦
                let row = rebuild_loop-Row size node nodes results fits in
                rw (room, used, same)
                  (skipped size node nodes r results _ row used (λ out w. own node out r same))
            | inr other ↦ elim (Bool-cases (good between scale nodes r)) [
              | inl near ↦
                  let longer = length-append nodes (r.vid ∷ []) in
                  let row =
                    rebuild_loop-Row size node (nodes ++ r.vid ∷ []) results
                      (ground (arith, room, longer)) in
                  rw (room, used, other, near)
                    (taken size node nodes r results _ row used other near)
              | inr hidden ↦
                  let row = rebuild_loop-Row size node nodes results fits in
                  rw (room, used, other, hidden)
                    (skipped size node nodes r results _ row used
                      (λ out w. behind node nodes out r hidden w))
            ]
          ]
        ]
      ]

  -- what `RebuildNeighbors` writes
  pub record Neighbors (size : ℕ) (node : ℤ) (results : List BasicResult) (row : List ℤ)
      : Type 0 where
    pub width : length row ≡ size
    pub nodes : List ℤ
    pub found : Row size node [] results nodes
    pub written : row ≡ nodes ++ replicate (size - length nodes) (negsuc 0)

  -- RebuildNeighbors writes a row of m_iNeighborhoodSize entries, -1 behind the neighbours:
  -- these are the ids of results, in their order, from before the first result without a
  -- vector, none of them the node and none hidden by a neighbour before it; where the row has
  -- room left, each of those results names the node or a neighbour, or a neighbour hides it.
  pub rebuild_neighbors-Neighbors :
      (size : ℕ) (node : ℤ) (results : List BasicResult)
      → Neighbors size node results (rebuild_neighbors between scale size node results)
  unfolding rebuild_neighbors
  rebuild_neighbors-Neighbors size node results =
      let nodes = rebuild_loop between scale size node [] results in
      let row = rebuild_loop-Row size node [] results (omega arith) in
      let fits = row.fits in
      record {
        width = omega (
          arith,
          length-append nodes (replicate (size - length nodes) (negsuc 0)),
          length-replicate (size - length nodes) (negsuc 0),
        );
        nodes = nodes;
        found = row;
        written = refl;
      }
