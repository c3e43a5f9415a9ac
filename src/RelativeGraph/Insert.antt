-- ===== src/RelativeGraph/Insert.antt =====
-- `InsertNeighbors` of AnnService/inc/Core/Common/RelativeNeighborhoodGraph.h.
use mathlib.Core.List.Perm
use sptag.Base.{
  ◌≤◌, ◌≡◌, refl, ap, inl, inr, Bool, true, false, ◌&&◌, ◌||◌, List, [], ◌∷◌, ◌++◌, Perm, ltb, leb,
  ◌==◌, if◌then◌else◌, arith, Bool-cases,
}
use sptag.Base.Int.{ℤ, negsuc, ltb_ℤ}
use sptag.Results.{Dist}
use sptag.RelativeGraph.{
  negative, shift, insert_from, tree_entry, checked_entries, insert_neighbors,
}

unfoldable pub all_negative : List ℤ → Bool
all_negative [] = true
all_negative (v ∷ row) = negative v && all_negative row

swapped : (a b : ℤ) (row : List ℤ) → Perm (a ∷ b ∷ row) (b ∷ a ∷ row)
swapped a b row = Perm.swap b a row

entries-append : (row : List ℤ) → checked_entries row ++ tree_entry row ≡ row
unfolding checked_entries tree_entry
entries-append [] = refl
entries-append (v ∷ []) = elim (Bool-cases (ltb_ℤ v (negsuc 0))) [
  | inl e ↦ rw e refl
  | inr e ↦ rw e refl
]
entries-append (v ∷ w ∷ row) = ap (◌∷◌ v) (entries-append (w ∷ row))

module _ (between : ℤ → ℤ → Dist) (node : ℤ) where
  -- Nodes from distance `m` on, nearest first, and behind them only free entries.
  unfoldable pub ascending : Dist → List ℤ → Bool
  ascending m [] = true
  ascending m (v ∷ row) =
      let rest = ascending (between v node) row in
      if negative v then all_negative row else leb m (between v node) && rest

  ascending-free : (m : Dist) (row : List ℤ) → all_negative row ≡ true → ascending m row ≡ true
  unfolding ascending all_negative
  ascending-free m [] h = refl
  ascending-free m (v ∷ row) h =
      let free : negative v ≡ true = ground (arith, h) in rw free (ground (arith, h))

  ascending-weaken :
      (m n : Dist) (row : List ℤ) → m ≤ n → ascending n row ≡ true → ascending m row ≡ true
  unfolding ascending
  ascending-weaken m n [] le h = refl
  ascending-weaken m n (v ∷ row) le h = elim (Bool-cases (negative v)) [
    | inl e ↦ rw e (rw e at h)
    | inr e ↦ let both = rw e at h in rw e (ground (arith, both))
  ]

  module _ (insert_node : ℤ) where
    shift-perm :
        (tmp : ℤ) (row : List ℤ)
        → (lost : ℤ) × Perm (lost ∷ shift between node insert_node tmp row) (tmp ∷ row)
    unfolding shift
    shift-perm tmp [] = (tmp, Perm.rfl)
    shift-perm tmp (v ∷ row) =
        elim (Bool-cases (leb (between tmp node) (between tmp insert_node))) [
          | inr stop ↦ (tmp, rw stop Perm.rfl)
          | inl on ↦ elim (Bool-cases (negative v)) [
            | inl free ↦ (v, rw (on, free) (swapped v tmp row))
            | inr used ↦
                let (lost, same) = shift-perm v row in
                (
                  lost,
                  rw (on, used)
                      (Perm.trans (swapped lost tmp (shift between node insert_node v row))
                        (Perm.cons tmp same)),
                )
          ]
        ]

    shift-ascending :
        (m : Dist) (tmp : ℤ) (row : List ℤ)
        → negative tmp ≡ false
        → m ≤ between tmp node
        → ascending (between tmp node) row ≡ true
        → ascending m (shift between node insert_node tmp row) ≡ true
    unfolding shift ascending
    shift-ascending m tmp [] used le h = refl
    shift-ascending m tmp (v ∷ row) used le h =
        elim (Bool-cases (leb (between tmp node) (between tmp insert_node))) [
          | inr stop ↦ rw stop (ascending-weaken m (between tmp node) (v ∷ row) le h)
          | inl on ↦ elim (Bool-cases (negative v)) [
            | inl free ↦
                rw (on, free, used)
                  (ground (arith, ascending-free (between tmp node) row (rw free at h)))
            | inr some_node ↦
                let both = rw some_node at h in
                let next =
                  shift-ascending (between tmp node) v row some_node (ground (arith, both))
                    (ground (arith, both)) in
                rw (on, some_node, used) (ground (arith, next))
          ]
        ]

    -- whether the node is put before `v`
    before : Dist → ℤ → Bool
    before dist v = ltb dist (between v node) || (dist == between v node && ltb_ℤ insert_node v)

    insert_from-perm :
        (dist : Dist) (row : List ℤ)
        → (gone : ℤ) × Perm
            (gone ∷ insert_from between node insert_node dist row)
            (insert_node ∷ row)
    unfolding insert_from before
    insert_from-perm dist [] = (insert_node, Perm.rfl)
    insert_from-perm dist (v ∷ row) = elim (Bool-cases (negative v)) [
      | inl free ↦ (v, rw free (swapped v insert_node row))
      | inr used ↦ elim (Bool-cases (before dist v)) [
        | inl placed ↦
            let (lost, same) = shift-perm v row in
            (
              lost,
              rw (used, placed)
                  (Perm.trans (swapped lost insert_node (shift between node insert_node v row))
                    (Perm.cons insert_node same)),
            )
        | inr later ↦ elim (Bool-cases (ltb (between v insert_node) dist)) [
          | inl hidden ↦ (insert_node, rw (used, later, hidden) Perm.rfl)
          | inr open_ ↦
              let (gone, same) = insert_from-perm dist row in
              (
                gone,
                rw (used, later, open_)
                    (Perm.trans (swapped gone v (insert_from between node insert_node dist row))
                      (Perm.trans (Perm.cons v same) (swapped v insert_node row))),
              )
        ]
      ]
    ]

    insert_from-ascending :
        (m dist : Dist) (row : List ℤ)
        → negative insert_node ≡ false
        → between insert_node node ≡ dist
        → m ≤ dist
        → ascending m row ≡ true
        → ascending m (insert_from between node insert_node dist row) ≡ true
    unfolding insert_from ascending before
    insert_from-ascending m dist [] used at_dist le h = refl
    insert_from-ascending m dist (v ∷ row) used at_dist le h = elim (Bool-cases (negative v)) [
      | inl free ↦
          let rest = ascending-free (between insert_node node) row (rw free at h) in
          rw (free, used) (ground (arith, rest, at_dist))
      | inr some_node ↦
          let both = rw some_node at h in
          elim (Bool-cases (before dist v)) [
            | inl placed ↦
                let rest =
                  shift-ascending (between insert_node node) v row some_node
                    (ground (arith, placed, at_dist)) (ground (arith, both)) in
                rw (some_node, placed, used) (ground (arith, rest, at_dist))
            | inr later ↦ elim (Bool-cases (ltb (between v insert_node) dist)) [
              | inl hidden ↦ rw (some_node, later, hidden, some_node) (ground (arith, both))
              | inr open_ ↦
                  let rest =
                    insert_from-ascending (between v node) dist row used at_dist
                      (ground (arith, later)) (ground (arith, both)) in
                  rw (some_node, later, open_, some_node) (ground (arith, both, rest))
            ]
          ]
    ]

    -- what `InsertNeighbors` makes of a row
    pub record Inserted (row row' : List ℤ) : Type 0 where
      pub kept : List ℤ
      pub entries : checked_entries row ++ tree_entry row ≡ row
      pub written : row' ≡ kept ++ tree_entry row
      pub sorted : ascending 0 kept ≡ true
      pub gone : ℤ
      pub same : Perm (gone ∷ kept) (insert_node ∷ checked_entries row)

    -- InsertNeighbors of a node, given its distance, into a row whose neighbours are nearest
    -- first, with the free entries last, leaves such a row of the same length: one of the
    -- node and the entries before is gone, every other stays, and an entry of the tree array
    -- at the end of the row is not touched.
    pub insert_neighbors-Inserted :
        (dist : Dist) (row : List ℤ)
        → negative insert_node ≡ false
        → between insert_node node ≡ dist
        → ascending 0 (checked_entries row) ≡ true
        → Inserted row (insert_neighbors between node insert_node dist row)
    unfolding insert_neighbors
    insert_neighbors-Inserted dist row used at_dist sorted =
        let (gone, same) = insert_from-perm dist (checked_entries row) in
        record {
          kept = insert_from between node insert_node dist (checked_entries row);
          entries = entries-append row;
          written = refl;
          sorted =
              insert_from-ascending 0 dist (checked_entries row) used at_dist (omega arith) sorted;
          gone = gone;
          same = same;
        }
