-- ===== src/Heap/Insert.antt =====
-- `insert` of Heap.h, with room and on a full heap.
use mathlib.Core.List.Perm
use sptag.Base.{
  ℕ, zero, suc, ◌+◌, ◌-◌, ◌/◌, ◌≤◌, ◌<◌, ◌≡◌, inl, inr, refl, true, false, List, ◌∷◌, some, Perm,
  arith, ◌==◌, ==_iff, if◌then◌else◌, Bool-cases, length, set, length-set, length-perm, ◌>>=◌,
}
use sptag.Array.{get!, load, get!-set}
use sptag.Order.{Ordered, less, ◌≼◌, ≼_refl, ≼_trans}
use sptag.Heap.{Heap, last_max, rise, insert}
use sptag.Heap.Up.{UpInv, rise-sifts}
use sptag.Heap.Live.{live-Rearranged, live-set, live-put}
use sptag.Heap.Valid.{IsValid, elements}

module _ {ℓ} {T : Type ℓ} ⦃order : Ordered T⦄ where
  -- On a well-formed heap that is not full, insert succeeds: the heap stays well-formed and
  -- holds the value and what it held.
  pub insert-room :
      (h : Heap T) (value : T)
      → IsValid h
      → h.count < h.capacity
      → (h' : Heap T) × (insert h value ≡ some h')
        × IsValid h'
        × Perm (elements h') (value ∷ elements h)
        × (h'.count ≡ h.count + 1)
  unfolding insert
  insert-room h value v room =
      let width = v.width in
      let a = h.heap in
      let c = h.count + 1 in
      let put = set a c value in
      let at = λ (i : ℕ). get!-set a c i value (omega arith) in
      let start : UpInv c put c = record {
        inside = rw length-set (omega arith);
        positive = omega arith;
        within = omega arith;
        edges = λ i lo hi n. rw (at i, at (i / 2)) (ground (arith, v.ordered i));
        bridged = λ i lo hi e two. absurd (omega arith);
      } in
      let (b, run, heap, same) = rise-sifts (c + 1) c a c value start (omega arith) in
      let full : (h.count == h.capacity) ≡ false = ground arith in
      (
        record h { heap = b; count = c },
        rw (full, run),
        record {
          width = rw (length-perm same.perm, length-set) width;
          bounded = omega arith;
          level = v.level;
          ordered = heap;
        },
        Perm.trans (live-Rearranged c put b start.inside same)
            (live-put a h.count value (omega arith)),
        refl,
      )

  -- the scan ends at an entry that follows the first and all `left` entries from `i` on
  last_max-greatest :
      (left : ℕ) (a : List T) (i maxi : ℕ)
      → i + left ≤ length a
      → maxi < i
      → (m : ℕ) × (last_max left a i maxi ≡ some m)
        × (maxi ≤ m)
        × (m < i + left)
        × (get! a maxi ≼ get! a m)
        × ((j : ℕ) → i ≤ j → j < i + left → get! a j ≼ get! a m)
  unfolding last_max
  last_max-greatest zero a i maxi h lt =
      (maxi, refl, omega arith, omega arith, ≼_refl (get! a maxi), λ j lo hi. absurd (omega arith))
  last_max-greatest (suc left) a i maxi h lt =
      let next = if less (get! a maxi) (get! a i) then i else maxi in
      let up : (get! a maxi ≼ get! a next) × (get! a i ≼ get! a next) = (
        ground (arith, ≼_refl (get! a maxi), order.less_asymm (get! a maxi) (get! a i)),
        ground (arith, ≼_refl (get! a i)),
      ) in
      let (m, run, lo, hi, first, rest) =
        last_max-greatest left a (i + 1) next (omega arith) (ground arith) in
      (
        m,
        rw (load a maxi (omega arith), load a i (omega arith)) run,
        ground arith,
        omega arith,
        ≼_trans (get! a maxi) (get! a next) (get! a m) up.0 first,
        λ j p q. elim (Bool-cases (j == i)) [
          | inl e ↦
              let same : j ≡ i = (==_iff j i).0 e in
              rw same (≼_trans (get! a i) (get! a next) (get! a m) up.1 first)
          | inr n ↦ rest j (ground arith) (omega arith)
        ],
      )

  -- what a full heap does with a value: one of the elements and the value goes, no element of the
  -- last level after it, and the others stay
  pub record Exchanged (h : Heap T) (value : T) (h' : Heap T) : Type ℓ where
    pub valid : IsValid h'
    pub full : h'.count ≡ h.count
    pub gone : T
    pub same : Perm (gone ∷ elements h') (value ∷ elements h)
    pub after_value : value ≼ gone
    pub after_level : (i : ℕ) → h.lastlevel ≤ i → i ≤ h.count → get! h.heap i ≼ gone

  module _ (h : Heap T) (value : T) (v : IsValid h) (m : ℕ) (lo : h.lastlevel ≤ m)
      (hi : m ≤ h.count) (some_room : 0 < h.capacity) (full : h.count ≡ h.capacity)
      (greatest : (i : ℕ) → h.lastlevel ≤ i → i ≤ h.count → get! h.heap i ≼ get! h.heap m) where
    replace-UpInv : value ≼ get! h.heap m → UpInv h.count (set h.heap m value) m
    replace-UpInv fits =
        let width = v.width in
        let deep = v.level.1 some_room in
        let at = λ (i : ℕ). get!-set h.heap m i value (omega arith) in
        record {
          inside = rw length-set (omega arith);
          positive = omega arith;
          within = hi;
          edges = λ i l p n. rw (at i, at (i / 2)) (ground (arith, v.ordered i));
          bridged = λ i l p e two. absurd (omega arith);
        }

    replace-Exchanged :
        value ≼ get! h.heap m
        → (h' : Heap T) × ((rise (m + 1) h.heap m (m / 2) value >>= λ b.
              some (record h { heap = b; count = h.count }))
            ≡ some h')
          × Exchanged h value h'
    replace-Exchanged fits =
        let width = v.width in
        let deep = v.level.1 some_room in
        let start = replace-UpInv fits in
        let (b, run, heap, same) = rise-sifts (m + 1) h.count h.heap m value start (omega arith) in
        let pred_m : m ≡ suc (m - 1) = omega arith in
        (
          record h { heap = b; count = h.count },
          rw run,
          record {
            valid = record {
              width = rw (length-perm same.perm, length-set) width;
              bounded = v.bounded;
              level = v.level;
              ordered = heap;
            };
            full = refl;
            gone = get! h.heap m;
            same =
                Perm.trans
                  (Perm.cons (get! h.heap m)
                    (live-Rearranged h.count (set h.heap m value) b start.inside same))
                  (rw (← pred_m) at
                    (live-set h.heap h.count (m - 1) value (omega arith) (omega arith)));
            after_value = fits;
            after_level = greatest;
          },
        )

  -- On a well-formed full heap of positive capacity, insert ends in a well-formed full heap:
  -- the value or an element that it does not follow is gone, the others stay, and no entry of
  -- the last level follows what is gone.
  pub insert-full :
      (h : Heap T) (value : T)
      → IsValid h
      → h.count ≡ h.capacity
      → 0 < h.capacity
      → (h' : Heap T) × (insert h value ≡ some h') × Exchanged h value h'
  unfolding insert
  insert-full h value v full room =
      let width = v.width in
      let level = v.level.0 in
      let is_full : (h.count == h.capacity) ≡ true = ground arith in
      let (m, run, lo, hi, first, rest) =
        last_max-greatest (h.capacity - h.lastlevel) h.heap (h.lastlevel + 1) h.lastlevel
          (omega arith) (omega arith) in
      let greatest : (i : ℕ) → h.lastlevel ≤ i → i ≤ h.count → get! h.heap i ≼ get! h.heap m =
        λ i p q. elim (Bool-cases (i == h.lastlevel)) [
          | inl e ↦ rw ((==_iff i h.lastlevel).0 e) first
          | inr n ↦ rest i (ground arith) (omega arith)
        ] in
      let read = load h.heap m (omega arith) in
      elim (Bool-cases (less (get! h.heap m) value)) [
        | inl after ↦ (
          h,
          rw (is_full, run, read, ◌>>=◌, after),
          record {
            valid = v;
            full = refl;
            gone = value;
            same = Perm.rfl;
            after_value = ≼_refl value;
            after_level = λ i p q.
                ≼_trans (get! h.heap i) (get! h.heap m) value (greatest i p q)
                  (order.less_asymm (get! h.heap m) value after);
          },
        )
        | inr fits ↦
            let (h', placed, post) =
              replace-Exchanged h value v m lo (omega arith) room full greatest fits in
            (h', rw (is_full, run, read, ◌>>=◌, fits) placed, post)
      ]
