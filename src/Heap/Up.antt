-- ===== src/Heap/Up.antt =====
-- The loop of `insert` in Heap.h, and the order of a heap above one entry.
use sptag.Base.{
  set-set_self, ℕ, zero, suc, ◌/◌, ◌≤◌, ◌<◌, ◌≡◌, ◌≢◌, inl, inr, true, List, some, arith, ltb,
  ltb→lt, ◌==◌, ==_iff, if◌then◌else◌, Bool-cases, length, set, length-set,
}
use sptag.Array.{get!, swap, load, get!-swap, length-swap, get!-set}
use sptag.Order.{Ordered, less, ◌≼◌, ≼_trans}
use sptag.Heap.{rise}
use sptag.Heap.Sifted.{IsHeap, Rearranged, Rearranged-refl, Rearranged-trans, Rearranged-swap}

module _ {ℓ} {T : Type ℓ} ⦃order : Ordered T⦄ where
  -- every edge but the one above `l` is in order, and so are the edges that skip `l`
  pub record UpInv (count : ℕ) (a : List T) (l : ℕ) : Type 0 where
    pub inside : count < length a
    pub positive : 1 ≤ l
    pub within : l ≤ count
    pub edges : (i : ℕ) → 2 ≤ i → i ≤ count → i ≢ l → get! a (i / 2) ≼ get! a i
    pub bridged : (i : ℕ) → 2 ≤ i → i ≤ count → i / 2 ≡ l → 2 ≤ l → get! a (l / 2) ≼ get! a i

  module _ (count : ℕ) (a : List T) (l : ℕ) (inv : UpInv count a l) (two : 2 ≤ l)
      (above : less (get! a l) (get! a (l / 2)) ≡ true) where
    at :
        (k : ℕ)
        → get! (swap a l (l / 2)) k
          ≡ (if l / 2 == k then get! a l else if l == k then get! a (l / 2) else get! a k)
    at =
        let inside = inv.inside in
        let within = inv.within in get!-swap a l (l / 2) (omega arith) (omega arith)

    risen-edges :
        (i : ℕ)
        → 2 ≤ i
        → i ≤ count
        → i ≢ l / 2
        → get! (swap a l (l / 2)) (i / 2) ≼ get! (swap a l (l / 2)) i
    risen-edges i lo hi n =
        rw (at i, at (i / 2))
          (ground (
            arith,
            inv.edges i,
            inv.bridged i,
            order.less_asymm (get! a l) (get! a (l / 2)),
            ≼_trans (get! a l) (get! a (l / 2)) (get! a i),
          ))

    risen-bridged :
        (i : ℕ)
        → 2 ≤ i
        → i ≤ count
        → i / 2 ≡ l / 2
        → 2 ≤ l / 2
        → get! (swap a l (l / 2)) (l / 2 / 2) ≼ get! (swap a l (l / 2)) i
    risen-bridged i lo hi e h =
        rw (at i, at (l / 2 / 2))
          (ground (
            arith,
            inv.edges i,
            inv.edges (l / 2),
            ≼_trans (get! a (l / 2 / 2)) (get! a (l / 2)) (get! a i),
          ))

    pub risen-Inv : UpInv count (swap a l (l / 2)) (l / 2)
    risen-Inv = record {
      inside = rw length-swap inv.inside;
      positive = omega arith;
      within = omega (arith, inv.within);
      edges = risen-edges;
      bridged = risen-bridged;
    }

  -- the hole at `l` filled by the value, and the parent moved into the hole
  pub hole-swap :
      (a : List T) (l par : ℕ) (value : T)
      → l < length a
      → par < length a
      → l ≢ par
      → set (set a l (get! a par)) par value ≡ swap (set a l value) l par
  unfolding swap
  hole-swap a l par value hl hp n =
      rw (get!-set a l par value hl, get!-set a l l value hl, set-set_self) (ground arith)

  -- the value fits below its parent: the sift is over
  landed :
      (count : ℕ) (b : List T) (l : ℕ)
      → UpInv count b l
      → (2 ≤ l → get! b (l / 2) ≼ get! b l)
      → IsHeap count b
  landed count b l inv fits i lo hi = elim (Bool-cases (i == l)) [
    | inl e ↦ let same : i ≡ l = (==_iff i l).0 e in rw same (fits (omega arith))
    | inr n ↦ inv.edges i lo hi (ground arith)
  ]

  -- The loop of `insert` ends, without a fault, in a heap of the entries with the value put in.
  pub rise-sifts :
      (fuel count : ℕ) (a : List T) (l : ℕ) (value : T)
      → UpInv count (set a l value) l
      → l < fuel
      → (b : List T) × (rise fuel a l (l / 2) value ≡ some b)
        × IsHeap count b
        × Rearranged count (set a l value) b
  unfolding rise
  rise-sifts zero count a l value inv f = absurd (omega arith)
  rise-sifts (suc fuel) count a l value inv f =
      let b = set a l value in
      let par = l / 2 in
      let inside : count < length a = omega (arith, inv.inside, length-set a l value) in
      let within = inv.within in
      let positive = inv.positive in
      let at_l : get! b l ≡ value = ground (arith, get!-set a l l value) in
      let at_par : get! b par ≡ get! a par = ground (arith, get!-set a l par value) in
      elim (Bool-cases (ltb 0 par)) [
        | inr root ↦ (
          b,
          rw (root, load a l (omega arith)),
          landed count b l inv (λ two. absurd (ground arith)),
          Rearranged-refl count b,
        )
        | inl inner ↦
            let two : 2 ≤ l = omega (arith, ltb→lt 0 par inner) in
            elim (Bool-cases (less value (get! a par))) [
              | inr fits ↦ (
                b,
                rw (inner, load a par (omega arith), load a l (omega arith), fits),
                landed count b l inv (λ _. rw (at_l, at_par) fits),
                Rearranged-refl count b,
              )
              | inl up ↦
                  let eq = hole-swap a l par value (omega arith) (omega arith) (omega arith) in
                  let above : less (get! b l) (get! b par) ≡ true = rw (at_l, at_par) up in
                  let moved = risen-Inv count b l inv two above in
                  let (c, run, heap, same) =
                    rise-sifts fuel count (set a l (get! a par)) par value (rw eq moved)
                      (omega arith) in
                  let step =
                    Rearranged-swap b l par inv.inside positive within (omega arith)
                      (omega arith) in
                  (
                    c,
                    rw (inner, load a par (omega arith), load a l (omega arith), up) run,
                    heap,
                    Rearranged-trans step (rw eq at same),
                  )
            ]
      ]
