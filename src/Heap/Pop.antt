-- ===== src/Heap/Pop.antt =====
-- Both forms of `pop` of Heap.h, and `Top`.
use mathlib.Core.List.Perm
use sptag.Base.{
  ℕ, suc, ◌+◌, ◌-◌, ◌/◌, ◌<◌, ◌≡◌, ◌∙◌, inr, refl, ap, List, ◌∷◌, some, Mem, Perm, arith, length,
  length-perm,
}
use sptag.Array.{get!, swap, load, get!-swap, length-swap}
use sptag.Order.{Ordered, ◌≼◌}
use sptag.Heap.{Heap, heapify, size, top, pop, pop_ref}
use sptag.Heap.Sifted.{Rearranged, Rearranged-swap, root-least}
use sptag.Heap.Down.{DownInv, swap_checked-ok, heapify-Sifts}
use sptag.Heap.Live.{live, live-Rearranged, forall_mem-get!, ≼_prop, live-last, get!-live}
use sptag.Heap.Valid.{IsValid, elements, length-elements}

module _ {ℓ} {T : Type ℓ} ⦃order : Ordered T⦄ where
  -- what `pop` hands out: a first element, and the others in a valid heap
  pub record Popped (h : Heap T) (value : T) (h' : Heap T) : Type ℓ where
    pub valid : IsValid h'
    pub same : Perm (value ∷ elements h') (elements h)
    pub least : (x : T) → Mem x (elements h) → value ≼ x
    pub shrunk : h'.count + 1 ≡ h.count
    pub kept : h'.capacity ≡ h.capacity

  module _ (h : Heap T) (v : IsValid h) (n : ℕ) (filled : h.count ≡ suc n) where
    cut : List T
    cut = swap h.heap 1 (suc n)

    cut-DownInv : DownInv n cut 1
    unfolding cut
    cut-DownInv =
        let width = v.width in
        let bounded = v.bounded in
        let at = get!-swap h.heap 1 (suc n) (omega arith) (omega arith) in
        record {
          inside = rw length-swap (omega arith);
          positive = omega arith;
          edges = λ i lo hi out. rw (at i, at (i / 2)) (ground (arith, v.ordered i));
          bridged = λ i lo hi e two. absurd (omega arith);
        }

    cut-elements : Perm (get! h.heap 1 ∷ live n cut) (elements h)
    unfolding cut
    cut-elements =
        let width = v.width in
        let bounded = v.bounded in
        let at = get!-swap h.heap 1 (suc n) (omega arith) (omega arith) (suc n) in
        let last : get! cut (suc n) ≡ get! h.heap 1 = ground arith in
        let moved : Rearranged (suc n) h.heap cut =
          Rearranged-swap h.heap 1 (suc n) (omega arith) (omega arith) (omega arith) (omega arith)
            (omega arith) in
        let first : Perm (get! h.heap 1 ∷ live n cut) (live (suc n) cut) =
          rw last at (live-last cut n (rw length-swap (omega arith))) in
        rw filled (Perm.trans first (live-Rearranged (suc n) h.heap cut (omega arith) moved))

    first-least : (x : T) → Mem x (elements h) → get! h.heap 1 ≼ x
    first-least =
        forall_mem-get! (λ x. get! h.heap 1 ≼ x) (λ x. ≼_prop (get! h.heap 1) x) (elements h)
          (λ i p. rw (get!-live h.heap h.count i (omega (arith, length-elements h v))) (
            root-least h.count h.heap (suc i) v.ordered (omega arith)
              (omega (arith, length-elements h v))))

    cut-run :
        (b : List T) (x : T)
        → heapify cut n ≡ some b
        → get! b (suc n) ≡ x
        → get! h.heap 1 ≡ x
        → length b ≡ length h.heap
        → (top h ≡ some x)
          × (pop h ≡ some (some x, record h { heap = b; count = n }))
          × (pop_ref h ≡ some (x, record h { heap = b; count = n }))
    unfolding top pop pop_ref cut
    cut-run b x run behind first size =
        let width = v.width in
        let bounded = v.bounded in
        let read = load h.heap 1 (omega arith) ∙ ap some first in
        let swaps = swap_checked-ok h.heap 1 (suc n) (omega arith) (omega arith) in
        let back = load b (suc n) (omega arith) ∙ ap some behind in
        (ground arith, ground arith, ground arith)

    pop-suc :
        (value : T) × (h' : Heap T) × (top h ≡ some value)
        × (pop h ≡ some (some value, h'))
        × (pop_ref h ≡ some (value, h'))
        × Popped h value h'
    pop-suc =
        let width = v.width in
        let bounded = v.bounded in
        let (b, run, heap, same) = heapify-Sifts n cut cut-DownInv in
        let size : length b ≡ length h.heap =
          length-perm same.perm ∙ unfold cut in length-swap h.heap 1 (suc n) in
        let at = get!-swap h.heap 1 (suc n) (omega arith) (omega arith) (suc n) in
        let behind : get! b (suc n) ≡ get! h.heap 1 =
          same.outside (suc n) (inr (omega arith)) ∙ unfold cut in ground arith in
        let (seen, taken, taken_ref) = cut-run b (get! h.heap 1) run behind refl size in
        let kept = live-Rearranged n cut b cut-DownInv.inside same in
        (
          get! h.heap 1,
          record h { heap = b; count = n },
          seen,
          taken,
          taken_ref,
          record {
            valid = record {
              width = size ∙ width;
              bounded = omega arith;
              level = v.level;
              ordered = heap;
            };
            same = Perm.trans (Perm.cons (get! h.heap 1) kept) cut-elements;
            least = first-least;
            shrunk = omega arith;
            kept = refl;
          },
        )

  -- On a well-formed heap that is not empty, Top and both forms of pop succeed and name the
  -- same element, which precedes every element; pop leaves exactly the others in a well-formed
  -- heap of the same capacity.
  pub pop-Popped :
      (h : Heap T)
      → IsValid h
      → 0 < h.count
      → (value : T) × (h' : Heap T) × (top h ≡ some value)
        × (pop h ≡ some (some value, h'))
        × (pop_ref h ≡ some (value, h'))
        × Popped h value h'
  pop-Popped h v filled = pop-suc h v (h.count - 1) (omega arith)
