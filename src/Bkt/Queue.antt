-- ===== src/Bkt/Queue.antt =====
-- The queues of a search over the trees and the graph of AnnService/src/Core/BKT/BKTIndex.cpp.
use mathlib.Core.List.Perm
use mathlib.Core.List.{forall_mem-cons, mem-append_right}
use sptag.Base.{
  ℕ, ◌+◌, ◌≤◌, ◌<◌, ◌≡◌, ◌⊎◌, inl, inr, Bool, true, List, [], ◌∷◌, ◌++◌, some, Mem, Perm, arith,
  ◌==◌, Bool-cases, ==_iff,
}
use sptag.Pairs.{nearest_first}
use sptag.Order.{Ordered}
use sptag.Heap
use sptag.Heap.{Heap}
use sptag.Heap.Valid
use sptag.Heap.Valid.{elements}
use sptag.Heap.Insert.{insert-room, insert-full}
use sptag.Base.Sums.{total, total-append, total-perm}
use sptag.Heap.Pop.{Popped}

module _ {ℓ} {T : Type ℓ} ⦃order : Ordered T⦄ where
  -- what `insert` does with a queue: it takes the value, and a full queue drops an element
  pub record Pushed (h : Heap T) (value : T) (h' : Heap T) : Type ℓ where
    pub valid : Valid.IsValid h'
    pub room : 0 < h'.capacity
    pub dropped : List T
    pub same : Perm (dropped ++ elements h') (value ∷ elements h)
    pub count : h'.count ≤ h.count + 1

  pub insert-Pushed :
      (h : Heap T) (value : T)
      → Valid.IsValid h
      → 0 < h.capacity
      → (h' : Heap T) × (Heap.insert h value ≡ some h') × Pushed h value h'
  insert-Pushed h value v room =
      let bounded = v.bounded in
      elim (if_full (h.count) (h.capacity) bounded) [
        | inl more ↦
            let (h', run, valid, same, count) = insert-room h value v more in
            let bound = valid.bounded in
            (
              h',
              run,
              record {
                valid = valid;
                room = omega arith;
                dropped = [];
                same = same;
                count = omega arith;
              },
            )
        | inr full ↦
            let (h', run, ex) = insert-full h value v full room in
            let bound = ex.valid.bounded in
            let kept = ex.full in
            (
              h',
              run,
              record {
                valid = ex.valid;
                room = omega arith;
                dropped = ex.gone ∷ [];
                same = ex.same;
                count = omega arith;
              },
            )
      ]
    where
      if_full : (c k : ℕ) → c ≤ k → (c < k) ⊎ (c ≡ k)
      if_full c k le = elim (Bool-cases (c == k)) [
        | inl e ↦ inr (ground (arith, e, ==_iff c k))
        | inr n ↦ inl (ground (arith, n, ==_iff c k))
      ]

module _ {ℓ} {T : Type ℓ} where
  -- every element passes the test
  abbrev pub All : (T → Bool) → List T → Type ℓ
  All p l = (x : T) → Mem x l → p x ≡ true

  test_prop : (p : T → Bool) (x : T) → IsProp (p x ≡ true)
  test_prop p x = hlevel

  pub All-cons : (p : T → Bool) (x : T) (l : List T) → p x ≡ true → All p l → All p (x ∷ l)
  All-cons p x l h all = (forall_mem-cons (test_prop p)).1 (h, all)

module _ {ℓ} {T : Type ℓ} ⦃order : Ordered T⦄ where
  pub Pushed-All :
      (p : T → Bool) (h : Heap T) (value : T) (h' : Heap T)
      → Pushed h value h'
      → p value ≡ true
      → All p (elements h)
      → All p (elements h')
  Pushed-All p h value h' pushed e all x m =
      All-cons p value (elements h) e all x
        ((Perm.mem_iff pushed.same).0 (mem-append_right pushed.dropped m))

  pub Pushed-total :
      (f : T → ℕ) (h : Heap T) (value : T) (h' : Heap T)
      → Pushed h value h'
      → total f (elements h') ≤ f value + total f (elements h)
  unfolding total
  Pushed-total f h value h' pushed =
      omega (arith, total-perm f pushed.same, total-append f pushed.dropped (elements h'))

  pub Popped-All :
      (p : T → Bool) (h : Heap T) (value : T) (h' : Heap T)
      → Popped h value h'
      → All p (elements h)
      → (p value ≡ true) × All p (elements h')
  Popped-All p h value h' popped all =
      let both =
        (forall_mem-cons (test_prop p)).0 (λ x m. all x ((Perm.mem_iff popped.same).0 m)) in
      both

  pub Popped-total :
      (f : T → ℕ) (h : Heap T) (value : T) (h' : Heap T)
      → Popped h value h'
      → f value + total f (elements h') ≡ total f (elements h)
  unfolding total
  Popped-total f h value h' popped = total-perm f popped.same
