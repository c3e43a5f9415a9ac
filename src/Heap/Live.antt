-- ===== src/Heap/Live.antt =====
-- The entries that a heap holds, as a list: those at 1 to `count`.
use mathlib.Core.List.Perm
use mathlib.Core.List.{
  mem-cons_self, mem-cons_of_mem, perm-append_right_iff, not-mem-nil, forall_mem-cons,
  perm_append_singleton,
}
use sptag.Base.{
  ℕ, zero, suc, ◌+◌, ◌≤◌, ◌<◌, ◌≡◌, refl, ap, inl, inr, List, [], ◌∷◌, ◌++◌, Mem, Perm, arith,
  length, length-set, set, take, drop, length-drop, length-take, length-perm, take-append-drop,
}
use sptag.Array.{get!, get!-set, get!_ext, get!-drop, set-perm, get!-take}
use sptag.Order.{Ordered, ◌≼◌}
use sptag.Heap.Sifted.{Rearranged}

module _ {ℓ} {T : Type ℓ} ⦃order : Ordered T⦄ where
  abbrev pub live : ℕ → List T → List T
  live count a = take count (drop 1 a)

  pub live-Rearranged :
      (count : ℕ) (a b : List T)
      → count < length a
      → Rearranged count a b
      → Perm (live count b) (live count a)
  unfolding get!
  live-Rearranged count [] b h r = absurd (omega arith)
  live-Rearranged count (x ∷ a) [] h r = absurd (omega (arith, length-perm r.perm))
  live-Rearranged count (x ∷ a) (y ∷ b) h r =
      let first : y ≡ x = r.outside 0 (inl refl) in
      let tails : Perm b a = Perm.cons_inv (rw first at r.perm) in
      let rest : drop count b ≡ drop count a =
        get!_ext (drop count b) (drop count a)
          (omega (arith, length-drop count a, length-drop count b, length-perm tails))
          (λ i p.
            rw (get!-drop a count i, get!-drop b count i)
              (r.outside (suc (count + i)) (inr (omega arith)))) in
      (perm-append_right_iff (drop count a)).0
        (rw (← rest) (rw (take-append-drop count b, rest, take-append-drop count a) tails))

  pub take-snoc : (a : List T) (n : ℕ) → n < length a → take (suc n) a ≡ take n a ++ get! a n ∷ []
  unfolding get!
  take-snoc [] n h = absurd (omega arith)
  take-snoc (x ∷ a) zero h = refl
  take-snoc (x ∷ a) (suc n) h = ap (◌∷◌ x) (take-snoc a n (omega arith))

  pub take-set_outside : (a : List T) (n i : ℕ) (v : T) → n ≤ i → take n (set a i v) ≡ take n a
  take-set_outside a zero i v h = refl
  take-set_outside [] (suc n) i v h = refl
  take-set_outside (x ∷ a) (suc n) zero v h = absurd (omega arith)
  take-set_outside (x ∷ a) (suc n) (suc i) v h = ap (◌∷◌ x) (take-set_outside a n i v (omega arith))

  pub take-set_inside :
      (a : List T) (n i : ℕ) (v : T) → i < n → take n (set a i v) ≡ set (take n a) i v
  take-set_inside a zero i v h = absurd (omega arith)
  take-set_inside [] (suc n) i v h = refl
  take-set_inside (x ∷ a) (suc n) zero v h = refl
  take-set_inside (x ∷ a) (suc n) (suc i) v h = ap (◌∷◌ x) (take-set_inside a n i v (omega arith))

  -- what holds at every index holds of every member
  pub forall_mem-get! :
      (P : T → Type 0) (prop : (x : T) → IsProp (P x)) (a : List T)
      → ((i : ℕ) → i < length a → P (get! a i))
      → (x : T) → Mem x a
      → P x
  unfolding get!
  forall_mem-get! P prop [] h = λ x m. absurd (not-mem-nil m)
  forall_mem-get! P prop (y ∷ a) h =
      (forall_mem-cons prop).1
        (h 0 (omega arith), forall_mem-get! P prop a (λ i p. h (suc i) (omega arith)))

  pub ≼_prop : (a b : T) → IsProp (a ≼ b)
  ≼_prop a b = hlevel

  -- the last live entry moves to the front of the list
  pub live-last :
      (a : List T) (n : ℕ) → suc n < length a → Perm (get! a (suc n) ∷ live n a) (live (suc n) a)
  unfolding get!
  live-last [] n h = absurd (omega arith)
  live-last (x ∷ a) n h =
      rw (take-snoc a n (omega arith)) (Perm.symm (perm_append_singleton (get! a n) (take n a)))

  -- a write inside the live entries trades the old one for the new
  pub live-set :
      (a : List T) (n i : ℕ) (v : T)
      → n < length a
      → i < n
      → Perm (get! a (suc i) ∷ live n (set a (suc i) v)) (v ∷ live n a)
  unfolding get!
  live-set [] n i v h p = absurd (omega arith)
  live-set (x ∷ a) n i v h p =
      rw (take-set_inside a n i v p, ← get!-take a n i p)
        (set-perm (take n a) i v (omega (arith, length-take n a)))

  -- a write behind the live entries
  pub live-set_outside : (a : List T) (n i : ℕ) (v : T) → n < i → live n (set a i v) ≡ live n a
  live-set_outside a n zero v p = absurd (omega arith)
  live-set_outside [] n (suc i) v p = refl
  live-set_outside (x ∷ a) n (suc i) v p = take-set_outside a n i v (omega arith)

  pub get!-live : (a : List T) (n i : ℕ) → i < n → get! (live n a) i ≡ get! a (suc i)
  unfolding get!
  get!-live [] n i p = get!-take [] n i p
  get!-live (x ∷ a) n i p = get!-take a n i p

  -- a write just behind the live entries adds it to them
  pub live-put :
      (a : List T) (n : ℕ) (v : T)
      → n + 1 < length a
      → Perm (live (n + 1) (set a (n + 1) v)) (v ∷ live n a)
  live-put a n v h =
      let next : n + 1 ≡ suc n = omega arith in
      let b = set a (suc n) v in
      let written : get! b (suc n) ≡ v = ground (arith, get!-set a (suc n) (suc n) v) in
      let last = Perm.symm (live-last b n (rw length-set (omega arith))) in
      rw next (rw (written, live-set_outside a n (suc n) v (omega arith)) at last)

  pub get!-Mem : (a : List T) (i : ℕ) → i < length a → Mem (get! a i) a
  unfolding get!
  get!-Mem [] i h = absurd (omega arith)
  get!-Mem (x ∷ a) zero h = mem-cons_self
  get!-Mem (x ∷ a) (suc i) h = mem-cons_of_mem x (get!-Mem a i (omega arith))
