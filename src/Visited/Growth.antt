-- ===== src/Visited/Growth.antt =====
-- `DoubleSize` of OptHashPosVector, and when an object is well-formed.
use sptag.Base.{
  ℕ, zero, suc, ◌+◌, ◌-◌, ◌*◌, ◌<◌, ◌≡◌, ◌∙◌, ◌⊎◌, refl, ap, inl, inr, Bool, false, List, [], ◌∷◌,
  none, some, arith, ◌==◌, ==_iff, ◌||◌, Bool-cases, drop, take, replicate, length,
  length-replicate,
}
use sptag.Visited.{Visited, Probe, placed, hit, full, insert_in, rehash, double_size, contains}
use sptag.Visited.Lookup.{IsTable, Ends, insert_in-Ends}

-- the object's invariant: before the second block is used it is free
pub record IsValid (v : Visited) : Type 0 where
  pub table : IsTable v.pool_size v.table
  pub clean : v.second_hash ≡ false → drop (v.pool_size + 1) v.table ≡ replicate (v.pool_size + 1) 0

-- the ids that the object holds
abbrev pub holds : Visited → ℕ → Bool
holds v idx = contains (idx + 1) v.table

pub contains-replicate : (n x : ℕ) → 0 < x → contains x (replicate n 0) ≡ false
unfolding contains
contains-replicate zero x h = refl
contains-replicate (suc n) x h = ground (arith, contains-replicate n x)

drop-replicate : (n m : ℕ) → drop {A = ℕ} n (replicate (n + m) 0) ≡ replicate m 0
drop-replicate zero m = ap (λ (k : ℕ). replicate k 0) (omega arith)
drop-replicate (suc n) m = rw add_suc (drop-replicate n m)
  where
    add_suc : suc n + m ≡ suc (n + m)
    add_suc = omega arith

pub free-IsTable : (pool_size : ℕ) → IsTable pool_size (replicate ((pool_size + 1) * 2) 0)
free-IsTable pool_size = record {
  width = length-replicate ((pool_size + 1) * 2) 0;
  reached = λ x p c. cc (contains-replicate ((pool_size + 1) * 2) x p, c);
}

pub free-clean : (n : ℕ) → drop {A = ℕ} n (replicate (n * 2) 0) ≡ replicate n 0
free-clean n = let e : n * 2 ≡ n + n = omega arith in rw e (drop-replicate n n)

take_all : (xs : List ℕ) (n : ℕ) → length xs ≡ n → take n xs ≡ xs
take_all [] zero h = refl
take_all [] (suc n) h = absurd (omega arith)
take_all (x ∷ xs) zero h = absurd (omega arith)
take_all (x ∷ xs) (suc n) h = ap (◌∷◌ x) (take_all xs n (omega arith))

-- what the loop of `DoubleSize` has done: the entries of `xs` stand in the table too
record Rehashed (pool_size : ℕ) (xs table : List ℕ) (second : Bool) (r : List ℕ × Bool)
    : Type 0 where
  valid : IsTable pool_size r.0
  entries : (x : ℕ) → 0 < x → contains x r.0 ≡ (contains x xs || contains x table)
  clean : r.1 ≡ false → (second ≡ false) × (drop (pool_size + 1) r.0 ≡ drop (pool_size + 1) table)

rehash-step :
    (pool_size x : ℕ) (xs table : List ℕ) (second : Bool) (q : Probe × Bool)
    → 0 < x
    → Ends pool_size table x second q
    → insert_in table pool_size x second ≡ some q
    → ((t : List ℕ) (s : Bool)
        → IsTable pool_size t
        → (rehash xs t pool_size s ≡ none)
          ⊎ ((r : List ℕ × Bool) × (rehash xs t pool_size s ≡ some r)
              × Rehashed pool_size xs t s r))
    → IsTable pool_size table
    → (rehash (x ∷ xs) table pool_size second ≡ none)
      ⊎ ((r : List ℕ × Bool) × (rehash (x ∷ xs) table pool_size second ≡ some r)
          × Rehashed pool_size (x ∷ xs) table second r)
unfolding rehash contains
rehash-step pool_size x xs table second (placed t, s) pos ends run ih valid =
    let taken : (x == 0) ≡ false = ground arith in
    let (fills, kept) = ends in
    elim (ih t s fills.valid) [
      | inl e ↦ inl (rw (taken, rehash, run) e)
      | inr (r, e, post) ↦ inr (
        r,
        rw (taken, rehash, run) e,
        record {
          valid = post.valid;
          entries = λ y p. ground (arith, post.entries y p, fills.entries y p);
          clean = λ h. ground (arith, post.clean h, kept);
        },
      )
    ]
rehash-step pool_size x xs table second (hit, s) pos (there, kept) run ih valid =
    let taken : (x == 0) ≡ false = ground arith in
    elim (ih table s valid) [
      | inl e ↦ inl (rw (taken, rehash, run) e)
      | inr (r, e, post) ↦ inr (
        r,
        rw (taken, rehash, run) e,
        record {
          valid = post.valid;
          entries = λ y p. ground (arith, post.entries y p, there, ==_iff x y);
          clean = λ h. ground (arith, post.clean h, kept);
        },
      )
    ]
rehash-step pool_size x xs table second (full, s) pos ends run ih valid =
    let taken : (x == 0) ≡ false = ground arith in inl (rw (taken, rehash, run))

rehash-Rehashed :
    (pool_size : ℕ) (xs table : List ℕ) (second : Bool)
    → IsTable pool_size table
    → (rehash xs table pool_size second ≡ none)
      ⊎ ((r : List ℕ × Bool) × (rehash xs table pool_size second ≡ some r)
          × Rehashed pool_size xs table second r)
unfolding rehash contains
rehash-Rehashed pool_size [] table second valid =
    inr (
      (table, second),
      refl,
      record { valid = valid; entries = λ x p. refl; clean = λ h. (h, refl) },
    )
rehash-Rehashed pool_size (x ∷ xs) table second valid = elim (Bool-cases (x == 0)) [
  | inr taken ↦
      let (q, run, ends) = insert_in-Ends pool_size table valid x (ground arith) second in
      rehash-step pool_size x xs table second q (ground arith) ends run
        (λ t s w. rehash-Rehashed pool_size xs t s w) valid
  | inl free ↦ elim (rehash-Rehashed pool_size xs table second valid) [
    | inl e ↦ inl (rw (free, rehash) e)
    | inr (r, e, post) ↦ inr (
      r,
      rw (free, rehash) e,
      record {
        valid = post.valid;
        entries = λ y p. ground (arith, post.entries y p);
        clean = post.clean;
      },
    )
  ]
]

-- `DoubleSize` keeps the entries, unless its recursion does not end.
pub double_size-keeps :
    (v : Visited)
    → IsValid v
    → (double_size v ≡ none)
      ⊎ ((w : Visited) × (double_size v ≡ some w)
          × IsValid w
          × ((x : ℕ) → 0 < x → contains x w.table ≡ contains x v.table)
          × (w.pool_size + 1 ≡ (v.pool_size + 1) * 2)
          × (w.exp ≡ v.exp + 1))
unfolding double_size
double_size-keeps v valid =
    let new_pool_size = (v.pool_size + 1) * 2 - 1 in
    let fresh : List ℕ = replicate ((new_pool_size + 1) * 2) 0 in
    let width = valid.table.width in
    let whole : take (new_pool_size + 1) v.table ≡ v.table =
      take_all v.table (new_pool_size + 1) (omega arith) in
    elim (rehash-Rehashed new_pool_size v.table fresh false (free-IsTable new_pool_size)) [
      | inl e ↦ inl (rw (whole, e))
      | inr ((t, s), e, post) ↦ inr (
        record { second_hash = s; exp = v.exp + 1; pool_size = new_pool_size; table = t },
        rw (whole, e),
        record {
          table = post.valid;
          clean = λ h. (post.clean h).1 ∙ free-clean (new_pool_size + 1);
        },
        λ x p.
            let none_yet = contains-replicate ((new_pool_size + 1) * 2) x p in
            ground (arith, post.entries x p),
        omega arith,
        refl,
      )
    ]
