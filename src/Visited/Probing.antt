-- ===== src/Visited/Probing.antt =====
-- The probe loop of OptHashPosVector.
use sptag.Base.{
  ℕ, zero, suc, ◌+◌, ◌≤◌, ◌<◌, ◌≡◌, ◌∙◌, refl, ap, inl, inr, true, false, List, [], ◌∷◌, some,
  arith, ◌==◌, ==_iff, ==_refl, ◌||◌, if◌then◌else◌, Bool-cases, Option-cases, get_elem?, set,
  length, ◌>>=◌,
}
use sptag.Visited.{hash_func, hash_func2, Probe, placed, hit, full, probe, contains}

pub get_elem?-lt : (xs : List ℕ) (i : ℕ) → i < length xs → (x : ℕ) × (get_elem? xs i ≡ some x)
get_elem?-lt [] i h = absurd (omega arith)
get_elem?-lt (x ∷ xs) zero h = (x, refl)
get_elem?-lt (x ∷ xs) (suc i) h = get_elem?-lt xs i (omega arith)

pub get_elem?-set :
    (xs : List ℕ) (i j v : ℕ)
    → i < length xs
    → get_elem? (set xs i v) j ≡ (if i == j then some v else get_elem? xs j)
get_elem?-set [] i j v h = absurd (omega arith)
get_elem?-set (x ∷ xs) zero zero v h = refl
get_elem?-set (x ∷ xs) zero (suc j) v h = ground arith
get_elem?-set (x ∷ xs) (suc i) zero v h = ground arith
get_elem?-set (x ∷ xs) (suc i) (suc j) v h = ground (arith, get_elem?-set xs i j v)

pub lt_of_get_elem? : (xs : List ℕ) (i : ℕ) {x : ℕ} → get_elem? xs i ≡ some x → i < length xs
lt_of_get_elem? [] i e = cc
lt_of_get_elem? (y ∷ xs) zero e = omega arith
lt_of_get_elem? (y ∷ xs) (suc i) e = omega (arith, lt_of_get_elem? xs i e)

pub hash_func-lt : (idx pool_size : ℕ) → hash_func idx pool_size < pool_size + 1
unfolding hash_func
hash_func-lt idx pool_size = omega arith

pub hash_func2-lt : (idx pool_size loop : ℕ) → hash_func2 idx pool_size loop < pool_size + 1
unfolding hash_func2
hash_func2-lt idx pool_size loop = omega arith

-- an entry that stands at an index is contained
pub contains-get_elem? :
    (table : List ℕ) (i x : ℕ) → get_elem? table i ≡ some x → contains x table ≡ true
unfolding contains
contains-get_elem? [] i x e = cc
contains-get_elem? (y ∷ ys) zero x e = ground (arith, ==_refl x)
contains-get_elem? (y ∷ ys) (suc i) x e = ground (arith, contains-get_elem? ys i x)

-- filling a free slot adds one entry
pub contains-set :
    (table : List ℕ) (i x y : ℕ)
    → get_elem? table i ≡ some 0
    → 0 < x
    → contains x (set table i y) ≡ (y == x || contains x table)
unfolding contains
contains-set [] i x y e h = cc
contains-set (z ∷ zs) zero x y e h = ground arith
contains-set (z ∷ zs) (suc i) x y e h = ground (arith, contains-set zs i x y)

module _ (base pool_size idx : ℕ) where
  -- with a block inside the table the loop does not fault
  pub probe-total :
      (left loop : ℕ) (table : List ℕ) (index : ℕ)
      → base + (pool_size + 1) ≤ length table
      → index < pool_size + 1
      → (p : Probe) × (probe left loop table base pool_size idx index ≡ some p)
  unfolding probe
  probe-total zero loop table index h lt = (full, refl)
  probe-total (suc left) loop table index h lt =
      let (x, read) = get_elem?-lt table (base + index) (omega arith) in
      elim (Bool-cases (x == 0)) [
        | inl free ↦ (placed (set table (base + index) idx), rw (read, ◌>>=◌, free))
        | inr taken ↦ elim (Bool-cases (x == idx)) [
          | inl same ↦ (hit, rw (read, ◌>>=◌, taken, same))
          | inr other ↦
              let (p, run) =
                probe-total left (loop + 1) table (hash_func2 index pool_size loop) h
                  (hash_func2-lt index pool_size loop) in
              (p, rw (read, ◌>>=◌, taken, other) run)
        ]
      ]

  pub probe-hit :
      (left loop : ℕ) (table : List ℕ) (index : ℕ)
      → probe left loop table base pool_size idx index ≡ some hit
      → contains idx table ≡ true
  unfolding probe
  probe-hit zero loop table index e = cc
  probe-hit (suc left) loop table index e = ground (
    arith,
    contains-get_elem? table (base + index) idx,
    probe-hit left (loop + 1) table (hash_func2 index pool_size loop),
  )

  -- what a placing loop did: it filled a free slot of its block, and finds the entry there
  pub record Placed (left loop : ℕ) (table : List ℕ) (index : ℕ) (t : List ℕ) : Type 0 where
    pub slot : ℕ
    pub low : base ≤ slot
    pub high : slot < base + (pool_size + 1)
    pub free : get_elem? table slot ≡ some 0
    pub filled : t ≡ set table slot idx
    pub found : probe left loop t base pool_size idx index ≡ some hit

  -- a loop that ends without placing runs the same when a free slot fills with another entry
  pub probe-set :
      (left loop : ℕ) (table : List ℕ) (index slot y : ℕ)
      → get_elem? table slot ≡ some 0
      → (probe left loop table base pool_size idx index ≡ some hit
          → probe left loop (set table slot y) base pool_size idx index ≡ some hit)
        × (probe left loop table base pool_size idx index ≡ some full
            → probe left loop (set table slot y) base pool_size idx index ≡ some full)
  unfolding probe
  probe-set zero loop table index slot y free = (λ e. e, λ e. e)
  probe-set (suc left) loop table index slot y free =
      let inside = lt_of_get_elem? table slot free in
      let at = get_elem?-set table slot (base + index) y inside in
      let (hits, fulls) =
        probe-set left (loop + 1) table (hash_func2 index pool_size loop) slot y free in
      (λ e. rw at (ground (arith, hits)), λ e. rw at (ground (arith, fulls)))

  Placed-later :
      (left loop : ℕ) (table : List ℕ) (index : ℕ) (t : List ℕ) (x : ℕ)
      → get_elem? table (base + index) ≡ some x
      → (x == 0) ≡ false
      → (x == idx) ≡ false
      → Placed left (loop + 1) table (hash_func2 index pool_size loop) t
      → Placed (suc left) loop table index t
  unfolding probe
  Placed-later left loop table index t x read taken other r =
      let found = r.found in
      let free = r.free in
      let at = get_elem?-set table r.slot (base + index) idx (lt_of_get_elem? table r.slot free) in
      let still : get_elem? t (base + index) ≡ some x = rw r.filled (ground (arith, at)) in
      record {
        slot = r.slot;
        low = r.low;
        high = r.high;
        free = free;
        filled = r.filled;
        found = rw (still, ◌>>=◌, taken, other) found;
      }

  pub probe-placed :
      (left loop : ℕ) (table : List ℕ) (index : ℕ) (t : List ℕ)
      → 0 < idx
      → index < pool_size + 1
      → probe left loop table base pool_size idx index ≡ some (placed t)
      → Placed left loop table index t
  unfolding probe
  probe-placed zero loop table index t pos lt e = cc
  probe-placed (suc left) loop table index t pos lt e =
      elim (Option-cases (get_elem? table (base + index))) [
        | inl out ↦ absurd (ground (arith, out))
        | inr (x, read) ↦ elim (Bool-cases (x == 0)) [
          | inl free ↦
              let same : t ≡ set table (base + index) idx = ground (arith, read) in
              let inside = lt_of_get_elem? table (base + index) read in
              let at = get_elem?-set table (base + index) (base + index) idx inside in
              record {
                slot = base + index;
                low = omega arith;
                high = omega arith;
                free = read ∙ ap some ((==_iff x 0).0 free);
                filled = same;
                found = rw (same, at, ==_refl (base + index)) (ground (arith, ==_refl idx));
              }
          | inr taken ↦ Placed-later left loop table index t x read taken (ground (arith, read)) (
              probe-placed left (loop + 1) table (hash_func2 index pool_size loop) t pos
                (hash_func2-lt index pool_size loop) (ground (arith, read)))
        ]
      ]
