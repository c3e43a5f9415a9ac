-- ===== src/Visited/Lookup.antt =====
-- `_CheckAndSet` of OptHashPosVector on one table, and when a table is well-formed.
use sptag.Base.{
  ℕ, zero, suc, ◌+◌, ◌*◌, ◌<◌, ◌≡◌, ◌⊎◌, refl, subst, inl, inr, Bool, true, false, List, [], ◌∷◌,
  Option, some, arith, ◌==◌, ==_iff, ◌||◌, Bool-cases, get_elem?, set, drop, length, length-set,
}
use sptag.Visited.{max_loop, hash_func, Probe, placed, hit, full, probe, insert_in, contains}
use sptag.Visited.Probing.{
  hash_func-lt, contains-set, probe-total, probe-hit, probe-set, probe-placed,
}

abbrev pub first_block : List ℕ → ℕ → ℕ → Option Probe
first_block table pool_size x = probe max_loop 0 table 0 pool_size x (hash_func x pool_size)

abbrev pub second_block : List ℕ → ℕ → ℕ → Option Probe
second_block table pool_size x =
    probe max_loop 0 table (pool_size + 1) pool_size x (hash_func x pool_size)

-- the probes for an entry reach it, in the first block or, that one taken, in the second
abbrev pub Reaches : List ℕ → ℕ → ℕ → Type 0
Reaches table pool_size x =
    (first_block table pool_size x ≡ some hit)
    ⊎ ((first_block table pool_size x ≡ some full) × (second_block table pool_size x ≡ some hit))

pub record IsTable (pool_size : ℕ) (table : List ℕ) : Type 0 where
  pub width : length table ≡ (pool_size + 1) * 2
  pub reached : (x : ℕ) → 0 < x → contains x table ≡ true → Reaches table pool_size x

-- `t` is the table with one entry more
pub record Fills (pool_size idx : ℕ) (table t : List ℕ) : Type 0 where
  pub fresh : contains idx table ≡ false
  pub valid : IsTable pool_size t
  pub entries : (x : ℕ) → 0 < x → contains x t ≡ (idx == x || contains x table)

-- how `insert_in` ends; the flag turns on with a write in the second block
abbrev pub Ends : ℕ → List ℕ → ℕ → Bool → Probe × Bool → Type 0
Ends pool_size table idx second (placed t, s) =
    Fills pool_size idx table t
    × (s ≡ false → (second ≡ false) × (drop (pool_size + 1) t ≡ drop (pool_size + 1) table))
Ends pool_size table idx second (hit, s) =
    (contains idx table ≡ true) × (s ≡ false → second ≡ false)
Ends pool_size table idx second (full, s) = (contains idx table ≡ false) × (s ≡ true)

drop-set : (xs : List ℕ) (n i v : ℕ) → i < n → drop n (set xs i v) ≡ drop n xs
drop-set xs zero i v h = absurd (omega arith)
drop-set [] (suc n) i v h = refl
drop-set (x ∷ xs) (suc n) zero v h = refl
drop-set (x ∷ xs) (suc n) (suc i) v h = drop-set xs n i v (omega arith)

module _ (pool_size : ℕ) (table : List ℕ) (valid : IsTable pool_size table) (idx : ℕ)
    (pos : 0 < idx) where
  -- a probe that does not find the entry means that the table does not contain it
  absent : (Reaches table pool_size idx → ⊥) → contains idx table ≡ false
  absent no_way = elim (Bool-cases (contains idx table)) [
    | inr e ↦ e
    | inl e ↦ absurd (no_way (valid.reached idx pos e))
  ]

  module _ (slot : ℕ) (t : List ℕ) (free : get_elem? table slot ≡ some 0)
      (filled : t ≡ set table slot idx) (there : Reaches t pool_size idx)
      (fresh : contains idx table ≡ false) where
    still-reached : (x : ℕ) → Reaches table pool_size x → Reaches t pool_size x
    still-reached x (inl h) = inl (
        rw filled
          ((probe-set 0 pool_size x max_loop 0 table (hash_func x pool_size) slot idx free).0 h))
    still-reached x (inr (f, h)) = inr (
      rw filled
          ((probe-set 0 pool_size x max_loop 0 table (hash_func x pool_size) slot idx free).1 f),
      rw filled (
          (probe-set (pool_size + 1) pool_size x max_loop 0 table (hash_func x pool_size) slot idx
              free).0
            h),
    )

    fill-Fills : Fills pool_size idx table t
    fill-Fills =
        let entries : (x : ℕ) → 0 < x → contains x t ≡ (idx == x || contains x table) =
          λ x p. rw filled (contains-set table slot x idx free p) in
        record {
          fresh = fresh;
          valid = record {
            width = rw (filled, length-set) valid.width;
            reached = λ x p c. elim (Bool-cases (idx == x)) [
              | inl same ↦ subst (λ y. Reaches t pool_size y) ((==_iff idx x).0 same) there
              | inr other ↦ still-reached x (valid.reached x p (ground (arith, entries x)))
            ];
          };
          entries = entries;
        }

  insert_in-second :
      (second : Bool) (p : Probe)
      → first_block table pool_size idx ≡ some full
      → second_block table pool_size idx ≡ some p
      → Ends pool_size table idx second (p, true)
  insert_in-second second (placed t) e f =
      let r =
        probe-placed (pool_size + 1) pool_size idx max_loop 0 table (hash_func idx pool_size) t pos
          (hash_func-lt idx pool_size) f in
      let taken : first_block t pool_size idx ≡ some full = rw r.filled (
        (probe-set 0 pool_size idx max_loop 0 table (hash_func idx pool_size) r.slot idx r.free).1
          e) in
      (
        fill-Fills r.slot t r.free r.filled (inr (taken, r.found)) (absent (λ w. ground arith)),
        λ s. cc,
      )
  insert_in-second second hit e f = (
    probe-hit (pool_size + 1) pool_size idx max_loop 0 table (hash_func idx pool_size) f,
    λ s. cc,
  )
  insert_in-second second full e f = (absent (λ w. ground arith), refl)

  insert_in-first :
      (second : Bool) (p : Probe)
      → first_block table pool_size idx ≡ some p
      → (q : Probe × Bool) × (insert_in table pool_size idx second ≡ some q)
        × Ends pool_size table idx second q
  unfolding insert_in
  insert_in-first second (placed t) e =
      let r =
        probe-placed 0 pool_size idx max_loop 0 table (hash_func idx pool_size) t pos
          (hash_func-lt idx pool_size) e in
      let fresh = absent (λ w. ground arith) in
      (
        (placed t, second),
        rw e,
        (
          fill-Fills r.slot t r.free r.filled (inl r.found) fresh,
          λ s. (s, rw r.filled (drop-set table (pool_size + 1) r.slot idx (omega (arith, r.high)))),
        ),
      )
  insert_in-first second hit e = (
    (hit, second),
    rw e,
    (probe-hit 0 pool_size idx max_loop 0 table (hash_func idx pool_size) e, λ s. s),
  )
  insert_in-first second full e =
      let width = valid.width in
      let (p, f) =
        probe-total (pool_size + 1) pool_size idx max_loop 0 table (hash_func idx pool_size)
          (omega arith) (hash_func-lt idx pool_size) in
      ((p, true), rw (e, f), insert_in-second second p e f)

  -- A well-formed table takes an entry exactly if it does not contain it and a probed slot is free.
  pub insert_in-Ends :
      (second : Bool)
      → (q : Probe × Bool) × (insert_in table pool_size idx second ≡ some q)
        × Ends pool_size table idx second q
  insert_in-Ends second =
      let width = valid.width in
      let (p, e) =
        probe-total 0 pool_size idx max_loop 0 table (hash_func idx pool_size) (omega arith)
          (hash_func-lt idx pool_size) in
      insert_in-first second p e
