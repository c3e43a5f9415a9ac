-- ===== src/Visited/Clearing.antt =====
-- `Init` and `clear` of OptHashPosVector.
use sptag.Base.{
  ℕ, zero, suc, ◌+◌, ◌*◌, ◌<◌, ◌≡◌, refl, ap, inl, inr, false, List, [], ◌∷◌, ◌++◌, arith,
  Bool-cases, drop, replicate, length,
}
use sptag.Visited.{Visited, contains, zero_first, clear, tabulate, init}
use sptag.Visited.Growth.{IsValid, contains-replicate, free-IsTable, free-clean}

drop_all :
    (xs : List ℕ) (n : ℕ) → length xs ≡ n → replicate {A = ℕ} n 0 ++ drop n xs ≡ replicate n 0
drop_all [] zero h = refl
drop_all [] (suc n) h = absurd (omega arith)
drop_all (x ∷ xs) zero h = absurd (omega arith)
drop_all (x ∷ xs) (suc n) h = ap (λ (l : List ℕ). 0 ∷ l) (drop_all xs n (omega arith))

replicate-append : (n m : ℕ) → replicate {A = ℕ} n 0 ++ replicate m 0 ≡ replicate {A = ℕ} (n + m) 0
replicate-append zero m = ap (λ (k : ℕ). replicate {A = ℕ} k 0) (omega arith)
replicate-append (suc n) m =
    let e : suc n + m ≡ suc (n + m) = omega arith in
    rw e (ap (λ (l : List ℕ). 0 ∷ l) (replicate-append n m))

pub length-tabulate : (n : ℕ) (junk : ℕ → ℕ) → length (tabulate n junk) ≡ n
unfolding tabulate
length-tabulate zero junk = refl
length-tabulate (suc n) junk = ap suc (length-tabulate n junk)

-- what `clear` needs: the second block free, unless the flag says that it may not be
clear-free :
    (v : Visited)
    → length v.table ≡ (v.pool_size + 1) * 2
    → (v.second_hash ≡ false → drop (v.pool_size + 1) v.table ≡ replicate (v.pool_size + 1) 0)
    → ((clear v).table ≡ replicate ((v.pool_size + 1) * 2) 0)
      × ((clear v).second_hash ≡ false)
      × ((clear v).pool_size ≡ v.pool_size)
unfolding clear zero_first
clear-free v width clean = elim (Bool-cases v.second_hash) [
  | inl on ↦
      (ground (arith, drop_all v.table ((v.pool_size + 1) * 2) width), ground arith, ground arith)
  | inr off ↦
      let both : v.pool_size + 1 + (v.pool_size + 1) ≡ (v.pool_size + 1) * 2 = omega arith in
      let n = v.pool_size + 1 in
      let whole : replicate n 0 ++ drop n v.table ≡ replicate (n * 2) 0 =
        rw (clean off, ← both) (replicate-append n n) in
      (ground arith, ground arith, ground arith)
]

clear-empty :
    (v : Visited)
    → length v.table ≡ (v.pool_size + 1) * 2
    → (v.second_hash ≡ false → drop (v.pool_size + 1) v.table ≡ replicate (v.pool_size + 1) 0)
    → IsValid (clear v)
      × ((x : ℕ) → 0 < x → contains x (clear v).table ≡ false)
      × ((clear v).pool_size ≡ v.pool_size)
clear-empty v width clean =
    let (free, off, same) = clear-free v width clean in
    (
      record {
        table = rw (free, same) (free-IsTable v.pool_size);
        clean = λ _. rw (free, same) (free-clean (v.pool_size + 1));
      },
      λ x p. rw free (contains-replicate ((v.pool_size + 1) * 2) x p),
      same,
    )

-- clear empties a well-formed visited set and keeps it well-formed and of its size, though it
-- zeroes the second block only where the flag is set.
pub clear-empties :
    (v : Visited)
    → IsValid v
    → IsValid (clear v)
      × ((x : ℕ) → 0 < x → contains x (clear v).table ≡ false)
      × ((clear v).pool_size ≡ v.pool_size)
clear-empties v valid = clear-empty v valid.table.width valid.clean

-- Init leaves a well-formed visited set that holds nothing, whatever the new memory holds.
pub init-empty :
    (junk : ℕ → ℕ) (size exp : ℕ)
    → IsValid (init junk size exp)
      × ((x : ℕ) → 0 < x → contains x (init junk size exp).table ≡ false)
unfolding init
init-empty junk size exp =
    let (valid, empty, _) = clear-empty _ (length-tabulate _ junk) (λ e. cc) in (valid, empty)
