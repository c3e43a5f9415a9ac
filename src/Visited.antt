-- ===== src/Visited.antt =====
-- AnnService/inc/Core/Common/WorkSpace.h: OptHashPosVector, the set of vectors that a search has
-- visited. An entry is a vector's id and one, 0 is a free slot. `none` is an access outside the
-- table, a recursion that does not end, or the fuel of one.
pub mod Probing
pub mod Lookup
pub mod Growth
pub mod Marks
pub mod Clearing
mod Tests
use sptag.Base.{
  ℕ, zero, suc, ◌+◌, ◌-◌, ◌*◌, ◌/◌, ◌%◌, ◌^◌, Bool, true, false, List, [], ◌∷◌, ◌++◌, Option, none,
  some, ◌==◌, ◌||◌, if◌then◌else◌, get_elem?, set, take, drop, replicate, ◌>>=◌,
}

-- `m_maxLoop`
abbrev pub max_loop : ℕ
max_loop = 8

pub record Visited : Type 0 where
  pub second_hash : Bool
  pub exp : ℕ
  pub pool_size : ℕ
  -- two blocks of `pool_size + 1` slots
  pub table : List ℕ

-- `_rotl` of 32 bits
pub rotl : ℕ → ℕ → ℕ
rotl x k = x * 2 ^ k % 2 ^ 32 + x / 2 ^ (32 - k)

-- `pool_size + 1` is a power of two, so that `& pool_size` is the remainder by it
pub hash_func : ℕ → ℕ → ℕ
hash_func idx pool_size = (idx * 99991 % 2 ^ 32 + rotl idx 2 + 101) % 2 ^ 32 % (pool_size + 1)

pub hash_func2 : ℕ → ℕ → ℕ → ℕ
hash_func2 idx pool_size loop = (idx + loop) % 2 ^ 32 % (pool_size + 1)

-- how the loop of `_CheckAndSet` ends: it returns 1 or 0, or all its slots are taken
pub data Probe : Type 0 where
  placed : List ℕ → Probe
  hit full : Probe

-- the loop with `left` rounds to go, in the block that starts at `base`
pub probe : ℕ → ℕ → List ℕ → ℕ → ℕ → ℕ → ℕ → Option Probe
probe zero loop table base pool_size idx index = some full
probe (suc left) loop table base pool_size idx index =
    let next = probe left (loop + 1) table base pool_size idx (hash_func2 index pool_size loop) in
    let slot : Option Probe = do
      x ← get_elem? table (base + index)
      if x == 0
          then some (placed (set table (base + index) idx))
          else if x == idx
          then some hit
          else next
    in slot

-- `_CheckAndSet` up to the call of `DoubleSize`, with the new value of `m_secondHash`
pub insert_in : List ℕ → ℕ → ℕ → Bool → Option (Probe × Bool)
insert_in table pool_size idx second_hash = do
  first ← probe max_loop 0 table 0 pool_size idx (hash_func idx pool_size)
  elim first [
    | placed t ↦ some (placed t, second_hash)
    | hit ↦ some (hit, second_hash)
    | full ↦
        (probe max_loop 0 table (pool_size + 1) pool_size idx (hash_func idx pool_size)
          >>= λ second. some (second, true))
  ]

-- The loop of `DoubleSize`. Where both blocks of the new table are full for an entry, the code
-- calls `DoubleSize` again, on an object that the first call has not changed but for
-- `m_secondHash`: the same loop starts again, and the recursion does not end.
pub rehash : List ℕ → List ℕ → ℕ → Bool → Option (List ℕ × Bool)
rehash [] table pool_size second_hash = some (table, second_hash)
rehash (x ∷ xs) table pool_size second_hash = elim (x == 0) [
  | true ↦ rehash xs table pool_size second_hash
  | false ↦
      (insert_in table pool_size x second_hash >>= λ (p, second). elim p [
        | placed t ↦ rehash xs t pool_size second
        | hit ↦ rehash xs table pool_size second
        | full ↦ none
      ])
]

pub double_size : Visited → Option Visited
double_size v = do
  let new_pool_size = (v.pool_size + 1) * 2 - 1
  let fresh : List ℕ = replicate ((new_pool_size + 1) * 2) 0
  (table, second) ← rehash (take (new_pool_size + 1) v.table) fresh new_pool_size false
  some (record { second_hash = second; exp = v.exp + 1; pool_size = new_pool_size; table = table })

-- `_CheckAndSet` on the object's own table: `true` for the result 0
pub check_and_set_entry : ℕ → Visited → ℕ → Option (Bool × Visited)
check_and_set_entry zero v idx = none
check_and_set_entry (suc fuel) v idx = do
  (p, second) ← insert_in v.table v.pool_size idx v.second_hash
  elim p [
    | placed t ↦ some (false, record v { table = t; second_hash = second })
    | hit ↦ some (true, record v { second_hash = second })
    | full ↦
        (double_size (record v { second_hash = second }) >>= λ w. check_and_set_entry fuel w idx)
  ]

-- `CheckAndSet`; the fuel bounds how often the table doubles
pub check_and_set : ℕ → Visited → ℕ → Option (Bool × Visited)
check_and_set fuel v idx = check_and_set_entry (suc fuel) v (idx + 1)

-- `memset` of the first `n` slots
pub zero_first : ℕ → List ℕ → List ℕ
zero_first n table = replicate n 0 ++ drop n table

pub clear : Visited → Visited
clear v =
    if v.second_hash
    then record v { second_hash = false; table = zero_first ((v.pool_size + 1) * 2) v.table }
    else record v { table = zero_first (v.pool_size + 1) v.table }

-- the loop of `Init` that counts the bits of `size`
bit_length : ℕ → ℕ → ℕ
bit_length zero size = 0
bit_length (suc fuel) size =
    let rest = bit_length fuel (size / 2) in if size == 0 then 0 else suc rest

-- what `new SizeType[n]` finds in memory
pub tabulate : ℕ → (ℕ → ℕ) → List ℕ
tabulate zero junk = []
tabulate (suc n) junk = junk n ∷ tabulate n junk

-- `Init`; the new table holds arbitrary values before `clear`
pub init : (ℕ → ℕ) → ℕ → ℕ → Visited
init junk size exp =
    let pool_size = 2 ^ (bit_length size size + exp) - 1 in
    clear (record {
      second_hash = true;
      exp = exp;
      pool_size = pool_size;
      table = tabulate ((pool_size + 1) * 2) junk;
    })

-- the entry stands somewhere in the table
pub contains : ℕ → List ℕ → Bool
contains x [] = false
contains x (y ∷ ys) = y == x || contains x ys
