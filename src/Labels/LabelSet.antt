-- ===== src/Labels/LabelSet.antt =====
-- AnnService/inc/Core/Common/LabelSet.h: the set of deleted vectors, a byte per vector.
pub mod Members
use sptag.Base.{
  ℕ, zero, suc, ◌+◌, ◌-◌, ◌^◌, ◌%◌, ◌<◌, ◌≡◌, refl, ◌∙◌, sym, Bool, true, false, List, [], ◌∷◌,
  ◌++◌, Option, none, some, arith, ltb, ◌==◌, not, Bool-cases, ltb→le, ◌||◌, ◌&&◌, if◌then◌else◌,
  get_elem?, set, length, replicate, ◌⊎◌, inl, inr, length-append, length-replicate, length-set,
  get_elem?-set, get_elem?-inside, ◌>>=◌,
}
use sptag.Base.Int.{ℤ, pos}
use sptag.Labels.{
  Column, column, rows, past_end, at, put, unset, ErrorCode, add_batch, count, count-set,
  count-bound, count-append, count-replicate, holds, holds-append,
}

pub data InvalidIdBehavior : Type 0 where
  passthrough : InvalidIdBehavior
  always_contains : InvalidIdBehavior
  always_not_contains : InvalidIdBehavior

-- `inserted` is an `int`, as its residue modulo 2 ^ 32
pub record LabelSet : Type 0 where
  pub inserted : ℕ
  pub data_ : Column
  pub invalid_id_behavior : InvalidIdBehavior

-- the constructor, which sets the count to 0, and then `Initialize`
unfoldable pub initialize : ℕ → ℕ → InvalidIdBehavior → LabelSet
initialize size capacity behavior = record {
  inserted = 0;
  data_ = column size capacity;
  invalid_id_behavior = behavior;
}

-- what the three operations return for a key past the end, if anything
unfoldable pub invalid_id : LabelSet → ℤ → Option Bool
invalid_id s key =
    if past_end s.data_ key
    then (elim s.invalid_id_behavior [
      | passthrough ↦ none
      | always_contains ↦ some true
      | always_not_contains ↦ some false
    ])
    else none

pub contains : LabelSet → ℤ → Option Bool
contains s key = elim (invalid_id s key) [
  | some b ↦ some b
  | none ↦ (at s.data_ key >>= λ x. some (x == 1))
]

unfoldable pub insert : LabelSet → ℤ → Option (Bool × LabelSet)
insert s key = elim (invalid_id s key) [
  | some b ↦ some (b, s)
  | none ↦ (do
    old ← at s.data_ key
    let written = record s { data_ = put s.data_ key 1 }
    if old == 1
        then some (false, written)
        else some (true, record written { inserted = (s.inserted + 1) % 2 ^ 32 }))
]

unfoldable pub reset : LabelSet → ℤ → Option (Bool × LabelSet)
reset s key = elim (invalid_id s key) [
  | some b ↦ some (b, s)
  | none ↦ (do
    old ← at s.data_ key
    let written = record s { data_ = put s.data_ key unset }
    if old == unset
        then some (false, written)
        else some (true, record written { inserted = (s.inserted + (2 ^ 32 - 1)) % 2 ^ 32 }))
]

pub add_rows : LabelSet → ℕ → ErrorCode × LabelSet
add_rows s num = let (e, c) = add_batch s.data_ num in (e, record s { data_ = c })
