-- ===== src/Labels/VersionLabel.antt =====
-- AnnService/inc/Core/Common/VersionLabel.h: a version of seven bits per vector, 0xff for a vector
-- without one and 0xfe for a deleted vector. The operations run without another thread's writes.
use sptag.Base.{
  ℕ, ◌+◌, ◌^◌, ◌%◌, ◌<◌, ◌≡◌, refl, sym, Bool, true, false, Option, some, arith, leb, ◌==◌, not,
  Bool-cases, ◌||◌, if◌then◌else◌, get_elem?, set, length, inl, inr, length-replicate, length-set,
  get_elem?-set, get_elem?-inside, ◌>>=◌,
}
use sptag.Base.Int.{ℤ, pos}
use sptag.Labels.{
  Column, column, rows, past_end, below_zero, at, put, unset, ErrorCode, add_batch, count,
  count-set, count-bound, count-replicate, holds,
}

abbrev pub tombstone : ℕ
tombstone = 0xfe

-- `deleted` is an `int`, as its residue modulo 2 ^ 32
pub record VersionLabel : Type 0 where
  pub deleted : ℕ
  pub data_ : Column

pub initialize : ℕ → ℕ → VersionLabel
initialize size capacity = record { deleted = 0; data_ = column size capacity }

-- `key < 0 || key >= m_data.R()`
pub out_of_range : VersionLabel → ℤ → Bool
out_of_range v key = below_zero key || past_end v.data_ key

pub is_deleted : VersionLabel → ℤ → Option Bool
is_deleted v key =
    if out_of_range v key then some true else (at v.data_ key >>= λ x. some (x == tombstone))

pub delete : VersionLabel → ℤ → Option (Bool × VersionLabel)
delete v key =
    let exchange : Option (Bool × VersionLabel) = do
      old ← at v.data_ key
      let written = record v { data_ = put v.data_ key tombstone }
      if old == tombstone
          then some (false, written)
          else some (true, record written { deleted = (v.deleted + 1) % 2 ^ 32 })
    in if out_of_range v key then some (true, v) else exchange

pub get_version : VersionLabel → ℤ → Option ℕ
get_version v key = if out_of_range v key then some tombstone else at v.data_ key

pub set_version : VersionLabel → ℤ → ℕ → Option VersionLabel
set_version v key version =
    let write : Option VersionLabel = do
      _ ← at v.data_ key
      some (record v { data_ = put v.data_ key version })
    in if out_of_range v key then some v else write

-- `new_version` is what the caller's variable holds, which a failure leaves. The exchange of the
-- first round finds the value that the round has read.
pub inc_version : VersionLabel → ℤ → ℕ → Option (Bool × (ℕ × VersionLabel))
inc_version v key new_version =
    let round : Option (Bool × (ℕ × VersionLabel)) = (do
      old ← get_version v key
      let next = (old + 1) % 128
      some (true, (next, record v { data_ = put v.data_ key next }))) in
    let guarded : Option (Bool × (ℕ × VersionLabel)) = do
      gone ← is_deleted v key
      if gone then some (false, (new_version, v)) else round
    in if out_of_range v key then some (false, (new_version, v)) else guarded

pub add_rows : VersionLabel → ℕ → ErrorCode × VersionLabel
add_rows v num = let (e, c) = add_batch v.data_ num in (e, record v { data_ = c })

-- The counter is the number of deleted vectors.
pub record IsValid (v : VersionLabel) : Type 0 where
  pub counted : v.deleted ≡ count tombstone v.data_.cells
  pub fits : length v.data_.cells < 2 ^ 31

-- whether the vector `k` has been deleted
unfoldable pub gone : VersionLabel → ℕ → Bool
gone v k = holds tombstone (get_elem? v.data_.cells k)

pub initialize-IsValid : (size capacity : ℕ) → size < 2 ^ 31 → IsValid (initialize size capacity)
unfolding initialize column
initialize-IsValid size capacity h = record {
  counted = sym (count-replicate tombstone unset size refl);
  fits = rw length-replicate h;
}

-- Every key has an answer, one out of range that it is deleted.
pub is_deleted-pos :
    (v : VersionLabel) (k : ℕ)
    → is_deleted v (pos k) ≡ some (gone v k || leb (length v.data_.cells) k)
unfolding is_deleted out_of_range below_zero past_end at gone
is_deleted-pos v k = elim (Bool-cases (leb (rows v.data_) k)) [
  | inl past ↦ ground arith
  | inr inside ↦ ground (arith, get_elem?-inside v.data_.cells k (ground arith))
]

-- On well-formed versions Delete of a vector inside returns whether it was not deleted, leaves
-- the tombstone as its version, changes no other version, and keeps the count of the deleted.
pub delete-deletes :
    (v : VersionLabel) (k : ℕ)
    → IsValid v
    → k < length v.data_.cells
    → (w : VersionLabel) × ((delete v (pos k) ≡ some (not (gone v k), w))
        × (IsValid w
            × ((j : ℕ)
                → get_version w (pos j)
                  ≡ (if k == j then some tombstone else get_version v (pos j)))))
unfolding delete out_of_range below_zero past_end at gone get_version put
delete-deletes v k h inside =
    let (old, found) = get_elem?-inside v.data_.cells k inside in
    let c = count-set tombstone tombstone v.data_.cells k old found in
    let few = count-bound tombstone (set v.data_.cells k tombstone) in
    let wide = length-set v.data_.cells k tombstone in
    let t = v.deleted in
    elim (Bool-cases (old == tombstone)) [
      | inl e ↦ (
        record v { data_ = put v.data_ (pos k) tombstone },
        (
          ground arith,
          (
            record { counted = ground (arith, h.counted, c); fits = ground (arith, h.fits) },
            (λ j. ground (arith, get_elem?-set v.data_.cells k j tombstone inside)),
          ),
        ),
      )
      | inr e ↦ (
        record { deleted = (v.deleted + 1) % 2 ^ 32; data_ = put v.data_ (pos k) tombstone },
        (
          ground arith,
          (
            record {
              counted = ground (arith, h.counted, h.fits, c);
              fits = ground (arith, h.fits);
            },
            (λ j. ground (arith, get_elem?-set v.data_.cells k j tombstone inside)),
          ),
        ),
      )
    ]

-- On well-formed versions IncVersion of a vector inside that is not deleted succeeds with the
-- next version modulo 128, changes no other version, and keeps the count of the deleted.
pub inc_version-next :
    (v : VersionLabel) (k new_version : ℕ)
    → IsValid v
    → k < length v.data_.cells
    → gone v k ≡ false
    → (old : ℕ) × ((w : VersionLabel) × ((get_version v (pos k) ≡ some old)
          × ((inc_version v (pos k) new_version ≡ some (true, ((old + 1) % 128, w)))
              × (IsValid w
                  × ((j : ℕ)
                      → get_version w (pos j)
                        ≡ (if k == j then some ((old + 1) % 128) else get_version v (pos j)))))))
unfolding inc_version is_deleted out_of_range below_zero past_end at gone get_version put
inc_version-next v k new_version h inside alive =
    let (old, found) = get_elem?-inside v.data_.cells k inside in
    let next = (old + 1) % 128 in
    let c = count-set tombstone next v.data_.cells k old found in
    let wide = length-set v.data_.cells k next in
    (
      old,
      (
        record v { data_ = put v.data_ (pos k) next },
        (
          ground arith,
          (
            ground arith,
            (
              record { counted = ground (arith, h.counted, c); fits = ground (arith, h.fits) },
              (λ j. ground (arith, get_elem?-set v.data_.cells k j next inside)),
            ),
          ),
        ),
      ),
    )

-- On well-formed versions SetVersion of the tombstone for a vector that is not deleted makes it
-- deleted without counting it, so that the versions are well-formed no more.
pub set_version-uncounted :
    (v : VersionLabel) (k : ℕ)
    → IsValid v
    → k < length v.data_.cells
    → gone v k ≡ false
    → (w : VersionLabel) × ((set_version v (pos k) tombstone ≡ some w)
        × ((gone w k ≡ true) × ((w.deleted ≡ v.deleted) × (IsValid w → ⊥))))
unfolding set_version out_of_range below_zero past_end at put gone
set_version-uncounted v k h inside alive =
    let (old, found) = get_elem?-inside v.data_.cells k inside in
    let c = count-set tombstone tombstone v.data_.cells k old found in
    (
      record v { data_ = put v.data_ (pos k) tombstone },
      (
        ground arith,
        (
          ground (arith, get_elem?-set v.data_.cells k k tombstone inside),
          (refl, (λ w. ground (arith, w.counted, h.counted, c))),
        ),
      ),
    )
