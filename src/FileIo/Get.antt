-- ===== src/FileIo/Get.antt =====
-- `Get`, `Check` and `Delete` of AnnService/inc/Core/SPANN/ExtraFileController.h.
use mathlib.Core.Option.{some_inj}
use sptag.Base.{
  if◌then◌else◌, lt→ltb, get_elem?-inside, ℕ, ◌+◌, ◌≡◌, refl, ap, sym, ◌∙◌, ◌⊎◌, inl, inr, Bool,
  true, false, not, ◌&&◌, ◌||◌, List, none, some, length, get_elem?, set, take, ltb, leb, ==_refl,
  arith, Bool-cases, Option-cases, all_below,
}
use sptag.Base.Sums.{every-set}
use sptag.Wire.{Bytes}
use sptag.Labels.{count, success, fail, key_over_flow, key_not_found}
use sptag.BlockPool.{Device}
use sptag.BlockPool.Valid.{lose-IsValid}
use sptag.BlockPool.Release.{release_blocks-Released}
use sptag.FileIo.{
  unmapped, unwritten, posting, FileIo, block_count, read_pages, read_blocks, get, delete,
}
use sptag.FileIo.Valid.{
  entry_blocks, held, held-set, sound, entry_value, value_at, value_of, value_of-set, IsValid,
}
use sptag.FileIo.Effect.{Effect, is_success, get_elem?-below}
use sptag.FileIo.Put.{refused-Effect, sound-at}
use sptag.Dataset.Rows.{take-all}

-- the blocks of a sound posting are those that its size wants
pub sound-posting :
    (pages : ℕ → Bytes) (size : ℕ) (bs : List ℕ)
    → sound pages (posting size bs) ≡ true
    → (length bs ≡ block_count size)
      × (take (block_count size) bs ≡ bs)
      × (length (read_pages pages bs size) ≡ size)
unfolding sound
sound-posting pages size bs h =
    let wide : length bs ≡ block_count size = ground (arith, h) in
    (wide, take-all bs (block_count size) (omega (arith, wide)), ground (arith, h))

-- Blocks are read as they stand, or not at all.
pub read_blocks-is :
    (device : Device) (pages : ℕ → Bytes) (size : ℕ) (bs : List ℕ) (value : Bytes)
    → read_blocks device pages size bs ≡ some value
    → read_pages pages (take (block_count size) bs) size ≡ value
unfolding read_blocks
read_blocks-is device pages size bs value h =
    elim (Bool-cases
      (ltb device.requests (block_count size) || not (all_below (block_count size) device.reads))) [
        | inl broken ↦ absurd (let never = simp broken at h in cc)
        | inr whole ↦ let read = simp whole at h in some_inj.0 read
      ]

unfoldable pub completes : Device → ℕ → Bool
completes device n = leb n device.requests && all_below n device.reads

pub read_blocks-none :
    (device : Device) (pages : ℕ → Bytes) (size : ℕ) (bs : List ℕ)
    → read_blocks device pages size bs ≡ none
    → completes device (block_count size) ≡ false
unfolding read_blocks completes
read_blocks-none device pages size bs h =
    elim (Bool-cases
      (ltb device.requests (block_count size) || not (all_below (block_count size) device.reads))) [
        | inl broken ↦ ground (arith, broken)
        | inr whole ↦ absurd (let never = simp whole at h in cc)
      ]

get-past :
    (device : Device) (io : FileIo) (key : ℕ)
    → get_elem? io.mapping key ≡ none
    → get device io key ≡ (key_over_flow, none)
unfolding get
get-past device io key past = rw (past, get) refl

get-unmapped :
    (device : Device) (io : FileIo) (key : ℕ)
    → get_elem? io.mapping key ≡ some unmapped
    → get device io key ≡ (key_not_found, none)
unfolding get
get-unmapped device io key found = rw (found, get) refl

get_elem?-outside {ℓ} :
    {A : Type ℓ} (xs : List A) (i : ℕ) → get_elem? xs i ≡ none → ltb i (length xs) ≡ false
get_elem?-outside xs i past = elim (Bool-cases (ltb i (length xs))) [
  | inr outside ↦ outside
  | inl inside ↦
      let (x, found) = get_elem?-inside xs i (ground (arith, inside)) in
      absurd (let never = sym past ∙ found in cc)
]

get-posting :
    (device : Device) (io : FileIo) (key size : ℕ) (bs : List ℕ)
    → get_elem? io.mapping key ≡ some (posting size bs)
    → get device io key ≡ (
        if completes device (block_count size)
        then (success, some (read_pages io.pages (take (block_count size) bs) size))
        else (fail, none))
unfolding get read_blocks completes
get-posting device io key size bs found =
    elim (Bool-cases
      (ltb device.requests (block_count size) || not (all_below (block_count size) device.reads))) [
        | inl broken ↦
            let fails : completes device (block_count size) ≡ false = ground (arith, broken) in
            rw (found, get, broken, fails) refl
        | inr whole ↦
            let reads : completes device (block_count size) ≡ true = ground (arith, whole) in
            rw (found, get, whole, reads) refl
      ]

-- On a valid posting file Get of a key with a value returns Success with that value if the reads
-- of its blocks complete, and Fail with none if they do not; without a value it returns none,
-- with Key_NotFound for a key inside the mapping and Key_OverFlow for one past its end.
pub get-value :
    (device : Device) (io : FileIo) (key : ℕ)
    → IsValid io
    → ((value : Bytes) × (value_of io key ≡ some value)
        × (get device io key ≡ (
            if completes device (block_count (length value))
            then (success, some value)
            else (fail, none))))
      ⊎ ((value_of io key ≡ none)
          × (get device io key
              ≡ ((if ltb key (length io.mapping) then key_not_found else key_over_flow), none)))
unfolding value_of value_at entry_value sound
get-value device io key v = elim (Option-cases (get_elem? io.mapping key)) [
  | inl past ↦
      let run = get-past device io key past in
      let outside : ltb key (length io.mapping) ≡ false = get_elem?-outside io.mapping key past in
      inr (rw past refl, rw (run, outside) refl)
  | inr (unmapped, found) ↦
      let run = get-unmapped device io key found in
      let inside : ltb key (length io.mapping) ≡ true =
        lt→ltb key (length io.mapping) (get_elem?-below io.mapping key unmapped found) in
      inr (rw found refl, rw (run, inside) refl)
  | inr (unwritten, found) ↦ absurd (let never = sound-at io key unwritten v found in cc)
  | inr (posting size bs, found) ↦
      let (wide, whole, long) =
        sound-posting io.pages size bs (sound-at io key (posting size bs) v found) in
      inl (
        read_pages io.pages bs size,
        rw found refl,
        get-posting device io key size bs found ∙ rw (whole, long) refl,
      )
]

-- a key with a value
abbrev pub SomeValue : FileIo → ℕ → Type 0
SomeValue io key = (old : Bytes) × (value_of io key ≡ some old)

pub past-none : (io : FileIo) (key : ℕ) → get_elem? io.mapping key ≡ none → SomeValue io key → ⊥
unfolding value_of value_at
past-none io key past (old, h) = let never = simp past at h in cc

pub unmapped-none :
    (io : FileIo) (key : ℕ) → get_elem? io.mapping key ≡ some unmapped → SomeValue io key → ⊥
unfolding value_of value_at entry_value
unmapped-none io key found (old, h) = let never = simp found at h in cc

-- Delete of a key.
pub delete-Effect :
    (io : FileIo) (key : ℕ) → IsValid io → Effect io key (SomeValue io key) none (delete io key)
unfolding delete is_success entry_blocks sound entry_value count
delete-Effect io key v = elim (Option-cases (get_elem? io.mapping key)) [
  | inl past ↦
      rw (past, delete) (refused-Effect io key none key_over_flow v refl (past-none io key past))
  | inr (unmapped, found) ↦
      rw (found, delete)
        (refused-Effect io key none key_not_found v refl (unmapped-none io key found))
  | inr (unwritten, found) ↦ absurd (let never = sound-at io key unwritten v found in cc)
  | inr (posting size bs, found) ↦
      let (wide, whole, long) =
        sound-posting io.pages size bs (sound-at io key (posting size bs) v found) in
      let rest = set io.mapping key unmapped in
      let back = release_blocks-Released bs io.controller (held rest) (
        lose-IsValid v.pool
          (λ b. omega (arith, held-set io.mapping key (posting size bs) unmapped b found))) in
      let given = back.back in
      let total = given.total in
      let inside = get_elem?-below io.mapping key (posting size bs) found in
      let values = λ (k : ℕ).
        value_of-set io io.pages back.after key unmapped k (io.buffer + 1) inside
          (λ b more. refl) in
      rw (found, delete, whole, back.ran)
        (record {
          code = success;
          after = record io { controller = back.after; buffer = io.buffer + 1; mapping = rest };
          ran = refl;
          valid = record {
            pool = given.valid;
            entries = every-set (sound io.pages) io.mapping key unmapped v.entries refl;
            spare = omega arith;
            limit = v.limit;
          };
          keeps = record {
            limit = refl;
            flag = given.flag;
            total = omega (arith, total);
            safe = λ later b low none_free. (refl, ap (count b) (given.waiting later) ∙ none_free);
          };
          ready = λ _. refl;
          others = λ k other. values k ∙ rw other refl;
          here = values key ∙ rw (==_refl key) refl;
        })
]
