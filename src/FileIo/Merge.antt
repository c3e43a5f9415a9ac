-- ===== src/FileIo/Merge.antt =====
-- `Merge` of AnnService/inc/Core/SPANN/ExtraFileController.h.
use mathlib.Core.Option as Option
use sptag.Base.{
  ℕ, suc, ◌+◌, ◌-◌, ◌/◌, ◌≤◌, ◌<◌, ◌≡◌, refl, ap, sym, ◌∙◌, inl, inr, true, false, List, ◌++◌, none,
  some, length, get_elem?, leb, ◌==◌, arith, Bool-cases, Option-cases, subst,
}
use sptag.Wire.{Bytes}
use sptag.Labels.{success, posting_over_flow, key_over_flow, key_not_found}
use sptag.BlockPool.{Device, page_size}
use sptag.FileIo.{
  unmapped, unwritten, posting, FileIo, block_count, read_pages, merge_posting, merge,
}
use sptag.FileIo.Valid.{sound, entry_value, value_at, value_of, IsValid}
use sptag.FileIo.Effect.{Effect, ready-Effect, Effect-success, is_success}
use sptag.FileIo.Put.{refused-Effect, sound-at}
use sptag.BlockPool.Valid.{EnoughBlocks}
use mathlib.Core.Option.{some_inj}
use sptag.FileIo.Get.{past-none, unmapped-none, sound-posting}
use sptag.FileIo.Appended.{merge_posting-Effect}

-- What is enough for `Merge` to succeed.
pub record MergeReady (device : Device) (io : FileIo) (key : ℕ) (value : Bytes) : Type 0 where
  pub old : Bytes
  pub found : value_of io key ≡ some old
  pub short : block_count (length old + length value) < io.block_limit
  pub blocks :
      EnoughBlocks device io.controller
        (block_count (length old + length value) - length old / page_size)
  pub reads : (i : ℕ) → device.reads i ≡ true
  pub writes : (i : ℕ) → device.writes i ≡ true

old-size :
    (device : Device) (io : FileIo) (key : ℕ) (value : Bytes) (size : ℕ) (bs : List ℕ)
    → get_elem? io.mapping key ≡ some (posting size bs)
    → length (read_pages io.pages bs size) ≡ size
    → (r : MergeReady device io key value) → length r.old ≡ size
unfolding value_of value_at entry_value
old-size device io key value size bs found long r =
    let is = simp found at r.found in sym (ap length (some_inj.0 is)) ∙ long

-- Merge appends to the value of a key.
pub merge-Effect :
    (device : Device) (io : FileIo) (key : ℕ) (value : Bytes)
    → IsValid io
    → io.block_limit ≤ suc device.requests
    → Effect io key
        (MergeReady device io key value)
        (Option.map (λ old. old ++ value) (value_of io key))
        (merge device io key value)
unfolding merge merge_posting is_success value_of value_at entry_value sound
merge-Effect device io key value v enough = elim (Option-cases (get_elem? io.mapping key)) [
  | inl past ↦
      rw (past, merge)
        (refused-Effect io key none key_over_flow v refl
          (λ r. past-none io key past (r.old, r.found)))
  | inr (unmapped, found) ↦
      rw (found, merge)
        (refused-Effect io key none key_not_found v refl
          (λ r. unmapped-none io key found (r.old, r.found)))
  | inr (unwritten, found) ↦ absurd (let never = sound-at io key unwritten v found in cc)
  | inr (posting size bs, found) ↦
      let (wide, whole, long) =
        sound-posting io.pages size bs (sound-at io key (posting size bs) v found) in
      elim (Bool-cases (leb io.block_limit (block_count (size + length value)))) [
        | inl too_long ↦
            rw (found, merge, too_long)
              (refused-Effect io key (some (read_pages io.pages bs size ++ value)) posting_over_flow
                v refl
                (λ r.
                  let size_is = old-size device io key value size bs found long r in
                  let short = r.short in
                  let same = ap (λ m. block_count (m + length value)) size_is in
                  ground (arith, too_long, short, same)))
        | inr fits ↦
            rw (found, merge)
              (ready-Effect
                (λ r.
                  let size_is = old-size device io key value size bs found long r in
                  (
                    (
                      subst
                          (λ m.
                            EnoughBlocks device io.controller
                              (block_count (m + length value) - m / page_size))
                          size_is r.blocks,
                      r.writes,
                    ),
                    r.reads,
                  ))
                (merge_posting-Effect device io key value size bs v enough found fits))
      ]
]

-- Merge on a key with a value, in fewer blocks than the limit with what is appended, succeeds on
-- a valid posting file, with a request for each block of a posting, if the file can grow, there
-- are free blocks or room for more, and reads and writes complete: the value is the old one with
-- the new bytes behind it, and no other key has another one.
pub merge-succeeds :
    (device : Device) (io : FileIo) (key : ℕ) (value : Bytes)
    → IsValid io
    → io.block_limit ≤ suc device.requests
    → MergeReady device io key value
    → (after : FileIo) × (merge device io key value ≡ some (success, after))
      × IsValid after
      × (value_of after key ≡ Option.map (λ old. old ++ value) (value_of io key))
      × ((k : ℕ) → (key == k) ≡ false → value_of after k ≡ value_of io k)
merge-succeeds device io key value v enough ready =
    Effect-success (merge-Effect device io key value v enough) ready
