-- ===== src/FileIo/Appended.antt =====
-- A posting that `Merge` of AnnService/inc/Core/SPANN/ExtraFileController.h appends to.
use mathlib.Core.List.{append_assoc}
use sptag.Base.{
  ℕ, suc, ◌+◌, ◌-◌, ◌*◌, ◌/◌, ◌%◌, ◌≤◌, ◌≡◌, refl, ap, sym, ◌∙◌, inl, inr, true, false, List, [],
  ◌++◌, Option, none, some, length, length-append, take, drop, get_elem?, leb, ◌==◌, arith,
  Bool-cases, Option-cases, subst,
}
use sptag.Wire.{Bytes}
use sptag.Labels.{count, count-append, ErrorCode, disk_io_fail}
use sptag.BlockPool.{Device, page_size}
use sptag.FileIo.{
  posting, FileIo, block_count, read_pages, read_blocks, write_posting, merge_posting,
}
use sptag.FileIo.Pages.{all_below-false}
use sptag.FileIo.Valid.{entry_blocks, sound, IsValid}
use sptag.FileIo.Effect.{Effect, ready-Effect, is_success}
use sptag.FileIo.Written.{write_posting-Effect}
use sptag.FileIo.Put.{refused-Effect, sound-at}
use sptag.BlockPool.Valid.{EnoughBlocks}
use sptag.FileIo.Get.{completes, read_blocks-none, sound-posting}
use sptag.Dataset.Rows.{take-all}
use sptag.FileIo.LastPage.{kept-length, read_blocks-LastPage}

same-Effect :
    {io : FileIo} {key : ℕ} {Ready : Type 0} {new new' : Bytes} {out : Option (ErrorCode × FileIo)}
    → new ≡ new'
    → Effect io key Ready (some new) out
    → Effect io key Ready (some new') out
same-Effect {io} {key} {Ready} {out = out} e = subst (λ x. Effect io key Ready (some x) out) e

module _ (device : Device) (io : FileIo) (key : ℕ) (value : Bytes) (size : ℕ) (bs : List ℕ)
    (v : IsValid io) (enough : io.block_limit ≤ suc device.requests)
    (found : get_elem? io.mapping key ≡ some (posting size bs))
    (fits : leb io.block_limit (block_count (size + length value)) ≡ false) where
  abbrev merged : Bytes
  merged = read_pages io.pages bs size ++ value

  abbrev blocks : ℕ
  blocks = block_count (size + length value) - size / page_size

  abbrev WriteReady : Type 0
  WriteReady = EnoughBlocks device io.controller blocks × ((i : ℕ) → device.writes i ≡ true)

  abbrev kept : List ℕ
  kept = take (size / page_size) bs

  whole : sound io.pages (posting size bs) ≡ true
  whole = sound-at io key (posting size bs) v found

  -- the posting fills its pages
  full-Effect :
      (size % page_size ≡ 0)
      → Effect io key WriteReady (some merged) (
          write_posting device io key
            (block_count (size + length value) - size / page_size)
            value
            (size + length value)
            kept
            []
            io.mapping)
  unfolding entry_blocks count block_count
  full-Effect aligned =
      let (wide, _, long) = sound-posting io.pages size bs whole in
      let all : kept ≡ bs = take-all bs (size / page_size) (omega (arith, wide, aligned)) in
      let count_is = kept-length io.pages size bs whole in
      let size_is : length kept * page_size ≡ size = omega (arith, count_is, aligned) in
      let read : read_pages io.pages kept (length kept * page_size) ≡ read_pages io.pages bs size =
        ap (read_pages io.pages kept) size_is ∙ ap (λ x. read_pages io.pages x size) all in
      same-Effect (ap (λ x. x ++ value) read) (
        write_posting-Effect device io key (block_count (size + length value) - size / page_size)
          value (size + length value) kept [] (posting size bs) v found
          (λ b. ap (count b) (sym all) ∙ omega arith) (ground (arith, fits, enough))
          (omega (arith, aligned)) (omega (arith, count_is)) (omega (arith, size_is))
          (ap length read ∙ long ∙ sym size_is))

  -- the last page is written again
  partial-Effect :
      (before : Bytes)
      → (size % page_size == 0) ≡ false
      → read_blocks device io.pages (size % page_size) (take 1 (drop (size / page_size) bs))
        ≡ some before
      → Effect io key WriteReady (some merged) (
          write_posting device io key
            (block_count (size + length value) - size / page_size)
            (before ++ value)
            (size + length value)
            kept
            (take 1 (drop (size / page_size) bs))
            io.mapping)
  unfolding entry_blocks block_count
  partial-Effect before partial run =
      let last : List ℕ = take 1 (drop (size / page_size) bs) in
      let page = read_blocks-LastPage device io.pages size bs before whole partial run in
      let count_is = kept-length io.pages size bs whole in
      let short = page.short in
      let long = length-append before value in
      let full : Bytes = read_pages io.pages kept (length kept * page_size) in
      same-Effect (sym (append_assoc full before value) ∙ ap (λ x. x ++ value) page.joined) (
        write_posting-Effect device io key (block_count (size + length value) - size / page_size)
          (before ++ value) (size + length value) kept last (posting size bs) v found
          (λ b. ap (count b) (sym page.split) ∙ count-append b kept last)
          (ground (arith, fits, enough)) (omega (arith, long, short)) (omega (arith, count_is))
          (omega (arith, count_is, long, short)) page.full)

  -- the last page can be read
  broken-none :
      (size % page_size == 0) ≡ false
      → read_blocks device io.pages (size % page_size) (take 1 (drop (size / page_size) bs)) ≡ none
      → ((i : ℕ) → device.reads i ≡ true)
      → ⊥
  unfolding completes block_count
  broken-none partial broken all =
      let fails =
        read_blocks-none device io.pages (size % page_size) (take 1 (drop (size / page_size) bs))
          broken in
      let room : leb (block_count (size % page_size)) device.requests ≡ true =
        ground (arith, partial, fits, enough) in
      all_below-false (block_count (size % page_size)) device.reads (ground (arith, fails, room))
        all

  abbrev Ready : Type 0
  Ready = WriteReady × ((i : ℕ) → device.reads i ≡ true)

  pub merge_posting-Effect :
      Effect io key Ready (some merged) (merge_posting device io key value size bs)
  unfolding merge_posting is_success
  merge_posting-Effect =
      let spare = v.spare in
      let filled : (io.buffer == 0) ≡ false = ground (arith, spare) in
      elim (Bool-cases (size % page_size == 0)) [
        | inl aligned ↦
            rw (fits, aligned) (ready-Effect (λ r. r.0) (full-Effect (ground (arith, aligned))))
        | inr partial ↦
            elim (Option-cases (
              read_blocks device io.pages (size % page_size)
                (take 1 (drop (size / page_size) bs)))) [
                  | inl broken ↦
                      rw (fits, partial, broken)
                        (refused-Effect io key (some merged) disk_io_fail v refl
                          (λ r. broken-none partial broken r.1))
                  | inr (before, run) ↦
                      rw (fits, partial, run, filled)
                        (ready-Effect (λ r. r.0) (partial-Effect before partial run))
                ]
      ]
