-- ===== src/FileIo/LastPage.antt =====
-- A posting of AnnService/inc/Core/SPANN/ExtraFileController.h whose last page is not full.
use sptag.Base.{
  ℕ, ◌+◌, ◌-◌, ◌*◌, ◌/◌, ◌%◌, ◌≤◌, ◌<◌, ◌≡◌, refl, ap, sym, ◌∙◌, min, true, false, List, [], ◌∷◌,
  ◌++◌, some, length, length-append, length-take, length-drop, take-append-drop, take, drop, ◌==◌,
  arith,
}
use sptag.Wire.{Bytes}
use sptag.BlockPool.{Device, page_size}
use sptag.FileIo.{posting, block_count, read_pages, read_blocks}
use sptag.FileIo.Pages.{read_pages-append}
use sptag.FileIo.Valid.{sound}
use sptag.FileIo.Get.{sound-posting, read_blocks-is}
use sptag.Dataset.Rows.{take-all}

read_pages-bound :
    (pages : ℕ → Bytes) (bs : List ℕ) (size : ℕ) → length (read_pages pages bs size) ≤ size
unfolding read_pages
read_pages-bound pages [] size = omega arith
read_pages-bound pages (b ∷ bs) size = omega (
  arith,
  length-append (take (min size page_size) (pages b)) (read_pages pages bs (size - page_size)),
  length-take (min size page_size) (pages b),
  read_pages-bound pages bs (size - page_size),
)

-- the full pages and the rest, each as long as its size
parts-length :
    (pages : ℕ → Bytes) (bs cs : List ℕ) (size : ℕ)
    → length (read_pages pages (bs ++ cs) (length bs * page_size + size))
      ≡ length bs * page_size + size
    → (length (read_pages pages bs (length bs * page_size)) ≡ length bs * page_size)
      × (length (read_pages pages cs size) ≡ size)
parts-length pages bs cs size long =
    let sum = sym (ap length (read_pages-append pages bs cs size)) ∙ long in
    let both =
      length-append (read_pages pages bs (length bs * page_size)) (read_pages pages cs size) in
    let first = read_pages-bound pages bs (length bs * page_size) in
    let second = read_pages-bound pages cs size in
    (omega (arith, sum, both, first, second), omega (arith, sum, both, first, second))

pub kept-length :
    (pages : ℕ → Bytes) (size : ℕ) (bs : List ℕ)
    → sound pages (posting size bs) ≡ true
    → length (take (size / page_size) bs) ≡ size / page_size
unfolding block_count
kept-length pages size bs h =
    let (wide, whole, long) = sound-posting pages size bs h in
    omega (arith, length-take (size / page_size) bs, wide)

-- The full pages and the last one, and the bytes `before` of the last one.
pub record LastPage (pages : ℕ → Bytes) (size : ℕ) (kept last bs : List ℕ) (before : Bytes)
    : Type 0 where
  pub split : kept ++ last ≡ bs
  pub full : length (read_pages pages kept (length kept * page_size)) ≡ length kept * page_size
  pub short : length before ≡ size % page_size
  pub joined : read_pages pages kept (length kept * page_size) ++ before ≡ read_pages pages bs size

pub read_blocks-LastPage :
    (device : Device) (pages : ℕ → Bytes) (size : ℕ) (bs : List ℕ) (before : Bytes)
    → sound pages (posting size bs) ≡ true
    → (size % page_size == 0) ≡ false
    → read_blocks device pages (size % page_size) (take 1 (drop (size / page_size) bs))
      ≡ some before
    → LastPage pages size
        (take (size / page_size) bs)
        (take 1 (drop (size / page_size) bs))
        bs
        before
unfolding block_count
read_blocks-LastPage device pages size bs before h partial run =
    let (wide, whole, long) = sound-posting pages size bs h in
    let kept : List ℕ = take (size / page_size) bs in
    let last : List ℕ = take 1 (drop (size / page_size) bs) in
    let some_bytes : 0 < size % page_size = ground (arith, partial) in
    let rest = length-drop (size / page_size) bs in
    let all : last ≡ drop (size / page_size) bs =
      take-all (drop (size / page_size) bs) 1 (omega (arith, wide, some_bytes, rest)) in
    let one : length last ≡ 1 = omega (arith, ap length all, wide, some_bytes, rest) in
    let split : kept ++ last ≡ bs =
      ap (λ x. kept ++ x) all ∙ take-append-drop (size / page_size) bs in
    let size_is : length kept * page_size + size % page_size ≡ size =
      omega (arith, kept-length pages size bs h) in
    let read : read_pages pages last (size % page_size) ≡ before =
      ap (λ x. read_pages pages x (size % page_size))
        (sym (take-all last (block_count (size % page_size)) (omega (arith, one, some_bytes))))
      ∙ read_blocks-is device pages (size % page_size) last before run in
    let (full, tail) = parts-length pages kept last (size % page_size) (rw (split, size_is) long) in
    record {
      split = split;
      full = full;
      short = ap length (sym read) ∙ tail;
      joined =
          ap (λ x. read_pages pages kept (length kept * page_size) ++ x) (sym read)
          ∙ sym (read_pages-append pages kept last (size % page_size))
          ∙ rw (split, size_is) refl;
    }
