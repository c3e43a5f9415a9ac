-- ===== src/FileIo/Unwritten.antt =====
-- `Put` of AnnService/inc/Core/SPANN/ExtraFileController.h for a key that `Load` has given an array.
use mathlib.Core.List.{append-nil}
use sptag.Base.{
  ℕ, zero, suc, ◌+◌, ◌-◌, ◌≤◌, ◌<◌, ◌≡◌, refl, ap, sym, ◌∙◌, true, false, List, ◌++◌, some, length,
  replicate, get_elem?, get_elem?-set, set, take, ltb, leb, ==_refl, arith, all_below, ◌>>=◌,
}
use sptag.Base.Sums.{every}
use sptag.Wire.{Bytes}
use sptag.Labels.{disk_io_fail, block_id_error}
use sptag.BlockPool.{Device, BlockController, get_blocks, release_blocks}
use sptag.BlockPool.Valid as Blocks
use sptag.BlockPool.Take.{Got-IsValid}
use sptag.BlockPool.Expand.{get_blocks-Got}
use sptag.BlockPool.Release.{release_blocks-Released}
use sptag.FileIo.{
  unmapped, unwritten, posting, FileIo, unset_address, block_count, write_pages, write_blocks,
  write_posting, put_entry, extend, put, check,
}
use sptag.FileIo.Valid.{held}
use sptag.FileIo.Effect.{write_blocks-some, get_elem?-below}

unset-past :
    (total n : ℕ)
    → total ≤ unset_address
    → 0 < n
    → every (λ b. ltb b total) (take n (replicate n unset_address)) ≡ false
unfolding every
unset-past total zero h more = absurd (omega (arith, more))
unset-past total (suc n) h more = ground (arith, h)

extend-inside : (io : FileIo) (key : ℕ) → key < length io.mapping → extend io key ≡ io
unfolding extend
extend-inside io key inside =
    let none_new : key + 1 - length io.mapping ≡ 0 = omega (arith, inside) in
    ap (λ m. record io { mapping = m })
      (ap (λ n. io.mapping ++ replicate n unmapped) none_new ∙ append-nil io.mapping)

block_limit-le :
    (io : FileIo) (device : Device) (value : Bytes)
    → leb io.block_limit (block_count (length value)) ≡ false
    → io.block_limit ≤ suc device.requests
    → block_count (length value) ≤ device.requests
block_limit-le io device value fits enough = ground (arith, fits, enough)

blocks-some : (value : Bytes) → 0 < length value → 0 < block_count (length value)
unfolding block_count
blocks-some value more = omega (arith, more)

put-fails :
    (device : Device) (io : FileIo) (key : ℕ) (value : Bytes) (bs : List ℕ) (c d : BlockController)
    (pages : ℕ → Bytes)
    → get_elem? io.mapping key ≡ some unwritten
    → leb io.block_limit (block_count (length value)) ≡ false
    → get_blocks device io.controller (block_count (length value)) ≡ some (true, bs, c)
    → write_blocks device io.pages bs value ≡ some (false, pages)
    → release_blocks bs c ≡ some d
    → put device io key value
      ≡ some (
        disk_io_fail,
        record io {
          controller = d;
          pages = pages;
          mapping =
              set io.mapping key
                (posting (length value) (replicate (block_count (length value)) unset_address));
        },
      )
unfolding put put_entry write_posting
put-fails device io key value bs c d pages found fits got run back =
    let open_put : put device io key value ≡ (
        get_elem? (extend io key).mapping key
        >>= put_entry device (extend io key) key (block_count (length value)) value) =
      rw fits refl in
    open_put
    ∙ ap
        (λ (w : FileIo).
          get_elem? w.mapping key >>= put_entry device w key (block_count (length value)) value)
        (extend-inside io key (get_elem?-below io.mapping key unwritten found))
    ∙ rw (found, put_entry, got, run, back) refl

-- On a valid pool, with a request for each block of a posting, Put of a value that is not empty,
-- of fewer blocks than the limit, on a key whose array Load has allocated without a posting,
-- where the blocks are taken and a write fails, returns DiskIOFail and leaves a posting of the
-- new size that Check refuses.
pub put-unwritten :
    (device : Device) (io : FileIo) (key : ℕ) (value : Bytes)
    → Blocks.IsValid io.controller (held io.mapping)
    → get_elem? io.mapping key ≡ some unwritten
    → 0 < length value
    → leb io.block_limit (block_count (length value)) ≡ false
    → io.block_limit ≤ suc device.requests
    → all_below (block_count (length value)) device.writes ≡ false
    → (bs : List ℕ) (c : BlockController)
    → get_blocks device io.controller (block_count (length value)) ≡ some (true, bs, c)
    → (after : FileIo) × (put device io key value ≡ some (disk_io_fail, after))
      × (check after key (length value) ≡ block_id_error)
unfolding check
put-unwritten device io key value v found some_bytes fits enough fails bs c got =
    let n = block_count (length value) in
    let g = get_blocks-Got device io.controller (held io.mapping) n v in
    let done : g.done ≡ true = let same = sym g.ran ∙ got in cc in
    let wide = g.all done in
    let whole : all_below (length g.blocks) device.writes ≡ false =
      ap (λ m. all_below m device.writes) wide ∙ fails in
    let inside = get_elem?-below io.mapping key unwritten found in
    let run =
      write_blocks-some device io.pages g.blocks value
        (omega (arith, wide, block_limit-le io device value fits enough)) in
    let pool = Got-IsValid v g in
    let back = release_blocks-Released g.blocks g.after (held io.mapping) pool in
    let given = back.back in
    let top = given.valid in
    let p = top.pool in
    let labels = p.labels in
    let stored = posting (length value) (replicate n unset_address) in
    let here : get_elem? (set io.mapping key stored) key ≡ some stored =
      get_elem?-set io.mapping key key stored inside ∙ rw (==_refl key) refl in
    let past =
      unset-past back.after.total_allocated_blocks n (omega (arith, p.cells, labels.fits))
        (blocks-some value some_bytes) in
    (
      record io {
        controller = back.after;
        pages = write_pages device 0 g.blocks value io.pages;
        mapping = set io.mapping key stored;
      },
      put-fails device io key value g.blocks g.after back.after
          (write_pages device 0 g.blocks value io.pages) found fits
          (g.ran ∙ ap (λ x. some (x, g.blocks, g.after)) done)
          (run ∙ ap (λ x. some (x, write_pages device 0 g.blocks value io.pages)) whole) back.ran,
      rw (here, check, ==_refl (length value), past) refl,
    )
