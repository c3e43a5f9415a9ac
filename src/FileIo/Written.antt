-- ===== src/FileIo/Written.antt =====
-- The part that `Put` and `Merge` of AnnService/inc/Core/SPANN/ExtraFileController.h share.
use sptag.Base.{
  ℕ, ◌+◌, ◌*◌, ◌≤◌, ◌<◌, ◌≡◌, refl, ap, sym, ◌∙◌, inl, inr, true, false, List, ◌++◌, some, length,
  length-append, get_elem?, set, ==_refl, arith, Bool-cases, all_below,
}
use sptag.Base.Sums.{every-set}
use sptag.Wire.{Bytes}
use sptag.Labels.{count, count-append, success, disk_io_fail}
use sptag.BlockPool.{Device, BlockController, page_size, get_blocks, release_blocks}
use sptag.BlockPool.Valid as Blocks
use sptag.FileIo.{Entry, posting, FileIo, block_count, read_pages, write_pages, write_posting}
use sptag.FileIo.Pages.{
  write_pages-other, read_pages-same, read_pages-write_pages, read_pages-append, all_below-at,
  all_below-false,
}
use sptag.FileIo.Valid.{
  entry_blocks, held, sound, entry_value, value_of, IsValid, held-set, held-le, sound-same,
  value_of-set, value_of-pages,
}
use sptag.BlockPool.Valid.{lose-IsValid, EnoughBlocks}
use sptag.BlockPool.Take.{Got, Got-IsValid}
use sptag.BlockPool.Expand.{get_blocks-Got}
use sptag.BlockPool.Release.{GivenBack, Released, release_blocks-Released}
use sptag.FileIo.Effect.{Keeps, Effect, is_success, write_blocks-some, get_elem?-below}

module _ (device : Device) (io : FileIo) (key n : ℕ) (value : Bytes) (new_size : ℕ)
    (kept old : List ℕ) (e : Entry) (v : IsValid io) (found : get_elem? io.mapping key ≡ some e)
    (parts : (b : ℕ) → count b (entry_blocks e) ≡ count b kept + count b old)
    (enough : n ≤ device.requests) (fits : length value ≤ n * page_size)
    (counted : length kept + n ≡ block_count new_size)
    (size : new_size ≡ length kept * page_size + length value)
    (full : length (read_pages io.pages kept (length kept * page_size))
      ≡ length kept * page_size) where
  abbrev WriteReady : Type 0
  WriteReady = EnoughBlocks device io.controller n × ((i : ℕ) → device.writes i ≡ true)

  abbrev new_value : Bytes
  new_value = read_pages io.pages kept (length kept * page_size) ++ value

  -- after the new blocks are taken
  module _
      (got : Got n io.controller
        (held io.mapping)
        (EnoughBlocks device io.controller n)
        (get_blocks device io.controller n))
      (done : got.done ≡ true) where
    abbrev pages' : ℕ → Bytes
    pages' = write_pages device 0 got.blocks value io.pages

    pool : Blocks.IsValid got.after (λ b. held io.mapping b + count b got.blocks)
    pool = Got-IsValid v.pool got

    agree : (b : ℕ) → 0 < held io.mapping b → pages' b ≡ io.pages b
    agree b more =
        let p = pool.pool in
        write_pages-other device 0 got.blocks value io.pages b (ground (arith, p.once b, more))

    keeps :
        (d : BlockController) (mapping : List Entry) {left : ℕ → ℕ}
        → GivenBack got.after left d
        → Keeps io (record io { controller = d; pages = pages'; mapping = mapping })
    keeps d mapping back =
        let rest = got.rest in
        let flag = back.flag ∙ rest.flag in
        let total = got.total in
        let same = back.total in
        record {
          limit = refl;
          flag = flag;
          total = omega (arith, total, same);
          safe = λ later b low none_free.
              let older = got.older b low in
              (
                write_pages-other device 0 got.blocks value io.pages b
                    (omega (arith, older, none_free)),
                ap (count b) (back.waiting (rest.flag ∙ later)) ∙ omega (arith, older, none_free),
              );
        }

    reads :
        all_below (length got.blocks) device.writes ≡ true
        → read_pages pages' (kept ++ got.blocks) new_size ≡ new_value
    reads all =
        let wide = got.all done in
        let p = pool.pool in
        let own : read_pages pages' got.blocks (length value) ≡ value =
          read_pages-write_pages device 0 got.blocks value io.pages (λ b. ground (arith, p.once b))
            (λ j low high.
              all_below-at (length got.blocks) device.writes all j low (omega (arith, high)))
            (rw wide fits) in
        let before : read_pages pages' kept (length kept * page_size)
            ≡ read_pages io.pages kept (length kept * page_size) =
          read_pages-same io.pages pages' kept (length kept * page_size)
            (λ b more. agree b (omega (arith, more, parts b, held-le io.mapping key e b found))) in
        ap (read_pages pages' (kept ++ got.blocks)) size
        ∙ read_pages-append pages' kept got.blocks (length value)
        ∙ rw (own, before) refl

    stored : Entry
    stored = posting new_size (kept ++ got.blocks)

    -- what is left is the mapping with the new posting, and the old blocks
    after_write : Blocks.IsValid got.after (λ b. held (set io.mapping key stored) b + count b old)
    unfolding stored entry_blocks
    after_write = lose-IsValid pool (λ b.
        omega (
          arith,
          held-set io.mapping key e stored b found,
          parts b,
          count-append b kept got.blocks,
        ))

    stored-sound : all_below (length got.blocks) device.writes ≡ true → sound pages' stored ≡ true
    unfolding stored sound
    stored-sound all =
        let value_read = reads all in
        let wide = got.all done in
        let long : length (read_pages pages' (kept ++ got.blocks) new_size) ≡ new_size =
          ap length value_read
          ∙ length-append (read_pages io.pages kept (length kept * page_size)) value
          ∙ omega (arith, full, size) in
        let many : length (kept ++ got.blocks) ≡ block_count new_size =
          length-append kept got.blocks ∙ omega (arith, wide, counted) in
        rw (many, long, ==_refl (block_count new_size), ==_refl new_size) refl

    written :
        (all : all_below (length got.blocks) device.writes ≡ true)
        (back : Released old got.after
          (held (set io.mapping key stored))
          (release_blocks old got.after))
        → Effect io key WriteReady (some new_value) (
            some (
              success,
              record io {
                controller = back.after;
                pages = pages';
                mapping = set io.mapping key stored;
              },
            ))
    unfolding stored entry_value is_success
    written all back =
        let left = back.back in
        let inside : key < length io.mapping = get_elem?-below io.mapping key e found in
        let values =
          λ (k : ℕ). value_of-set io pages' back.after key stored k io.buffer inside agree in
        record {
          code = success;
          after = record io {
            controller = back.after;
            pages = pages';
            mapping = set io.mapping key stored;
          };
          ran = refl;
          valid = record {
            pool = left.valid;
            entries =
                every-set (sound pages') io.mapping key stored
                  (sound-same io.pages pages' io.mapping agree v.entries) (stored-sound all);
            spare = v.spare;
            limit = v.limit;
          };
          keeps = keeps back.after (set io.mapping key stored) left;
          ready = λ _. refl;
          others = λ k other. values k ∙ rw other refl;
          here = values key ∙ rw (==_refl key) (ap some (reads all));
        }

    not_written :
        (lost : all_below (length got.blocks) device.writes ≡ false)
        (back : Released got.blocks got.after
          (held io.mapping)
          (release_blocks got.blocks got.after))
        → Effect io key WriteReady
            (some new_value)
            (some (disk_io_fail, record io { controller = back.after; pages = pages' }))
    unfolding is_success
    not_written lost back =
        let left = back.back in
        record {
          code = disk_io_fail;
          after = record io { controller = back.after; pages = pages' };
          ran = refl;
          valid = record {
            pool = left.valid;
            entries = sound-same io.pages pages' io.mapping agree v.entries;
            spare = v.spare;
            limit = v.limit;
          };
          keeps = keeps back.after io.mapping left;
          ready = λ h. absurd (all_below-false (length got.blocks) device.writes lost h.1);
          others = λ k other. value_of-pages io pages' back.after k agree;
          here = value_of-pages io pages' back.after key agree;
        }

  -- too few blocks
  stopped :
      (got : Got n io.controller
        (held io.mapping)
        (EnoughBlocks device io.controller n)
        (get_blocks device io.controller n))
      → got.done ≡ false
      → Effect io key WriteReady
          (some new_value)
          (some (disk_io_fail, record io { controller = got.after }))
  unfolding is_success value_of
  stopped got short =
      let rest = got.rest in
      record {
        code = disk_io_fail;
        after = record io { controller = got.after };
        ran = refl;
        valid = record {
          pool = lose-IsValid (Got-IsValid v.pool got) (λ b. omega arith);
          entries = v.entries;
          spare = v.spare;
          limit = v.limit;
        };
        keeps = record {
          limit = refl;
          flag = rest.flag;
          total = got.total;
          safe = λ later b low none_free. (refl, omega (arith, got.older b low, none_free));
        };
        ready = λ h. absurd (let never = sym short ∙ got.ready h.0 in cc);
        others = λ k other. refl;
        here = refl;
      }

  -- A posting is written, or none of the map changes.
  pub write_posting-Effect :
      Effect io key WriteReady
        (some new_value)
        (write_posting device io key n value new_size kept old io.mapping)
  unfolding write_posting stored
  write_posting-Effect =
      let got = get_blocks-Got device io.controller (held io.mapping) n v.pool in
      elim (Bool-cases got.done) [
        | inr short ↦ rw (got.ran, short) (stopped got short)
        | inl done ↦
            let wide = got.all done in
            let run =
              write_blocks-some device io.pages got.blocks value (omega (arith, wide, enough)) in
            elim (Bool-cases (all_below (length got.blocks) device.writes)) [
              | inl all ↦
                  let back =
                    release_blocks-Released old got.after
                      (held (set io.mapping key (stored got done))) (after_write got done) in
                  rw (got.ran, done, run, all, back.ran) (written got done all back)
              | inr lost ↦
                  let back =
                    release_blocks-Released got.blocks got.after (held io.mapping)
                      (pool got done) in
                  rw (got.ran, done, run, lost, back.ran) (not_written got done lost back)
            ]
      ]
