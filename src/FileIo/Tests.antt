-- ===== src/FileIo/Tests.antt =====
-- Postings that are written, changed, lost and loaded.
use mathlib.Core.Option as Option
use mathlib.Core.Option.{some_inj}
use sptag.Base.{
  if◌then◌else◌, ltb, map, ℕ, ◌≡◌, ◌==◌, ◌⊎◌, refl, sym, ◌∙◌, true, false, List, [], ◌∷◌, ◌++◌,
  some, none, arith, subst, length, if◌then◌else◌,
}
use sptag.Base.Sums.{total, every}
use sptag.Wire.{Bytes}
use sptag.Labels.{
  key_not_found, key_over_flow, count, past_end, at, put, ErrorCode, success, fail, disk_io_fail,
  block_id_error,
}
use sptag.Labels.LabelSet.{reset, invalid_id}
use sptag.BlockPool.{
  Device, BlockController, get_blocks, needs_expansion, take_blocks, try_pop, release_blocks,
  checkpoint, pool_file, load_pool,
}
use sptag.BlockPool.Valid as Blocks
use sptag.BlockPool.Sample.{
  ready_device, labels, controller, fresh, fresh-IsFresh, four_free, four_free-IsValid,
  four_free-EnoughBlocks,
}
use sptag.FileIo.{
  Entry, unmapped, unwritten, posting, FileIo, block_count, extend, put_entry, write_posting,
  write_blocks, write_pages, write_page, merge, get, check, reload, checkpoint_io,
}
use sptag.FileIo as Io
use sptag.FileIo.Valid.{IsValid, held, entry_blocks, value_of, value_at, entry_value}
use sptag.FileIo.Put.{PutReady, put-succeeds}
use sptag.FileIo.Get.{completes, get-value}
use sptag.FileIo.Merge.{MergeReady, merge-succeeds}
use sptag.FileIo.Calls.{Call, calls, suffices, Ran, calls-Ran}
use sptag.FileIo.Recovery.{load-recovers}
use sptag.FileIo.Unwritten.{put-unwritten}
use sptag.FileIo.Several.{multi_get, value_or_empty}
use sptag.FileIo.Several.Values.{multi_get-values, multi_get-past}

abbrev postings : List Entry → BlockController → (ℕ → Bytes) → FileIo
postings mapping c pages = record {
  block_limit = 4;
  mapping = mapping;
  buffer = 1;
  buffer_limit = 1;
  controller = c;
  pages = pages;
}

abbrev no_postings : FileIo
no_postings = postings [] four_free (λ a. [])

no_postings-IsValid : IsValid no_postings
unfolding held total every
no_postings-IsValid = record {
  pool = four_free-IsValid;
  entries = refl;
  spare = omega arith;
  limit = omega arith;
}

three_bytes-PutReady : PutReady ready_device no_postings (7 ∷ 8 ∷ 9 ∷ [])
unfolding block_count
three_bytes-PutReady = record {
  short = omega arith;
  blocks = four_free-EnoughBlocks;
  writes = λ i. refl;
}

put-succeeds_example :
    (after : FileIo) × (Io.put ready_device no_postings 1 (7 ∷ 8 ∷ 9 ∷ []) ≡ some (success, after))
    × IsValid after
    × (value_of after 1 ≡ some (7 ∷ 8 ∷ 9 ∷ []))
    × ((k : ℕ) → (1 == k) ≡ false → value_of after k ≡ value_of no_postings k)
put-succeeds_example =
    put-succeeds ready_device no_postings 1 (7 ∷ 8 ∷ 9 ∷ []) no_postings-IsValid (omega arith)
      three_bytes-PutReady

abbrev three_free : BlockController
three_free = controller (1 ∷ 2 ∷ 3 ∷ []) [] (labels 3 (255 ∷ 1 ∷ 1 ∷ 1 ∷ [])) 4

abbrev one_posting : FileIo
one_posting =
    postings (unmapped ∷ posting 3 (0 ∷ []) ∷ []) three_free
      (λ a. if a == 0 then 7 ∷ 8 ∷ 9 ∷ [] else [])

put_three : Io.put ready_device no_postings 1 (7 ∷ 8 ∷ 9 ∷ []) ≡ some (success, one_posting)
unfolding Io.put put_entry extend write_posting write_blocks write_pages write_page block_count
    get_blocks needs_expansion take_blocks try_pop release_blocks reset invalid_id past_end at put
put_three = refl

one_posting-IsValid : IsValid one_posting
one_posting-IsValid =
    let (after, run, valid, here, others) =
      put-succeeds ready_device no_postings 1 (7 ∷ 8 ∷ 9 ∷ []) no_postings-IsValid (omega arith)
        three_bytes-PutReady in
    let same = sym run ∙ put_three in let is : after ≡ one_posting = cc in subst IsValid is valid

-- a device on which reads and writes fail
abbrev broken_device : Device
broken_device = record ready_device { reads = λ i. false; writes = λ i. false }

get-value_example :
    ((value : Bytes) × (value_of one_posting 1 ≡ some value)
      × (get ready_device one_posting 1 ≡ (
          if completes ready_device (block_count (length value))
          then (success, some value)
          else (fail, none))))
    ⊎ ((value_of one_posting 1 ≡ none)
        × (get ready_device one_posting 1
            ≡ ((if ltb 1 2 then key_not_found else key_over_flow), none)))
get-value_example = get-value ready_device one_posting 1 one_posting-IsValid

append-MergeReady : MergeReady ready_device one_posting 1 (10 ∷ [])
unfolding value_of value_at entry_value Io.read_pages block_count
append-MergeReady = record {
  old = 7 ∷ 8 ∷ 9 ∷ [];
  found = refl;
  short = omega arith;
  blocks = record { expands = λ m. refl; room = refl };
  reads = λ i. refl;
  writes = λ i. refl;
}

merge-succeeds_example :
    (after : FileIo) × (merge ready_device one_posting 1 (10 ∷ []) ≡ some (success, after))
    × IsValid after
    × (value_of after 1 ≡ Option.map (λ old. old ++ 10 ∷ []) (value_of one_posting 1))
    × ((k : ℕ) → (1 == k) ≡ false → value_of after k ≡ value_of one_posting k)
merge-succeeds_example =
    merge-succeeds ready_device one_posting 1 (10 ∷ []) one_posting-IsValid (omega arith)
      append-MergeReady

-- a write, one that fails, and a deletion
abbrev three_calls : List Call
three_calls =
    Call.merge_call ready_device 1 (10 ∷ [])
    ∷ Call.put_call broken_device 0 (4 ∷ [])
    ∷ Call.delete_call 1
    ∷ []

calls-Ran_example : Ran three_calls one_posting (calls three_calls one_posting)
unfolding suffices
calls-Ran_example = calls-Ran three_calls one_posting one_posting-IsValid refl

load-recovers_example :
    (codes : List ErrorCode) × (after : FileIo) × (d : BlockController) × (calls three_calls
        (checkpoint_io one_posting)
      ≡ some (codes, after))
    × (load_pool fresh (pool_file (checkpoint three_free)) 8 ≡ some d)
    × Blocks.IsValid d (held (reload one_posting.mapping))
    × ((k : ℕ)
        → value_of (record after { mapping = reload one_posting.mapping; controller = d }) k
          ≡ value_of one_posting k)
unfolding suffices
load-recovers_example =
    load-recovers one_posting three_calls fresh 8 one_posting-IsValid refl refl fresh-IsFresh

abbrev loaded : FileIo
loaded = postings (unwritten ∷ []) four_free (λ a. [])

loaded-pool : Blocks.IsValid four_free (held (unwritten ∷ []))
unfolding held total entry_blocks count
loaded-pool = Blocks.lose-IsValid four_free-IsValid (λ b. omega arith)

take_one : get_blocks broken_device four_free 1 ≡ some (true, 0 ∷ [], three_free)
unfolding get_blocks needs_expansion take_blocks try_pop reset invalid_id past_end at put
take_one = refl

put-unwritten_example :
    (after : FileIo) × (Io.put broken_device loaded 0 (4 ∷ []) ≡ some (disk_io_fail, after))
    × (check after 0 1 ≡ block_id_error)
unfolding block_count
put-unwritten_example =
    put-unwritten broken_device loaded 0 (4 ∷ []) loaded-pool refl (omega arith) refl (omega arith)
      refl (0 ∷ []) three_free take_one

multi_get-values_example :
    multi_get ready_device one_posting (1 ∷ 0 ∷ 1 ∷ [])
    ≡ (success, some (map (value_or_empty one_posting) (1 ∷ 0 ∷ 1 ∷ [])))
unfolding every total block_count value_or_empty value_of value_at entry_value Io.read_pages
multi_get-values_example =
    multi_get-values ready_device one_posting (1 ∷ 0 ∷ 1 ∷ []) one_posting-IsValid refl
      (omega arith) (λ i. refl)

-- a key past the end between two that are not
multi_get-past_example : multi_get ready_device one_posting (0 ∷ 5 ∷ 1 ∷ []) ≡ (
  (multi_get ready_device one_posting (0 ∷ 1 ∷ [])).0,
  Option.map (λ values. values ++ [] ∷ []) (multi_get ready_device one_posting (0 ∷ 1 ∷ [])).1,
)
multi_get-past_example = multi_get-past ready_device one_posting (0 ∷ []) (1 ∷ []) 5 (omega arith)
