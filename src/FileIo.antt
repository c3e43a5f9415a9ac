-- ===== src/FileIo.antt =====
-- AnnService/inc/Core/SPANN/ExtraFileController.h, FileIO without its cache (CacheSizeGB is 0 by default),
-- and the reads and writes of FileIO::BlockController in
-- AnnService/src/Core/SPANN/ExtraFileController.cpp. A posting is a string of bytes under a key.
pub mod Pages
pub mod Valid
pub mod Effect
pub mod Written
pub mod Put
pub mod Get
pub mod LastPage
pub mod Appended
pub mod Merge
pub mod Calls
pub mod Recovery
pub mod Unwritten
pub mod Several
mod Tests
use sptag.Base.{
  ℕ, zero, suc, ◌+◌, ◌-◌, ◌*◌, ◌/◌, ◌%◌, ◌^◌, min, Bool, true, false, not, ◌&&◌, ◌||◌, List, [],
  ◌∷◌, ◌++◌, Option, none, some, length, replicate, get_elem?, set, take, drop, ltb, leb, ◌==◌,
  if◌then◌else◌, ◌>>=◌, all_below,
}
use sptag.Base.Sums.{every}
use sptag.Wire.{Bytes}
use sptag.Labels.{
  ErrorCode, success, fail, disk_io_fail, key_over_flow, key_not_found, posting_over_flow,
  posting_size_error, block_id_error,
}
use sptag.BlockPool.{Device, BlockController, page_size, get_blocks, release_blocks, checkpoint}

-- the address -1
abbrev pub unset_address : ℕ
unset_address = 2 ^ 64 - 1

-- A cell of the mapping: -1, an array whose first entry is -1, or an array with the size of a posting and
-- the addresses of its blocks.
pub data Entry : Type 0 where
  unmapped : Entry
  unwritten : Entry
  posting : ℕ → List ℕ → Entry

-- `buffer` counts the spare arrays, and `pages` is the file of the postings
pub record FileIo : Type 0 where
  pub block_limit : ℕ
  pub mapping : List Entry
  pub buffer : ℕ
  pub buffer_limit : ℕ
  pub controller : BlockController
  pub pages : ℕ → Bytes

pub block_count : ℕ → ℕ
block_count size = (size + page_size - 1) / page_size

pub read_pages : (ℕ → Bytes) → List ℕ → ℕ → Bytes
read_pages pages [] size = []
read_pages pages (b ∷ bs) size =
    take (min size page_size) (pages b) ++ read_pages pages bs (size - page_size)

-- `ReadBlocks` of one posting, `none` where it returns false
pub read_blocks : Device → (ℕ → Bytes) → ℕ → List ℕ → Option Bytes
read_blocks device pages size bs =
    let n = block_count size in
    if ltb device.requests n || not (all_below n device.reads)
    then none
    else some (read_pages pages (take n bs) size)

write_page : (ℕ → Bytes) → ℕ → Bytes → ℕ → Bytes
write_page pages b page a = if a == b then page else pages a

-- the requests from `i` on
pub write_pages : Device → ℕ → List ℕ → Bytes → (ℕ → Bytes) → ℕ → Bytes
write_pages device i [] value pages = pages
write_pages device i (b ∷ bs) value pages =
    write_pages device (suc i) bs (drop page_size value) (
      if device.writes i
      then write_page pages b (take page_size value ++ device.stale i)
      else pages)

-- `WriteBlocks`, `none` where `reqs->at` throws
pub write_blocks : Device → (ℕ → Bytes) → List ℕ → Bytes → Option (Bool × (ℕ → Bytes))
write_blocks device pages bs value =
    if ltb device.requests (length bs)
    then none
    else some (all_below (length bs) device.writes, write_pages device 0 bs value pages)

pub get : Device → FileIo → ℕ → ErrorCode × Option Bytes
get device io key = elim (get_elem? io.mapping key) [
  | none ↦ (key_over_flow, none)
  | some unmapped ↦ (key_not_found, none)
  | some unwritten ↦ (posting_size_error, none)
  | some (posting size bs) ↦ elim (read_blocks device io.pages size bs) [
    | none ↦ (fail, none)
    | some value ↦ (success, some value)
  ]
]

-- What `Put` and `Merge` share: new blocks are taken and written, and then those of `old` are given back; the
-- entry names the blocks that are kept and the new ones. After a write that fails the new blocks are given
-- back, and the mapping is `failed`.
pub write_posting :
    Device → FileIo → ℕ → ℕ → Bytes → ℕ → List ℕ → List ℕ → List Entry → Option (ErrorCode × FileIo)
write_posting device io key n value new_size kept old failed = do
  (got, bs, c) ← get_blocks device io.controller n
  if not got then some (disk_io_fail, record io { controller = c }) else (do
    (written, pages) ← write_blocks device io.pages bs value
    d ← release_blocks (if written then old else bs) c
    let next = record io { controller = d; pages = pages }
    if written
        then some
            (success, record next { mapping = set io.mapping key (posting new_size (kept ++ bs)) })
        else some (disk_io_fail, record next { mapping = failed }))

-- A new array takes the place of a spare one where these are few. `none` is also the loop that waits for a
-- spare array where there is none.
pub put_entry : Device → FileIo → ℕ → ℕ → Bytes → Entry → Option (ErrorCode × FileIo)
put_entry device io key n value unmapped =
    let buffer = if ltb io.buffer_limit io.buffer then io.buffer - 1 else io.buffer in
    write_posting device (record io { buffer = buffer }) key n value (length value) [] [] io.mapping
put_entry device io key n value unwritten =
    write_posting device io key n value (length value) [] []
      (set io.mapping key (posting (length value) (replicate n unset_address)))
put_entry device io key n value (posting size old) =
    if io.buffer == 0
    then none
    else write_posting device io key n value (length value) [] (take (block_count size) old)
        io.mapping

-- `AddBatch` of the mapping
pub extend : FileIo → ℕ → FileIo
extend io key = record io {
  mapping = io.mapping ++ replicate (key + 1 - length io.mapping) unmapped;
}

pub put : Device → FileIo → ℕ → Bytes → Option (ErrorCode × FileIo)
put device io key value =
    let n = block_count (length value) in
    let wider = extend io key in
    if leb io.block_limit n
    then some (posting_over_flow, io)
    else (get_elem? wider.mapping key >>= put_entry device wider key n value)

pub merge_posting : Device → FileIo → ℕ → Bytes → ℕ → List ℕ → Option (ErrorCode × FileIo)
merge_posting device io key value size bs =
    let new_size = size + length value in
    let size_in_page = size % page_size in
    let old_blocks = size / page_size in
    let n = block_count new_size - old_blocks in
    let last = take 1 (drop old_blocks bs) in
    if leb io.block_limit (block_count new_size)
    then some (posting_over_flow, io)
    else if size_in_page == 0
    then write_posting device io key n value new_size (take old_blocks bs) [] io.mapping
    else elim (read_blocks device io.pages size_in_page last) [
      | none ↦ some (disk_io_fail, io)
      | some before ↦
          (if io.buffer == 0
            then none
            else write_posting device io key n (before ++ value) new_size (take old_blocks bs) last
                io.mapping)
    ]

pub merge : Device → FileIo → ℕ → Bytes → Option (ErrorCode × FileIo)
merge device io key value = elim (get_elem? io.mapping key) [
  | none ↦ some (key_over_flow, io)
  | some unmapped ↦ some (key_not_found, io)
  | some unwritten ↦ some (key_not_found, io)
  | some (posting size bs) ↦ merge_posting device io key value size bs
]

pub delete : FileIo → ℕ → Option (ErrorCode × FileIo)
delete io key = elim (get_elem? io.mapping key) [
  | none ↦ some (key_over_flow, io)
  | some unmapped ↦ some (key_not_found, io)
  | some unwritten ↦ some (key_not_found, io)
  | some (posting size bs) ↦
      (release_blocks (take (block_count size) bs) io.controller >>= λ c. some (
        success,
        record io { controller = c; buffer = io.buffer + 1; mapping = set io.mapping key unmapped },
      ))
]

-- `Check` with no list of the blocks seen before
pub check : FileIo → ℕ → ℕ → ErrorCode
check io key size = elim (get_elem? io.mapping key) [
  | none ↦ key_over_flow
  | some unmapped ↦ key_over_flow
  | some unwritten ↦ posting_size_error
  | some (posting stored bs) ↦
      (if not (stored == size)
        then posting_size_error
        else if every (λ b. ltb b io.controller.total_allocated_blocks)
            (take (block_count stored) bs)
        then success
        else block_id_error)
]

-- what `Save` writes of a cell, as `Load` reads it back into an array
pub reload_entry : Entry → Entry
reload_entry unmapped = unwritten
reload_entry unwritten = unwritten
reload_entry (posting size bs) = posting size bs

pub reload : List Entry → List Entry
reload [] = []
reload (e ∷ mapping) = reload_entry e ∷ reload mapping

-- `Checkpoint`, after `Save` has written the mapping
pub checkpoint_io : FileIo → FileIo
checkpoint_io io = record io { controller = checkpoint io.controller }
