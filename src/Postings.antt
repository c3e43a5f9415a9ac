-- ===== src/Postings.antt =====
-- AnnService/inc/Core/Common/PostingSizeRecord.h: the sizes of the postings, which threads read and
-- exchange. An int is its pattern of 32 bits; `none` is an access outside the column.
pub mod Lost
pub mod Ends
mod Tests
use sptag.Base.{
  ℕ, zero, suc, ◌+◌, ◌^◌, ◌%◌, ◌≡◌, ◌≢◌, Bool, true, false, List, [], ◌∷◌, Option, none, some, ◌==◌,
  if◌then◌else◌, get_elem?, set, length, replicate, ◌++◌, ltb, map,
}

-- the cells of `m_data`, and what it may hold
pub record PostingSizeRecord : Type 0 where
  pub sizes : List ℕ
  pub max_rows : ℕ

-- -1, with which `memset` fills new cells
abbrev pub unset : ℕ
unset = 0xffff_ffff

pub initialize : ℕ → ℕ → PostingSizeRecord
initialize size capacity = record { sizes = replicate size unset; max_rows = capacity }

pub get_size : PostingSizeRecord → ℕ → Option ℕ
get_size r head = get_elem? r.sizes head

pub get_posting_num : PostingSizeRecord → ℕ
get_posting_num r = length r.sizes

-- `AddBatch`: whether the rows fit, and what it leaves
pub add_batch : PostingSizeRecord → ℕ → Bool × PostingSizeRecord
add_batch r num =
    if ltb r.max_rows (length r.sizes + num)
    then (false, r)
    else (true, record r { sizes = r.sizes ++ replicate num unset })

-- `UpdateSize` and `IncSize`
pub data Call : Type 0 where
  update_size inc_size : (head num : ℕ) → Call

abbrev pub head_of : Call → ℕ
head_of (update_size head num) = head
head_of (inc_size head num) = head

-- the size that the call writes over an old one
abbrev pub new_size : Call → ℕ → ℕ
new_size (update_size head num) old = num
new_size (inc_size head num) old = (old + num) % 2 ^ 32

-- A thread in its call: at the head of the loop, with the size that it has read, or returned.
pub data Thread : Type 0 where
  looping : Call → Thread
  loaded : Call → ℕ → Thread
  returned : Call → Thread

pub record System : Type 0 where
  pub sizes : List ℕ
  pub threads : List Thread

-- one access to a cell by the thread `i`, among any number of threads
pub data Step (s : System) : System → Type 0 where
  load :
      (i : ℕ) {c : Call} {old : ℕ}
      → get_elem? s.threads i ≡ some (looping c)
      → get_elem? s.sizes (head_of c) ≡ some old
      → Step s (record s { threads = set s.threads i (loaded c old) })
  win :
      (i : ℕ) {c : Call} {old : ℕ}
      → get_elem? s.threads i ≡ some (loaded c old)
      → get_elem? s.sizes (head_of c) ≡ some old
      → Step s (record {
        sizes = set s.sizes (head_of c) (new_size c old);
        threads = set s.threads i (returned c);
      })
  lose :
      (i : ℕ) {c : Call} {old now : ℕ}
      → get_elem? s.threads i ≡ some (loaded c old)
      → get_elem? s.sizes (head_of c) ≡ some now
      → now ≢ old
      → Step s (record s { threads = set s.threads i (looping c) })

-- runs of `k` accesses
pub data Run (s : System) : ℕ → System → Type 0 where
  start : Run s 0 s
  later : {k : ℕ} {t u : System} → Run s k t → Step t u → Run s (suc k) u

-- all threads at the head of their loops
pub begin : List ℕ → List Call → System
begin sizes calls = record { sizes = sizes; threads = map looping calls }
