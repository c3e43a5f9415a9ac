-- ===== src/FileIo/Put.antt =====
-- `Put` of AnnService/inc/Core/SPANN/ExtraFileController.h.
use sptag.Base.{
  ℕ, zero, suc, ◌+◌, ◌-◌, ◌*◌, ◌≤◌, ◌<◌, ◌≡◌, refl, ap, ◌∙◌, inl, inr, true, false, List, [], ◌∷◌,
  ◌++◌, Option, some, length, length-append, length-replicate, replicate, get_elem?,
  get_elem?-inside, take, ltb, leb, ◌==◌, if◌then◌else◌, arith, Bool-cases,
}
use sptag.Base.Sums.{total, total-append, every, every-append, every-get_elem?}
use sptag.Wire.{Bytes}
use sptag.Labels.{count, ErrorCode, success, posting_over_flow}
use sptag.BlockPool.{Device, page_size}
use sptag.BlockPool.Valid.{lose-IsValid, EnoughBlocks}
use sptag.FileIo.{
  Entry, unmapped, unwritten, posting, FileIo, block_count, read_pages, put_entry, extend, put,
}
use sptag.FileIo.Valid.{entry_blocks, held, sound, entry_value, value_at, value_of, IsValid}
use sptag.FileIo.Effect.{Effect, ready-Effect, Effect-success, Keeps, is_success}
use sptag.FileIo.Written.{write_posting-Effect}
use sptag.Dataset.Rows.{take-all}

pub same-Keeps : (io : FileIo) → Keeps io io
same-Keeps io = record {
  limit = refl;
  flag = refl;
  total = omega arith;
  safe = λ later b low none_free. (refl, none_free);
}

-- a call that is refused
pub refused-Effect :
    (io : FileIo) (key : ℕ) {Ready : Type 0} (new : Option Bytes) (code : ErrorCode)
    → IsValid io
    → is_success code ≡ false
    → (Ready → ⊥)
    → Effect io key Ready new (some (code, io))
refused-Effect io key new code v h never = record {
  code = code;
  after = io;
  ran = refl;
  valid = v;
  keeps = same-Keeps io;
  ready = λ r. absurd (never r);
  others = λ k other. refl;
  here = rw h refl;
}

pub sound-at :
    (io : FileIo) (key : ℕ) (e : Entry)
    → IsValid io
    → get_elem? io.mapping key ≡ some e
    → sound io.pages e ≡ true
sound-at io key e v found = every-get_elem? (sound io.pages) io.mapping key e v.entries found

-- the cells that `AddBatch` adds hold -1
held-unmapped : (n b : ℕ) → held (replicate n unmapped) b ≡ 0
unfolding held total entry_blocks count
held-unmapped zero b = refl
held-unmapped (suc n) b = omega (arith, held-unmapped n b)

sound-unmapped : (pages : ℕ → Bytes) (n : ℕ) → every (sound pages) (replicate n unmapped) ≡ true
unfolding every sound
sound-unmapped pages zero = refl
sound-unmapped pages (suc n) = sound-unmapped pages n

value-unmapped :
    (pages : ℕ → Bytes) (mapping : List Entry) (n k : ℕ)
    → value_at pages (get_elem? (mapping ++ replicate n unmapped) k)
      ≡ value_at pages (get_elem? mapping k)
unfolding value_at entry_value
value-unmapped pages [] zero k = refl
value-unmapped pages [] (suc n) zero = refl
value-unmapped pages [] (suc n) (suc k) = value-unmapped pages [] n k
value-unmapped pages (e ∷ mapping) n zero = refl
value-unmapped pages (e ∷ mapping) n (suc k) = value-unmapped pages mapping n k

extend-IsValid : (io : FileIo) (key : ℕ) → IsValid io → IsValid (extend io key)
unfolding extend held
extend-IsValid io key v =
    let n = key + 1 - length io.mapping in
    record {
      pool = lose-IsValid v.pool (λ b. omega (
        arith,
        total-append (λ e. count b (entry_blocks e)) io.mapping (replicate n unmapped),
        held-unmapped n b,
      ));
      entries =
          every-append (sound io.pages) io.mapping (replicate n unmapped) v.entries
            (sound-unmapped io.pages n);
      spare = v.spare;
      limit = v.limit;
    }

extend-Effect :
    (io : FileIo) (key : ℕ) {Ready : Type 0} (new : Option Bytes)
    (out : Option (ErrorCode × FileIo))
    → Effect (extend io key) key Ready new out
    → Effect io key Ready new out
unfolding extend value_of
extend-Effect io key new out f =
    let same = value-unmapped io.pages io.mapping (key + 1 - length io.mapping) in
    let here = f.here in
    let keeps = f.keeps in
    record {
      code = f.code;
      after = f.after;
      ran = f.ran;
      valid = f.valid;
      keeps = record {
        limit = keeps.limit;
        flag = keeps.flag;
        total = keeps.total;
        safe = keeps.safe;
      };
      ready = f.ready;
      others = λ k other. f.others k other ∙ same k;
      here = here ∙ ap (λ (old : Option Bytes). if is_success f.code then new else old) (same key);
    }

lend-Effect :
    (io : FileIo) (buffer key : ℕ) {Ready : Type 0} (new : Option Bytes)
    (out : Option (ErrorCode × FileIo))
    → Effect (record io { buffer = buffer }) key Ready new out
    → Effect io key Ready new out
unfolding value_of
lend-Effect io buffer key new out f =
    let keeps = f.keeps in
    record {
      code = f.code;
      after = f.after;
      ran = f.ran;
      valid = f.valid;
      keeps = record {
        limit = keeps.limit;
        flag = keeps.flag;
        total = keeps.total;
        safe = keeps.safe;
      };
      ready = f.ready;
      others = f.others;
      here = f.here;
    }

enough_blocks : (value : Bytes) → length value ≤ block_count (length value) * page_size
unfolding block_count
enough_blocks value = omega arith

put_entry-Effect :
    (device : Device) (io : FileIo) (key : ℕ) (value : Bytes) (e : Entry)
    → IsValid io
    → get_elem? io.mapping key ≡ some e
    → block_count (length value) ≤ device.requests
    → Effect io key
        (EnoughBlocks device io.controller (block_count (length value))
          × ((i : ℕ) → device.writes i ≡ true))
        (some value)
        (put_entry device io key (block_count (length value)) value e)
unfolding put_entry read_pages entry_blocks count sound
put_entry-Effect device io key value unmapped v found enough =
    let spare = v.spare in
    let limit = v.limit in
    let buffer = if ltb io.buffer_limit io.buffer then io.buffer - 1 else io.buffer in
    let lent : IsValid (record io { buffer = buffer }) = record {
      pool = v.pool;
      entries = v.entries;
      spare = ground arith;
      limit = v.limit;
    } in
    lend-Effect io buffer key (some value) _ (
      write_posting-Effect device (record io { buffer = buffer }) key (block_count (length value))
        value (length value) [] [] unmapped lent found (λ b. omega arith) enough
        (enough_blocks value) (omega arith) (omega arith) refl)
put_entry-Effect device io key value unwritten v found enough =
    absurd (let never = sound-at io key unwritten v found in cc)
put_entry-Effect device io key value (posting size old) v found enough =
    let spare = v.spare in
    let filled : (io.buffer == 0) ≡ false = ground (arith, spare) in
    let entry = sound-at io key (posting size old) v found in
    let whole : take (block_count size) old ≡ old =
      take-all old (block_count size) (ground (arith, entry)) in
    rw (filled, whole)
      (write_posting-Effect device io key (block_count (length value)) value (length value) [] old
        (posting size old) v found (λ b. omega arith) enough (enough_blocks value) (omega arith)
        (omega arith) refl)

below-extend : (io : FileIo) (key : ℕ) → key < length (extend io key).mapping
unfolding extend
below-extend io key = omega (
  arith,
  length-append io.mapping (replicate (key + 1 - length io.mapping) unmapped),
  length-replicate (key + 1 - length io.mapping) unmapped,
)

blocks-extend :
    (device : Device) (io : FileIo) (key : ℕ) (value : Bytes)
    → EnoughBlocks device io.controller (block_count (length value))
    → EnoughBlocks device (extend io key).controller (block_count (length value))
unfolding extend
blocks-extend device io key value h = h

-- What is enough for `Put` to succeed.
pub record PutReady (device : Device) (io : FileIo) (value : Bytes) : Type 0 where
  pub short : block_count (length value) < io.block_limit
  pub blocks : EnoughBlocks device io.controller (block_count (length value))
  pub writes : (i : ℕ) → device.writes i ≡ true

-- Put of a value.
pub put-Effect :
    (device : Device) (io : FileIo) (key : ℕ) (value : Bytes)
    → IsValid io
    → io.block_limit ≤ suc device.requests
    → Effect io key (PutReady device io value) (some value) (put device io key value)
unfolding put is_success
put-Effect device io key value v enough =
    elim (Bool-cases (leb io.block_limit (block_count (length value)))) [
      | inl long ↦ rw long (
          refused-Effect io key (some value) posting_over_flow v refl
            (λ r. let short = r.short in ground (arith, long, short)))
      | inr fits ↦
          let (e, found) = get_elem?-inside (extend io key).mapping key (below-extend io key) in
          rw (fits, found)
            (extend-Effect io key (some value) _ (
              ready-Effect (λ r. (blocks-extend device io key value r.blocks, r.writes))
                (put_entry-Effect device (extend io key) key value e (extend-IsValid io key v) found
                  (ground (arith, fits, enough)))))
    ]

-- Put of a value of fewer blocks than the limit succeeds on a valid posting file, with a request
-- for each block of a posting, if the file can grow, there are free blocks or room for more, and
-- the writes complete: the key then has the value, and no other key another one.
pub put-succeeds :
    (device : Device) (io : FileIo) (key : ℕ) (value : Bytes)
    → IsValid io
    → io.block_limit ≤ suc device.requests
    → PutReady device io value
    → (after : FileIo) × (put device io key value ≡ some (success, after))
      × IsValid after
      × (value_of after key ≡ some value)
      × ((k : ℕ) → (key == k) ≡ false → value_of after k ≡ value_of io k)
put-succeeds device io key value v enough ready =
    Effect-success (put-Effect device io key value v enough) ready
