-- ===== src/FileIo/Several.antt =====
-- `MultiGet` of AnnService/inc/Core/SPANN/ExtraFileController.h into strings that are empty before, and the
-- reads of several postings in AnnService/src/Core/SPANN/ExtraFileController.cpp.
pub mod Values
use mathlib.Core.Option as Option
use mathlib.Core.Option.{some_inj}
use mathlib.Core.List.{append-nil}
use sptag.Base.{
  ℕ, zero, suc, ◌+◌, ◌-◌, ◌≤◌, ◌≡◌, refl, ap, sym, ◌∙◌, inl, inr, Bool, true, false, not, ◌||◌,
  List, [], ◌∷◌, ◌++◌, map, Option, none, some, length, length-map, length-append, replicate,
  get_elem?, get_elem?-past, get_elem?-inside, take, ltb, if◌then◌else◌, arith, ◌>>=◌, all_below,
  Option-cases, Bool-cases,
}
use sptag.Base.Sums.{total, every}
use sptag.Wire.{Bytes}
use sptag.Labels.{ErrorCode, success, fail}
use sptag.BlockPool.{Device}
use sptag.FileIo.{Entry, unmapped, unwritten, posting, FileIo, block_count, read_pages}
use sptag.FileIo.Valid.{sound, entry_value, value_at, value_of, IsValid}
use sptag.FileIo.Put.{sound-at}
use sptag.FileIo.Get.{sound-posting}

-- the cells of the keys; a key past the end has none
pub found_cells : List Entry → List ℕ → List Entry
found_cells mapping [] = []
found_cells mapping (key ∷ keys) = elim (get_elem? mapping key) [
  | none ↦ found_cells mapping keys
  | some e ↦ e ∷ found_cells mapping keys
]

-- The requests for the cells. The size -1 of an array without a posting uses up all that there are.
pub request_count : List Entry → Option ℕ
request_count [] = some 0
request_count (unmapped ∷ es) = request_count es
request_count (unwritten ∷ es) = none
request_count (posting size bs ∷ es) = (request_count es >>= λ n. some (block_count size + n))

pub read_values : (ℕ → Bytes) → List Entry → List Bytes
read_values pages [] = []
read_values pages (posting size bs ∷ es) =
    read_pages pages (take (block_count size) bs) size ∷ read_values pages es
read_values pages (_ ∷ es) = [] ∷ read_values pages es

pub read_several : Device → (ℕ → Bytes) → List Entry → Option (List Bytes)
read_several device pages es = do
  n ← request_count es
  if ltb device.requests n || not (all_below n device.reads)
      then none
      else some (read_values pages es)

pub multi_get : Device → FileIo → List ℕ → ErrorCode × Option (List Bytes)
multi_get device io keys = elim (read_several device io.pages (found_cells io.mapping keys)) [
  | none ↦ (fail, none)
  | some values ↦ (success, some (values ++ replicate (length keys - length values) []))
]

-- the value of a key, and no bytes where it has none
unfoldable pub value_or_empty : FileIo → ℕ → Bytes
value_or_empty io key = elim (value_of io key) [ none ↦ [] | some value ↦ value ]
