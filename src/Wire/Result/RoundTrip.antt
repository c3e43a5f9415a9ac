-- ===== src/Wire/Result/RoundTrip.antt =====
-- `Write`, `Read` and `EstimateBufferSize` of RemoteSearchResult together.
use mathlib.Core.List.{append_assoc}
use sptag.Base.{
  ◌%◌, ◌^◌, ◌<◌, ◌≡◌, refl, inl, inr, Bool, true, false, List, [], ◌∷◌, ◌++◌, some, arith,
  if◌then◌else◌, Bool-cases, length, length-append, ◌>>=◌,
}
use sptag.Wire.{
  Bytes, read_uint-write_uint, length-write_uint, write_bool, read_bool-write_bool,
  read_bytes-write_bytes, length-write_bytes,
}
use sptag.Wire.Query.{major_version, mirror_version}
use sptag.Wire.Result.{
  Hit, IndexSearchResult, RemoteSearchResult, write_hits, write_metas, write_index, write_indexes,
  write_result, read_metas, read_index, read_indexes, read_result, estimate_hits, estimate_metas,
  estimate_indexes, estimate_result, HitsFit, IndexFits, AllFit, bare, bare-plain,
  read_hits-write_hits, read_metas-write_metas,
}

-- the metadata, where there is any, completes the results
metas_complete :
    (w : Bool) (rs : List Hit) (rest : Bytes)
    → HitsFit w rs
    → (if w
        then read_metas (bare rs) ((if w then write_metas rs else []) ++ rest)
        else some (bare rs, (if w then write_metas rs else []) ++ rest))
      ≡ some (rs, rest)
metas_complete true rs rest f = read_metas-write_metas true rs rest f
metas_complete false rs rest f = rw (bare-plain rs f)

read_index-write_index :
    (x : IndexSearchResult) (rest : Bytes)
    → IndexFits x
    → read_index (write_index x ++ rest) ≡ some (x, rest)
unfolding read_index write_index
read_index-write_index x rest f =
    let num = f.num in
    let e : length x.results % 2 ^ 32 ≡ length x.results = omega arith in
    simp append_assoc (
      rw (
        read_bytes-write_bytes x.index_name _ f.name,
        e,
        read_uint-write_uint 4 (length x.results) _ (omega arith),
        read_bool-write_bool x.with_meta _,
        ◌>>=◌,
        read_hits-write_hits x.with_meta x.results _ f.hits,
        metas_complete x.with_meta x.results rest f.hits,
      ))

read_indexes-write_indexes :
    (xs : List IndexSearchResult) (rest : Bytes)
    → AllFit xs
    → read_indexes (length xs) (write_indexes xs ++ rest) ≡ some (xs, rest)
unfolding read_indexes write_indexes
read_indexes-write_indexes [] rest f = refl
read_indexes-write_indexes (x ∷ xs) rest f = rw (
  append_assoc (write_index x) (write_indexes xs) rest,
  read_index-write_index x (write_indexes xs ++ rest) f.0,
  ◌>>=◌,
  read_indexes-write_indexes xs rest f.1,
)

length-write_hits : (rs : List Hit) → length (write_hits rs) ≡ estimate_hits rs
unfolding write_hits estimate_hits
length-write_hits [] = refl
length-write_hits (r ∷ rs) =
    simp (length-append, length-write_uint, length-write_hits rs) (omega arith)

length-write_metas : (rs : List Hit) → length (write_metas rs) ≡ estimate_metas rs
unfolding write_metas estimate_metas
length-write_metas [] = refl
length-write_metas (r ∷ rs) = simp (length-append, length-write_bytes, length-write_metas rs)

length-write_indexes :
    (xs : List IndexSearchResult) → length (write_indexes xs) ≡ estimate_indexes xs
unfolding write_indexes write_index estimate_indexes write_bool
length-write_indexes [] = refl
length-write_indexes (x ∷ xs) = elim (Bool-cases x.with_meta) [
  | inl on ↦
      simp
        (
          length-append,
          length-write_bytes,
          length-write_uint,
          length-write_hits,
          length-write_indexes xs,
        )
        (ground (arith, length-write_metas x.results))
  | inr off ↦
      simp
        (
          length-append,
          length-write_bytes,
          length-write_uint,
          length-write_hits,
          length-write_indexes xs,
        )
        (ground arith)
]

-- RemoteSearchResult::Read reads back the result that Write wrote, whatever follows it, if the
-- fields fit their widths and results without metadata have none; EstimateBufferSize is exact.
pub read_result-write_result :
    (r : RemoteSearchResult) (rest : Bytes)
    → r.status < 2 ^ 8
    → length r.all_index_results < 2 ^ 32
    → AllFit r.all_index_results
    → (read_result (write_result r ++ rest) ≡ some (some (r, rest)))
      × (length (write_result r) ≡ estimate_result r)
unfolding read_result write_result estimate_result
read_result-write_result r rest s n f =
    let e : length r.all_index_results % 2 ^ 32 ≡ length r.all_index_results = omega arith in
    (
      simp append_assoc (
          rw (
            read_uint-write_uint 2 major_version _ (omega arith),
            read_uint-write_uint 2 mirror_version _ (omega arith),
            read_uint-write_uint 1 r.status _ s,
            e,
            read_uint-write_uint 4 (length r.all_index_results) _ (omega arith),
            read_indexes-write_indexes r.all_index_results rest f,
          )),
      simp (length-append, length-write_uint, length-write_indexes) (omega arith),
    )
