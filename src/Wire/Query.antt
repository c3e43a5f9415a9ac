-- ===== src/Wire/Query.antt =====
-- AnnService/inc/Socket/RemoteSearchQuery.h and src/Socket/RemoteSearchQuery.cpp: RemoteQuery.
use mathlib.Core.List.{append_assoc}
use sptag.Base.{
  ℕ, ◌+◌, ◌^◌, ◌≤◌, ◌<◌, ◌≡◌, ◌≢◌, false, ◌++◌, Option, none, some, arith, ◌==◌, if◌then◌else◌,
  length, length-append, ◌>>=◌,
}
use sptag.Wire.{
  Bytes, write_uint, read_uint, read_uint-write_uint, read_uint-total, length-write_uint,
  write_bytes, read_bytes, estimate_bytes, read_bytes-write_bytes, length-write_bytes,
}

-- `MajorVersion` and `MirrorVersion` of both messages
abbrev pub major_version : ℕ
major_version = 1

abbrev pub mirror_version : ℕ
mirror_version = 0

pub record RemoteQuery : Type 0 where
  pub query_type : ℕ
  pub query_string : Bytes

pub estimate_query : RemoteQuery → ℕ
estimate_query q = 2 + 2 + 1 + estimate_bytes q.query_string

pub write_query : RemoteQuery → Bytes
write_query q =
    write_uint 2 major_version
    ++ (write_uint 2 mirror_version ++ (write_uint 1 q.query_type ++ write_bytes q.query_string))

-- The inner `none` is the null pointer for another major version.
pub read_query : Bytes → Option (Option (RemoteQuery × Bytes))
read_query bs = do
  (major, b₁) ← read_uint 2 bs
  (mirror, b₂) ← read_uint 2 b₁
  let body : Option (Option (RemoteQuery × Bytes)) = do
    (query_type, b₃) ← read_uint 1 b₂
    (query_string, b₄) ← read_bytes b₃
    some (some (record { query_type = query_type; query_string = query_string }, b₄))
  if major == major_version then body else some none

-- RemoteQuery::Read reads back the query that Write wrote, whatever follows it, if the fields fit
-- their widths; EstimateBufferSize is exact.
pub read_query-write_query :
    (q : RemoteQuery) (rest : Bytes)
    → q.query_type < 2 ^ 8
    → length q.query_string < 2 ^ 32
    → (read_query (write_query q ++ rest) ≡ some (some (q, rest)))
      × (length (write_query q) ≡ estimate_query q)
unfolding read_query write_query estimate_query
read_query-write_query q rest t s = (
  simp append_assoc (
      rw (
        read_uint-write_uint 2 major_version _ (omega arith),
        read_uint-write_uint 2 mirror_version _ (omega arith),
        read_uint-write_uint 1 q.query_type _ t,
        read_bytes-write_bytes q.query_string rest s,
      )),
  simp (length-append, length-write_uint, length-write_bytes) (omega arith),
)

-- RemoteQuery::Read refuses every message of another major version that has both versions.
pub read_query-version :
    (v : ℕ) (rest : Bytes)
    → v < 2 ^ 16
    → v ≢ major_version
    → 2 ≤ length rest
    → read_query (write_uint 2 v ++ rest) ≡ some none
unfolding read_query
read_query-version v rest h n l =
    let (mirror, body, run) = read_uint-total 2 rest l in
    let other : (v == major_version) ≡ false = ground arith in
    rw (read_uint-write_uint 2 v rest (omega arith), ◌>>=◌, run, other)
