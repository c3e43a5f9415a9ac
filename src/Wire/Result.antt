-- ===== src/Wire/Result.antt =====
-- AnnService/inc/Socket/RemoteSearchQuery.h and src/Socket/RemoteSearchQuery.cpp:
-- RemoteSearchResult. An id and a distance are the 32 bits of their patterns.
pub mod RoundTrip
use mathlib.Core.List.{append_assoc}
use sptag.Base.{
  ℕ, zero, suc, ◌+◌, ◌*◌, ◌%◌, ◌^◌, ◌≤◌, ◌<◌, ◌≡◌, ◌≢◌, ◌⊎◌, refl, ap, inl, inr, Bool, true, false,
  List, [], ◌∷◌, ◌++◌, Option, none, some, arith, ◌==◌, ==_refl, if◌then◌else◌, Bool-cases, length,
  length-append, ◌>>=◌,
}
use sptag.Wire.{
  Bytes, write_uint, read_uint, read_uint-write_uint, read_uint-total, length-write_uint,
  write_bool, read_bool, read_bool-write_bool, write_bytes, read_bytes, estimate_bytes,
  read_bytes-write_bytes, length-write_bytes,
}
use sptag.Wire.Query.{major_version, mirror_version}

pub record Hit : Type 0 where
  pub vid : ℕ
  pub dist : ℕ
  pub meta : Bytes

pub record IndexSearchResult : Type 0 where
  pub index_name : Bytes
  pub results : List Hit
  pub with_meta : Bool

pub record RemoteSearchResult : Type 0 where
  pub status : ℕ
  pub all_index_results : List IndexSearchResult

-- the loops over `m_results`
pub write_hits : List Hit → Bytes
write_hits [] = []
write_hits (r ∷ rs) = write_uint 4 r.vid ++ (write_uint 4 r.dist ++ write_hits rs)

pub write_metas : List Hit → Bytes
write_metas [] = []
write_metas (r ∷ rs) = write_bytes r.meta ++ write_metas rs

pub write_index : IndexSearchResult → Bytes
write_index x =
    write_bytes x.index_name
    ++ (write_uint 4 (length x.results % 2 ^ 32)
        ++ (write_bool x.with_meta
            ++ (write_hits x.results ++ (if x.with_meta then write_metas x.results else []))))

pub write_indexes : List IndexSearchResult → Bytes
write_indexes [] = []
write_indexes (x ∷ xs) = write_index x ++ write_indexes xs

pub write_result : RemoteSearchResult → Bytes
write_result r =
    write_uint 2 major_version
    ++ (write_uint 2 mirror_version
        ++ (write_uint 1 r.status
            ++ (write_uint 4 (length r.all_index_results % 2 ^ 32)
                ++ write_indexes r.all_index_results)))

-- `Init` leaves results with no metadata
pub read_hits : ℕ → Bytes → Option (List Hit × Bytes)
read_hits zero bs = some ([], bs)
read_hits (suc n) bs = do
  (vid, b₁) ← read_uint 4 bs
  (dist, b₂) ← read_uint 4 b₁
  (rs, b₃) ← read_hits n b₂
  some (record { vid = vid; dist = dist; meta = [] } ∷ rs, b₃)

pub read_metas : List Hit → Bytes → Option (List Hit × Bytes)
read_metas [] bs = some ([], bs)
read_metas (r ∷ rs) bs = do
  (meta, b₁) ← read_bytes bs
  (rest, b₂) ← read_metas rs b₁
  some (record r { meta = meta } ∷ rest, b₂)

pub read_index : Bytes → Option (IndexSearchResult × Bytes)
read_index bs = do
  (index_name, b₁) ← read_bytes bs
  (num, b₂) ← read_uint 4 b₁
  (with_meta, b₃) ← read_bool b₂
  (hits, b₄) ← read_hits num b₃
  (results, b₅) ← (if with_meta then read_metas hits b₄ else some (hits, b₄))
  some (record { index_name = index_name; results = results; with_meta = with_meta }, b₅)

pub read_indexes : ℕ → Bytes → Option (List IndexSearchResult × Bytes)
read_indexes zero bs = some ([], bs)
read_indexes (suc n) bs = do
  (x, b₁) ← read_index bs
  (xs, b₂) ← read_indexes n b₁
  some (x ∷ xs, b₂)

-- The inner `none` is the null pointer for another major version.
pub read_result : Bytes → Option (Option (RemoteSearchResult × Bytes))
read_result bs = do
  (major, b₁) ← read_uint 2 bs
  (mirror, b₂) ← read_uint 2 b₁
  let body : Option (Option (RemoteSearchResult × Bytes)) = do
    (status, b₃) ← read_uint 1 b₂
    (len, b₄) ← read_uint 4 b₃
    (xs, b₅) ← read_indexes len b₄
    some (some (record { status = status; all_index_results = xs }, b₅))
  if major == major_version then body else some none

-- `EstimateBufferSize` and its loops
pub estimate_hits : List Hit → ℕ
estimate_hits [] = 0
estimate_hits (r ∷ rs) = 4 + 4 + estimate_hits rs

pub estimate_metas : List Hit → ℕ
estimate_metas [] = 0
estimate_metas (r ∷ rs) = estimate_bytes r.meta + estimate_metas rs

pub estimate_indexes : List IndexSearchResult → ℕ
estimate_indexes [] = 0
estimate_indexes (x ∷ xs) =
    estimate_bytes x.index_name
    + 4
    + 1
    + estimate_hits x.results
    + (if x.with_meta then estimate_metas x.results else 0)
    + estimate_indexes xs

pub estimate_result : RemoteSearchResult → ℕ
estimate_result r = 2 + 2 + 1 + 4 + estimate_indexes r.all_index_results

-- what the fields fit; without metadata no result has any
abbrev pub HitsFit : Bool → List Hit → Type 0
HitsFit with_meta [] = Unit
HitsFit with_meta (r ∷ rs) =
    (r.vid < 2 ^ 32)
    × (r.dist < 2 ^ 32)
    × (length r.meta < 2 ^ 32)
    × (with_meta ≡ false → r.meta ≡ [])
    × HitsFit with_meta rs

pub record IndexFits (x : IndexSearchResult) : Type 0 where
  pub name : length x.index_name < 2 ^ 32
  -- the number of results is an `int`
  pub num : length x.results < 2 ^ 31
  pub hits : HitsFit x.with_meta x.results

abbrev pub AllFit : List IndexSearchResult → Type 0
AllFit [] = Unit
AllFit (x ∷ xs) = IndexFits x × AllFit xs

pub bare : List Hit → List Hit
bare [] = []
bare (r ∷ rs) = record r { meta = [] } ∷ bare rs

pub read_hits-write_hits :
    (w : Bool) (rs : List Hit) (rest : Bytes)
    → HitsFit w rs
    → read_hits (length rs) (write_hits rs ++ rest) ≡ some (bare rs, rest)
unfolding read_hits write_hits bare
read_hits-write_hits w [] rest f = refl
read_hits-write_hits w (r ∷ rs) rest f = simp append_assoc (
    rw (
      read_uint-write_uint 4 r.vid _ f.0,
      read_uint-write_uint 4 r.dist _ f.1,
      read_hits-write_hits w rs rest f.4,
    ))

pub read_metas-write_metas :
    (w : Bool) (rs : List Hit) (rest : Bytes)
    → HitsFit w rs
    → read_metas (bare rs) (write_metas rs ++ rest) ≡ some (rs, rest)
unfolding read_metas write_metas bare
read_metas-write_metas w [] rest f = refl
read_metas-write_metas w (r ∷ rs) rest f = rw (
  append_assoc (write_bytes r.meta) (write_metas rs) rest,
  read_bytes-write_bytes r.meta (write_metas rs ++ rest) f.2,
  ◌>>=◌,
  read_metas-write_metas w rs rest f.4,
)

pub bare-plain : (rs : List Hit) → HitsFit false rs → bare rs ≡ rs
unfolding bare
bare-plain [] f = refl
bare-plain (r ∷ rs) f = rw (bare-plain rs f.4) (ground (arith, f.3 refl))
