-- ===== src/Wire.antt =====
-- AnnService/inc/Socket/SimpleSerialization.h: values as the bytes of a packet. A writer is the
-- list of bytes that it puts at the buffer's position, a reader takes them off and hands back the
-- bytes behind them; `none` is a read past the end of the buffer. Words are little-endian, as on
-- the processors that the program is built for.
pub mod PacketType
pub mod Packet
pub mod Query
pub mod Result
mod Tests
use native.Mathlib.Nat.{pow-suc}
use mathlib.Core.List.{append_assoc}
use sptag.Base.{
  ℕ, zero, suc, ◌+◌, ◌*◌, ◌/◌, ◌%◌, ◌^◌, ◌≤◌, ◌<◌, ◌≡◌, refl, ap, Bool, true, false, List, [], ◌∷◌,
  ◌++◌, Option, none, some, arith, ltb, ◌==◌, if◌then◌else◌, length, length-append, take, drop,
  take-append_self, drop-append_self, ◌>>=◌,
}

abbrev pub Bytes : Type 0
Bytes = List ℕ

-- a value of `k` bytes: `SimpleWriteBuffer<T>` and `SimpleReadBuffer<T>` with `sizeof(T)` equal to `k`
pub write_uint : ℕ → ℕ → Bytes
write_uint zero v = []
write_uint (suc k) v = (v % 256) ∷ write_uint k (v / 256)

pub read_uint : ℕ → Bytes → Option (ℕ × Bytes)
read_uint zero bs = some (0, bs)
read_uint (suc k) [] = none
read_uint (suc k) (b ∷ bs) = do (v, rest) ← read_uint k bs; some (b + v * 256, rest)

abbrev pub byte_of : Bool → ℕ
byte_of true = 1
byte_of false = 0

pub write_bool : Bool → Bytes
write_bool b = write_uint 1 (byte_of b)

pub read_bool : Bytes → Option (Bool × Bytes)
read_bool bs = do (v, rest) ← read_uint 1 bs; some (ltb 0 v, rest)

-- `std::string` and `ByteArray`: 32 bits of length, then the bytes
pub write_bytes : Bytes → Bytes
write_bytes s = write_uint 4 (length s % 2 ^ 32) ++ s

pub read_bytes : Bytes → Option (Bytes × Bytes)
read_bytes bs = do
  (n, rest) ← read_uint 4 bs
  if ltb (length rest) n then none else some (take n rest, drop n rest)

-- `EstimateBufferSize` of a string or `ByteArray`
pub estimate_bytes : Bytes → ℕ
estimate_bytes s = 4 + length s

-- `SimpleWriteSharedPtrBuffer`, `SimpleReadSharedPtrBuffer` and `EstimateSharedPtrBufferSize` at
-- strings: a flag, then the value that the pointer is to, if any
pub write_shared : Option Bytes → Bytes
write_shared none = write_bool false
write_shared (some s) = write_bool true ++ write_bytes s

pub read_shared : Bytes → Option (Option Bytes × Bytes)
read_shared bs = do
  (there, rest) ← read_bool bs
  if there then (do (s, rest') ← read_bytes rest; some (some s, rest')) else some (none, rest)

pub estimate_shared : Option Bytes → ℕ
estimate_shared none = 1
estimate_shared (some s) = 1 + estimate_bytes s

pub length-write_uint : (k v : ℕ) → length (write_uint k v) ≡ k
unfolding write_uint
length-write_uint zero v = refl
length-write_uint (suc k) v = ap suc (length-write_uint k (v / 256))

-- with enough bytes there is a word to read
pub read_uint-total :
    (k : ℕ) (bs : Bytes)
    → k ≤ length bs
    → (v : ℕ) × (rest : Bytes) × (read_uint k bs ≡ some (v, rest))
unfolding read_uint
read_uint-total zero bs h = (0, bs, refl)
read_uint-total (suc k) [] h = absurd (omega arith)
read_uint-total (suc k) (b ∷ bs) h =
    let (v, rest, run) = read_uint-total k bs (omega arith) in (b + v * 256, rest, rw run)

-- a word that fits its bytes is read back, whatever follows it
pub read_uint-write_uint :
    (k v : ℕ) (rest : Bytes) → v < 256 ^ k → read_uint k (write_uint k v ++ rest) ≡ some (v, rest)
unfolding read_uint write_uint
read_uint-write_uint zero v rest h = let e : v ≡ 0 = omega arith in rw e
read_uint-write_uint (suc k) v rest h =
    let q : v / 256 < 256 ^ k = omega (arith, pow-suc 256 k) in
    let e : v % 256 + v / 256 * 256 ≡ v = omega arith in
    rw (read_uint-write_uint k (v / 256) rest q, ◌>>=◌, e)

pub read_bool-write_bool :
    (b : Bool) (rest : Bytes) → read_bool (write_bool b ++ rest) ≡ some (b, rest)
unfolding read_bool write_bool
read_bool-write_bool true rest = rw (read_uint-write_uint 1 1 rest (omega arith))
read_bool-write_bool false rest = rw (read_uint-write_uint 1 0 rest (omega arith))

pub read_bytes-write_bytes :
    (s rest : Bytes) → length s < 2 ^ 32 → read_bytes (write_bytes s ++ rest) ≡ some (s, rest)
unfolding read_bytes write_bytes
read_bytes-write_bytes s rest h =
    let e : length s % 2 ^ 32 ≡ length s = omega arith in
    rw
      (
        append_assoc (write_uint 4 (length s % 2 ^ 32)) s rest,
        e,
        read_uint-write_uint 4 (length s) (s ++ rest) (omega arith),
        ◌>>=◌,
        take-append_self s rest (length s) refl,
        drop-append_self s rest (length s) refl,
      )
      (ground (arith, length-append s rest))

pub length-write_bytes : (s : Bytes) → length (write_bytes s) ≡ estimate_bytes s
unfolding write_bytes estimate_bytes
length-write_bytes s = omega (
  arith,
  length-append (write_uint 4 (length s % 2 ^ 32)) s,
  length-write_uint 4 (length s % 2 ^ 32),
)

-- A shared pointer's value, or the null pointer, is read back as it was written, whatever follows
-- it, if its length fits 32 bits; the estimate of its size is exact.
pub read_shared-write_shared :
    (p : Option Bytes) (rest : Bytes)
    → ((s : Bytes) → p ≡ some s → length s < 2 ^ 32)
    → (read_shared (write_shared p ++ rest) ≡ some (p, rest))
      × (length (write_shared p) ≡ estimate_shared p)
unfolding read_shared write_shared estimate_shared
read_shared-write_shared none rest h =
    (rw (read_bool-write_bool false rest), unfold write_bool in length-write_uint 1 0)
read_shared-write_shared (some s) rest h = (
  rw (
    append_assoc (write_bool true) (write_bytes s) rest,
    read_bool-write_bool true (write_bytes s ++ rest),
    ◌>>=◌,
    read_bytes-write_bytes s rest (h s refl),
  ),
  unfold write_bool in
      omega (
        arith,
        length-append (write_uint 1 1) (write_bytes s),
        length-write_uint 1 1,
        length-write_bytes s,
      ),
)
