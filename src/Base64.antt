-- ===== src/Base64.antt =====
-- AnnService/src/Helper/Base64Encode.cpp: base64 with padding. Bytes and characters are their
-- codes; the parts that `|` joins share no bit, so that they are added. The two overloads of
-- `Encode` write the same characters, and `p_outLen` is their number.
pub mod RoundTrip
pub mod Padding
mod Tests
use sptag.Base.{
  ℕ, zero, suc, ◌+◌, ◌*◌, ◌/◌, ◌%◌, ◌≤◌, ◌<◌, Bool, true, false, not, ◌&&◌, ◌||◌, List, [], ◌∷◌,
  ◌++◌, Option, none, some, ltb, ◌==◌, if◌then◌else◌, get_elem?, length, ◌>>=◌,
}

-- `c_encTable`
pub enc_table : List ℕ
enc_table =
    65 ∷ 66 ∷ 67 ∷ 68 ∷ 69 ∷ 70 ∷ 71 ∷ 72 ∷ 73 ∷ 74 ∷ 75 ∷ 76 ∷ 77 ∷ 78 ∷ 79 ∷ 80 ∷ 81 ∷ 82 ∷ 83
    ∷ 84 ∷ 85 ∷ 86 ∷ 87 ∷ 88 ∷ 89 ∷ 90 ∷ 97 ∷ 98 ∷ 99 ∷ 100 ∷ 101 ∷ 102 ∷ 103 ∷ 104 ∷ 105 ∷ 106
    ∷ 107 ∷ 108 ∷ 109 ∷ 110 ∷ 111 ∷ 112 ∷ 113 ∷ 114 ∷ 115 ∷ 116 ∷ 117 ∷ 118 ∷ 119 ∷ 120 ∷ 121 ∷ 122
    ∷ 48 ∷ 49 ∷ 50 ∷ 51 ∷ 52 ∷ 53 ∷ 54 ∷ 55 ∷ 56 ∷ 57 ∷ 43 ∷ 47 ∷ []

-- `c_decTable`
pub dec_table : List ℕ
dec_table =
    64 ∷ 64 ∷ 64 ∷ 64 ∷ 64 ∷ 64 ∷ 64 ∷ 64 ∷ 64 ∷ 64 ∷ 64 ∷ 64 ∷ 64 ∷ 64 ∷ 64 ∷ 64 ∷ 64 ∷ 64 ∷ 64
    ∷ 64 ∷ 64 ∷ 64 ∷ 64 ∷ 64 ∷ 64 ∷ 64 ∷ 64 ∷ 64 ∷ 64 ∷ 64 ∷ 64 ∷ 64 ∷ 64 ∷ 64 ∷ 64 ∷ 64 ∷ 64 ∷ 64
    ∷ 64 ∷ 64 ∷ 64 ∷ 64 ∷ 64 ∷ 62 ∷ 64 ∷ 64 ∷ 64 ∷ 63 ∷ 52 ∷ 53 ∷ 54 ∷ 55 ∷ 56 ∷ 57 ∷ 58 ∷ 59 ∷ 60
    ∷ 61 ∷ 64 ∷ 64 ∷ 64 ∷ 64 ∷ 64 ∷ 64 ∷ 64 ∷ 0 ∷ 1 ∷ 2 ∷ 3 ∷ 4 ∷ 5 ∷ 6 ∷ 7 ∷ 8 ∷ 9 ∷ 10 ∷ 11 ∷ 12
    ∷ 13 ∷ 14 ∷ 15 ∷ 16 ∷ 17 ∷ 18 ∷ 19 ∷ 20 ∷ 21 ∷ 22 ∷ 23 ∷ 24 ∷ 25 ∷ 64 ∷ 64 ∷ 64 ∷ 64 ∷ 64 ∷ 64
    ∷ 26 ∷ 27 ∷ 28 ∷ 29 ∷ 30 ∷ 31 ∷ 32 ∷ 33 ∷ 34 ∷ 35 ∷ 36 ∷ 37 ∷ 38 ∷ 39 ∷ 40 ∷ 41 ∷ 42 ∷ 43 ∷ 44
    ∷ 45 ∷ 46 ∷ 47 ∷ 48 ∷ 49 ∷ 50 ∷ 51 ∷ 64 ∷ 64 ∷ 64 ∷ 64 ∷ 64 ∷ 64 ∷ 64 ∷ 64 ∷ 64 ∷ 64 ∷ 64 ∷ 64
    ∷ 64 ∷ 64 ∷ 64 ∷ 64 ∷ 64 ∷ 64 ∷ 64 ∷ 64 ∷ 64 ∷ 64 ∷ 64 ∷ 64 ∷ 64 ∷ 64 ∷ 64 ∷ 64 ∷ 64 ∷ 64 ∷ 64
    ∷ 64 ∷ 64 ∷ 64 ∷ 64 ∷ 64 ∷ 64 ∷ 64 ∷ 64 ∷ 64 ∷ 64 ∷ 64 ∷ 64 ∷ 64 ∷ 64 ∷ 64 ∷ 64 ∷ 64 ∷ 64 ∷ 64
    ∷ 64 ∷ 64 ∷ 64 ∷ 64 ∷ 64 ∷ 64 ∷ 64 ∷ 64 ∷ 64 ∷ 64 ∷ 64 ∷ 64 ∷ 64 ∷ 64 ∷ 64 ∷ 64 ∷ 64 ∷ 64 ∷ 64
    ∷ 64 ∷ 64 ∷ 64 ∷ 64 ∷ 64 ∷ 64 ∷ 64 ∷ 64 ∷ 64 ∷ 64 ∷ 64 ∷ 64 ∷ 64 ∷ 64 ∷ 64 ∷ 64 ∷ 64 ∷ 64 ∷ 64
    ∷ 64 ∷ 64 ∷ 64 ∷ 64 ∷ 64 ∷ 64 ∷ 64 ∷ 64 ∷ 64 ∷ 64 ∷ 64 ∷ 64 ∷ 64 ∷ 64 ∷ 64 ∷ 64 ∷ 64 ∷ 64 ∷ 64
    ∷ 64 ∷ 64 ∷ 64 ∷ 64 ∷ 64 ∷ 64 ∷ 64 ∷ 64 ∷ 64 ∷ 64 ∷ 64 ∷ 64 ∷ 64 ∷ 64 ∷ 64 ∷ 64 ∷ 64 ∷ 64 ∷ 64
    ∷ 64 ∷ 64 ∷ 64 ∷ 64 ∷ 64 ∷ 64 ∷ 64 ∷ []

-- `c_paddingChar`
abbrev pub padding_char : ℕ
padding_char = b'='

-- the index is six bits, so that the table has it
pub enc_at : List ℕ → ℕ → ℕ
enc_at [] i = 0
enc_at (c ∷ cs) zero = c
enc_at (c ∷ cs) (suc i) = enc_at cs i

pub enc : ℕ → ℕ
enc i = enc_at enc_table i

pub encode : List ℕ → List ℕ
encode (a ∷ b ∷ c ∷ rest) =
    enc (a / 4) ∷ enc (a % 4 * 16 + b / 16) ∷ enc (b % 16 * 4 + c / 64) ∷ enc (c % 64) ∷ encode rest
encode (a ∷ b ∷ []) = enc (a / 4) ∷ enc (a % 4 * 16 + b / 16) ∷ enc (b % 16 * 4) ∷ padding_char ∷ []
encode (a ∷ []) = enc (a / 4) ∷ enc (a % 4 * 16) ∷ padding_char ∷ padding_char ∷ []
encode [] = []

-- how `Decode` ends: with the bytes, with `false`, or by a read outside an array
pub data Decoded : Type 0 where
  decoded : List ℕ → Decoded
  rejected faulted : Decoded

-- A `char` from 128 on is negative, and its index lies outside the table.
pub dec : ℕ → Option ℕ
dec c = if ltb c 128 then get_elem? dec_table c else none

-- the tests and writes behind the loop, on the last four characters
pub last_quantum : ℕ → ℕ → ℕ → ℕ → ℕ → ℕ → Decoded
last_quantum u0 u1 u2 u3 c2 c3 =
    if ltb 63 u0 || ltb 63 u1 || (padding_char == c2 && not (padding_char == c3))
    then rejected
    else if ltb 63 u2 && not (padding_char == c2)
    then rejected
    else if ltb 63 u3 && not (padding_char == c3)
    then rejected
    else if padding_char == c2
    then (if u1 % 16 == 0 then decoded ((u0 * 4 + u1 / 16) % 256 ∷ []) else rejected)
    else if padding_char == c3
    then (if u3 % 4 == 0
        then decoded ((u0 * 4 + u1 / 16) % 256 ∷ (u1 * 16 + u2 / 4) % 256 ∷ [])
        else rejected)
    else decoded ((u0 * 4 + u1 / 16) % 256 ∷ (u1 * 16 + u2 / 4) % 256 ∷ (u2 * 64 + u3) % 256 ∷ [])

pub prepend : List ℕ → Decoded → Decoded
prepend xs (decoded ys) = decoded (xs ++ ys)
prepend xs rejected = rejected
prepend xs faulted = faulted

-- the four look-ups
pub with_quantum : ℕ → ℕ → ℕ → ℕ → (ℕ → ℕ → ℕ → ℕ → Decoded) → Decoded
with_quantum a b c d k =
    elim (dec a >>= λ u0. dec b >>= λ u1. dec c >>= λ u2. dec d >>= λ u3. some (k u0 u1 u2 u3)) [
      | none ↦ faulted
      | some r ↦ r
    ]

-- the body of the loop, with what the rest decodes to
pub loop_quantum : Decoded → ℕ → ℕ → ℕ → ℕ → Decoded
loop_quantum rest u0 u1 u2 u3 =
    if ltb 63 u0 || ltb 63 u1 || ltb 63 u2 || ltb 63 u3
    then rejected
    else prepend ((u0 * 4 + u1 / 16) % 256 ∷ (u1 * 16 + u2 / 4) % 256 ∷ (u2 * 64 + u3) % 256 ∷ [])
        rest

-- the loop with the last quantum; fewer than four characters are read past their end
pub decode_loop : List ℕ → Decoded
decode_loop (a ∷ b ∷ c ∷ d ∷ []) =
    with_quantum a b c d (λ u0 u1 u2 u3. last_quantum u0 u1 u2 u3 c d)
decode_loop (a ∷ b ∷ c ∷ d ∷ e ∷ rest) =
    with_quantum a b c d (loop_quantum (decode_loop (e ∷ rest)))
decode_loop _ = faulted

pub decode : List ℕ → Decoded
decode cs = if length cs % 4 == 0 then decode_loop cs else rejected

pub capacity_for_encode : ℕ → ℕ
capacity_for_encode n = (n + 2) / 3 * 4

pub capacity_for_decode : ℕ → ℕ
capacity_for_decode n = n / 4 * 3 + n % 4 * 2 / 3
