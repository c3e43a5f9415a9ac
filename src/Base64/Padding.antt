-- ===== src/Base64/Padding.antt =====
-- `Decode` of Base64Encode.cpp: the padding, and the number of bytes written.
use sptag.Base.{
  ℕ, ◌+◌, ◌*◌, ◌/◌, ◌%◌, ◌≤◌, ◌<◌, ◌≡◌, ◌≢◌, refl, List, [], ◌∷◌, some, arith, ◌==◌, ==_iff,
  if◌then◌else◌, length, Option-cases, Bool-cases, inl, inr,
}
use sptag.Base64.{
  padding_char, Decoded, decoded, rejected, faulted, dec, last_quantum, prepend, with_quantum,
  loop_quantum, decode_loop, decode, capacity_for_decode,
}
use sptag.Base64.RoundTrip.{dec-padding}

module _ (a b u0 u1 : ℕ) (pa : dec a ≡ some u0) (pb : dec b ≡ some u1) (ha : u0 < 64)
    (hb : u1 < 64) where
  -- Of a quantum with two characters of padding Decode takes one byte, and refuses it if the
  -- four bits that are left over are set.
  pub decode-two_padded :
      decode (a ∷ b ∷ padding_char ∷ padding_char ∷ [])
      ≡ (if u1 % 16 == 0 then decoded ((u0 * 4 + u1 / 16) % 256 ∷ []) else rejected)
  unfolding decode decode_loop with_quantum last_quantum
  decode-two_padded = rw (pa, with_quantum, pb, dec-padding) (ground arith)

  -- Of a quantum with one character of padding Decode takes two bytes whatever the two bits
  -- that are left over hold.
  pub decode-one_padded :
      (c u2 : ℕ)
      → dec c ≡ some u2
      → u2 < 64
      → c ≢ padding_char
      → decode (a ∷ b ∷ c ∷ padding_char ∷ [])
        ≡ decoded ((u0 * 4 + u1 / 16) % 256 ∷ (u1 * 16 + u2 / 4) % 256 ∷ [])
  unfolding decode decode_loop with_quantum last_quantum
  decode-one_padded c u2 pc hc n = rw (pa, with_quantum, pb, pc, dec-padding) (ground arith)

with_quantum-decoded :
    (a b c d : ℕ) (k : ℕ → ℕ → ℕ → ℕ → Decoded) (bs : List ℕ)
    → with_quantum a b c d k ≡ decoded bs
    → (u0 : ℕ) × (u1 : ℕ) × (u2 : ℕ) × (u3 : ℕ) × (k u0 u1 u2 u3 ≡ decoded bs)
unfolding with_quantum
with_quantum-decoded a b c d k bs e = elim (Option-cases (dec a)) [
  | inl p ↦ absurd (ground (arith, p))
  | inr (u0, p) ↦ elim (Option-cases (dec b)) [
    | inl q ↦ absurd (ground (arith, p, q))
    | inr (u1, q) ↦ elim (Option-cases (dec c)) [
      | inl r ↦ absurd (ground (arith, p, q, r))
      | inr (u2, r) ↦ elim (Option-cases (dec d)) [
        | inl s ↦ absurd (ground (arith, p, q, r, s))
        | inr (u3, s) ↦ (u0, u1, u2, u3, (rw (p, with_quantum, q, r, s) at e))
      ]
    ]
  ]
]

last_quantum-length :
    (u0 u1 u2 u3 c d : ℕ) (bs : List ℕ) → last_quantum u0 u1 u2 u3 c d ≡ decoded bs → length bs ≤ 3
unfolding last_quantum
last_quantum-length u0 u1 u2 u3 c d bs e = ground arith

loop_quantum-decoded :
    (rest : Decoded) (u0 u1 u2 u3 : ℕ) (bs : List ℕ)
    → loop_quantum rest u0 u1 u2 u3 ≡ decoded bs
    → (ys : List ℕ) × (rest ≡ decoded ys) × (length bs ≡ 3 + length ys)
unfolding loop_quantum prepend
loop_quantum-decoded (decoded ys) u0 u1 u2 u3 bs e = (ys, refl, ground arith)
loop_quantum-decoded rejected u0 u1 u2 u3 bs e = absurd (ground arith)
loop_quantum-decoded faulted u0 u1 u2 u3 bs e = absurd (ground arith)

decode_loop-length : (cs bs : List ℕ) → decode_loop cs ≡ decoded bs → length bs * 4 ≤ length cs * 3
unfolding decode_loop
decode_loop-length (a ∷ b ∷ c ∷ d ∷ []) bs e =
    let (u0, u1, u2, u3, q) =
      with_quantum-decoded a b c d (λ u0 u1 u2 u3. last_quantum u0 u1 u2 u3 c d) bs e in
    omega (arith, last_quantum-length u0 u1 u2 u3 c d bs q)
decode_loop-length (a ∷ b ∷ c ∷ d ∷ f ∷ rest) bs e =
    let (u0, u1, u2, u3, q) =
      with_quantum-decoded a b c d (loop_quantum (decode_loop (f ∷ rest))) bs e in
    let (ys, more, size) = loop_quantum-decoded (decode_loop (f ∷ rest)) u0 u1 u2 u3 bs q in
    omega (arith, decode_loop-length (f ∷ rest) ys more)
decode_loop-length [] bs e = cc
decode_loop-length (a ∷ []) bs e = cc
decode_loop-length (a ∷ b ∷ []) bs e = cc
decode_loop-length (a ∷ b ∷ c ∷ []) bs e = cc

-- Where Decode succeeds it writes no more bytes than CapacityForDecode promises, and the length
-- of its input is a multiple of four.
pub decode-length :
    (cs bs : List ℕ)
    → decode cs ≡ decoded bs
    → (length bs ≤ capacity_for_decode (length cs)) × (length cs % 4 ≡ 0)
unfolding decode capacity_for_decode
decode-length cs bs e = elim (Bool-cases (length cs % 4 == 0)) [
  | inl whole ↦
      let run : decode_loop cs ≡ decoded bs = ground arith in
      let zero_rest = (==_iff (length cs % 4) 0).0 whole in
      (omega (arith, decode_loop-length cs bs run), zero_rest)
  | inr odd ↦ absurd (ground arith)
]
