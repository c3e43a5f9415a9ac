-- ===== src/Base64/RoundTrip.antt =====
-- `Encode` and `Decode` of Base64Encode.cpp together, with their capacities.
use sptag.Base.{
  all_below, all_below_sound, ℕ, ◌+◌, ◌*◌, ◌/◌, ◌%◌, ◌<◌, ◌≡◌, ◌∙◌, refl, ap, Bool, true, false,
  not, ◌&&◌, List, [], ◌∷◌, none, some, arith, ◌==◌, length,
}
use sptag.Base64.{
  enc_table, dec_table, padding_char, enc_at, enc, encode, Decoded, decoded, dec, last_quantum,
  prepend, with_quantum, loop_quantum, decode_loop, decode, capacity_for_encode,
}

-- the tables are inverse to each other, and no letter is the padding
is_inverse : ℕ → Bool
is_inverse i = elim (dec (enc i)) [ none ↦ false | some u ↦ u == i ] && not (enc i == padding_char)

inverse_table : all_below 64 is_inverse ≡ true
unfolding is_inverse enc enc_at enc_table dec dec_table
inverse_table = refl

pub dec-enc : (i : ℕ) → i < 64 → dec (enc i) ≡ some i
unfolding is_inverse
dec-enc i h = let e = all_below_sound 64 is_inverse i inverse_table h in ground (arith, e)

pub enc-ne-padding : (i : ℕ) → i < 64 → (padding_char == enc i) ≡ false
unfolding is_inverse
enc-ne-padding i h = let e = all_below_sound 64 is_inverse i inverse_table h in ground (arith, e)

pub dec-padding : dec padding_char ≡ some 64
unfolding dec dec_table
dec-padding = refl

abbrev pub AreBytes : List ℕ → Type 0
AreBytes [] = Unit
AreBytes (x ∷ xs) = (x < 256) × AreBytes xs

with_quantum-some :
    (a b c d u0 u1 u2 u3 : ℕ) (k : ℕ → ℕ → ℕ → ℕ → Decoded)
    → dec a ≡ some u0
    → dec b ≡ some u1
    → dec c ≡ some u2
    → dec d ≡ some u3
    → with_quantum a b c d k ≡ k u0 u1 u2 u3
unfolding with_quantum
with_quantum-some a b c d u0 u1 u2 u3 k p q r s = rw (p, with_quantum, q, r, s)

encode-cons : (x : ℕ) (xs : List ℕ) → (c : ℕ) × (cs : List ℕ) × (encode (x ∷ xs) ≡ c ∷ cs)
unfolding encode
encode-cons x [] = (_, _, refl)
encode-cons x (y ∷ []) = (_, _, refl)
encode-cons x (y ∷ z ∷ zs) = (_, _, refl)

module _ (a b c : ℕ) (ha : a < 256) (hb : b < 256) (hc : c < 256) where
  last-three :
      decode_loop
        (enc (a / 4) ∷ enc (a % 4 * 16 + b / 16) ∷ enc (b % 16 * 4 + c / 64) ∷ enc (c % 64) ∷ [])
      ≡ decoded (a ∷ b ∷ c ∷ [])
  unfolding decode_loop last_quantum
  last-three =
      rw
        (with_quantum-some _ _ _ _ (a / 4) (a % 4 * 16 + b / 16) (b % 16 * 4 + c / 64) (c % 64) _
          (dec-enc (a / 4) (omega arith)) (dec-enc (a % 4 * 16 + b / 16) (omega arith))
          (dec-enc (b % 16 * 4 + c / 64) (omega arith)) (dec-enc (c % 64) (omega arith)))
        (ground (arith, enc-ne-padding (b % 16 * 4 + c / 64), enc-ne-padding (c % 64)))

  last-two :
      decode_loop (enc (a / 4) ∷ enc (a % 4 * 16 + b / 16) ∷ enc (b % 16 * 4) ∷ padding_char ∷ [])
      ≡ decoded (a ∷ b ∷ [])
  unfolding decode_loop last_quantum
  last-two =
      rw
        (with_quantum-some _ _ _ _ (a / 4) (a % 4 * 16 + b / 16) (b % 16 * 4) 64 _
          (dec-enc (a / 4) (omega arith)) (dec-enc (a % 4 * 16 + b / 16) (omega arith))
          (dec-enc (b % 16 * 4) (omega arith)) dec-padding)
        (ground (arith, enc-ne-padding (b % 16 * 4)))

  last-one :
      decode_loop (enc (a / 4) ∷ enc (a % 4 * 16) ∷ padding_char ∷ padding_char ∷ [])
      ≡ decoded (a ∷ [])
  unfolding decode_loop last_quantum
  last-one =
      rw
        (with_quantum-some _ _ _ _ (a / 4) (a % 4 * 16) 64 64 _ (dec-enc (a / 4) (omega arith))
          (dec-enc (a % 4 * 16) (omega arith)) dec-padding dec-padding)
        (ground arith)

  loop-three :
      (rest : Decoded)
      → with_quantum
          (enc (a / 4))
          (enc (a % 4 * 16 + b / 16))
          (enc (b % 16 * 4 + c / 64))
          (enc (c % 64))
          (loop_quantum rest)
        ≡ prepend (a ∷ b ∷ c ∷ []) rest
  unfolding loop_quantum
  loop-three rest =
      let ea : (a / 4 * 4 + (a % 4 * 16 + b / 16) / 16) % 256 ≡ a = omega arith in
      let eb : ((a % 4 * 16 + b / 16) * 16 + (b % 16 * 4 + c / 64) / 4) % 256 ≡ b = omega arith in
      let ec : ((b % 16 * 4 + c / 64) * 64 + c % 64) % 256 ≡ c = omega arith in
      rw
        (
          with_quantum-some _ _ _ _ (a / 4) (a % 4 * 16 + b / 16) (b % 16 * 4 + c / 64) (c % 64)
              (loop_quantum rest) (dec-enc (a / 4) (omega arith))
              (dec-enc (a % 4 * 16 + b / 16) (omega arith))
              (dec-enc (b % 16 * 4 + c / 64) (omega arith)) (dec-enc (c % 64) (omega arith)),
          loop_quantum,
          ea,
          eb,
          ec,
        )
        (ground arith)

decode_loop-more :
    (a b c : ℕ)
    → a < 256
    → b < 256
    → c < 256
    → (e : ℕ) (es : List ℕ)
    → decode_loop (
        enc (a / 4) ∷ enc (a % 4 * 16 + b / 16) ∷ enc (b % 16 * 4 + c / 64) ∷ enc (c % 64) ∷ e ∷ es)
      ≡ prepend (a ∷ b ∷ c ∷ []) (decode_loop (e ∷ es))
unfolding decode_loop
decode_loop-more a b c ha hb hc e es = loop-three a b c ha hb hc (decode_loop (e ∷ es))

decode_loop-encode :
    (x : ℕ) (xs : List ℕ) → AreBytes (x ∷ xs) → decode_loop (encode (x ∷ xs)) ≡ decoded (x ∷ xs)
unfolding encode prepend
decode_loop-encode a [] h = last-one a a a h.0 h.0 h.0
decode_loop-encode a (b ∷ []) h = last-two a b b h.0 h.1.0 h.1.0
decode_loop-encode a (b ∷ c ∷ []) h = last-three a b c h.0 h.1.0 h.1.1.0
decode_loop-encode a (b ∷ c ∷ d ∷ rest) h =
    let (e, es, eq) = encode-cons d rest in
    let ih : decode_loop (e ∷ es) ≡ decoded (d ∷ rest) =
      rw eq at (decode_loop-encode d rest h.1.1.1) in
    rw eq (step e es ih)
  where
    step :
        (e : ℕ) (es : List ℕ)
        → decode_loop (e ∷ es) ≡ decoded (d ∷ rest)
        → decode_loop (
            enc (a / 4)
            ∷ enc (a % 4 * 16 + b / 16)
            ∷ enc (b % 16 * 4 + c / 64)
            ∷ enc (c % 64)
            ∷ e
            ∷ es)
          ≡ decoded (a ∷ b ∷ c ∷ d ∷ rest)
    step e es ih = decode_loop-more a b c h.0 h.1.0 h.1.1.0 e es ∙ ap (prepend (a ∷ b ∷ c ∷ [])) ih

length-encode : (xs : List ℕ) → length (encode xs) ≡ capacity_for_encode (length xs)
unfolding encode capacity_for_encode
length-encode [] = refl
length-encode (a ∷ []) = refl
length-encode (a ∷ b ∷ []) = refl
length-encode (a ∷ b ∷ c ∷ rest) = omega (arith, length-encode rest)

-- Decode reads back what Encode wrote of any bytes but none, and Encode writes exactly the number
-- of characters that CapacityForEncode promises.
pub decode-encode :
    (x : ℕ) (xs : List ℕ)
    → AreBytes (x ∷ xs)
    → (decode (encode (x ∷ xs)) ≡ decoded (x ∷ xs))
      × (length (encode (x ∷ xs)) ≡ capacity_for_encode (length (x ∷ xs)))
unfolding decode capacity_for_encode
decode-encode x xs h =
    let size = length-encode (x ∷ xs) in
    let whole : (length (encode (x ∷ xs)) % 4 == 0) ≡ true = ground arith in
    (rw whole (decode_loop-encode x xs h), size)
