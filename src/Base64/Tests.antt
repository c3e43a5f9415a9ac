-- ===== src/Base64/Tests.antt =====
-- Base64 at concrete characters.
use sptag.Base.{◌+◌, ◌*◌, ◌/◌, ◌%◌, ◌≡◌, refl, [], ◌∷◌, some, arith, length}
use sptag.Base64.{
  encode, decode, decoded, rejected, padding_char, dec, dec_table, decode_loop, with_quantum,
  last_quantum, capacity_for_encode,
}
use sptag.Base64.RoundTrip.{decode-encode}
use sptag.Base64.Padding.{decode-one_padded}

dec_M : dec b'M' ≡ some 12
unfolding dec dec_table
dec_M = refl

dec_Q : dec b'Q' ≡ some 16
unfolding dec dec_table
dec_Q = refl

dec_X : dec b'X' ≡ some 23
unfolding dec dec_table
dec_X = refl

-- "MXQ=" decodes to "1t", with bits left over that are not zero in "MXX="
test_decode :
    (decode (b'M' ∷ b'X' ∷ b'Q' ∷ b'=' ∷ []) ≡ decoded (49 ∷ 116 ∷ []))
    × (decode (b'M' ∷ b'X' ∷ b'X' ∷ b'=' ∷ []) ≡ decoded (49 ∷ 117 ∷ []))
    × (decode (b'M' ∷ b'X' ∷ []) ≡ rejected)
unfolding decode decode_loop with_quantum last_quantum dec dec_table
test_decode = (refl, refl, refl)

decode-encode_example :
    (decode (encode (1 ∷ 2 ∷ 3 ∷ 255 ∷ [])) ≡ decoded (1 ∷ 2 ∷ 3 ∷ 255 ∷ []))
    × (length (encode (1 ∷ 2 ∷ 3 ∷ 255 ∷ [])) ≡ capacity_for_encode 4)
decode-encode_example =
    decode-encode 1 (2 ∷ 3 ∷ 255 ∷ [])
      (omega arith, (omega arith, (omega arith, (omega arith, tt))))

decode-one_padded_example :
    decode (b'M' ∷ b'X' ∷ b'X' ∷ padding_char ∷ [])
    ≡ decoded ((12 * 4 + 23 / 16) % 256 ∷ (23 * 16 + 23 / 4) % 256 ∷ [])
decode-one_padded_example =
    decode-one_padded b'M' b'X' 12 23 dec_M dec_X (omega arith) (omega arith) b'X' 23 dec_X
      (omega arith) (λ e. absurd (omega arith))
