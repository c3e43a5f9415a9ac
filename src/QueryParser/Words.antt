-- ===== src/QueryParser/Words.antt =====
-- The strings of the options of a query in the buffer of AnnService/src/Server/QueryParser.cpp.
use mathlib.Core.List.{append_assoc}
use sptag.Base.{
  ℕ, ◌+◌, ◌≡◌, refl, ap, ◌∙◌, true, List, [], ◌∷◌, ◌++◌, map, arith, length, length-append,
  length-map,
}
use sptag.Base.Sums.{every}
use sptag.QueryParser.{lower, c_string}
use sptag.QueryParser.Feed.{plain, in_name}
use sptag.QueryParser.Strings.{no_nul, c_string-at}
use sptag.QueryParser.Options.{
  OptionWord, IsOption, image, places, images, all_places, AreOptions, more_options, reading,
}

pub plain-no_nul : (c : ℕ) → plain c ≡ true → no_nul c ≡ true
unfolding plain
plain-no_nul c h = ground (arith, h)

pub every-no_nul : (xs : List ℕ) → every plain xs ≡ true → every no_nul xs ≡ true
unfolding every
every-no_nul [] h = refl
every-no_nul (x ∷ xs) h = ground (arith, h, plain-no_nul x, every-no_nul xs)

name-no_nul : (xs : List ℕ) → every in_name xs ≡ true → every no_nul (map lower xs) ≡ true
unfolding every in_name plain lower
name-no_nul [] h = refl
name-no_nul (x ∷ xs) h = ground (arith, h, name-no_nul xs)

module _ (o : OptionWord) (h : IsOption o) (before rest : List ℕ) (n : ℕ)
    (size : length before ≡ n) where
  name_string : c_string (before ++ (image o ++ rest)) (n + 1) ≡ (reading o).0
  unfolding image reading every
  name_string =
      let name = o.first ∷ map lower o.tail in
      let after = (o.value_first ∷ (o.value_tail ++ 0 ∷ [])) ++ rest in
      let split : before ++ (image o ++ rest) ≡ (before ++ b'$' ∷ []) ++ (name ++ 0 ∷ after) =
        simp append_assoc refl in
      ap (λ b. c_string b (n + 1)) split
      ∙ c_string-at (before ++ b'$' ∷ []) name after (n + 1)
          (omega (arith, length-append before (b'$' ∷ [])))
          (ground (arith, plain-no_nul o.first h.first, name-no_nul o.tail h.tail))

  value_string : c_string (before ++ (image o ++ rest)) (n + 3 + length o.tail) ≡ (reading o).1
  unfolding image reading every
  value_string =
      let name = b'$' ∷ o.first ∷ (map lower o.tail ++ 0 ∷ []) in
      let value = o.value_first ∷ o.value_tail in
      let k = n + 3 + length o.tail in
      let split : before ++ (image o ++ rest) ≡ (before ++ name) ++ (value ++ 0 ∷ rest) =
        simp append_assoc refl in
      ap (λ b. c_string b k) split
      ∙ c_string-at (before ++ name) value rest k
          (omega (
            arith,
            length-append before name,
            length-append (map lower o.tail) (0 ∷ []),
            length-map lower o.tail,
          ))
          (ground (
            arith,
            plain-no_nul o.value_first h.value_first,
            every-no_nul o.value_tail h.value_tail,
          ))

-- the strings of an option
abbrev pub option_strings : List ℕ → ℕ × ℕ → List ℕ × List ℕ
option_strings buffer place = (c_string buffer place.0, c_string buffer place.1)

pub places-strings :
    (os : List OptionWord) (before rest : List ℕ) (n : ℕ)
    → AreOptions os
    → length before ≡ n
    → map (option_strings (before ++ (images os ++ rest))) (all_places n os) ≡ map reading os
unfolding images all_places places
places-strings [] before rest n h size = refl
places-strings (o ∷ os) before rest n (more_options first others) size =
    let buffer = before ++ ((image o ++ images os) ++ rest) in
    let k = n + length (image o) in
    let here : buffer ≡ before ++ (image o ++ (images os ++ rest)) = simp append_assoc refl in
    let next : buffer ≡ (before ++ image o) ++ (images os ++ rest) = simp append_assoc refl in
    let name =
      ap (λ b. c_string b (n + 1)) here ∙ name_string o first before (images os ++ rest) n size in
    let value =
      ap (λ b. c_string b (n + 3 + length o.tail)) here
      ∙ value_string o first before (images os ++ rest) n size in
    let tail =
      ap (λ b. map (option_strings b) (all_places k os)) next
      ∙ places-strings os (before ++ image o) rest k others
          (omega (arith, length-append before (image o))) in
    λ i. (name i, value i) ∷ tail i
