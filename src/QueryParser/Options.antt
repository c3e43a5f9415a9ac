-- ===== src/QueryParser/Options.antt =====
-- The options of a query in `Parse` of AnnService/src/Server/QueryParser.cpp.
use mathlib.Core.List.{append_assoc, append-nil}
use sptag.Base.{
  ℕ, ◌+◌, ◌≡◌, refl, ap, sym, ◌∙◌, true, List, [], ◌∷◌, ◌++◌, map, arith, length, length-append,
  length-map,
}
use sptag.Base.Sums.{every}
use sptag.QueryParser.{
  nothing_begun, option_name_begin, option_name, option_value_begin, option_value, Parser, is_space,
  lower, put, end_word, step_in, step,
}
use sptag.QueryParser.Feed.{plain, in_name, feed, feed-append, step-plain, feed-value, feed-name}

-- an option as a client writes it: `$`, a name, `:` and a value, both of a character at least
pub record OptionWord : Type 0 where
  pub first : ℕ
  pub tail : List ℕ
  pub value_first : ℕ
  pub value_tail : List ℕ

unfoldable pub print_option : OptionWord → List ℕ
print_option o = b'$' ∷ o.first ∷ (o.tail ++ b':' ∷ o.value_first ∷ (o.value_tail ++ b' ' ∷ []))

pub record IsOption (o : OptionWord) : Type 0 where
  pub first : plain o.first ≡ true
  pub tail : every in_name o.tail ≡ true
  pub value_first : plain o.value_first ≡ true
  pub value_tail : every plain o.value_tail ≡ true

-- what stands in the buffer for it
unfoldable pub image : OptionWord → List ℕ
image o = b'$' ∷ o.first ∷ (map lower o.tail ++ 0 ∷ o.value_first ∷ (o.value_tail ++ 0 ∷ []))

-- where its name and its value stand, behind `n` characters
unfoldable pub places : ℕ → OptionWord → ℕ × ℕ
places n o = (n + 1, n + 3 + length o.tail)

abbrev pub option_as : Parser → List ℕ → ℕ → List (ℕ × ℕ) → Parser
option_as p w b l = record p { mode = nothing_begun; written = w; option_begin = b; options = l }

option_as_eq :
    (p : Parser) {w x : List ℕ} {b c : ℕ} {l m : List (ℕ × ℕ)}
    → w ≡ x
    → b ≡ c
    → l ≡ m
    → option_as p w b l ≡ option_as p x c m
option_as_eq p e f g = λ i. option_as p (e i) (f i) (g i)

module _ (separators : List ℕ) where
  step-dollar :
      (p : Parser)
      → step separators (record p { mode = nothing_begun }) b'$' ≡ put p b'$' option_name_begin
  unfolding step step_in is_space put
  step-dollar p = refl

  step-colon :
      (p : Parser)
      → step separators (record p { mode = option_name }) b':' ≡ put p 0 option_value_begin
  unfolding step step_in is_space put
  step-colon p = refl

  step-space :
      (p : Parser) → step separators (record p { mode = option_value }) b' ' ≡ put p 0 nothing_begun
  unfolding step is_space end_word put
  step-space p = refl

  feed-option :
      (p : Parser) (o : OptionWord)
      → IsOption o
      → feed separators (record p { mode = nothing_begun }) (print_option o)
        ≡ option_as p
            (p.written ++ image o)
            (length p.written + 1)
            (p.options ++ places (length p.written) o ∷ [])
  unfolding print_option feed step_in put image places
  feed-option p o h =
      let w1 = p.written ++ b'$' ∷ [] in
      let w2 = w1 ++ o.first ∷ [] in
      let w3 = w2 ++ map lower o.tail in
      let w4 = w3 ++ 0 ∷ [] in
      let w5 = w4 ++ o.value_first ∷ [] in
      let q1 = record p { written = w1; mode = option_name_begin } in
      let q2 = record p { written = w2; mode = option_name; option_begin = length w1 } in
      let q4 = record p { written = w4; mode = option_value_begin; option_begin = length w1 } in
      let q5 = record p {
        written = w5;
        mode = option_value;
        option_begin = length w1;
        options = p.options ++ (length w1, length w4) ∷ [];
      } in
      let r3 = o.value_tail ++ b' ' ∷ [] in
      let r2 = b':' ∷ o.value_first ∷ r3 in
      let r1 = o.tail ++ r2 in
      let value_place : length w4 ≡ length p.written + 3 + length o.tail = omega (
        arith,
        length-append w3 (0 ∷ []),
        length-append w2 (map lower o.tail),
        length-append w1 (o.first ∷ []),
        length-append p.written (b'$' ∷ []),
        length-map lower o.tail,
      ) in
      ap (λ q. feed separators (step separators q o.first) r1) (step-dollar p)
      ∙ ap (λ q. feed separators q r1) (step-plain separators q1 o.first h.first)
      ∙ feed-append separators q2 o.tail r2
      ∙ ap (λ q. feed separators q r2) (feed-name separators q2 o.tail h.tail)
      ∙ ap (λ q. feed separators (step separators q o.value_first) r3)
          (step-colon (record q2 { written = w3 }))
      ∙ ap (λ q. feed separators q r3) (step-plain separators q4 o.value_first h.value_first)
      ∙ feed-append separators q5 o.value_tail (b' ' ∷ [])
      ∙ ap (λ q. feed separators q (b' ' ∷ [])) (feed-value separators q5 o.value_tail h.value_tail)
      ∙ step-space (record q5 { written = w5 ++ o.value_tail })
      ∙ option_as_eq p (simp append_assoc refl) (length-append p.written (b'$' ∷ [])) (
          ap (λ pair. p.options ++ pair ∷ [])
            (λ i. (length-append p.written (b'$' ∷ []) i, value_place i)))

-- several options, each before a space
unfoldable pub print_options : List OptionWord → List ℕ
print_options [] = []
print_options (o ∷ os) = print_option o ++ print_options os

unfoldable pub images : List OptionWord → List ℕ
images [] = []
images (o ∷ os) = image o ++ images os

unfoldable pub all_places : ℕ → List OptionWord → List (ℕ × ℕ)
all_places n [] = []
all_places n (o ∷ os) = places n o ∷ all_places (n + length (image o)) os

pub data AreOptions : List OptionWord → Type 0 where
  no_options : AreOptions []
  more_options :
      {o : OptionWord} {os : List OptionWord} → IsOption o → AreOptions os → AreOptions (o ∷ os)

-- what the server reads: the name, its first character as it was written and the others in lower
-- case, and the value
unfoldable pub reading : OptionWord → List ℕ × List ℕ
reading o = (o.first ∷ map lower o.tail, o.value_first ∷ o.value_tail)

module _ (separators : List ℕ) where
  pub feed-options :
      (p : Parser) (os : List OptionWord)
      → AreOptions os
      → (b : ℕ) × (feed separators (record p { mode = nothing_begun }) (print_options os)
          ≡ option_as p (p.written ++ images os) b (p.options ++ all_places (length p.written) os))
  unfolding print_options images all_places feed
  feed-options p [] h = (
    p.option_begin,
    option_as_eq p (sym (append-nil p.written)) refl (sym (append-nil p.options)),
  )
  feed-options p (o ∷ os) (more_options first rest) =
      let here = places (length p.written) o in
      let q = option_as p (p.written ++ image o) (length p.written + 1) (p.options ++ here ∷ []) in
      let (b, e) = feed-options q os rest in
      (
        b,
        feed-append separators (record p { mode = nothing_begun }) (print_option o)
              (print_options os)
            ∙ ap (λ r. feed separators r (print_options os)) (feed-option separators p o first)
            ∙ e
            ∙ option_as_eq p (append_assoc p.written (image o) (images os)) refl (
                append_assoc p.options (here ∷ []) (all_places (length (p.written ++ image o)) os)
                ∙ ap (λ n. p.options ++ here ∷ all_places n os)
                    (length-append p.written (image o))),
      )
