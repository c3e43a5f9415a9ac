-- ===== src/QueryParser/RoundTrip.antt =====
-- `Parse` of AnnService/src/Server/QueryParser.cpp on the text of options and a vector.
use mathlib.Core.List.{append_assoc, append-nil}
use sptag.Base.{
  ℕ, suc, ◌+◌, ◌-◌, ◌≡◌, refl, ap, sym, ◌∙◌, inl, inr, true, false, ◌||◌, List, [], ◌∷◌, ◌++◌, map,
  some, arith, leb, ◌==◌, length, length-append, length-map, Bool-cases, take, drop,
  take-append_self, drop-append_self,
}
use sptag.Base.Sums.{every, every-append}
use sptag.QueryParser.{
  nothing_begun, vector, Parser, QueryParser, lower, member, iter, put, end_word, step_in, step,
  run, split_vector, has_vector, is_empty, started, finish, parse, c_string, elements_from,
}
use sptag.QueryParser.Feed.{
  plain, in_name, feed, feed-append, run-feed, step-plain, cut, cuts, feed-vector,
}
use sptag.QueryParser.Strings.{
  no_nul, nuls, starts, elements_from-nuls, elements_from-nul, starts-strings,
}
use sptag.QueryParser.Options.{
  OptionWord, IsOption, print_option, image, option_as, print_options, images, all_places,
  AreOptions, more_options, reading, feed-options,
}
use sptag.QueryParser.Words.{plain-no_nul, every-no_nul, option_strings, places-strings}
use sptag.QueryParser.Vector.{
  join, in_element, is_word, all_words, begins, seps, cut-join, join-plain, words-elements,
}

length-image : (o : OptionWord) → length (image o) ≡ length (print_option o)
unfolding image print_option
length-image o = omega (
  arith,
  length-append (map lower o.tail) (0 ∷ o.value_first ∷ (o.value_tail ++ 0 ∷ [])),
  length-append o.tail (b':' ∷ o.value_first ∷ (o.value_tail ++ b' ' ∷ [])),
  length-append o.value_tail (0 ∷ []),
  length-append o.value_tail (b' ' ∷ []),
  length-map lower o.tail,
)

length-images : (os : List OptionWord) → length (images os) ≡ length (print_options os)
unfolding images print_options
length-images [] = refl
length-images (o ∷ os) = omega (
  arith,
  length-append (image o) (images os),
  length-append (print_option o) (print_options os),
  length-image o,
  length-images os,
)

name-no_nul : (xs : List ℕ) → every in_name xs ≡ true → every no_nul xs ≡ true
unfolding every in_name
name-no_nul [] h = refl
name-no_nul (x ∷ xs) h = ground (arith, h, plain-no_nul x, name-no_nul xs)

option-no_nul : (o : OptionWord) → IsOption o → every no_nul (print_option o) ≡ true
unfolding print_option every
option-no_nul o h =
    let value =
      every-append no_nul o.value_tail (b' ' ∷ []) (every-no_nul o.value_tail h.value_tail) refl in
    let from_value : every no_nul (b':' ∷ o.value_first ∷ (o.value_tail ++ b' ' ∷ [])) ≡ true =
      ground (arith, value, plain-no_nul o.value_first h.value_first) in
    let name =
      every-append no_nul o.tail (b':' ∷ o.value_first ∷ (o.value_tail ++ b' ' ∷ []))
        (name-no_nul o.tail h.tail) from_value in
    ground (arith, name, plain-no_nul o.first h.first)

options-no_nul : (os : List OptionWord) → AreOptions os → every no_nul (print_options os) ≡ true
unfolding print_options every
options-no_nul [] h = refl
options-no_nul (o ∷ os) (more_options first rest) =
    every-append no_nul (print_option o) (print_options os) (option-no_nul o first)
      (options-no_nul os rest)

-- the variables of `Parse` where the loop ends, for options behind which a vector `c ∷ cs` stands
ended : ℕ → QueryParser → List OptionWord → ℕ → ℕ → List ℕ → Parser
ended s old os b c cs = record (started old) {
  mode = vector;
  written = (images os ++ c ∷ []) ++ map (cut (seps s)) cs;
  option_begin = b;
  vector_begin = some (length (images os));
  vector_end = some (length ((images os ++ c ∷ []) ++ map (cut (seps s)) cs));
  est_dimension = 0 + cuts (seps s) cs + 1;
  options = all_places 0 os;
}

step-vector :
    (separators : List ℕ) (p : Parser) (c : ℕ)
    → plain c ≡ true
    → (c == b'$' || c == b'#') ≡ false
    → step separators (record p { mode = nothing_begun }) c
      ≡ put (record p { vector_begin = some (iter p) }) c vector
unfolding step_in put
step-vector separators p c h k = elim (Bool-cases (c == b'$')) [
  | inl e ↦ absurd (let never = rw e at k in cc)
  | inr e ↦ rw (step-plain separators (record p { mode = nothing_begun }) c h, e, rw e at k) refl
]

run-ended :
    (s : ℕ) (old : QueryParser) (os : List OptionWord) (c : ℕ) (cs : List ℕ)
    → AreOptions os
    → every plain (c ∷ cs) ≡ true
    → (c == b'$' || c == b'#') ≡ false
    → (b : ℕ) × (run (seps s) (started old) (print_options os ++ c ∷ cs) ≡ ended s old os b c cs)
unfolding started ended feed put every
run-ended s old os c cs are h k =
    let (b, fed) = feed-options (seps s) (started old) os are in
    let q = option_as (started old) (images os) b (all_places 0 os) in
    let r = put (record q { vector_begin = some (length (images os)) }) c vector in
    let total : feed (seps s) (started old) (print_options os ++ c ∷ cs) ≡ record r {
      written = (images os ++ c ∷ []) ++ map (cut (seps s)) cs;
      est_dimension = 0 + cuts (seps s) cs;
    } =
      feed-append (seps s) (started old) (print_options os) (c ∷ cs)
      ∙ ap (λ p. feed (seps s) p (c ∷ cs)) fed
      ∙ ap (λ p. feed (seps s) p cs) (step-vector (seps s) q c (ground (arith, h)) k)
      ∙ feed-vector (seps s) r cs (ground (arith, h)) in
    let text = print_options os ++ c ∷ cs in
    let plain_text =
      every-append no_nul (print_options os) (c ∷ cs) (options-no_nul os are)
        (every-no_nul (c ∷ cs) h) in
    (
      b,
      run-feed (seps s) (started old) text plain_text
          ∙ ap (λ p. end_word p.mode p) total
          ∙ unfold end_word in refl,
    )

-- what `Parse` makes of a text
pub record Parses (os : List OptionWord) (es : List (List ℕ)) (r : QueryParser) : Type 0 where
  pub succeeds : r.succeeds ≡ true
  pub options : map (option_strings r.data_holder) r.options ≡ map reading os
  pub elements : map (c_string r.data_holder) r.vector_elements ≡ es

parse-text :
    (s : ℕ) (old : QueryParser) (os : List OptionWord) (c : ℕ) (cs : List ℕ) (e : List ℕ)
    (es : List (List ℕ))
    → AreOptions os
    → join s (e ∷ es) ≡ c ∷ cs
    → plain s ≡ true
    → all_words s (e ∷ es) ≡ true
    → (c == s) ≡ false
    → (c == b'$' || c == b'#') ≡ false
    → Parses os (e ∷ es) (parse old (print_options os ++ c ∷ cs) (some (seps s)))
unfolding parse finish has_vector split_vector ended is_empty starts
parse-text s old os c cs e es are text sep words first k =
    let whole = join-plain s e es sep words in
    let (b, ends) = run-ended s old os c cs are (rw text at whole) k in
    let n = length (images os) in
    let mapped = map (cut (seps s)) cs in
    let w = (images os ++ c ∷ []) ++ mapped in
    let query = print_options os ++ c ∷ cs in
    let all = nuls (e ∷ es) in
    let kept : cut (seps s) c ≡ c = unfold cut in unfold member in rw first refl in
    let shown : (c ∷ mapped) ++ 0 ∷ [] ≡ all =
      ap (λ x. x ∷ (mapped ++ 0 ∷ [])) (sym kept) ∙ (rw text at (cut-join s e es words)) in
    let sized : length w ≡ n + suc (length mapped) =
      omega
        (arith, length-append (images os ++ c ∷ []) mapped, length-append (images os) (c ∷ [])) in
    let mapped_size = length-map (cut (seps s)) cs in
    let same_length : length query ≡ length w =
      omega (arith, length-append (print_options os) (c ∷ cs), length-images os) in
    let rejoin : w ++ 0 ∷ [] ≡ images os ++ ((c ∷ mapped) ++ 0 ∷ []) = simp append_assoc refl in
    let holder : w ++ drop (length w) (query ++ 0 ∷ []) ≡ images os ++ (all ++ []) =
      ap (λ d. w ++ d) (drop-append_self query (0 ∷ []) (length w) same_length)
      ∙ rejoin
      ∙ ap (λ l. images os ++ l) (shown ∙ sym (append-nil all)) in
    let elements : split_vector (images os ++ (all ++ [])) (some n) (some (length w))
        ≡ starts n (e ∷ es) =
      ap (λ l. elements_from n false (take (length w - n) l))
        (drop-append_self (images os) (all ++ []) n refl ∙ append-nil all ∙ sym shown)
      ∙ ap (elements_from n false)
          (take-append_self (c ∷ mapped) (0 ∷ []) (length w - n) (omega arith))
      ∙ sym (elements_from-nul n false (c ∷ mapped))
      ∙ ap (elements_from n false) shown
      ∙ elements_from-nuls n (e ∷ es) (words-elements s (e ∷ es) words) in
    let estimated : leb 1 (0 + cuts (seps s) cs + 1) ≡ true = ground arith in
    rw (ends, holder, elements, estimated)
      (record {
        succeeds = refl;
        options = places-strings os [] (all ++ []) 0 are refl;
        elements = starts-strings (images os) (e ∷ es) [] n refl (words-elements s (e ∷ es) words);
      })

-- Parse of a text of options, each `$`, a name, `:` and a value before a space, and of a vector
-- whose elements are not empty, hold neither the separator nor a space, and do not begin with `$`
-- or `#`, succeeds: the options are read with their values, the first character of a name as it
-- was written and the others in lower case, and the elements are read in order.
pub parse-print :
    (s : ℕ) (old : QueryParser) (os : List OptionWord) (e : List ℕ) (es : List (List ℕ))
    → AreOptions os
    → plain s ≡ true
    → all_words s (e ∷ es) ≡ true
    → begins e ≡ true
    → Parses os (e ∷ es) (parse old (print_options os ++ join s (e ∷ es)) (some (seps s)))
unfolding all_words is_word in_element begins every join
parse-print s old os [] es are sep words start = absurd (let never = words in cc)
parse-print s old os (c ∷ ds) [] are sep words start =
    parse-text s old os c ds (c ∷ ds) [] are refl sep words (ground (arith, words))
      (ground (arith, start))
parse-print s old os (c ∷ ds) (f ∷ es) are sep words start =
    parse-text s old os c (ds ++ s ∷ join s (f ∷ es)) (c ∷ ds) (f ∷ es) are refl sep words
      (ground (arith, words)) (ground (arith, start))
