-- ===== src/QueryParser/Vector.antt =====
-- The text of a vector for `Parse` of AnnService/src/Server/QueryParser.cpp.
use mathlib.Core.List.{append_assoc}
use sptag.Base.{
  ℕ, ◌≡◌, refl, ap, ◌∙◌, inl, inr, Bool, true, false, not, ◌&&◌, ◌||◌, List, [], ◌∷◌, ◌++◌, map,
  arith, ◌==◌, Bool-cases, ==_refl,
}
use sptag.Base.Sums.{every, every-append}
use sptag.QueryParser.{member}
use sptag.QueryParser.Feed.{plain, cut}
use sptag.QueryParser.Strings.{nuls, is_element, all_elements}
use sptag.QueryParser.Words.{every-no_nul}

-- the elements of a vector, with a separator between two
unfoldable pub join : ℕ → List (List ℕ) → List ℕ
join s [] = []
join s (e ∷ []) = e
join s (e ∷ f ∷ es) = e ++ s ∷ join s (f ∷ es)

-- a character of an element
unfoldable pub in_element : ℕ → ℕ → Bool
in_element s c = plain c && not (c == s)

unfoldable pub is_word : ℕ → List ℕ → Bool
is_word s [] = false
is_word s (c ∷ cs) = every (in_element s) (c ∷ cs)

unfoldable pub all_words : ℕ → List (List ℕ) → Bool
all_words s [] = true
all_words s (e ∷ es) = is_word s e && all_words s es

-- how the text of a vector may begin
unfoldable pub begins : List ℕ → Bool
begins [] = false
begins (c ∷ cs) = not (c == b'$' || c == b'#')

module _ (s : ℕ) where
  abbrev pub seps : List ℕ
  seps = s ∷ []

  cut-element : (xs : List ℕ) → every (in_element s) xs ≡ true → map (cut seps) xs ≡ xs
  unfolding every in_element cut member
  cut-element [] h = refl
  cut-element (x ∷ xs) h = elim (Bool-cases (x == s)) [
    | inl e ↦ absurd (ground (arith, h, e))
    | inr e ↦ rw e (ap (◌∷◌ x) (cut-element xs (ground (arith, h))))
  ]

  plain-element : (xs : List ℕ) → every (in_element s) xs ≡ true → every plain xs ≡ true
  unfolding every in_element
  plain-element [] h = refl
  plain-element (x ∷ xs) h = ground (arith, h, plain-element xs)

  map-append : (f : ℕ → ℕ) (xs ys : List ℕ) → map f (xs ++ ys) ≡ map f xs ++ map f ys
  map-append f [] ys = refl
  map-append f (x ∷ xs) ys = ap (◌∷◌ (f x)) (map-append f xs ys)

  word-every : (e : List ℕ) → is_word s e ≡ true → every (in_element s) e ≡ true
  unfolding is_word
  word-every [] h = absurd (let never = h in cc)
  word-every (c ∷ cs) h = h

  -- Each separator becomes a NUL.
  pub cut-join :
      (e : List ℕ) (es : List (List ℕ))
      → all_words s (e ∷ es) ≡ true
      → map (cut seps) (join s (e ∷ es)) ++ 0 ∷ [] ≡ nuls (e ∷ es)
  unfolding join all_words nuls
  cut-join e [] h = ap (λ l. l ++ 0 ∷ []) (cut-element e (word-every e (ground (arith, h))))
  cut-join e (f ∷ es) h =
      let text = join s (f ∷ es) in
      let gone : cut seps s ≡ 0 = unfold cut in unfold member in rw (==_refl s) refl in
      let same = cut-element e (word-every e (ground (arith, h))) in
      ap (λ l. l ++ 0 ∷ []) (map-append (cut seps) e (s ∷ text))
      ∙ append_assoc (map (cut seps) e) (map (cut seps) (s ∷ text)) (0 ∷ [])
      ∙ ap (λ l. l ++ (cut seps s ∷ (map (cut seps) text ++ 0 ∷ []))) same
      ∙ ap (λ c. e ++ c ∷ (map (cut seps) text ++ 0 ∷ [])) gone
      ∙ ap (λ l. e ++ 0 ∷ l) (cut-join f es (ground (arith, h)))

  pub join-plain :
      (e : List ℕ) (es : List (List ℕ))
      → plain s ≡ true
      → all_words s (e ∷ es) ≡ true
      → every plain (join s (e ∷ es)) ≡ true
  unfolding join all_words every
  join-plain e [] p h = plain-element e (word-every e (ground (arith, h)))
  join-plain e (f ∷ es) p h =
      every-append plain e (s ∷ join s (f ∷ es))
        (plain-element e (word-every e (ground (arith, h))))
        (ground (arith, p, join-plain f es p (ground (arith, h))))

  pub words-elements : (es : List (List ℕ)) → all_words s es ≡ true → all_elements es ≡ true
  unfolding all_words all_elements is_element is_word
  words-elements [] h = refl
  words-elements ([] ∷ es) h = absurd (let never = h in cc)
  words-elements ((c ∷ cs) ∷ es) h =
      let word : every (in_element s) (c ∷ cs) ≡ true = ground (arith, h) in
      let first = every-no_nul (c ∷ cs) (plain-element (c ∷ cs) word) in
      ground (arith, h, first, words-elements es)
