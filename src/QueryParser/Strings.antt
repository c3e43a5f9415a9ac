-- ===== src/QueryParser/Strings.antt =====
-- The C strings in the buffer of `Parse` of AnnService/src/Server/QueryParser.cpp.
use mathlib.Core.List.{append_assoc}
use sptag.Base.{
  ℕ, ◌+◌, ◌≡◌, refl, ap, ◌∙◌, inl, inr, Bool, true, false, not, ◌&&◌, List, [], ◌∷◌, ◌++◌, map,
  arith, ◌==◌, length, length-append, drop-append_self, Bool-cases,
}
use sptag.QueryParser.{elements_from, until_nul, c_string}
use sptag.Base.Sums.{every}

abbrev pub no_nul : ℕ → Bool
no_nul c = not (c == 0)

until_nul-string : (xs rest : List ℕ) → every no_nul xs ≡ true → until_nul (xs ++ 0 ∷ rest) ≡ xs
unfolding until_nul every
until_nul-string [] rest h = refl
until_nul-string (x ∷ xs) rest h = elim (Bool-cases (x == 0)) [
  | inl e ↦ absurd (let never = rw e at h in cc)
  | inr e ↦ rw e (ap (◌∷◌ x) (until_nul-string xs rest (rw e at h)))
]

-- the string at place `n`, behind `n` characters and before a NUL
pub c_string-at :
    (before xs rest : List ℕ) (n : ℕ)
    → length before ≡ n
    → every no_nul xs ≡ true
    → c_string (before ++ (xs ++ 0 ∷ rest)) n ≡ xs
unfolding c_string
c_string-at before xs rest n e h =
    rw (drop-append_self before (xs ++ 0 ∷ rest) n e) (until_nul-string xs rest h)

-- elements of a vector, each before a NUL
unfoldable pub nuls : List (List ℕ) → List ℕ
nuls [] = []
nuls (e ∷ es) = e ++ 0 ∷ nuls es

-- where they start, behind `n` characters
unfoldable pub starts : ℕ → List (List ℕ) → List ℕ
starts n [] = []
starts n (e ∷ es) = n ∷ starts (n + length e + 1) es

unfoldable pub is_element : List ℕ → Bool
is_element [] = false
is_element (c ∷ cs) = every no_nul (c ∷ cs)

unfoldable pub all_elements : List (List ℕ) → Bool
all_elements [] = true
all_elements (e ∷ es) = is_element e && all_elements es

pass :
    (xs rest : List ℕ) (n : ℕ)
    → every no_nul xs ≡ true
    → elements_from n true (xs ++ 0 ∷ rest) ≡ elements_from (n + length xs + 1) false rest
unfolding elements_from every
pass [] rest n h = ap (λ k. elements_from k false rest) (omega arith)
pass (x ∷ xs) rest n h = elim (Bool-cases (x == 0)) [
  | inl e ↦ absurd (let never = rw e at h in cc)
  | inr e ↦
      rw e (pass xs rest (n + 1) (rw e at h) ∙ ap (λ k. elements_from k false rest) (omega arith))
]

pub elements_from-nuls :
    (n : ℕ) (es : List (List ℕ))
    → all_elements es ≡ true
    → elements_from n false (nuls es) ≡ starts n es
unfolding elements_from nuls starts is_element all_elements every
elements_from-nuls n [] h = refl
elements_from-nuls n ([] ∷ es) h = absurd (let never = h in cc)
elements_from-nuls n ((c ∷ cs) ∷ es) h = elim (Bool-cases (c == 0)) [
  | inl e ↦ absurd (let never = rw e at h in cc)
  | inr e ↦
      let both = rw e at h in
      rw e (
        ap (◌∷◌ n) (
          pass cs (nuls es) (n + 1) (ground (arith, both))
          ∙ ap (λ k. elements_from k false (nuls es)) (omega arith)
          ∙ elements_from-nuls (n + length (c ∷ cs) + 1) es (ground (arith, both))))
]

-- The strings at the starts of the elements are the elements.
pub starts-strings :
    (before : List ℕ) (es : List (List ℕ)) (rest : List ℕ) (n : ℕ)
    → length before ≡ n
    → all_elements es ≡ true
    → map (c_string (before ++ (nuls es ++ rest))) (starts n es) ≡ es
unfolding nuls starts is_element all_elements
starts-strings before [] rest n size h = refl
starts-strings before ([] ∷ es) rest n size h = absurd (let never = h in cc)
starts-strings before ((c ∷ cs) ∷ es) rest n size h =
    let e = c ∷ cs in
    let k = n + length e + 1 in
    let buffer = before ++ ((e ++ 0 ∷ nuls es) ++ rest) in
    let here : buffer ≡ before ++ (e ++ 0 ∷ (nuls es ++ rest)) = simp append_assoc refl in
    let next : buffer ≡ (before ++ (e ++ 0 ∷ [])) ++ (nuls es ++ rest) = simp append_assoc refl in
    let longer : length (before ++ (e ++ 0 ∷ [])) ≡ k =
      omega (arith, length-append before (e ++ 0 ∷ []), length-append e (0 ∷ [])) in
    let first : c_string buffer n ≡ e =
      ap (λ b. c_string b n) here
      ∙ c_string-at before e (nuls es ++ rest) n size (ground (arith, h)) in
    let others : map (c_string buffer) (starts k es) ≡ es =
      ap (λ b. map (c_string b) (starts k es)) next
      ∙ starts-strings (before ++ (e ++ 0 ∷ [])) es rest k longer (ground (arith, h)) in
    λ i. first i ∷ others i

-- A NUL at the end is no element.
pub elements_from-nul :
    (n : ℕ) (within : Bool) (xs : List ℕ)
    → elements_from n within (xs ++ 0 ∷ []) ≡ elements_from n within xs
unfolding elements_from
elements_from-nul n within [] = refl
elements_from-nul n within (x ∷ xs) =
    let skip = elements_from-nul (n + 1) false xs in
    let pass = elements_from-nul (n + 1) true xs in rw (skip, pass) refl
