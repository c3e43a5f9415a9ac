-- ===== src/QueryParser/Feed.antt =====
-- What the loop of `Parse` of AnnService/src/Server/QueryParser.cpp does with a whole option and with the
-- text of a vector.
use mathlib.Core.List.{append_assoc, append-nil}
use sptag.Base.{
  ℕ, ◌+◌, ◌≡◌, refl, ap, sym, ◌∙◌, Bool, true, false, not, ◌&&◌, ◌||◌, List, [], ◌∷◌, ◌++◌, map,
  inl, inr, arith, ◌==◌, if◌then◌else◌, Bool-cases,
}
use sptag.Base.Sums.{every}
use sptag.QueryParser.{
  Mode, option_name, option_value, vector, Parser, is_space, lower, member, put, end_word, step_in,
  step, run,
}

-- a character of a word
unfoldable pub plain : ℕ → Bool
plain c = not (is_space c) && not (c == 0)

-- a character of the name of an option, behind its first
unfoldable pub in_name : ℕ → Bool
in_name c = plain c && not (c == b':' || c == b'=')

-- the loop over a text without its end
unfoldable pub feed : List ℕ → Parser → List ℕ → Parser
feed separators p [] = p
feed separators p (c ∷ cs) = feed separators (step separators p c) cs

abbrev written_as : Parser → Mode → List ℕ → Parser
written_as p m w = record p { mode = m; written = w }

abbrev vector_as : Parser → List ℕ → ℕ → Parser
vector_as p w n = record p { mode = vector; written = w; est_dimension = n }

vector_as_eq :
    (p : Parser) {w x : List ℕ} {m n : ℕ} → w ≡ x → m ≡ n → vector_as p w m ≡ vector_as p x n
vector_as_eq p e f = λ i. vector_as p (e i) (f i)

add_zero : (n : ℕ) → n + 0 ≡ n
add_zero n = omega arith

module _ (separators : List ℕ) where
  pub feed-append :
      (p : Parser) (xs ys : List ℕ)
      → feed separators p (xs ++ ys) ≡ feed separators (feed separators p xs) ys
  unfolding feed
  feed-append p [] ys = refl
  feed-append p (x ∷ xs) ys = feed-append (step separators p x) xs ys

  pub run-feed :
      (p : Parser) (xs : List ℕ)
      → every (λ c. not (c == 0)) xs ≡ true
      → run separators p xs ≡ end_word (feed separators p xs).mode (feed separators p xs)
  unfolding run feed every
  run-feed p [] h = refl
  run-feed p (x ∷ xs) h = elim (Bool-cases (x == 0)) [
    | inl e ↦ absurd (let never = rw e at h in cc)
    | inr e ↦ rw e (run-feed (step separators p x) xs (rw e at h))
  ]

  pub step-plain :
      (p : Parser) (c : ℕ) → plain c ≡ true → step separators p c ≡ step_in separators p.mode p c
  unfolding step plain
  step-plain p c h = elim (Bool-cases (is_space c)) [
    | inl e ↦ absurd (let never = rw e at h in cc)
    | inr e ↦ rw e refl
  ]

  append_one : (w : List ℕ) (c : ℕ) (cs : List ℕ) → (w ++ c ∷ []) ++ cs ≡ w ++ c ∷ cs
  append_one w c cs = append_assoc w (c ∷ []) cs

  pub feed-value :
      (p : Parser) (v : List ℕ)
      → every plain v ≡ true
      → feed separators (record p { mode = option_value }) v
        ≡ record p { mode = option_value; written = p.written ++ v }
  unfolding feed every put step_in
  feed-value p [] h = ap (written_as p option_value) (sym (append-nil p.written))
  feed-value p (c ∷ cs) h =
      rw (step-plain (record p { mode = option_value }) c (ground (arith, h))) (
        feed-value (record p { written = p.written ++ c ∷ [] }) cs (ground (arith, h))
        ∙ ap (written_as p option_value) (append_one p.written c cs))

  pub feed-name :
      (p : Parser) (v : List ℕ)
      → every in_name v ≡ true
      → feed separators (record p { mode = option_name }) v
        ≡ record p { mode = option_name; written = p.written ++ map lower v }
  unfolding feed every put step_in in_name
  feed-name p [] h = ap (written_as p option_name) (sym (append-nil p.written))
  feed-name p (c ∷ cs) h =
      let no_end : (c == b':' || c == b'=') ≡ false = ground (arith, h) in
      rw (step-plain (record p { mode = option_name }) c (ground (arith, h)), no_end)
        (feed-name (record p { written = p.written ++ lower c ∷ [] }) cs (ground (arith, h))
          ∙ ap (written_as p option_name) (append_one p.written (lower c) (map lower cs)))

  -- a separator is written over
  unfoldable pub cut : ℕ → ℕ
  cut c = if member c separators then 0 else c

  pub cuts : List ℕ → ℕ
  cuts [] = 0
  cuts (c ∷ cs) = (if member c separators then 1 else 0) + cuts cs

  pub feed-vector :
      (p : Parser) (v : List ℕ)
      → every plain v ≡ true
      → feed separators (record p { mode = vector }) v ≡ record p {
        mode = vector;
        written = p.written ++ map cut v;
        est_dimension = p.est_dimension + cuts v;
      }
  unfolding feed every put step_in cut cuts
  feed-vector p [] h = vector_as_eq p (sym (append-nil p.written)) (sym (add_zero p.est_dimension))
  feed-vector p (c ∷ cs) h = elim (Bool-cases (member c separators)) [
    | inl e ↦
        let q = record p { written = p.written ++ 0 ∷ []; est_dimension = p.est_dimension + 1 } in
        rw (step-plain (record p { mode = vector }) c (ground (arith, h)), e)
          (feed-vector q cs (ground (arith, h))
            ∙ vector_as_eq p (append_one p.written 0 (map cut cs)) (omega arith))
    | inr e ↦
        rw (step-plain (record p { mode = vector }) c (ground (arith, h)), e)
          (feed-vector (record p { written = p.written ++ c ∷ [] }) cs (ground (arith, h))
            ∙ vector_as_eq p (append_one p.written c (map cut cs)) (omega arith))
  ]
