-- ===== src/QueryParser.antt =====
-- AnnService/src/Server/QueryParser.cpp: the text of a query, as the server and the aggregator get it. A
-- pointer into the buffer is the place it points to.
pub mod Feed
pub mod Strings
pub mod Options
pub mod Words
pub mod Vector
pub mod RoundTrip
mod Tests
use sptag.Base.{
  ℕ, zero, suc, ◌+◌, ◌-◌, Bool, true, false, ◌&&◌, ◌||◌, List, [], ◌∷◌, ◌++◌, Option, none, some,
  leb, ◌==◌, if◌then◌else◌, length, take, drop,
}

-- `State` of `Parse`
pub data Mode : Type 0 where
  nothing_begun option_name_begin option_name option_value_begin option_value : Mode
  vector vector_base64 : Mode

-- `m_vectorBase64`, which may point into the buffer of an earlier query
pub data Pointer : Type 0 where
  null dangling : Pointer
  inside : ℕ → Pointer

-- The variables of `Parse` in its loop, and the fields that it writes. The characters before `iter`
-- are `written`; from `iter` on the buffer is the query. `option_begin` is set before it is read.
pub record Parser : Type 0 where
  pub mode : Mode
  pub written : List ℕ
  pub option_begin : ℕ
  pub vector_begin : Option ℕ
  pub vector_end : Option ℕ
  pub est_dimension : ℕ
  pub options : List (ℕ × ℕ)
  pub base64 : Pointer
  pub base64_length : ℕ

-- `std::isspace` of a character, in the locale "C"
pub is_space : ℕ → Bool
is_space c = leb 9 c && leb c 13 || c == 32

-- `std::isupper`, and the letter `| 0x20`
pub lower : ℕ → ℕ
lower c = if leb 65 c && leb c 90 then c + 32 else c

pub member : ℕ → List ℕ → Bool
member c [] = false
member c (x ∷ xs) = c == x || member c xs

abbrev pub iter : Parser → ℕ
iter p = length p.written

pub put : Parser → ℕ → Mode → Parser
put p c m = record p { written = p.written ++ c ∷ []; mode = m }

-- how the word before `iter` ends, at a space or at the end of the text
pub end_word : Mode → Parser → Parser
end_word vector p = record p { est_dimension = p.est_dimension + 1; vector_end = some (iter p) }
end_word vector_base64 p = record p {
  base64_length = elim (p.base64) [ inside b ↦ iter p - b | _ ↦ p.base64_length ];
}
end_word _ p = p

-- the `switch`, on a character that is no space
pub step_in : List ℕ → Mode → Parser → ℕ → Parser
step_in separators nothing_begun p c =
    if c == b'$'
    then put p c option_name_begin
    else if c == b'#'
    then put (record p { base64 = inside (iter p + 1) }) c vector_base64
    else put (record p { vector_begin = some (iter p) }) c vector
step_in separators option_name_begin p c = put (record p { option_begin = iter p }) c option_name
step_in separators option_name p c =
    if c == b':' || c == b'=' then put p 0 option_value_begin else put p (lower c) option_name
step_in separators option_value_begin p c =
    put (record p { options = p.options ++ (p.option_begin, iter p) ∷ [] }) c option_value
step_in separators vector p c =
    if member c separators
    then put (record p { est_dimension = p.est_dimension + 1 }) 0 vector
    else put p c vector
step_in separators option_value p c = put p c option_value
step_in separators vector_base64 p c = put p c vector_base64

pub step : List ℕ → Parser → ℕ → Parser
step separators p c =
    if is_space c then put (end_word p.mode p) 0 nothing_begun else step_in separators p.mode p c

-- the loop, which ends at the first NUL of the text or at its end
pub run : List ℕ → Parser → List ℕ → Parser
run separators p [] = end_word p.mode p
run separators p (c ∷ cs) =
    let rest = run separators (step separators p c) cs in if c == 0 then end_word p.mode p else rest

-- The two inner loops over the part of the buffer between `vectorStrBegin` and `vectorStrEnd`, at
-- place `i`: `within` tells whether the second of them runs. The result is `m_vectorElements`.
pub elements_from : ℕ → Bool → List ℕ → List ℕ
elements_from i within [] = []
elements_from i within (c ∷ cs) =
    let skip = elements_from (i + 1) false cs in
    let pass = elements_from (i + 1) true cs in
    if c == 0 then skip else if within then pass else i ∷ pass

-- the fields after `Parse`, and whether it succeeds
pub record QueryParser : Type 0 where
  pub data_holder : List ℕ
  pub options : List (ℕ × ℕ)
  pub vector_elements : List ℕ
  pub vector_base64 : Pointer
  pub vector_base64_length : ℕ
  pub succeeds : Bool

-- the constructor
pub new_parser : QueryParser
new_parser = record {
  data_holder = [];
  options = [];
  vector_elements = [];
  vector_base64 = null;
  vector_base64_length = 0;
  succeeds = true;
}

-- `m_vectorElements` where the text has a vector
pub split_vector : List ℕ → Option ℕ → Option ℕ → List ℕ
split_vector buffer (some first) (some last) =
    elements_from first false (take (last - first) (drop first buffer))
split_vector buffer first last = []

is_empty : List ℕ → Bool
is_empty [] = true
is_empty (x ∷ xs) = false

has_vector : Option ℕ → ℕ → Bool
has_vector none estimate = false
has_vector (some _) estimate = leb 1 estimate

-- the pointer of an earlier query, whose buffer is released
pub release : Pointer → Pointer
release null = null
release _ = dangling

pub started : QueryParser → Parser
started old = record {
  mode = nothing_begun;
  written = [];
  option_begin = 0;
  vector_begin = none;
  vector_end = none;
  est_dimension = 0;
  options = [];
  base64 = release old.vector_base64;
  base64_length = old.vector_base64_length;
}

-- what follows the loop: `text` is the query, its NUL included
pub finish : List ℕ → Parser → QueryParser
finish text p =
    let buffer = p.written ++ drop (length p.written) text in
    let elements = split_vector buffer p.vector_begin p.vector_end in
    let split = has_vector p.vector_begin p.est_dimension in
    record {
      data_holder = buffer;
      options = p.options;
      vector_elements = if split then elements else [];
      vector_base64 = p.base64;
      vector_base64_length = p.base64_length;
      succeeds = if split && is_empty elements then false else true;
    }

-- `Parse`, with the separators given or `|`
pub parse : QueryParser → List ℕ → Option (List ℕ) → QueryParser
parse old query separators =
    finish (query ++ 0 ∷ [])
      (run (elim separators [ none ↦ b'|' ∷ [] | some s ↦ s ]) (started old) query)

-- the C string that a pointer gives
pub until_nul : List ℕ → List ℕ
until_nul [] = []
until_nul (c ∷ cs) = let rest = until_nul cs in if c == 0 then [] else c ∷ rest

pub c_string : List ℕ → ℕ → List ℕ
c_string buffer place = until_nul (drop place buffer)
