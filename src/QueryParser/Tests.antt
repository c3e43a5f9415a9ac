-- ===== src/QueryParser/Tests.antt =====
-- The query "$Top:k $ab:3 1.5|2".
use sptag.Base.{refl, List, [], ◌∷◌, ◌++◌, ℕ, some}
use sptag.Base.Sums.{every}
use sptag.QueryParser.{new_parser, parse, is_space}
use sptag.QueryParser.Options.{OptionWord, IsOption, no_options, more_options, print_options}
use sptag.QueryParser.Vector.{join, all_words, is_word, in_element, begins}
use sptag.QueryParser.Feed.{plain, in_name}
use sptag.QueryParser.RoundTrip.{Parses, parse-print}

abbrev top : OptionWord
top = record { first = b'T'; tail = b'o' ∷ b'p' ∷ []; value_first = b'k'; value_tail = [] }

abbrev three : OptionWord
three = record { first = b'a'; tail = b'b' ∷ []; value_first = b'3'; value_tail = [] }

abbrev options : List OptionWord
options = top ∷ three ∷ []

abbrev elements : List (List ℕ)
elements = (b'1' ∷ b'.' ∷ b'5' ∷ []) ∷ (b'2' ∷ []) ∷ []

top-IsOption : IsOption top
unfolding plain in_name every is_space
top-IsOption = record { first = refl; tail = refl; value_first = refl; value_tail = refl }

three-IsOption : IsOption three
unfolding plain in_name every is_space
three-IsOption = record { first = refl; tail = refl; value_first = refl; value_tail = refl }

parse-print_example :
    Parses options elements
      (parse new_parser (print_options options ++ join b'|' elements) (some (b'|' ∷ [])))
unfolding plain is_space all_words is_word in_element begins every
parse-print_example =
    parse-print b'|' new_parser options (b'1' ∷ b'.' ∷ b'5' ∷ []) ((b'2' ∷ []) ∷ [])
      (more_options top-IsOption (more_options three-IsOption no_options)) refl refl refl
