-- ===== src/Postings/Tests.antt =====
-- Two threads that add to one size.
use sptag.Base.{◌≡◌, ◌≤◌, ◌*◌, ◌+◌, ◌%◌, ◌^◌, refl, [], ◌∷◌, some, get_elem?, arith}
use sptag.Base.Sums.{every, total}
use sptag.Postings.{
  Call, inc_size, loaded, returned, System, load, win, lose, Run, start, later, begin,
}
use sptag.Postings.Lost.{added, all_inc, fits, is_inc, sizes_add}
use sptag.Postings.Ends.{calls_end, calls_return, has_returned, heads_inside, Returns, call_of}

abbrev two : Call
two = inc_size 0 2

abbrev three : Call
three = inc_size 0 3

abbrev at_end : System
at_end = record { sizes = 10 ∷ []; threads = returned two ∷ returned three ∷ [] }

-- the second thread reads, loses to the first, and reads again
race : Run (begin (5 ∷ []) (two ∷ three ∷ [])) 6 at_end
unfolding begin
race =
    later
      (later
        (later (later (later (later start (load 1 refl refl)) (load 0 refl refl)) (win 0 refl refl))
          (lose 1 refl refl (λ e. absurd (ground (arith, e)))))
        (load 1 refl refl))
      (win 1 refl refl)

calls_end_example : 6 ≤ 2 * (2 + 2 * 2)
calls_end_example = calls_end (5 ∷ []) (two ∷ three ∷ []) 6 at_end race

-- the second thread has read a size that the first has changed since
abbrev overtaken : System
overtaken = record { sizes = 7 ∷ []; threads = returned two ∷ loaded three 5 ∷ [] }

half_race : Run (begin (5 ∷ []) (two ∷ three ∷ [])) 3 overtaken
unfolding begin
half_race = later (later (later start (load 1 refl refl)) (load 0 refl refl)) (win 0 refl refl)

calls_return_example : Returns overtaken 1 (call_of (loaded three 5))
unfolding heads_inside every has_returned
calls_return_example =
    calls_return (5 ∷ []) (two ∷ three ∷ []) 3 overtaken 1 (loaded three 5) refl half_race refl refl

sizes_add_example : get_elem? at_end.sizes 0 ≡ some ((5 + total (added 0) at_end.threads) % 2 ^ 32)
unfolding all_inc fits is_inc every
sizes_add_example = sizes_add (5 ∷ []) (two ∷ three ∷ []) 6 at_end 0 5 refl refl race refl
