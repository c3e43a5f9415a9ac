-- ===== src/Heap/Tests.antt =====
-- The queue of a search at concrete contents.
use sptag.Base.{ℕ, ◌≡◌, refl, List, [], ◌∷◌, some, Perm, arith}
use sptag.Base.Int.{pos}
use sptag.Array.{get! }
use sptag.Pairs.{NodeDistPair, less_pair, nearest_first}
use sptag.Heap.{Heap, top, insert, pop, pop_ref, pow2_floor, pow2_floor_loop, rise}
use sptag.Heap.Valid.{IsValid, elements}
use sptag.Heap.Pop.{Popped, pop-Popped}
use sptag.Heap.Insert.{Exchanged, insert-room, insert-full}

abbrev pair : ℕ → ℕ → NodeDistPair
pair node distance = record { node = pos node; distance = distance }

-- two entries in an array for `capacity`
abbrev two_of : ℕ → List NodeDistPair → Heap NodeDistPair
two_of capacity rest = record {
  heap = pair 9 9 ∷ pair 1 4 ∷ pair 2 7 ∷ rest;
  capacity = capacity;
  count = 2;
  lastlevel = 2;
}

abbrev two_of_three : Heap NodeDistPair
two_of_three = two_of 3 (pair 0 0 ∷ [])

abbrev two_of_two : Heap NodeDistPair
two_of_two = two_of 2 []

two_of_three-IsValid : IsValid two_of_three
unfolding less_pair get!
two_of_three-IsValid = record {
  width = refl;
  bounded = omega arith;
  level = (omega arith, λ _. omega arith);
  ordered = λ i lo hi. let e : i ≡ 2 = omega arith in rw e refl;
}

two_of_two-IsValid : IsValid two_of_two
unfolding less_pair get!
two_of_two-IsValid = record {
  width = refl;
  bounded = omega arith;
  level = (omega arith, λ _. omega arith);
  ordered = λ i lo hi. let e : i ≡ 2 = omega arith in rw e refl;
}

pop-Popped_example :
    (value : NodeDistPair) × (h : Heap NodeDistPair) × (top two_of_three ≡ some value)
    × (pop two_of_three ≡ some (some value, h))
    × (pop_ref two_of_three ≡ some (value, h))
    × Popped two_of_three value h
pop-Popped_example = pop-Popped two_of_three two_of_three-IsValid (omega arith)

insert-room_example :
    (h : Heap NodeDistPair) × (insert two_of_three (pair 3 1) ≡ some h)
    × IsValid h
    × Perm (elements h) (pair 3 1 ∷ elements two_of_three)
    × (h.count ≡ 3)
insert-room_example = insert-room two_of_three (pair 3 1) two_of_three-IsValid (omega arith)

insert-full_example :
    (h : Heap NodeDistPair) × (insert two_of_two (pair 3 1) ≡ some h)
    × Exchanged two_of_two (pair 3 1) h
insert-full_example = insert-full two_of_two (pair 3 1) two_of_two-IsValid refl (omega arith)

-- the nearer node rises to the top
test_insert :
    insert two_of_three (pair 3 1)
    ≡ some
        (record two_of_three { heap = pair 9 9 ∷ pair 3 1 ∷ pair 2 7 ∷ pair 1 4 ∷ []; count = 3 })
unfolding insert rise less_pair
test_insert = refl

test_pow2_floor : (pow2_floor 0 ≡ 0) × (pow2_floor 1 ≡ 1) × (pow2_floor 100 ≡ 64)
unfolding pow2_floor pow2_floor_loop
test_pow2_floor = (refl, refl, refl)
