-- ===== src/Visited/Tests.antt =====
-- The visited set at concrete contents.
use sptag.Base.{◌≡◌, ◌≢◌, refl, Bool, false, [], ◌∷◌, some, replicate}
use sptag.Visited.{
  Visited, full, probe, insert_in, check_and_set_entry, check_and_set, contains, hash_func, rotl,
}
use sptag.Visited.Growth.{IsValid, free-IsTable}
use sptag.Visited.Marks.{Marks, check_and_set-room}

-- eight slots, all free
abbrev four_slots : Visited
four_slots = record { second_hash = false; exp = 2; pool_size = 3; table = replicate 8 0 }

four_slots-IsValid : IsValid four_slots
four_slots-IsValid = record { table = free-IsTable 3; clean = λ _. refl }

insert_in-room :
    (s : Bool)
    → contains 6 four_slots.table ≡ false
    → insert_in four_slots.table 3 6 false ≢ some (full, s)
unfolding insert_in probe hash_func rotl
insert_in-room s h e = cc

check_and_set-room_example :
    (r : Bool × Visited) × (check_and_set 1 four_slots 5 ≡ some r) × Marks four_slots 6 r
check_and_set-room_example = check_and_set-room 1 four_slots 5 four_slots-IsValid insert_in-room

-- the second call for an id finds it
test_check_and_set :
    check_and_set 1 four_slots 5
    ≡ some (false, record four_slots { table = 0 ∷ 0 ∷ 0 ∷ 6 ∷ 0 ∷ 0 ∷ 0 ∷ 0 ∷ [] })
unfolding check_and_set check_and_set_entry insert_in probe hash_func rotl
test_check_and_set = refl
