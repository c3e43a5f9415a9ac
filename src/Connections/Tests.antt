-- ===== src/Connections/Tests.antt =====
-- The pool of connections at concrete contents.
use sptag.Base.{
  ℕ, zero, suc, ◌+◌, ◌<◌, ◌≡◌, ◌≢◌, refl, false, List, [], ◌∷◌, none, some, arith, get_elem?,
  length,
}
use sptag.Connections.{
  Slot, ConnectionManager, pool_size, new_manager, position, add_connection, remove_connection,
  get_connection,
}
use sptag.Connections.Pool.{used, IsValid, taken, new_manager-IsValid}
use sptag.Connections.Add.{add_connection-adds}
use sptag.Connections.Remove.{remove_connection-removes}

few : new_manager.connection_count < pool_size
unfolding new_manager
few = omega arith

add_connection-adds_example :
    (id : ℕ) × ((t : ConnectionManager) × ((add_connection new_manager ≡ some (id, t))
        × ((0 < id)
            × (IsValid t
                × ((get_connection t id ≡ some id)
                    × ((j : ℕ) → j ≢ id → get_connection t j ≡ get_connection new_manager j))))))
add_connection-adds_example = add_connection-adds new_manager new_manager-IsValid few

-- every slot taken, by the ids from 256 on
abbrev slots_from : ℕ → ℕ → List Slot
slots_from zero id = []
slots_from (suc n) id = record { is_empty = false; connection = some id } ∷ slots_from n (id + 1)

abbrev full_manager : ConnectionManager
full_manager = record {
  next_connection_id = 512;
  connection_count = 256;
  connections = slots_from 256 256;
}

slots_from-fits :
    (n id i : ℕ) (s : Slot)
    → get_elem? (slots_from n id) i ≡ some s
    → s ≡ record { is_empty = false; connection = some (id + i) }
slots_from-fits zero id i s h = absurd (ground arith)
slots_from-fits (suc n) id zero s h = grind arith
slots_from-fits (suc n) id (suc i) s h =
    let e : id + 1 + i ≡ id + suc i = omega arith in rw (← e) (slots_from-fits n (id + 1) i s h)

get-inside : (xs : List Slot) (i : ℕ) (s : Slot) → get_elem? xs i ≡ some s → i < length xs
get-inside [] i s h = absurd (ground arith)
get-inside (x ∷ xs) zero s h = omega arith
get-inside (x ∷ xs) (suc i) s h = omega (arith, get-inside xs i s h)

full_manager-IsValid : IsValid full_manager
unfolding taken position
full_manager-IsValid = record {
  width = refl;
  counted = refl;
  next = omega arith;
  in_place = λ p s h.
      let lt = get-inside (slots_from 256 256) p s h in
      rw (slots_from-fits 256 256 p s h) (used (256 + p) (omega arith) (omega arith));
}

get_300 : get_connection full_manager 300 ≡ some 300
unfolding get_connection position
get_300 = refl

same_position : position 300 ≡ position 44
unfolding position
same_position = refl

remove_connection-removes_example :
    (t : ConnectionManager) × ((remove_connection full_manager 44 ≡ some (some 44, t))
      × (IsValid t
          × ((get_connection t 300 ≡ none)
              × ((j : ℕ)
                  → position j ≢ position 44
                  → get_connection t j ≡ get_connection full_manager j))))
remove_connection-removes_example =
    remove_connection-removes full_manager 44 300 full_manager-IsValid same_position get_300
