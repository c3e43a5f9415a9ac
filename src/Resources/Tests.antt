-- ===== src/Resources/Tests.antt =====
-- The resource manager at concrete contents.
use sptag.Base.{ℕ, ◌≡◌, refl, List, [], ◌∷◌, ◌++◌, some, arith}
use sptag.Resources.{
  ResourceItem, ResourceManager, find, erase, add, get_and_remove, expire, deliver, check_timeout,
}
use sptag.Resources.Add.{IsValid, Added, add-Added}
use sptag.Resources.Expire.{Expired}
use sptag.Resources.Timeout.{Delivered, check_timeout-Delivered}

abbrev two_waiting : ResourceManager ℕ
two_waiting = record {
  next_resource_id = 3;
  resources = (1, 100) ∷ (2, 200) ∷ [];
  timeout_list =
      record { resource_id = 1; expire_time = 50 }
      ∷ record { resource_id = 2; expire_time = 70 }
      ∷ [];
  timeout_item_count = 2;
}

two_waiting-IsValid : IsValid two_waiting
two_waiting-IsValid = record { next = omega arith; counted = refl; fits = omega arith }

add-Added_example :
    (id : ℕ) × (t : ResourceManager ℕ) × (add two_waiting 300 20 40 ≡ some (id, t))
    × Added two_waiting 300 20 40 id t
add-Added_example = add-Added two_waiting 300 20 40 two_waiting-IsValid

check_timeout-Delivered_example :
    (gone : List ResourceItem) × (rest : List ResourceItem) × (two_waiting.timeout_list
      ≡ gone ++ rest)
    × Expired (λ k. 60) 0 gone rest
    × ((check_timeout (λ k. 60) two_waiting).1.timeout_list ≡ rest)
    × ((check_timeout (λ k. 60) two_waiting).1.next_resource_id ≡ 3)
    × IsValid (check_timeout (λ k. 60) two_waiting).1
    × Delivered gone two_waiting
        (check_timeout (λ k. 60) two_waiting).0
        (check_timeout (λ k. 60) two_waiting).1
check_timeout-Delivered_example = check_timeout-Delivered (λ k. 60) two_waiting two_waiting-IsValid

-- one of the two has waited too long
test_check_timeout : (check_timeout (λ k. 60) two_waiting).0 ≡ (1, 100) ∷ []
unfolding check_timeout expire deliver get_and_remove find erase
test_check_timeout = refl
