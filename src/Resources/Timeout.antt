-- ===== src/Resources/Timeout.antt =====
-- `GetAndRemove` of ResourceManager.h and a pass of its timeout checker.
use sptag.Base.{
  ℕ, ◌+◌, ◌-◌, ◌*◌, ◌%◌, ◌^◌, ◌≤◌, ◌≡◌, ◌∙◌, refl, ap, inl, inr, Bool, true, false, List, [], ◌∷◌,
  ◌++◌, none, some, arith, ltb, ◌==◌, ==_iff, ==_refl, ◌||◌, if◌then◌else◌, Bool-cases,
  Option-cases, length, length-append,
}
use sptag.Resources.{
  ResourceItem, ResourceManager, find, get_and_remove, remove, expire, deliver, check_timeout,
}
use sptag.Resources.Expire.{Expired, expire-Expired, empty_of-length}
use sptag.Resources.Add.{find-erase, IsValid, known}

abbrev pub items_hold : ℕ → List ResourceItem → Bool
items_hold id [] = false
items_hold id (item ∷ items) = item.resource_id == id || items_hold id items

module _ {ℓ} {R : Type ℓ} where
  -- GetAndRemove returns what stands under the id, if anything; nothing stands there
  -- afterwards, and every other id keeps what it had.
  pub get_and_remove-known :
      (m : ResourceManager R) (id : ℕ)
      → ((get_and_remove m id).0 ≡ known m id)
        × ((j : ℕ) → known (get_and_remove m id).1 j ≡ (if id == j then none else known m j))
  unfolding get_and_remove
  get_and_remove-known m id = elim (Option-cases (known m id)) [
    | inl e ↦ (ground arith, (λ j. ground arith))
    | inr (r, e) ↦ (ground arith, (λ j. ground (arith, find-erase id j m.resources)))
  ]

  -- `Remove` is `GetAndRemove` without the result
  pub remove-get_and_remove :
      (m : ResourceManager R) (id : ℕ) → remove m id ≡ (get_and_remove m id).1
  unfolding remove get_and_remove
  remove-get_and_remove m id = elim (Option-cases (known m id)) [
    | inl e ↦ ground arith
    | inr (r, e) ↦ ground arith
  ]

  -- how often a callback is called for an id
  abbrev pub times : ℕ → List (ℕ × R) → ℕ
  times id [] = 0
  times id ((k, r) ∷ calls) = (if k == id then 1 else 0) + times id calls

  -- what a pass over the items `gone` does: `calls` are the callbacks' arguments
  pub record Delivered (gone : List ResourceItem) (m : ResourceManager R) (calls : List (ℕ × R))
      (t : ResourceManager R) : Type ℓ where
    pub called : (id : ℕ) → find id calls ≡ (if items_hold id gone then known m id else none)
    pub once : (id : ℕ) → times id calls ≤ 1
    pub left : (id : ℕ) → known t id ≡ (if items_hold id gone then none else known m id)

  -- the fields that the callbacks' loop leaves
  record Left (m t : ResourceManager R) : Type 0 where
    list : t.timeout_list ≡ m.timeout_list
    count : t.timeout_item_count ≡ m.timeout_item_count
    next : t.next_resource_id ≡ m.next_resource_id

  times-absent : (id : ℕ) (calls : List (ℕ × R)) → find id calls ≡ none → times id calls ≡ 0
  unfolding find
  times-absent id [] h = refl
  times-absent id ((k, r) ∷ calls) h = ground (arith, times-absent id calls)

  get_and_remove-same :
      (m : ResourceManager R) (id : ℕ)
      → ((get_and_remove m id).1.timeout_list ≡ m.timeout_list)
        × ((get_and_remove m id).1.timeout_item_count ≡ m.timeout_item_count)
        × ((get_and_remove m id).1.next_resource_id ≡ m.next_resource_id)
  unfolding get_and_remove
  get_and_remove-same m id = elim (Option-cases (known m id)) [
    | inl e ↦ (ground arith, ground arith, ground arith)
    | inr (r, e) ↦ (ground arith, ground arith, ground arith)
  ]

  deliver-passes :
      (item : ResourceItem) (items : List ResourceItem) (m : ResourceManager R)
      → (get_and_remove m item.resource_id).0 ≡ none
      → deliver (item ∷ items) m ≡ deliver items (get_and_remove m item.resource_id).1
  unfolding deliver
  deliver-passes item items m e = ground arith

  deliver-calls :
      (item : ResourceItem) (items : List ResourceItem) (m : ResourceManager R) (r : R)
      → (get_and_remove m item.resource_id).0 ≡ some r
      → deliver (item ∷ items) m ≡ (
          let later = deliver items (get_and_remove m item.resource_id).1 in
          ((item.resource_id, r) ∷ later.0, later.1))
  unfolding deliver
  deliver-calls item items m r e = ground arith

  deliver-none : (m : ResourceManager R) → deliver [] m ≡ ([], m)
  unfolding deliver
  deliver-none m = refl

  deliver-Delivered :
      (items : List ResourceItem) (m : ResourceManager R)
      → Delivered items m (deliver items m).0 (deliver items m).1 × Left m (deliver items m).1
  unfolding find
  deliver-Delivered [] m = rw (deliver-none m) (
    record { called = λ id. refl; once = λ id. omega arith; left = λ id. refl },
    record { list = refl; count = refl; next = refl },
  )
  deliver-Delivered (item ∷ items) m =
      let k = item.resource_id in
      let (found, gone) = get_and_remove-known m k in
      let (list, count, next) = get_and_remove-same m k in
      let ih = deliver-Delivered items (get_and_remove m k).1 in
      elim (Option-cases (known m k)) [
        | inl e ↦
            let none_found : (get_and_remove m k).0 ≡ none = found ∙ e in
            rw (deliver-passes item items m none_found) (
              record {
                called = λ id. ih.0.called id ∙ ground (arith, gone id, ==_iff k id);
                once = ih.0.once;
                left = λ id. ih.0.left id ∙ ground (arith, gone id, ==_iff k id);
              },
              record {
                list = ih.1.list ∙ list;
                count = ih.1.count ∙ count;
                next = ih.1.next ∙ next;
              },
            )
        | inr (r, e) ↦
            let some_found : (get_and_remove m k).0 ≡ some r = found ∙ e in
            let absent : find k (deliver items (get_and_remove m k).1).0 ≡ none =
              ih.0.called k ∙ ground (arith, gone k, ==_refl k) in
            rw (deliver-calls item items m r some_found) (
              record {
                called = λ id. ground (arith, gone id, ==_iff k id, ih.0.called id);
                once = λ id. ground (
                  arith,
                  ih.0.once id,
                  ==_iff k id,
                  times-absent k (deliver items (get_and_remove m k).1).0 absent,
                );
                left = λ id. ih.0.left id ∙ ground (arith, gone id, ==_iff k id);
              },
              record {
                list = ih.1.list ∙ list;
                count = ih.1.count ∙ count;
                next = ih.1.next ∙ next;
              },
            )
      ]

  abbrev without : ResourceManager R → List ResourceItem → List ResourceItem → ResourceManager R
  without m gone rest = record m {
    timeout_list = rest;
    timeout_item_count = (m.timeout_item_count + (2 ^ 32 - 1) * length gone) % 2 ^ 32;
  }

  check_timeout-some :
      (clock : ℕ → ℕ) (m : ResourceManager R)
      → ltb 0 m.timeout_item_count ≡ true
      → check_timeout clock m
        ≡ deliver
            (expire clock 0 m.timeout_list).0
            (without m (expire clock 0 m.timeout_list).0 (expire clock 0 m.timeout_list).1)
  unfolding check_timeout
  check_timeout-some clock m h = rw h refl

  check_timeout-none :
      (clock : ℕ → ℕ) (m : ResourceManager R)
      → ltb 0 m.timeout_item_count ≡ false
      → check_timeout clock m ≡ ([], m)
  unfolding check_timeout
  check_timeout-none clock m h = rw h refl

  -- A pass of the timeout checker on a well-formed manager takes off the front items whose time
  -- has come, up to the first whose time has not; for each of them whose resource still stands
  -- the callback is called with it, once, and the resource goes; nothing else changes and the
  -- manager stays well-formed.
  pub check_timeout-Delivered :
      (clock : ℕ → ℕ) (m : ResourceManager R)
      → IsValid m
      → (gone : List ResourceItem) × (rest : List ResourceItem) × (m.timeout_list ≡ gone ++ rest)
        × Expired clock 0 gone rest
        × ((check_timeout clock m).1.timeout_list ≡ rest)
        × ((check_timeout clock m).1.next_resource_id ≡ m.next_resource_id)
        × IsValid (check_timeout clock m).1
        × Delivered gone m (check_timeout clock m).0 (check_timeout clock m).1
  check_timeout-Delivered clock m v =
      let gone = (expire clock 0 m.timeout_list).0 in
      let rest = (expire clock 0 m.timeout_list).1 in
      let (same, expired) = expire-Expired clock 0 m.timeout_list in
      let size = length-append gone rest in
      elim (Bool-cases (ltb 0 m.timeout_item_count)) [
        | inl some_there ↦
            let fewer = without m gone rest in
            let (handed, left) = deliver-Delivered gone fewer in
            rw (check_timeout-some clock m some_there) (
              gone,
              rest,
              same,
              expired,
              left.list,
              left.next,
              record {
                next = rw left.next v.next;
                counted =
                    rw (left.count, left.list)
                      (omega (arith, v.counted, v.fits, size, ap length same));
                fits = rw left.list (omega (arith, v.fits, size, ap length same));
              },
              record { called = handed.called; once = handed.once; left = handed.left },
            )
        | inr none_there ↦
            let empty = empty_of-length m.timeout_list (ground (arith, v.counted)) in
            rw (check_timeout-none clock m none_there) (
              [],
              [],
              empty,
              record {
                due = λ i x h. absurd (ground arith);
                not_due = λ x h. absurd (ground arith);
              },
              empty,
              refl,
              v,
              unfold find in
                  record { called = λ id. refl; once = λ id. omega arith; left = λ id. refl },
            )
      ]
