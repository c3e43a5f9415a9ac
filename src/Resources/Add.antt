-- ===== src/Resources/Add.antt =====
-- `Add` of ResourceManager.h, and when a manager is well-formed.
use sptag.Base.{
  ℕ, ◌+◌, ◌%◌, ◌^◌, ◌<◌, ◌≡◌, ◌≢◌, refl, inl, inr, List, [], ◌∷◌, ◌++◌, Option, none, some, arith,
  ltb, ◌==◌, if◌then◌else◌, Bool-cases, Option-cases, length, length-append, ◌>>=◌,
}
use sptag.Resources.{ResourceItem, ResourceManager, find, erase, emplace, fetch_id, add}

fetch_id-valid :
    (next : ℕ)
    → next < 2 ^ 32
    → (id : ℕ) × (after : ℕ) × (fetch_id 2 next ≡ some (id, after))
      × (0 < id)
      × (id < 2 ^ 32)
      × (after < 2 ^ 32)
unfolding fetch_id
fetch_id-valid next h = elim (Bool-cases (next == 0)) [
  | inl z ↦ (1, 2, ground arith, omega arith, omega arith, omega arith)
  | inr nz ↦ (next, (next + 1) % 2 ^ 32, rw nz refl, ground arith, h, omega arith)
]

module _ {ℓ} {R : Type ℓ} where
  pub find-erase :
      (id j : ℕ) (rs : List (ℕ × R)) → find j (erase id rs) ≡ (if id == j then none else find j rs)
  unfolding find erase
  find-erase id j [] = ground arith
  find-erase id j ((k, r) ∷ rs) = ground (arith, find-erase id j rs)

  pub find-emplace :
      (id j : ℕ) (r : R) (rs : List (ℕ × R))
      → find id rs ≡ none
      → find j (emplace id r rs) ≡ (if id == j then some r else find j rs)
  unfolding find emplace
  find-emplace id j r rs h = ground arith

  emplace-known : (id : ℕ) (r : R) (rs : List (ℕ × R)) → find id rs ≢ none → emplace id r rs ≡ rs
  unfolding emplace
  emplace-known id r rs h = elim (Option-cases (find id rs)) [
    | inl e ↦ absurd (h e)
    | inr (x, e) ↦ ground arith
  ]

  pub record IsValid (m : ResourceManager R) : Type ℓ where
    pub next : m.next_resource_id < 2 ^ 32
    pub counted : m.timeout_item_count ≡ length m.timeout_list
    pub fits : length m.timeout_list + 1 < 2 ^ 32

  -- the ids that a manager knows, with what they stand for
  abbrev pub known : ResourceManager R → ℕ → Option R
  known m id = find id m.resources

  -- what `add` has done
  pub record Added (m : ResourceManager R) (r : R) (timeout now id : ℕ) (t : ResourceManager R)
      : Type ℓ where
    pub proper : 0 < id
    pub next : t.next_resource_id < 2 ^ 32
    pub counted : t.timeout_item_count ≡ length t.timeout_list
    pub finds : known m id ≡ none → (j : ℕ) → known t j ≡ (if id == j then some r else known m j)
    pub timed :
        0 < timeout
        → t.timeout_list
          ≡ m.timeout_list ++ record { resource_id = id; expire_time = now + timeout } ∷ []
    pub untimed : timeout ≡ 0 → t.timeout_list ≡ m.timeout_list
    pub keeps : known m id ≢ none → t.resources ≡ m.resources

  -- On a well-formed manager Add ends with a valid id; if nothing stands under that id, the
  -- resource does from then on and nothing else changes, and if something does, it stays and
  -- the new resource is not kept; a time limit is put at the end of the list if it is positive.
  pub add-Added :
      (m : ResourceManager R) (r : R) (timeout now : ℕ)
      → IsValid m
      → (id : ℕ) × (t : ResourceManager R) × (add m r timeout now ≡ some (id, t))
        × Added m r timeout now id t
  unfolding add
  add-Added m r timeout now v =
      let (id, next, run, pos, fits, small) = fetch_id-valid m.next_resource_id v.next in
      let there = emplace-known id r m.resources in
      let fresh = λ (e : known m id ≡ none) (j : ℕ). find-emplace id j r m.resources e in
      let item : ResourceItem = record { resource_id = id; expire_time = now + timeout } in
      let longer = length-append m.timeout_list (item ∷ []) in
      let kept : ResourceManager R = record m {
        next_resource_id = next;
        resources = emplace id r m.resources;
      } in
      elim (Bool-cases (ltb 0 timeout)) [
        | inl timed ↦ (
          id,
          record kept {
            timeout_list = m.timeout_list ++ item ∷ [];
            timeout_item_count = (m.timeout_item_count + 1) % 2 ^ 32;
          },
          rw (run, ◌>>=◌, timed) refl,
          record {
            proper = pos;
            next = small;
            counted = omega (arith, v.counted, v.fits, longer);
            finds = fresh;
            timed = λ h. refl;
            untimed = λ h. absurd (ground arith);
            keeps = there;
          },
        )
        | inr untimed ↦ (
          id,
          kept,
          rw (run, ◌>>=◌, untimed) refl,
          record {
            proper = pos;
            next = small;
            counted = v.counted;
            finds = fresh;
            timed = λ h. absurd (ground arith);
            untimed = λ h. refl;
            keeps = there;
          },
        )
      ]
