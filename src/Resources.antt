-- ===== src/Resources.antt =====
-- AnnService/inc/Socket/ResourceManager.h: what a client waits for, under the id that a response
-- will carry, with its time limit. The calls run one after the other, each under its lock.
pub mod Add
pub mod Expire
pub mod Timeout
mod Tests
use sptag.Base.{
  ℕ, zero, suc, ◌+◌, ◌-◌, ◌*◌, ◌%◌, ◌^◌, Bool, true, false, List, [], ◌∷◌, ◌++◌, Option, none, some,
  ltb, leb, ◌==◌, if◌then◌else◌, length, ◌>>=◌,
}

-- the callback of an item is called with the resource
pub record ResourceItem : Type 0 where
  pub resource_id : ℕ
  pub expire_time : ℕ

pub record ResourceManager {ℓ} (R : Type ℓ) : Type ℓ where
  pub next_resource_id : ℕ
  pub resources : List (ℕ × R)
  pub timeout_list : List ResourceItem
  pub timeout_item_count : ℕ

abbrev pub invalid_id : ℕ
invalid_id = 0

-- The loop of `Add`: the id and the next one. Of two ids one is valid.
pub fetch_id : ℕ → ℕ → Option (ℕ × ℕ)
fetch_id zero next = none
fetch_id (suc fuel) next =
    let after = (next + 1) % 2 ^ 32 in
    let again = fetch_id fuel after in if next == invalid_id then again else some (next, after)

-- The loop over the front of `m_timeoutList`: the items taken off, and the manager without them.
-- `clock k` is what the clock says at its reading `k`.
pub expire : (ℕ → ℕ) → ℕ → List ResourceItem → List ResourceItem × List ResourceItem
expire clock k [] = ([], [])
expire clock k (item ∷ items) =
    let (gone, rest) = expire clock (k + 1) items in
    if leb item.expire_time (clock k) then (item ∷ gone, rest) else ([], item ∷ items)

module _ {ℓ} {R : Type ℓ} where
  pub find : ℕ → List (ℕ × R) → Option R
  find id [] = none
  find id ((k, r) ∷ rs) = if k == id then some r else find id rs

  pub erase : ℕ → List (ℕ × R) → List (ℕ × R)
  erase id [] = []
  erase id ((k, r) ∷ rs) = let rest = erase id rs in if k == id then rest else (k, r) ∷ rest

  -- `emplace` leaves an entry that is there
  pub emplace : ℕ → R → List (ℕ × R) → List (ℕ × R)
  emplace id r rs = elim (find id rs) [ some _ ↦ rs | none ↦ (id, r) ∷ rs ]

  pub new_manager : ResourceManager R
  new_manager = record {
    next_resource_id = 1;
    resources = [];
    timeout_list = [];
    timeout_item_count = 0;
  }

  -- `now` is the clock, in milliseconds, when the item is made
  pub add : ResourceManager R → R → ℕ → ℕ → Option (ℕ × ResourceManager R)
  add m r timeout now = do
    (id, next) ← fetch_id 2 m.next_resource_id
    let kept = record m { next_resource_id = next; resources = emplace id r m.resources }
    let item : ResourceItem = record { resource_id = id; expire_time = now + timeout }
    if ltb 0 timeout
        then some (
          id,
          record kept {
            timeout_list = m.timeout_list ++ item ∷ [];
            timeout_item_count = (m.timeout_item_count + 1) % 2 ^ 32;
          },
        )
        else some (id, kept)

  pub get_and_remove : ResourceManager R → ℕ → Option R × ResourceManager R
  get_and_remove m id = elim (find id m.resources) [
    | some r ↦ (some r, record m { resources = erase id m.resources })
    | none ↦ (none, m)
  ]

  pub remove : ResourceManager R → ℕ → ResourceManager R
  remove m id = elim (find id m.resources) [
    | some _ ↦ record m { resources = erase id m.resources }
    | none ↦ m
  ]

  -- the loop that calls the callbacks: what they are called with
  pub deliver : List ResourceItem → ResourceManager R → List (ℕ × R) × ResourceManager R
  deliver [] m = ([], m)
  deliver (item ∷ items) m =
      let (found, taken) = get_and_remove m item.resource_id in
      let (rest, done) = deliver items taken in
      elim found [ some r ↦ ((item.resource_id, r) ∷ rest, done) | none ↦ (rest, done) ]

  -- one round of `StartCheckTimeout`
  pub check_timeout : (ℕ → ℕ) → ResourceManager R → List (ℕ × R) × ResourceManager R
  check_timeout clock m =
      let (gone, rest) = expire clock 0 m.timeout_list in
      let fewer = record m {
        timeout_list = rest;
        timeout_item_count = (m.timeout_item_count + (2 ^ 32 - 1) * length gone) % 2 ^ 32;
      } in
      if ltb 0 m.timeout_item_count then deliver gone fewer else ([], m)
