-- ===== src/Connections/Add.antt =====
-- `AddConnection` of ConnectionManager.cpp, on a pool with room and on a full one.
use sptag.Base.{
  suc, ℕ, ◌+◌, ◌<◌, ◌≡◌, ◌≢◌, refl, true, false, none, some, arith, ◌==◌, get_elem?, set, length,
  inl, inr, set-set_self, get_elem?-set, get_elem?-inside, ==_refl, Bool-cases,
}
use sptag.Connections.{
  Slot, ConnectionManager, pool_size, invalid_id, position, claim_loop, claim_fuel, add_connection,
  get_connection,
}
use sptag.Connections.Pool.{
  no_free_slot, SlotFits, free, used, IsValid, position-inside, get-write, write-IsValid,
}
use sptag.Connections.Claim.{Claimed, claims, fetched}

free-no_connection : (p : ℕ) (s : Slot) → SlotFits p s → s.is_empty ≡ true → s.connection ≡ none
free-no_connection p s free e = refl
free-no_connection p s (SlotFits.used id q pos) e = absurd (ground arith)

-- `m` with the connection `id` in its slot
abbrev with_connection : ConnectionManager → ℕ → ℕ → ConnectionManager
with_connection m id next = record {
  next_connection_id = next;
  connection_count = m.connection_count + 1;
  connections = set m.connections (position id) (record { is_empty = false; connection = some id });
}

add-run :
    (m : ConnectionManager) (id : ℕ) (c : ConnectionManager)
    → length m.connections ≡ pool_size
    → claim_loop claim_fuel m ≡ some (id, c)
    → Claimed m id c
    → add_connection m ≡ some (id, with_connection m id c.next_connection_id)
unfolding add_connection
add-run m id c w ran claimed =
    let s = claimed.empty_slot in
    let new_slot : Slot = record { is_empty = false; connection = some id } in
    let inside : position id < length m.connections = position-inside m id w in
    let again = set-set_self m.connections (position id) (record s { is_empty = false }) new_slot in
    let held =
      get_elem?-set m.connections (position id) (position id) (record s { is_empty = false })
        inside in
    let proper : (id == 0) ≡ false = ground (arith, claimed.proper) in
    rw (ran, proper, claimed.claimed, held, ==_refl (position id), again, claimed.same_count) refl

get-new :
    (m : ConnectionManager) (id next : ℕ)
    → length m.connections ≡ pool_size
    → get_connection (with_connection m id next) id ≡ some id
unfolding get_connection
get-new m id next w =
    rw
      (
        get-write m id id (record { is_empty = false; connection = some id }) w,
        ==_refl (position id),
      )
      (ground arith)

get-other :
    (m : ConnectionManager) (id next j : ℕ) (s : Slot)
    → length m.connections ≡ pool_size
    → get_elem? m.connections (position id) ≡ some s
    → s.connection ≡ none
    → j ≢ id
    → get_connection (with_connection m id next) j ≡ get_connection m j
unfolding get_connection
get-other m id next j s w h bare ne = elim (Bool-cases (position id == position j)) [
  | inl e ↦
      let q : position id ≡ position j = ground arith in
      let nid : (id == j) ≡ false = ground (arith, ne) in
      let there : get_elem? m.connections (position j) ≡ some s = rw (← q) h in
      rw
        (
          get-write m id j (record { is_empty = false; connection = some id }) w,
          e,
          nid,
          there,
          bare,
        )
        refl
  | inr n ↦ rw (get-write m id j (record { is_empty = false; connection = some id }) w, n) refl
]

-- On a well-formed pool with fewer than 256 connections AddConnection ends, within its fuel, with
-- a valid id under which the new connection is found; every other id finds what it found, and the
-- pool stays well-formed.
pub add_connection-adds :
    (m : ConnectionManager)
    → IsValid m
    → m.connection_count < pool_size
    → (id : ℕ) × ((t : ConnectionManager) × ((add_connection m ≡ some (id, t))
          × ((0 < id)
              × (IsValid t
                  × ((get_connection t id ≡ some id)
                      × ((j : ℕ) → j ≢ id → get_connection t j ≡ get_connection m j))))))
add_connection-adds m v few =
    let (id, (c, (ran, claimed))) = claims m v few in
    let s = claimed.empty_slot in
    let new_slot : Slot = record { is_empty = false; connection = some id } in
    let bare =
      free-no_connection (position id) s (v.in_place (position id) s claimed.found)
        claimed.is_free in
    let valid =
      write-IsValid m id c.next_connection_id (m.connection_count + 1) s new_slot v claimed.found
        (used id refl claimed.proper) claimed.next (ground (arith, claimed.is_free)) in
    (
      id,
      (
        with_connection m id c.next_connection_id,
        (
          add-run m id c v.width ran claimed,
          (
            claimed.proper,
            (
              valid,
              (
                get-new m id c.next_connection_id v.width,
                (λ j. get-other m id c.next_connection_id j s v.width claimed.found bare),
              ),
            ),
          ),
        ),
      ),
    )

claim-full :
    (fuel : ℕ) (m : ConnectionManager) (s : Slot)
    → m.connection_count ≡ pool_size
    → get_elem? m.connections (position m.next_connection_id) ≡ some s
    → s.is_empty ≡ false
    → claim_loop (suc fuel) m ≡ some (invalid_id, fetched m)
unfolding claim_loop
claim-full fuel m s full h busy = ground arith

add-invalid :
    (m t : ConnectionManager)
    → claim_loop claim_fuel m ≡ some (invalid_id, t)
    → add_connection m ≡ some (invalid_id, t)
unfolding add_connection
add-invalid m t run = rw run refl

-- On a well-formed full pool AddConnection returns the invalid id and keeps the connections.
pub add_connection-full :
    (m : ConnectionManager)
    → IsValid m
    → m.connection_count ≡ pool_size
    → (t : ConnectionManager) × ((add_connection m ≡ some (invalid_id, t))
        × (IsValid t × (t.connections ≡ m.connections)))
add_connection-full m v full =
    let inside = position-inside m m.next_connection_id v.width in
    let (s, h) = get_elem?-inside m.connections (position m.next_connection_id) inside in
    let used : s.is_empty ≡ false =
      no_free_slot m.connections (position m.next_connection_id) s
        (omega (arith, v.counted, v.width)) h in
    (
      fetched m,
      (
        add-invalid m (fetched m) (claim-full 511 m s full h used),
        (
          record {
            width = v.width;
            counted = v.counted;
            next = omega arith;
            in_place = v.in_place;
          },
          refl,
        ),
      ),
    )
