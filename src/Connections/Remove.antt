-- ===== src/Connections/Remove.antt =====
-- `RemoveConnection` of ConnectionManager.cpp.
use sptag.Base.{
  ℕ, ◌-◌, ◌≡◌, ◌≢◌, refl, true, false, none, some, arith, ◌==◌, get_elem?, set, get_elem?-inside,
  ==_refl,
}
use sptag.Connections.{Slot, ConnectionManager, position, remove_connection, get_connection}
use sptag.Connections.Pool.{
  taken-set, SlotFits, free, IsValid, position-inside, get-write, write-IsValid,
}

used-slot : (p id : ℕ) (s : Slot) → SlotFits p s → s.connection ≡ some id → s.is_empty ≡ false
used-slot p id s free e = absurd (ground arith)
used-slot p id s (SlotFits.used other q pos) e = refl

held-connection :
    (m : ConnectionManager) (held : ℕ) (s : Slot)
    → get_elem? m.connections (position held) ≡ some s
    → get_connection m held ≡ some held
    → s.connection ≡ some held
unfolding get_connection
held-connection m held s h there = ground arith

-- Where an id finds its connection, RemoveConnection of any id of the same position, that id or
-- another, removes that connection and calls the handler with the id it was given; ids of other
-- positions find what they found, and the pool stays well-formed.
pub remove_connection-removes :
    (m : ConnectionManager) (id held : ℕ)
    → IsValid m
    → position held ≡ position id
    → get_connection m held ≡ some held
    → (t : ConnectionManager) × ((remove_connection m id ≡ some (some id, t))
        × (IsValid t
            × ((get_connection t held ≡ none)
                × ((j : ℕ) → position j ≢ position id → get_connection t j ≡ get_connection m j))))
unfolding remove_connection get_connection
remove_connection-removes m id held v same there =
    let (s, h) = get_elem?-inside m.connections (position id) (position-inside m id v.width) in
    let here = held-connection m held s (rw same h) there in
    let busy = used-slot (position id) held s (v.in_place (position id) s h) here in
    let bare : Slot = record { is_empty = true; connection = none } in
    let count = taken-set m.connections (position id) s bare h in
    let valid =
      write-IsValid m id m.next_connection_id (m.connection_count - 1) s bare v h free v.next
        (ground (arith, v.counted, count)) in
    let gone : (position id == position held) ≡ true = rw same (==_refl (position id)) in
    (
      record m {
        connection_count = m.connection_count - 1;
        connections = set m.connections (position id) bare;
      },
      (
        rw (h, busy, here) refl,
        (
          valid,
          (
            rw (get-write m id held bare v.width, gone) refl,
            (λ j apart. rw (get-write m id j bare v.width) (ground arith)),
          ),
        ),
      ),
    )
