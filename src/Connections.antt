-- ===== src/Connections.antt =====
-- AnnService/src/Socket/ConnectionManager.cpp: the pool of connections. A connection stands as its
-- id; the calls run one after the other.
pub mod Pool
pub mod Claim
pub mod Add
pub mod Remove
mod Tests
use sptag.Base.{
  ℕ, zero, suc, ◌+◌, ◌-◌, ◌*◌, ◌^◌, ◌%◌, ◌<◌, ◌≤◌, ◌≡◌, refl, ap, ◌∙◌, sym, Bool, true, false, List,
  [], ◌∷◌, ◌++◌, Option, none, some, arith, ltb, leb, ◌==◌, if◌then◌else◌, get_elem?, set, length,
  replicate, ◌⊎◌, inl, inr, length-append, length-replicate, length-set, get_elem?-set,
  get_elem?-inside, ◌>>=◌, Bool-cases,
}

-- `ConnectionItem`
pub record Slot : Type 0 where
  pub is_empty : Bool
  pub connection : Option ℕ

pub record ConnectionManager : Type 0 where
  pub next_connection_id : ℕ
  pub connection_count : ℕ
  pub connections : List Slot

abbrev pub pool_size : ℕ
pool_size = 256

abbrev pub invalid_id : ℕ
invalid_id = 0

pub new_manager : ConnectionManager
new_manager = record {
  next_connection_id = 1;
  connection_count = 0;
  connections = replicate pool_size (record { is_empty = true; connection = none });
}

-- `id & c_connectionPoolMask`
pub position : ℕ → ℕ
position id = id % 256

-- The loop of `AddConnection`: an id is fetched and its slot claimed.
pub claim_loop : ℕ → ConnectionManager → Option (ℕ × ConnectionManager)
claim_loop zero m = none
claim_loop (suc fuel) m =
    let id = m.next_connection_id in
    let fetched = record m { next_connection_id = (id + 1) % 2 ^ 32 } in
    let again = claim_loop fuel fetched in
    let refused = if leb pool_size m.connection_count then some (invalid_id, fetched) else again in
    let claim : Option (ℕ × ConnectionManager) = (do
      s ← get_elem? m.connections (position id)
      let taken = set m.connections (position id) (record s { is_empty = false })
      if s.is_empty then some (id, record fetched { connections = taken }) else refused) in
    if id == invalid_id then refused else claim

-- Two rounds of the pool find a free slot, since one id of them may be the invalid one.
abbrev pub claim_fuel : ℕ
claim_fuel = 512

pub add_connection : ConnectionManager → Option (ℕ × ConnectionManager)
add_connection m = do
  (id, claimed) ← claim_loop claim_fuel m
  let done : Option (ℕ × ConnectionManager) = (do
    s ← get_elem? claimed.connections (position id)
    some (
      id,
      record claimed {
        connection_count = claimed.connection_count + 1;
        connections = set claimed.connections (position id) (record s { connection = some id });
      },
    ))
  if id == invalid_id then some (invalid_id, claimed) else done

-- the id that `m_eventOnRemoving` is called with, if it is set; `Stop` of no connection is a fault
pub remove_connection : ConnectionManager → ℕ → Option (Option ℕ × ConnectionManager)
remove_connection m id = do
  s ← get_elem? m.connections (position id)
  let removed : Option (Option ℕ × ConnectionManager) = (do
    _ ← s.connection
    some (
      some id,
      record m {
        connection_count = m.connection_count - 1;
        connections =
            set m.connections (position id) (record { is_empty = true; connection = none });
      },
    ))
  if s.is_empty then some (none, m) else removed

pub get_connection : ConnectionManager → ℕ → Option ℕ
get_connection m id = do
  s ← get_elem? m.connections (position id)
  found ← s.connection
  if found == id then some found else none
