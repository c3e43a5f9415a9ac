-- ===== src/Connections/Pool.antt =====
-- The slots of the connection manager and when they are well-formed.
use sptag.Base.{
  ℕ, zero, suc, ◌+◌, ◌^◌, ◌%◌, ◌<◌, ◌≤◌, ◌≡◌, refl, ◌∙◌, sym, true, false, List, [], ◌∷◌, none,
  some, arith, ◌==◌, if◌then◌else◌, get_elem?, set, length, replicate, inl, inr, length-set,
  get_elem?-set, Bool-cases,
}
use sptag.Connections.{Slot, ConnectionManager, pool_size, new_manager, position}

-- the number of slots in use
unfoldable pub taken : List Slot → ℕ
taken [] = 0
taken (s ∷ ss) = (if s.is_empty then 0 else 1) + taken ss

taken-bound : (ss : List Slot) → taken ss ≤ length ss
unfolding taken
taken-bound [] = omega arith
taken-bound (s ∷ ss) = ground (arith, taken-bound ss)

pub taken-set :
    (ss : List Slot) (i : ℕ) (s t : Slot)
    → get_elem? ss i ≡ some s
    → taken (set ss i t) + (if s.is_empty then 0 else 1) ≡ taken ss + (if t.is_empty then 0 else 1)
unfolding taken
taken-set [] i s t h = absurd (ground arith)
taken-set (x ∷ ss) zero s t h = let e : x ≡ s = grind arith in rw e (omega arith)
taken-set (x ∷ ss) (suc i) s t h = omega (arith, taken-set ss i s t h)

pub free_slot :
    (ss : List Slot)
    → taken ss < length ss
    → (i : ℕ) × ((i < length ss) × ((s : Slot) × ((get_elem? ss i ≡ some s) × (s.is_empty ≡ true))))
unfolding taken
free_slot [] h = absurd (omega arith)
free_slot (x ∷ ss) h = elim (Bool-cases x.is_empty) [
  | inl e ↦ (0, (omega arith, (x, (refl, e))))
  | inr e ↦ let (i, (inside, rest)) = free_slot ss (ground arith) in (suc i, (omega arith, rest))
]

pub no_free_slot :
    (ss : List Slot) (i : ℕ) (s : Slot)
    → taken ss ≡ length ss
    → get_elem? ss i ≡ some s
    → s.is_empty ≡ false
no_free_slot ss i s full h =
    let c = taken-set ss i s (record { is_empty = false; connection = none }) h in
    let b = taken-bound (set ss i (record { is_empty = false; connection = none })) in
    let l = length-set ss i (record { is_empty = false; connection = none }) in ground arith

-- a free slot has no connection, and one in use has a connection whose id belongs there
pub data SlotFits (p : ℕ) : Slot → Type 0 where
  free : SlotFits p (record { is_empty = true; connection = none })
  used :
      (id : ℕ)
      → position id ≡ p
      → 0 < id
      → SlotFits p (record { is_empty = false; connection = some id })

pub record IsValid (m : ConnectionManager) : Type 0 where
  pub width : length m.connections ≡ pool_size
  pub counted : m.connection_count ≡ taken m.connections
  pub next : m.next_connection_id < 2 ^ 32
  pub in_place : (p : ℕ) (s : Slot) → get_elem? m.connections p ≡ some s → SlotFits p s

pub position-inside :
    (m : ConnectionManager) (id : ℕ)
    → length m.connections ≡ pool_size
    → position id < length m.connections
unfolding position
position-inside m id w = omega arith

pub get-write :
    (m : ConnectionManager) (id j : ℕ) (t : Slot)
    → length m.connections ≡ pool_size
    → get_elem? (set m.connections (position id) t) (position j)
      ≡ (if position id == position j then some t else get_elem? m.connections (position j))
unfolding position
get-write m id j t w = get_elem?-set m.connections (id % 256) (j % 256) t (omega arith)

-- The pool stays well-formed when the slot of an id is written over.
pub write-IsValid :
    (m : ConnectionManager) (id next n : ℕ) (old t : Slot)
    → IsValid m
    → get_elem? m.connections (position id) ≡ some old
    → SlotFits (position id) t
    → next < 2 ^ 32
    → n + (if old.is_empty then 0 else 1) ≡ m.connection_count + (if t.is_empty then 0 else 1)
    → IsValid (record {
      next_connection_id = next;
      connection_count = n;
      connections = set m.connections (position id) t;
    })
write-IsValid m id next n old t v h fits small count =
    let inside : position id < length m.connections = position-inside m id v.width in
    record {
      width = length-set m.connections (position id) t ∙ v.width;
      counted = omega (arith, taken-set m.connections (position id) old t h, v.counted);
      next = small;
      in_place = λ p s found. elim (Bool-cases (position id == p)) [
        | inl e ↦
            let q : position id ≡ p = ground arith in
            let st : t ≡ s = ground (arith, get_elem?-set m.connections (position id) p t inside) in
            rw (← q, ← st) fits
        | inr ne ↦
            v.in_place p s
              (sym (get_elem?-set m.connections (position id) p t inside ∙ rw ne refl) ∙ found)
      ];
    }

replicate-slot : (n : ℕ) (s t : Slot) (i : ℕ) → get_elem? (replicate n s) i ≡ some t → t ≡ s
replicate-slot zero s t i h = absurd (ground arith)
replicate-slot (suc n) s t zero h = grind arith
replicate-slot (suc n) s t (suc i) h = replicate-slot n s t i h

-- The pool of a new manager is well-formed.
pub new_manager-IsValid : IsValid new_manager
unfolding new_manager taken
new_manager-IsValid = record {
  width = refl;
  counted = refl;
  next = omega arith;
  in_place = λ p s h. rw (replicate-slot pool_size _ s p h) free;
}
